-- ===== src/Base/Effects.antt =====
-- Methods that change a state and may raise. The state comes back after an exception too, since what
-- was written stays written.
use mathlib.Core.Bool.{Bool, true, false}
use theta_plus.Base.Tests.{if◌then◌else◌}
use theta_plus.Base.Raises.{Raises, ok, raised, Exc}

abbrev pub M : Type 0 → Type 0 → Type 0
M S A = S → Raises A × S

module _ {S : Type 0} where
  infixl 5 ◌>>=◌ ◌>>◌
  abbrev pub pure : {A : Type 0} → A → M S A
  pure a s = (ok a, s)

  abbrev pub raise : {A : Type 0} → Exc → M S A
  raise e s = (raised e, s)

  abbrev pub modify : (S → S) → M S (Unit {0})
  modify f s = (ok tt, f s)

  abbrev pub gets : {A : Type 0} → (S → A) → M S A
  gets f s = (ok (f s), s)

  abbrev pub continue : {A B : Type 0} → Raises A → (A → M S B) → M S B
  continue (ok a) f = f a
  continue (raised e) f = raise e

  abbrev pub ◌>>=◌ : {A B : Type 0} → M S A → (A → M S B) → M S B
  ◌>>=◌ m f s = let (r, t) = m s in continue r f t

  abbrev pub ◌>>◌ : {A B : Type 0} → M S A → M S B → M S B
  m >> n = m >>= λ _. n

  -- `try: m` with a handler that sees every exception.
  abbrev pub attempt : {A : Type 0} → M S A → M S (Raises A)
  attempt m s = let (r, t) = m s in (ok r, t)

  -- What holds before an action holds after it, however it ends.
  abbrev pub Keeps : {A : Type 0} → (S → Type 0) → M S A → Type 0
  Keeps P m = (s : S) → P s → P (m s).1

  pub Keeps-continue :
      {A B : Type 0} (P : S → Type 0) (r : Raises A) (f : A → M S B)
      → ((a : A) → Keeps P (f a))
      → Keeps P (continue r f)
  Keeps-continue P (ok a) f h = h a
  Keeps-continue P (raised e) f h = λ s p. p

  pub Keeps-bind :
      {A B : Type 0} (P : S → Type 0) (m : M S A) (f : A → M S B)
      → Keeps P m
      → ((a : A) → Keeps P (f a))
      → Keeps P (m >>= f)
  Keeps-bind P m f hm hf s p = Keeps-continue P (m s).0 f hf (m s).1 (hm s p)

  pub Keeps-if :
      {A : Type 0} (P : S → Type 0) (b : Bool) (m n : M S A)
      → Keeps P m
      → Keeps P n
      → Keeps P (if b then m else n)
  Keeps-if P true m n hm hn = hm
  Keeps-if P false m n hm hn = hn

  -- `Q` after a value, `R` after an exception.
  abbrev pub Outcome : {A : Type 0} → (S → Type 0) → (S → Type 0) → Raises A → S → Type 0
  Outcome Q R (ok a) t = Q t
  Outcome Q R (raised e) t = R t
