-- ===== src/Base/Raises.antt =====
-- Python exceptions as values, with `do` for the code that may raise.
use mathlib.Core.Path.{◌≡◌, refl}
use mathlib.Core.Logic.{◌≢◌}

pub data Exc : Type 0 where
  type_error value_error illegal_transition validation_error : Exc
  execution_error execution_timeout journal_error overflow_error other_error : Exc

pub data Raises (A : Type 0) : Type 0 where
  ok : A → Raises A
  raised : Exc → Raises A

pub ok_injective : {A : Type 0} {a b : A} → ok a ≡ ok b → a ≡ b
ok_injective h = cc

infixl 5 ◌>>=◌
abbrev pub ◌>>=◌ : {A B : Type 0} → Raises A → (A → Raises B) → Raises B
raised e >>= f = raised e
ok a >>= f = f a

-- A chain that returns went through a value of its first call.
pub >>=-eq-ok :
    {A B : Type 0} (call : Raises A) (next : A → Raises B) {b : B}
    → (call >>= next) ≡ ok b
    → (a : A) × (call ≡ ok a) × (next a ≡ ok b)
>>=-eq-ok (raised e) next h = cc
>>=-eq-ok (ok a) next h = (a, refl, h)

-- The call ends with a value.
abbrev pub Returns : {A : Type 0} → Raises A → Type 0
Returns {A} m = (a : A) × (m ≡ ok a)

pub Returns-of : {A : Type 0} (m : Raises A) → ((e : Exc) → m ≢ raised e) → Returns m
Returns-of (ok a) h = (a, refl)
Returns-of (raised e) h = absurd (h e refl)

-- A chain of calls that return returns.
pub >>=-Returns :
    {A B : Type 0} (call : Raises A) (next : A → Raises B)
    → Returns call
    → ((a : A) → Returns (next a))
    → Returns (call >>= next)
>>=-Returns (ok a) next h k = k a
>>=-Returns (raised e) next (a, h) k = absurd cc

pub >>=-assoc :
    {A B C : Type 0} (m : Raises A) (f : A → Raises B) (g : B → Raises C)
    → ((m >>= f) >>= g) ≡ (m >>= (λ a. f a >>= g))
>>=-assoc (raised e) f g = refl
>>=-assoc (ok a) f g = refl
