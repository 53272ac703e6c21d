-- ===== src/Replay/Days.antt =====
-- backend/replay/replay_engine.py: a replay looks neither ahead nor back over a night.
use mathlib.Core.List.{◌++◌ as append_list}
use theta_plus.Base.{
  ℕ, ◌≡◌, ◌≢◌, refl, sym, ap, ◌∙◌, true, false, Option, none, some, String, List, [], ◌∷◌, ◌++◌,
  arith, All, if_cases,
}
use theta_plus.Base.Float.{Float, Format}
use theta_plus.Base.Raises.{Raises, ok, raised, ok_injective, ◌>>=◌, >>=-eq-ok}
use theta_plus.Clock.{date_of}
use theta_plus.Config.{AppConfig}
use theta_plus.Market.{MarketSnapshot}
use theta_plus.Engine.Signal.{evaluate_and_apply}
use theta_plus.Features.Build.{build_features}
use theta_plus.Replay.Models.{ReplaySignal}
use theta_plus.Replay.Session.{
  Session, same_date, cons_signal, blank, enter, skips, evaluate_snapshot, replay_step, replay_from,
  replay_ordered,
}

module _ {F : Type 0} ⦃fl : Float F⦄ ⦃fm : Format F⦄ (uuid5 : String → String)
    (config : AppConfig F) where
  abbrev Outcome : Type 0
  Outcome = List (ReplaySignal F) × Session F

  abbrev prefixed : List (ReplaySignal F) → Outcome → Raises Outcome
  prefixed xs b = ok (xs ++ b.0, b.1)

  abbrev consed : Option (ReplaySignal F) → Outcome → Raises Outcome
  consed one rest = ok (cons_signal one rest.0, rest.1)

  -- Two runs, one after the other.
  abbrev joined : Raises Outcome → (Session F → Raises Outcome) → Raises Outcome
  joined r k = r >>= (λ a. k a.1 >>= prefixed a.0)

  cons_after :
      (one : Option (ReplaySignal F)) (xs : List (ReplaySignal F)) (r : Raises Outcome)
      → ((r >>= prefixed xs) >>= consed one) ≡ (r >>= prefixed (cons_signal one xs))
  cons_after one xs (raised e) = refl
  cons_after none xs (ok b) = refl
  cons_after (some s) xs (ok b) = refl

  joined-cons :
      (one : Option (ReplaySignal F)) (r : Raises Outcome) (k : Session F → Raises Outcome)
      → (joined r k >>= consed one) ≡ joined (r >>= consed one) k
  joined-cons one (raised e) k = refl
  joined-cons one (ok (xs, s)) k = cons_after one xs (k s)

  joined-nil : (r : Raises Outcome) → r ≡ (r >>= prefixed [])
  joined-nil (raised e) = refl
  joined-nil (ok b) = refl

  stepped :
      (step : Raises (Option (ReplaySignal F) × Session F))
      (first whole : Session F → Raises Outcome) (k : Session F → Raises Outcome)
      → ((t : Session F) → whole t ≡ joined (first t) k)
      → (step >>= (λ one. whole one.1 >>= consed one.0))
        ≡ joined (step >>= (λ one. first one.1 >>= consed one.0)) k
  stepped (raised e) first whole k h = refl
  stepped (ok (one, t)) first whole k h =
      ap (λ r. r >>= consed one) (h t) ∙ joined-cons one (first t) k

  replay_from-append :
      (s : Session F) (xs ys : List (MarketSnapshot F))
      → replay_from uuid5 config s (xs ++ ys)
        ≡ joined (replay_from uuid5 config s xs) (λ t. replay_from uuid5 config t ys)
  unfolding replay_from
  replay_from-append s [] ys = joined-nil (replay_from uuid5 config s ys)
  replay_from-append s (x ∷ xs) ys =
      stepped (replay_step uuid5 config x s) (λ t. replay_from uuid5 config t xs)
        (λ t. replay_from uuid5 config t (xs ++ ys)) (λ t. replay_from uuid5 config t ys)
        (λ t. replay_from-append t xs ys)

  evaluate_snapshot-date :
      (x : MarketSnapshot F) (s : Session F) (r : Option (ReplaySignal F) × Session F)
      → evaluate_snapshot uuid5 config x s ≡ ok r
      → r.1.date ≡ s.date
  unfolding evaluate_snapshot
  evaluate_snapshot-date x s r e =
      let (f, built, rest) =
        >>=-eq-ok (build_features config x _ s.pcr_hist s.prev_snapshot none) _ e in
      let (d, decided, ends) =
        >>=-eq-ok (evaluate_and_apply s.memory f config x.timestamp) _ rest in
      sym (ap (λ p. p.1.date) (ok_injective ends))

  pub same_date-some : (o : Option ℕ) (d : ℕ) → same_date o d ≡ true → o ≡ some d
  same_date-some none d h = absurd cc
  same_date-some (some c) d h = ground arith

  enter-date : (d : ℕ) (s : Session F) → (enter uuid5 d s).date ≡ some d
  unfolding enter
  enter-date d s =
      if_cases (λ (t : Session F). t.date ≡ some d) (same_date s.date d)
        (λ same. same_date-some s.date d same) (λ _. refl)

  -- A step ends in the session of its snapshot's date.
  pub replay_step-date :
      (x : MarketSnapshot F) (s : Session F) (r : Option (ReplaySignal F) × Session F)
      → replay_step uuid5 config x s ≡ ok r
      → r.1.date ≡ some (date_of x.timestamp)
  unfolding replay_step
  replay_step-date x s r e =
      let t = enter uuid5 (date_of x.timestamp) s in
      if_cases {A = Raises (Option (ReplaySignal F) × Session F)}
        (λ m. (m ≡ ok r) → r.1.date ≡ t.date) (skips uuid5 config x.timestamp)
        (λ _ same. sym (ap (λ p. p.1.date) (ok_injective same))) (λ _. evaluate_snapshot-date x t r)
        e
      ∙ enter-date (date_of x.timestamp) s

  -- No snapshot before the day has left its session open.
  replay_from-other_day :
      (d : ℕ) (s : Session F) (xs : List (MarketSnapshot F)) (r : Outcome)
      → same_date s.date d ≡ false
      → All (λ x. date_of x.timestamp ≢ d) xs
      → replay_from uuid5 config s xs ≡ ok r
      → same_date r.1.date d ≡ false
  unfolding replay_from
  replay_from-other_day d s [] r closed other e =
      rw (sym (ap (λ (o : Outcome). o.1.date) (ok_injective e))) closed
  replay_from-other_day d s (x ∷ xs) r closed other e =
      let (one, stepped_to, rest) = >>=-eq-ok (replay_step uuid5 config x s) _ e in
      let (more, went_on, ends) = >>=-eq-ok (replay_from uuid5 config one.1 xs) _ rest in
      let there = replay_step-date x s one stepped_to in
      let away = replay_from-other_day d one.1 xs more (rw there (ground arith)) other.1 went_on in
      rw (sym (ap (λ (o : Outcome). o.1.date) (ok_injective ends))) away

  -- A session of another day is dropped.
  replay_from-new_day :
      (s : Session F) (y : MarketSnapshot F) (ys : List (MarketSnapshot F))
      → same_date s.date (date_of y.timestamp) ≡ false
      → replay_from uuid5 config s (y ∷ ys) ≡ replay_from uuid5 config (blank uuid5) (y ∷ ys)
  unfolding replay_from replay_step enter
  replay_from-new_day s y ys closed = rw closed refl

  abbrev signals_of : Outcome → Raises (List (ReplaySignal F))
  signals_of o = ok o.0

  joined_signals :
      (o : Outcome) (later : Raises Outcome)
      → ((later >>= prefixed o.0) >>= signals_of)
        ≡ ((later >>= signals_of) >>= (λ b. ok (o.0 ++ b)))
  joined_signals o (raised e) = refl
  joined_signals o (ok b) = refl

  joined-signals_of :
      (r : Raises Outcome) (k : Session F → Raises Outcome) (later : Raises Outcome)
      → ((o : Outcome) → r ≡ ok o → k o.1 ≡ later)
      → (joined r k >>= signals_of)
        ≡ ((r >>= signals_of) >>= (λ a. (later >>= signals_of) >>= (λ b. ok (a ++ b))))
  joined-signals_of (raised e) k later h = refl
  joined-signals_of (ok o) k later h =
      ap (λ m. (m >>= prefixed o.0) >>= signals_of) (h o refl) ∙ joined_signals o later

  -- Where no earlier snapshot is from the day of `y`, the signals from `y` on are those of a replay
  -- that begins with `y`: of the bars, the PCR history, the snapshot before and the memory, nothing
  -- passes from one day to the next.
  pub replay_ordered-new_day :
      (xs : List (MarketSnapshot F)) (y : MarketSnapshot F) (ys : List (MarketSnapshot F))
      → All (λ x. date_of x.timestamp ≢ date_of y.timestamp) xs
      → replay_ordered uuid5 config (xs ++ y ∷ ys) ≡ (
          replay_ordered uuid5 config xs
          >>= (λ a. replay_ordered uuid5 config (y ∷ ys) >>= (λ b. ok (a ++ b))))
  unfolding replay_ordered
  replay_ordered-new_day xs y ys other =
      ap (λ r. r >>= signals_of) (replay_from-append (blank uuid5) xs (y ∷ ys))
      ∙ joined-signals_of (replay_from uuid5 config (blank uuid5) xs)
          (λ t. replay_from uuid5 config t (y ∷ ys))
          (replay_from uuid5 config (blank uuid5) (y ∷ ys))
          (λ o e.
            replay_from-new_day o.1 y ys
              (replay_from-other_day (date_of y.timestamp) (blank uuid5) xs o refl other e))

  -- Where a whole replay returns, a replay of its first snapshots returns too, and with the first of its
  -- signals.
  pub replay_ordered-append :
      (xs ys : List (MarketSnapshot F)) (out : List (ReplaySignal F))
      → replay_ordered uuid5 config (xs ++ ys) ≡ ok out
      → (a : List (ReplaySignal F)) × (b : List (ReplaySignal F)) × (replay_ordered uuid5 config xs
          ≡ ok a)
        × (out ≡ a ++ b)
  unfolding replay_ordered
  replay_ordered-append xs ys out e =
      let (whole, ran, ends) =
        >>=-eq-ok
          (joined (replay_from uuid5 config (blank uuid5) xs) (λ t. replay_from uuid5 config t ys))
          signals_of
          (sym (ap (λ r. r >>= signals_of) (replay_from-append (blank uuid5) xs ys)) ∙ e) in
      let (first, began, later) = >>=-eq-ok (replay_from uuid5 config (blank uuid5) xs) _ ran in
      let (second, went_on, total) = >>=-eq-ok (replay_from uuid5 config first.1 ys) _ later in
      (
        first.0,
        second.0,
        ap (λ r. r >>= signals_of) began,
        sym (ok_injective ends) ∙ sym (ap (λ (o : Outcome). o.0) (ok_injective total)),
      )
