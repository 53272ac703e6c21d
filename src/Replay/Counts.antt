-- ===== src/Replay/Counts.antt =====
-- backend/replay/metrics.py: what its counts of signals and outcomes count.
use theta_plus.Base.{
  suc, ◌+◌, ◌≡◌, refl, sym, ap, Bool, true, List, [], ◌∷◌, length, select, map, arith, is_some, All,
  ℕ, Bool-cases, inl, inr,
}
use theta_plus.Engine.Models.{Decision, ce_setup, pe_setup, waiting, is_setup, is_invalidation}
use theta_plus.Replay.Models.{
  ReplaySignal, SignalOutcome, OutcomeState, target, stoploss, invalidated, expired, ambiguous,
  no_data,
}
use theta_plus.Replay.Metrics.{is_exit_state, exits, tally, is_wait, is_ce, is_pe}
use theta_plus.Replay.Setups.{is_tradable}

-- So many of the elements have the property.
pub data Count {A : Type 0} (P : A → Type 0) : List A → ℕ → Type 0 where
  no_more : Count P [] 0
  one_more : (x : A) (xs : List A) (n : ℕ) → P x → Count P xs n → Count P (x ∷ xs) (suc n)
  passed_over : (x : A) (xs : List A) (n : ℕ) → ¬ P x → Count P xs n → Count P (x ∷ xs) n

module _ {A : Type 0} (test : A → Bool) (P : A → Type 0) (sound : (x : A) → test x ≡ true → P x)
    (complete : (x : A) → P x → test x ≡ true) where
  pub Count-select : (xs : List A) → Count P xs (length (select test xs))
  Count-select [] = no_more
  Count-select (x ∷ xs) = elim (Bool-cases (test x)) [
    | inl e ↦ rw e (one_more x xs _ (sound x e) (Count-select xs))
    | inr e ↦ rw e (passed_over x xs _ (λ p. let t = complete x p in absurd cc) (Count-select xs))
  ]

is_exit_state-eq : (s t : OutcomeState) → is_exit_state s t ≡ true → t ≡ s
is_exit_state-eq target target h = refl
is_exit_state-eq stoploss stoploss h = refl
is_exit_state-eq invalidated invalidated h = refl
is_exit_state-eq expired expired h = refl
is_exit_state-eq ambiguous ambiguous h = refl
is_exit_state-eq no_data no_data h = refl
is_exit_state-eq _ _ h = absurd cc

is_exit_state_refl : (s : OutcomeState) → is_exit_state s s ≡ true
is_exit_state_refl target = refl
is_exit_state_refl stoploss = refl
is_exit_state_refl invalidated = refl
is_exit_state_refl expired = refl
is_exit_state_refl ambiguous = refl
is_exit_state_refl no_data = refl

pub is_ce-eq : (d : Decision) → is_ce d ≡ true → d ≡ ce_setup
is_ce-eq ce_setup h = refl
is_ce-eq _ h = absurd cc

pub is_pe-eq : (d : Decision) → is_pe d ≡ true → d ≡ pe_setup
is_pe-eq pe_setup h = refl
is_pe-eq _ h = absurd cc

pub is_wait-eq : (d : Decision) → is_wait d ≡ true → d ≡ waiting
is_wait-eq waiting h = refl
is_wait-eq _ h = absurd cc

module _ {F : Type 0} where
  pub all_exits :
      (outcomes : List (SignalOutcome F))
      → length outcomes
        ≡ exits target outcomes
          + exits stoploss outcomes
          + exits invalidated outcomes
          + exits expired outcomes
          + exits ambiguous outcomes
          + exits no_data outcomes
  all_exits [] = omega arith
  all_exits (o ∷ outcomes) = ground (arith, all_exits outcomes)

  pub sides :
      (signals : List (ReplaySignal F))
      → length (select (λ s. is_setup s.decision) signals)
        ≡ length (select (λ s. is_ce s.decision) (select (λ s. is_setup s.decision) signals))
          + length (select (λ s. is_pe s.decision) (select (λ s. is_setup s.decision) signals))
  sides [] = omega arith
  sides (s ∷ signals) = ground (arith, sides signals)

  pub decisions :
      (signals : List (ReplaySignal F))
      → length signals
        ≡ length (select (λ s. is_setup s.decision) signals)
          + tally (λ s. is_wait s.decision) signals
          + tally (λ s. is_invalidation s.decision) signals
  decisions [] = omega arith
  decisions (s ∷ signals) = ground (arith, decisions signals)

  pub all_tradable :
      (signals : List (ReplaySignal F))
      → All (λ s. is_some s.atm ≡ true) signals
      → select is_tradable signals ≡ select (λ s. is_setup s.decision) signals
  all_tradable [] h = refl
  all_tradable (s ∷ signals) h = ground (arith, all_tradable signals h.1)

module _ {F : Type 0} where
  pub exits-Count :
      (state : OutcomeState) (outcomes : List (SignalOutcome F))
      → Count (λ (o : SignalOutcome F). o.exit_state ≡ state) outcomes (exits state outcomes)
  exits-Count state outcomes =
      Count-select (λ (o : SignalOutcome F). is_exit_state o.exit_state state) _
        (λ o e. sym (is_exit_state-eq o.exit_state state e))
        (λ o e. rw e (is_exit_state_refl state)) outcomes

  pub only_ce :
      (signals : List (ReplaySignal F))
      → length (select (λ s. is_ce s.decision) (select (λ s. is_setup s.decision) signals))
        ≡ length (select (λ s. is_ce s.decision) signals)
  only_ce [] = refl
  only_ce (s ∷ signals) = ground (arith, only_ce signals)

  pub only_pe :
      (signals : List (ReplaySignal F))
      → length (select (λ s. is_pe s.decision) (select (λ s. is_setup s.decision) signals))
        ≡ length (select (λ s. is_pe s.decision) signals)
  only_pe [] = refl
  only_pe (s ∷ signals) = ground (arith, only_pe signals)

pub length-map : {A B : Type 0} (f : A → B) (xs : List A) → length (map f xs) ≡ length xs
length-map f [] = refl
length-map f (x ∷ xs) = ap suc (length-map f xs)
