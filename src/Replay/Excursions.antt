-- ===== src/Replay/Excursions.antt =====
-- backend/replay/outcome_engine.py: the greatest and the least excursion that an outcome reports, and
-- when it reports none.
use theta_plus.Base.{
  ℕ, suc, ◌+◌, ◌≡◌, true, false, Option, some, List, [], ◌∷◌, arith, All, take, if_ind, ◌&&◌,
}
use theta_plus.Base.Float.{Float, f_max, f_min}
use theta_plus.Clock.{Timestamp}
use theta_plus.Config.{AppConfig}
use theta_plus.Replay.Observation.{OptionObservation, hi, lo}
use theta_plus.Replay.Models.{ReplaySignal, SignalOutcome}
use theta_plus.Replay.Outcome.{
  Walk, seen, past, goal_of, stop_of, walk_from, walk_all, evaluate_outcome,
}

-- `<` on floats, NaN included, is irreflexive and transitive.
pub record IsOrdered {F : Type 0} (fl : Float F) : Type 0 where
  pub irreflexive : (a : F) → fl.lt a a ≡ false
  pub transitive : (a b c : F) → fl.lt a b ≡ true → fl.lt b c ≡ true → fl.lt a c ≡ true

All-take-from_nought :
    {A : Type 0} (P : A → Type 0) (n used : ℕ) (xs : List A)
    → used ≡ 0 + n
    → All P (take n xs)
    → All P (take used xs)
All-take-from_nought P n used xs e h = let same : used ≡ n = omega (arith, e) in rw same h

module _ {F : Type 0} ⦃fl : Float F⦄ where
  -- Neither bound is passed by the excursions of an observation.
  abbrev pub IsWithin : F → Option F → Option F → OptionObservation F → Type 0
  IsWithin entry (some best) (some worst) obs =
      (fl.lt best (fl.round2 (fl.sub (hi obs) entry)) ≡ false)
      × (fl.lt (fl.round2 (fl.sub (lo obs) entry)) worst ≡ false)
  IsWithin entry _ _ obs = ⊥

  module _ (ord : IsOrdered fl) where
    f_max-keeps : (a b x : F) → fl.lt a x ≡ false → fl.lt (f_max a b) x ≡ false
    f_max-keeps a b x h = ground (arith, ord.transitive a b x)

    f_max-takes : (a b : F) → fl.lt (f_max a b) b ≡ false
    f_max-takes a b = ground (arith, ord.irreflexive b)

    f_min-keeps : (a b x : F) → fl.lt x a ≡ false → fl.lt x (f_min a b) ≡ false
    f_min-keeps a b x h = ground (arith, ord.transitive x b a)

    f_min-takes : (a b : F) → fl.lt b (f_min a b) ≡ false
    f_min-takes a b = ground (arith, ord.irreflexive b)

    module _ (entry : F) where
      -- What the outcome reports of a walk that goes on through the observations.
      abbrev Reports : Walk F → List (OptionObservation F) → Option F → Option F → ℕ → Type 0
      Reports walk observations best worst used =
          ((x : OptionObservation F)
            → IsWithin entry (some walk.mfe) (some walk.mae) x
            → IsWithin entry best worst x)
          × (n : ℕ) × (used ≡ walk.used + n)
          × All (IsWithin entry best worst) (take n observations)

      abbrev Reported : Walk F → List (OptionObservation F) → SignalOutcome F → Type 0
      Reported walk observations o = Reports walk observations o.mfe o.mae o.observations_used

      stopped :
          (walk : Walk F) (rest : List (OptionObservation F))
          → Reports walk rest (some walk.mfe) (some walk.mae) walk.used
      stopped walk rest = (λ x h. h, 0, omega arith, tt)

      Reports-seen :
          (walk : Walk F) (obs : OptionObservation F) (rest : List (OptionObservation F))
          (best worst : Option F) (used : ℕ)
          → Reports (seen entry walk obs) rest best worst used
          → Reports walk (obs ∷ rest) best worst used
      Reports-seen walk obs rest best worst used (keeps, n, sum, within) = (
        λ x h. keeps x (f_max-keeps walk.mfe _ _ h.0, f_min-keeps walk.mae _ _ h.1),
        suc n,
        omega arith,
        (keeps obs (f_max-takes walk.mfe _, f_min-takes walk.mae _), within),
      )

      walk_from-Reports :
          (signal : ReplaySignal F) (goal stop : F) (inv : Option Timestamp) (walk : Walk F)
          (last : OptionObservation F) (observations : List (OptionObservation F))
          → Reported walk observations (walk_from signal entry goal stop inv walk last observations)
      unfolding walk_from
      walk_from-Reports signal goal stop inv walk last [] = stopped walk []
      walk_from-Reports signal goal stop inv walk last (obs ∷ rest) =
          let walk' = seen entry walk obs in
          Reports-seen walk obs rest _ _ _ (
            if_ind (Reported walk' rest) (past inv obs) (stopped walk' rest) (
              if_ind (Reported walk' rest) (fl.le goal (hi obs) && fl.le (lo obs) stop)
                (stopped walk' rest)
                (if_ind (Reported walk' rest) (fl.le goal (hi obs)) (stopped walk' rest) (
                  if_ind (Reported walk' rest) (fl.le (lo obs) stop) (stopped walk' rest)
                    (walk_from-Reports signal goal stop inv walk' obs rest)))))

    -- Of all observations that an outcome uses, none rises above its MFE and none falls below its
    -- MAE.
    pub evaluate_outcome-excursions :
        (config : AppConfig F) (signal : ReplaySignal F) (entry : F) (obs : OptionObservation F)
        (rest : List (OptionObservation F)) (inv : Option Timestamp)
        → fl.le entry fl.nought ≡ false
        → let o = evaluate_outcome config signal (some entry) (obs ∷ rest) inv in
          All (IsWithin entry o.mfe o.mae) (take o.observations_used (obs ∷ rest))
    unfolding evaluate_outcome walk_all
    evaluate_outcome-excursions config signal entry obs rest inv h = rw h (
        let (keeps, n, used, within) =
          walk_from-Reports entry signal (goal_of config entry) (stop_of config entry) inv
            (record { used = 0; mfe = fl.nought; mae = fl.nought }) obs (obs ∷ rest) in
        All-take-from_nought _ n _ (obs ∷ rest) used within)
