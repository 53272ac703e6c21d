-- ===== src/Replay/Totality.antt =====
-- backend/replay/replay_engine.py: a replay of usable snapshots raises nothing.
use theta_plus.Base.{
  ◌+◌, ◌*◌, ◌<◌, ◌≡◌, refl, true, false, Option, none, some, String, List, [], ◌∷◌, ◌++◌, arith,
  All, if_ind, ℕ,
}
use theta_plus.Base.Int.{ℤ, pos, leb_ℤ}
use theta_plus.Base.Float.{Float, Format}
use theta_plus.Base.Raises.{Raises, ok, Returns, >>=-Returns}
use theta_plus.Clock.{date_of, minute, end_of_time}
use theta_plus.Config.{AppConfig}
use theta_plus.Market.{MarketSnapshot}
use theta_plus.Features.Chain.{calculate_atm}
use theta_plus.Features.Build.{or_interval, previous_pcr}
use theta_plus.Features.Totality.{build_features_total}
use theta_plus.Features.Faultless.{evaluate_and_apply-build_features}
use theta_plus.Replay.Models.{ReplaySignal}
use theta_plus.Replay.Session.{
  Session, session_bar, blank, enter, same_date, skips, evaluate_snapshot, replay_step, replay_from,
  replay_ordered,
}

or_interval-positive :
    (a b : ℤ)
    → leb_ℤ (pos 0) a ≡ true
    → leb_ℤ b (pos 0) ≡ false
    → leb_ℤ (or_interval a b) (pos 0) ≡ false
or_interval-positive a b h k = ground arith

module _ {F : Type 0} ⦃fl : Float F⦄ where
  -- The interval is not negative, and the price can be rounded to a strike.
  pub record IsUsable (x : MarketSnapshot F) : Type 0 where
    pub interval : leb_ℤ (pos 0) x.chain.strike_interval ≡ true
    pub price :
        (i : ℤ)
        → leb_ℤ i (pos 0) ≡ false
        → Returns
            (fl.floor (fl.add (fl.div x.tick.close (fl.of_int i)) (fl.int_div (pos 1) (pos 2))))

  calculate_atm_total :
      (x : MarketSnapshot F) (i : ℤ)
      → IsUsable x
      → leb_ℤ i (pos 0) ≡ false
      → Returns (calculate_atm x.tick.close i)
  unfolding calculate_atm
  calculate_atm_total x i u h = rw h (>>=-Returns _ _ (u.price i h) (λ steps. (_, refl)))

  -- The snapshot before, if there is one.
  abbrev Before : Option (MarketSnapshot F) → Type 0
  Before none = Unit
  Before (some x) = IsUsable x

module _ {F : Type 0} ⦃fl : Float F⦄ ⦃fm : Format F⦄ (uuid5 : String → String)
    (config : AppConfig F)
    (some_interval : leb_ℤ (pos config.strike_interval) (pos 0) ≡ false) where
  previous_pcr_total :
      (i : ℤ) (prev : Option (MarketSnapshot F))
      → leb_ℤ i (pos 0) ≡ false
      → Before prev
      → Returns (previous_pcr config i prev)
  previous_pcr_total i none h b = (none, refl)
  previous_pcr_total i (some x) h b =
      >>=-Returns _ _
        (calculate_atm_total x _ b (or_interval-positive x.chain.strike_interval i b.interval h))
        (λ atm. (_, refl))

  abbrev Good : Session F → Type 0
  Good s = Before s.prev_snapshot

  -- A cooldown that begins at the snapshot ends in time.
  abbrev pub InTime : MarketSnapshot F → Type 0
  InTime x = x.timestamp + config.signal_cooldown_minutes * minute < end_of_time

  -- The call ends in a session that can go on.
  abbrev GoesOn : {A : Type 0} → Raises (A × Session F) → Type 0
  GoesOn {A} r = (o : A × Session F) × (r ≡ ok o) × Good o.1

  evaluate_snapshot-GoesOn :
      (x : MarketSnapshot F) (s : Session F)
      → IsUsable x
      → InTime x
      → Good s
      → GoesOn (evaluate_snapshot uuid5 config x s)
  unfolding evaluate_snapshot
  evaluate_snapshot-GoesOn x s u t g =
      let interval = or_interval x.chain.strike_interval (pos config.strike_interval) in
      let positive =
        or_interval-positive x.chain.strike_interval (pos config.strike_interval) u.interval
          some_interval in
      let (f, built) =
        build_features_total config x (s.bars ++ session_bar uuid5 x ∷ []) s.pcr_hist
          s.prev_snapshot none (calculate_atm_total x interval u positive)
          (previous_pcr_total interval s.prev_snapshot positive g) in
      let (d, decided) =
        evaluate_and_apply-build_features config x (s.bars ++ session_bar uuid5 x ∷ []) s.pcr_hist
          s.prev_snapshot none f s.memory x.timestamp built t in
      rw built (rw decided (_, refl, u))

  enter-Good : (d : ℕ) (s : Session F) → Good s → Good (enter uuid5 d s)
  unfolding enter
  enter-Good d s g =
      if_ind Good (same_date s.date d) {x = s} {y = record (blank uuid5) { date = some d }} g tt

  replay_step-GoesOn :
      (x : MarketSnapshot F) (s : Session F)
      → IsUsable x
      → InTime x
      → Good s
      → GoesOn (replay_step uuid5 config x s)
  unfolding replay_step
  replay_step-GoesOn x s u k g =
      let t = enter uuid5 (date_of x.timestamp) s in
      let good = enter-Good (date_of x.timestamp) s g in
      if_ind {A = Raises (Option (ReplaySignal F) × Session F)} GoesOn
        (skips uuid5 config x.timestamp) ((none, t), refl, good)
        (evaluate_snapshot-GoesOn x t u k good)

  replay_from-GoesOn :
      (s : Session F) (xs : List (MarketSnapshot F))
      → All IsUsable xs
      → All InTime xs
      → Good s
      → GoesOn (replay_from uuid5 config s xs)
  unfolding replay_from
  replay_from-GoesOn s [] u k g = (([], s), refl, g)
  replay_from-GoesOn s (x ∷ xs) u k g =
      let (one, stepped, good) = replay_step-GoesOn x s u.0 k.0 g in
      let (rest, went_on, end) = replay_from-GoesOn one.1 xs u.1 k.1 good in
      rw stepped (rw went_on (_, refl, end))

  pub replay_ordered_total :
      (xs : List (MarketSnapshot F))
      → All IsUsable xs
      → All InTime xs
      → Returns (replay_ordered uuid5 config xs)
  unfolding replay_ordered
  replay_ordered_total xs u k =
      let (r, ran, good) = replay_from-GoesOn (blank uuid5) xs u k tt in rw ran (r.0, refl)
