-- ===== src/Paper/Agreement.antt =====
-- backend/paper/paper_engine.py against backend/replay/outcome_engine.py: the paper position and the
-- replayed outcome of one signal.
use theta_plus.Base.{
  ◌≡◌, ◌≤◌, refl, Bool, true, false, ◌||◌, Option, none, some, String, List, [], ◌∷◌, arith, map,
  or_else, Bool-cases, inl, inr, if◌then◌else◌,
}
use theta_plus.Base.Float.{Float, Format}
use theta_plus.Clock.{Timestamp}
use theta_plus.Config.{AppConfig}
use theta_plus.Market.{MarketFeatures}
use theta_plus.Engine.Models.{is_setup, side_of, SignalDecision}
use theta_plus.Replay.Observation.{OptionObservation, hi, lo}
use theta_plus.Replay.Models.{ReplaySignal, OutcomeState}
use theta_plus.Replay.Outcome.{Walk, seen, goal_of, stop_of, walk_from, walk_all, evaluate_outcome}
use theta_plus.Paper.Models.{
  PaperState, opened, target, stoploss, invalidated, ambiguous, PaperPosition, is_open,
}
use theta_plus.Paper.Engine.{
  PaperBook, new_book, new_position, admit, entry_ltp, open_from_decision,
}
use theta_plus.Paper.Update.{closed, after_observation, advance, update}
use theta_plus.Paper.Local.{update_refines}

-- The paper state that an outcome stands for while the session is open. Without an exit the position
-- stays open.
unfoldable pub live_state : OutcomeState → PaperState
live_state OutcomeState.target = target
live_state OutcomeState.stoploss = stoploss
live_state OutcomeState.invalidated = invalidated
live_state OutcomeState.ambiguous = ambiguous
live_state OutcomeState.expired = opened
live_state OutcomeState.no_data = opened

unfoldable pub states : {F : Type 0} → PaperBook F → List PaperState
states book = map (λ p. p.state) book.positions

module _ {F : Type 0} ⦃fl : Float F⦄ ⦃fm : Format F⦄ (config : AppConfig F) where
  -- The book after a series of observations, with no event of the signal or the session.
  unfoldable pub watch : PaperBook F → List (OptionObservation F) → PaperBook F
  watch book [] = book
  watch book (obs ∷ rest) = watch (update config book (some obs) obs.timestamp false false).1 rest

  -- The book holds one position.
  abbrev pub Holds : PaperBook F → PaperPosition F → Type 0
  Holds book p = book.positions ≡ p ∷ []

  update-Holds :
      (book : PaperBook F) (p : PaperPosition F) (obs : OptionObservation F)
      → Holds book p
      → Holds
          (update config book (some obs) obs.timestamp false false).1
          (if is_open p then advance config p (some obs) obs.timestamp false false else p)
  update-Holds book p obs h =
      ground
        (arith, update_refines config book (some obs) obs.timestamp false false (rw h (refl, tt)))

  watch_ended :
      (book : PaperBook F) (p : PaperPosition F) (observations : List (OptionObservation F))
      → Holds book p
      → is_open p ≡ false
      → Holds (watch book observations) p
  unfolding watch
  watch_ended book p [] h e = h
  watch_ended book p (obs ∷ rest) h e =
      watch_ended (update config book (some obs) obs.timestamp false false).1 p rest
        (rw e at (update-Holds book p obs h)) e

  -- What one observation makes of an open position.
  touched_state : Bool → Bool → PaperState
  touched_state true true = ambiguous
  touched_state true false = target
  touched_state false true = stoploss
  touched_state false false = opened

  state-advance :
      (p : PaperPosition F) (obs : OptionObservation F) (goal stop : F)
      → is_open p ≡ true
      → p.target_price ≡ some goal
      → p.stoploss_price ≡ some stop
      → (let q = advance config p (some obs) obs.timestamp false false in
          (q.state ≡ touched_state (fl.le goal (hi obs)) (fl.le (lo obs) stop))
          × (q.target_price ≡ some goal)
          × (q.stoploss_price ≡ some stop))
  unfolding advance after_observation closed touched_state
  state-advance p obs goal stop o g s = ground arith

  ends_at :
      (book : PaperBook F) (p : PaperPosition F) (rest : List (OptionObservation F))
      (state : PaperState)
      → Holds book p
      → p.state ≡ state
      → is_open p ≡ false
      → states (watch book rest) ≡ state ∷ []
  unfolding states
  ends_at book p rest state h e o = rw (watch_ended book p rest h o, e) refl

  module _ (signal : ReplaySignal F) (entry goal stop : F) where
    abbrev walked : Walk F → OptionObservation F → List (OptionObservation F) → OutcomeState
    walked walk last observations =
        (walk_from signal entry goal stop none walk last observations).exit_state

    walked-step :
        (walk : Walk F) (last obs : OptionObservation F) (rest : List (OptionObservation F))
        → live_state (walked walk last (obs ∷ rest)) ≡ (
            if fl.le goal (hi obs) || fl.le (lo obs) stop
            then touched_state (fl.le goal (hi obs)) (fl.le (lo obs) stop)
            else live_state (walked (seen entry walk obs) obs rest))
    unfolding walk_from live_state touched_state
    walked-step walk last obs rest = ground arith

    unwatched :
        (walk : Walk F) (last : OptionObservation F) (book : PaperBook F) (p : PaperPosition F)
        → Holds book p
        → is_open p ≡ true
        → states book ≡ live_state (walked walk last []) ∷ []
    unfolding walk_from live_state states
    unwatched walk last book p h o = ground arith

    watch-walked :
        (walk : Walk F) (last : OptionObservation F) (observations : List (OptionObservation F))
        (book : PaperBook F) (p : PaperPosition F)
        → Holds book p
        → is_open p ≡ true
        → p.target_price ≡ some goal
        → p.stoploss_price ≡ some stop
        → states (watch book observations) ≡ live_state (walked walk last observations) ∷ []
    unfolding watch touched_state
    watch-walked walk last [] book p h o g s = unwatched walk last book p h o
    watch-walked walk last (obs ∷ rest) book p h o g s =
        let q = advance config p (some obs) obs.timestamp false false in
        let book' = (update config book (some obs) obs.timestamp false false).1 in
        let (state, g', s') = state-advance p obs goal stop o g s in
        let held = rw o at (update-Holds book p obs h) in
        elim (Bool-cases (fl.le goal (hi obs) || fl.le (lo obs) stop)) [
          | inl hit ↦
              rw (walked-step walk last obs rest, hit)
                (ends_at book' q rest _ held state (ground arith))
          | inr miss ↦
              rw (walked-step walk last obs rest, miss)
                (watch-walked (seen entry walk obs) obs rest book' q held (ground arith) g' s')
        ]

    watch-walk_all :
        (observations : List (OptionObservation F)) (book : PaperBook F) (p : PaperPosition F)
        → Holds book p
        → is_open p ≡ true
        → p.target_price ≡ some goal
        → p.stoploss_price ≡ some stop
        → states (watch book observations)
          ≡ live_state (walk_all signal entry goal stop none observations).exit_state ∷ []
    unfolding watch walk_all live_state states
    watch-walk_all [] book p h o g s = ground arith
    watch-walk_all (obs ∷ rest) book p h o g s =
        watch-walked (record { used = 0; mfe = fl.nought; mae = fl.nought }) obs (obs ∷ rest) book p
          h o g s

  -- What an open position of a setup starts with.
  opened_on_setup :
      (origin : String) (decision : SignalDecision F) (features : Option (MarketFeatures F))
      (signal_id uuid : String) (now : Option Timestamp) (entry : F)
      → is_setup decision.decision ≡ true
      → entry_ltp features (side_of decision.decision) ≡ some entry
      → 1 ≤ config.max_open_paper_positions
      → (p : PaperPosition F) × Holds
          (open_from_decision config (new_book origin) decision features signal_id now uuid).1
          p
        × (is_open p ≡ true)
        × (p.target_price ≡ some (goal_of config entry))
        × (p.stoploss_price ≡ some (stop_of config entry))
  unfolding open_from_decision new_book new_position admit
  opened_on_setup origin decision features signal_id uuid now entry is e room = (
    new_position config (new_book origin) decision features signal_id
        (or_else now decision.timestamp) uuid (some entry),
    ground arith,
    refl,
    refl,
    refl,
  )

  -- A setup that is entered on paper, as the first position of a new book, where at least one position
  -- is allowed and its price is above zero, and then watched ends as the replay of the same entry on the same
  -- observations says: at its target, at its stop, or ambiguous; it is still
  -- open where the replay runs out of observations.
  pub watch-evaluate_outcome :
      (origin : String) (decision : SignalDecision F) (features : Option (MarketFeatures F))
      (signal_id uuid : String) (now : Option Timestamp) (entry : F) (signal : ReplaySignal F)
      (observations : List (OptionObservation F))
      → is_setup decision.decision ≡ true
      → entry_ltp features (side_of decision.decision) ≡ some entry
      → fl.le entry fl.nought ≡ false
      → 1 ≤ config.max_open_paper_positions
      → states (
          watch
            (open_from_decision config (new_book origin) decision features signal_id now uuid).1
            observations)
        ≡ live_state (evaluate_outcome config signal (some entry) observations none).exit_state ∷ []
  unfolding evaluate_outcome
  watch-evaluate_outcome origin decision features signal_id uuid now entry signal observations is e
        positive room =
      let (p, held, o, g, s) =
        opened_on_setup origin decision features signal_id uuid now entry is e room in
      rw positive (
        watch-walk_all signal entry (goal_of config entry) (stop_of config entry) observations _ p
          held o g s)
