-- ===== src/Paper/Soundness.antt =====
-- backend/paper/paper_engine.py: what holds of the book between calls, and that each call keeps it.
use theta_plus.Base.{
  ℕ, suc, ◌+◌, ◌≤◌, ◌≡◌, refl, Bool, true, false, not, Option, none, some, String, List, [], ◌∷◌,
  ◌++◌, arith, map, All, All-append, is_some, length, leb, select, ap, if_cases, elem, str_eq_refl,
  str_eq_iff, or_else,
}
use theta_plus.Base.Float.{Float, Format}
use theta_plus.Clock.{Timestamp}
use theta_plus.Config.{AppConfig}
use theta_plus.Market.{MarketFeatures}
use theta_plus.Engine.Models.{is_setup, side_of, SignalDecision}
use theta_plus.Replay.Observation.{OptionObservation}
use theta_plus.Paper.Models.{
  PaperState, target, stoploss, no_data, ambiguous, PaperPosition, is_open, is_closed, same_state,
}
use theta_plus.Paper.Engine.{
  PaperBook, new_book, new_position, entry_ltp, admit, open_from_decision,
}
use theta_plus.Paper.Update.{closed, after_gap, after_observation, advance, update}
use theta_plus.Paper.Local.{
  Distinct, Distinct-append, map-append-one, map-change_open, All-change_open, ids, change_open,
  update_refines,
}
use theta_plus.Paper.Contract.{contract, contract-advance}

-- The states that a price has to be seen for.
abbrev pub is_touch : PaperState → Bool
is_touch target = true
is_touch stoploss = true
is_touch ambiguous = true
is_touch _ = false

module _ {F : Type 0} where
  -- What the state of a position says of its prices: an entry has a target and a stop, an end has a
  -- time, and there is P&L exactly with an exit price.
  pub record IsAccounted (p : PaperPosition F) : Type 0 where
    pub entered : is_some p.entry_price ≡ not (same_state p.state no_data)
    pub goal : is_some p.target_price ≡ is_some p.entry_price
    pub stop : is_some p.stoploss_price ≡ is_some p.entry_price
    pub ended : is_some p.exit_time ≡ is_closed p.state
    pub net : is_some p.net_pnl ≡ is_some p.exit_price
    pub gross : is_some p.gross_pnl ≡ is_some p.exit_price
    pub exit : is_some p.exit_price ≡ true → is_closed p.state ≡ true
    pub touch : is_touch p.state ≡ true → is_some p.exit_price ≡ true

  abbrev pub signals : List (PaperPosition F) → List String
  signals ps = map (λ p. p.signal_id) ps

  abbrev pub open_count : List (PaperPosition F) → ℕ
  open_count ps = length (select is_open ps)

  pub record IsSound (config : AppConfig F) (book : PaperBook F) : Type 0 where
    pub own_ids : Distinct (ids book.positions)
    pub own_signals : Distinct (signals book.positions)
    pub known : All (λ p. elem p.signal_id book.signal_ids ≡ true) book.positions
    pub accounted : All IsAccounted book.positions
    pub bound : open_count book.positions ≤ config.max_open_paper_positions

  open_count-append :
      (ps : List (PaperPosition F)) (p : PaperPosition F)
      → open_count (ps ++ (p ∷ [])) ≤ open_count ps + 1
  open_count-append [] p = ground arith
  open_count-append (q ∷ ps) p = ground (arith, open_count-append ps p)

  -- A signal that is not known has no position.
  unknown-elem :
      (s : String) (seen : List String) (ps : List (PaperPosition F))
      → All (λ p. elem p.signal_id seen ≡ true) ps
      → elem s seen ≡ false
      → elem s (signals ps) ≡ false
  unknown-elem s seen [] k h = refl
  unknown-elem s seen (p ∷ ps) (k, ks) h =
      ground (arith, unknown-elem s seen ps ks h, str_eq_iff s p.signal_id)

  known-more :
      (s : String) (seen : List String) (ps : List (PaperPosition F))
      → All (λ p. elem p.signal_id seen ≡ true) ps
      → All (λ p. elem p.signal_id (s ∷ seen) ≡ true) ps
  known-more s seen [] k = tt
  known-more s seen (p ∷ ps) (k, ks) = (ground arith, known-more s seen ps ks)

  open_count-change_open :
      (f : PaperPosition F → PaperPosition F) (ps : List (PaperPosition F))
      → open_count (change_open f ps) ≤ open_count ps
  open_count-change_open f [] = omega arith
  open_count-change_open f (p ∷ ps) = ground (arith, open_count-change_open f ps)

module _ {F : Type 0} ⦃fl : Float F⦄ ⦃fm : Format F⦄ (config : AppConfig F) where
  advance-IsAccounted :
      (p : PaperPosition F) (obs : Option (OptionObservation F)) (at : Timestamp)
      (is_invalidated is_expired : Bool)
      → is_open p ≡ true
      → IsAccounted p
      → IsAccounted (advance config p obs at is_invalidated is_expired)
  unfolding advance after_gap after_observation closed
  advance-IsAccounted p none at is_invalidated is_expired o a = ground arith
  advance-IsAccounted p (some obs) at is_invalidated is_expired o a = ground arith

  -- `update` keeps the book sound.
  pub update-IsSound :
      (book : PaperBook F) (obs : Option (OptionObservation F)) (at : Timestamp)
      (is_invalidated is_expired : Bool)
      → IsSound config book
      → IsSound config (update config book obs at is_invalidated is_expired).1
  update-IsSound book obs at is_invalidated is_expired h =
      rw (update_refines config book obs at is_invalidated is_expired h.own_ids) (record {
        own_ids =
            rw
              (map-change_open f (λ p. p.paper_position_id) book.positions
                (λ p. ap (λ c. c.id) (kept p)))
              h.own_ids;
        own_signals =
            rw
              (map-change_open f (λ p. p.signal_id) book.positions
                (λ p. ap (λ c. c.signal) (kept p)))
              h.own_signals;
        known =
            All-change_open f _ book.positions (λ p o k. rw (ap (λ c. c.signal) (kept p)) k)
              h.known;
        accounted =
            All-change_open f IsAccounted book.positions
              (λ p o a. advance-IsAccounted p obs at is_invalidated is_expired o a) h.accounted;
        bound = omega (arith, h.bound, open_count-change_open f book.positions);
      })
    where
      f : PaperPosition F → PaperPosition F
      f p = advance config p obs at is_invalidated is_expired

      kept : (p : PaperPosition F) → contract (f p) ≡ contract p
      kept p = contract-advance config p obs at is_invalidated is_expired

  new_position-IsAccounted :
      (book : PaperBook F) (decision : SignalDecision F) (features : Option (MarketFeatures F))
      (signal_id : String) (at : Timestamp) (uuid : String) (entry : Option F)
      → IsAccounted (new_position config book decision features signal_id at uuid entry)
  unfolding new_position
  new_position-IsAccounted book decision features signal_id at uuid none = ground arith
  new_position-IsAccounted book decision features signal_id at uuid (some entry) = ground arith

  new_position_names :
      (book : PaperBook F) (decision : SignalDecision F) (features : Option (MarketFeatures F))
      (signal_id : String) (at : Timestamp) (uuid : String) (entry : Option F)
      → let p = new_position config book decision features signal_id at uuid entry in
        (p.paper_position_id ≡ uuid) × (p.signal_id ≡ signal_id)
  unfolding new_position
  new_position_names book decision features signal_id at uuid none = (refl, refl)
  new_position_names book decision features signal_id at uuid (some entry) = (refl, refl)

  admit-IsSound :
      (book : PaperBook F) (p : PaperPosition F)
      → IsSound config book
      → IsAccounted p
      → elem p.paper_position_id (ids book.positions) ≡ false
      → elem p.signal_id book.signal_ids ≡ false
      → suc (open_count book.positions) ≤ config.max_open_paper_positions
      → IsSound config (admit p book)
  unfolding admit
  admit-IsSound book p h a own new room = record {
    own_ids =
        rw (map-append-one (λ q. q.paper_position_id) book.positions p)
          (Distinct-append p.paper_position_id (ids book.positions) h.own_ids own);
    own_signals = rw (map-append-one (λ q. q.signal_id) book.positions p) (
        Distinct-append p.signal_id (signals book.positions) h.own_signals
          (unknown-elem p.signal_id book.signal_ids book.positions h.known new));
    known =
        All-append _ book.positions (p ∷ [])
          (known-more p.signal_id book.signal_ids book.positions h.known)
          (ground (arith, str_eq_refl p.signal_id), tt);
    accounted = All-append IsAccounted book.positions (p ∷ []) h.accounted (a, tt);
    bound = omega (arith, open_count-append book.positions p);
  }

  -- `open_from_decision` leaves the book alone, or admits a new position into it.
  pub open_from_decision_ind :
      (P : PaperBook F → Type 0) (book : PaperBook F) (decision : SignalDecision F)
      (features : Option (MarketFeatures F)) (signal_id : String) (now : Option Timestamp)
      (uuid : String)
      → P book
      → ((entry : Option F)
          → elem signal_id book.signal_ids ≡ false
          → leb config.max_open_paper_positions (open_count book.positions) ≡ false
          → P (
              admit
                (new_position config book decision features signal_id
                  (or_else now decision.timestamp)
                  uuid
                  entry)
                book))
      → P (open_from_decision config book decision features signal_id now uuid).1
  unfolding open_from_decision
  open_from_decision_ind P book decision features signal_id now uuid same admitted =
      if_cases Kept (not (is_setup decision.decision)) (λ _. same)
        λ _.
          if_cases Kept (elem signal_id book.signal_ids) (λ _. same)
            λ new.
              if_cases Kept (leb config.max_open_paper_positions (open_count book.positions))
                (λ _. same)
                λ room. admitted (entry_ltp features (side_of decision.decision)) new room
    where
      Kept : Option (PaperPosition F) × PaperBook F → Type 0
      Kept r = P r.1

  -- `open_from_decision` keeps the book sound, where the id of the new position is new.
  pub open_from_decision-IsSound :
      (book : PaperBook F) (decision : SignalDecision F) (features : Option (MarketFeatures F))
      (signal_id : String) (now : Option Timestamp) (uuid : String)
      → IsSound config book
      → elem uuid (ids book.positions) ≡ false
      → IsSound config (open_from_decision config book decision features signal_id now uuid).1
  open_from_decision-IsSound book decision features signal_id now uuid h own =
      open_from_decision_ind (IsSound config) book decision features signal_id now uuid h
        λ entry new room.
          let at = or_else now decision.timestamp in
          let (its_id, its_signal) =
            new_position_names book decision features signal_id at uuid entry in
          admit-IsSound book (new_position config book decision features signal_id at uuid entry) h
            (new_position-IsAccounted book decision features signal_id at uuid entry)
            (rw its_id own) (rw its_signal new) (ground arith)

  pub new_book-IsSound : (origin : String) → IsSound config (new_book origin)
  unfolding new_book
  new_book-IsSound origin = record {
    own_ids = tt;
    own_signals = tt;
    known = tt;
    accounted = tt;
    bound = omega arith;
  }
