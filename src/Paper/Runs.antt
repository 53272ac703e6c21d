-- ===== src/Paper/Runs.antt =====
-- backend/paper/paper_engine.py: the life of a book as a run of the calls that change it.
use theta_plus.Base.{◌≡◌, Bool, false, Option, String, Option-cases, inl, inr, elem}
use theta_plus.Base.Float.{Float, Format}
use theta_plus.Clock.{Timestamp}
use theta_plus.Config.{AppConfig}
use theta_plus.Market.{MarketSnapshot, MarketFeatures}
use theta_plus.Engine.Models.{SignalDecision}
use theta_plus.Replay.Observation.{OptionObservation}
use theta_plus.Paper.Engine.{PaperBook, current, new_book, admit, open_from_decision}
use theta_plus.Paper.Update.{advance, update, on_tick}
use theta_plus.Paper.Local.{ids, update_refines}
use theta_plus.Paper.Contract.{
  Follows, Follows-refl, Follows-trans, Follows-append, Follows-change_open, contract-advance,
}
use theta_plus.Paper.Soundness.{
  IsSound, open_from_decision_ind, update-IsSound, open_from_decision-IsSound, new_book-IsSound,
}

module _ {F : Type 0} ⦃fl : Float F⦄ ⦃fm : Format F⦄ (config : AppConfig F) where
  -- A call of a public method that changes the book. An id that `uuid4` gives is new.
  pub data Step : PaperBook F → PaperBook F → Type 0 where
    opening :
        (book : PaperBook F) (decision : SignalDecision F) (features : Option (MarketFeatures F))
        (signal_id : String) (now : Option Timestamp) (uuid : String)
        → elem uuid (ids book.positions) ≡ false
        → Step book (open_from_decision config book decision features signal_id now uuid).1
    market :
        (book : PaperBook F) (obs : Option (OptionObservation F)) (at : Timestamp)
        (is_invalidated is_expired : Bool)
        → Step book (update config book obs at is_invalidated is_expired).1
    tick :
        (book : PaperBook F) (decision : SignalDecision F) (features : Option (MarketFeatures F))
        (snapshot : Option (MarketSnapshot F)) (signal_id : String) (now : Option Timestamp)
        (is_expired : Bool) (uuid : String)
        → elem uuid (ids book.positions) ≡ false
        → Step book (on_tick config book decision features snapshot signal_id now is_expired uuid).1

  pub data Run : PaperBook F → PaperBook F → Type 0 where
    done : (b : PaperBook F) → Run b b
    next : (b c d : PaperBook F) → Step b c → Run c d → Run b d

  -- A tick is one of the other two calls.
  module _ (P : PaperBook F → Type 0) (book : PaperBook F) where
    on_tick_ind :
        (decision : SignalDecision F) (features : Option (MarketFeatures F))
        (snapshot : Option (MarketSnapshot F)) (signal_id : String) (now : Option Timestamp)
        (is_expired : Bool) (uuid : String)
        → ((at : Option Timestamp)
            → P (open_from_decision config book decision features signal_id at uuid).1)
        → ((obs : Option (OptionObservation F)) (at : Timestamp) (is_invalidated : Bool)
            → P (update config book obs at is_invalidated is_expired).1)
        → P (on_tick config book decision features snapshot signal_id now is_expired uuid).1
    unfolding on_tick
    on_tick_ind decision features snapshot signal_id now is_expired uuid o u =
        elim (Option-cases (current book)) [ inl e ↦ rw e (o _) | inr (p, e) ↦ rw e (u _ _ _) ]

  Step-IsSound : (b c : PaperBook F) → Step b c → IsSound config b → IsSound config c
  Step-IsSound _ _ (opening b decision features signal_id now uuid own) h =
      open_from_decision-IsSound config b decision features signal_id now uuid h own
  Step-IsSound _ _ (market b obs at is_invalidated is_expired) h =
      update-IsSound config b obs at is_invalidated is_expired h
  Step-IsSound _ _ (tick b decision features snapshot signal_id now is_expired uuid own) h =
      on_tick_ind (IsSound config) b decision features snapshot signal_id now is_expired uuid
        (λ at. open_from_decision-IsSound config b decision features signal_id at uuid h own)
        (λ obs at is_invalidated. update-IsSound config b obs at is_invalidated is_expired h)

  Run-IsSound : (b c : PaperBook F) → Run b c → IsSound config b → IsSound config c
  Run-IsSound _ _ (done b) h = h
  Run-IsSound _ _ (next b c d step run) h = Run-IsSound c d run (Step-IsSound b c step h)

  -- Every run from a new book, over all decisions, prices, gaps and session ends, ends in a sound
  -- book: the open positions stay within the configured maximum, no signal has two positions, and
  -- every position accounts for its prices.
  pub Run-new_book-IsSound :
      (origin : String) (book : PaperBook F) → Run (new_book origin) book → IsSound config book
  Run-new_book-IsSound origin book run =
      Run-IsSound (new_book origin) book run (new_book-IsSound config origin)

  Follows-opening :
      (b : PaperBook F) (decision : SignalDecision F) (features : Option (MarketFeatures F))
      (signal_id : String) (now : Option Timestamp) (uuid : String)
      → Follows b.positions
          (open_from_decision config b decision features signal_id now uuid).1.positions
  unfolding admit
  Follows-opening b decision features signal_id now uuid =
      open_from_decision_ind config (λ c. Follows b.positions c.positions) b decision features
        signal_id now uuid (Follows-refl b.positions)
        (λ entry new room. Follows-append b.positions _)

  Follows-market :
      (b : PaperBook F) (obs : Option (OptionObservation F)) (at : Timestamp)
      (is_invalidated is_expired : Bool)
      → IsSound config b
      → Follows b.positions (update config b obs at is_invalidated is_expired).1.positions
  Follows-market b obs at is_invalidated is_expired h =
      rw (update_refines config b obs at is_invalidated is_expired h.own_ids) (
        Follows-change_open (λ p. advance config p obs at is_invalidated is_expired) b.positions
          (λ p. contract-advance config p obs at is_invalidated is_expired))

  Step-Follows : (b c : PaperBook F) → Step b c → IsSound config b → Follows b.positions c.positions
  Step-Follows _ _ (opening b decision features signal_id now uuid own) h =
      Follows-opening b decision features signal_id now uuid
  Step-Follows _ _ (market b obs at is_invalidated is_expired) h =
      Follows-market b obs at is_invalidated is_expired h
  Step-Follows _ _ (tick b decision features snapshot signal_id now is_expired uuid own) h =
      on_tick_ind (λ c. Follows b.positions c.positions) b decision features snapshot signal_id now
        is_expired uuid (λ at. Follows-opening b decision features signal_id at uuid)
        (λ obs at is_invalidated. Follows-market b obs at is_invalidated is_expired h)

  -- From a sound book on, over every run, no position is lost or moved: each keeps its id, signal,
  -- leg, entry, target, stop and quantity, and one that is not open any more never changes.
  pub Run-Follows :
      (b c : PaperBook F) → IsSound config b → Run b c → Follows b.positions c.positions
  Run-Follows _ _ h (done b) = Follows-refl b.positions
  Run-Follows _ _ h (next b c d step run) =
      Follows-trans b.positions c.positions d.positions (Step-Follows b c step h)
        (Run-Follows c d (Step-IsSound b c step h) run)
