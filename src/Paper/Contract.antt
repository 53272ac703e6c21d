-- ===== src/Paper/Contract.antt =====
-- backend/paper/paper_engine.py: what a step leaves as it was. A position keeps its contract, and once
-- it is not open any more it keeps everything.
use theta_plus.Base.{
  ℕ, ◌≡◌, refl, Bool, true, ◌⊎◌, inl, inr, Option, none, some, String, List, [], ◌∷◌, ◌++◌, arith,
}
use theta_plus.Base.Int.{ℤ}
use theta_plus.Base.Float.{Float, Format}
use theta_plus.Clock.{Timestamp}
use theta_plus.Config.{AppConfig}
use theta_plus.Engine.Models.{Side}
use theta_plus.Replay.Observation.{OptionObservation}
use theta_plus.Paper.Models.{PaperPosition, is_open}
use theta_plus.Paper.Update.{closed, after_gap, after_observation, advance}
use theta_plus.Paper.Local.{change_open}

-- What a position is about: fixed when it is opened.
pub record Contract (F : Type 0) : Type 0 where
  pub id : String
  pub signal : String
  pub entered_at : Timestamp
  pub side : Side
  pub strike : ℤ
  pub entry : Option F
  pub goal : Option F
  pub stop : Option F
  pub quantity : ℕ

module _ {F : Type 0} where
  abbrev pub contract : PaperPosition F → Contract F
  contract p = record {
    id = p.paper_position_id;
    signal = p.signal_id;
    entered_at = p.timestamp;
    side = p.option_type;
    strike = p.strike;
    entry = p.entry_price;
    goal = p.target_price;
    stop = p.stoploss_price;
    quantity = p.quantity;
  }

  -- `q` is `p` at a later time.
  abbrev pub Later : PaperPosition F → PaperPosition F → Type 0
  Later p q = (q ≡ p) ⊎ ((is_open p ≡ true) × (contract q ≡ contract p))

  -- Every position keeps its place, and new ones come at the end.
  abbrev pub Follows : List (PaperPosition F) → List (PaperPosition F) → Type 0
  Follows [] qs = Unit
  Follows (p ∷ ps) [] = ⊥
  Follows (p ∷ ps) (q ∷ qs) = Later p q × Follows ps qs

  pub Follows-refl : (ps : List (PaperPosition F)) → Follows ps ps
  Follows-refl [] = tt
  Follows-refl (p ∷ ps) = (inl refl, Follows-refl ps)

  Later-trans : (p q r : PaperPosition F) → Later p q → Later q r → Later p r
  Later-trans p q r (inl e) (inl e') = inl cc
  Later-trans p q r (inl e) (inr (o, c)) = inr (cc, cc)
  Later-trans p q r (inr (o, c)) (inl e') = inr (o, cc)
  Later-trans p q r (inr (o, c)) (inr (o', c')) = inr (o, cc)

  pub Follows-trans :
      (ps qs rs : List (PaperPosition F)) → Follows ps qs → Follows qs rs → Follows ps rs
  Follows-trans [] qs rs h k = tt
  Follows-trans (p ∷ ps) (q ∷ qs) (r ∷ rs) (l, h) (l', k) =
      (Later-trans p q r l l', Follows-trans ps qs rs h k)
  Follows-trans (p ∷ ps) (q ∷ qs) [] h k = absurd k
  Follows-trans (p ∷ ps) [] rs h k = absurd h

  pub Follows-append : (ps qs : List (PaperPosition F)) → Follows ps (ps ++ qs)
  Follows-append [] qs = tt
  Follows-append (p ∷ ps) qs = (inl refl, Follows-append ps qs)

  pub Follows-change_open :
      (f : PaperPosition F → PaperPosition F) (ps : List (PaperPosition F))
      → ((p : PaperPosition F) → contract (f p) ≡ contract p)
      → Follows ps (change_open f ps)
  Follows-change_open f [] h = tt
  Follows-change_open f (p ∷ ps) h =
      ground (arith, h p, Follows-refl ps, Follows-change_open f ps h)

module _ {F : Type 0} ⦃fl : Float F⦄ ⦃fm : Format F⦄ (config : AppConfig F) where
  pub contract-advance :
      (p : PaperPosition F) (obs : Option (OptionObservation F)) (at : Timestamp)
      (is_invalidated is_expired : Bool)
      → contract (advance config p obs at is_invalidated is_expired) ≡ contract p
  unfolding advance after_gap after_observation closed
  contract-advance p none at is_invalidated is_expired = ground arith
  contract-advance p (some obs) at is_invalidated is_expired = ground arith
