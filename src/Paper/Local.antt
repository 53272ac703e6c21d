-- ===== src/Paper/Local.antt =====
-- backend/paper/paper_engine.py: `_replace` goes through the whole list by the position's id. With
-- ids that differ, that is a change of the one open position, in its place.
use theta_plus.Base.{
  ap, All, ◌++◌, if_cases, str_eq, ◌≡◌, refl, Bool, true, false, Option, none, some, String, List,
  [], ◌∷◌, arith, map, if◌then◌else◌, find_first, Option-cases, inl, inr, str_eq_iff, elem,
}
use theta_plus.Base.Float.{Float, Format}
use theta_plus.Clock.{Timestamp}
use theta_plus.Config.{AppConfig}
use theta_plus.Replay.Observation.{OptionObservation}
use theta_plus.Paper.Models.{PaperPosition, is_open}
use theta_plus.Paper.Engine.{PaperBook, current, replace_all, replace}
use theta_plus.Paper.Update.{advance, update}

-- No text twice.
abbrev pub Distinct : List String → Type 0
Distinct [] = Unit
Distinct (x ∷ xs) = (elem x xs ≡ false) × Distinct xs

pub elem-append :
    (s x : String) (xs : List String)
    → elem s (xs ++ (x ∷ [])) ≡ (if elem s xs then true else str_eq s x)
elem-append s x [] = ground arith
elem-append s x (y ∷ xs) = ground (arith, elem-append s x xs)

pub Distinct-append :
    (x : String) (xs : List String) → Distinct xs → elem x xs ≡ false → Distinct (xs ++ (x ∷ []))
Distinct-append x [] d h = (refl, tt)
Distinct-append x (y ∷ xs) (fresh, d) h =
    ground (arith, elem-append y x xs, Distinct-append x xs d, str_eq_iff x y, str_eq_iff y x)

module _ {F : Type 0} where
  abbrev pub ids : List (PaperPosition F) → List String
  ids ps = map (λ p. p.paper_position_id) ps

  -- The first open position is changed, and nothing else.
  abbrev pub change_open :
      (PaperPosition F → PaperPosition F) → List (PaperPosition F) → List (PaperPosition F)
  change_open f [] = []
  change_open f (p ∷ ps) = if is_open p then f p ∷ ps else p ∷ change_open f ps

  pub map-append-one :
      {A : Type 0} (g : PaperPosition F → A) (ps : List (PaperPosition F)) (p : PaperPosition F)
      → map g (ps ++ (p ∷ [])) ≡ map g ps ++ (g p ∷ [])
  map-append-one g [] p = refl
  map-append-one g (q ∷ ps) p = ap (λ xs. g q ∷ xs) (map-append-one g ps p)

  -- What a change of the open position does not touch.
  module _ (f : PaperPosition F → PaperPosition F) where
    pub map-change_open :
        {A : Type 0} (g : PaperPosition F → A) (ps : List (PaperPosition F))
        → ((p : PaperPosition F) → g (f p) ≡ g p)
        → map g (change_open f ps) ≡ map g ps
    map-change_open g [] h = refl
    map-change_open g (p ∷ ps) h = ground (arith, h p, map-change_open g ps h)

    pub All-change_open :
        (P : PaperPosition F → Type 0) (ps : List (PaperPosition F))
        → ((p : PaperPosition F) → is_open p ≡ true → P p → P (f p))
        → All P ps
        → All P (change_open f ps)
    All-change_open P [] h a = tt
    All-change_open P (p ∷ ps) h (x, xs) =
        if_cases (All P) (is_open p) (λ o. (h p o x, xs)) λ _. (x, All-change_open P ps h xs)

  replace_all_absent :
      (old new : PaperPosition F) (ps : List (PaperPosition F))
      → elem old.paper_position_id (ids ps) ≡ false
      → replace_all old new ps ≡ ps
  replace_all_absent old new [] h = refl
  replace_all_absent old new (p ∷ ps) h = ground (
    arith,
    replace_all_absent old new ps,
    str_eq_iff p.paper_position_id old.paper_position_id,
    str_eq_iff old.paper_position_id p.paper_position_id,
  )

  found-elem :
      (p : PaperPosition F) (ps : List (PaperPosition F))
      → find_first is_open ps ≡ some p
      → elem p.paper_position_id (ids ps) ≡ true
  found-elem p [] e = cc
  found-elem p (q ∷ ps) e =
      ground (arith, found-elem p ps, str_eq_iff p.paper_position_id q.paper_position_id)

  replace_all-change_open :
      (f : PaperPosition F → PaperPosition F) (p : PaperPosition F) (ps : List (PaperPosition F))
      → Distinct (ids ps)
      → find_first is_open ps ≡ some p
      → replace_all p (f p) ps ≡ change_open f ps
  replace_all-change_open f p [] d e = cc
  replace_all-change_open f p (q ∷ ps) (fresh, d) e = ground (
    arith,
    found-elem p ps,
    replace_all_absent q (f q) ps fresh,
    replace_all-change_open f p ps d,
    str_eq_iff q.paper_position_id p.paper_position_id,
    str_eq_iff q.paper_position_id q.paper_position_id,
  )

  change_open-none :
      (f : PaperPosition F → PaperPosition F) (ps : List (PaperPosition F))
      → find_first is_open ps ≡ none
      → change_open f ps ≡ ps
  change_open-none f [] e = refl
  change_open-none f (p ∷ ps) e = ground (arith, change_open-none f ps)

module _ {F : Type 0} ⦃fl : Float F⦄ ⦃fm : Format F⦄ (config : AppConfig F) where
  -- With distinct ids, `update` moves the first open position on by one observation, in its place,
  -- and changes nothing else of the book.
  pub update_refines :
      (book : PaperBook F) (obs : Option (OptionObservation F)) (at : Timestamp)
      (is_invalidated is_expired : Bool)
      → Distinct (ids book.positions)
      → (update config book obs at is_invalidated is_expired).1 ≡ record book {
        positions =
            change_open (λ p. advance config p obs at is_invalidated is_expired) book.positions;
      }
  unfolding update replace
  update_refines book obs at is_invalidated is_expired d = elim (Option-cases (current book)) [
    | inl e ↦ rw (e, change_open-none _ book.positions e) refl
    | inr (p, e) ↦
        rw
          (
            e,
            replace_all-change_open (λ p. advance config p obs at is_invalidated is_expired) p
                book.positions d e,
          )
          refl
  ]
