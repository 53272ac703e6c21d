-- ===== src/Chart/Links.antt =====
-- backend/chart/markers.py: what `link_invalidations` does to the markers.
use mathlib.Core.List.{Perm}
use mathlib.Core.Option
use mathlib.Core.Path.{ap₂, subst}
use theta_plus.Base.{
  ◌≡◌, ◌≢◌, Bool, sym, truthy, find_first, refl, ap, ◌∙◌, true, false, Option, none, some, String,
  List, [], ◌∷◌, arith, leb,
}
use theta_plus.Base.Sorting.{
  Ascending, sorted_by, sorted_by-Perm, sorted_by-Ascending, sorted_by-id,
}
use theta_plus.Chart.Markers.{
  MarkerKind, setup, invalidation, wait, ChartSignalMarker, marker_le, origin_or, linked,
  next_setup, link_from, link_invalidations,
}

origin_or-again :
    (origin last : Option String) → origin_or (origin_or origin last) last ≡ origin_or origin last
origin_or-again none none = refl
origin_or-again none (some t) = ground arith
origin_or-again (some s) none = ground arith
origin_or-again (some s) (some t) = ground arith

-- `marker_kind == "SETUP"`
abbrev is_setup_kind : MarkerKind → Bool
is_setup_kind setup = true
is_setup_kind _ = false

-- What an invalidation with an origin of its own, and one without, refers to.
abbrev pub RefersTo : Option String → Option String → Option String → Type 0
RefersTo latest none origin = origin ≡ latest
RefersTo latest (some s) origin =
    (truthy s ≡ true → origin ≡ some s) × (truthy s ≡ false → origin ≡ latest)

origin_or-RefersTo :
    (origin latest : Option String) → RefersTo latest origin (origin_or origin latest)
origin_or-RefersTo none latest = refl
origin_or-RefersTo (some s) latest = (λ h. rw h refl, λ h. rw h refl)

module _ {F : Type 0} where
  -- A marker but for its origin.
  abbrev pub without_origin : ChartSignalMarker F → ChartSignalMarker F
  without_origin m = record m { origin_signal_id = none }

  linked-without_origin :
      (kind : MarkerKind) (last : Option String) (m : ChartSignalMarker F)
      → without_origin (linked kind last m) ≡ without_origin m
  linked-without_origin setup last m = refl
  linked-without_origin invalidation last m = refl
  linked-without_origin wait last m = refl

  linked-kind :
      (kind : MarkerKind) (last : Option String) (m : ChartSignalMarker F)
      → (linked kind last m).marker_kind ≡ m.marker_kind
  linked-kind setup last m = refl
  linked-kind invalidation last m = refl
  linked-kind wait last m = refl

  linked-again :
      (kind : MarkerKind) (last : Option String) (m : ChartSignalMarker F)
      → linked kind last (linked kind last m) ≡ linked kind last m
  linked-again setup last m = refl
  linked-again invalidation last m =
      ap (λ o. record m { origin_signal_id = o }) (origin_or-again m.origin_signal_id last)
  linked-again wait last m = refl

  next_setup-linked :
      (kind : MarkerKind) (last : Option String) (m : ChartSignalMarker F)
      → next_setup kind last (linked kind last m) ≡ next_setup kind last m
  next_setup-linked setup last m = refl
  next_setup-linked invalidation last m = refl
  next_setup-linked wait last m = refl

  link_from-again :
      (last : Option String) (ms : List (ChartSignalMarker F))
      → link_from last (link_from last ms) ≡ link_from last ms
  unfolding link_from
  link_from-again last [] = refl
  link_from-again last (m ∷ ms) =
      let kind = m.marker_kind in
      let one = linked kind last m in
      let rest = link_from (next_setup kind last m) ms in
      ap₂ ◌∷◌ (ap (λ k. linked k last one) (linked-kind kind last m) ∙ linked-again kind last m) (
        ap (λ k. link_from (next_setup k last one) rest) (linked-kind kind last m)
        ∙ ap (λ l. link_from l rest) (next_setup-linked kind last m)
        ∙ link_from-again (next_setup kind last m) ms)

  marker_le-total : (a b : ChartSignalMarker F) → marker_le a b ≡ false → marker_le b a ≡ true
  marker_le-total a b h = ground arith

  linked-timestamp :
      (kind : MarkerKind) (last : Option String) (m : ChartSignalMarker F)
      → (linked kind last m).timestamp ≡ m.timestamp
  linked-timestamp setup last m = refl
  linked-timestamp invalidation last m = refl
  linked-timestamp wait last m = refl

  link_from-Ascending :
      (last : Option String) (ms : List (ChartSignalMarker F))
      → Ascending marker_le ms
      → Ascending marker_le (link_from last ms)
  unfolding link_from
  link_from-Ascending last [] h = tt
  link_from-Ascending last (m ∷ []) h = tt
  link_from-Ascending last (m ∷ n ∷ ms) h = (
    ap₂ leb (linked-timestamp m.marker_kind last m)
          (linked-timestamp n.marker_kind (next_setup m.marker_kind last m) n)
        ∙ h.0,
    link_from-Ascending (next_setup m.marker_kind last m) (n ∷ ms) h.1,
  )

  -- The id of the latest setup among the markers before, which stand newest first.
  abbrev pub latest_setup : List (ChartSignalMarker F) → Option String
  latest_setup before =
      Option.map (λ m. m.signal_id) (find_first (λ m. is_setup_kind m.marker_kind) before)

  -- The origin of a linked marker, after the markers before it.
  abbrev pub HasOrigin :
      List (ChartSignalMarker F) → ChartSignalMarker F → ChartSignalMarker F → Type 0
  HasOrigin before m n =
      (m.marker_kind ≡ invalidation
        → RefersTo (latest_setup before) m.origin_signal_id n.origin_signal_id)
      × (m.marker_kind ≢ invalidation → n.origin_signal_id ≡ m.origin_signal_id)

  -- The second list is the first one linked, after the markers before them.
  pub data Linked
      : List (ChartSignalMarker F)
        → List (ChartSignalMarker F)
        → List (ChartSignalMarker F)
        → Type 0 where
    none_left : (before : List (ChartSignalMarker F)) → Linked before [] []
    linked_one :
        (before : List (ChartSignalMarker F)) (m n : ChartSignalMarker F)
        (ms ns : List (ChartSignalMarker F))
        → without_origin n ≡ without_origin m
        → HasOrigin before m n
        → Linked (m ∷ before) ms ns
        → Linked before (m ∷ ms) (n ∷ ns)

  linked-HasOrigin :
      (kind : MarkerKind) (before : List (ChartSignalMarker F)) (m : ChartSignalMarker F)
      → m.marker_kind ≡ kind
      → HasOrigin before m (linked kind (latest_setup before) m)
  linked-HasOrigin setup before m e = (λ h. absurd cc, λ h. refl)
  linked-HasOrigin wait before m e = (λ h. absurd cc, λ h. refl)
  linked-HasOrigin invalidation before m e =
      (λ h. origin_or-RefersTo m.origin_signal_id (latest_setup before), λ h. absurd (h e))

  latest_setup-next :
      (kind : MarkerKind) (before : List (ChartSignalMarker F)) (m : ChartSignalMarker F)
      → m.marker_kind ≡ kind
      → next_setup kind (latest_setup before) m ≡ latest_setup (m ∷ before)
  latest_setup-next setup before m e = rw e refl
  latest_setup-next invalidation before m e = rw e refl
  latest_setup-next wait before m e = rw e refl

  link_from-Linked :
      (before ms : List (ChartSignalMarker F))
      → Linked before ms (link_from (latest_setup before) ms)
  unfolding link_from
  link_from-Linked before [] = none_left before
  link_from-Linked before (m ∷ ms) =
      let kind = m.marker_kind in
      linked_one before m _ ms _ (linked-without_origin kind (latest_setup before) m)
        (linked-HasOrigin kind before m refl)
        (subst (λ l. Linked (m ∷ before) ms (link_from l ms))
          (sym (latest_setup-next kind before m refl)) (link_from-Linked (m ∷ before) ms))

  -- Linking sorts the markers by time and leaves every one as it is but for its origin. An
  -- invalidation without an origin of its own gets the id of the latest setup before it, if there is
  -- one; every other marker keeps its origin. To link the outcome again changes nothing.
  pub link_invalidations-Linked :
      (ms : List (ChartSignalMarker F))
      → (sorted : List (ChartSignalMarker F)) × Perm sorted ms
        × Ascending marker_le sorted
        × Linked [] sorted (link_invalidations ms)
        × (link_invalidations (link_invalidations ms) ≡ link_invalidations ms)
  unfolding link_invalidations
  link_invalidations-Linked ms =
      let sorted = sorted_by marker_le ms in
      let ascending = sorted_by-Ascending marker_le marker_le-total ms in
      (
        sorted,
        sorted_by-Perm marker_le ms,
        ascending,
        link_from-Linked [] sorted,
        ap (link_from none) (sorted_by-id marker_le _ (link_from-Ascending none sorted ascending))
            ∙ link_from-again none sorted,
      )
