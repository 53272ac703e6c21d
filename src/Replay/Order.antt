-- ===== src/Replay/Order.antt =====
-- backend/replay/replay_engine.py: what `ReplayFeed` emits.
use mathlib.Core.List.{Perm}
use mathlib.Core.List.Perm
use theta_plus.Base.{
  ◌≤◌, ◌≡◌, refl, ◌⊎◌, inl, inr, Bool, true, false, List, [], ◌∷◌, arith, Bool-cases,
}
use theta_plus.Base.Sorting.{insert_by, sorted_by, sorted_by-Perm}
use theta_plus.Base.Raises.{Raises, ok, raised}
use theta_plus.Market.{MarketSnapshot}
use theta_plus.Replay.Feed.{key_le, out_of_order, replay_feed}

module _ {F : Type 0} where
  -- No snapshot is earlier than the one before it.
  abbrev pub IsChronological : List (MarketSnapshot F) → Type 0
  IsChronological [] = Unit
  IsChronological (x ∷ []) = Unit
  IsChronological (x ∷ y ∷ xs) = (x.timestamp ≤ y.timestamp) × IsChronological (y ∷ xs)

  key_le-le : (x y : MarketSnapshot F) → key_le x y ≡ true → x.timestamp ≤ y.timestamp
  unfolding key_le
  key_le-le x y h = ground arith

  key_le-ge : (x y : MarketSnapshot F) → key_le x y ≡ false → y.timestamp ≤ x.timestamp
  unfolding key_le
  key_le-ge x y h = ground arith

  insert_by-IsChronological :
      (x : MarketSnapshot F) (ys : List (MarketSnapshot F))
      → IsChronological ys
      → IsChronological (insert_by key_le x ys)
  unfolding insert_by
  insert_by-IsChronological x [] h = tt
  insert_by-IsChronological x (y ∷ []) h = ground (arith, key_le-le x y, key_le-ge x y)
  insert_by-IsChronological x (y ∷ z ∷ ys) h =
      ground
        (arith, key_le-le x y, key_le-ge x y, key_le-ge x z, insert_by-IsChronological x (z ∷ ys))

  sorted_by-IsChronological : (xs : List (MarketSnapshot F)) → IsChronological (sorted_by key_le xs)
  unfolding sorted_by
  sorted_by-IsChronological [] = tt
  sorted_by-IsChronological (x ∷ xs) =
      insert_by-IsChronological x (sorted_by key_le xs) (sorted_by-IsChronological xs)

  out_of_order-IsChronological :
      (xs : List (MarketSnapshot F)) → out_of_order xs ≡ false → IsChronological xs
  unfolding out_of_order
  out_of_order-IsChronological [] h = tt
  out_of_order-IsChronological (x ∷ []) h = tt
  out_of_order-IsChronological (x ∷ y ∷ xs) h =
      ground (arith, out_of_order-IsChronological (y ∷ xs))

  IsChronological-out_of_order :
      (xs : List (MarketSnapshot F)) → out_of_order xs ≡ true → ¬ IsChronological xs
  unfolding out_of_order
  IsChronological-out_of_order [] h c = absurd cc
  IsChronological-out_of_order (x ∷ []) h c = absurd cc
  IsChronological-out_of_order (x ∷ y ∷ xs) h c =
      ground (arith, IsChronological-out_of_order (y ∷ xs))

  -- What a feed makes of the snapshots that it is given.
  abbrev pub Emits : Bool → List (MarketSnapshot F) → Raises (List (MarketSnapshot F)) → Type 0
  Emits strict raw (ok out) = IsChronological out × Perm out raw × ((strict ≡ false) ⊎ (out ≡ raw))
  Emits strict raw (raised e) = (strict ≡ true) × ¬ IsChronological raw

  -- What a feed emits is in the order of time and holds each given snapshot as often as it was
  -- given; a strict feed emits the snapshots as they were given. Only a strict feed raises, and only
  -- where they were not in the order of time.
  pub replay_feed-Emits :
      (strict : Bool) (raw : List (MarketSnapshot F)) → Emits strict raw (replay_feed strict raw)
  unfolding replay_feed
  replay_feed-Emits true raw = elim (Bool-cases (out_of_order raw)) [
    | inl h ↦ rw h (refl, IsChronological-out_of_order raw h)
    | inr h ↦ rw h (out_of_order-IsChronological raw h, Perm.refl raw, inr refl)
  ]
  replay_feed-Emits false raw = (sorted_by-IsChronological raw, sorted_by-Perm key_le raw, inl refl)
