-- ===== src/Replay/Feed.antt =====
-- backend/replay/replay_engine.py: `ReplayFeed`, the order in which a replay reads its snapshots.
use Prim.Native.Nat.{Ordering}
use Prim.Native.String.{compare}
use theta_plus.Base.{Bool, true, false, String, List, ◌∷◌, if◌then◌else◌, ltb}
use theta_plus.Base.Sorting.{sorted_by}
use theta_plus.Base.Raises.{Raises, ok, raised, value_error}
use theta_plus.Market.{MarketSnapshot}

-- `s <= t` for texts, by code points
unfoldable pub text_le : String → String → Bool
text_le s t = elim (compare s t) [ Ordering.gt ↦ false | _ ↦ true ]

module _ {F : Type 0} where
  -- The key `(timestamp, snapshot_id)` of the first is not above that of the second.
  unfoldable pub key_le : MarketSnapshot F → MarketSnapshot F → Bool
  key_le a b =
      if ltb a.timestamp b.timestamp
      then true
      else if ltb b.timestamp a.timestamp
      then false
      else text_le a.snapshot_id b.snapshot_id

  -- Whether a snapshot is earlier than the one before it.
  unfoldable pub out_of_order : List (MarketSnapshot F) → Bool
  out_of_order (x ∷ y ∷ xs) =
      let rest = out_of_order (y ∷ xs) in if ltb y.timestamp x.timestamp then true else rest
  out_of_order _ = false

  -- The snapshots that a feed emits. The error is `ReplayOrderingError`, a ValueError.
  unfoldable pub replay_feed : Bool → List (MarketSnapshot F) → Raises (List (MarketSnapshot F))
  replay_feed true raw = if out_of_order raw then raised value_error else ok raw
  replay_feed false raw = ok (sorted_by key_le raw)
