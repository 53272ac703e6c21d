-- ===== src/Examples/Replay.antt =====
-- Tests and concrete cases for the replay.
use theta_plus.Base.{
  ℕ, ◌+◌, ◌*◌, ◌/◌, ◌≡◌, ◌≢◌, refl, true, false, String, List, [], ◌∷◌, ◌++◌, arith, All,
}
use theta_plus.Base.Int.{ℤ, pos, negsuc, leb_ℤ, ◌*ℤ◌, ◌+ℤ◌}
use theta_plus.Base.Raises.{ok, Returns, ◌>>=◌}
use theta_plus.Clock.{day, date_of}
use theta_plus.Market.{MarketSnapshot}
use theta_plus.Replay.Session.{replay_ordered, replay_signals}
use theta_plus.Replay.Feed.{out_of_order, replay_feed}
use theta_plus.Replay.Run.{run_replay}
use theta_plus.Replay.Order.{Emits, replay_feed-Emits}
use theta_plus.Replay.Days.{replay_ordered-new_day}
use theta_plus.Replay.Totality.{IsUsable, replay_ordered_total}
use theta_plus.Replay.Accounting.{Accounts, run_replay-Accounts}
use theta_plus.Examples.Values.{Num, cents_Float, plain_Format, config, ten_o_clock}
use theta_plus.Examples.Features.{snapshot}

abbrev same : String → String
same s = s

abbrev first_of : List Num → Num
first_of [] = cents_Float.nought
first_of (x ∷ xs) = x

abbrev next_day : MarketSnapshot Num
next_day = record snapshot { snapshot_id = "N2"; timestamp = ten_o_clock + day }

abbrev minute_later : MarketSnapshot Num
minute_later = record snapshot { snapshot_id = "N3"; timestamp = ten_o_clock + 60000000 }

times : (n : ℕ) → pos 100 *ℤ pos n ≡ pos (100 * n)
unfolding ◌*ℤ◌
times n = ground arith

plus : (a b : ℕ) → pos a +ℤ pos b ≡ pos (a + b)
unfolding ◌+ℤ◌
plus a b = ground arith

snapshot_price :
    (i : ℤ)
    → leb_ℤ i (pos 0) ≡ false
    → Returns (
        cents_Float.floor (
          cents_Float.add
            (cents_Float.div snapshot.tick.close (cents_Float.of_int i))
            (cents_Float.int_div (pos 1) (pos 2))))
snapshot_price (pos n) h = rw (times n) (rw (plus (100 * 2450500 / (100 * n)) 50) (_, refl))
snapshot_price (negsuc n) h = absurd (ground arith)

usable : (x : MarketSnapshot Num) → x.tick ≡ snapshot.tick → x.chain ≡ snapshot.chain → IsUsable x
usable x t c = record { interval = rw c refl; price = rw t snapshot_price }

usable_all : All IsUsable (snapshot ∷ minute_later ∷ [])
usable_all = (usable snapshot refl refl, (usable minute_later refl refl, tt))

replayed : Returns (replay_ordered same config (snapshot ∷ minute_later ∷ []))
replayed =
    replay_ordered_total same config refl (snapshot ∷ minute_later ∷ []) usable_all
      (omega arith, (omega arith, tt))

other_day : date_of snapshot.timestamp ≢ date_of next_day.timestamp
unfolding date_of
other_day h = omega arith

replay_ordered-new_day_example : replay_ordered same config (snapshot ∷ next_day ∷ []) ≡ (
    replay_ordered same config (snapshot ∷ [])
    >>= (λ a. replay_ordered same config (next_day ∷ []) >>= (λ b. ok (a ++ b))))
replay_ordered-new_day_example =
    replay_ordered-new_day same config (snapshot ∷ []) next_day [] (other_day, tt)

both_days :
    All (λ (x : MarketSnapshot Num). date_of x.timestamp ≡ 15) (snapshot ∷ minute_later ∷ [])
unfolding date_of
both_days = (refl, (refl, tt))

replay_feed-Emits_example :
    Emits false (next_day ∷ snapshot ∷ []) (replay_feed false (next_day ∷ snapshot ∷ []))
replay_feed-Emits_example = replay_feed-Emits false (next_day ∷ snapshot ∷ [])

ran :
    Returns (
      run_replay same same first_of first_of config (snapshot ∷ minute_later ∷ []) "SYNTHETIC" true)
unfolding run_replay replay_signals replay_feed out_of_order
ran = rw replayed.1 (_, refl)

run_replay-Accounts_example : Accounts ran.0.signals ran.0.outcomes ran.0.metrics
run_replay-Accounts_example =
    run_replay-Accounts same same first_of first_of config (snapshot ∷ minute_later ∷ [])
      "SYNTHETIC" true ran.0 ran.1
