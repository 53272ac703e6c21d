-- ===== src/Execution/Reconciliation.antt =====
-- backend/execution/reconciliation.py: internal positions against the broker's.
use theta_plus.Base.{
  ℕ, Bool, true, false, not, ◌||◌, Option, none, some, List, [], ◌∷◌, if◌then◌else◌, length, select,
  ◌==◌,
}
use theta_plus.Base.Int.{pos, eq_ℤ}
use theta_plus.Base.Raises.{Raises, ok, raised}
use theta_plus.Execution.Models.{agreed, pending, mismatch, BrokerPosition, ReconciliationReport}
use theta_plus.Execution.Positions.{Book, Contract, add, open_only, same_book}

-- The report before any reconciliation, and after a failed query.
abbrev pub pending_report : ℕ → ReconciliationReport
pending_report internal_open = record {
  state = pending;
  internal_open_positions = internal_open;
  broker_open_positions = 0;
  unexpected_broker_positions = [];
  blocks_execution = true;
}

-- `mark_pending` keeps the internal count.
abbrev pub mark_pending : ReconciliationReport → ReconciliationReport
mark_pending report = pending_report report.internal_open_positions

unfoldable pub open_positions : List BrokerPosition → List BrokerPosition
open_positions = select (λ p. not (eq_ℤ p.net_qty (pos 0)))

abbrev pub contract_of : BrokerPosition → Contract
contract_of p = record {
  segment = p.exchange_segment;
  security_id = p.security_id;
  product_type = p.product_type;
}

-- The loop that sums the open positions by contract.
unfoldable pub tally_from : Book → List BrokerPosition → Book
tally_from actual [] = actual
tally_from actual (p ∷ ps) = tally_from (add (contract_of p) p.net_qty actual) ps

unfoldable pub actual_book : List BrokerPosition → Book
actual_book positions = open_only (tally_from [] (open_positions positions))

-- `expected_positions is not None and actual != expected_positions`
abbrev differs : Option Book → Book → Bool
differs none actual = false
differs (some expected) actual = not (same_book actual expected)

-- `reconcile`, on the answer of `adapter.get_positions`.
unfoldable pub reconcile : ℕ → Option Book → Raises (List BrokerPosition) → ReconciliationReport
reconcile internal_open expected (raised e) = pending_report internal_open
reconcile internal_open expected (ok positions) =
    let open_ones = open_positions positions in
    if not (length open_ones == internal_open) || differs expected (actual_book positions)
    then record {
      state = mismatch;
      internal_open_positions = internal_open;
      broker_open_positions = length open_ones;
      unexpected_broker_positions = open_ones;
      blocks_execution = true;
    }
    else record {
      state = agreed;
      internal_open_positions = internal_open;
      broker_open_positions = length open_ones;
      unexpected_broker_positions = [];
      blocks_execution = false;
    }
