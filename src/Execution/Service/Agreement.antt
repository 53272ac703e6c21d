-- ===== src/Execution/Service/Agreement.antt =====
-- What it means that `startup_reconcile` of backend/execution/service.py reports agreement.
use theta_plus.Base.{ℕ, ◌≡◌, ◌≢◌, refl, if_cases, true, false, some, List, arith, length, sym}
use theta_plus.Base.Raises.{Raises, ok, raised, ok_injective}
use theta_plus.Base.Effects.{M, continue}
use theta_plus.Execution.Models.{ReconState, agreed, pending, BrokerPosition}
use theta_plus.Execution.Positions.{Book, Contract, net, same_book}
use theta_plus.Execution.Positions.Laws.{same_book-net}
use theta_plus.Execution.Reconciliation.{reconcile, open_positions, actual_book}
use theta_plus.Execution.Service.State.{State, Setting, log_event}
use theta_plus.Execution.Service.Startup.{
  refresh_all, hold_pending, compared, compare_positions, settle, reconcile_configured,
  startup_reconcile, to_refresh, any_unresolved, expected_book,
}

pending_differs : pending ≢ agreed
pending_differs h = cc

-- The broker has one open position for each contract of the book, with the same net quantity.
pub record Matches (expected : Book) (positions : List BrokerPosition) : Type 0 where
  pub count : length (open_positions positions) ≡ length expected
  pub nets : (k : Contract) → net k expected ≡ net k (actual_book positions)

reconcile_parts :
    (n : ℕ) (expected : Book) (positions : List BrokerPosition)
    → (reconcile n (some expected) (ok positions)).state ≡ agreed
    → (length (open_positions positions) ≡ n) × (same_book (actual_book positions) expected ≡ true)
unfolding reconcile
reconcile_parts n expected positions h = ground arith

-- `reconcile` reports agreement only where the broker's positions match the expected ones.
pub reconcile-Matches :
    (expected : Book) (answer : Raises (List BrokerPosition))
    → (reconcile (length expected) (some expected) answer).state ≡ agreed
    → (positions : List BrokerPosition) × (answer ≡ ok positions) × Matches expected positions
unfolding reconcile
reconcile-Matches expected (raised e) h = cc
reconcile-Matches expected (ok positions) h =
    let (count, same) = reconcile_parts (length expected) expected positions h in
    (positions, refl, record { count = count; nets = λ k. sym (same_book-net _ _ k same) })

module _ {F W : Type 0} (set : Setting F W) where
  -- Everything is resolved, and some answer of the broker matches what the orders filled.
  pub record Agreed (s : State F W) : Type 0 where
    pub resolved : any_unresolved s.orders ≡ false
    pub positions : List BrokerPosition
    pub world : W
    pub asked : (set.get_positions world).0 ≡ ok positions
    pub matching : Matches (expected_book s.orders) positions

  compare_positions-Agreed :
      (s : State F W)
      → any_unresolved s.orders ≡ false
      → (compare_positions set s).0 ≡ ok agreed
      → Agreed (compare_positions set s).1
  unfolding compare_positions compared log_event
  compare_positions-Agreed s r h =
      let (positions, asked, matching) =
        reconcile-Matches (expected_book s.orders) (set.get_positions s.world).0 (ok_injective h) in
      record {
        resolved = r;
        positions = positions;
        world = s.world;
        asked = asked;
        matching = matching;
      }

  settle-Agreed :
      (s : State F W)
      → (settle set (any_unresolved s.orders) s).0 ≡ ok agreed
      → Agreed (settle set (any_unresolved s.orders) s).1
  unfolding settle hold_pending
  settle-Agreed s =
      if_cases {A = M (State F W) ReconState} (λ m. (m s).0 ≡ ok agreed → Agreed (m s).1)
        (any_unresolved s.orders) (λ _ h. absurd (pending_differs (ok_injective h)))
        (compare_positions-Agreed s)

  after_refresh-Agreed :
      (r : Raises (Unit {0})) (t : State F W)
      → (continue r (λ _ u. settle set (any_unresolved u.orders) u) t).0 ≡ ok agreed
      → Agreed (continue r (λ _ u. settle set (any_unresolved u.orders) u) t).1
  after_refresh-Agreed (ok _) t h = settle-Agreed t h
  after_refresh-Agreed (raised e) t h = cc

  reconcile_configured-Agreed :
      (s : State F W)
      → (reconcile_configured set s).0 ≡ ok agreed
      → Agreed (reconcile_configured set s).1
  unfolding reconcile_configured
  reconcile_configured-Agreed s h =
      after_refresh-Agreed (refresh_all set (to_refresh s.orders) s).0
        (refresh_all set (to_refresh s.orders) s).1 h

  -- Where the reconciliation at startup returns agreement, no order is left unresolved, and the
  -- broker, asked for its positions, has one open position for each contract that the orders filled,
  -- with the same net quantity for every contract.
  pub startup_reconcile-Agreed :
      (s : State F W) → (startup_reconcile set s).0 ≡ ok agreed → Agreed (startup_reconcile set s).1
  unfolding startup_reconcile hold_pending log_event
  startup_reconcile-Agreed s =
      if_cases {A = M (State F W) ReconState} (λ m. (m s).0 ≡ ok agreed → Agreed (m s).1)
        set.adapter_configured (λ _ h. reconcile_configured-Agreed s h)
        (λ _ h. absurd (pending_differs (ok_injective h)))
