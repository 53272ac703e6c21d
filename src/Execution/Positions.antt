-- ===== src/Execution/Positions.antt =====
-- The dictionaries of net quantities by contract, which backend/execution/reconciliation.py and
-- `startup_reconcile` of backend/execution/service.py build and compare.
pub mod Laws
use theta_plus.Base.{
  Bool, true, false, not, ◌&&◌, Option, none, some, String, List, [], ◌∷◌, if◌then◌else◌, str_eq,
  or_else, select,
}
use theta_plus.Base.Int.{ℤ, pos, eq_ℤ, ◌+ℤ◌}

-- The key: exchange segment, security id and product type.
pub record Contract : Type 0 where
  pub segment : String
  pub security_id : String
  pub product_type : String

unfoldable pub same_contract : Contract → Contract → Bool
same_contract a b =
    str_eq a.segment b.segment
    && str_eq a.security_id b.security_id
    && str_eq a.product_type b.product_type

abbrev pub Book : Type 0
Book = List (Contract × ℤ)

unfoldable pub get : Contract → Book → Option ℤ
get k [] = none
get k ((j, q) ∷ b) = if same_contract j k then some q else get k b

-- `b.get(k, 0)`
unfoldable pub net : Contract → Book → ℤ
net k b = or_else (get k b) (pos 0)

-- `b[k] = b.get(k, 0) + q`
unfoldable pub add : Contract → ℤ → Book → Book
add k q [] = (k, pos 0 +ℤ q) ∷ []
add k q ((j, p) ∷ b) = if same_contract j k then (j, p +ℤ q) ∷ b else (j, p) ∷ add k q b

-- `{k: q for k, q in b.items() if q}`
unfoldable pub open_only : Book → Book
open_only = select (λ e. not (eq_ℤ e.1 (pos 0)))

abbrev holds : Option ℤ → ℤ → Bool
holds none q = false
holds (some p) q = eq_ℤ p q

unfoldable pub included : Book → Book → Bool
included [] b = true
included ((k, q) ∷ a) b = if holds (get k b) q then included a b else false

-- `a == b` for dictionaries: each has the other's entries.
unfoldable pub same_book : Book → Book → Bool
same_book a b = included a b && included b a
