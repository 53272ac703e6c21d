-- ===== src/Execution/Positions/Laws.antt =====
-- Equal dictionaries of net quantities agree on every contract.
use theta_plus.Base.{
  ◌≡◌, refl, true, false, none, some, [], ◌∷◌, arith, str_eq_iff, if◌then◌else◌, inl, inr,
  Option-cases, Bool-cases, &&-true,
}
use theta_plus.Base.Int.{ℤ, pos, ◌+ℤ◌, eq_of_eq_ℤ}
use theta_plus.Execution.Positions.{
  Contract, same_contract, Book, get, net, add, open_only, included, same_book,
}

same_contract-eq : (a b : Contract) → same_contract a b ≡ true → a ≡ b
unfolding same_contract
same_contract-eq a b h = ground (
  arith,
  str_eq_iff a.segment b.segment,
  str_eq_iff a.security_id b.security_id,
  str_eq_iff a.product_type b.product_type,
)

same_contract_refl : (a : Contract) → same_contract a a ≡ true
unfolding same_contract
same_contract_refl a = ground (
  arith,
  str_eq_iff a.segment a.segment,
  str_eq_iff a.security_id a.security_id,
  str_eq_iff a.product_type a.product_type,
)

-- No contract has two entries.
abbrev pub IsUnique : Book → Type 0
IsUnique [] = Unit
IsUnique ((k, q) ∷ b) = (get k b ≡ none) × IsUnique b

included-get :
    (k : Contract) (q : ℤ) (a b : Book) → included a b ≡ true → get k a ≡ some q → get k b ≡ some q
unfolding included get
included-get k q [] b h g = cc
included-get k q ((j, p) ∷ a) b h g = ground (arith, included-get k q a b, same_contract-eq j k)

-- Dictionaries that compare equal have the same net quantity for every contract.
pub same_book-net : (a b : Book) (k : Contract) → same_book a b ≡ true → net k a ≡ net k b
unfolding same_book net
same_book-net a b k h =
    let (ab, ba) = &&-true (included a b) (included b a) h in
    elim (Option-cases (get k a)) [
      | inr (q, e) ↦ rw (e, included-get k q a b ab e)
      | inl e ↦ elim (Option-cases (get k b)) [
        | inl e' ↦ rw (e, e')
        | inr (q, e') ↦ absurd (ground (arith, included-get k q b a ba e'))
      ]
    ]

get-add_other :
    (j k : Contract) (q : ℤ) (b : Book)
    → same_contract j k ≡ false
    → get j b ≡ none
    → get j (add k q b) ≡ none
unfolding get add
get-add_other j k q [] n h = ground (arith, same_contract-eq k j, same_contract_refl j)
get-add_other j k q ((i, p) ∷ b) n h =
    ground (arith, get-add_other j k q b n, same_contract-eq i k, same_contract-eq i j)

-- Adding a quantity to a contract changes that contract alone.
pub net-add :
    (j k : Contract) (q : ℤ) (b : Book)
    → net j (add k q b) ≡ (if same_contract k j then net j b +ℤ q else net j b)
unfolding net get add
net-add j k q [] = ground arith
net-add j k q ((i, p) ∷ b) = ground (
  arith,
  net-add j k q b,
  same_contract-eq i k,
  same_contract-eq i j,
  same_contract-eq k j,
  same_contract_refl j,
)

add-IsUnique : (k : Contract) (q : ℤ) (b : Book) → IsUnique b → IsUnique (add k q b)
unfolding add get
add-IsUnique k q [] u = (refl, tt)
add-IsUnique k q ((i, p) ∷ b) u = elim (Bool-cases (same_contract i k)) [
  | inl same ↦ rw same u
  | inr other ↦ rw other (get-add_other i k q b other u.0, add-IsUnique k q b u.1)
]

get-open_only-none : (k : Contract) (b : Book) → get k b ≡ none → get k (open_only b) ≡ none
unfolding get open_only
get-open_only-none k [] h = refl
get-open_only-none k ((j, q) ∷ b) h = ground (arith, get-open_only-none k b)

-- Dropping the contracts that net to zero changes no net quantity.
pub net-open_only : (k : Contract) (b : Book) → IsUnique b → net k (open_only b) ≡ net k b
unfolding net get open_only
net-open_only k [] u = refl
net-open_only k ((j, q) ∷ b) u = ground (
  arith,
  net-open_only k b u.1,
  get-open_only-none k b,
  same_contract-eq j k,
  eq_of_eq_ℤ q (pos 0),
)
