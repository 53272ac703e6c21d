-- ===== src/Collector/Progress.antt =====
-- personal-trading-phase1/app/rate_gate.py: a request that waits as long as it is told is granted.
use mathlib.Core.Path.{subst}
use theta_plus.Base.{
  ℕ, ◌+◌, ◌≤◌, ◌<◌, ◌≡◌, refl, ap, Option, none, some, String, List, [], ◌∷◌, ltb, length, select,
  arith, Bool-cases, ◌⊎◌, inl, inr, if_cases,
}
use theta_plus.Base.Dict.{lookup}
use theta_plus.Collector.RateGate.{
  Key, Account, day_ms, read, is_recent, lowest, pruned, room_wait, wait_of, Reply, granted,
  refused, request, without_old,
}

read-later : (now later : ℕ) (k : Option Key) → now ≤ later → read later k ≤ read now k
read-later now later none le = omega arith
read-later now later (some k) le = ground arith

length-select : (now : ℕ) (xs : List ℕ) → length (select (is_recent now) xs) ≤ length xs
length-select now [] = omega arith
length-select now (x ∷ xs) = ground (arith, length-select now xs)

-- Once the lowest is too old, there is one less.
lowest-drops :
    (now x : ℕ) (xs : List ℕ)
    → lowest x xs + day_ms ≤ now
    → length (select (is_recent now) (x ∷ xs)) < length (x ∷ xs)
lowest-drops now x [] h = ground arith
lowest-drops now x (y ∷ ys) h = ground (arith, lowest-drops now y ys, length-select now (y ∷ ys))

-- What is left of the day at a later time.
pruned-again :
    (now later : ℕ) (a : Account)
    → (pruned later (without_old now a) ≡ [])
      ⊎ (pruned later (without_old now a) ≡ select (is_recent later) (pruned now a))
unfolding pruned
pruned-again now later a = elim (Bool-cases (ltb later a.day_expires)) [
  | inl h ↦ inr (rw h refl)
  | inr h ↦ inl (rw h refl)
]

room_wait-none : (guard now : ℕ) (xs : List ℕ) → length xs < guard → room_wait guard now xs ≡ 0
room_wait-none guard now [] h = refl
room_wait-none guard now (x ∷ xs) h = ground arith

room_made :
    (guard now later : ℕ) (xs : List ℕ)
    → 0 < guard
    → length xs ≤ guard
    → now + room_wait guard now xs ≤ later
    → length (select (is_recent later) xs) < guard
room_made guard now later [] some_guard le h = some_guard
room_made guard now later (x ∷ xs) some_guard le h =
    ground (arith, lowest-drops later x xs, length-select later (x ∷ xs))

abbrev pub IsGranted : Reply → Type 0
IsGranted (granted _ _) = Unit
IsGranted (refused _) = ⊥

abbrev told : Reply → ℕ
told (granted _ _) = 0
told (refused wait) = wait

module _ (guard spacing : ℕ) (family : String) (family_spacing : ℕ) where
  abbrev wait_at : ℕ → Account → ℕ
  wait_at now a = wait_of guard spacing family family_spacing now a

  -- A wait covers each of its parts.
  wait_parts :
      (now later : ℕ) (a : Account)
      → now + wait_at now a ≤ later
      → (read now a.last + spacing ≤ later)
        × (read now (lookup family a.families) + family_spacing ≤ later)
        × (read now a.cooldown ≤ later)
        × (now + room_wait guard now (pruned now a) ≤ later)
  unfolding wait_of
  wait_parts now later a h = ground arith

  no_parts :
      (now : ℕ) (a : Account)
      → read now a.last + spacing ≤ now
      → read now (lookup family a.families) + family_spacing ≤ now
      → read now a.cooldown ≤ now
      → room_wait guard now (pruned now a) ≡ 0
      → wait_at now a ≡ 0
  unfolding wait_of
  no_parts now a h₁ h₂ h₃ h₄ = ground arith

  room_again :
      (now later : ℕ) (a : Account)
      → 0 < guard
      → length (pruned now a) ≤ guard
      → now + room_wait guard now (pruned now a) ≤ later
      → room_wait guard later (pruned later (without_old now a)) ≡ 0
  room_again now later a some_guard le h = elim (pruned-again now later a) [
    | inl e ↦ rw e refl
    | inr e ↦
        rw e
          (room_wait-none guard later _ (room_made guard now later (pruned now a) some_guard le h))
  ]

  waits_enough :
      (now later : ℕ) (a : Account)
      → 0 < guard
      → length (pruned now a) ≤ guard
      → now ≤ later
      → now + wait_at now a ≤ later
      → wait_at later (without_old now a) ≡ 0
  waits_enough now later a some_guard le ahead h =
      let (last, own, cooled, room) = wait_parts now later a h in
      no_parts later (without_old now a) (omega (arith, read-later now later a.last ahead))
        (omega (arith, read-later now later (lookup family a.families) ahead))
        (omega (arith, read-later now later a.cooldown ahead))
        (room_again now later a some_guard le room)

  free-IsGranted :
      (now : ℕ) (a : Account)
      → wait_at now a ≡ 0
      → IsGranted (request guard spacing family family_spacing now a).0
  unfolding request
  free-IsGranted now a h = rw h tt

  -- What a refusal tells and leaves.
  refused_parts :
      (now wait : ℕ) (a b : Account)
      → request guard spacing family family_spacing now a ≡ (refused wait, b)
      → (wait_at now a ≡ wait) × (without_old now a ≡ b)
  unfolding request
  refused_parts now wait a b e =
      if_cases {A = Reply × Account}
        (λ r. (r ≡ (refused wait, b)) → (wait_at now a ≡ wait) × (without_old now a ≡ b))
        (ltb 0 (wait_at now a))
        (λ _ same.
          (ap (λ (r : Reply × Account). told r.0) same, ap (λ (r : Reply × Account). r.1) same))
        (λ _ same. absurd (subst IsGranted (ap (λ (r : Reply × Account). r.0) same) tt)) e

  -- Where the day holds no more than the guard, a request that is refused is granted when it comes
  -- again, alone, at any time after the wait that it was told.
  pub request-IsGranted :
      (now later wait : ℕ) (a b : Account)
      → 0 < guard
      → length (pruned now a) ≤ guard
      → request guard spacing family family_spacing now a ≡ (refused wait, b)
      → now + wait ≤ later
      → IsGranted (request guard spacing family family_spacing later b).0
  request-IsGranted now later wait a b some_guard le e h =
      let (its, left) = refused_parts now wait a b e in
      free-IsGranted later b (
        subst (λ c. wait_at later c ≡ 0) left
          (waits_enough now later a some_guard le (omega arith) (rw its h)))
