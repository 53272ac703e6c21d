-- ===== src/Collector/Windows.antt =====
-- personal-trading-phase1/app/policy.py: the requests cover the range, and a retry waits within bounds.
use theta_plus.Base.{
  ℕ, zero, suc, ◌+◌, ◌-◌, ◌*◌, ◌/◌, ◌≤◌, ◌<◌, ◌≡◌, refl, List, [], ◌∷◌, arith, Bool-cases, inl, inr,
  ltb,
}
use Prim.Native.Nat.{◌^◌}
use theta_plus.Base.Raises.{Raises, ok, raised}
use theta_plus.Collector.RateGate.{max_of, min_of}
use theta_plus.Collector.Policy.{windows_from, windows, retry_delay}

-- Each window begins where the one before it stops, has between 1 and 90 days, and the last one
-- stops at the end.
abbrev pub Covers : ℕ → ℕ → List (ℕ × ℕ) → Type 0
Covers start end [] = end ≤ start
Covers start end ((a, b) ∷ more) =
    (a ≡ start) × (a < b) × (b ≤ a + 90) × (b ≤ end) × Covers b end more

windows_from-Covers :
    (fuel start end : ℕ) → end - start ≤ fuel → Covers start end (windows_from fuel start end)
unfolding windows_from
windows_from-Covers zero start end h = omega arith
windows_from-Covers (suc fuel) start end h =
    let rest = λ (enough : end - min_of (start + 90) end ≤ fuel).
      windows_from-Covers fuel (min_of (start + 90) end) end enough in
    elim (Bool-cases (ltb start end)) [
      | inl e ↦ rw e (refl, ground arith, ground arith, ground arith, rest (ground arith))
      | inr e ↦ rw e (ground arith)
    ]

-- The windows of a range of dates cover it without a gap or an overlap, and none is longer than 90
-- days.
pub windows-Covers : (start end : ℕ) → Covers start end (windows start end)
unfolding windows
windows-Covers start end = windows_from-Covers (end - start) start end (omega arith)

power-positive : (n : ℕ) → 0 < 2 ^ n
power-positive zero = omega arith
power-positive (suc n) = omega (arith, power-positive n)

product-positive : (a b : ℕ) → 0 < a → 0 < b → 0 < a * b
product-positive zero b h k = absurd (omega arith)
product-positive (suc a) b h k = omega arith

abbrev pub ceiling_of : ℕ → ℕ → ℕ → ℕ
ceiling_of attempt base cap = min_of cap (base * 2 ^ (attempt - 1))

abbrev pub IsDelay : (attempt base cap retry_after : ℕ) → Raises ℕ → Type 0
IsDelay attempt base cap retry_after (raised e) = ⊥
IsDelay attempt base cap retry_after (ok delay) =
    (1 ≤ delay)
    × (ceiling_of attempt base cap / 2 ≤ delay)
    × (retry_after ≤ delay)
    × (delay ≤ max_of cap retry_after)

-- With a base and a cap of at least 1, a retry raises nothing; it waits at least 1 second, half of
-- the ceiling of its attempt and the time that the provider asks for, and no longer than the larger
-- of the cap and that time, whatever `randint` draws between its bounds.
pub retry_delay-IsDelay :
    (randint : ℕ → ℕ → ℕ) (attempt base cap retry_after : ℕ)
    → ((least most : ℕ) → least ≤ most → (least ≤ randint least most) × (randint least most ≤ most))
    → 1 ≤ base
    → 1 ≤ cap
    → IsDelay attempt base cap retry_after (retry_delay randint attempt base cap retry_after)
unfolding retry_delay
retry_delay-IsDelay randint attempt base cap retry_after drawn b c =
    let some_power = product-positive base (2 ^ (attempt - 1)) b (power-positive (attempt - 1)) in
    let ceiling = ceiling_of attempt base cap in
    let least = max_of 1 (ceiling / 2) in
    let fits : least ≤ ceiling = ground arith in
    let (low, high) = drawn least ceiling fits in
    elim (Bool-cases (ltb ceiling least)) [
      | inl e ↦ absurd (ground arith)
      | inr e ↦ rw e (ground arith, ground arith, ground arith, ground arith)
    ]
