-- ===== src/Estimate/Value.antt =====
-- The representative of a finite bucket in src/bucket.rs.
use native.Mathlib.Nat.{div-add-mod, mod-lt}
use native.Mathlib.Nat.{le_of_lt, mod-eq_of_lt, mul-le-mul_left, mul-le-mul_right}
use native.Mathlib.Decide.{dec_le}
use tracegrams.Prelude.{
  ◌%◌, ◌*◌, ◌+◌, ◌/◌, ◌<◌, ◌^◌, ◌≡◌, ◌≤◌, Bool-cases, arith, false, from_bool, inl, inr, leb,
  leb→le, lt→ltb, not-leb→lt, some, ℕ,
}
use tracegrams.Estimate.{finite_representative, half_up}

rounded : ℕ → ℕ → ℕ
rounded n d = n / d + from_bool (leb (half_up d) (n % d))

rounded_nearest :
    (n d : ℕ) → 0 < d → (2 * (rounded n d * d) ≤ 2 * n + d) × (2 * n ≤ 2 * (rounded n d * d) + d)
unfolding rounded
rounded_nearest n d pos =
    let rest = mod-lt n pos in
    elim (Bool-cases (leb (half_up d) (n % d))) [
      | inl up ↦ rw up (omega (arith, div-add-mod n d, leb→le _ _ up))
      | inr down ↦ rw down (omega (arith, div-add-mod n d, not-leb→lt _ _ down))
    ]

rounded_within :
    (n d low high : ℕ)
    → 0 < d
    → low * d ≤ n
    → n ≤ high * d
    → (low ≤ rounded n d) × (rounded n d ≤ high)
rounded_within n d low high pos lo hi =
    let near = rounded_nearest n d pos in
    (
      elim (dec_le low (rounded n d)) [
        | yes h ↦ h
        | no h ↦
            let over : rounded n d + 1 ≤ low = omega arith in
            absurd (omega (arith, mul-le-mul_right d over))
      ],
      elim (dec_le (rounded n d) high) [
        | yes h ↦ h
        | no h ↦
            let over : high + 1 ≤ rounded n d = omega arith in
            absurd (omega (arith, mul-le-mul_right d over))
      ],
    )

harmonic_bounds :
    (low high : ℕ)
    → low < high
    → (low * (low + high) ≤ low * high * 2) × (low * high * 2 ≤ high * (low + high))
harmonic_bounds low high h = (
  omega (arith, mul-le-mul_left low (le_of_lt h)),
  omega (arith, mul-le-mul_left high (le_of_lt h)),
)

product-lt : (low high : ℕ) → low < high → high < 2 ^ 63 → low * high * 2 < 2 ^ 127
product-lt low high h k =
    let a : low * high ≤ low * 2 ^ 63 = mul-le-mul_left low (le_of_lt k) in omega arith

representative-eq :
    (low high : ℕ)
    → low < high
    → high < 2 ^ 63
    → finite_representative low high ≡ some (rounded (low * high * 2) (low + high))
unfolding finite_representative rounded
representative-eq low high h k =
    let fits = product-lt low high h k in
    let d : (low + high) % 2 ^ 128 ≡ low + high = mod-eq_of_lt (omega arith) in
    let within =
      (rounded_within (low * high * 2) (low + high) low high (omega arith)
        (harmonic_bounds low high h).0 (harmonic_bounds low high h).1).1 in
    let order : leb high low ≡ false = ground arith in
    let first = lt→ltb (low * high) (2 ^ 128) (omega arith) in
    let second = lt→ltb (low * high * 2) (2 ^ 128) (omega arith) in
    let small = lt→ltb (rounded (low * high * 2) (low + high)) (2 ^ 64) (omega arith) in
    rw (d, order, first, second, small)

-- For bounds `low < high` below 2 ^ 63 (so that the doubled product stays in a `u128`), the
-- representative exists, lies between the bounds, and is the harmonic mean `2 low high / (low + high)`
-- rounded to the nearest integer: twice its distance, scaled by the denominator, is at most the
-- denominator.
pub finite_representative_lem :
    (low high : ℕ)
    → low < high
    → high < 2 ^ 63
    → (r : ℕ) × (finite_representative low high ≡ some r)
      × (low ≤ r)
      × (r ≤ high)
      × (2 * (r * (low + high)) ≤ 2 * (2 * low * high) + (low + high))
      × (2 * (2 * low * high) ≤ 2 * (r * (low + high)) + (low + high))
finite_representative_lem low high h k =
    let pos : 0 < low + high = omega arith in
    let within =
      rounded_within (low * high * 2) (low + high) low high pos (harmonic_bounds low high h).0
        (harmonic_bounds low high h).1 in
    let near = rounded_nearest (low * high * 2) (low + high) pos in
    (_, representative-eq low high h k, within.0, within.1, omega arith, omega arith)
