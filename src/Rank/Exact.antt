-- ===== src/Rank/Exact.antt =====
-- `quantile_rank` of src/bucket.rs beside the ceiling of the exact product.
use native.Mathlib.Nat.{
  div-add-mod, mod-eq_of_lt, mod-lt, mul-le-mul_left, mul-le-mul_right, mul-pos, one-le-pow,
  pow-le-pow_right, pow-suc,
}
use native.Mathlib.Decide.{dec_le}
use tracegrams.Prelude.{
  ◌%◌, ◌*◌, ◌+◌, ◌-◌, ◌/◌, ◌<◌, ◌==◌, ◌^◌, ◌≡◌, ◌≢◌, ◌≤◌, Bool-cases, ap, arith, from_bool,
  if◌then◌else◌, inl, inr, leb, leb→le, max, min, not, not-leb→lt, suc, zero, ℕ,
}
use tracegrams.Prelude.Bits.{and_mask, shl_or, shr}
use tracegrams.Float.{one_bits, F64, exponent, significand, scale}
use tracegrams.Rank.{quantile_rank, decode}

abbrev pub IsTailQuantile : F64 → Type 0
IsTailQuantile q = (1 ≤ q) × (q ≤ one_bits)

-- `r` is the least number of `d`-ths that holds `n` of them.
abbrev pub IsCeiling : ℕ → ℕ → ℕ → Type 0
IsCeiling r n d = (n ≤ r * d) × ((r - 1) * d < n)

decode_lem : (q : F64) → exponent q ≤ 1023 → decode q ≡ (significand q, scale q)
unfolding decode
decode_lem q k = ground (arith, and_mask 11 (shr q 52), and_mask 52 q, shl_or 52 (q % 2 ^ 52) 1)

exponent-le : (q : F64) → IsTailQuantile q → exponent q ≤ 1023
exponent-le q v = omega arith

significand_pos : (q : F64) → IsTailQuantile q → 0 < significand q
significand_pos q v = ground arith

significand-lt : (q : F64) → significand q < 2 ^ 53
significand-lt q = ground arith

le_pow : (s k : ℕ) → s < 2 ^ 53 → 53 ≤ k → s ≤ 2 ^ k
le_pow s k h big = omega (arith, pow-le-pow_right {n = 2} (omega arith) {i = 53} {j = k} big)

pow_of_eq : (k : ℕ) → k ≡ 52 → 2 ^ k ≡ 2 ^ 52
pow_of_eq k e = ap (λ j. 2 ^ j) e

pow_below : (k : ℕ) → k < 128 → 2 ^ k < 2 ^ 128
pow_below k h = omega (
  arith,
  pow-le-pow_right {n = 2} (omega arith) {i = suc k} {j = 128} h,
  pow-suc 2 k,
  one-le-pow k 2 (omega arith),
)

pow_beyond : (k : ℕ) → 128 ≤ k → 2 ^ 128 ≤ 2 ^ k
pow_beyond k h = pow-le-pow_right {n = 2} (omega arith) {i = 128} {j = k} h

-- The value is at most one.
significand-le-scale : (q : F64) → IsTailQuantile q → significand q ≤ 2 ^ scale q
significand-le-scale q v = elim (Bool-cases (exponent q == 1023)) [
  | inl top ↦
      let e : significand q ≡ 2 ^ 52 = ground arith in
      omega (arith, pow_of_eq (scale q) (ground arith))
  | inr small ↦ le_pow (significand q) (scale q) (significand-lt q) (ground arith)
]

exact-IsCeiling : (n d k : ℕ) → n ≡ k * d → 0 < d → 0 < n → IsCeiling k n d × (0 < k)
exact-IsCeiling n d zero e h p = absurd (omega arith)
exact-IsCeiling n d (suc k) e h p =
    let e' : suc k - 1 ≡ k = omega arith in ((omega arith, rw e' (omega arith)), omega arith)

above-IsCeiling :
    (n d k r : ℕ) → n ≡ k * d + r → r < d → 0 < r → IsCeiling (k + 1) n d × (0 < k + 1)
above-IsCeiling n d k r e h p =
    let e' : k + 1 - 1 ≡ k = omega arith in ((omega arith, rw e' (omega arith)), omega arith)

-- The quotient rounded up, as the code computes it.
round_up : ℕ → ℕ → ℕ
round_up n d = n / d + from_bool (not (n % d == 0))

round_up-IsCeiling : (n d : ℕ) → 0 < d → 0 < n → IsCeiling (round_up n d) n d × (0 < round_up n d)
unfolding round_up
round_up-IsCeiling n d h p = elim (Bool-cases (n % d == 0)) [
  | inl exact ↦
      let e : n / d + 0 ≡ n / d = omega arith in
      let rest : n % d ≡ 0 = ground arith in
      rw (exact, e) (exact-IsCeiling n d (n / d) (omega (arith, div-add-mod n d)) h p)
  | inr above ↦
      let rest : n % d ≢ 0 = ground arith in
      rw above (
        above-IsCeiling n d (n / d) (n % d) (omega (arith, div-add-mod n d)) (mod-lt n h)
          (omega arith))
]

-- A ceiling of at most `m` whole parts is at most `m`.
ceiling-le : (r n d m : ℕ) → IsCeiling r n d → n ≤ m * d → r ≤ m
ceiling-le r n d m c le = elim (dec_le r m) [
  | yes h ↦ h
  | no h ↦ let below : m ≤ r - 1 = omega arith in absurd (omega (arith, mul-le-mul_right d below))
]

-- A product of counts below 2 ^ 64 and a significand stays in a `u128`, even below 2 ^ 117.
product_fits : (samples s : ℕ) → samples < 2 ^ 64 → s < 2 ^ 53 → samples * s < 2 ^ 117
product_fits samples s h k =
    let a : samples * s ≤ samples * 2 ^ 53 = mul-le-mul_left samples (omega arith) in omega arith

product_pos : (samples s : ℕ) → 0 < samples → 0 < s → 0 < samples * s
product_pos samples s h k = mul-pos h k

clamp_idle : (r samples : ℕ) → 0 < r → r ≤ samples → min (max r 1) samples ≡ r
clamp_idle r samples h k = omega arith

round_up_bounds :
    (samples : ℕ) (q : F64)
    → 1 ≤ samples
    → IsTailQuantile q
    → (0 < round_up (samples * significand q) (2 ^ scale q))
      × (round_up (samples * significand q) (2 ^ scale q) ≤ samples)
round_up_bounds samples q pos v =
    let (c, p) =
      round_up-IsCeiling (samples * significand q) (2 ^ scale q)
        (one-le-pow (scale q) 2 (omega arith))
        (product_pos samples (significand q) pos (significand_pos q v)) in
    (p, ceiling-le _ _ _ samples c (mul-le-mul_left samples (significand-le-scale q v)))

-- The rank without wrap-around and clamps: they change nothing for an accepted quantile.
quantile_rank-eq :
    (samples : ℕ) (q : F64)
    → 1 ≤ samples
    → samples < 2 ^ 64
    → IsTailQuantile q
    → quantile_rank samples q
      ≡ (if leb 128 (scale q) then 1 else round_up (samples * significand q) (2 ^ scale q))
unfolding quantile_rank round_up
quantile_rank-eq samples q pos small v = elim (Bool-cases (leb 128 (scale q))) [
  | inl big ↦ rw (decode_lem q (exponent-le q v), big)
  | inr short ↦
      let fits = product_fits samples (significand q) small (significand-lt q) in
      let n : samples * significand q % 2 ^ 128 ≡ samples * significand q =
        mod-eq_of_lt (omega arith) in
      let d : 2 ^ scale q % 2 ^ 128 ≡ 2 ^ scale q =
        mod-eq_of_lt (pow_below (scale q) (not-leb→lt 128 (scale q) short)) in
      let bounds = round_up_bounds samples q pos v in
      rw (decode_lem q (exponent-le q v), short, n, d) (clamp_idle _ samples bounds.0 bounds.1)
]

-- For every sample count from 1 up to the `u64` range and every accepted quantile, the rank is the
-- ceiling of the exact product, and lies between 1 and the sample count.
pub quantile_rank-IsCeiling :
    (samples : ℕ) (q : F64)
    → 1 ≤ samples
    → samples < 2 ^ 64
    → IsTailQuantile q
    → IsCeiling (quantile_rank samples q) (samples * significand q) (2 ^ scale q)
      × (1 ≤ quantile_rank samples q)
      × (quantile_rank samples q ≤ samples)
quantile_rank-IsCeiling samples q pos small v =
    rw (quantile_rank-eq samples q pos small v) (elim (Bool-cases (leb 128 (scale q))) [
      | inl big ↦
          let beyond = pow_beyond (scale q) (leb→le 128 (scale q) big) in
          let fits = product_fits samples (significand q) small (significand-lt q) in
          let some_left = product_pos samples (significand q) pos (significand_pos q v) in
          rw big ((omega arith, omega arith), omega arith, pos)
      | inr short ↦
          let (c, _) =
            round_up-IsCeiling (samples * significand q) (2 ^ scale q)
              (one-le-pow (scale q) 2 (omega arith))
              (product_pos samples (significand q) pos (significand_pos q v)) in
          let bounds = round_up_bounds samples q pos v in rw short (c, bounds.0, bounds.1)
    ])
