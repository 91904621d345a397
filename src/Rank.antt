-- ===== src/Rank.antt =====
-- The nearest-rank quantile of src/bucket.rs: the exact rank, and the bucket that reaches it.
pub mod Exact
pub mod Select
use tracegrams.Prelude.{
  ◌%◌, ◌&&◌, ◌*◌, ◌+◌, ◌-◌, ◌/◌, ◌==◌, ◌>>◌, ◌^◌, ◌∷◌, List, Option, Run, [], assert, bit_and,
  bit_or, from_bool, if◌then◌else◌, leb, max, min, none, not, panic, returns, some, suc, ℕ,
}
use tracegrams.Prelude.Bits.{shr}
use tracegrams.Float.{F64, one_bits, is_finite, lt, le}

pub record BucketThreshold : Type 0 where
  pub bucket : ℕ
  pub rank : ℕ
  pub samples : ℕ

-- `iter().sum::<u64>()`, from the left.
unfoldable pub sum_from : ℕ → List ℕ → ℕ
sum_from acc [] = acc
sum_from acc (x ∷ xs) = sum_from ((acc + x) % 2 ^ 64) xs

unfoldable pub sum_u64 : List ℕ → ℕ
unfolding sum_from
sum_u64 counts = sum_from 0 counts

-- The significand and the shift of the denominator, as `quantile_rank` reads them.
unfoldable pub decode : F64 → ℕ × ℕ
decode quantile =
    let exponent = bit_and (shr quantile 52) 0x7ff in
    let mantissa = bit_and quantile (2 ^ 52 - 1) in
    if exponent == 0
    then (mantissa, 1074)
    else (bit_or (2 ^ 52) mantissa, (1075 + 2 ^ 32 - exponent) % 2 ^ 32)

unfoldable pub quantile_rank : ℕ → F64 → ℕ
quantile_rank samples quantile =
    let (significand, shift) = decode quantile in
    let product = samples * significand % 2 ^ 128 in
    let denominator = 2 ^ shift % 2 ^ 128 in
    let rank = product / denominator + from_bool (not (product % denominator == 0)) in
    if leb 128 shift then 1 else min (max rank 1) samples

-- The loop over the counts; past the last it is `unreachable!`.
unfoldable pub select : ℕ → ℕ → ℕ → ℕ → List ℕ → Run (Option BucketThreshold)
select rank samples bucket cumulative [] = panic
select rank samples bucket cumulative (count ∷ counts) =
    let reached = (cumulative + count) % 2 ^ 128 in
    if leb rank reached
    then returns (some (record { bucket = bucket; rank = rank; samples = samples }))
    else select rank samples (suc bucket) reached counts

unfoldable pub nearest_rank : List ℕ → F64 → Run (Option BucketThreshold)
nearest_rank counts quantile =
    let samples = sum_u64 counts in
    assert (is_finite quantile && lt 0 quantile && le quantile one_bits)
    >> (if samples == 0
        then returns none
        else select (quantile_rank samples quantile) samples 0 0 counts)
