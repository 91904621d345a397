-- ===== src/Bucket.antt =====
-- The bucket arithmetic of src/bucket.rs: the six-bit bucket, the search of a bound table, and the
-- search of the four calibration buckets inside a known ordinary bucket.
pub mod Search
pub mod Nested
pub mod Spec
use tracegrams.Prelude.{
  ◌%◌, ◌&&◌, ◌*◌, ◌+◌, ◌-◌, ◌==◌, ◌>>=◌, ◌>>◌, ◌^◌, ◌∷◌, Bool, List, Run, [], assert, bit_and, drop,
  if◌then◌else◌, leb, length, ltb, panic, returns, suc, take, ℕ,
}
use tracegrams.Bounds.{buckets, calibration_buckets, default_bounds, calibration_bounds}

-- `struct Bucket(usize)`
pub record Bucket : Type 0 where
  pub index : ℕ

unfoldable pub from_six_bits : ℕ → Bucket
from_six_bits bits = record { index = bit_and bits (buckets - 1) }

-- The cast to `u8`.
unfoldable pub raw_u8 : Bucket → ℕ
raw_u8 b = b.index % 2 ^ 8

-- `slice::partition_point` of the standard library, which finds the end of the leading elements that
-- pass the test (on a slice that the test partitions, as all slices here are).
unfoldable pub partition_point {ℓ} : {A : Type ℓ} → (A → Bool) → List A → ℕ
partition_point p [] = 0
partition_point p (x ∷ xs) = if p x then suc (partition_point p xs) else 0

-- `xs[from..to]`
unfoldable pub slice {ℓ} : {A : Type ℓ} → List A → ℕ → ℕ → Run (List A)
slice xs from to =
    if leb from to && leb to (length xs) then returns (take (to - from) (drop from xs)) else panic

-- The index `bounds[0]` panics on an empty table.
unfoldable pub bucketize : ℕ → List ℕ → Run ℕ
bucketize value [] = panic
bucketize value (bound ∷ bounds) =
    if ltb value bound
    then returns 0
    else returns (partition_point (λ b. leb b value) (bound ∷ bounds))

unfoldable pub default_bucketize : ℕ → Run Bucket
default_bucketize value = do
  bucket ← bucketize value default_bounds
  assert (ltb bucket buckets)
  returns (record { index = bucket })

unfoldable pub calibration_bucketize : ℕ → Bucket → Run ℕ
calibration_bucketize value default_bucket =
    let b = default_bucket.index in
    let first = 1 + (b - 1) * 4 in
    if b == 0
    then returns 0
    else if b == buckets - 1
    then returns (calibration_buckets - 1)
    else slice calibration_bounds first (first + 3) >>= λ four.
        returns (first + partition_point (λ bound. leb bound value) four)
