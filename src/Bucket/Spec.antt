-- ===== src/Bucket/Spec.antt =====
-- The bucket of a value as a plain function, for statements about recording: the number of leading
-- bounds that the value reaches, in either table.
use tracegrams.Prelude.{◌<◌, ◌>>=◌, ◌∙◌, ◌≡◌, ap, arith, leb, returns, ℕ}
use tracegrams.Bounds.{default_bounds, calibration_bounds}
use tracegrams.Bucket.{Bucket, partition_point, bucketize, default_bucketize, calibration_bucketize}
use tracegrams.Bucket.Search.{
  Brackets, Brackets-unique, partition_point-Brackets, calibration_bucketize_found,
  default_bucketize-Brackets, length-default_bounds, length-calibration_bounds,
  default_bounds-IsAscending, calibration_bounds-IsAscending,
}
use tracegrams.Bucket.Nested.{calibration_bucketize-eq-bucketize}

unfoldable pub ordinary : ℕ → ℕ
ordinary value = partition_point (λ b. leb b value) default_bounds

unfoldable pub grid : ℕ → ℕ
grid value = partition_point (λ b. leb b value) calibration_bounds

abbrev pub bucket_of : ℕ → Bucket
bucket_of value = record { index = ordinary value }

pub ordinary-lt : (value : ℕ) → ordinary value < 64
unfolding ordinary
ordinary-lt value =
    let b = partition_point-Brackets value default_bounds in
    omega (arith, b.within, length-default_bounds)

pub grid-lt : (value : ℕ) → grid value < 250
unfolding grid
grid-lt value =
    let b = partition_point-Brackets value calibration_bounds in
    omega (arith, b.within, length-calibration_bounds)

pub default_bucketize-ordinary : (value : ℕ) → default_bucketize value ≡ returns (bucket_of value)
unfolding ordinary
default_bucketize-ordinary value =
    let (b, run, _, br) = default_bucketize-Brackets value in
    run
    ∙ ap (λ k. returns (record { index = k }))
        (Brackets-unique default_bounds default_bounds-IsAscending value b.index
          (partition_point (λ b. leb b value) default_bounds) br
          (partition_point-Brackets value default_bounds))

pub calibration_bucketize-grid :
    (value : ℕ) → calibration_bucketize value (bucket_of value) ≡ returns (grid value)
calibration_bucketize-grid value =
    let (k, run, br) = calibration_bucketize_found value in
    let whole : (default_bucketize value >>= calibration_bucketize value)
        ≡ bucketize value calibration_bounds =
      calibration_bucketize-eq-bucketize value in
    let fast : calibration_bucketize value (bucket_of value) ≡ bucketize value calibration_bounds =
      rw (default_bucketize-ordinary value) at whole in
    fast ∙ (run ∙ ap returns (grid_unique k br))
  where
    grid_unique : (k : ℕ) → Brackets value calibration_bounds k → k ≡ grid value
    grid_unique k br =
        Brackets-unique calibration_bounds calibration_bounds-IsAscending value k (grid value) br
          (unfold grid in partition_point-Brackets value calibration_bounds)
