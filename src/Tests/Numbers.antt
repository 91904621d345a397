-- ===== src/Tests/Numbers.antt =====
-- Concrete inputs for src/bucket.rs, src/init.rs and the layout of src/recorder.rs.
use tracegrams.Prelude.{
  ◌*◌, ◌+◌, ◌/◌, ◌<◌, ◌>>=◌, ◌^◌, ◌∷◌, ◌≡◌, ◌≤◌, ◌⊎◌, All, List, Option, [], arith, err, length,
  map, none, ok, range_from, refl, replicate, returns, some, sum, ℕ,
}
use tracegrams.Bounds.{default_bounds, calibration_bounds}
use tracegrams.Bucket.{Bucket, default_bucketize, calibration_bucketize, bucketize}
use tracegrams.Bucket.Search.{Brackets, default_bucketize-Brackets}
use tracegrams.Bucket.Nested.{calibration_bucketize-eq-bucketize}
use tracegrams.Float.{Float, significand, scale, F64}
use tracegrams.Rank.{BucketThreshold, nearest_rank, quantile_rank}
use tracegrams.Rank.Exact.{IsCeiling, quantile_rank-IsCeiling}
use tracegrams.Rank.Select.{Selects, nearest_rank-Selects}
use tracegrams.Estimate.{CalibrationEstimate, finite_representative, estimate_quantile}
use tracegrams.Estimate.Value.{finite_representative_lem}
use tracegrams.Estimate.Terminals.{IsEstimate, estimate_quantile-IsEstimate}
use tracegrams.Layout.{StorageLayout, new_layout}
use tracegrams.Layout.Cover.{Covers, new_layout-Covers}
use tracegrams.Registry.{StageId, Str, total_bytes}
use tracegrams.Recorder.{Inner, collecting}
use tracegrams.Recorder.Bumps.{IsReady}
use tracegrams.Builder.{
  claim_registry_cookie, is_registered, TracegramsBuilder, InitError, stage, build, Sizes,
}
use tracegrams.Builder.Cookies.{Claims, none_left, claimed, Claims-consecutive}
use tracegrams.Builder.Stages.{IsBuilder, IsRegistered, stage-cases}
use tracegrams.Builder.Ready.{build-IsReady, footprint}

-- `0.5`
abbrev pub half : F64
half = 0x3fe0000000000000

default_bucketize-Brackets_example :
    (b : Bucket) × (default_bucketize 1_500_000 ≡ returns b)
    × (b.index < 64)
    × Brackets 1_500_000 default_bounds b.index
default_bucketize-Brackets_example = default_bucketize-Brackets 1_500_000

calibration_bucketize-eq-bucketize_example :
    (default_bucketize 1_500_000 >>= calibration_bucketize 1_500_000)
    ≡ bucketize 1_500_000 calibration_bounds
calibration_bucketize-eq-bucketize_example = calibration_bucketize-eq-bucketize 1_500_000

quantile_rank-IsCeiling_example :
    IsCeiling (quantile_rank 101 half) (101 * significand half) (2 ^ scale half)
    × (1 ≤ quantile_rank 101 half)
    × (quantile_rank 101 half ≤ 101)
quantile_rank-IsCeiling_example =
    quantile_rank-IsCeiling 101 half (omega arith) (omega arith) (omega arith, omega arith)

abbrev three_counts : List ℕ
three_counts = 2 ∷ 0 ∷ 5 ∷ []

three_counts-lt : sum three_counts < 2 ^ 64
unfolding sum
three_counts-lt = omega arith

nearest_rank-Selects_example :
    ((sum three_counts ≡ 0) × (nearest_rank three_counts half ≡ returns none))
    ⊎ ((0 < sum three_counts)
        × ((t : BucketThreshold) × (nearest_rank three_counts half ≡ returns (some t))
            × (t.samples ≡ sum three_counts)
            × (t.rank ≡ quantile_rank (sum three_counts) half)
            × Selects three_counts t.rank t.bucket))
nearest_rank-Selects_example =
    nearest_rank-Selects three_counts half (omega arith, omega arith) three_counts-lt

finite_representative_lem_example :
    (r : ℕ) × (finite_representative 1_000 2_000 ≡ some r)
    × (1_000 ≤ r)
    × (r ≤ 2_000)
    × (2 * (r * (1_000 + 2_000)) ≤ 2 * (2 * 1_000 * 2_000) + (1_000 + 2_000))
    × (2 * (2 * 1_000 * 2_000) ≤ 2 * (r * (1_000 + 2_000)) + (1_000 + 2_000))
finite_representative_lem_example =
    finite_representative_lem 1_000 2_000 (omega arith) (omega arith)

-- A stand-in for the rounding operations.
abbrev pub whole_float : Float
whole_float = record { of_u128 = λ x. x; div = λ a b. a / b }

abbrev grid_counts : List ℕ
grid_counts = 0 ∷ 3 ∷ (4 ∷ replicate 247 0)

grid_counts-lt : sum grid_counts < 2 ^ 64
unfolding sum
grid_counts-lt = omega arith

estimate_quantile-IsEstimate_example :
    (o : Option CalibrationEstimate) × (estimate_quantile ⦃float = whole_float⦄ grid_counts
        calibration_bounds half
      ≡ returns o)
    × IsEstimate (sum grid_counts) o
estimate_quantile-IsEstimate_example =
    estimate_quantile-IsEstimate ⦃float = whole_float⦄ grid_counts half refl
      (omega arith, omega arith) grid_counts-lt

abbrev pub two_stages : StorageLayout
two_stages = record {
  stage_count = 2;
  cumulative_start = 128;
  cause_start = 256;
  incoming_start = 8448;
  calibration_start = 12544;
  online_start = 14044;
  completion_start = 14068;
  diagnostic_start = 14072;
  counter_count = 14080;
}

pub two_stages_lem : new_layout 2 ≡ some two_stages
unfolding new_layout
two_stages_lem = refl

new_layout-Covers_example : Covers 2 two_stages
new_layout-Covers_example = new_layout-Covers 2 two_stages two_stages_lem

-- A builder with the stage `a`, and the name `b`.
abbrev one_name : TracegramsBuilder
one_name = record { cookie = some 7; stage_names = (97 ∷ []) ∷ []; tail_quantile = half }

one_name-IsBuilder : IsBuilder one_name
unfolding is_registered
one_name-IsBuilder = record { few = omega arith; distinct = (refl, tt); named = (omega arith, tt) }

abbrev new_name : Str
new_name = 98 ∷ []

stage-cases_example :
    ((e : InitError) × (stage one_name new_name ≡ (err e, one_name)))
    ⊎ ((id : StageId) × (after : TracegramsBuilder) × (stage one_name new_name ≡ (ok id, after))
        × IsRegistered one_name after new_name id)
stage-cases_example = stage-cases one_name new_name one_name-IsBuilder

abbrev pub some_sizes : Sizes
some_sizes = record { once_lock = 400; box_str = 16; inner = 200 }

build-IsReady_example :
    (r : Inner) × (build some_sizes one_name ≡ ok r)
    × IsReady 1 r
    × (r.cookie ≡ 7)
    × (r.stage_names ≡ one_name.stage_names)
    × (r.tail_quantile ≡ half)
    × (r.calibration_state ≡ collecting)
    × (total_bytes r.memory_estimate
        ≡ footprint some_sizes r.layout (map length one_name.stage_names))
unfolding sum
build-IsReady_example =
    build-IsReady some_sizes one_name 7 one_name-IsBuilder refl (omega arith)
      (λ l v. omega (arith, v.stages, v.counters_at))

abbrev two_cookies : List ℕ
two_cookies = 5 ∷ 6 ∷ []

-- Two claims, the first after an exchange that failed.
two_cookies-Claims : Claims 5 two_cookies 7
unfolding claim_registry_cookie
two_cookies-Claims = claimed 4 (5 ∷ []) 5 6 refl refl (claimed 6 [] 6 7 refl refl none_left)

Claims-consecutive_example :
    (two_cookies ≡ range_from 5 (length two_cookies))
    × (7 ≡ 5 + length two_cookies)
    × All (λ cookie. cookie < 2 ^ 32) two_cookies
Claims-consecutive_example = Claims-consecutive 5 two_cookies 7 two_cookies-Claims
