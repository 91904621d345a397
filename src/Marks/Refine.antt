-- ===== src/Marks/Refine.antt =====
-- `record_valid_mark` of src/context.rs as a whole, beside its specified places.
use tracegrams.Prelude.{
  ◌++◌, ◌<◌, ◌^◌, ◌∙◌, ◌≡◌, Bool, Option, ap, arith, false, refl, returns, true, ℕ,
}
use tracegrams.Bucket.{raw_u8}
use tracegrams.Bucket.Spec.{bucket_of, ordinary, ordinary-lt, default_bucketize-ordinary}
use tracegrams.Context.{Outcome, MarkAdvance}
use tracegrams.Recorder.{Inner}
use tracegrams.Recorder.Bumps.{
  IsReady, bumped_all, bumped_all-append, bumped_all-IsReady, bumped_all-state, bumped_all-frozen,
}
use tracegrams.Marks.{record_valid_mark, cumulative_bucket_of}
use tracegrams.Marks.Places.{
  saturated, overflow_places, bucket_places, calibration_places, outcome_places, mark_places,
}
use tracegrams.Marks.Blocks.{before_of, add_cumulative-places, record_buckets-places}
use tracegrams.Marks.Calibrating.{record_calibration-places, record_outcome-places}

-- Without a predecessor nothing was accumulated, and the saturated sum is the local latency.
first_saturated :
    (later : Bool) (before_ns local_ns : ℕ)
    → (later ≡ false → before_ns ≡ 0)
    → local_ns < 2 ^ 64
    → later ≡ false
    → saturated before_ns local_ns ≡ local_ns
first_saturated later before_ns local_ns first h e = let z = first e in ground arith

cumulative_bucket_of_lem :
    (later : Bool) (stage before_ns local_ns cumulative_ns : ℕ)
    → (later ≡ false → cumulative_ns ≡ local_ns)
    → cumulative_bucket_of (before_of later stage before_ns) (bucket_of local_ns) cumulative_ns
      ≡ returns (bucket_of cumulative_ns)
unfolding cumulative_bucket_of
cumulative_bucket_of_lem true stage before_ns local_ns cumulative_ns first =
    default_bucketize-ordinary cumulative_ns
cumulative_bucket_of_lem false stage before_ns local_ns cumulative_ns first = rw (first refl)

raw_u8-bucket_of : (value : ℕ) → raw_u8 (bucket_of value) ≡ ordinary value
unfolding raw_u8
raw_u8-bucket_of value = omega (arith, ordinary-lt value)

-- What a valid mark advances its context to.
abbrev pub advance_of : ℕ → ℕ → ℕ → MarkAdvance
advance_of stage before_ns local_ns = record {
  cumulative_ns = saturated before_ns local_ns;
  previous = record { stage = stage; cumulative_bucket = ordinary (saturated before_ns local_ns) };
}

pub calibration_places-same :
    (r r' : Inner) (started : Bool) (stage : ℕ) (later : Bool)
    (before_ns local_ns cumulative_ns : ℕ)
    → r'.calibration_state ≡ r.calibration_state
    → r'.frozen_calibration ≡ r.frozen_calibration
    → calibration_places r' started stage later before_ns local_ns cumulative_ns
      ≡ calibration_places r started stage later before_ns local_ns cumulative_ns
calibration_places-same r r' started stage later before_ns local_ns cumulative_ns e f = rw (e, f)

pub record_valid_mark-places :
    (n : ℕ) (r : Inner) (stage : ℕ) (later started overflowed : Bool) (before_ns local_ns : ℕ)
    (outcome : Option Outcome)
    → IsReady n r
    → stage < n
    → local_ns < 2 ^ 64
    → (later ≡ false → before_ns ≡ 0)
    → (later ≡ true → 0 < stage)
    → record_valid_mark r before_ns stage
        (before_of later stage before_ns)
        started
        local_ns
        overflowed
        outcome
      ≡ returns (
        advance_of stage before_ns local_ns,
        bumped_all r (mark_places r started stage later before_ns local_ns overflowed outcome),
      )
unfolding record_valid_mark
record_valid_mark-places n r stage later started overflowed before_ns local_ns outcome v h small
      first pos =
    let cumulative_ns = saturated before_ns local_ns in
    let same = first_saturated later before_ns local_ns first small in
    let ps₁ = overflow_places before_ns local_ns overflowed in
    let ps₂ = bucket_places stage later before_ns local_ns cumulative_ns in
    let ps₃ = calibration_places r started stage later before_ns local_ns cumulative_ns in
    let ps₄ = outcome_places stage outcome in
    let r₁ = bumped_all r ps₁ in
    let r₂ = bumped_all r₁ ps₂ in
    let v₁ = bumped_all-IsReady n r ps₁ v in
    let v₂ = bumped_all-IsReady n r₁ ps₂ v₁ in
    let r₃ = bumped_all r₂ ps₃ in
    let v₃ = bumped_all-IsReady n r₂ ps₃ v₂ in
    let places₃ =
      calibration_places-same r r₂ started stage later before_ns local_ns cumulative_ns
        (bumped_all-state r₁ ps₂ ∙ bumped_all-state r ps₁)
        (bumped_all-frozen r₁ ps₂ ∙ bumped_all-frozen r ps₁) in
    let e₃ =
      record_calibration-places n r₂ v₂ started stage later before_ns local_ns cumulative_ns h same
      ∙ ap (λ ps. returns (bumped_all r₂ ps)) places₃ in
    rw (
      add_cumulative-places n r v before_ns local_ns overflowed,
      default_bucketize-ordinary local_ns,
      cumulative_bucket_of_lem later stage before_ns local_ns cumulative_ns same,
      record_buckets-places n r₁ v₁ stage later before_ns local_ns cumulative_ns h pos,
      e₃,
      record_outcome-places n r₃ v₃ stage outcome h,
      bumped_all-append r ps₁ (ps₂ ++ (ps₃ ++ ps₄)),
      bumped_all-append r₁ ps₂ (ps₃ ++ ps₄),
      bumped_all-append r₂ ps₃ ps₄,
      raw_u8-bucket_of cumulative_ns,
    )
