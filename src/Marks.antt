-- ===== src/Marks.antt =====
-- The recording of a checkpoint in src/context.rs: validation, the ordered counter updates, and the
-- advance of request-local state.
pub mod Places
pub mod Exist
pub mod Blocks
pub mod Calibrating
pub mod Refine
pub mod Verdict
pub mod Manual
pub mod Request
pub mod Clocked
use tracegrams.Prelude.{
  ◌&&◌, ◌-◌, ◌==◌, ◌>>=◌, ◌>>◌, ◌^◌, Bool, Option, Run, false, if◌then◌else◌, ltb, none, not,
  returns, some, true, ℕ,
}
use tracegrams.Prelude.Bits.{shr, shl}
use tracegrams.Registry.{StageId}
use tracegrams.Bucket.{Bucket, from_six_bits, raw_u8, default_bucketize, calibration_bucketize}
use tracegrams.Layout.{
  Diagnostic, Population, local_index, cumulative_index, cause_index, incoming_index,
  calibration_index, online_index, completion_index, first_online_counter,
  predecessor_online_counter,
}
use tracegrams.Calibration.{
  FrozenStageCalibration, local_threshold, cumulative_after_threshold,
  previous_cumulative_threshold,
}
use tracegrams.Recorder.{Inner, increment, increment_diagnostic, collecting, freezing, frozen}
use tracegrams.Updates.{
  ValidatedPrevious, add_cumulative, record_buckets, record_collecting, online_cell,
  record_frozen_online, record_calibration, is_error, record_outcome,
}
use tracegrams.Context.{
  Outcome, success, failure, PreviousMark, Ctx, new_ctx, registry_cookie, started_frozen, previous,
  set_previous, ClockReading, u64_max, MarkAdvance, ManualCtx,
}

pub record ValidatedMark : Type 0 where
  pub stage : ℕ
  pub previous : Option ValidatedPrevious

abbrev pub is_frozen : Inner → Bool
is_frozen r = r.calibration_state == frozen

-- `start`, given the clock's reading.
unfoldable pub start : Inner → ClockReading → Ctx
unfolding new_ctx
start r reading = new_ctx reading.timestamp_ns r.cookie (is_frozen r)

unfoldable pub start_manual : Inner → ManualCtx
start_manual r = record {
  cumulative_ns = 0;
  cookie = r.cookie;
  started_frozen = is_frozen r;
  previous = none;
}

-- A rejection increments one diagnostic.
abbrev pub reject : Inner → Diagnostic → Run (Option ValidatedMark × Inner)
reject r diagnostic = increment_diagnostic r diagnostic >>= λ r'. returns (none, r')

unfoldable pub validate_mark :
    Inner → ℕ → Option PreviousMark → StageId → Run (Option ValidatedMark × Inner)
unfolding from_six_bits
validate_mark r context_cookie before stage =
    if not (context_cookie == r.cookie)
    then reject r Diagnostic.invalid_context_marks
    else if not (stage.cookie == r.cookie)
    then reject r Diagnostic.invalid_stage_marks
    else elim before [
      | none ↦ returns (some (record { stage = stage.index; previous = none }), r)
      | some p ↦
          if not (stage.index == 0) && ltb p.stage stage.index
          then returns (
            some (record {
              stage = stage.index;
              previous = some (record {
                cumulative_bucket = from_six_bits p.cumulative_bucket;
                incoming = stage.index;
              });
            }),
            r,
          )
          else reject r Diagnostic.non_monotonic_marks
    ]

-- The first mark's cumulative latency is its local latency, so its bucket is not searched again.
unfoldable pub cumulative_bucket_of : Option ValidatedPrevious → Bucket → ℕ → Run Bucket
cumulative_bucket_of none local_bucket cumulative_ns = returns local_bucket
cumulative_bucket_of (some _) local_bucket cumulative_ns = default_bucketize cumulative_ns

unfoldable pub record_valid_mark :
    Inner
    → ℕ
    → ℕ
    → Option ValidatedPrevious
    → Bool
    → ℕ
    → Bool
    → Option Outcome
    → Run (MarkAdvance × Inner)
unfolding add_cumulative record_buckets record_calibration record_outcome raw_u8
    cumulative_bucket_of
record_valid_mark r before_ns stage before started local_ns latency_overflowed outcome = do
  (cumulative_ns, r₁) ← add_cumulative r before_ns local_ns latency_overflowed
  local_bucket ← default_bucketize local_ns
  cumulative_bucket ← cumulative_bucket_of before local_bucket cumulative_ns
  r₂ ← record_buckets r₁ stage before local_bucket cumulative_bucket
  r₃ ←
      record_calibration r₂ started before_ns stage before local_ns cumulative_ns local_bucket
        cumulative_bucket
  r₄ ← record_outcome r₃ stage outcome
  returns (
    record {
      cumulative_ns = cumulative_ns;
      previous = record { stage = stage; cumulative_bucket = raw_u8 cumulative_bucket };
    },
    r₄,
  )

-- `u64::try_from(elapsed.as_nanos())`, saturating.
abbrev pub local_of : ℕ → ℕ × Bool
local_of nanos = if ltb nanos (2 ^ 64) then (nanos, false) else (u64_max, true)

unfoldable pub record_manual_mark :
    Inner → ManualCtx → StageId → ℕ → Option Outcome → Run (ManualCtx × Inner)
unfolding validate_mark record_valid_mark
record_manual_mark r context stage elapsed outcome = do
  (mark, r') ← validate_mark r context.cookie context.previous stage
  elim mark [
    | none ↦ returns (context, r')
    | some m ↦
        record_valid_mark r' context.cumulative_ns m.stage m.previous context.started_frozen
          (local_of elapsed).0 (local_of elapsed).1 outcome
        >>= λ result. returns (
          record context {
            cumulative_ns = result.0.cumulative_ns;
            previous = some result.0.previous;
          },
          result.1,
        )
  ]

-- The measured interval, saturated when the clock reading overflowed. The subtraction is checked
-- before this is used.
abbrev pub measured : Ctx → ClockReading → ℕ
measured context reading =
    if reading.overflowed then u64_max else reading.timestamp_ns - context.last_timestamp_ns

unfoldable pub advanced : Ctx → ClockReading → MarkAdvance → Ctx
unfolding set_previous
advanced context reading advance =
    set_previous
      (record context {
        last_timestamp_ns = reading.timestamp_ns;
        cumulative_ns = advance.cumulative_ns;
      })
      advance.previous

unfoldable pub record_clocked_mark :
    Inner → Ctx → StageId → ClockReading → Option Outcome → Run (Ctx × Inner)
unfolding validate_mark record_valid_mark registry_cookie previous started_frozen advanced
record_clocked_mark r context stage reading outcome = do
  (mark, r') ← validate_mark r (registry_cookie context) (previous context) stage
  elim mark [
    | none ↦ returns (context, r')
    | some m ↦
        if ltb reading.timestamp_ns context.last_timestamp_ns
        then (increment_diagnostic r' Diagnostic.clock_regressions
            >>= (λ r''. returns (context, r'')))
        else (record_valid_mark r' context.cumulative_ns m.stage m.previous (started_frozen context)
              (measured context reading) reading.overflowed outcome
            >>= (λ result. returns (advanced context reading result.0, result.1)))
  ]

-- The four entry points. A context that is consumed is dropped.
unfoldable pub mark : Inner → Ctx → StageId → ClockReading → Run (Ctx × Inner)
unfolding record_clocked_mark
mark r context stage reading = record_clocked_mark r context stage reading none

unfoldable pub finish : Inner → Ctx → StageId → ClockReading → Outcome → Run Inner
unfolding record_clocked_mark
finish r context stage reading outcome =
    record_clocked_mark r context stage reading (some outcome) >>= λ result. returns result.1

unfoldable pub record_elapsed : Inner → ManualCtx → StageId → ℕ → Run (ManualCtx × Inner)
unfolding record_manual_mark
record_elapsed r context stage elapsed = record_manual_mark r context stage elapsed none

unfoldable pub finish_manual : Inner → ManualCtx → StageId → ℕ → Outcome → Run Inner
unfolding record_manual_mark
finish_manual r context stage elapsed outcome =
    record_manual_mark r context stage elapsed (some outcome) >>= λ result. returns result.1
