-- ===== src/Updates.antt =====
-- The counter updates of one valid mark in src/context.rs, block by block in the order of
-- `record_valid_mark`.
use tracegrams.Prelude.{
  ◌+◌, ◌==◌, ◌>>=◌, ◌^◌, Bool, Option, Run, false, get_elem?, if◌then◌else◌, leb, ltb, none, not,
  opt_then, panic, returns, some, true, unwrap, ℕ,
}
use tracegrams.Bucket.{Bucket, calibration_bucketize}
use tracegrams.Layout.{
  Diagnostic, Population, local_index, cumulative_index, cause_index, incoming_index,
  calibration_index, online_index, completion_index, first_online_counter,
  predecessor_online_counter,
}
use tracegrams.Calibration.{
  FrozenStageCalibration, local_threshold, cumulative_after_threshold,
  previous_cumulative_threshold,
}
use tracegrams.Recorder.{Inner, increment, increment_diagnostic, collecting, freezing, frozen}
use tracegrams.Context.{Outcome, success, failure, u64_max}

-- A validated destination with a predecessor; `incoming` is the `NonZeroU8`.
pub record ValidatedPrevious : Type 0 where
  pub cumulative_bucket : Bucket
  pub incoming : ℕ

-- An overflowed latency is counted, and the cumulative duration saturates, which is counted too.
unfoldable pub add_cumulative : Inner → ℕ → ℕ → Bool → Run (ℕ × Inner)
add_cumulative r before_ns local_ns latency_overflowed = do
  r' ←
      (if latency_overflowed
        then increment_diagnostic r Diagnostic.latency_overflows
        else returns r)
  if ltb (before_ns + local_ns) (2 ^ 64)
      then returns (before_ns + local_ns, r')
      else increment_diagnostic r' Diagnostic.cumulative_overflows >>= λ r''. returns (u64_max, r'')

-- The ordinary distributions and, with a predecessor, the two matrices.
unfoldable pub record_buckets : Inner → ℕ → Option ValidatedPrevious → Bucket → Bucket → Run Inner
record_buckets r stage before local_bucket cumulative_bucket = do
  r₁ ← increment r (local_index r.layout stage local_bucket)
  r₂ ← increment r₁ (cumulative_index r.layout stage cumulative_bucket)
  elim before [
    | none ↦ returns r₂
    | some p ↦ increment r₂ (cause_index r.layout stage p.cumulative_bucket local_bucket) >>= λ r₃.
        increment r₃ (incoming_index r.layout p.incoming p.cumulative_bucket cumulative_bucket)
  ]

-- The arm of `CALIBRATION_COLLECTING`.
unfoldable pub record_collecting :
    Inner → ℕ → ℕ → Option ValidatedPrevious → ℕ → ℕ → Bucket → Bucket → Run Inner
record_collecting r before_ns stage before local_ns cumulative_ns local_bucket cumulative_bucket =
    do
      calibration_local ← calibration_bucketize local_ns local_bucket
      calibration_after ← elim before [
        | none ↦ returns calibration_local
        | some _ ↦ calibration_bucketize cumulative_ns cumulative_bucket
      ]
      i ← calibration_index r.layout stage Population.local calibration_local
      r₁ ← increment r i
      j ← calibration_index r.layout stage Population.cumulative_after calibration_after
      r₂ ← increment r₁ j
      elim before [
        | none ↦ returns r₂
        | some p ↦ calibration_bucketize before_ns p.cumulative_bucket >>= λ calibration_previous.
            calibration_index r.layout stage Population.previous_cumulative calibration_previous
            >>= λ k. increment r₂ k
      ]

-- The truth-table cell, or nothing where the previous threshold is missing.
unfoldable pub online_cell :
    FrozenStageCalibration → Option ValidatedPrevious → ℕ → ℕ → ℕ → Run (Option ℕ)
online_cell calibration before before_ns local_ns cumulative_ns = do
  local_at ← local_threshold calibration
  after_at ← cumulative_after_threshold calibration
  let local_tail = leb local_at local_ns
  let after_tail = leb after_at cumulative_ns
  returns (elim before [
    | none ↦ some (first_online_counter local_tail after_tail)
    | some _ ↦ opt_then (previous_cumulative_threshold calibration) λ previous_at.
        some (predecessor_online_counter (leb previous_at before_ns) local_tail after_tail)
  ])

-- `record_frozen_online`: a request that started before the freeze is not classified. The index
-- `frozen_calibration[stage]` panics out of range.
unfoldable pub record_frozen_online :
    Inner → Bool → ℕ → ℕ → Option ValidatedPrevious → ℕ → ℕ → Run Inner
unfolding online_cell
record_frozen_online r context_started_frozen before_ns stage before local_ns cumulative_ns =
    if not context_started_frozen then returns r else (do
      published ← unwrap (get_elem? r.frozen_calibration stage)
      elim published [
        | none ↦ returns r
        | some calibration ↦
            online_cell calibration before before_ns local_ns cumulative_ns >>= λ counter.
            elim counter [
              | none ↦
                  increment_diagnostic r
                    Diagnostic.online_samples_skipped_missing_previous_threshold
              | some c ↦ increment r (online_index r.layout stage c)
            ]
      ])

-- The match on the calibration state, of which there are three.
unfoldable pub record_calibration :
    Inner → Bool → ℕ → ℕ → Option ValidatedPrevious → ℕ → ℕ → Bucket → Bucket → Run Inner
unfolding record_collecting record_frozen_online
record_calibration r started before_ns stage before local_ns cumulative_ns local_bucket
      cumulative_bucket =
    if r.calibration_state == collecting
    then record_collecting r before_ns stage before local_ns cumulative_ns local_bucket
        cumulative_bucket
    else if r.calibration_state == freezing
    then increment_diagnostic r Diagnostic.calibration_samples_skipped_while_freezing
    else if r.calibration_state == frozen
    then record_frozen_online r started before_ns stage before local_ns cumulative_ns
    else panic

abbrev pub is_error : Outcome → Bool
is_error success = false
is_error failure = true

unfoldable pub record_outcome : Inner → ℕ → Option Outcome → Run Inner
record_outcome r stage none = returns r
record_outcome r stage (some o) = increment r (completion_index r.layout stage (is_error o))
