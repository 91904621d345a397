-- ===== src/Snapshot.antt =====
-- Owned scans of the counters, src/snapshot.rs, and windows between them.
pub mod Window
pub mod Reads
pub mod Taken
pub mod Marked
pub mod Accessors
use tracegrams.Prelude.{
  ◌&&◌, ◌+◌, ◌-◌, ◌==◌, ◌>>=◌, ◌>>◌, ◌∷◌, Bool, List, Option, Result, Run, [], and_then, err, false,
  from_bool, get_elem?, get_or, if◌then◌else◌, leb, length, ltb, none, not, ok, opt_then, panic,
  returns, some, sum, true, unwrap, ℕ,
}
use tracegrams.Bucket.{slice}
use tracegrams.Float.{F64}
use tracegrams.Registry.{Str, StageId, MemoryEstimate}
use tracegrams.Layout.{
  StorageLayout, Segment, Population, Diagnostic, segment_range, diagnostic_index,
}
use tracegrams.Calibration.{FreezeReport}
use tracegrams.Freeze.{stage_ids, frozen_calibration_report}
use tracegrams.Recorder.{Inner}

pub data DeltaError : Type 0 where
  registry_mismatch : DeltaError
  counter_underflow : ℕ → ℕ → DeltaError

pub data CalibrationState : Type 0 where
  is_collecting is_freezing is_frozen : CalibrationState

-- `from_raw`; any other byte is `unreachable!`.
unfoldable pub from_raw : ℕ → Run CalibrationState
from_raw raw =
    if raw == 0
    then returns is_collecting
    else if raw == 1
    then returns is_freezing
    else if raw == 2
    then returns is_frozen
    else panic

abbrev pub state_is_frozen : CalibrationState → Bool
state_is_frozen is_frozen = true
state_is_frozen _ = false

pub record SampleCounts : Type 0 where
  pub local : ℕ
  pub cumulative_after : ℕ
  pub cause : ℕ
  pub incoming : ℕ
  pub calibration_local : ℕ
  pub calibration_cumulative_after : ℕ
  pub calibration_previous_cumulative : ℕ
  pub online : ℕ

pub record Diagnostics : Type 0 where
  pub invalid_stage_marks : ℕ
  pub invalid_context_marks : ℕ
  pub non_monotonic_marks : ℕ
  pub clock_regressions : ℕ
  pub latency_overflows : ℕ
  pub cumulative_overflows : ℕ
  pub calibration_samples_skipped_while_freezing : ℕ
  pub online_samples_skipped_missing_previous_threshold : ℕ

-- `total`: eight `u64`s fit the `u128` they are added in.
unfoldable pub total : Diagnostics → ℕ
total d =
    d.invalid_stage_marks + d.invalid_context_marks + d.non_monotonic_marks + d.clock_regressions
    + d.latency_overflows + d.cumulative_overflows + d.calibration_samples_skipped_while_freezing
    + d.online_samples_skipped_missing_previous_threshold

pub record StageMetadata : Type 0 where
  pub id : StageId
  pub name : Str

pub record CompletionCounts : Type 0 where
  pub success : ℕ
  pub error : ℕ

pub record Snapshot : Type 0 where
  pub cookie : ℕ
  pub stages : List StageMetadata
  pub layout : StorageLayout
  pub counters : List ℕ
  pub tail_quantile : F64
  pub calibration_state : CalibrationState
  pub calibration_report : Option FreezeReport
  pub memory_estimate : MemoryEstimate
  pub spans_freeze : Bool

unfoldable pub stage_index : Snapshot → StageId → Option ℕ
stage_index s stage =
    if stage.cookie == s.cookie && ltb stage.index (length s.stages) then some stage.index else none

-- `counts`: nothing for a stage without the segment; the slice panics out of range.
unfoldable pub counts : Snapshot → StageId → Segment → Run (Option (List ℕ))
unfolding stage_index slice
counts s stage segment =
    elim (opt_then (stage_index s stage) λ i. segment_range s.layout i segment) [
      | none ↦ returns none
      | some bounds ↦ slice s.counters bounds.0 bounds.1 >>= λ found. returns (some found)
    ]

-- The public accessors.
unfoldable pub local_counts : Snapshot → StageId → Run (Option (List ℕ))
local_counts s stage = counts s stage Segment.locals

unfoldable pub cumulative_counts : Snapshot → StageId → Run (Option (List ℕ))
cumulative_counts s stage = counts s stage Segment.cumulative

unfoldable pub cause_counts : Snapshot → StageId → Run (Option (List ℕ))
cause_counts s destination = counts s destination Segment.cause

unfoldable pub incoming_counts : Snapshot → StageId → Run (Option (List ℕ))
incoming_counts s destination = counts s destination Segment.incoming

unfoldable pub calibration_counts : Snapshot → StageId → Population → Run (Option (List ℕ))
calibration_counts s stage population = counts s stage (Segment.calibration population)

unfoldable pub online_counts : Snapshot → StageId → Run (Option (List ℕ))
online_counts s stage = counts s stage Segment.online

-- `?` on a segment's counts.
unfoldable pub with_sum :
    Run (Option (List ℕ)) → (ℕ → Run (Option SampleCounts)) → Run (Option SampleCounts)
unfolding sum
with_sum m k = m >>= λ found. elim found [ none ↦ returns none | some xs ↦ k (sum xs) ]

unfoldable pub sample_counts : Snapshot → StageId → Run (Option SampleCounts)
unfolding with_sum local_counts cumulative_counts cause_counts incoming_counts calibration_counts
    online_counts sum
sample_counts s stage = with_sum (local_counts s stage) λ at_local.
    with_sum (cumulative_counts s stage) λ after. with_sum (cause_counts s stage) λ by_cause.
      incoming_counts s stage >>= λ found.
      let by_incoming : ℕ = elim found [ none ↦ 0 | some xs ↦ sum xs ] in
      with_sum (calibration_counts s stage Population.local) λ calibrated.
        with_sum (calibration_counts s stage Population.cumulative_after) λ calibrated_after.
          with_sum (calibration_counts s stage Population.previous_cumulative) λ calibrated_before.
            with_sum (online_counts s stage) λ at_online. returns (
              some (record {
                local = at_local;
                cumulative_after = after;
                cause = by_cause;
                incoming = by_incoming;
                calibration_local = calibrated;
                calibration_cumulative_after = calibrated_after;
                calibration_previous_cumulative = calibrated_before;
                online = at_online;
              }))

-- A completion segment of another length is `unreachable!`.
unfoldable pub completion_counts : Snapshot → StageId → Run (Option CompletionCounts)
completion_counts s stage = counts s stage Segment.completion >>= λ found. elim found [
  | none ↦ returns none
  | some xs ↦
      if length xs == 2
      then returns (some (record { success = get_or xs 0 0; error = get_or xs 1 0 }))
      else panic
]

unfoldable pub diagnostic_count : Snapshot → Diagnostic → Run ℕ
diagnostic_count s d = unwrap (get_elem? s.counters (diagnostic_index s.layout d))

unfoldable pub diagnostics : Snapshot → Run Diagnostics
unfolding diagnostic_count
diagnostics s = do
  a ← diagnostic_count s Diagnostic.invalid_stage_marks
  b ← diagnostic_count s Diagnostic.invalid_context_marks
  c ← diagnostic_count s Diagnostic.non_monotonic_marks
  d ← diagnostic_count s Diagnostic.clock_regressions
  e ← diagnostic_count s Diagnostic.latency_overflows
  f ← diagnostic_count s Diagnostic.cumulative_overflows
  g ← diagnostic_count s Diagnostic.calibration_samples_skipped_while_freezing
  h ← diagnostic_count s Diagnostic.online_samples_skipped_missing_previous_threshold
  returns (record {
    invalid_stage_marks = a;
    invalid_context_marks = b;
    non_monotonic_marks = c;
    clock_regressions = d;
    latency_overflows = e;
    cumulative_overflows = f;
    calibration_samples_skipped_while_freezing = g;
    online_samples_skipped_missing_previous_threshold = h;
  })

-- The pairwise `checked_sub` over the zipped counters, up to the first that underflows.
unfoldable pub subtract_all : List ℕ → List ℕ → Result (List ℕ) DeltaError
subtract_all [] ys = ok []
subtract_all (x ∷ xs) [] = ok []
subtract_all (later ∷ xs) (earlier ∷ ys) =
    let rest = subtract_all xs ys in
    if leb earlier later
    then (and_then rest λ zs. ok ((later - earlier) ∷ zs))
    else err (counter_underflow earlier later)

unfoldable pub delta : Snapshot → Snapshot → Result Snapshot DeltaError
unfolding subtract_all
delta s earlier =
    if not (s.cookie == earlier.cookie)
    then err registry_mismatch
    else and_then (subtract_all s.counters earlier.counters) λ differences. ok (record s {
      counters = differences;
      spans_freeze = not (
          from_bool (state_is_frozen s.calibration_state)
          == from_bool (state_is_frozen earlier.calibration_state));
    })

-- `zip` of the stage identifiers with their names.
unfoldable pub zip_stages : List StageId → List Str → List StageMetadata
zip_stages [] names = []
zip_stages (id ∷ ids) [] = []
zip_stages (id ∷ ids) (name ∷ names) = record { id = id; name = name } ∷ zip_stages ids names

-- `snapshot_relaxed`, of a recorder that no other thread changes meanwhile.
unfoldable pub snapshot_relaxed : Inner → Run Snapshot
unfolding zip_stages
snapshot_relaxed r = do
  ids ← stage_ids r
  state ← from_raw r.calibration_state
  returns (record {
    cookie = r.cookie;
    stages = zip_stages ids r.stage_names;
    layout = r.layout;
    counters = r.counters;
    tail_quantile = r.tail_quantile;
    calibration_state = state;
    calibration_report = if state_is_frozen state then frozen_calibration_report r else none;
    memory_estimate = r.memory_estimate;
    spans_freeze = false;
  })
