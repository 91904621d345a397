-- ===== src/Layout.antt =====
-- The storage geometry of src/recorder.rs: one flat array of counters, cut into segments by
-- component and stage.
pub mod Facts
pub mod Cover
use tracegrams.Prelude.{
  ◌%◌, ◌&&◌, ◌*◌, ◌+◌, ◌-◌, ◌==◌, ◌>>◌, ◌^◌, ◌||◌, Bool, Option, Run, assert, false, from_bool,
  if◌then◌else◌, leb, ltb, none, opt_then, returns, some, true, ℕ,
}
use tracegrams.Bounds.{buckets, calibration_buckets}
use tracegrams.Bucket.{Bucket}

abbrev pub matrix_cells : ℕ
matrix_cells = buckets * buckets

abbrev pub populations_per_stage : ℕ
populations_per_stage = 3

abbrev pub online_first_counters : ℕ
online_first_counters = 4

abbrev pub online_counters_per_stage : ℕ
online_counters_per_stage = 12

abbrev pub completion_counters_per_stage : ℕ
completion_counters_per_stage = 2

abbrev pub diagnostic_counters : ℕ
diagnostic_counters = 8

unfoldable pub first_online_counter : Bool → Bool → ℕ
first_online_counter local_tail cumulative_after_tail =
    from_bool local_tail * 2 + from_bool cumulative_after_tail

unfoldable pub predecessor_online_counter : Bool → Bool → Bool → ℕ
predecessor_online_counter previous_tail local_tail cumulative_after_tail =
    online_first_counters
    + from_bool previous_tail * 4
    + from_bool local_tail * 2
    + from_bool cumulative_after_tail

-- `enum CalibrationPopulation`
pub data Population : Type 0 where
  local cumulative_after previous_cumulative : Population

abbrev pub population_offset : Population → ℕ
population_offset local = 0
population_offset cumulative_after = 1
population_offset previous_cumulative = 2

-- `enum DiagnosticCounter`
pub data Diagnostic : Type 0 where
  invalid_stage_marks : Diagnostic
  invalid_context_marks : Diagnostic
  non_monotonic_marks : Diagnostic
  clock_regressions : Diagnostic
  latency_overflows : Diagnostic
  cumulative_overflows : Diagnostic
  calibration_samples_skipped_while_freezing : Diagnostic
  online_samples_skipped_missing_previous_threshold : Diagnostic

abbrev pub diagnostic_offset : Diagnostic → ℕ
diagnostic_offset invalid_stage_marks = 0
diagnostic_offset invalid_context_marks = 1
diagnostic_offset non_monotonic_marks = 2
diagnostic_offset clock_regressions = 3
diagnostic_offset latency_overflows = 4
diagnostic_offset cumulative_overflows = 5
diagnostic_offset calibration_samples_skipped_while_freezing = 6
diagnostic_offset online_samples_skipped_missing_previous_threshold = 7

-- `enum Segment`
pub data Segment : Type 0 where
  locals cumulative cause incoming : Segment
  calibration : Population → Segment
  online completion : Segment

pub record StorageLayout : Type 0 where
  pub stage_count : ℕ
  pub cumulative_start : ℕ
  pub cause_start : ℕ
  pub incoming_start : ℕ
  pub calibration_start : ℕ
  pub online_start : ℕ
  pub completion_start : ℕ
  pub diagnostic_start : ℕ
  pub counter_count : ℕ

-- `usize` is 64 bits wide.
abbrev pub checked_add : ℕ → ℕ → Option ℕ
checked_add a b = if ltb (a + b) (2 ^ 64) then some (a + b) else none

abbrev pub checked_mul : ℕ → ℕ → Option ℕ
checked_mul a b = if ltb (a * b) (2 ^ 64) then some (a * b) else none

-- `StorageLayout::new`, with `?` as the bind.
unfoldable pub new_layout : ℕ → Option StorageLayout
new_layout stage_count =
    let steps : Option StorageLayout =
      opt_then (checked_mul stage_count buckets) λ distribution_cells.
        opt_then (checked_add distribution_cells distribution_cells) λ cause_start.
          opt_then (checked_mul stage_count matrix_cells) λ cause_cells.
            opt_then (checked_add cause_start cause_cells) λ incoming_start.
              opt_then (checked_mul (stage_count - 1) matrix_cells) λ incoming_cells.
                opt_then (checked_add incoming_start incoming_cells) λ calibration_start.
                  opt_then (checked_mul stage_count populations_per_stage) λ populations.
                    opt_then (checked_mul populations calibration_buckets) λ calibration_cells.
                      opt_then (checked_add calibration_start calibration_cells) λ online_start.
                        opt_then (checked_mul stage_count online_counters_per_stage) λ online_cells.
                          opt_then (checked_add online_start online_cells) λ completion_start.
                            opt_then (checked_mul stage_count completion_counters_per_stage)
                              λ completion_cells.
                                opt_then (checked_add completion_start completion_cells)
                                  λ diagnostic_start.
                                    opt_then (checked_add diagnostic_start diagnostic_counters)
                                      λ counter_count. some (record {
                                        stage_count = stage_count;
                                        cumulative_start = distribution_cells;
                                        cause_start = cause_start;
                                        incoming_start = incoming_start;
                                        calibration_start = calibration_start;
                                        online_start = online_start;
                                        completion_start = completion_start;
                                        diagnostic_start = diagnostic_start;
                                        counter_count = counter_count;
                                      }) in
    if stage_count == 0 then none else steps

abbrev pub matrix_counter_count : StorageLayout → ℕ
matrix_counter_count l = l.calibration_start

-- The layout's starts ascend, so this and the other differences of starts do not wrap.
abbrev pub calibration_counter_count : StorageLayout → ℕ
calibration_counter_count l = l.online_start - l.calibration_start

-- The base, the stride and the length of a segment.
unfoldable pub extent : StorageLayout → Segment → ℕ × ℕ × ℕ
extent l locals = (0, buckets, buckets)
extent l cumulative = (l.cumulative_start, buckets, buckets)
extent l cause = (l.cause_start, matrix_cells, matrix_cells)
extent l incoming =
    ((l.incoming_start + 2 ^ 64 - matrix_cells) % 2 ^ 64, matrix_cells, matrix_cells)
extent l (calibration p) = (
  l.calibration_start + population_offset p * calibration_buckets,
  populations_per_stage * calibration_buckets,
  calibration_buckets,
)
extent l online = (l.online_start, online_counters_per_stage, online_counters_per_stage)
extent l completion =
    (l.completion_start, completion_counters_per_stage, completion_counters_per_stage)

-- `geometry`: the start of the segment at a stage, its stride and its length.
unfoldable pub geometry : StorageLayout → Segment → ℕ → ℕ × ℕ × ℕ
unfolding extent
geometry l segment stage =
    let (base, stride, size) = extent l segment in ((base + stage * stride) % 2 ^ 64, stride, size)

abbrev pub is_incoming : Segment → Bool
is_incoming incoming = true
is_incoming _ = false

-- `segment`: the range of indices, as its start and end.
unfoldable pub segment_range : StorageLayout → ℕ → Segment → Option (ℕ × ℕ)
unfolding geometry
segment_range l stage segment =
    let (start, _, size) = geometry l segment stage in
    if leb l.stage_count stage || (stage == 0 && is_incoming segment)
    then none
    else some (start, (start + size) % 2 ^ 64)

unfoldable pub cell : StorageLayout → Segment → ℕ → ℕ → ℕ
unfolding geometry
cell l segment stage offset = ((geometry l segment stage).0 + offset) % 2 ^ 64

-- The index methods of the recording path.
unfoldable pub local_index : StorageLayout → ℕ → Bucket → ℕ
local_index l stage bucket = cell l locals stage bucket.index

unfoldable pub cumulative_index : StorageLayout → ℕ → Bucket → ℕ
cumulative_index l stage bucket = cell l cumulative stage bucket.index

unfoldable pub cause_index : StorageLayout → ℕ → Bucket → Bucket → ℕ
cause_index l destination previous column =
    cell l cause destination (previous.index * buckets + column.index)

unfoldable pub incoming_index : StorageLayout → ℕ → Bucket → Bucket → ℕ
incoming_index l destination previous column =
    cell l incoming destination (previous.index * buckets + column.index)

-- The release assertion on the raw calibration bucket.
unfoldable pub calibration_index : StorageLayout → ℕ → Population → ℕ → Run ℕ
calibration_index l stage population bucket =
    assert (ltb bucket calibration_buckets)
    >> returns (cell l (calibration population) stage bucket)

unfoldable pub online_index : StorageLayout → ℕ → ℕ → ℕ
online_index l stage counter = cell l online stage counter

unfoldable pub completion_index : StorageLayout → ℕ → Bool → ℕ
completion_index l stage error = cell l completion stage (from_bool error)

unfoldable pub diagnostic_index : StorageLayout → Diagnostic → ℕ
diagnostic_index l diagnostic = l.diagnostic_start + diagnostic_offset diagnostic
