-- ===== src/Diagnose.antt =====
-- The calibrated-online scores, the classification and the diagnosis of src/diagnose.rs.
pub mod Shares
pub mod Decoded
pub mod Online
pub mod Cases
pub mod Frozen
use tracegrams.Prelude.{
  ◌&&◌, ◌+◌, ◌-◌, ◌==◌, ◌>>=◌, ◌>>◌, ◌∷◌, Bool, List, Option, Result, Run, [], bit_and, err, false,
  get_elem?, if◌then◌else◌, ltb, none, not, ok, opt_then, returns, some, suc, unwrap, ℕ,
}
use tracegrams.Float.{F64, Float, is_nan, le}
use tracegrams.Registry.{Str, StageId}
use tracegrams.Calibration.{StageReport, stage_report}
use tracegrams.Snapshot.{Snapshot, stage_index, online_counts}
use tracegrams.Scores.{
  Score, Scores, MatrixScores, probability, lift, unavailable, all_scores, is_available,
  no_predecessor_population, matrix_scores,
}

pub record CalibratedThresholds : Type 0 where
  pub local_ns : ℕ
  pub previous_cumulative_ns : Option ℕ
  pub cumulative_after_ns : ℕ

-- `from_report`: the required thresholds are unwrapped.
unfoldable pub from_report : StageReport → Run CalibratedThresholds
from_report report = do
  local_ns ← unwrap (opt_then report.local.estimate λ e. e.value)
  after_ns ← unwrap (opt_then report.cumulative_after.estimate λ e. e.value)
  returns (record {
    local_ns = local_ns;
    previous_cumulative_ns = opt_then report.previous_cumulative.estimate λ e. e.value;
    cumulative_after_ns = after_ns;
  })

-- Sums of twelve `u64`s fit their `u128`s.
pub record OnlineTotals : Type 0 where
  pub first_samples : ℕ
  pub predecessor_samples : ℕ
  pub local_tail_total : ℕ
  pub local_tail_clean : ℕ
  pub local_tail_previous_clean : ℕ
  pub local_tail_previous_tail : ℕ
  pub previous_tail_total : ℕ
  pub previous_clean_total : ℕ
  pub carry_through : ℕ
  pub cumulative_after_tail_total : ℕ
  pub tail_onset : ℕ

abbrev pub no_totals : OnlineTotals
no_totals = record {
  first_samples = 0;
  predecessor_samples = 0;
  local_tail_total = 0;
  local_tail_clean = 0;
  local_tail_previous_clean = 0;
  local_tail_previous_tail = 0;
  previous_tail_total = 0;
  previous_clean_total = 0;
  carry_through = 0;
  cumulative_after_tail_total = 0;
  tail_onset = 0;
}

-- The bits of a cell index.
abbrev pub has_bit : ℕ → ℕ → Bool
has_bit cell bit = not (bit_and cell bit == 0)

-- The part of the loop body for a first-mark cell.
abbrev pub add_first : Bool → Bool → ℕ → OnlineTotals → OnlineTotals
add_first local_tail after_tail count t = record t {
  first_samples = t.first_samples + count;
  local_tail_total = if local_tail then t.local_tail_total + count else t.local_tail_total;
  local_tail_clean = if local_tail then t.local_tail_clean + count else t.local_tail_clean;
  cumulative_after_tail_total =
      if after_tail then t.cumulative_after_tail_total + count else t.cumulative_after_tail_total;
  tail_onset = if after_tail then t.tail_onset + count else t.tail_onset;
}

-- The part for a cell with a predecessor.
abbrev pub add_predecessor : Bool → Bool → Bool → ℕ → OnlineTotals → OnlineTotals
add_predecessor previous_tail local_tail after_tail count t = record t {
  predecessor_samples = t.predecessor_samples + count;
  previous_tail_total =
      if previous_tail then t.previous_tail_total + count else t.previous_tail_total;
  previous_clean_total =
      if previous_tail then t.previous_clean_total else t.previous_clean_total + count;
  local_tail_total = if local_tail then t.local_tail_total + count else t.local_tail_total;
  local_tail_previous_tail =
      if local_tail && previous_tail
      then t.local_tail_previous_tail + count
      else t.local_tail_previous_tail;
  local_tail_clean =
      if local_tail && not previous_tail then t.local_tail_clean + count else t.local_tail_clean;
  local_tail_previous_clean =
      if local_tail && not previous_tail
      then t.local_tail_previous_clean + count
      else t.local_tail_previous_clean;
  carry_through =
      if not local_tail && previous_tail then t.carry_through + count else t.carry_through;
  cumulative_after_tail_total =
      if after_tail then t.cumulative_after_tail_total + count else t.cumulative_after_tail_total;
  tail_onset = if after_tail && not previous_tail then t.tail_onset + count else t.tail_onset;
}

unfoldable pub totals_from : ℕ → List ℕ → OnlineTotals → OnlineTotals
totals_from cell [] t = t
totals_from cell (count ∷ counts) t = totals_from (suc cell) counts (
    if ltb cell 4
    then add_first (has_bit cell 2) (has_bit cell 1) count t
    else add_predecessor (has_bit (cell - 4) 4) (has_bit cell 2) (has_bit cell 1) count t)

unfoldable pub online_totals : List ℕ → OnlineTotals
unfolding totals_from
online_totals counts = totals_from 0 counts no_totals

pub record CalibratedOnlineScores : Type 0 where
  pub stage : StageId
  pub thresholds : CalibratedThresholds
  pub first_samples : ℕ
  pub predecessor_samples : ℕ
  pub scores : Scores

-- `CalibratedOnlineScores::samples`
unfoldable pub samples : CalibratedOnlineScores → ℕ
samples c = c.first_samples + c.predecessor_samples

unfoldable pub first_mark_scores : OnlineTotals → Scores
unfolding all_scores unavailable probability
first_mark_scores t = record (all_scores (unavailable no_predecessor_population)) {
  tail_onset = probability t.tail_onset t.cumulative_after_tail_total;
  local_tail_origin_clean = probability t.local_tail_clean t.local_tail_total;
}

unfoldable pub online_scores : OnlineTotals → Scores
unfolding first_mark_scores probability lift
online_scores t =
    if t.predecessor_samples == 0 then first_mark_scores t else record (first_mark_scores t) {
      local_tail_origin_tail = probability t.local_tail_previous_tail t.local_tail_total;
      local_tail_rate_given_prev_tail =
          probability t.local_tail_previous_tail t.previous_tail_total;
      local_tail_rate_given_prev_not_tail =
          probability t.local_tail_previous_clean t.previous_clean_total;
      amplification_lift =
          lift t.local_tail_previous_tail t.previous_tail_total t.local_tail_previous_clean
            t.previous_clean_total;
      carry_through = probability t.carry_through t.previous_tail_total;
    }

unfoldable pub derive_calibrated_online_scores :
    StageId → StageReport → List ℕ → Run CalibratedOnlineScores
unfolding online_totals online_scores from_report
derive_calibrated_online_scores stage calibration counts =
    let totals = online_totals counts in
    from_report calibration >>= λ thresholds. returns (record {
      stage = stage;
      thresholds = thresholds;
      first_samples = totals.first_samples;
      predecessor_samples = totals.predecessor_samples;
      scores = online_scores totals;
    })

pub record DiagnoseConfig : Type 0 where
  pub onset_threshold : F64
  pub amplification_lift_threshold : F64
  pub carry_through_threshold : F64

-- `0.70`, `10.0` and `0.80` as bits.
unfoldable pub experimental_defaults : DiagnoseConfig
experimental_defaults = record {
  onset_threshold = 0x3fe6666666666666;
  amplification_lift_threshold = 0x4024000000000000;
  carry_through_threshold = 0x3fe999999999999a;
}

pub data Classification : Type 0 where
  onset amplifier carried inconclusive : Classification

pub data DiagnoseError : Type 0 where
  foreign_stage not_calibrated : StageId → DiagnoseError
  window_spans_freeze : DiagnoseError

pub record DiagnosisReport : Type 0 where
  pub stage_name : Str
  pub config : DiagnoseConfig
  pub matrix_derived : MatrixScores
  pub calibrated_online : CalibratedOnlineScores

-- `calibrated_online_scores`; a missing segment is a failed `expect`.
unfoldable pub calibrated_online_scores :
    Snapshot → StageId → Run (Result CalibratedOnlineScores DiagnoseError)
unfolding online_counts derive_calibrated_online_scores
calibrated_online_scores s stage =
    if s.spans_freeze
    then returns (err window_spans_freeze)
    else elim (opt_then s.calibration_report λ report. stage_report report stage) [
      | none ↦ returns (err (not_calibrated stage))
      | some calibration ↦ online_counts s stage >>= λ found. unwrap found >>= λ xs.
          derive_calibrated_online_scores stage calibration xs >>= λ scores. returns (ok scores)
    ]

-- `diagnose`
unfoldable pub diagnose :
    Snapshot → StageId → DiagnoseConfig → Run (Result DiagnosisReport DiagnoseError)
unfolding calibrated_online_scores matrix_scores
diagnose s stage config = elim (stage_index s stage) [
  | none ↦ returns (err (foreign_stage stage))
  | some index ↦ calibrated_online_scores s stage >>= λ online. elim online [
    | err e ↦ returns (err e)
    | ok calibrated ↦ matrix_scores s stage >>= λ found. unwrap found >>= λ matrix.
        unwrap (get_elem? s.stages index) >>= λ metadata. returns (
          ok (record {
            stage_name = metadata.name;
            config = config;
            matrix_derived = matrix;
            calibrated_online = calibrated;
          }))
  ]
]

module _ ⦃float : Float⦄ where
  -- `Score::value`
  unfoldable pub value : Score → Option F64
  value score =
      if is_available score.status
      then some (float.div (float.of_u128 score.numerator) (float.of_u128 score.denominator))
      else none

  -- The closure `meets`.
  unfoldable pub meets : Score → F64 → Bool
  unfolding value is_nan le
  meets score threshold =
      not (is_nan threshold) && elim (value score) [ none ↦ false | some v ↦ le threshold v ]

  unfoldable pub classification : Scores → DiagnoseConfig → Classification
  unfolding meets
  classification scores config =
      if meets scores.tail_onset config.onset_threshold
      then onset
      else if meets scores.amplification_lift config.amplification_lift_threshold
      then amplifier
      else if meets scores.carry_through config.carry_through_threshold
      then carried
      else inconclusive
