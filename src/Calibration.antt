-- ===== src/Calibration.antt =====
-- The reports of src/calibration.rs: per population, per stage, and the frozen thresholds that a
-- recorder publishes for a stage.
use tracegrams.Prelude.{
  ◌>>=◌, ◌∷◌, Bool, List, Option, Run, [], false, if◌then◌else◌, none, opt_then, some, true, unwrap,
  ℕ,
}
use tracegrams.Registry.{StageId, same_stage}
use tracegrams.Layout.{Population}
use tracegrams.Estimate.{CalibrationEstimate, Terminal}

-- `enum CalibrationThresholdAvailability`
pub data Availability : Type 0 where
  available absent_no_predecessor range_insufficient : Availability

pub record PopulationReport : Type 0 where
  pub population : Population
  pub samples : ℕ
  pub estimate : Option CalibrationEstimate

abbrev pub is_finite : Terminal → Bool
is_finite Terminal.finite = true
is_finite _ = false

unfoldable pub availability : PopulationReport → Availability
availability r = elim r.estimate [
  | none ↦ absent_no_predecessor
  | some e ↦ if is_finite e.terminal then available else range_insufficient
]

pub record StageReport : Type 0 where
  pub stage : StageId
  pub local : PopulationReport
  pub cumulative_after : PopulationReport
  pub previous_cumulative : PopulationReport

pub record FreezeReport : Type 0 where
  pub stages : List StageReport

unfoldable pub find_report : StageId → List StageReport → Option StageReport
find_report stage [] = none
find_report stage (r ∷ rs) = if same_stage r.stage stage then some r else find_report stage rs

-- `FreezeReport::stage`
unfoldable pub stage_report : FreezeReport → StageId → Option StageReport
unfolding find_report
stage_report report stage = find_report stage report.stages

-- `struct FrozenStageCalibration`
pub record FrozenStageCalibration : Type 0 where
  pub report : StageReport

-- The two `unwrap`s panic where no finite value was published.
unfoldable pub local_threshold : FrozenStageCalibration → Run ℕ
local_threshold c = unwrap c.report.local.estimate >>= λ e. unwrap e.value

unfoldable pub cumulative_after_threshold : FrozenStageCalibration → Run ℕ
cumulative_after_threshold c = unwrap c.report.cumulative_after.estimate >>= λ e. unwrap e.value

unfoldable pub previous_cumulative_threshold : FrozenStageCalibration → Option ℕ
previous_cumulative_threshold c = opt_then c.report.previous_cumulative.estimate λ e. e.value
