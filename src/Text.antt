-- ===== src/Text.antt =====
-- The texts of src/init.rs, src/calibration.rs, src/snapshot.rs and src/diagnose.rs: `Display` of the
-- errors and labels, and `Debug` of a stage identifier. A text is its bytes; writing to the sink
-- succeeds. How the standard library prints numbers, floats and quoted strings is an interface.
pub mod Report
pub mod Lines
use tracegrams.Diagnose.{
  onset, amplifier, carried, inconclusive, foreign_stage, not_calibrated, window_spans_freeze,
  Classification, DiagnoseError,
}
use tracegrams.Snapshot.{registry_mismatch, counter_underflow, DeltaError}
use tracegrams.Builder.{
  empty_stage_name, duplicate_stage_name, no_stages, too_many_stages, invalid_tail_quantile,
  registry_cookie_exhausted, size_overflow, InitError,
}
use tracegrams.Freeze.{
  not_ready, already_freezing, already_frozen, calibration_range_insufficient, FreezeError,
}
use tracegrams.Float.{F64}
use tracegrams.Layout.{Population}
use tracegrams.Estimate.{Terminal}
use tracegrams.Registry.{Str, StageId}
use tracegrams.Scores.{ScoreStatus}
use Prim.Native.Char.{code}
use Prim.Native.String.{String}
use tracegrams.Prelude.{◌++◌, ◌∷◌, List, [], not, range, zero, ℕ}

-- The bytes of a literal, which is ASCII.
abbrev pub codes : String → Str
codes String.[] = []
codes (String.◌∷◌ c s) = code c ∷ codes s

-- `{}` of an unsigned integer, `{:.6}` and `{:?}` of an `f64`, `{:?}` of a `str`, and `debug_tuple` with
-- one field.
pub record Formats : Type 0 where
  pub decimal : ℕ → Str
  pub fixed6 : F64 → Str
  pub debug_float : F64 → Str
  pub debug_str : Str → Str
  pub debug_tuple : Str → Str → Str

-- Pieces that are written one after the other.
abbrev pub written : List Str → Str
written [] = []
written (piece ∷ pieces) = piece ++ written pieces

-- The derived `Debug` of the enumerations.
unfoldable pub debug_population : Population → Str
debug_population Population.local = codes "Local"
debug_population Population.cumulative_after = codes "CumulativeAfter"
debug_population Population.previous_cumulative = codes "PreviousCumulative"

unfoldable pub debug_terminal : Terminal → Str
debug_terminal Terminal.lower = codes "Lower"
debug_terminal Terminal.finite = codes "Finite"
debug_terminal Terminal.upper = codes "Upper"

unfoldable pub display_classification : Classification → Str
display_classification onset = codes "onset"
display_classification amplifier = codes "amplifier"
display_classification carried = codes "carry-through"
display_classification inconclusive = codes "inconclusive"

unfoldable pub score_status_name : ScoreStatus → Str
score_status_name ScoreStatus.available = codes "available"
score_status_name ScoreStatus.no_predecessor_population = codes "no predecessor population"
score_status_name ScoreStatus.zero_denominator = codes "zero denominator"

module _ ⦃formats : Formats⦄ where
  unfoldable pub debug_stage : StageId → Str
  debug_stage stage = formats.debug_tuple (codes "StageId") (formats.decimal stage.index)

  unfoldable pub display_delta_error : DeltaError → Str
  display_delta_error registry_mismatch = codes "snapshots belong to different registries"
  display_delta_error (counter_underflow earlier later) = written (
      codes "later counter value "
      ∷ formats.decimal later
      ∷ codes " is below earlier value "
      ∷ formats.decimal earlier
      ∷ [])

  unfoldable pub display_init_error : InitError → Str
  display_init_error empty_stage_name = codes "stage name must not be empty"
  display_init_error (duplicate_stage_name name) =
      written (codes "stage name " ∷ formats.debug_str name ∷ codes " is already registered" ∷ [])
  display_init_error no_stages = codes "at least one stage must be registered"
  display_init_error (too_many_stages maximum) =
      written (codes "at most " ∷ formats.decimal maximum ∷ codes " stages may be registered" ∷ [])
  display_init_error (invalid_tail_quantile value) =
      written (codes "tail quantile " ∷ formats.debug_float value ∷ codes " is outside (0, 1]" ∷ [])
  display_init_error registry_cookie_exhausted = codes "registry-cookie space is exhausted"
  display_init_error size_overflow = codes "recorder size calculation overflowed"

  unfoldable pub display_freeze_error : FreezeError → Str
  unfolding debug_stage debug_population debug_terminal
  display_freeze_error (not_ready stage population samples minimum) = written (
      debug_stage stage
      ∷ codes " "
      ∷ debug_population population
      ∷ codes " has "
      ∷ formats.decimal samples
      ∷ codes " calibration samples; "
      ∷ formats.decimal minimum
      ∷ codes " required"
      ∷ [])
  display_freeze_error already_freezing = codes "calibration is already freezing"
  display_freeze_error already_frozen = codes "calibration is already frozen"
  display_freeze_error (calibration_range_insufficient stage population terminal report) = written (
      codes "calibration range is insufficient for "
      ∷ debug_stage stage
      ∷ codes " "
      ∷ debug_population population
      ∷ codes ": "
      ∷ debug_terminal terminal
      ∷ [])

  unfoldable pub display_diagnose_error : DiagnoseError → Str
  unfolding debug_stage
  display_diagnose_error (foreign_stage stage) =
      written (debug_stage stage ∷ codes " belongs to another recorder" ∷ [])
  display_diagnose_error (not_calibrated stage) =
      written (debug_stage stage ∷ codes " is not calibrated" ∷ [])
  display_diagnose_error window_spans_freeze =
      codes "online diagnosis cannot span the calibration freeze"
