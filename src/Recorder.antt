-- ===== src/Recorder.antt =====
-- The shared recorder of src/recorder.rs. An atomic counter is its value; an operation takes the
-- recorder and returns the new one, as the thread that runs it alone sees it.
pub mod Bumps
use tracegrams.Prelude.{
  ◌%◌, ◌+◌, ◌>>=◌, ◌^◌, List, Option, Run, get_elem?, none, replicate, returns, set, unwrap, ℕ,
}
use tracegrams.Float.{F64}
use tracegrams.Registry.{MemoryEstimate, Str}
use tracegrams.Layout.{StorageLayout, Diagnostic, diagnostic_index}
use tracegrams.Calibration.{FrozenStageCalibration}

-- The calibration states.
abbrev pub collecting : ℕ
collecting = 0

abbrev pub freezing : ℕ
freezing = 1

abbrev pub frozen : ℕ
frozen = 2

-- `struct Inner`. The clock's epoch enters only through clock readings, which are arguments.
pub record Inner : Type 0 where
  pub cookie : ℕ
  pub stage_names : List Str
  pub tail_quantile : F64
  pub memory_estimate : MemoryEstimate
  pub layout : StorageLayout
  pub counters : List ℕ
  pub calibration_state : ℕ
  pub frozen_calibration : List (Option FrozenStageCalibration)

unfoldable pub new_inner : ℕ → List Str → F64 → MemoryEstimate → StorageLayout → Inner
new_inner cookie stage_names tail_quantile memory_estimate layout = record {
  cookie = cookie;
  stage_names = stage_names;
  tail_quantile = tail_quantile;
  memory_estimate = memory_estimate;
  layout = layout;
  counters = replicate layout.counter_count 0;
  calibration_state = collecting;
  frozen_calibration = replicate layout.stage_count none;
}

-- `increment_counter`: `fetch_add(1)` wraps.
abbrev pub increment_counter : ℕ → ℕ
increment_counter counter = (counter + 1) % 2 ^ 64

-- The index `counters[index]` panics out of range.
unfoldable pub increment : Inner → ℕ → Run Inner
increment r index = unwrap (get_elem? r.counters index) >>= λ counter.
    returns (record r { counters = set r.counters index (increment_counter counter) })

unfoldable pub increment_diagnostic : Inner → Diagnostic → Run Inner
unfolding increment
increment_diagnostic r diagnostic = increment r (diagnostic_index r.layout diagnostic)
