-- ===== src/Marks/Places.antt =====
-- What a valid mark is specified to count: the places of the storage, in order, and the cumulative
-- latency that the context advances to.
use tracegrams.Prelude.{
  ◌*◌, ◌++◌, ◌+◌, ◌==◌, ◌^◌, ◌∷◌, Bool, List, Option, [], false, from_bool, get_or, if◌then◌else◌,
  leb, ltb, none, not, some, true, ℕ,
}
use tracegrams.Bucket.Spec.{ordinary, grid}
use tracegrams.Layout.{
  Segment, Population, Diagnostic, first_online_counter, predecessor_online_counter,
}
use tracegrams.Layout.Facts.{Place, at, anomaly}
use tracegrams.Calibration.{FrozenStageCalibration, previous_cumulative_threshold}
use tracegrams.Recorder.{Inner}
use tracegrams.Recorder.Bumps.{value_ns}
use tracegrams.Context.{Outcome, u64_max}
use tracegrams.Updates.{is_error}

-- The saturating sum of two `u64`s.
abbrev pub saturated : ℕ → ℕ → ℕ
saturated before_ns local_ns =
    if ltb (before_ns + local_ns) (2 ^ 64) then before_ns + local_ns else u64_max

abbrev pub when : Bool → Place → List Place
when true p = p ∷ []
when false p = []

abbrev pub overflow_places : ℕ → ℕ → Bool → List Place
overflow_places before_ns local_ns overflowed =
    when overflowed (anomaly Diagnostic.latency_overflows)
    ++ when (not (ltb (before_ns + local_ns) (2 ^ 64))) (anomaly Diagnostic.cumulative_overflows)

-- `later` says whether the mark has a predecessor, whose cumulative latency is `before_ns`.
abbrev pub bucket_places : ℕ → Bool → ℕ → ℕ → ℕ → List Place
bucket_places stage later before_ns local_ns cumulative_ns =
    at Segment.locals stage (ordinary local_ns)
    ∷ at Segment.cumulative stage (ordinary cumulative_ns)
    ∷ (if later
        then at Segment.cause stage (ordinary before_ns * 64 + ordinary local_ns)
          ∷ at Segment.incoming stage (ordinary before_ns * 64 + ordinary cumulative_ns)
          ∷ []
        else [])

abbrev pub collecting_places : ℕ → Bool → ℕ → ℕ → ℕ → List Place
collecting_places stage later before_ns local_ns cumulative_ns =
    at (Segment.calibration Population.local) stage (grid local_ns)
    ∷ at (Segment.calibration Population.cumulative_after) stage (grid cumulative_ns)
    ∷ when later (at (Segment.calibration Population.previous_cumulative) stage (grid before_ns))

-- A classified mark has one cell of the truth table; with a predecessor and no previous threshold it
-- is a counted skip.
abbrev pub classified_place : FrozenStageCalibration → ℕ → Bool → ℕ → ℕ → ℕ → Place
classified_place c stage later before_ns local_ns cumulative_ns =
    let local_tail = leb (value_ns c.report.local.estimate) local_ns in
    let after_tail = leb (value_ns c.report.cumulative_after.estimate) cumulative_ns in
    if later
    then elim (previous_cumulative_threshold c) [
      | none ↦ anomaly Diagnostic.online_samples_skipped_missing_previous_threshold
      | some previous_ns ↦
          at Segment.online stage
            (predecessor_online_counter (leb previous_ns before_ns) local_tail after_tail)
    ]
    else at Segment.online stage (first_online_counter local_tail after_tail)

-- Only contexts started after the freeze are classified, at stages with published thresholds.
abbrev pub online_places : Inner → Bool → ℕ → Bool → ℕ → ℕ → ℕ → List Place
online_places r started stage later before_ns local_ns cumulative_ns =
    if started
    then elim (get_or r.frozen_calibration stage none) [
      | none ↦ []
      | some c ↦ classified_place c stage later before_ns local_ns cumulative_ns ∷ []
    ]
    else []

-- By the calibration state.
abbrev pub calibration_places : Inner → Bool → ℕ → Bool → ℕ → ℕ → ℕ → List Place
calibration_places r started stage later before_ns local_ns cumulative_ns =
    if r.calibration_state == 0
    then collecting_places stage later before_ns local_ns cumulative_ns
    else if r.calibration_state == 1
    then anomaly Diagnostic.calibration_samples_skipped_while_freezing ∷ []
    else online_places r started stage later before_ns local_ns cumulative_ns

abbrev pub outcome_places : ℕ → Option Outcome → List Place
outcome_places stage none = []
outcome_places stage (some o) = at Segment.completion stage (from_bool (is_error o)) ∷ []

-- All that a valid mark counts.
abbrev pub mark_places : Inner → Bool → ℕ → Bool → ℕ → ℕ → Bool → Option Outcome → List Place
mark_places r started stage later before_ns local_ns overflowed outcome =
    let cumulative_ns = saturated before_ns local_ns in
    overflow_places before_ns local_ns overflowed
    ++ (bucket_places stage later before_ns local_ns cumulative_ns
        ++ (calibration_places r started stage later before_ns local_ns cumulative_ns
            ++ outcome_places stage outcome))
