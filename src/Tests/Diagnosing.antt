-- ===== src/Tests/Diagnosing.antt =====
-- Concrete inputs for src/snapshot.rs and src/diagnose.rs, on recorders of src/recorder.rs.
use tracegrams.Layout.{Segment, Diagnostic}
use tracegrams.Text.Report.{display_report}
use mathlib.Core.Path.{subst}
use tracegrams.Snapshot.Taken.{snapshot_relaxed-IsCopy, IsCopy}
use tracegrams.Scores.Marginals.{derive_matrix_scores-IsMatrixScores, IsMatrixScores}
use tracegrams.Layout.Facts.{at, index_of, new_layout-IsLayout}
use tracegrams.Tests.Recording.{
  recorder-get_or, second, recorder-names, recorder-IsReady, no_memory, recorder,
}
use tracegrams.Snapshot.Accessors.{
  diagnostics-anomalies, sample_counts-IsSampled, anomalies, IsSampled,
}
use tracegrams.Tests.Published.{
  published-IsUsable, frozen_recorder-IsSound, published, frozen_recorder,
}
use tracegrams.Tests.Numbers.{whole_float, two_stages_lem, half, two_stages}
use tracegrams.Recorder.Bumps.{IsUsable}
use tracegrams.Recorder.{new_inner}
use tracegrams.Diagnose.Frozen.{AreCountedIn, snapshot_relaxed-diagnoses, AreOwn, AreCounted}
use tracegrams.Text.{Formats}
use tracegrams.Scores.{
  ScoreStatus, unavailable, all_scores, Score, derive_matrix_scores, MatrixScores,
}
use tracegrams.Diagnose.Cases.{diagnose-cases, IsDiagnosis, IsDiagnosable, is_own}
use tracegrams.Diagnose.Online.{calibration_of}
use tracegrams.Text.Lines.{display_report-lines, IsPlain, newlines}
use tracegrams.Diagnose.{
  not_calibrated, DiagnosisReport, window_spans_freeze, foreign_stage, diagnose, DiagnoseConfig,
}
use tracegrams.Snapshot.Reads.{counts-Reads, Reads, has_segment, IsSnapshot}
use tracegrams.Calibration.{StageReport, FreezeReport, find_report, stage_report}
use tracegrams.Registry.{same_stage, StageId}
use tracegrams.Snapshot.{
  counts, is_frozen, sample_counts, snapshot_relaxed, Snapshot, SampleCounts, diagnostics,
}
use tracegrams.Prelude.{
  ◌%◌, ◌+◌, ◌<◌, ◌^◌, ◌∙◌, ◌∷◌, ◌≡◌, ◌⊎◌, Bool-cases, List, [], arith, err, false, get_elem?,
  get_or, inl, inr, length, length-replicate, none, ok, refl, replicate, returns, some, suc, sum,
  sym, true, zero, ℕ,
}

snapshot_relaxed-IsCopy_example :
    (s : Snapshot) × (snapshot_relaxed recorder ≡ returns s) × IsCopy 2 recorder s
snapshot_relaxed-IsCopy_example =
    snapshot_relaxed-IsCopy 2 recorder recorder-IsReady (omega arith) recorder-names

-- The snapshot of a recorder that nothing was counted in.
abbrev unused : Snapshot
unused = record {
  cookie = 7;
  stages =
      record { id = record { cookie = 7; index = 0 }; name = 97 ∷ [] }
      ∷ record { id = record { cookie = 7; index = 1 }; name = 98 ∷ [] }
      ∷ [];
  layout = two_stages;
  counters = replicate two_stages.counter_count 0;
  tail_quantile = half;
  calibration_state = is_frozen;
  calibration_report = some (record { stages = (published 0).report ∷ [] });
  memory_estimate = no_memory;
  spans_freeze = false;
}

unused-IsSnapshot : IsSnapshot 2 unused
unused-IsSnapshot = record {
  layout_ok = new_layout-IsLayout 2 two_stages two_stages_lem;
  sized = length-replicate {A = ℕ} two_stages.counter_count 0;
  staged = refl;
}

abbrev first_stage : StageId
first_stage = record { cookie = 7; index = 0 }

counts-Reads_example :
    ((has_segment unused first_stage Segment.online ≡ false)
      × (counts unused first_stage Segment.online ≡ returns none))
    ⊎ ((has_segment unused first_stage Segment.online ≡ true)
        × (xs : List ℕ) × (counts unused first_stage Segment.online ≡ returns (some xs))
        × Reads unused 0 Segment.online xs)
counts-Reads_example = counts-Reads 2 unused first_stage Segment.online unused-IsSnapshot

sample_counts-IsSampled_example :
    (c : SampleCounts) × (sample_counts unused first_stage ≡ returns (some c))
    × IsSampled unused 0 c
sample_counts-IsSampled_example =
    sample_counts-IsSampled 2 unused first_stage unused-IsSnapshot refl

diagnostics-anomalies_example :
    diagnostics unused
    ≡ returns (record {
      invalid_stage_marks = anomalies unused Diagnostic.invalid_stage_marks;
      invalid_context_marks = anomalies unused Diagnostic.invalid_context_marks;
      non_monotonic_marks = anomalies unused Diagnostic.non_monotonic_marks;
      clock_regressions = anomalies unused Diagnostic.clock_regressions;
      latency_overflows = anomalies unused Diagnostic.latency_overflows;
      cumulative_overflows = anomalies unused Diagnostic.cumulative_overflows;
      calibration_samples_skipped_while_freezing =
          anomalies unused Diagnostic.calibration_samples_skipped_while_freezing;
      online_samples_skipped_missing_previous_threshold =
          anomalies unused Diagnostic.online_samples_skipped_missing_previous_threshold;
    })
diagnostics-anomalies_example = diagnostics-anomalies 2 unused unused-IsSnapshot

derive_matrix_scores-IsMatrixScores_example :
    (m : MatrixScores) × (derive_matrix_scores first_stage half (3 ∷ 4 ∷ []) none ≡ returns m)
    × IsMatrixScores first_stage half (3 ∷ 4 ∷ []) none m
unfolding sum
derive_matrix_scores-IsMatrixScores_example =
    derive_matrix_scores-IsMatrixScores first_stage half (3 ∷ 4 ∷ []) none
      (omega arith, omega arith) (omega arith, small) tt
  where
    small : 3 + (4 + 0) < 2 ^ 64
    small = omega arith

-- Nothing was counted, so no segment has samples.
sum-zeros : (xs : List ℕ) → ((k : ℕ) → k < length xs → get_or xs k 0 ≡ 0) → sum xs ≡ 0
unfolding sum
sum-zeros [] h = refl
sum-zeros (x ∷ xs) h =
    omega (arith, h 0 (omega arith), sum-zeros xs (λ k j. h (suc k) (omega arith)))

zero_at : (n i : ℕ) → get_or {A = ℕ} (replicate n 0) i 0 ≡ 0
zero_at zero i = refl
zero_at (suc n) zero = refl
zero_at (suc n) (suc i) = zero_at n i

unused-AreCounted : AreCounted unused
unused-AreCounted stage segment xs reads =
    let none_there = sum-zeros xs (λ k j.
      reads.read k (omega (arith, reads.sized))
      ∙ zero_at two_stages.counter_count (index_of two_stages (at segment stage k))) in
    omega arith

readable_report :
    (stage : StageId) (report : FreezeReport) (c : StageReport)
    → unused.calibration_report ≡ some report
    → stage_report report stage ≡ some c
    → IsUsable (record { report = c })
unfolding stage_report find_report
readable_report stage report c h found =
    let e : record { stages = (published 0).report ∷ [] } ≡ report = cc in
    let f : find_report stage ((published 0).report ∷ []) ≡ some c =
      subst (λ x. find_report stage x.stages ≡ some c) (sym e) found in
    elim (Bool-cases (same_stage first_stage stage)) [
      | inl same ↦
          let w : some (published 0).report ≡ some c = (rw same at f) in
          let k : (published 0).report ≡ c = cc in
          subst (λ x. IsUsable (record { report = x })) k (published-IsUsable 0)
      | inr other ↦ let w : none ≡ some c = (rw other at f) in absurd cc
    ]

unused-IsDiagnosable : IsDiagnosable 2 unused
unused-IsDiagnosable = record {
  snapshot = unused-IsSnapshot;
  quantile = (omega arith, omega arith);
  totals = unused-AreCounted;
  readable = readable_report;
}

abbrev policy : DiagnoseConfig
policy = record {
  onset_threshold = half;
  amplification_lift_threshold = half;
  carry_through_threshold = half;
}

diagnose-cases_example :
    ((is_own unused first_stage ≡ false)
      × (diagnose unused first_stage policy ≡ returns (err (foreign_stage first_stage))))
    ⊎ ((is_own unused first_stage ≡ true)
        × (((unused.spans_freeze ≡ true)
              × (diagnose unused first_stage policy ≡ returns (err window_spans_freeze)))
            ⊎ ((unused.spans_freeze ≡ false)
                × (((calibration_of unused first_stage ≡ none)
                      × (diagnose unused first_stage policy
                          ≡ returns (err (not_calibrated first_stage))))
                    ⊎ ((c : StageReport) × (calibration_of unused first_stage ≡ some c)
                        × (d : DiagnosisReport) × (diagnose unused first_stage policy
                            ≡ returns (ok d))
                        × IsDiagnosis unused first_stage policy c d)))))
diagnose-cases_example = diagnose-cases 2 unused first_stage policy unused-IsDiagnosable

published-AreOwn : AreOwn 2 frozen_recorder
unfolding new_inner
published-AreOwn zero h = (published 0, refl, refl)
published-AreOwn (suc zero) h = (published 1, refl, refl)
published-AreOwn (suc (suc i)) h = absurd (omega arith)

nothing-AreCountedIn : AreCountedIn frozen_recorder
nothing-AreCountedIn stage segment xs sized read =
    let e = sum-zeros xs (λ k h. read k (omega (arith, sized)) ∙ recorder-get_or _) in
    omega (arith, e)

snapshot_relaxed-diagnoses_example :
    (s : Snapshot) × (snapshot_relaxed frozen_recorder ≡ returns s)
    × IsCopy 2 frozen_recorder s
    × (c : StageReport) × (get_elem? frozen_recorder.frozen_calibration 1
        ≡ some (some (record { report = c })))
    × (d : DiagnosisReport) × (diagnose s second policy ≡ returns (ok d))
    × (get_elem? frozen_recorder.stage_names 1 ≡ some d.stage_name)
    × IsDiagnosis s second policy c d
unfolding new_inner
snapshot_relaxed-diagnoses_example =
    snapshot_relaxed-diagnoses 2 frozen_recorder second policy frozen_recorder-IsSound.ready
      (omega arith) recorder-names frozen_recorder-IsSound.quantile refl published-AreOwn
      nothing-AreCountedIn refl (omega arith)

-- Every number is printed as one digit.
abbrev digits : Formats
digits = record {
  decimal = λ n. (48 + n % 10) ∷ [];
  fixed6 = λ v. (48 + v % 10) ∷ [];
  debug_float = λ v. [];
  debug_str = λ name. name;
  debug_tuple = λ name field. name;
}

digits-IsPlain : IsPlain digits
unfolding newlines
digits-IsPlain = record { decimal = λ n. ground arith; fixed6 = λ v. ground arith }

abbrev no_score : Score
no_score = unavailable ScoreStatus.no_predecessor_population

abbrev printed : DiagnosisReport
printed = record {
  stage_name = 97 ∷ [];
  config = policy;
  matrix_derived = record {
    stage = first_stage;
    thresholds = record { local = none; previous_cumulative = none; cumulative_after = none };
    cause_samples = 0;
    incoming_samples = 0;
    scores = all_scores no_score;
  };
  calibrated_online = record {
    stage = first_stage;
    thresholds = record { local_ns = 10; previous_cumulative_ns = none; cumulative_after_ns = 12 };
    first_samples = 5;
    predecessor_samples = 0;
    scores = all_scores no_score;
  };
}

display_report-lines_example :
    newlines (display_report ⦃float = whole_float⦄ ⦃formats = digits⦄ printed) ≡ 24
unfolding newlines
display_report-lines_example =
    display_report-lines ⦃float = whole_float⦄ ⦃formats = digits⦄ digits-IsPlain printed refl
