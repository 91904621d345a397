-- ===== src/Diagnose/Online.antt =====
-- The calibrated online scores of src/diagnose.rs: one lemma for each way `calibrated_online_scores` ends.
use tracegrams.Registry.{StageId}
use tracegrams.Layout.{Segment}
use tracegrams.Estimate.{CalibrationEstimate}
use tracegrams.Snapshot.{Snapshot, online_counts, counts}
use tracegrams.Recorder.Bumps.{value_ns, IsUsable}
use tracegrams.Diagnose.{
  not_calibrated, window_spans_freeze, online_scores, online_totals, CalibratedThresholds,
  CalibratedOnlineScores, calibrated_online_scores, derive_calibrated_online_scores, from_report,
}
use tracegrams.Calibration.{stage_report, StageReport, local_threshold, cumulative_after_threshold}
use tracegrams.Prelude.{
  ◌>>=◌, ◌≡◌, List, Option, err, false, none, ok, opt_then, returns, some, true, unwrap, ℕ,
}

threshold_read :
    (o : Option CalibrationEstimate) (ns : ℕ)
    → (unwrap o >>= λ e. unwrap e.value) ≡ returns ns
    → unwrap (opt_then o λ e. e.value) ≡ returns ns
threshold_read none ns h = absurd cc
threshold_read (some e) ns h = h

-- The thresholds of a usable report.
abbrev thresholds_of : StageReport → CalibratedThresholds
thresholds_of c = record {
  local_ns = value_ns c.local.estimate;
  previous_cumulative_ns = opt_then c.previous_cumulative.estimate λ e. e.value;
  cumulative_after_ns = value_ns c.cumulative_after.estimate;
}

from_report-thresholds :
    (c : StageReport) → IsUsable (record { report = c }) → from_report c ≡ returns (thresholds_of c)
unfolding from_report local_threshold cumulative_after_threshold
from_report-thresholds c u = rw (
  threshold_read c.local.estimate _ u.local_read,
  threshold_read c.cumulative_after.estimate _ u.after_read,
)

-- The online scores of the cells that were counted.
abbrev pub online_of : StageId → StageReport → List ℕ → CalibratedOnlineScores
online_of stage c xs = record {
  stage = stage;
  thresholds = thresholds_of c;
  first_samples = (online_totals xs).first_samples;
  predecessor_samples = (online_totals xs).predecessor_samples;
  scores = online_scores (online_totals xs);
}

derived_online :
    (stage : StageId) (c : StageReport) (xs : List ℕ)
    → IsUsable (record { report = c })
    → derive_calibrated_online_scores stage c xs ≡ returns (online_of stage c xs)
unfolding derive_calibrated_online_scores
derived_online stage c xs u = rw (from_report-thresholds c u)

-- The calibration that a snapshot has of a stage.
abbrev pub calibration_of : Snapshot → StageId → Option StageReport
calibration_of s stage = opt_then s.calibration_report λ report. stage_report report stage

pub spanning :
    (s : Snapshot) (stage : StageId)
    → s.spans_freeze ≡ true
    → calibrated_online_scores s stage ≡ returns (err window_spans_freeze)
unfolding calibrated_online_scores
spanning s stage h = rw h

pub uncalibrated :
    (s : Snapshot) (stage : StageId)
    → s.spans_freeze ≡ false
    → calibration_of s stage ≡ none
    → calibrated_online_scores s stage ≡ returns (err (not_calibrated stage))
unfolding calibrated_online_scores
uncalibrated s stage h e = rw (h, e)

pub calibrated :
    (s : Snapshot) (stage : StageId) (c : StageReport) (xs : List ℕ)
    → s.spans_freeze ≡ false
    → calibration_of s stage ≡ some c
    → counts s stage Segment.online ≡ returns (some xs)
    → IsUsable (record { report = c })
    → calibrated_online_scores s stage ≡ returns (ok (online_of stage c xs))
unfolding calibrated_online_scores online_counts
calibrated s stage c xs h e read u = rw (h, e, read, derived_online stage c xs u)
