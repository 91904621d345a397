-- ===== src/Text/Report.antt =====
-- `Display` of `DiagnosisReport` in src/diagnose.rs.
use tracegrams.Rank.{BucketThreshold}
use tracegrams.Registry.{Str}
use tracegrams.Text.{score_status_name, written, display_classification, codes, Formats}
use tracegrams.Scores.{ScoreStatus, Score, MatrixScores, Scores}
use tracegrams.Diagnose.{
  Classification, value, CalibratedOnlineScores, classification, DiagnosisReport, DiagnoseConfig,
}
use tracegrams.Float.{F64, Float}
use tracegrams.Prelude.{
  ◌&&◌, ◌++◌, ◌==◌, ◌∷◌, Bool, List, Option, [], if◌then◌else◌, none, opt_then, some, ℕ,
}

unfoldable pub is_experimental_defaults : DiagnoseConfig → Bool
is_experimental_defaults config =
    config.onset_threshold == 0x3fe6666666666666
    && config.amplification_lift_threshold == 0x4024000000000000
    && config.carry_through_threshold == 0x3fe999999999999a

-- `Scores::named`
unfoldable pub named : Scores → List (Str × Score)
named scores =
    (codes "tail_onset", scores.tail_onset)
    ∷ (codes "local_tail_origin_clean", scores.local_tail_origin_clean)
    ∷ (codes "local_tail_origin_tail", scores.local_tail_origin_tail)
    ∷ (codes "local_tail_rate_given_prev_tail", scores.local_tail_rate_given_prev_tail)
    ∷ (codes "local_tail_rate_given_prev_not_tail", scores.local_tail_rate_given_prev_not_tail)
    ∷ (codes "amplification_lift", scores.amplification_lift)
    ∷ (codes "carry_through", scores.carry_through)
    ∷ []

module _ ⦃float : Float⦄ ⦃formats : Formats⦄ where
  unfoldable pub display_optional : Option ℕ → Str
  display_optional (some value) = formats.decimal value
  display_optional none = codes "n/a"

  -- One round of the loop of `display_scores`.
  abbrev pub value_pieces : Option F64 → ScoreStatus → List Str
  value_pieces (some v) status = formats.fixed6 v ∷ codes "\n" ∷ []
  value_pieces none status = codes "n/a (" ∷ score_status_name status ∷ codes ")\n" ∷ []

  abbrev pub score_pieces : Str → Score → List Str
  score_pieces name score =
      codes "  "
      ∷ name
      ∷ codes ": "
      ∷ formats.decimal score.numerator
      ∷ codes "/"
      ∷ formats.decimal score.denominator
      ∷ codes " = "
      ∷ written (value_pieces (value score) score.status)
      ∷ []

  unfoldable pub display_score : Str → Score → Str
  unfolding value score_status_name
  display_score name score = written (score_pieces name score)

  unfoldable pub display_named : List (Str × Score) → Str
  unfolding display_score
  display_named [] = []
  display_named ((name, score) ∷ scores) = display_score name score ++ display_named scores

  unfoldable pub display_scores : Scores → Str
  unfolding named display_named
  display_scores scores = display_named (named scores)

  -- `matrix_classification` and `classification` of a report.
  unfoldable pub matrix_classification : DiagnosisReport → Classification
  unfolding classification
  matrix_classification report = classification report.matrix_derived.scores report.config

  unfoldable pub online_classification : DiagnosisReport → Classification
  unfolding classification
  online_classification report = classification report.calibrated_online.scores report.config

  -- The closure `bucket`.
  abbrev pub bucket : Option BucketThreshold → Option ℕ
  bucket threshold = opt_then threshold λ t. some t.bucket

  abbrev pub online_pieces : CalibratedOnlineScores → List Str
  online_pieces online =
      codes "path: calibrated-online\n"
      ∷ codes "  population: all-reached marks (first="
      ∷ formats.decimal online.first_samples
      ∷ codes ", predecessor="
      ∷ formats.decimal online.predecessor_samples
      ∷ codes ")\n"
      ∷ codes "  thresholds_ns: local="
      ∷ formats.decimal online.thresholds.local_ns
      ∷ codes ", previous_cumulative="
      ∷ display_optional online.thresholds.previous_cumulative_ns
      ∷ codes ", cumulative_after="
      ∷ formats.decimal online.thresholds.cumulative_after_ns
      ∷ codes "\n"
      ∷ display_scores online.scores
      ∷ []

  unfoldable pub display_online : CalibratedOnlineScores → Str
  unfolding display_optional display_scores
  display_online online = written (online_pieces online)

  abbrev pub matrix_pieces : MatrixScores → List Str
  matrix_pieces matrix =
      codes "path: matrix-derived (known drift)\n"
      ∷ codes "  population: predecessor-only (cause="
      ∷ formats.decimal matrix.cause_samples
      ∷ codes ", incoming="
      ∷ formats.decimal matrix.incoming_samples
      ∷ codes ")\n"
      ∷ codes "  threshold_buckets: local="
      ∷ display_optional (bucket matrix.thresholds.local)
      ∷ codes ", previous_cumulative="
      ∷ display_optional (bucket matrix.thresholds.previous_cumulative)
      ∷ codes ", cumulative_after="
      ∷ display_optional (bucket matrix.thresholds.cumulative_after)
      ∷ codes "\n"
      ∷ display_scores matrix.scores
      ∷ []

  unfoldable pub display_matrix : MatrixScores → Str
  unfolding display_optional display_scores
  display_matrix matrix = written (matrix_pieces matrix)

  abbrev pub labels_pieces : DiagnosisReport → List Str
  labels_pieces report =
      codes "classification (calibrated-online): "
      ∷ display_classification (online_classification report)
      ∷ codes "\n"
      ∷ codes "classification (matrix-derived): "
      ∷ display_classification (matrix_classification report)
      ∷ codes "\n"
      ∷ codes "classification thresholds: onset>="
      ∷ formats.fixed6 report.config.onset_threshold
      ∷ codes ", amplification_lift>="
      ∷ formats.fixed6 report.config.amplification_lift_threshold
      ∷ codes ", carry_through>="
      ∷ formats.fixed6 report.config.carry_through_threshold
      ∷ (if is_experimental_defaults report.config then codes " (experimental PoC values)" else [])
      ∷ []

  unfoldable pub display_labels : DiagnosisReport → Str
  unfolding online_classification matrix_classification display_classification
      is_experimental_defaults
  display_labels report = written (labels_pieces report)

  abbrev pub report_pieces : DiagnosisReport → List Str
  report_pieces report =
      codes "tracegrams diagnosis: "
      ∷ report.stage_name
      ∷ codes "\nconsistency: relaxed\n"
      ∷ display_online report.calibrated_online
      ∷ display_matrix report.matrix_derived
      ∷ display_labels report
      ∷ []

  unfoldable pub display_report : DiagnosisReport → Str
  unfolding display_online display_matrix display_labels
  display_report report = written (report_pieces report)
