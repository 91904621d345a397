-- ===== src/Text/Lines.antt =====
-- The shape of the texts of src/diagnose.rs: the line feeds of a diagnosis report.
use tracegrams.Diagnose.{
  Classification, DiagnosisReport, CalibratedOnlineScores, value, onset, amplifier, carried,
  inconclusive,
}
use tracegrams.Scores.{ScoreStatus, Scores, MatrixScores, Score}
use tracegrams.Text.Report.{
  is_experimental_defaults, bucket, matrix_classification, online_classification, matrix_pieces,
  labels_pieces, report_pieces, online_pieces, named, value_pieces, display_named, display_labels,
  score_pieces, display_report, display_scores, display_matrix, display_online, display_optional,
  display_score,
}
use tracegrams.Float.{F64, Float}
use tracegrams.Registry.{Str}
use tracegrams.Text.{codes, written, Formats, display_classification, score_status_name}
use tracegrams.Prelude.{
  ◌++◌, ◌+◌, ◌==◌, ◌∙◌, ◌∷◌, ◌≡◌, All, Bool, List, Option, [], arith, false, from_bool,
  if◌then◌else◌, length, none, refl, some, true, ℕ,
}

-- The line feeds of a text.
unfoldable pub newlines : Str → ℕ
newlines [] = 0
newlines (c ∷ cs) = from_bool (c == 10) + newlines cs

newlines-append : (xs ys : Str) → newlines (xs ++ ys) ≡ newlines xs + newlines ys
unfolding newlines
newlines-append [] ys = omega arith
newlines-append (x ∷ xs) ys = omega (arith, newlines-append xs ys)

-- Numbers and floats are printed on one line.
pub record IsPlain (formats : Formats) : Type 0 where
  pub decimal : (n : ℕ) → newlines (formats.decimal n) ≡ 0
  pub fixed6 : (v : F64) → newlines (formats.fixed6 v) ≡ 0

abbrev all_newlines : List Str → ℕ
all_newlines [] = 0
all_newlines (piece ∷ pieces) = newlines piece + all_newlines pieces

newlines-written : (pieces : List Str) → newlines (written pieces) ≡ all_newlines pieces
unfolding newlines
newlines-written [] = refl
newlines-written (piece ∷ pieces) =
    newlines-append piece (written pieces) ∙ omega (arith, newlines-written pieces)

display_classification-line : (c : Classification) → newlines (display_classification c) ≡ 0
unfolding display_classification newlines
display_classification-line onset = refl
display_classification-line amplifier = refl
display_classification-line carried = refl
display_classification-line inconclusive = refl

score_status_name-line : (s : ScoreStatus) → newlines (score_status_name s) ≡ 0
unfolding score_status_name newlines
score_status_name-line ScoreStatus.available = refl
score_status_name-line ScoreStatus.no_predecessor_population = refl
score_status_name-line ScoreStatus.zero_denominator = refl

module _ ⦃float : Float⦄ ⦃formats : Formats⦄ (plain : IsPlain formats) where
  display_optional-line : (o : Option ℕ) → newlines (display_optional o) ≡ 0
  unfolding display_optional newlines
  display_optional-line none = refl
  display_optional-line (some n) = plain.decimal n

  value_pieces-line :
      (o : Option F64) (status : ScoreStatus) → newlines (written (value_pieces o status)) ≡ 1
  unfolding newlines
  value_pieces-line (some v) status =
      newlines-written (value_pieces (some v) status) ∙ omega (arith, plain.fixed6 v)
  value_pieces-line none status =
      newlines-written (value_pieces none status) ∙ omega (arith, score_status_name-line status)

  display_score-line :
      (name : Str) (score : Score) → newlines name ≡ 0 → newlines (display_score name score) ≡ 1
  unfolding display_score newlines
  display_score-line name score h =
      let n = plain.decimal score.numerator in
      let d = plain.decimal score.denominator in
      let shown = value_pieces-line (value score) score.status in
      newlines-written (score_pieces name score) ∙ omega arith

  named-lines :
      (scores : List (Str × Score))
      → All (λ s. newlines s.0 ≡ 0) scores
      → newlines (display_named scores) ≡ length scores
  unfolding display_named newlines
  named-lines [] h = refl
  named-lines ((name, score) ∷ scores) h =
      newlines-append (display_score name score) (display_named scores)
      ∙ omega (arith, display_score-line name score h.0, named-lines scores h.1)

  display_scores-lines : (scores : Scores) → newlines (display_scores scores) ≡ 7
  unfolding display_scores named newlines
  display_scores-lines scores =
      named-lines (named scores) (refl, (refl, (refl, (refl, (refl, (refl, (refl, tt)))))))

  display_online-lines : (c : CalibratedOnlineScores) → newlines (display_online c) ≡ 10
  unfolding display_online newlines
  display_online-lines c =
      newlines-written (online_pieces c)
      ∙ omega (
        arith,
        plain.decimal c.first_samples,
        plain.decimal c.predecessor_samples,
        plain.decimal c.thresholds.local_ns,
        display_optional-line c.thresholds.previous_cumulative_ns,
        plain.decimal c.thresholds.cumulative_after_ns,
        display_scores-lines c.scores,
      )

  display_matrix-lines : (m : MatrixScores) → newlines (display_matrix m) ≡ 10
  unfolding display_matrix newlines
  display_matrix-lines m =
      newlines-written (matrix_pieces m)
      ∙ omega (
        arith,
        plain.decimal m.cause_samples,
        plain.decimal m.incoming_samples,
        display_optional-line (bucket m.thresholds.local),
        display_optional-line (bucket m.thresholds.previous_cumulative),
        display_optional-line (bucket m.thresholds.cumulative_after),
        display_scores-lines m.scores,
      )

  note-line : (b : Bool) → newlines (if b then codes " (experimental PoC values)" else []) ≡ 0
  unfolding newlines
  note-line true = refl
  note-line false = refl

  display_labels-lines : (d : DiagnosisReport) → newlines (display_labels d) ≡ 2
  unfolding display_labels newlines
  display_labels-lines d =
      newlines-written (labels_pieces d)
      ∙ omega (
        arith,
        display_classification-line (online_classification d),
        display_classification-line (matrix_classification d),
        plain.fixed6 d.config.onset_threshold,
        plain.fixed6 d.config.amplification_lift_threshold,
        plain.fixed6 d.config.carry_through_threshold,
        note-line (is_experimental_defaults d.config),
      )

  -- Where numbers and floats are printed on one line and the stage's name is one line, the text of a
  -- diagnosis has exactly 24 line feeds.
  pub display_report-lines :
      (d : DiagnosisReport) → newlines d.stage_name ≡ 0 → newlines (display_report d) ≡ 24
  unfolding display_report newlines
  display_report-lines d one_line =
      newlines-written (report_pieces d)
      ∙ omega (
        arith,
        display_online-lines d.calibrated_online,
        display_matrix-lines d.matrix_derived,
        display_labels-lines d,
      )
