-- ===== src/Diagnose/Cases.antt =====
-- `diagnose` of src/diagnose.rs on every branch.
use tracegrams.Diagnose.Decoded.{
  AreOnlineScores, online_scores-AreOnlineScores, AreDecoded, online_totals-AreDecoded,
}
use tracegrams.Registry.{StageId}
use tracegrams.Diagnose.Online.{calibrated, calibration_of, online_of, spanning, uncalibrated}
use tracegrams.Scores.{MatrixScores, matrix_scores}
use tracegrams.Scores.Marginals.{derive_matrix_scores-IsMatrixScores, FitsMatrix, IsMatrixScores}
use tracegrams.Rank.Exact.{IsTailQuantile}
use tracegrams.Layout.{is_incoming, Segment}
use tracegrams.Snapshot.Reads.{
  stage_index-foreign, stage_index-own, counts-Reads, Reads, IsSnapshot,
}
use tracegrams.Snapshot.{Snapshot, incoming_counts, cause_counts, counts, StageMetadata}
use tracegrams.Recorder.Bumps.{IsUsable}
use tracegrams.Diagnose.{
  online_totals, DiagnoseError, foreign_stage, not_calibrated, window_spans_freeze, DiagnosisReport,
  DiagnoseConfig, CalibratedOnlineScores, diagnose, calibrated_online_scores,
}
use tracegrams.Calibration.{FreezeReport, stage_report, StageReport}
use tracegrams.Prelude.{
  ◌&&◌, ◌<◌, ◌==◌, ◌>>=◌, ◌^◌, ◌∙◌, ◌≡◌, ◌⊎◌, Bool, Bool-cases, List, Option, Option-cases, Result,
  Run, ap, arith, err, false, get_elem?, get_elem?-lt-some, inl, inr, length, ltb, none, ok,
  opt_then, refl, returns, some, sum, true, unwrap, ℕ,
}

-- A snapshot that can be diagnosed: of a recorder of `n` stages with an accepted quantile, whose
-- segments total less than 2 ^ 64 samples each, and whose reported thresholds can be read.
pub record IsDiagnosable (n : ℕ) (s : Snapshot) : Type 0 where
  pub snapshot : IsSnapshot n s
  pub quantile : IsTailQuantile s.tail_quantile
  pub totals :
      (stage : ℕ) (segment : Segment) (xs : List ℕ) → Reads s stage segment xs → sum xs < 2 ^ 64
  pub readable :
      (stage : StageId) (report : FreezeReport) (c : StageReport)
      → s.calibration_report ≡ some report
      → stage_report report stage ≡ some c
      → IsUsable (record { report = c })

abbrev pub is_own : Snapshot → StageId → Bool
is_own s stage = stage.cookie == s.cookie && ltb stage.index (length s.stages)

-- The incoming matrix of a stage: the first stage has none.
abbrev pub IsIncoming : Snapshot → ℕ → Option (List ℕ) → Type 0
IsIncoming s stage none = stage ≡ 0
IsIncoming s stage (some xs) = (0 < stage) × Reads s stage Segment.incoming xs

-- What a report says of a stage.
pub record IsDiagnosis (s : Snapshot) (stage : StageId) (config : DiagnoseConfig)
    (calibration : StageReport) (d : DiagnosisReport) : Type 0 where
  pub named :
      (m : StageMetadata) × (get_elem? s.stages stage.index ≡ some m) × (d.stage_name ≡ m.name)
  pub configured : d.config ≡ config
  pub online :
      (xs : List ℕ) × Reads s stage.index Segment.online xs
      × (d.calibrated_online ≡ online_of stage calibration xs)
      × AreDecoded xs (online_totals xs)
      × AreOnlineScores (online_totals xs) d.calibrated_online.scores
  pub matrix :
      (xs : List ℕ) × Reads s stage.index Segment.cause xs
      × (incoming : Option (List ℕ)) × IsIncoming s stage.index incoming
      × IsMatrixScores stage s.tail_quantile xs incoming d.matrix_derived

-- What follows the online scores.
abbrev reported :
    Snapshot
    → StageId
    → DiagnoseConfig
    → ℕ
    → Result CalibratedOnlineScores DiagnoseError
    → Run (Result DiagnosisReport DiagnoseError)
reported s stage config index (err e) = returns (err e)
reported s stage config index (ok scores) = matrix_scores s stage >>= λ found.
    unwrap found >>= λ matrix. unwrap (get_elem? s.stages index) >>= λ metadata. returns (
      ok (record {
        stage_name = metadata.name;
        config = config;
        matrix_derived = matrix;
        calibrated_online = scores;
      }))

diagnose-reported :
    (s : Snapshot) (stage : StageId) (config : DiagnoseConfig)
    (online : Result CalibratedOnlineScores DiagnoseError)
    → is_own s stage ≡ true
    → calibrated_online_scores s stage ≡ returns online
    → diagnose s stage config ≡ reported s stage config stage.index online
unfolding diagnose
diagnose-reported s stage config online own run =
    ap
      (λ o. elim o as (λ x. Run (Result DiagnosisReport DiagnoseError)) [
        | none ↦ returns (err (foreign_stage stage))
        | some index ↦
            calibrated_online_scores s stage >>= λ scored. reported s stage config index scored
      ])
      (stage_index-own s stage own)
    ∙ ap (λ m. m >>= λ scored. reported s stage config stage.index scored) run

opt_then-some :
    {A B : Type 0} (o : Option A) (f : A → Option B) (b : B)
    → opt_then o f ≡ some b
    → (a : A) × (o ≡ some a) × (f a ≡ some b)
opt_then-some none f b h = absurd cc
opt_then-some (some a) f b h = (a, refl, h)

module _ (n : ℕ) (s : Snapshot) (stage : StageId) (v : IsDiagnosable n s)
    (own : is_own s stage ≡ true) where
  -- The segments of an own stage.
  segment_of :
      (segment : Segment)
      → is_incoming segment ≡ false
      → (xs : List ℕ) × (counts s stage segment ≡ returns (some xs))
        × Reads s stage.index segment xs
  segment_of segment here = elim (counts-Reads n s stage segment v.snapshot) [
    | inl (none_there, run) ↦ absurd (ground (arith, own))
    | inr (there, xs, run, reads) ↦ (xs, run, reads)
  ]

  incoming_of :
      (o : Option (List ℕ)) × (counts s stage Segment.incoming ≡ returns o)
      × FitsMatrix o
      × IsIncoming s stage.index o
  incoming_of = elim (counts-Reads n s stage Segment.incoming v.snapshot) [
    | inl (none_there, run) ↦ (none, run, tt, ground (arith, own))
    | inr (there, xs, run, reads) ↦ (
      some xs,
      run,
      (omega (arith, reads.sized), v.totals stage.index Segment.incoming xs reads),
      (ground (arith, there), reads),
    )
  ]

  matrix_of :
      (xs : List ℕ)
      → counts s stage Segment.cause ≡ returns (some xs)
      → Reads s stage.index Segment.cause xs
      → (m : MatrixScores) × (matrix_scores s stage ≡ returns (some m))
        × (incoming : Option (List ℕ)) × IsIncoming s stage.index incoming
        × IsMatrixScores stage s.tail_quantile xs incoming m
  unfolding matrix_scores cause_counts incoming_counts
  matrix_of xs run reads =
      let (o, run₂, fits, from) = incoming_of in
      let (m, run₃, is) =
        derive_matrix_scores-IsMatrixScores stage s.tail_quantile xs o v.quantile
          (omega (arith, reads.sized), v.totals stage.index Segment.cause xs reads) fits in
      (m, rw (run, run₂, run₃), o, from, is)

  pub diagnosed :
      (config : DiagnoseConfig) (c : StageReport)
      → s.spans_freeze ≡ false
      → calibration_of s stage ≡ some c
      → (d : DiagnosisReport) × (diagnose s stage config ≡ returns (ok d))
        × IsDiagnosis s stage config c d
  unfolding diagnose
  diagnosed config c whole e =
      let (report, reported, found) = opt_then-some s.calibration_report _ c e in
      let usable = v.readable stage report c reported found in
      let (xs, run, reads) = segment_of Segment.online refl in
      let (ys, run₂, reads₂) = segment_of Segment.cause refl in
      let (m, run₃, incoming, from, is) = matrix_of ys run₂ reads₂ in
      let below : stage.index < length s.stages = ground (arith, own) in
      let (metadata, named) = get_elem?-lt-some s.stages stage.index below in
      (
        record {
          stage_name = metadata.name;
          config = config;
          matrix_derived = m;
          calibrated_online = online_of stage c xs;
        },
        diagnose-reported s stage config _ own (calibrated s stage c xs whole e run usable)
            ∙ (rw (run₃, named)),
        record {
          named = (metadata, named, refl);
          configured = refl;
          online = (
            xs,
            reads,
            refl,
            online_totals-AreDecoded xs reads.sized,
            online_scores-AreOnlineScores (online_totals xs),
          );
          matrix = (ys, reads₂, incoming, from, is);
        },
      )

-- On a diagnosable snapshot, `diagnose` returns for every stage identifier and configuration: the
-- error for a foreign stage where the identifier belongs to another recorder or is out of range; else
-- the error for a window that spans the freeze; else the error for a stage without calibration; else
-- a report with the name that the snapshot has for the stage, the given configuration, the scores of the
-- stage's online cells against the thresholds of its calibration, and the matrix-derived scores of the
-- counts of its cause and incoming matrices: their samples, the thresholds of their marginals, and the
-- quotients of the regions that these cut out.
pub diagnose-cases :
    (n : ℕ) (s : Snapshot) (stage : StageId) (config : DiagnoseConfig)
    → IsDiagnosable n s
    → ((is_own s stage ≡ false) × (diagnose s stage config ≡ returns (err (foreign_stage stage))))
      ⊎ ((is_own s stage ≡ true)
          × (((s.spans_freeze ≡ true)
                × (diagnose s stage config ≡ returns (err window_spans_freeze)))
              ⊎ ((s.spans_freeze ≡ false)
                  × (((calibration_of s stage ≡ none)
                        × (diagnose s stage config ≡ returns (err (not_calibrated stage))))
                      ⊎ ((c : StageReport) × (calibration_of s stage ≡ some c)
                          × (d : DiagnosisReport) × (diagnose s stage config ≡ returns (ok d))
                          × IsDiagnosis s stage config c d)))))
unfolding diagnose
diagnose-cases n s stage config v = elim (Bool-cases (is_own s stage)) [
  | inr foreign ↦ inl (foreign, rw (stage_index-foreign s stage foreign, diagnose))
  | inl own ↦ inr (
    own,
    (elim (Bool-cases s.spans_freeze) [
      | inl spans ↦ inl (spans, diagnose-reported s stage config _ own (spanning s stage spans))
      | inr whole ↦ inr (
        whole,
        (elim (Option-cases (calibration_of s stage)) [
          | inl missing ↦
              inl (
                missing,
                diagnose-reported s stage config _ own (uncalibrated s stage whole missing),
              )
          | inr (c, e) ↦
              let (d, run, is) = diagnosed n s stage v own config c whole e in
              inr (c, e, d, run, is)
        ]),
      )
    ]),
  )
]
