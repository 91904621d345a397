-- ===== src/Diagnose/Frozen.antt =====
-- Freezing, taking a snapshot and diagnosing, of src/calibration.rs, src/snapshot.rs and
-- src/diagnose.rs together.
use tracegrams.Layout.Facts.{at, size, index_of}
use tracegrams.Diagnose.{diagnose, DiagnosisReport, DiagnoseConfig}
use tracegrams.Snapshot.Reads.{Reads}
use tracegrams.Diagnose.Cases.{diagnosed, IsDiagnosis, is_own, IsDiagnosable}
use tracegrams.Diagnose.Online.{calibration_of}
use tracegrams.Rank.Exact.{IsTailQuantile}
use tracegrams.Snapshot.Taken.{snapshot_relaxed-IsCopy, IsCopy}
use tracegrams.Layout.{Segment}
use tracegrams.Recorder.{Inner}
use tracegrams.Snapshot.{StageMetadata, snapshot_relaxed, Snapshot}
use tracegrams.Recorder.Bumps.{IsReady, IsUsable}
use tracegrams.Threads.Halfway.{AreUsable}
use tracegrams.Registry.{same_stage, StageId}
use tracegrams.Threads.Sound.{Cells}
use mathlib.Core.Path.{subst}
use tracegrams.Calibration.{FrozenStageCalibration, StageReport, find_report, stage_report}
use tracegrams.Freeze.{published_reports, frozen_calibration_report}
use tracegrams.Prelude.{
  ◌<◌, ◌==◌, ◌^◌, ◌∙◌, ◌∷◌, ◌≡◌, ◌≤◌, Bool-cases, List, Option, [], ap, arith, get_elem?, get_or,
  inl, inr, length, none, ok, opt_then, refl, returns, some, suc, sum, sym, true, zero, ℕ,
}

-- A report that is found among the published ones is that of a usable cell.
find_report-IsUsable :
    (cells : Cells) (stage : StageId) (c : StageReport)
    → AreUsable cells
    → find_report stage (published_reports cells) ≡ some c
    → IsUsable (record { report = c })
unfolding find_report published_reports
find_report-IsUsable [] stage c usable h = absurd cc
find_report-IsUsable (none ∷ cells) stage c usable h =
    find_report-IsUsable cells stage c (λ i d e. usable (suc i) d e) h
find_report-IsUsable (some d ∷ cells) stage c usable h =
    elim (Bool-cases (same_stage d.report.stage stage)) [
      | inl same ↦
          let e : some d.report ≡ some c = (rw same at h) in
          let e₁ : d.report ≡ c = cc in
          subst (λ x. IsUsable (record { report = x })) e₁ (usable 0 d refl)
      | inr other ↦ find_report-IsUsable cells stage c (λ i d e. usable (suc i) d e) (rw other at h)
    ]

-- A found report has the identifier that was asked for, and stands in a cell.
find_report-cell :
    (cells : Cells) (stage : StageId) (c : StageReport)
    → find_report stage (published_reports cells) ≡ some c
    → (same_stage c.stage stage ≡ true)
      × (i : ℕ) × (get_elem? cells i ≡ some (some (record { report = c })))
unfolding find_report published_reports
find_report-cell [] stage c h = absurd cc
find_report-cell (none ∷ cells) stage c h =
    let (same, i, at_i) = find_report-cell cells stage c h in (same, suc i, at_i)
find_report-cell (some x ∷ cells) stage c h = elim (Bool-cases (same_stage x.report.stage stage)) [
  | inl found ↦
      let e : some x.report ≡ some c = (rw found at h) in
      let e₁ : x.report ≡ c = cc in
      (
        ap (λ y. same_stage y.stage stage) (sym e₁) ∙ found,
        0,
        ap (λ y. some (some (record { report = y }))) e₁,
      )
  | inr other ↦
      let (same, i, at_i) = find_report-cell cells stage c (rw other at h) in (same, suc i, at_i)
]

-- A stage whose report is published is found.
find_report-published :
    (cells : Cells) (stage : StageId) (i : ℕ) (d : FrozenStageCalibration)
    → get_elem? cells i ≡ some (some d)
    → same_stage d.report.stage stage ≡ true
    → (c : StageReport) × (find_report stage (published_reports cells) ≡ some c)
unfolding find_report published_reports
find_report-published [] stage i d h same = absurd cc
find_report-published (none ∷ cells) stage zero d h same = absurd cc
find_report-published (none ∷ cells) stage (suc i) d h same =
    find_report-published cells stage i d h same
find_report-published (some x ∷ cells) stage zero d h same =
    let e : x ≡ d = cc in
    let here : same_stage x.report.stage stage ≡ true = (rw (← e) at same) in (x.report, rw here)
find_report-published (some x ∷ cells) stage (suc i) d h same =
    elim (Bool-cases (same_stage x.report.stage stage)) [
      | inl found ↦ (x.report, rw found)
      | inr other ↦
          let (c, found) = find_report-published cells stage i d h same in (c, rw other found)
    ]

-- Each segment of a snapshot totals less than 2 ^ 64 samples.
abbrev pub AreCounted : Snapshot → Type 0
AreCounted s =
    (stage : ℕ) (segment : Segment) (xs : List ℕ) → Reads s stage segment xs → sum xs < 2 ^ 64

-- So it is where each segment of the recorder does.
abbrev pub AreCountedIn : Inner → Type 0
AreCountedIn r =
    (stage : ℕ) (segment : Segment) (xs : List ℕ)
    → length xs ≡ size segment
    → ((k : ℕ)
        → k < size segment
        → get_or xs k 0 ≡ get_or r.counters (index_of r.layout (at segment stage k)) 0)
    → sum xs < 2 ^ 64

copy-AreCounted : (n : ℕ) (r : Inner) (s : Snapshot) → IsCopy n r s → AreCountedIn r → AreCounted s
copy-AreCounted n r s copy h stage segment xs reads = h stage segment xs reads.sized (λ k within.
    reads.read k within
    ∙ ap (λ c. get_or c (index_of s.layout (at segment stage k)) 0) copy.counters
    ∙ ap (λ l. get_or r.counters (index_of l (at segment stage k)) 0) copy.layout)

pub IsCopy-IsDiagnosable :
    (n : ℕ) (r : Inner) (s : Snapshot)
    → IsReady n r
    → IsTailQuantile r.tail_quantile
    → IsCopy n r s
    → AreCounted s
    → IsDiagnosable n s
unfolding frozen_calibration_report stage_report
IsCopy-IsDiagnosable n r s v q copy counted = record {
  snapshot = copy.snapshot;
  quantile = rw copy.quantile q;
  totals = counted;
  readable = λ stage report c reported found. elim (Bool-cases (r.calibration_state == 2)) [
    | inr thawed ↦
        let w : none ≡ some report = (rw thawed at (sym copy.report ∙ reported)) in absurd cc
    | inl frozen_now ↦
        let w : some (record { stages = published_reports r.frozen_calibration }) ≡ some report =
          (rw frozen_now at (sym copy.report ∙ reported)) in
        let e : record { stages = published_reports r.frozen_calibration } ≡ report = cc in
        find_report-IsUsable r.frozen_calibration stage c v.usable (rw (← e) at found)
  ];
}

-- Every stage has published thresholds, under its own identifier.
abbrev pub AreOwn : ℕ → Inner → Type 0
AreOwn n r =
    (i : ℕ)
    → i < n
    → (d : FrozenStageCalibration) × (get_elem? r.frozen_calibration i ≡ some (some d))
      × (d.report.stage ≡ record { cookie = r.cookie; index = i })

found-lt : {A : Type 0} (xs : List A) (i : ℕ) (a : A) → get_elem? xs i ≡ some a → i < length xs
found-lt [] i a h = absurd cc
found-lt (x ∷ xs) zero a h = omega arith
found-lt (x ∷ xs) (suc i) a h = omega (arith, found-lt xs i a h)

-- A report that carries the identifier of a stage is the one in the stage's own cell.
own_cell :
    (n : ℕ) (r : Inner) (stage : StageId) (c : StageReport)
    → length r.frozen_calibration ≡ n
    → AreOwn n r
    → find_report stage (published_reports r.frozen_calibration) ≡ some c
    → get_elem? r.frozen_calibration stage.index ≡ some (some (record { report = c }))
own_cell n r stage c sized published found =
    let (same, i, at_i) = find_report-cell r.frozen_calibration stage c found in
    let below : i < n = rw (← sized) (found-lt r.frozen_calibration i _ at_i) in
    let (d, cell, named) = published i below in
    let e : d.report ≡ c = ap report_in (sym cell ∙ at_i) in
    let index : i ≡ c.stage.index = ap (λ x. x.index) (sym named) ∙ ap (λ x. x.stage.index) e in
    let same_index : c.stage.index ≡ stage.index = ground (arith, same) in
    subst (λ k. get_elem? r.frozen_calibration k ≡ some (some (record { report = c })))
      (index ∙ same_index) at_i
  where
    report_in : Option (Option FrozenStageCalibration) → StageReport
    report_in none = c
    report_in (some none) = c
    report_in (some (some x)) = x.report

calibration_of-frozen :
    (n : ℕ) (r : Inner) (s : Snapshot) (stage : StageId)
    → length r.frozen_calibration ≡ n
    → IsCopy n r s
    → r.calibration_state ≡ 2
    → AreOwn n r
    → is_own s stage ≡ true
    → (c : StageReport) × (calibration_of s stage ≡ some c)
      × (get_elem? r.frozen_calibration stage.index ≡ some (some (record { report = c })))
unfolding frozen_calibration_report stage_report
calibration_of-frozen n r s stage sized copy frozen_now published own =
    let below : stage.index < n = ground (arith, own, copy.snapshot.staged) in
    let cookies : stage.cookie ≡ r.cookie = ground (arith, own, copy.cookie) in
    let (d, cell, named) = published stage.index below in
    let same : same_stage d.report.stage stage ≡ true = rw named (ground (arith, cookies)) in
    let (c, found) = find_report-published r.frozen_calibration stage stage.index d cell same in
    let two : (r.calibration_state == 2) ≡ true = ground (arith, frozen_now) in
    let reported : s.calibration_report
        ≡ some (record { stages = published_reports r.frozen_calibration }) =
      copy.report ∙ (rw two) in
    (
      c,
      ap (λ o. opt_then o λ report. find_report stage report.stages) reported ∙ found,
      own_cell n r stage c sized published found,
    )

same_name :
    (o : Option StageMetadata) (a b : StageMetadata) → o ≡ some a → o ≡ some b → a.name ≡ b.name
same_name o a b e f =
    let g : some a ≡ some b = sym e ∙ f in let h : a ≡ b = cc in ap (λ x. x.name) h

-- A ready recorder of at most 256 named stages with an accepted quantile, that is frozen with thresholds
-- published for every stage under its own identifier and whose segments total less than 2 ^ 64 samples
-- each, has a snapshot, by which every stage of the recorder is diagnosed: with its registered name,
-- the given configuration, the scores of its online cells against the thresholds in its own
-- publication cell, and the matrix-derived scores of its cause and incoming matrices.
pub snapshot_relaxed-diagnoses :
    (n : ℕ) (r : Inner) (stage : StageId) (config : DiagnoseConfig)
    → IsReady n r
    → n ≤ 256
    → length r.stage_names ≡ n
    → IsTailQuantile r.tail_quantile
    → r.calibration_state ≡ 2
    → AreOwn n r
    → AreCountedIn r
    → stage.cookie ≡ r.cookie
    → stage.index < n
    → (s : Snapshot) × (snapshot_relaxed r ≡ returns s)
      × IsCopy n r s
      × (c : StageReport) × (get_elem? r.frozen_calibration stage.index
          ≡ some (some (record { report = c })))
      × (d : DiagnosisReport) × (diagnose s stage config ≡ returns (ok d))
      × (get_elem? r.stage_names stage.index ≡ some d.stage_name)
      × IsDiagnosis s stage config c d
snapshot_relaxed-diagnoses n r stage config v small named q frozen_now published counts mine below =
    let (s, run, copy) = snapshot_relaxed-IsCopy n r v small named in
    let counted = copy-AreCounted n r s copy counts in
    let own : is_own s stage ≡ true = ground (arith, copy.cookie, copy.snapshot.staged) in
    let (c, e, cell) = calibration_of-frozen n r s stage v.cells copy frozen_now published own in
    let able = IsCopy-IsDiagnosable n r s v q copy counted in
    let (d, done, is) = diagnosed n s stage able own config c copy.whole e in
    let (name, registered, staged) = copy.staged stage.index below in
    let (m, at_stage, titled) = is.named in
    let titles = same_name (get_elem? s.stages stage.index) _ m staged at_stage ∙ sym titled in
    (s, run, copy, c, cell, d, done, registered ∙ ap some titles, is)
