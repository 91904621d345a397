-- ===== src/Threads/Halfway.antt =====
-- The publication loop of `freeze_after_claim` in src/calibration.rs, one cell at a time.
use tracegrams.Freeze.Runs.{publish_step}
use tracegrams.Recorder.Bumps.{IsUsable}
use tracegrams.Threads.Sound.{IsHalfway, Cells}
use tracegrams.Calibration.{FrozenStageCalibration, StageReport}
use tracegrams.Freeze.{published_reports, publish}
use mathlib.Core.Path.{subst}
use tracegrams.Prelude.{
  ◌+◌, ◌<◌, ◌==◌, ◌∙◌, ◌∷◌, ◌≡◌, ==_iff, Bool-cases, List, [], ap, arith, get_elem?,
  get_elem?-eq-some, get_or, get_or-set_ne, get_or-set_self, inl, inr, length, length-set, map,
  none, range_from, refl, returns, set, some, suc, sym, zero, ℕ,
}

abbrev pub AreUsable : Cells → Type 0
AreUsable cells =
    (i : ℕ) (c : FrozenStageCalibration) → get_elem? cells i ≡ some (some c) → IsUsable c

-- The report that is next is that of the first stage left.
pub next_report :
    (n : ℕ) (cells : Cells) (report : StageReport) (reports : List StageReport)
    {all : List StageReport} (h : IsHalfway n cells all (report ∷ reports))
    → (h.first < n)
      × (report ≡ h.reports h.first)
      × (m : ℕ) × (suc h.first + m ≡ n)
      × (reports ≡ map h.reports (range_from (suc h.first) m))
next_report n cells report reports h = go h.count h.whole h.is_left
  where
    go :
        (count : ℕ)
        → h.first + count ≡ n
        → report ∷ reports ≡ map h.reports (range_from h.first count)
        → (h.first < n)
          × (report ≡ h.reports h.first)
          × (m : ℕ) × (suc h.first + m ≡ n)
          × (reports ≡ map h.reports (range_from (suc h.first) m))
    go zero whole e = absurd cc
    go (suc m) whole e = (omega arith, cc, m, omega arith, cc)

-- Its cell is empty, so `set` succeeds.
pub publish_next-set :
    (n : ℕ) (cells : Cells) (report : StageReport) (reports : List StageReport)
    {all : List StageReport} (h : IsHalfway n cells all (report ∷ reports))
    → length cells ≡ n
    → publish (report ∷ []) cells ≡ returns (set cells h.first (some (record { report = report })))
unfolding publish
publish_next-set n cells report reports h sized =
    let (below, e, m, whole, left) = next_report n cells report reports h in
    let at_first : report.stage.index ≡ h.first = rw e (h.at_index h.first) in
    let read = get_elem?-eq-some cells h.first none (omega arith) in
    publish_step report [] cells h.first at_first (read ∙ ap some (h.fresh h.first (omega arith)))

set_usable :
    (cells : Cells) (i : ℕ) (new : FrozenStageCalibration)
    → i < length cells
    → IsUsable new
    → AreUsable cells
    → AreUsable (set cells i (some new))
set_usable [] i new h u all j c k = absurd (omega arith)
set_usable (x ∷ xs) zero new h u all zero c k = let e : new ≡ c = cc in subst IsUsable e u
set_usable (x ∷ xs) zero new h u all (suc j) c k = all (suc j) c k
set_usable (x ∷ xs) (suc i) new h u all zero c k = all zero c k
set_usable (x ∷ xs) (suc i) new h u all (suc j) c k =
    set_usable xs i new (omega arith) u (λ a b e. all (suc a) b e) j c k

-- One publication: the cells stay as many and usable, and one more is published.
pub publish_next-IsHalfway :
    (n : ℕ) (report : StageReport) (all reports : List StageReport) (cells after : Cells)
    → length cells ≡ n
    → AreUsable cells
    → IsHalfway n cells all (report ∷ reports)
    → publish (report ∷ []) cells ≡ returns after
    → (length after ≡ n) × AreUsable after × IsHalfway n after all reports
publish_next-IsHalfway n report all reports cells after sized usable h run =
    let (below, same, m, whole, left) = next_report n cells report reports h in
    let new : FrozenStageCalibration = record { report = report } in
    let done = publish_next-set n cells report reports h sized in
    let e : set cells h.first (some new) ≡ after = cc in
    let within : h.first < length cells = omega arith in
    let good : IsUsable new =
      subst (λ x. IsUsable (record { report = x })) (sym same) (h.good h.first below) in
    subst (λ x. (length x ≡ n) × AreUsable x × IsHalfway n x all reports) e
      (
        length-set cells h.first (some new) ∙ sized,
        set_usable cells h.first new within good usable,
        record {
          reports = h.reports;
          first = suc h.first;
          count = m;
          whole = whole;
          is_all = h.is_all;
          is_left = left;
          at_index = h.at_index;
          good = h.good;
          published = λ j k. elim (Bool-cases (h.first == j)) [
            | inl here ↦
                let at_j : h.first ≡ j = (==_iff h.first j).0 here in
                rw (← at_j) (
                  get_or-set_self cells h.first (some new) none within
                  ∙ ap (λ x. some (record { report = x })) same)
            | inr other ↦
                get_or-set_ne cells h.first j (some new) none (ground arith)
                ∙ h.published j (ground arith)
          ];
          fresh = λ j k.
              get_or-set_ne cells h.first j (some new) none (λ e. omega arith)
              ∙ h.fresh j (omega arith);
        },
      )

-- Where every cell has its report, the published reports are all of them.
pub published_reports-range :
    (cells : Cells) (reports : ℕ → StageReport) (i : ℕ)
    → ((j : ℕ)
        → j < length cells
        → get_or cells j none ≡ some (record { report = reports (i + j) }))
    → published_reports cells ≡ map reports (range_from i (length cells))
unfolding published_reports
published_reports-range [] reports i h = refl
published_reports-range (cell ∷ cells) reports i h =
    let zeroth : i + 0 ≡ i = omega arith in
    let e : cell ≡ some (record { report = reports i }) = (rw zeroth at (h 0 (omega arith))) in
    let rest = published_reports-range cells reports (suc i) (λ j k.
      let shift : suc i + j ≡ i + suc j = omega arith in rw shift (h (suc j) (omega arith))) in
    rw (e, rest)
