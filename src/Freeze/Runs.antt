-- ===== src/Freeze/Runs.antt =====
-- The loops of the freeze in src/calibration.rs: maps that may panic, first matches, and publication.
use tracegrams.Prelude.{
  ◌+◌, ◌<◌, ◌==◌, ◌∙◌, ◌∷◌, ◌≡◌, ◌≤◌, ==_iff, Bool-cases, List, Option, Option-cases, Run, [], ap,
  arith, get_elem?, get_elem?-eq-some, get_or, get_or-set_ne, get_or-set_self, inl, inr, length,
  length-set, map, none, panic, range_from, refl, returns, set, some, suc, zero, ℕ,
}
use tracegrams.Calibration.{StageReport, FrozenStageCalibration}
use tracegrams.Freeze.{map_run, find_map, publish}

-- A run's value, or a default where it panics.
abbrev pub result_or {ℓ} : {A : Type ℓ} → Run A → A → A
result_or (returns a) d = a
result_or panic d = d

pub map_run-map {ℓ κ} :
    {A : Type ℓ} {B : Type κ} (f : A → Run B) (g : ℕ → A) (h : ℕ → B) (i m : ℕ)
    → ((j : ℕ) → i ≤ j → j < i + m → f (g j) ≡ returns (h j))
    → map_run f (map g (range_from i m)) ≡ returns (map h (range_from i m))
unfolding map_run
map_run-map f g h i zero runs = refl
map_run-map f g h i (suc m) runs = rw (
  runs i (omega arith) (omega arith),
  map_run-map f g h (suc i) m (λ j a b. runs j (omega arith) (omega arith)),
)

pub find_map-none {ℓ κ} :
    {A : Type ℓ} {B : Type κ} (f : A → Option B) (g : ℕ → A) (i m j : ℕ)
    → find_map f (map g (range_from i m)) ≡ none
    → i ≤ j
    → j < i + m
    → f (g j) ≡ none
unfolding find_map
find_map-none f g i zero j h a b = absurd (omega arith)
find_map-none f g i (suc m) j h a b = elim (Option-cases (f (g i))) [
  | inr (y, e) ↦ let w : some y ≡ none = (rw e at h) in absurd cc
  | inl e ↦ elim (Bool-cases (i == j)) [
    | inl same ↦ let k : i ≡ j = (==_iff i j).0 same in rw (← k) e
    | inr other ↦
        let tail : find_map f (map g (range_from (suc i) m)) ≡ none = (rw e at h) in
        find_map-none f g (suc i) m j tail (ground arith) (omega arith)
  ]
]

-- What publication leaves: the cells before `i` as they were, and the reports from `i` on.
pub record IsPublished (g : ℕ → StageReport) (i m : ℕ)
    (cells after : List (Option FrozenStageCalibration)) : Type 0 where
  pub sized : length after ≡ length cells
  pub kept : (j : ℕ) → j < i → get_or after j none ≡ get_or cells j none
  pub fresh : (j : ℕ) → i ≤ j → j < i + m → get_or after j none ≡ some (record { report = g j })

pub publish_step :
    (report : StageReport) (reports : List StageReport)
    (cells : List (Option FrozenStageCalibration)) (i : ℕ)
    → report.stage.index ≡ i
    → get_elem? cells i ≡ some none
    → publish (report ∷ reports) cells
      ≡ publish reports (set cells i (some (record { report = report })))
unfolding publish
publish_step report reports cells i e read =
    let here : get_elem? cells report.stage.index ≡ some none =
      ap (λ k. get_elem? cells k) e ∙ read in
    let step : publish (report ∷ reports) cells
        ≡ publish reports (set cells report.stage.index (some (record { report = report }))) =
      rw here in
    step ∙ ap (λ k. publish reports (set cells k (some (record { report = report })))) e

-- Reports of consecutive stages go to cells that nothing was published in.
pub publish-IsPublished :
    (g : ℕ → StageReport) (i m : ℕ) (cells : List (Option FrozenStageCalibration))
    → length cells ≡ i + m
    → ((j : ℕ) → (g j).stage.index ≡ j)
    → ((j : ℕ) → i ≤ j → get_or cells j none ≡ none)
    → (after : List (Option FrozenStageCalibration)) × (publish (map g (range_from i m)) cells
        ≡ returns after)
      × IsPublished g i m cells after
unfolding publish
publish-IsPublished g i zero cells h at_index empty = (
  cells,
  refl,
  record { sized = refl; kept = λ j a. refl; fresh = λ j a b. absurd (omega arith) },
)
publish-IsPublished g i (suc m) cells h at_index empty =
    let cell : Option FrozenStageCalibration = some (record { report = g i }) in
    let cells₁ = set cells i cell in
    let sized₁ = length-set cells i cell in
    let (after, run, p) =
      publish-IsPublished g (suc i) m cells₁ (omega arith) at_index
        (λ j a. get_or-set_ne cells i j cell none (λ e. omega arith) ∙ empty j (omega arith)) in
    let read = get_elem?-eq-some cells i none (omega arith) in
    (
      after,
      publish_step (g i) (map g (range_from (suc i) m)) cells i (at_index i)
            (read ∙ ap some (empty i (omega arith)))
          ∙ run,
      record {
        sized = p.sized ∙ sized₁;
        kept = λ j a. p.kept j (omega arith) ∙ get_or-set_ne cells i j cell none (λ e. omega arith);
        fresh = λ j a b. elim (Bool-cases (i == j)) [
          | inl same ↦
              let k : i ≡ j = (==_iff i j).0 same in
              rw (← k) (p.kept i (omega arith) ∙ get_or-set_self cells i cell none (omega arith))
          | inr other ↦ p.fresh j (ground arith) (omega arith)
        ];
      },
    )

-- A publication loop that succeeds has published its first report.
pub publish_first :
    (report : StageReport) (reports : List StageReport)
    (cells after : List (Option FrozenStageCalibration))
    → publish (report ∷ reports) cells ≡ returns after
    → (cells₁ : List (Option FrozenStageCalibration)) × (publish (report ∷ []) cells
        ≡ returns cells₁)
      × (publish reports cells₁ ≡ returns after)
unfolding publish
publish_first report reports cells after run =
    elim (Option-cases (get_elem? cells report.stage.index)) [
      | inl e ↦ let w : panic ≡ returns after = (rw e at run) in absurd cc
      | inr (none, e) ↦
          (set cells report.stage.index (some (record { report = report })), rw e, (rw e at run))
      | inr (some c, e) ↦ let w : panic ≡ returns after = (rw e at run) in absurd cc
    ]
