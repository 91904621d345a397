-- ===== src/Freeze.antt =====
-- The explicit calibration freeze of src/calibration.rs: scan, readiness, claim, re-scan, derivation,
-- publication. Other threads act between the first scan and the claim.
pub mod Runs
pub mod Scans
pub mod Derive
pub mod Publish
pub mod Races
use tracegrams.Prelude.{
  ◌==◌, ◌>>=◌, ◌>>◌, ◌^◌, ◌∷◌, Bool, List, Option, Result, Run, [], err, false, get_elem?,
  if◌then◌else◌, leb, ltb, none, not, ok, opt_then, panic, range, returns, set, some, sum, true,
  unwrap, ℕ,
}
use tracegrams.Bounds.{calibration_bounds}
use tracegrams.Bucket.{slice}
use tracegrams.Float.{F64, Float}
use tracegrams.Registry.{StageId}
use tracegrams.Estimate.{Terminal, estimate_quantile}
use tracegrams.Layout.{Population, Segment, segment_range}
use tracegrams.Calibration.{
  PopulationReport, StageReport, FreezeReport, FrozenStageCalibration, is_finite,
}
use tracegrams.Recorder.{Inner, collecting, freezing, frozen}

-- A `map` whose function may panic.
unfoldable pub map_run {ℓ κ} : {A : Type ℓ} {B : Type κ} → (A → Run B) → List A → Run (List B)
map_run f [] = returns []
map_run f (x ∷ xs) = f x >>= λ y. map_run f xs >>= λ ys. returns (y ∷ ys)

-- `find_map`
unfoldable pub find_map {ℓ κ} : {A : Type ℓ} {B : Type κ} → (A → Option B) → List A → Option B
find_map f [] = none
find_map f (x ∷ xs) = elim (f x) [ none ↦ find_map f xs | some y ↦ some y ]

-- `stage_ids` of src/init.rs; `u8::try_from(index)` is unwrapped.
unfoldable pub stage_id : ℕ → ℕ → Run StageId
stage_id cookie index =
    if ltb index (2 ^ 8) then returns (record { cookie = cookie; index = index }) else panic

unfoldable pub stage_ids : Inner → Run (List StageId)
unfolding map_run stage_id
stage_ids r = map_run (stage_id r.cookie) (range r.layout.stage_count)

pub data FreezeError : Type 0 where
  not_ready : StageId → Population → ℕ → ℕ → FreezeError
  already_freezing already_frozen : FreezeError
  calibration_range_insufficient : StageId → Population → Terminal → FreezeReport → FreezeError

pub record PopulationScan : Type 0 where
  pub population : Population
  pub counts : List ℕ
  pub samples : ℕ

pub record StageScan : Type 0 where
  pub stage : StageId
  pub local : PopulationScan
  pub cumulative_after : PopulationScan
  pub previous_cumulative : PopulationScan

-- The sum of 250 `u64`s fits the `u128` it is taken in.
unfoldable pub scan_population : Inner → StageId → Population → Run PopulationScan
unfolding sum slice
scan_population r stage population = do
  counted ← unwrap (segment_range r.layout stage.index (Segment.calibration population))
  counts ← slice r.counters counted.0 counted.1
  returns (record { population = population; counts = counts; samples = sum counts })

unfoldable pub scan_stage : Inner → StageId → Run StageScan
unfolding scan_population
scan_stage r stage = do
  at_local ← scan_population r stage Population.local
  after ← scan_population r stage Population.cumulative_after
  before ← scan_population r stage Population.previous_cumulative
  returns (record {
    stage = stage;
    local = at_local;
    cumulative_after = after;
    previous_cumulative = before;
  })

unfoldable pub scan_calibration : Inner → Run (List StageScan)
unfolding stage_ids scan_stage
scan_calibration r = stage_ids r >>= λ stages. map_run (scan_stage r) stages

-- The closure `ready`: only the previous-cumulative population may be absent.
unfoldable pub is_ready : ℕ → PopulationScan → Bool → Bool
is_ready minimum p may_be_absent = if p.samples == 0 then may_be_absent else leb minimum p.samples

unfoldable pub unready_population : ℕ → StageScan → Option PopulationScan
unfolding is_ready
unready_population minimum scan =
    if not (is_ready minimum scan.local false)
    then some scan.local
    else if not (is_ready minimum scan.cumulative_after false)
    then some scan.cumulative_after
    else if not (is_ready minimum scan.previous_cumulative true)
    then some scan.previous_cumulative
    else none

unfoldable pub first_unready : List StageScan → ℕ → Option FreezeError
unfolding unready_population find_map
first_unready scans minimum =
    find_map
      (λ scan.
        opt_then (unready_population minimum scan)
          λ p. some (not_ready scan.stage p.population p.samples minimum))
      scans

unfoldable pub terminal_of : StageId → PopulationReport → Option (StageId × Population × Terminal)
terminal_of stage p =
    opt_then p.estimate
      λ e. if not (is_finite e.terminal) then some (stage, p.population, e.terminal) else none

unfoldable pub first_terminal : List StageReport → Option (StageId × Population × Terminal)
unfolding find_map terminal_of
first_terminal reports =
    find_map
      (λ report.
        find_map (terminal_of report.stage)
          (report.local ∷ report.cumulative_after ∷ report.previous_cumulative ∷ []))
      reports

-- The publication loop: the index panics out of range, and `set` fails on a published cell.
unfoldable pub publish :
    List StageReport
    → List (Option FrozenStageCalibration)
    → Run (List (Option FrozenStageCalibration))
publish [] cells = returns cells
publish (report ∷ reports) cells = unwrap (get_elem? cells report.stage.index) >>= λ cell.
    elim cell [
      | some _ ↦ panic
      | none ↦ publish reports (set cells report.stage.index (some (record { report = report })))
    ]

-- `restore_collecting`
abbrev pub restore_collecting : Inner → Inner
restore_collecting r = record r { calibration_state = collecting }

-- The error for the observed state, at the first load and at the failed exchange.
unfoldable pub state_error : ℕ → Run FreezeError
state_error state =
    if state == freezing
    then returns already_freezing
    else if state == frozen
    then returns already_frozen
    else panic

-- The compare-and-exchange of the claim.
unfoldable pub claim : Inner → Run (Result Inner FreezeError)
unfolding state_error
claim r =
    if r.calibration_state == collecting
    then returns (ok (record r { calibration_state = freezing }))
    else state_error r.calibration_state >>= (λ e. returns (err e))

-- `is_frozen` and `filter_map`
unfoldable pub published_reports : List (Option FrozenStageCalibration) → List StageReport
published_reports [] = []
published_reports (none ∷ cells) = published_reports cells
published_reports (some c ∷ cells) = c.report ∷ published_reports cells

unfoldable pub frozen_calibration_report : Inner → Option FreezeReport
unfolding published_reports
frozen_calibration_report r =
    if r.calibration_state == frozen
    then some (record { stages = published_reports r.frozen_calibration })
    else none

module _ ⦃float : Float⦄ where
  unfoldable pub derive_population_report : F64 → PopulationScan → Run PopulationReport
  unfolding estimate_quantile
  derive_population_report quantile scan =
      estimate_quantile scan.counts calibration_bounds quantile >>= λ estimate.
      returns (record { population = scan.population; samples = scan.samples; estimate = estimate })

  unfoldable pub derive_stage_report : F64 → StageScan → Run StageReport
  unfolding derive_population_report
  derive_stage_report quantile scan = do
    at_local ← derive_population_report quantile scan.local
    after ← derive_population_report quantile scan.cumulative_after
    before ← derive_population_report quantile scan.previous_cumulative
    returns (record {
      stage = scan.stage;
      local = at_local;
      cumulative_after = after;
      previous_cumulative = before;
    })

  -- Publication and the final store.
  unfoldable pub publish_all :
      Inner → List StageReport → Run (Result FreezeReport FreezeError × Inner)
  unfolding publish
  publish_all r reports = publish reports r.frozen_calibration >>= λ cells. returns (
    ok (record { stages = reports }),
    record r { frozen_calibration = cells; calibration_state = frozen },
  )

  -- The two early returns of `freeze_after_claim`, each of which restores the collecting state.
  unfoldable pub settle_finite :
      Inner
      → Option (StageId × Population × Terminal)
      → List StageReport
      → Run (Result FreezeReport FreezeError × Inner)
  unfolding publish_all
  settle_finite r (some t) reports = returns (
    err (calibration_range_insufficient t.0 t.1 t.2 (record { stages = reports })),
    restore_collecting r,
  )
  settle_finite r none reports = publish_all r reports

  unfoldable pub settle_ready :
      Inner → Option FreezeError → List StageScan → Run (Result FreezeReport FreezeError × Inner)
  unfolding derive_stage_report first_terminal settle_finite
  settle_ready r (some e) scans = returns (err e, restore_collecting r)
  settle_ready r none scans = map_run (derive_stage_report r.tail_quantile) scans >>= λ reports.
      settle_finite r (first_terminal reports) reports

  unfoldable pub freeze_after_claim : Inner → ℕ → Run (Result FreezeReport FreezeError × Inner)
  unfolding scan_calibration first_unready settle_ready
  freeze_after_claim r minimum =
      scan_calibration r >>= λ scans. settle_ready r (first_unready scans minimum) scans

  -- `others` is what other threads make of the recorder between the first scan and the claim.
  unfoldable pub claim_after_scan :
      (Inner → Inner)
      → Inner
      → ℕ
      → Option FreezeError
      → Run (Result FreezeReport FreezeError × Inner)
  unfolding claim freeze_after_claim
  claim_after_scan others r minimum (some e) = returns (err e, r)
  claim_after_scan others r minimum none = claim (others r) >>= λ result. elim result [
    | err e ↦ returns (err e, others r)
    | ok claimed ↦ freeze_after_claim claimed minimum
  ]

  unfoldable pub try_freeze_calibration :
      (Inner → Inner) → Inner → ℕ → Run (Result FreezeReport FreezeError × Inner)
  unfolding scan_calibration first_unready state_error claim_after_scan
  try_freeze_calibration others r minimum =
      if not (r.calibration_state == collecting)
      then (state_error r.calibration_state >>= (λ e. returns (err e, r)))
      else (scan_calibration r
          >>= (λ scans. claim_after_scan others r minimum (first_unready scans minimum)))
