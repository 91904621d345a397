-- ===== src/Threads.antt =====
-- Threads that share one recorder: the marks of src/context.rs and the freezes of src/calibration.rs,
-- one access to shared memory at a time. A load, a `fetch_add`, a compare-and-exchange, a store or
-- the `set` of a publication cell is one step; what a thread computes between two accesses belongs
-- to the step before it. A scan is one step that reads any counts, since the counters that it
-- loads one by one move meanwhile. Memory orderings are sequentially consistent here.
pub mod Sound
pub mod Halfway
pub mod Moves
pub mod Safety
pub mod Looking
pub mod Access
pub mod Progress
pub mod Bounded
pub mod Frozen
pub mod Counts
pub mod Tallies
pub mod Fresh
pub mod Alone
use tracegrams.Marks.Blocks.{before_of}
use tracegrams.Updates.{online_cell}
use tracegrams.Estimate.{Terminal}
use tracegrams.Registry.{StageId}
use tracegrams.Freeze.Derive.{stage_scan, IsReadable}
use tracegrams.Calibration.{FrozenStageCalibration, FreezeReport, StageReport}
use tracegrams.Freeze.{
  publish, restore_collecting, calibration_range_insufficient, first_terminal, claim, first_unready,
  state_error, derive_stage_report, map_run, FreezeError, StageScan,
}
use tracegrams.Layout.{Segment, Diagnostic, Population}
use tracegrams.Recorder.{frozen, freezing, collecting, increment, Inner}
use tracegrams.Context.{Outcome}
use tracegrams.Layout.Facts.{at, index_of, anomaly, Place}
use tracegrams.Float.{Float}
use tracegrams.Marks.Places.{
  outcome_places, bucket_places, overflow_places, online_places, collecting_places, saturated,
}
use tracegrams.Prelude.{
  ◌++◌, ◌>>=◌, ◌>>◌, ◌∷◌, ◌≡◌, ◌≢◌, Bool, List, Option, Result, Run, [], err, get_elem?,
  if◌then◌else◌, map, none, not, ok, range, returns, some, unwrap, ℕ,
}

-- The arguments of `record_valid_mark`. Whether the mark has a predecessor, and its cumulative
-- latency, stand for `previous`.
pub record Valid : Type 0 where
  pub started : Bool
  pub stage : ℕ
  pub later : Bool
  pub before_ns : ℕ
  pub local_ns : ℕ
  pub overflowed : Bool
  pub outcome : Option Outcome

abbrev pub cumulative_of : Valid → ℕ
cumulative_of v = saturated v.before_ns v.local_ns

-- Where a thread stands, with what it has yet to do there.
pub data Thread : Type 0 where
  -- `record_valid_mark`: the increments before the load of the calibration state, the lookup of the
  -- published thresholds, and the increments after it
  counting : List Place → Valid → Thread
  looking : Valid → Thread
  ending : List Place → Thread
  -- `try_freeze_calibration`, with its minimum of samples
  observing scanning claiming : ℕ → Thread
  -- `freeze_after_claim`: the second scan, the two early returns, the publication of the last
  -- reports among all, and the final store
  rescanning : ℕ → Thread
  restoring : FreezeError → Thread
  publishing : List StageReport → List StageReport → Thread
  stopped : Result FreezeReport FreezeError → Thread

-- What a valid mark counts before it loads the calibration state.
abbrev pub early_places : Valid → List Place
early_places v =
    overflow_places v.before_ns v.local_ns v.overflowed
    ++ bucket_places v.stage v.later v.before_ns v.local_ns (cumulative_of v)

abbrev pub marking : Valid → Thread
marking v = counting (early_places v) v

-- What it counts once the load found the recorder collecting, or being frozen.
abbrev pub sampled_places : Valid → List Place
sampled_places v =
    collecting_places v.stage v.later v.before_ns v.local_ns (cumulative_of v)
    ++ outcome_places v.stage v.outcome

abbrev pub skipped_places : Valid → List Place
skipped_places v =
    anomaly Diagnostic.calibration_samples_skipped_while_freezing ∷ outcome_places v.stage v.outcome

-- And once the lookup found these publication cells.
abbrev pub classified_places : Inner → Valid → List Place
classified_places r v =
    online_places r v.started v.stage v.later v.before_ns v.local_ns (cumulative_of v)
    ++ outcome_places v.stage v.outcome

abbrev pub scans_of : ℕ → ℕ → (ℕ → Population → List ℕ) → List StageScan
scans_of n cookie counts = map (stage_scan cookie counts) (range n)

-- What the lookup of the published thresholds finds that a mark has to count: nothing where the context
-- started before the freeze or the stage has no thresholds, else the cell or the skip of
-- `record_frozen_online`. It panics where the code indexes out of range or unwraps a missing value.
unfoldable pub looked_up : Inner → Valid → Run (List Place)
unfolding online_cell
looked_up r v = if not v.started then returns [] else (do
  published ← unwrap (get_elem? r.frozen_calibration v.stage)
  elim published [
    | none ↦ returns []
    | some c ↦
        online_cell c (before_of v.later v.stage v.before_ns) v.before_ns v.local_ns
          (cumulative_of v)
        >>= λ counter. returns (elim counter [
          | none ↦ anomaly Diagnostic.online_samples_skipped_missing_previous_threshold ∷ []
          | some k ↦ at Segment.online v.stage k ∷ []
        ])
  ])

module _ ⦃float : Float⦄ where
  abbrev pub reports_of : Inner → ℕ → (ℕ → Population → List ℕ) → Run (List StageReport)
  reports_of r n counts = map_run (derive_stage_report r.tail_quantile) (scans_of n r.cookie counts)

  -- One access of one thread of a recorder of `n` stages.
  pub data Move (n : ℕ) (r : Inner) : Thread → Inner → Thread → Type 0 where
    count :
        {p : Place} {ps : List Place} {v : Valid} {r' : Inner}
        → increment r (index_of r.layout p) ≡ returns r'
        → Move n r (counting (p ∷ ps) v) r' (counting ps v)
    load_collecting :
        {v : Valid}
        → r.calibration_state ≡ collecting
        → Move n r (counting [] v) r (ending (sampled_places v))
    load_freezing :
        {v : Valid}
        → r.calibration_state ≡ freezing
        → Move n r (counting [] v) r (ending (skipped_places v))
    load_frozen :
        {v : Valid} → r.calibration_state ≡ frozen → Move n r (counting [] v) r (looking v)
    look :
        {v : Valid}
        → looked_up r v
          ≡ returns
              (online_places r v.started v.stage v.later v.before_ns v.local_ns (cumulative_of v))
        → Move n r (looking v) r (ending (classified_places r v))
    count_last :
        {p : Place} {ps : List Place} {r' : Inner}
        → increment r (index_of r.layout p) ≡ returns r'
        → Move n r (ending (p ∷ ps)) r' (ending ps)
    observe_open :
        {minimum : ℕ}
        → r.calibration_state ≡ collecting
        → Move n r (observing minimum) r (scanning minimum)
    observe_taken :
        {minimum : ℕ} {e : FreezeError}
        → r.calibration_state ≢ collecting
        → state_error r.calibration_state ≡ returns e
        → Move n r (observing minimum) r (stopped (err e))
    scan_unready :
        {minimum : ℕ} {e : FreezeError} (counts : ℕ → Population → List ℕ)
        → IsReadable n counts
        → first_unready (scans_of n r.cookie counts) minimum ≡ some e
        → Move n r (scanning minimum) r (stopped (err e))
    scan_ready :
        {minimum : ℕ} (counts : ℕ → Population → List ℕ)
        → IsReadable n counts
        → first_unready (scans_of n r.cookie counts) minimum ≡ none
        → Move n r (scanning minimum) r (claiming minimum)
    exchange_won :
        {minimum : ℕ} {r' : Inner}
        → claim r ≡ returns (ok r')
        → Move n r (claiming minimum) r' (rescanning minimum)
    exchange_lost :
        {minimum : ℕ} {e : FreezeError}
        → claim r ≡ returns (err e)
        → Move n r (claiming minimum) r (stopped (err e))
    rescan_unready :
        {minimum : ℕ} {e : FreezeError} (counts : ℕ → Population → List ℕ)
        → IsReadable n counts
        → first_unready (scans_of n r.cookie counts) minimum ≡ some e
        → Move n r (rescanning minimum) r (restoring e)
    rescan_terminal :
        {minimum : ℕ} {reports : List StageReport} (counts : ℕ → Population → List ℕ)
        (t : StageId × Population × Terminal)
        → IsReadable n counts
        → first_unready (scans_of n r.cookie counts) minimum ≡ none
        → reports_of r n counts ≡ returns reports
        → first_terminal reports ≡ some t
        → Move n r
            (rescanning minimum)
            r
            (restoring (calibration_range_insufficient t.0 t.1 t.2 (record { stages = reports })))
    rescan_finite :
        {minimum : ℕ} {reports : List StageReport} (counts : ℕ → Population → List ℕ)
        → IsReadable n counts
        → first_unready (scans_of n r.cookie counts) minimum ≡ none
        → reports_of r n counts ≡ returns reports
        → first_terminal reports ≡ none
        → Move n r (rescanning minimum) r (publishing reports reports)
    restore : {e : FreezeError} → Move n r (restoring e) (restore_collecting r) (stopped (err e))
    publish_next :
        {all reports : List StageReport} {report : StageReport}
        {cells : List (Option FrozenStageCalibration)}
        → publish (report ∷ []) r.frozen_calibration ≡ returns cells
        → Move n r
            (publishing all (report ∷ reports))
            (record r { frozen_calibration = cells })
            (publishing all reports)
    store_frozen :
        {all : List StageReport}
        → Move n r
            (publishing all [])
            (record r { calibration_state = frozen })
            (stopped (ok (record { stages = all })))

  -- Any thread moves, and the others stay where they are.
  pub data Step (n : ℕ) (r : Inner) (threads : List Thread) (r' : Inner) (threads' : List Thread)
      : Type 0 where
    step :
        {t t' : Thread} (before after : List Thread)
        → threads ≡ before ++ (t ∷ after)
        → threads' ≡ before ++ (t' ∷ after)
        → Move n r t r' t'
        → Step n r threads r' threads'

  pub data Reach (n : ℕ) (r : Inner) (threads : List Thread) : Inner → List Thread → Type 0 where
    here : Reach n r threads r threads
    next :
        {r₁ r₂ : Inner} {threads₁ threads₂ : List Thread}
        → Reach n r threads r₁ threads₁
        → Step n r₁ threads₁ r₂ threads₂
        → Reach n r threads r₂ threads₂
