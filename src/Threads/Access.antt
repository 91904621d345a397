-- ===== src/Threads/Access.antt =====
-- The next access of a thread of src/context.rs or src/calibration.rs as a run, which panics where the
-- code does.
use tracegrams.Freeze.{
  publish, restore_collecting, claim, first_unready, state_error, calibration_range_insufficient,
  first_terminal, FreezeError,
}
use tracegrams.Threads.{
  reports_of, rescanning, claiming, scans_of, stopped, scanning, observing, outcome_places,
  index_of, looking, skipped_places, sampled_places, ending, counting, publishing, restoring,
  Thread, StageReport, Population, looked_up,
}
use tracegrams.Float.{Float}
use tracegrams.Prelude.{
  ◌++◌, ◌==◌, ◌>>=◌, ◌∷◌, List, Option, Run, [], err, if◌then◌else◌, none, ok, panic, returns, some,
  ℕ,
}
use tracegrams.Recorder.{increment, frozen, freezing, collecting, Inner}

module _ ⦃float : Float⦄ where
  -- What `freeze_after_claim` makes of its second scan.
  unfoldable pub settled : Option FreezeError → Run (List StageReport) → Run Thread
  settled (some e) run = returns (restoring e)
  settled none run = run >>= λ reports. returns (elim (first_terminal reports) [
    | none ↦ publishing reports reports
    | some t ↦ restoring (calibration_range_insufficient t.0 t.1 t.2 (record { stages = reports }))
  ])

  -- `counts` is what a scan reads. A thread that is over stays where it is.
  unfoldable pub access : ℕ → (ℕ → Population → List ℕ) → Inner → Thread → Run (Inner × Thread)
  unfolding looked_up settled
  access n counts r (counting [] v) =
      if r.calibration_state == collecting
      then returns (r, ending (sampled_places v))
      else if r.calibration_state == freezing
      then returns (r, ending (skipped_places v))
      else if r.calibration_state == frozen
      then returns (r, looking v)
      else panic
  access n counts r (counting (p ∷ ps) v) =
      increment r (index_of r.layout p) >>= λ r'. returns (r', counting ps v)
  access n counts r (looking v) =
      looked_up r v >>= λ ps. returns (r, ending (ps ++ outcome_places v.stage v.outcome))
  access n counts r (ending []) = returns (r, ending [])
  access n counts r (ending (p ∷ ps)) =
      increment r (index_of r.layout p) >>= λ r'. returns (r', ending ps)
  access n counts r (observing minimum) =
      if r.calibration_state == collecting
      then returns (r, scanning minimum)
      else (state_error r.calibration_state >>= λ e. returns (r, stopped (err e)))
  access n counts r (scanning minimum) = returns (
    r,
    elim (first_unready (scans_of n r.cookie counts) minimum) [
      | none ↦ claiming minimum
      | some e ↦ stopped (err e)
    ],
  )
  access n counts r (claiming minimum) = claim r >>= λ result.
      returns (elim result [ ok r' ↦ (r', rescanning minimum) | err e ↦ (r, stopped (err e)) ])
  access n counts r (rescanning minimum) =
      settled (first_unready (scans_of n r.cookie counts) minimum) (reports_of r n counts) >>= λ t.
      returns (r, t)
  access n counts r (restoring e) = returns (restore_collecting r, stopped (err e))
  access n counts r (publishing all []) =
      returns (record r { calibration_state = frozen }, stopped (ok (record { stages = all })))
  access n counts r (publishing all (report ∷ reports)) =
      publish (report ∷ []) r.frozen_calibration >>= λ cells.
      returns (record r { frozen_calibration = cells }, publishing all reports)
  access n counts r (stopped result) = returns (r, stopped result)
