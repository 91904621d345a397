-- ===== src/Threads/Alone/Freeze.antt =====
-- `try_freeze_calibration` of src/calibration.rs when no other thread interferes, and the accesses
-- of its thread.
use tracegrams.Float.{Float}
use tracegrams.Layout.{Population}
use tracegrams.Calibration.{FreezeReport, StageReport}
use tracegrams.Registry.{StageId}
use tracegrams.Recorder.{Inner, freezing, frozen}
use tracegrams.Freeze.{FreezeError, first_unready, publish, state_error, claim}
use tracegrams.Threads.Progress.{by_state}
use tracegrams.Freeze.Runs.{publish_first, publish-IsPublished}
use tracegrams.Freeze.Races.{taken_at_once, taken_error, IsTaken, scanned}
use tracegrams.Freeze.Publish.{freeze_derived, freeze_scanned}
use tracegrams.Recorder.Bumps.{IsReady}
use tracegrams.Estimate.{Terminal}
use tracegrams.Freeze.Derive.{IsReadable, derive_lem, stage_report_of}
use tracegrams.Freeze.{
  restore_collecting, calibration_range_insufficient, publish_all, first_terminal,
  freeze_after_claim, settle_finite, claim_after_scan, try_freeze_calibration,
}
use tracegrams.Threads.Alone.{then, stays, Alone}
use tracegrams.Freeze.Scans.{length-population_counts, population_counts}
use tracegrams.Threads.Sound.{Cells, IsSound}
use mathlib.Core.Path.{subst}
use tracegrams.Threads.{
  publish_next, observe_taken, publishing, scan_unready, rescan_finite, rescan_terminal,
  exchange_won, observe_open, scan_ready, rescanning, reports_of, scanning, scans_of, stopped,
  observing, Thread, restore, store_frozen,
}
use tracegrams.Prelude.{
  ◌<◌, ◌==◌, ◌^◌, ◌∙◌, ◌≡◌, ◌≤◌, List, Option, Option-cases, Result, Run, [], arith, err, false,
  inl, inr, map, none, ok, range, range_from, refl, returns, some, suc, sum, true, zero, ℕ,
}

module _ ⦃float : Float⦄ where
  -- The publication loop, one cell at a time.
  publications :
      {n : ℕ} {r : Inner} {t : Thread} (r₁ : Inner) (all : List StageReport) (g : ℕ → StageReport)
      (first count : ℕ) (cells after : Cells)
      → publish (map g (range_from first count)) cells ≡ returns after
      → Alone n r t
          (record r₁ { frozen_calibration = cells })
          (publishing all (map g (range_from first count)))
      → Alone n r t (record r₁ { frozen_calibration = after }) (publishing all [])
  unfolding publish
  publications {n} {r} {t} r₁ all g first zero cells after run so_far =
      let e : cells ≡ after = cc in
      subst (λ x. Alone n r t (record r₁ { frozen_calibration = x }) (publishing all [])) e so_far
  publications r₁ all g first (suc count) cells after run so_far =
      let (next_cells, one, rest) = publish_first (g first) _ cells after run in
      publications r₁ all g (suc first) count next_cells after rest
        (then so_far (publish_next one) tt)

  -- A ready recorder of at most 256 stages, sound while only this thread uses it.
  module _ (n : ℕ) (r : Inner) (minimum : ℕ) (s : IsSound n r []) (small : n ≤ 256)
      (totals : (i : ℕ) (p : Population) → i < n → sum (population_counts r i p) < 2 ^ 64) where
    -- The freeze returns with the recorder that its thread reaches.
    abbrev pub Freezes : Run (Result FreezeReport FreezeError × Inner) → Thread → Type 0
    Freezes run t =
        (result : Result FreezeReport FreezeError) × (r' : Inner) × (run ≡ returns (result, r'))
        × Alone n r t r' (stopped result)

    readable : IsReadable n (population_counts r)
    readable i p h = (length-population_counts n r s.ready i p h, totals i p h)

    abbrev reports : List StageReport
    reports =
        map (stage_report_of n r.cookie r.tail_quantile s.quantile (population_counts r) readable)
          (range n)

    abbrev claimed : Inner
    claimed = record r { calibration_state = freezing }

    claimed-IsReady : IsReady n claimed
    claimed-IsReady = record {
      layout_ok = s.ready.layout_ok;
      sized = s.ready.sized;
      cells = s.ready.cells;
      state_ok = omega arith;
      usable = s.ready.usable;
    }

    -- Taken at once.
    taken-Freezes :
        IsTaken r → Freezes (try_freeze_calibration (λ x. x) r minimum) (observing minimum)
    unfolding state_error
    taken-Freezes taken = (err (taken_error r), r, taken_at_once (λ x. x) r minimum taken, go taken)
      where
        go : IsTaken r → Alone n r (observing minimum) r (stopped (err (taken_error r)))
        go (inl e) =
            let a : (r.calibration_state == 1) ≡ true = ground (arith, e) in
            then stays (observe_taken (λ z. omega arith) (rw a)) tt
        go (inr e) =
            let a : (r.calibration_state == 1) ≡ false = ground (arith, e) in
            let b : (r.calibration_state == 2) ≡ true = ground (arith, e) in
            then stays (observe_taken (λ z. omega arith) (rw (a, b))) tt

    module _ (free : r.calibration_state ≡ 0) where
      scanned_alone :
          (u : Option FreezeError)
          → first_unready (scans_of n r.cookie (population_counts r)) minimum ≡ u
          → try_freeze_calibration (λ x. x) r minimum ≡ claim_after_scan (λ x. x) r minimum u
      scanned_alone u e = scanned (λ x. x) r minimum n u s.ready small free e

      claim_alone : claim r ≡ returns (ok claimed)
      unfolding claim
      claim_alone = let a : (r.calibration_state == 0) ≡ true = ground (arith, free) in rw a

      claimed_alone : claim_after_scan (λ x. x) r minimum none ≡ freeze_after_claim claimed minimum
      unfolding claim_after_scan
      claimed_alone = rw claim_alone

      open_thread : Alone n r (observing minimum) r (scanning minimum)
      open_thread = then stays (observe_open free) tt

      module _
          (ready : first_unready (scans_of n r.cookie (population_counts r)) minimum ≡ none) where
        holding : Alone n r (observing minimum) claimed (rescanning minimum)
        holding =
            then (then open_thread (scan_ready (population_counts r) readable ready) refl)
              (exchange_won claim_alone) tt

        derived : reports_of claimed n (population_counts r) ≡ returns reports
        derived = derive_lem n r.cookie r.tail_quantile s.quantile (population_counts r) readable

        settled :
            (u : Option (StageId × Population × Terminal))
            → first_terminal reports ≡ u
            → try_freeze_calibration (λ x. x) r minimum ≡ settle_finite claimed u reports
        settled u e =
            scanned_alone none ready
            ∙ (claimed_alone
                ∙ (freeze_scanned n claimed claimed-IsReady small s.quantile totals minimum none
                      ready
                    ∙ freeze_derived n claimed claimed-IsReady small s.quantile totals u e))

        terminal-Freezes :
            (t : StageId × Population × Terminal)
            → first_terminal reports ≡ some t
            → Freezes (try_freeze_calibration (λ x. x) r minimum) (observing minimum)
        unfolding settle_finite
        terminal-Freezes t e = (
          err (calibration_range_insufficient t.0 t.1 t.2 (record { stages = reports })),
          restore_collecting claimed,
          settled (some t) e,
          then
              (then holding (rescan_terminal (population_counts r) t readable ready derived e) refl)
              restore tt,
        )

        finite-Freezes :
            first_terminal reports ≡ none
            → Freezes (try_freeze_calibration (λ x. x) r minimum) (observing minimum)
        unfolding settle_finite publish_all
        finite-Freezes e =
            let report_of =
              stage_report_of n r.cookie r.tail_quantile s.quantile (population_counts r)
                readable in
            let (cells, run, p) =
              publish-IsPublished report_of 0 n r.frozen_calibration (omega (arith, s.ready.cells))
                (λ j. refl) (λ j a. s.empty free j) in
            let begun =
              then holding (rescan_finite (population_counts r) readable ready derived e) refl in
            let done =
              publications claimed reports report_of 0 n r.frozen_calibration cells run begun in
            (
              ok (record { stages = reports }),
              record r { frozen_calibration = cells; calibration_state = frozen },
              settled none e ∙ (rw run),
              then done store_frozen tt,
            )

    -- A freeze that no other thread interferes with, on a sound recorder of at most 256 stages whose
    -- calibration totals fit `u64`, returns: with the result, and with the recorder, that its thread
    -- reaches access by access, each scan reading the counts that the recorder has then.
    pub try_freeze_calibration-Alone :
        Freezes (try_freeze_calibration (λ x. x) r minimum) (observing minimum)
    unfolding claim_after_scan
    try_freeze_calibration-Alone = elim (by_state r.calibration_state s.ready.state_ok) [
      | inr (inl e) ↦ taken-Freezes (inl e)
      | inr (inr e) ↦ taken-Freezes (inr e)
      | inl free ↦
          elim (Option-cases (first_unready (scans_of n r.cookie (population_counts r)) minimum)) [
            | inr (e, unready) ↦ (
              err e,
              r,
              scanned_alone free (some e) unready,
              then (open_thread free) (scan_unready (population_counts r) readable unready) refl,
            )
            | inl ready ↦ elim (Option-cases (first_terminal reports)) [
              | inr (t, e) ↦ terminal-Freezes free ready t e
              | inl e ↦ finite-Freezes free ready e
            ]
          ]
    ]
