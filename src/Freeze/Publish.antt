-- ===== src/Freeze/Publish.antt =====
-- The freeze of src/calibration.rs after its claim: how it settles a scan.
use tracegrams.Prelude.{
  ◌<◌, ◌>>=◌, ◌^◌, ◌∙◌, ◌≡◌, ◌≤◌, ◌⊎◌, Option, Option-cases, ap, arith, err, get_elem?,
  get_elem?-eq-some, get_or, inl, inr, length, map, none, ok, range, refl, returns, some, sum, sym,
  ℕ,
}
use mathlib.Core.Path.{subst}
use tracegrams.Float.{Float}
use tracegrams.Registry.{StageId}
use tracegrams.Rank.Exact.{IsTailQuantile}
use tracegrams.Estimate.{Terminal}
use tracegrams.Layout.{Population}
use tracegrams.Calibration.{StageReport, FreezeReport, FrozenStageCalibration}
use tracegrams.Recorder.{Inner, frozen}
use tracegrams.Recorder.Bumps.{IsReady, IsUsable}
use tracegrams.Freeze.{
  settle_ready, settle_finite, FreezeError, first_unready, first_terminal, publish_all,
  freeze_after_claim, restore_collecting, calibration_range_insufficient,
}
use tracegrams.Freeze.Runs.{publish-IsPublished}
use tracegrams.Freeze.Derive.{
  get_elem?-lt, IsReadable, stage_report_of, derive_lem, stage_report_of-IsUsable,
}
use tracegrams.Freeze.Scans.{
  population_counts, scan_of, id_of, scan_calibration_lem, length-population_counts,
}

module _ ⦃float : Float⦄ (n : ℕ) (r : Inner) (v : IsReady n r) (small : n ≤ 256)
    (q : IsTailQuantile r.tail_quantile)
    (totals : (i : ℕ) (p : Population) → i < n → sum (population_counts r i p) < 2 ^ 64) where
  abbrev counts_now : IsReadable n (population_counts r)
  counts_now i p h = (length-population_counts n r v i p h, totals i p h)

  abbrev report_of : ℕ → StageReport
  report_of = stage_report_of n r.cookie r.tail_quantile q (population_counts r) counts_now

  -- A successful freeze: the counters are untouched, the state is frozen, every stage's thresholds
  -- are published under its identifier, and marks can be recorded.
  pub record IsFreeze (report : FreezeReport) (after : Inner) : Type 0 where
    pub state : after.calibration_state ≡ frozen
    pub counters : after.counters ≡ r.counters
    pub ready : IsReady n after
    pub published :
        (i : ℕ)
        → i < n
        → (c : FrozenStageCalibration) × (get_elem? after.frozen_calibration i ≡ some (some c))
          × (c.report.stage ≡ id_of r.cookie i)
          × IsUsable c

  publish_all-IsFreeze :
      (minimum : ℕ)
      → ((j : ℕ) → get_or r.frozen_calibration j none ≡ none)
      → first_unready (map (scan_of r) (range n)) minimum ≡ none
      → first_terminal (map report_of (range n)) ≡ none
      → (after : Inner) × (publish_all r (map report_of (range n))
          ≡ returns (ok (record { stages = map report_of (range n) }), after))
        × IsFreeze (record { stages = map report_of (range n) }) after
  unfolding publish_all
  publish_all-IsFreeze minimum empty unready finite =
      let (cells, run, p) =
        publish-IsPublished report_of 0 n r.frozen_calibration (omega (arith, v.cells)) (λ j. refl)
          (λ j a. empty j) in
      let sized : length cells ≡ n = p.sized ∙ v.cells in
      let read : (i : ℕ)
          → i < n
          → get_elem? cells i ≡ some (some (record { report = report_of i })) =
        λ i h.
          get_elem?-eq-some cells i none (omega arith)
          ∙ ap some (p.fresh i (omega arith) (omega arith)) in
      (
        record r { frozen_calibration = cells; calibration_state = frozen },
        rw run,
        record {
          state = refl;
          counters = refl;
          ready = record {
            layout_ok = v.layout_ok;
            sized = v.sized;
            cells = sized;
            state_ok = omega arith;
            usable = λ i c k.
                let h : i < n = omega (arith, get_elem?-lt cells i (some c) k) in
                let both = sym (read i h) ∙ k in
                let e : record { report = report_of i } ≡ c = cc in
                subst IsUsable e (
                  stage_report_of-IsUsable n r.cookie r.tail_quantile q (population_counts r)
                    counts_now minimum i unready finite h);
          };
          published = λ i h. (
            record { report = report_of i },
            read i h,
            refl,
            stage_report_of-IsUsable n r.cookie r.tail_quantile q (population_counts r) counts_now
                minimum i unready finite h,
          );
        },
      )

  -- What the freeze does once it has scanned, and once it has derived.
  pub freeze_scanned :
      (minimum : ℕ) (u : Option FreezeError)
      → first_unready (map (scan_of r) (range n)) minimum ≡ u
      → freeze_after_claim r minimum ≡ settle_ready r u (map (scan_of r) (range n))
  unfolding freeze_after_claim
  freeze_scanned minimum u e =
      ap (λ m. m >>= λ scans. settle_ready r (first_unready scans minimum) scans)
        (scan_calibration_lem n r v small)
      ∙ ap (λ o. settle_ready r o (map (scan_of r) (range n))) e

  pub freeze_derived :
      (u : Option (StageId × Population × Terminal))
      → first_terminal (map report_of (range n)) ≡ u
      → settle_ready r none (map (scan_of r) (range n))
        ≡ settle_finite r u (map report_of (range n))
  unfolding settle_ready
  freeze_derived u e =
      ap (λ m. m >>= λ reports. settle_finite r (first_terminal reports) reports)
        (derive_lem n r.cookie r.tail_quantile q (population_counts r) counts_now)
      ∙ ap (λ o. settle_finite r o (map report_of (range n))) e

  -- After the claim, on a ready recorder of at most 256 stages with an accepted quantile, populations
  -- whose totals fit `u64` and nothing published yet, the freeze returns: either with an error, and
  -- all that changed is that the recorder collects again; or with a report, and the state is frozen,
  -- the counters are untouched, every stage has usable published thresholds under its identifier, and
  -- the recorder is still ready to record.
  pub freeze_after_claim-cases :
      (minimum : ℕ)
      → ((j : ℕ) → get_or r.frozen_calibration j none ≡ none)
      → ((e : FreezeError) × (freeze_after_claim r minimum ≡ returns (err e, restore_collecting r)))
        ⊎ ((report : FreezeReport) × (after : Inner) × (freeze_after_claim r minimum
              ≡ returns (ok report, after))
            × IsFreeze report after)
  unfolding settle_ready settle_finite
  freeze_after_claim-cases minimum empty =
      elim (Option-cases (first_unready (map (scan_of r) (range n)) minimum)) [
        | inr (e, unready) ↦ inl (e, freeze_scanned minimum (some e) unready)
        | inl ready ↦ elim (Option-cases (first_terminal (map report_of (range n)))) [
          | inr (t, terminal) ↦ inl (
            calibration_range_insufficient t.0 t.1 t.2
                (record { stages = map report_of (range n) }),
            freeze_scanned minimum none ready ∙ freeze_derived (some t) terminal,
          )
          | inl finite ↦
              let (after, run, frozen_after) = publish_all-IsFreeze minimum empty ready finite in
              inr (
                record { stages = map report_of (range n) },
                after,
                freeze_scanned minimum none ready ∙ (freeze_derived none finite ∙ run),
                frozen_after,
              )
        ]
      ]
