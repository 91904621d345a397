-- ===== src/Freeze/Races.antt =====
-- `try_freeze_calibration` of src/calibration.rs against other threads that take the calibration
-- state.
use tracegrams.Prelude.{
  ◌==◌, ◌>>=◌, ◌∙◌, ◌≡◌, ◌≤◌, ◌⊎◌, ==_iff, Bool-cases, Option, Option-cases, ap, arith, err, false,
  if◌then◌else◌, inl, inr, map, none, range, returns, some, true, ℕ,
}
use tracegrams.Float.{Float}
use tracegrams.Recorder.{Inner}
use tracegrams.Recorder.Bumps.{IsReady}
use tracegrams.Freeze.{
  FreezeError, already_freezing, already_frozen, claim, state_error, scan_calibration,
  first_unready, claim_after_scan, try_freeze_calibration,
}
use tracegrams.Freeze.Scans.{scan_of, scan_calibration_lem}

-- The recorder is being frozen, or is frozen.
abbrev pub IsTaken : Inner → Type 0
IsTaken r = (r.calibration_state ≡ 1) ⊎ (r.calibration_state ≡ 2)

abbrev pub taken_error : Inner → FreezeError
taken_error r = if r.calibration_state == 1 then already_freezing else already_frozen

module _ ⦃float : Float⦄ (others : Inner → Inner) (r : Inner) (minimum : ℕ) where
  claim_lost :
      IsTaken (others r)
      → claim_after_scan others r minimum none ≡ returns (err (taken_error (others r)), others r)
  unfolding claim_after_scan claim state_error
  claim_lost (inl e) =
      let a : ((others r).calibration_state == 0) ≡ false = ground (arith, e) in
      let b : ((others r).calibration_state == 1) ≡ true = ground (arith, e) in rw (a, b)
  claim_lost (inr e) =
      let a : ((others r).calibration_state == 0) ≡ false = ground (arith, e) in
      let b : ((others r).calibration_state == 1) ≡ false = ground (arith, e) in
      let c : ((others r).calibration_state == 2) ≡ true = ground (arith, e) in rw (a, b, c)

  pub taken_at_once :
      IsTaken r → try_freeze_calibration others r minimum ≡ returns (err (taken_error r), r)
  unfolding try_freeze_calibration state_error
  taken_at_once (inl e) =
      let a : (r.calibration_state == 0) ≡ false = ground (arith, e) in
      let b : (r.calibration_state == 1) ≡ true = ground (arith, e) in rw (a, b)
  taken_at_once (inr e) =
      let a : (r.calibration_state == 0) ≡ false = ground (arith, e) in
      let b : (r.calibration_state == 1) ≡ false = ground (arith, e) in
      let c : (r.calibration_state == 2) ≡ true = ground (arith, e) in rw (a, b, c)

  pub scanned :
      (n : ℕ) (u : Option FreezeError)
      → IsReady n r
      → n ≤ 256
      → r.calibration_state ≡ 0
      → first_unready (map (scan_of r) (range n)) minimum ≡ u
      → try_freeze_calibration others r minimum ≡ claim_after_scan others r minimum u
  unfolding try_freeze_calibration
  scanned n u v small e h =
      let a : (r.calibration_state == 0) ≡ true = ground (arith, e) in
      let open_state : try_freeze_calibration others r minimum ≡ (
          scan_calibration r >>= λ scans.
          claim_after_scan others r minimum (first_unready scans minimum)) =
        rw a in
      open_state
      ∙ (ap (λ m. m >>= λ scans. claim_after_scan others r minimum (first_unready scans minimum))
            (scan_calibration_lem n r v small)
          ∙ ap (claim_after_scan others r minimum) h)

  -- On a ready recorder of at most 256 stages, when the state is taken at once, the freeze fails with
  -- the error for that state and changes nothing. When other threads take it between the first scan
  -- and the claim, it fails with the error for their state, or with the first scan's error, and what it
  -- leaves is the recorder as it found it or as they made it.
  pub try_freeze_calibration-loses :
      (n : ℕ)
      → IsReady n r
      → n ≤ 256
      → IsTaken (others r)
      → (IsTaken r × (try_freeze_calibration others r minimum ≡ returns (err (taken_error r), r)))
        ⊎ ((r.calibration_state ≡ 0)
            × ((try_freeze_calibration others r minimum
                  ≡ returns (err (taken_error (others r)), others r))
                ⊎ ((e : FreezeError) × (first_unready (map (scan_of r) (range n)) minimum ≡ some e)
                    × (try_freeze_calibration others r minimum ≡ returns (err e, r)))))
  unfolding claim_after_scan
  try_freeze_calibration-loses n v small taken = elim (Bool-cases (r.calibration_state == 0)) [
    | inr busy ↦
        let at_once : IsTaken r = (elim (Bool-cases (r.calibration_state == 1)) [
          | inl e ↦ inl ((==_iff _ 1).0 e)
          | inr e ↦ inr (ground (arith, v.state_ok))
        ]) in
        inl (at_once, taken_at_once at_once)
    | inl free ↦
        let e₀ : r.calibration_state ≡ 0 = (==_iff _ 0).0 free in
        inr (
          e₀,
          elim (Option-cases (first_unready (map (scan_of r) (range n)) minimum)) [
            | inl ready ↦ inl (scanned n none v small e₀ ready ∙ claim_lost taken)
            | inr (e, unready) ↦ inr (e, unready, scanned n (some e) v small e₀ unready)
          ],
        )
  ]
