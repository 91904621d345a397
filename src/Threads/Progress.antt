-- ===== src/Threads/Progress.antt =====
-- The next access of `record_valid_mark` of src/context.rs and of `try_freeze_calibration` of
-- src/calibration.rs on a sound shared recorder.
use tracegrams.Threads.Looking.{looked_up-places}
use tracegrams.Threads.Access.{settled, access}
use tracegrams.Layout.{Population}
use tracegrams.Recorder.{Inner, freezing}
use tracegrams.Freeze.{
  first_unready, first_terminal, calibration_range_insufficient, restore_collecting, already_frozen,
  already_freezing, state_error, claim,
}
use tracegrams.Threads.Safety.{IsSound-front}
use tracegrams.Threads.Halfway.{publish_next-set}
use tracegrams.Freeze.Derive.{IsReadable, stage_report_of, derive_lem}
use tracegrams.Recorder.Bumps.{increment-bumped, bumped, IsReady}
use tracegrams.Rank.Exact.{IsTailQuantile}
use tracegrams.Threads.Sound.{IsThread, IsSound}
use tracegrams.Float.{Float}
use tracegrams.Threads.{
  outcome_places, exchange_lost, observe_taken, exchange_won, observe_open, publish_next,
  store_frozen, restore, observing, count_last, look, classified_places, ending, looking,
  rescan_terminal, rescan_finite, publishing, count, scan_unready, stopped, load_frozen,
  rescan_unready, scan_ready, restoring, claiming, load_freezing, load_collecting, scans_of,
  rescanning, counting, scanning, Valid, Move, Thread,
}
use tracegrams.Prelude.{
  ◌++◌, ◌<◌, ◌==◌, ◌>>=◌, ◌∷◌, ◌≡◌, ◌⊎◌, List, Option-cases, [], ap, arith, err, false, inl, inr,
  map, range, refl, returns, true, ℕ,
}

-- The mark has made its increments, or the freeze has returned.
abbrev pub IsOver : Thread → Type 0
IsOver (ending []) = Unit
IsOver (stopped _) = Unit
IsOver _ = ⊥

module _ ⦃float : Float⦄ where
  -- The next access returns, and the step relation has it.
  abbrev pub CanMove : ℕ → (ℕ → Population → List ℕ) → Inner → Thread → Type 0
  CanMove n counts r t =
      (r' : Inner) × (t' : Thread) × (access n counts r t ≡ returns (r', t')) × Move n r t r' t'

  -- The three calibration states.
  pub by_state : (state : ℕ) → state < 3 → (state ≡ 0) ⊎ ((state ≡ 1) ⊎ (state ≡ 2))
  by_state state h = ground arith

  module _ (n : ℕ) (counts : ℕ → Population → List ℕ) (r : Inner) (ready : IsReady n r) where
    load-CanMove : (v : Valid) → CanMove n counts r (counting [] v)
    unfolding access
    load-CanMove v = elim (by_state r.calibration_state ready.state_ok) [
      | inl e ↦
          let z : (r.calibration_state == 0) ≡ true = ground (arith, e) in
          (r, _, rw z, load_collecting e)
      | inr (inl e) ↦
          let z : (r.calibration_state == 0) ≡ false = ground (arith, e) in
          let a : (r.calibration_state == 1) ≡ true = ground (arith, e) in
          (r, _, rw (z, a), load_freezing e)
      | inr (inr e) ↦
          let z : (r.calibration_state == 0) ≡ false = ground (arith, e) in
          let a : (r.calibration_state == 1) ≡ false = ground (arith, e) in
          let b : (r.calibration_state == 2) ≡ true = ground (arith, e) in
          (r, _, rw (z, a, b), load_frozen e)
    ]

    observe-CanMove : (minimum : ℕ) → CanMove n counts r (observing minimum)
    unfolding access state_error
    observe-CanMove minimum = elim (by_state r.calibration_state ready.state_ok) [
      | inl e ↦
          let z : (r.calibration_state == 0) ≡ true = ground (arith, e) in
          (r, scanning minimum, rw z, observe_open e)
      | inr (inl e) ↦
          let z : (r.calibration_state == 0) ≡ false = ground (arith, e) in
          let a : (r.calibration_state == 1) ≡ true = ground (arith, e) in
          (r, stopped (err already_freezing), rw (z, a), observe_taken (λ z. omega arith) (rw a))
      | inr (inr e) ↦
          let z : (r.calibration_state == 0) ≡ false = ground (arith, e) in
          let a : (r.calibration_state == 1) ≡ false = ground (arith, e) in
          let b : (r.calibration_state == 2) ≡ true = ground (arith, e) in
          (
            r,
            stopped (err already_frozen),
            rw (z, a, b),
            observe_taken (λ z. omega arith) (rw (a, b)),
          )
    ]

    exchange-CanMove : (minimum : ℕ) → CanMove n counts r (claiming minimum)
    unfolding access claim state_error
    exchange-CanMove minimum = elim (by_state r.calibration_state ready.state_ok) [
      | inl e ↦
          let a : (r.calibration_state == 0) ≡ true = ground (arith, e) in
          (record r { calibration_state = freezing }, rescanning minimum, rw a, exchange_won (rw a))
      | inr (inl e) ↦
          let z : (r.calibration_state == 0) ≡ false = ground (arith, e) in
          let a : (r.calibration_state == 1) ≡ true = ground (arith, e) in
          (r, stopped (err already_freezing), rw (z, a), exchange_lost (rw (z, a)))
      | inr (inr e) ↦
          let z : (r.calibration_state == 0) ≡ false = ground (arith, e) in
          let a : (r.calibration_state == 1) ≡ false = ground (arith, e) in
          let b : (r.calibration_state == 2) ≡ true = ground (arith, e) in
          (r, stopped (err already_frozen), rw (z, a, b), exchange_lost (rw (z, a, b)))
    ]

  module _ (n : ℕ) (counts : ℕ → Population → List ℕ) (r : Inner) (h : IsReadable n counts) where
    scan-CanMove : (minimum : ℕ) → CanMove n counts r (scanning minimum)
    unfolding access
    scan-CanMove minimum =
        elim (Option-cases (first_unready (scans_of n r.cookie counts) minimum)) [
          | inl ready ↦ (r, claiming minimum, rw ready, scan_ready counts h ready)
          | inr (e, unready) ↦ (r, stopped (err e), rw unready, scan_unready counts h unready)
        ]

    rescan-CanMove :
        (minimum : ℕ) → IsTailQuantile r.tail_quantile → CanMove n counts r (rescanning minimum)
    unfolding access settled
    rescan-CanMove minimum q =
        elim (Option-cases (first_unready (scans_of n r.cookie counts) minimum)) [
          | inr (e, unready) ↦ (r, restoring e, rw unready, rescan_unready counts h unready)
          | inl ready ↦
              let run = derive_lem n r.cookie r.tail_quantile q counts h in
              let reports = map (stage_report_of n r.cookie r.tail_quantile q counts h) (range n) in
              elim (Option-cases (first_terminal reports)) [
                | inl finite ↦ (
                  r,
                  publishing reports reports,
                  rw (ready, run, finite),
                  rescan_finite counts h ready run finite,
                )
                | inr (t, terminal) ↦ (
                  r,
                  restoring
                      (calibration_range_insufficient t.0 t.1 t.2 (record { stages = reports })),
                  rw (ready, run, terminal),
                  rescan_terminal counts t h ready run terminal,
                )
              ]
        ]

  -- In a sound recorder shared by threads, whatever counts of the right length whose totals fit `u64`
  -- a scan reads, any thread is over, or its next access as the code makes it returns and is a move of
  -- the step relation: no increment is out of range, no state byte is unknown, no published threshold
  -- is missing, no derivation panics, and every publication finds its cell empty.
  pub IsSound-CanMove :
      (n : ℕ) (r : Inner) (before after : List Thread) (t : Thread)
      (counts : ℕ → Population → List ℕ)
      → IsSound n r (before ++ (t ∷ after))
      → IsReadable n counts
      → IsOver t ⊎ CanMove n counts r t
  unfolding access
  IsSound-CanMove n r before after t counts s readable =
      let front = IsSound-front n r before after t s in go t front.running.0
    where
      go :
          (t : Thread)
          → IsThread n r.calibration_state r.frozen_calibration t
          → IsOver t ⊎ CanMove n counts r t
      go (counting [] v) h = inr (load-CanMove n counts r s.ready v)
      go (counting (p ∷ ps) v) h =
          let run = increment-bumped n r s.ready p h.0.0.0 in
          inr (
            bumped r p,
            counting ps v,
            ap (λ m. m >>= λ r'. returns (r', counting ps v)) run,
            count run,
          )
      go (looking v) h =
          let run = looked_up-places n r v s.ready h.0.0 in
          inr (
            r,
            ending (classified_places r v),
            ap (λ m. m >>= λ ps. returns (r, ending (ps ++ outcome_places v.stage v.outcome))) run,
            look run,
          )
      go (ending []) h = inl tt
      go (ending (p ∷ ps)) h =
          let run = increment-bumped n r s.ready p h.0.0 in
          inr (
            bumped r p,
            ending ps,
            ap (λ m. m >>= λ r'. returns (r', ending ps)) run,
            count_last run,
          )
      go (observing minimum) h = inr (observe-CanMove n counts r s.ready minimum)
      go (scanning minimum) h = inr (scan-CanMove n counts r readable minimum)
      go (claiming minimum) h = inr (exchange-CanMove n counts r s.ready minimum)
      go (rescanning minimum) h = inr (rescan-CanMove n counts r readable minimum s.quantile)
      go (restoring e) h = inr (restore_collecting r, stopped (err e), refl, restore)
      go (publishing all []) h = inr (_, _, refl, store_frozen)
      go (publishing all (report ∷ reports)) h =
          let run = publish_next-set n r.frozen_calibration report reports h s.ready.cells in
          inr (
            _,
            publishing all reports,
            ap
                (λ m. m >>= λ cells.
                  returns (record r { frozen_calibration = cells }, publishing all reports))
                run,
            publish_next run,
          )
      go (stopped result) h = inl tt
