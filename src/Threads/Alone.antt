-- ===== src/Threads/Alone.antt =====
-- A thread that runs alone, beside the code of src/context.rs and src/calibration.rs run in one go.
pub mod Freeze
use tracegrams.Freeze.Scans.{population_counts}
use tracegrams.Threads.Looking.{looked_up-places}
use tracegrams.Float.{Float}
use tracegrams.Recorder.{Inner}
use tracegrams.Marks.Refine.{record_valid_mark-places, calibration_places-same}
use tracegrams.Marks.Blocks.{before_of}
use tracegrams.Marks.{record_valid_mark}
use tracegrams.Threads.Moves.{
  early_places-AreEarly, classified-ArePlaces, skipped-IsThread, sampled-IsThread,
}
use tracegrams.Context.{MarkAdvance}
use tracegrams.Threads.Progress.{by_state}
use tracegrams.Marks.Places.{
  bucket_places, overflow_places, mark_places, outcome_places, calibration_places,
}
use tracegrams.Threads.Sound.{IsCall}
use tracegrams.Layout.Facts.{Place}
use tracegrams.Recorder.Bumps.{
  bumped_all-append, bumped_all-frozen, bumped_all-state, bumped_all-IsReady, increment-bumped,
  bumped-IsReady, bumped, ArePlaces, IsReady, bumped_all,
}
use mathlib.Core.Path.{subst}
use mathlib.Core.List.{append_assoc}
use tracegrams.Threads.{
  rescan_finite, rescan_terminal, rescan_unready, scan_ready, scan_unready, count, here, look,
  early_places, load_frozen, marking, classified_places, load_freezing, skipped_places,
  load_collecting, sampled_places, cumulative_of, count_last, step, ending, counting, next, Move,
  Reach, Thread, Valid,
}
use tracegrams.Prelude.{
  ◌++◌, ◌<◌, ◌==◌, ◌^◌, ◌∙◌, ◌∷◌, ◌≡◌, List, [], ap, arith, false, inl, inr, refl, returns, sym,
  true, ℕ,
}

module _ ⦃float : Float⦄ where
  -- A scan of a thread that runs alone reads the counts that the recorder has.
  abbrev pub ReadsOwn : {n : ℕ} {r r' : Inner} {t t' : Thread} → Move n r t r' t' → Type 0
  ReadsOwn {r = r} (scan_unready counts readable unready) = counts ≡ population_counts r
  ReadsOwn {r = r} (scan_ready counts readable ready) = counts ≡ population_counts r
  ReadsOwn {r = r} (rescan_unready counts readable unready) = counts ≡ population_counts r
  ReadsOwn {r = r} (rescan_terminal counts t readable ready run terminal) =
      counts ≡ population_counts r
  ReadsOwn {r = r} (rescan_finite counts readable ready run finite) = counts ≡ population_counts r
  ReadsOwn _ = Unit

  -- A run of one thread: its accesses, one after the other.
  pub data Alone (n : ℕ) (r : Inner) (t : Thread) : Inner → Thread → Type 0 where
    stays : Alone n r t r t
    then :
        {r₁ r₂ : Inner} {t₁ t₂ : Thread}
        → Alone n r t r₁ t₁
        → (m : Move n r₁ t₁ r₂ t₂) → ReadsOwn m
        → Alone n r t r₂ t₂

  -- It is an interleaving of a single thread.
  pub Alone-Reach :
      {n : ℕ} {r : Inner} {t : Thread} {r' : Inner} {t' : Thread}
      → Alone n r t r' t'
      → Reach n r (t ∷ []) r' (t' ∷ [])
  Alone-Reach stays = here
  Alone-Reach (then run m own) = next (Alone-Reach run) (step [] [] refl refl m)

  early_increments :
      {n : ℕ} {r : Inner} {t : Thread} (v : Valid) (ps : List Place) (r₁ : Inner)
      → IsReady n r₁
      → ArePlaces n ps
      → Alone n r t r₁ (counting ps v)
      → Alone n r t (bumped_all r₁ ps) (counting [] v)
  unfolding bumped_all
  early_increments v [] r₁ ready a run = run
  early_increments {n} v (p ∷ ps) r₁ ready a run =
      early_increments v ps (bumped r₁ p) (bumped-IsReady n r₁ ready p) a.1
        (then run (count (increment-bumped n r₁ ready p a.0)) tt)

  last_increments :
      {n : ℕ} {r : Inner} {t : Thread} (ps : List Place) (r₁ : Inner)
      → IsReady n r₁
      → ArePlaces n ps
      → Alone n r t r₁ (ending ps)
      → Alone n r t (bumped_all r₁ ps) (ending [])
  unfolding bumped_all
  last_increments [] r₁ ready a run = run
  last_increments {n} (p ∷ ps) r₁ ready a run =
      last_increments ps (bumped r₁ p) (bumped-IsReady n r₁ ready p) a.1
        (then run (count_last (increment-bumped n r₁ ready p a.0)) tt)

  -- What the load of the state decides.
  abbrev late_places : Inner → Valid → List Place
  late_places r v =
      calibration_places r v.started v.stage v.later v.before_ns v.local_ns (cumulative_of v)
      ++ outcome_places v.stage v.outcome

  loaded :
      {n : ℕ} {r : Inner} {t : Thread} (v : Valid) (r₁ : Inner)
      → IsReady n r₁
      → IsCall n v
      → Alone n r t r₁ (counting [] v)
      → Alone n r t r₁ (ending (late_places r₁ v)) × ArePlaces n (late_places r₁ v)
  loaded {n} {r} {t} v r₁ ready call run = elim (by_state r₁.calibration_state ready.state_ok) [
    | inl e ↦
        let a : (r₁.calibration_state == 0) ≡ true = ground (arith, e) in
        let late : late_places r₁ v ≡ sampled_places v = rw a in
        rw late (then run (load_collecting e) tt, (sampled-IsThread n v call).0)
    | inr (inl e) ↦
        let a : (r₁.calibration_state == 0) ≡ false = ground (arith, e) in
        let b : (r₁.calibration_state == 1) ≡ true = ground (arith, e) in
        let late : late_places r₁ v ≡ skipped_places v = rw (a, b) in
        rw late (then run (load_freezing e) tt, (skipped-IsThread n v call).0)
    | inr (inr e) ↦
        let a : (r₁.calibration_state == 0) ≡ false = ground (arith, e) in
        let b : (r₁.calibration_state == 1) ≡ false = ground (arith, e) in
        let late : late_places r₁ v ≡ classified_places r₁ v = rw (a, b) in
        rw late (
          then (then run (load_frozen e) tt) (look (looked_up-places n r₁ v ready call.0)) tt,
          classified-ArePlaces n r₁ v call,
        )
  ]

  -- On a ready recorder, a valid mark that no other thread interferes with is a run of its thread: it
  -- ends with the recorder that `record_valid_mark` returns.
  pub record_valid_mark-Alone :
      (n : ℕ) (r : Inner) (v : Valid)
      → IsReady n r
      → IsCall n v
      → v.local_ns < 2 ^ 64
      → (v.later ≡ false → v.before_ns ≡ 0)
      → (result : MarkAdvance × Inner) × (record_valid_mark r v.before_ns v.stage
            (before_of v.later v.stage v.before_ns)
            v.started
            v.local_ns
            v.overflowed
            v.outcome
          ≡ returns result)
        × Alone n r (marking v) result.1 (ending [])
  record_valid_mark-Alone n r v ready call small first =
      let early = early_places-AreEarly n v call in
      let r₁ = bumped_all r (early_places v) in
      let v₁ = bumped_all-IsReady n r (early_places v) ready in
      let counted = early_increments v (early_places v) r ready early.0 stays in
      let (run, a) = loaded v r₁ v₁ call counted in
      let late : late_places r₁ v ≡ late_places r v =
        ap (λ ps. ps ++ outcome_places v.stage v.outcome)
          (calibration_places-same r r₁ v.started v.stage v.later v.before_ns v.local_ns
            (cumulative_of v) (bumped_all-state r (early_places v))
            (bumped_all-frozen r (early_places v))) in
      let joined : bumped_all r₁ (late_places r₁ v)
          ≡ bumped_all r (
              mark_places r v.started v.stage v.later v.before_ns v.local_ns v.overflowed
                v.outcome) =
        ap (bumped_all r₁) late
        ∙ (sym (bumped_all-append r (early_places v) (late_places r v))
            ∙ ap (bumped_all r) (
                append_assoc (overflow_places v.before_ns v.local_ns v.overflowed)
                  (bucket_places v.stage v.later v.before_ns v.local_ns (cumulative_of v))
                  (late_places r v))) in
      let whole = last_increments (late_places r₁ v) r₁ v₁ a run in
      (
        _,
        record_valid_mark-places n r v.stage v.later v.started v.overflowed v.before_ns v.local_ns
            v.outcome ready call.0 small first call.1,
        subst (λ x. Alone n r (marking v) x (ending [])) joined whole,
      )
