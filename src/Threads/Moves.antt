-- ===== src/Threads/Moves.antt =====
-- Single accesses of src/context.rs and src/calibration.rs on a sound recorder, one kind after the
-- other.
use tracegrams.Marks.Places.{collecting_places, outcome_places, overflow_places, bucket_places}
use tracegrams.Threads.Halfway.{published_reports-range, publish_next-IsHalfway}
use mathlib.Core.Path.{subst}
use tracegrams.Layout.Facts.{Place, index_of, IsPlace}
use tracegrams.Marks.Exist.{
  bucket_places-AreEarly, overflow_places-AreEarly, collecting_places-AreEarly,
  outcome_places-AreEarly, AreEarly-append, online_places-ArePlaces, is_online, AreEarly,
  ArePlaces-append,
}
use tracegrams.Recorder.Bumps.{increment-bumped, bumped, ArePlaces, IsReady}
use tracegrams.Threads.Sound.{
  counted-IsSound, IsThread, ArePublished, holds, IsHalfway, AreThreads-others, Cells, holders,
  IsCall, IsSound,
}
use tracegrams.Recorder.{increment, frozen, freezing, Inner}
use tracegrams.Freeze.{
  published_reports, publish, restore_collecting, already_frozen, already_freezing, state_error,
  claim, FreezeError,
}
use tracegrams.Threads.{
  early_places, cumulative_of, sampled_places, skipped_places, stopped, classified_places,
  rescanning, claiming, publishing, restoring, Thread, Valid,
}
use tracegrams.Calibration.{StageReport}
use tracegrams.Prelude.{
  ◌+◌, ◌==◌, ◌∙◌, ◌∷◌, ◌≡◌, ◌⊎◌, ==_iff, Bool-cases, List, [], arith, err, false, inl, inr, length,
  map, ok, panic, range_from, refl, returns, suc, sym, zero, ℕ,
}

pub increment_inv :
    (n : ℕ) (r r' : Inner) (p : Place)
    → IsReady n r
    → IsPlace n p
    → increment r (index_of r.layout p) ≡ returns r'
    → bumped r p ≡ r'
increment_inv n r r' p v h run = let k = increment-bumped n r v p h in cc

-- The two places where threads count.
pub count-IsSound :
    (n : ℕ) (r r' : Inner) (t t' : Thread) (rest : List Thread) (p : Place)
    → IsSound n r (t ∷ rest)
    → IsPlace n p
    → (is_online p ≡ false) ⊎ (r.calibration_state ≡ 2)
    → holds t' ≡ holds t
    → IsThread n r.calibration_state r.frozen_calibration t'
    → increment r (index_of r.layout p) ≡ returns r'
    → IsSound n r' (t' ∷ rest)
count-IsSound n r r' t t' rest p s h off same k run =
    subst (λ x. IsSound n x (t' ∷ rest)) (increment_inv n r r' p s.ready h run)
      (counted-IsSound n r t t' rest p s h off same k)

pub sampled-IsThread : (n : ℕ) (v : Valid) → IsCall n v → AreEarly n (sampled_places v)
sampled-IsThread n v c =
    AreEarly-append n (collecting_places v.stage v.later v.before_ns v.local_ns (cumulative_of v))
      (outcome_places v.stage v.outcome)
      (collecting_places-AreEarly n v.stage v.later v.before_ns v.local_ns (cumulative_of v) c.0)
      (outcome_places-AreEarly n v.stage v.outcome c.0)

pub skipped-IsThread : (n : ℕ) (v : Valid) → IsCall n v → AreEarly n (skipped_places v)
skipped-IsThread n v c =
    let after = outcome_places-AreEarly n v.stage v.outcome c.0 in ((tt, after.0), (refl, after.1))

pub classified-ArePlaces :
    (n : ℕ) (r : Inner) (v : Valid) → IsCall n v → ArePlaces n (classified_places r v)
classified-ArePlaces n r v c =
    ArePlaces-append n _ _
      (online_places-ArePlaces n r v.started v.stage v.later v.before_ns v.local_ns
        (cumulative_of v) c.0)
      (outcome_places-AreEarly n v.stage v.outcome c.0).0

-- The only exchange that wins finds the recorder collecting.
pub claim_inv :
    (r r' : Inner)
    → claim r ≡ returns (ok r')
    → (r.calibration_state ≡ 0) × (record r { calibration_state = freezing } ≡ r')
unfolding claim state_error
claim_inv r r' h = elim (Bool-cases (r.calibration_state == 0)) [
  | inl free ↦ (
    (==_iff _ 0).0 free,
    (let k : returns (ok (record r { calibration_state = freezing })) ≡ returns (ok r') =
          (rw free at h) in
        cc),
  )
  | inr busy ↦ elim (Bool-cases (r.calibration_state == 1)) [
    | inl one ↦
        let w : returns (err already_freezing) ≡ returns (ok r') = (rw (busy, one) at h) in
        absurd cc
    | inr more ↦ elim (Bool-cases (r.calibration_state == 2)) [
      | inl two ↦
          let w : returns (err already_frozen) ≡ returns (ok r') = (rw (busy, more, two) at h) in
          absurd cc
      | inr odd ↦ let w : panic ≡ returns (ok r') = (rw (busy, more, odd) at h) in absurd cc
    ]
  ]
]

pub claimed-IsSound :
    (n minimum : ℕ) (r r' : Inner) (rest : List Thread)
    → IsSound n r (claiming minimum ∷ rest)
    → claim r ≡ returns (ok r')
    → IsSound n r' (rescanning minimum ∷ rest)
claimed-IsSound n minimum r r' rest s run =
    let (free, e) = claim_inv r r' run in
    let others : holders rest ≡ 0 = ground (arith, s.alone) in
    subst (λ x. IsSound n x (rescanning minimum ∷ rest)) e
      (record {
        ready = record {
          layout_ok = s.ready.layout_ok;
          sized = s.ready.sized;
          cells = s.ready.cells;
          state_ok = omega arith;
          usable = s.ready.usable;
        };
        quantile = s.quantile;
        running = (
          s.empty free,
          AreThreads-others n _ 1 _ _ rest others (λ two. omega arith) s.running.1,
        );
        alone = omega arith;
        empty = λ zeroed. absurd (omega arith);
        full = λ two. absurd (omega arith);
        quiet = λ thawed. s.quiet (λ two. omega arith);
      })

pub restored-IsSound :
    (n : ℕ) (e : FreezeError) (r : Inner) (rest : List Thread)
    → IsSound n r (restoring e ∷ rest)
    → IsSound n (restore_collecting r) (stopped (err e) ∷ rest)
restored-IsSound n e r rest s =
    let one : r.calibration_state ≡ 1 = ground (arith, s.alone) in
    let others : holders rest ≡ 0 = ground (arith, s.alone) in
    record {
      ready = record {
        layout_ok = s.ready.layout_ok;
        sized = s.ready.sized;
        cells = s.ready.cells;
        state_ok = omega arith;
        usable = s.ready.usable;
      };
      quantile = s.quantile;
      running = (tt, AreThreads-others n _ 0 _ _ rest others (λ two. omega arith) s.running.1);
      alone = omega arith;
      empty = λ zeroed. s.running.0;
      full = λ two. absurd (omega arith);
      quiet = λ thawed. s.quiet (λ two. omega arith);
    }

pub frozen-IsSound :
    (n : ℕ) (all : List StageReport) (r : Inner) (rest : List Thread)
    → IsSound n r (publishing all [] ∷ rest)
    → IsSound n
        (record r { calibration_state = frozen })
        (stopped (ok (record { stages = all })) ∷ rest)
frozen-IsSound n all r rest s =
    let one : r.calibration_state ≡ 1 = ground (arith, s.alone) in
    let others : holders rest ≡ 0 = ground (arith, s.alone) in
    record {
      ready = record {
        layout_ok = s.ready.layout_ok;
        sized = s.ready.sized;
        cells = s.ready.cells;
        state_ok = omega arith;
        usable = s.ready.usable;
      };
      quantile = s.quantile;
      running = (
        (refl, all_reported n s.ready.cells s.running.0),
        AreThreads-others n _ 2 _ _ rest others (λ two. omega arith) s.running.1,
      );
      alone = omega arith;
      empty = λ zeroed. absurd (omega arith);
      full = λ two. all_published n s.running.0;
      quiet = λ thawed. absurd (thawed refl);
    }
  where
    nothing_left :
        (count : ℕ) (g : ℕ → StageReport) (first : ℕ)
        → [] ≡ map g (range_from first count)
        → count ≡ 0
    nothing_left zero g first e = refl
    nothing_left (suc count) g first e = absurd cc

    complete : {cells : Cells} (n : ℕ) (h : IsHalfway n cells all []) → h.first ≡ n
    complete n h =
        let z = nothing_left h.count h.reports h.first h.is_left in let w = h.whole in omega arith

    all_published : {cells : Cells} (n : ℕ) → IsHalfway n cells all [] → ArePublished n cells
    all_published n h j k = (_, h.published j (omega (arith, complete n h)))

    all_reported :
        {cells : Cells} (n : ℕ)
        → length cells ≡ n
        → IsHalfway n cells all []
        → published_reports cells ≡ all
    all_reported {cells} n sized h =
        published_reports-range cells h.reports 0 (λ j k.
          let e : 0 + j ≡ j = omega arith in rw e (h.published j (omega (arith, complete n h))))
        ∙ (rw sized (sym h.is_all))

-- The next report goes to the first cell that nothing was published in.
pub published-IsSound :
    (n : ℕ) (all reports : List StageReport) (report : StageReport) (r : Inner) (cells : Cells)
    (rest : List Thread)
    → IsSound n r (publishing all (report ∷ reports) ∷ rest)
    → publish (report ∷ []) r.frozen_calibration ≡ returns cells
    → IsSound n (record r { frozen_calibration = cells }) (publishing all reports ∷ rest)
published-IsSound n all reports report r cells rest s run =
    let one : r.calibration_state ≡ 1 = ground (arith, s.alone) in
    let others : holders rest ≡ 0 = ground (arith, s.alone) in
    let (sized, usable, halfway) =
      publish_next-IsHalfway n report all reports r.frozen_calibration cells s.ready.cells
        s.ready.usable s.running.0 run in
    record {
      ready = record {
        layout_ok = s.ready.layout_ok;
        sized = s.ready.sized;
        cells = sized;
        state_ok = s.ready.state_ok;
        usable = usable;
      };
      quantile = s.quantile;
      running = (
        halfway,
        AreThreads-others n _ r.calibration_state _ _ rest others (λ two. omega arith) s.running.1,
      );
      alone = s.alone;
      empty = λ zeroed. absurd (omega arith);
      full = λ two. absurd (omega arith);
      quiet = s.quiet;
    }

pub early_places-AreEarly : (n : ℕ) (v : Valid) → IsCall n v → AreEarly n (early_places v)
early_places-AreEarly n v c =
    AreEarly-append n (overflow_places v.before_ns v.local_ns v.overflowed)
      (bucket_places v.stage v.later v.before_ns v.local_ns (cumulative_of v))
      (overflow_places-AreEarly n v.before_ns v.local_ns v.overflowed)
      (bucket_places-AreEarly n v.stage v.later v.before_ns v.local_ns (cumulative_of v) c.0 c.1)
