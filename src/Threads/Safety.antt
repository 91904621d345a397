-- ===== src/Threads/Safety.antt =====
-- Interleavings of marks of src/context.rs and freezes of src/calibration.rs on a sound recorder.
use tracegrams.Calibration.{StageReport}
use tracegrams.Layout.{Population}
use tracegrams.Freeze.{first_unready, first_terminal}
use tracegrams.Threads.Moves.{
  frozen-IsSound, published-IsSound, restored-IsSound, claimed-IsSound, classified-ArePlaces,
  skipped-IsThread, sampled-IsThread, count-IsSound, early_places-AreEarly,
}
use tracegrams.Freeze.Derive.{IsReadable, stage_report_of-IsUsable, stage_report_of, derive_lem}
use tracegrams.Rank.Exact.{IsTailQuantile}
use tracegrams.Float.{Float}
use tracegrams.Recorder.{Inner}
use tracegrams.Threads.{
  Valid, marking, here, store_frozen, publish_next, restore, rescan_finite, rescan_terminal,
  rescan_unready, exchange_lost, exchange_won, scan_ready, scan_unready, observe_taken,
  observe_open, count_last, look, load_frozen, next, load_freezing, load_collecting, observing,
  count, step, reports_of, scans_of, Reach, Step, Move, Thread,
}
use tracegrams.Threads.Sound.{
  moved-IsSound, IsCall, IsHalfway, AreEmpty, AreThreads, IsSound, holders, Cells,
}
use mathlib.Core.Path.{subst}
use tracegrams.Prelude.{
  ◌++◌, ◌∷◌, ◌≡◌, List, [], arith, inl, inr, map, none, range, refl, returns, sym, ℕ,
}

module _ ⦃float : Float⦄ where
  -- What a scan that is ready and finite derives can be published from the first cell on.
  derived-IsHalfway :
      (n minimum : ℕ) (r : Inner) (reports : List StageReport) (counts : ℕ → Population → List ℕ)
      → IsTailQuantile r.tail_quantile
      → AreEmpty r.frozen_calibration
      → IsReadable n counts
      → first_unready (scans_of n r.cookie counts) minimum ≡ none
      → reports_of r n counts ≡ returns reports
      → first_terminal reports ≡ none
      → IsHalfway n r.frozen_calibration reports reports
  derived-IsHalfway n minimum r reports counts q empty readable ready run finite =
      let derived = derive_lem n r.cookie r.tail_quantile q counts readable in
      let report_of = stage_report_of n r.cookie r.tail_quantile q counts readable in
      let e : map report_of (range n) ≡ reports = cc in
      record {
        reports = report_of;
        first = 0;
        count = n;
        whole = omega arith;
        is_all = sym e;
        is_left = sym e;
        at_index = λ j. refl;
        good = λ j h.
            stage_report_of-IsUsable n r.cookie r.tail_quantile q counts readable minimum j ready
              (rw e finite) h;
        published = λ j h. absurd (omega arith);
        fresh = λ j h. empty j;
      }

  Move-IsSound :
      {n : ℕ} {r r' : Inner} {t t' : Thread} (rest : List Thread)
      → Move n r t r' t'
      → IsSound n r (t ∷ rest)
      → IsSound n r' (t' ∷ rest)
  Move-IsSound {n} {r} rest (count {p} run) s =
      let (early, call) = s.running.0 in
      count-IsSound n r _ _ _ rest p s early.0.0 (inl early.1.0) refl ((early.0.1, early.1.1), call)
        run
  Move-IsSound {n} {r} rest (load_collecting {v} e) s =
      let places = sampled-IsThread n v s.running.0.1 in
      moved-IsSound n r _ _ rest s refl (places.0, inl places.1)
  Move-IsSound {n} {r} rest (load_freezing {v} e) s =
      let places = skipped-IsThread n v s.running.0.1 in
      moved-IsSound n r _ _ rest s refl (places.0, inl places.1)
  Move-IsSound {n} {r} rest (load_frozen e) s = moved-IsSound n r _ _ rest s refl (s.running.0.1, e)
  Move-IsSound {n} {r} rest (look {v} run) s =
      let (call, frozen_now) = s.running.0 in
      moved-IsSound n r _ _ rest s refl (classified-ArePlaces n r v call, inr frozen_now)
  Move-IsSound {n} {r} rest (count_last {p} run) s =
      let (places, off) = s.running.0 in
      elim off [
        | inl early ↦
            count-IsSound n r _ _ _ rest p s places.0 (inl early.0) refl (places.1, inl early.1) run
        | inr frozen_now ↦
            count-IsSound n r _ _ _ rest p s places.0 (inr frozen_now) refl
              (places.1, inr frozen_now) run
      ]
  Move-IsSound {n} {r} rest (observe_open e) s = moved-IsSound n r _ _ rest s refl tt
  Move-IsSound {n} {r} rest (observe_taken e run) s = moved-IsSound n r _ _ rest s refl tt
  Move-IsSound {n} {r} rest (scan_unready counts h e) s = moved-IsSound n r _ _ rest s refl tt
  Move-IsSound {n} {r} rest (scan_ready counts h e) s = moved-IsSound n r _ _ rest s refl tt
  Move-IsSound {n} {r} rest (exchange_won {minimum} run) s =
      claimed-IsSound n minimum r _ rest s run
  Move-IsSound {n} {r} rest (exchange_lost run) s = moved-IsSound n r _ _ rest s refl tt
  Move-IsSound {n} {r} rest (rescan_unready counts h e) s =
      moved-IsSound n r _ _ rest s refl s.running.0
  Move-IsSound {n} {r} rest (rescan_terminal counts t h e run f) s =
      moved-IsSound n r _ _ rest s refl s.running.0
  Move-IsSound {n} {r} rest (rescan_finite {minimum} {reports} counts h e run f) s =
      moved-IsSound n r _ _ rest s refl
        (derived-IsHalfway n minimum r reports counts s.quantile s.running.0 h e run f)
  Move-IsSound {n} {r} rest (restore {e}) s = restored-IsSound n e r rest s
  Move-IsSound {n} {r} rest (publish_next {all} {reports} {report} {cells} run) s =
      published-IsSound n all reports report r cells rest s run
  Move-IsSound {n} {r} rest (store_frozen {all}) s = frozen-IsSound n all r rest s

-- A thread can be brought to the front, and back.
holders-middle :
    (before after : List Thread) (t : Thread)
    → holders (before ++ (t ∷ after)) ≡ holders (t ∷ (before ++ after))
holders-middle [] after t = refl
holders-middle (b ∷ before) after t = omega (arith, holders-middle before after t)

AreThreads-front :
    (n state : ℕ) (cells : Cells) (before after : List Thread) (t : Thread)
    → AreThreads n state cells (before ++ (t ∷ after))
    → AreThreads n state cells (t ∷ (before ++ after))
AreThreads-front n state cells [] after t a = a
AreThreads-front n state cells (b ∷ before) after t a =
    let (front, rest) = AreThreads-front n state cells before after t a.1 in (front, (a.0, rest))

AreThreads-back :
    (n state : ℕ) (cells : Cells) (before after : List Thread) (t : Thread)
    → AreThreads n state cells (t ∷ (before ++ after))
    → AreThreads n state cells (before ++ (t ∷ after))
AreThreads-back n state cells [] after t a = a
AreThreads-back n state cells (b ∷ before) after t a =
    (a.1.0, AreThreads-back n state cells before after t (a.0, a.1.1))

pub IsSound-front :
    (n : ℕ) (r : Inner) (before after : List Thread) (t : Thread)
    → IsSound n r (before ++ (t ∷ after))
    → IsSound n r (t ∷ (before ++ after))
IsSound-front n r before after t s = record {
  ready = s.ready;
  quantile = s.quantile;
  running = AreThreads-front n _ _ before after t s.running;
  alone = omega (arith, s.alone, holders-middle before after t);
  empty = s.empty;
  full = s.full;
  quiet = s.quiet;
}

IsSound-back :
    (n : ℕ) (r : Inner) (before after : List Thread) (t : Thread)
    → IsSound n r (t ∷ (before ++ after))
    → IsSound n r (before ++ (t ∷ after))
IsSound-back n r before after t s = record {
  ready = s.ready;
  quantile = s.quantile;
  running = AreThreads-back n _ _ before after t s.running;
  alone = omega (arith, s.alone, holders-middle before after t);
  empty = s.empty;
  full = s.full;
  quiet = s.quiet;
}

-- What threads are started for.
pub data Task : Type 0 where
  to_mark : Valid → Task
  to_freeze : ℕ → Task

abbrev pub begin : Task → Thread
begin (to_mark v) = marking v
begin (to_freeze minimum) = observing minimum

abbrev pub AreTasks : ℕ → List Task → Type 0
AreTasks n [] = Unit
AreTasks n (to_mark v ∷ tasks) = IsCall n v × AreTasks n tasks
AreTasks n (to_freeze minimum ∷ tasks) = AreTasks n tasks

pub started-IsSound :
    (n : ℕ) (r : Inner) (tasks : List Task)
    → IsSound n r []
    → AreTasks n tasks
    → IsSound n r (map begin tasks)
started-IsSound n r [] s a = s
started-IsSound n r (to_mark v ∷ tasks) s a =
    let tail = started-IsSound n r tasks s a.1 in
    record {
      ready = tail.ready;
      quantile = tail.quantile;
      running = ((early_places-AreEarly n v a.0, a.0), tail.running);
      alone = omega (arith, tail.alone);
      empty = tail.empty;
      full = tail.full;
      quiet = tail.quiet;
    }
started-IsSound n r (to_freeze minimum ∷ tasks) s a =
    let tail = started-IsSound n r tasks s a in
    record {
      ready = tail.ready;
      quantile = tail.quantile;
      running = (tt, tail.running);
      alone = omega (arith, tail.alone);
      empty = tail.empty;
      full = tail.full;
      quiet = tail.quiet;
    }

module _ ⦃float : Float⦄ where
  pub Step-IsSound :
      {n : ℕ} {r r' : Inner} {threads threads' : List Thread}
      → Step n r threads r' threads'
      → IsSound n r threads
      → IsSound n r' threads'
  Step-IsSound {n} {r} {r'} (step {t} {t'} before after e e' m) s =
      let front = IsSound-front n r before after t (subst (IsSound n r) e s) in
      subst (IsSound n r') (sym e')
        (IsSound-back n r' before after t' (Move-IsSound (before ++ after) m front))

  -- From a sound recorder without threads, and any number of threads that start to record a valid mark or
  -- to freeze it, every interleaving of their accesses leads to a sound recorder: it is ready to
  -- record; at most one thread holds the freeze, and one does exactly while the state is freezing;
  -- nothing is published while it collects, usable thresholds are published for every stage once it is
  -- frozen, and no online cell has counted anything before.
  pub Reach-IsSound :
      {n : ℕ} {r : Inner} (tasks : List Task) {r' : Inner} {threads : List Thread}
      → IsSound n r []
      → AreTasks n tasks
      → Reach n r (map begin tasks) r' threads
      → IsSound n r' threads
  Reach-IsSound {n} {r} tasks s a here = started-IsSound n r tasks s a
  Reach-IsSound tasks s a (next before last) = Step-IsSound last (Reach-IsSound tasks s a before)
