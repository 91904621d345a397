-- ===== src/Threads/Tallies.antt =====
-- The account of a steady counter of src/recorder.rs through the accesses of marks and freezes.
use tracegrams.Recorder.{Inner}
use tracegrams.Threads.Moves.{claim_inv}
use tracegrams.Marks.Exist.{online_places-ArePlaces, collecting_places-AreEarly}
use tracegrams.Marks.Places.{online_places, collecting_places, outcome_places}
use tracegrams.Threads.Sound.{IsSound}
use tracegrams.Layout.Facts.{Place, anomaly, IsPlace, index_of, IsLayout}
use tracegrams.Threads.Progress.{IsOver}
use tracegrams.Threads.Safety.{
  to_mark, Reach-IsSound, IsSound-front, to_freeze, AreTasks, begin, Task,
}
use tracegrams.Threads.Counts.{
  online_places-AreUnsteady, moved-IsTally, collecting_places-AreUnsteady, all_owed-middle,
  counted-IsTally, hits-unsteady, hits-append, owed, AreUnsteady, IsTally, is_steady, all_owed,
}
use tracegrams.Layout.{Diagnostic, StorageLayout}
use tracegrams.Threads.{
  publishing, restoring, scanning, observing, looking, here, restore, store_frozen, publish_next,
  rescan_finite, rescan_terminal, rescan_unready, exchange_lost, claiming, rescanning, exchange_won,
  scan_ready, scan_unready, observe_taken, observe_open, look, load_frozen, load_freezing,
  cumulative_of, load_collecting, early_places, count_last, counting, stopped, next, step, count,
  ending, Reach, Move, Valid, Step, Thread,
}
use tracegrams.Float.{Float}
use tracegrams.Recorder.Bumps.{ArePlaces, hits}
use mathlib.Core.Path.{subst}
use tracegrams.Prelude.{
  ◌%◌, ◌++◌, ◌+◌, ◌<◌, ◌^◌, ◌∙◌, ◌∷◌, ◌≡◌, List, [], ap, arith, get_or, map, refl, sym, true, ℕ,
}

module _ ⦃float : Float⦄ (n : ℕ) (l : StorageLayout) (p : Place) (v : IsLayout n l)
    (h : IsPlace n p) (steady : is_steady p ≡ true) (total : ℕ) where
  abbrev index : ℕ
  index = index_of l p

  -- After the load of the state, a mark owes its outcome only.
  owed-late :
      (ps : List Place) (call : Valid)
      → ArePlaces n ps
      → AreUnsteady ps
      → owed l index (ending (ps ++ outcome_places call.stage call.outcome))
        ≡ hits l index (outcome_places call.stage call.outcome)
  owed-late ps call a u =
      let appended = hits-append l index ps (outcome_places call.stage call.outcome) in
      omega (arith, appended, hits-unsteady n l p ps v h steady a u)

  Move-IsTally :
      {r r' : Inner} {t t' : Thread} (rest : List Thread)
      → Move n r t r' t'
      → IsSound n r (t ∷ rest)
      → IsTally l index total r (t ∷ rest)
      → IsTally l index total r' (t' ∷ rest)
  unfolding hits
  Move-IsTally {r} rest (count {p = q} {ps = ps} {v = call} run) s y =
      counted-IsTally n index total l r _ _ (counting ps call) rest q s.ready s.running.0.0.0.0 run
        (omega arith) y
  Move-IsTally {r} rest (count_last {p = q} {ps = ps} run) s y =
      counted-IsTally n index total l r _ _ (ending ps) rest q s.ready s.running.0.0.0 run refl y
  Move-IsTally {r} rest (load_collecting {v = call} e) s y =
      let places =
        collecting_places call.stage call.later call.before_ns call.local_ns (cumulative_of call) in
      let early =
        collecting_places-AreEarly n call.stage call.later call.before_ns call.local_ns
          (cumulative_of call) s.running.0.1.0 in
      let late = owed-late places call early.0 (
        collecting_places-AreUnsteady call.stage call.later call.before_ns call.local_ns
          (cumulative_of call)) in
      moved-IsTally index total l r r _ _ rest refl refl (late ∙ omega arith) y
  Move-IsTally {r} rest (load_freezing {v = call} e) s y =
      let late =
        owed-late (anomaly Diagnostic.calibration_samples_skipped_while_freezing ∷ []) call (tt, tt)
          (refl, tt) in
      moved-IsTally index total l r r _ _ rest refl refl (late ∙ omega arith) y
  Move-IsTally {r} rest (load_frozen e) s y =
      moved-IsTally index total l r r _ _ rest refl refl (omega arith) y
  Move-IsTally {r} rest (look {v = call} run) s y =
      let places =
        online_places r call.started call.stage call.later call.before_ns call.local_ns
          (cumulative_of call) in
      let late =
        owed-late places call
          (online_places-ArePlaces n r call.started call.stage call.later call.before_ns
            call.local_ns (cumulative_of call) s.running.0.0.0)
          (online_places-AreUnsteady r call.started call.stage call.later call.before_ns
            call.local_ns (cumulative_of call)) in
      moved-IsTally index total l r r _ _ rest refl refl late y
  Move-IsTally {r} rest (observe_open e) s y =
      moved-IsTally index total l r r _ _ rest refl refl refl y
  Move-IsTally {r} rest (observe_taken e run) s y =
      moved-IsTally index total l r r _ _ rest refl refl refl y
  Move-IsTally {r} rest (scan_unready counts a e) s y =
      moved-IsTally index total l r r _ _ rest refl refl refl y
  Move-IsTally {r} rest (scan_ready counts a e) s y =
      moved-IsTally index total l r r _ _ rest refl refl refl y
  Move-IsTally {r} rest (exchange_won {minimum} {r'} run) s y =
      let (free, e) = claim_inv r r' run in
      subst (λ x. IsTally l index total x (rescanning minimum ∷ rest)) e
        (moved-IsTally index total l r _ (claiming minimum) (rescanning minimum) rest refl refl refl
          y)
  Move-IsTally {r} rest (exchange_lost run) s y =
      moved-IsTally index total l r r _ _ rest refl refl refl y
  Move-IsTally {r} rest (rescan_unready counts a e) s y =
      moved-IsTally index total l r r _ _ rest refl refl refl y
  Move-IsTally {r} rest (rescan_terminal counts t a e run f) s y =
      moved-IsTally index total l r r _ _ rest refl refl refl y
  Move-IsTally {r} rest (rescan_finite counts a e run f) s y =
      moved-IsTally index total l r r _ _ rest refl refl refl y
  Move-IsTally {r} rest restore s y = moved-IsTally index total l r _ _ _ rest refl refl refl y
  Move-IsTally {r} rest (publish_next run) s y =
      moved-IsTally index total l r _ _ _ rest refl refl refl y
  Move-IsTally {r} rest store_frozen s y = moved-IsTally index total l r _ _ _ rest refl refl refl y

  Step-IsTally :
      {r r' : Inner} {threads threads' : List Thread}
      → Step n r threads r' threads'
      → IsSound n r threads
      → IsTally l index total r threads
      → IsTally l index total r' threads'
  Step-IsTally {r} {r'} (step {t} {t'} before after e e' m) s y =
      let front = IsSound-front n r before after t (subst (IsSound n r) e s) in
      let whole : all_owed l index (t ∷ (before ++ after)) ≡ all_owed l index _ =
        sym (all_owed-middle l index before after t) ∙ ap (all_owed l index) (sym e) in
      let moved =
        Move-IsTally (before ++ after) m front
          (record { layout = y.layout; small = y.small; sums = rw whole y.sums }) in
      let back = all_owed-middle l index before after t' in
      subst (IsTally l index total r') (sym e')
        (record { layout = moved.layout; small = moved.small; sums = rw back moved.sums })

  pub Reach-IsTally :
      {r : Inner} (tasks : List Task) {r' : Inner} {threads : List Thread}
      → IsSound n r []
      → AreTasks n tasks
      → IsTally l index total r (map begin tasks)
      → Reach n r (map begin tasks) r' threads
      → IsTally l index total r' threads
  Reach-IsTally tasks s a y here = y
  Reach-IsTally tasks s a y (next before last) =
      Step-IsTally last (Reach-IsSound tasks s a before) (Reach-IsTally tasks s a y before)

-- How often tasks are specified to count at a place: a freeze never does.
pub task_hits : StorageLayout → Place → List Task → ℕ
task_hits l p [] = 0
task_hits l p (to_freeze minimum ∷ tasks) = task_hits l p tasks
task_hits l p (to_mark v ∷ tasks) =
    hits l (index_of l p) (early_places v ++ outcome_places v.stage v.outcome) + task_hits l p tasks

all_owed-begin :
    (l : StorageLayout) (p : Place) (tasks : List Task)
    → all_owed l (index_of l p) (map begin tasks) ≡ task_hits l p tasks
unfolding task_hits
all_owed-begin l p [] = refl
all_owed-begin l p (to_freeze minimum ∷ tasks) = omega (arith, all_owed-begin l p tasks)
all_owed-begin l p (to_mark v ∷ tasks) =
    let joined = hits-append l (index_of l p) (early_places v) (outcome_places v.stage v.outcome) in
    omega (arith, all_owed-begin l p tasks)

abbrev pub AreOver : List Thread → Type 0
AreOver [] = Unit
AreOver (t ∷ ts) = IsOver t × AreOver ts

owed-over : (l : StorageLayout) (j : ℕ) (t : Thread) → IsOver t → owed l j t ≡ 0
unfolding hits
owed-over l j (ending []) over = refl
owed-over l j (stopped result) over = refl
owed-over l j (ending (q ∷ ps)) over = absurd over
owed-over l j (counting ps v) over = absurd over
owed-over l j (looking v) over = absurd over
owed-over l j (observing m) over = absurd over
owed-over l j (scanning m) over = absurd over
owed-over l j (claiming m) over = absurd over
owed-over l j (rescanning m) over = absurd over
owed-over l j (restoring e) over = absurd over
owed-over l j (publishing all reports) over = absurd over

all_owed-over :
    (l : StorageLayout) (j : ℕ) (threads : List Thread) → AreOver threads → all_owed l j threads ≡ 0
all_owed-over l j [] over = refl
all_owed-over l j (t ∷ ts) over = omega (arith, owed-over l j t over.0, all_owed-over l j ts over.1)

-- When any number of threads have recorded valid marks and tried to freeze a sound recorder, in any
-- interleaving, and all are over, every counter of a distribution, a matrix, a completion or an
-- overflow has grown by exactly the number of times that the marks are specified to count there,
-- modulo 2 ^ 64: no increment is lost and none counts twice.
pub Reach-counts :
    ⦃float : Float⦄
    → (n : ℕ) (r r' : Inner) (tasks : List Task) (threads : List Thread) (p : Place)
    → IsSound n r []
    → AreTasks n tasks
    → Reach n r (map begin tasks) r' threads
    → AreOver threads
    → IsPlace n p
    → is_steady p ≡ true
    → get_or r.counters (index_of r.layout p) 0 < 2 ^ 64
    → get_or r'.counters (index_of r.layout p) 0
      ≡ (get_or r.counters (index_of r.layout p) 0 + task_hits r.layout p tasks) % 2 ^ 64
Reach-counts n r r' tasks threads p s a run over h steady small =
    let total = get_or r.counters (index_of r.layout p) 0 + task_hits r.layout p tasks in
    let due = all_owed-begin r.layout p tasks in
    let tally =
      Reach-IsTally n r.layout p s.ready.layout_ok h steady total tasks s a
        (record { layout = refl; small = small; sums = rw due refl }) run in
    omega
      (arith, tally.small, tally.sums, all_owed-over r.layout (index_of r.layout p) threads over)
