-- ===== src/Threads/Frozen.antt =====
-- Frozen recorders and successful freezes of src/calibration.rs among threads.
use tracegrams.Calibration.{FreezeReport}
use tracegrams.Freeze.{frozen_calibration_report}
use tracegrams.Threads.Safety.{
  to_freeze, to_mark, Reach-IsSound, begin, AreTasks, Task, Step-IsSound, IsSound-front,
}
use tracegrams.Threads.Moves.{claim_inv, increment_inv}
use tracegrams.Layout.Facts.{Place, index_of, IsPlace}
use tracegrams.Threads.Sound.{IsSound}
use tracegrams.Recorder.Bumps.{IsReady, bumped}
use tracegrams.Threads.{
  Step, here, look, restore, store_frozen, rescan_finite, rescan_terminal, rescan_unready,
  exchange_lost, scan_ready, scan_unready, observe_taken, observe_open, load_frozen, load_freezing,
  load_collecting, publish_next, exchange_won, count_last, step, count, next, stopped, Reach, Move,
  Thread,
}
use tracegrams.Recorder.{increment, Inner}
use tracegrams.Float.{Float}
use mathlib.Core.Path.{subst}
use tracegrams.Prelude.{
  ◌++◌, ◌+◌, ◌==◌, ◌∙◌, ◌∷◌, ◌≡◌, ◌≢◌, List, [], ap, arith, from_bool, map, ok, refl, returns, some,
  sym, true, ℕ,
}

-- The freezes that returned a report.
abbrev pub succeeded : Thread → ℕ
succeeded (stopped (ok _)) = 1
succeeded _ = 0

abbrev pub successes : List Thread → ℕ
successes [] = 0
successes (t ∷ ts) = succeeded t + successes ts

-- What a frozen recorder never changes again.
pub record IsFinal (r r' : Inner) : Type 0 where
  pub state : r'.calibration_state ≡ 2
  pub cells : r'.frozen_calibration ≡ r.frozen_calibration

module _ ⦃float : Float⦄ where
  increment-same :
      (n : ℕ) (r r' : Inner) (p : Place)
      → IsReady n r
      → IsPlace n p
      → increment r (index_of r.layout p) ≡ returns r'
      → (r'.calibration_state ≡ r.calibration_state)
        × (r'.frozen_calibration ≡ r.frozen_calibration)
  unfolding bumped
  increment-same n r r' p v h run =
      let e = increment_inv n r r' p v h run in
      subst
        (λ x.
          (x.calibration_state ≡ r.calibration_state)
          × (x.frozen_calibration ≡ r.frozen_calibration))
        e (refl, refl)

  Move-IsFinal :
      {n : ℕ} {r r' : Inner} {t t' : Thread} (rest : List Thread)
      → Move n r t r' t'
      → IsSound n r (t ∷ rest)
      → r.calibration_state ≡ 2
      → IsFinal r r'
  Move-IsFinal {n} {r} rest (count {p} run) s h =
      let same = increment-same n r _ p s.ready s.running.0.0.0.0 run in
      record { state = same.0 ∙ h; cells = same.1 }
  Move-IsFinal {n} {r} rest (count_last {p} run) s h =
      let same = increment-same n r _ p s.ready s.running.0.0.0 run in
      record { state = same.0 ∙ h; cells = same.1 }
  Move-IsFinal {n} {r} rest (exchange_won run) s h =
      let (free, e) = claim_inv r _ run in absurd (omega arith)
  Move-IsFinal rest restore s h = absurd (ground (arith, s.alone))
  Move-IsFinal rest (publish_next run) s h = absurd (ground (arith, s.alone))
  Move-IsFinal rest store_frozen s h = absurd (ground (arith, s.alone))
  Move-IsFinal rest (load_collecting e) s h = record { state = h; cells = refl }
  Move-IsFinal rest (load_freezing e) s h = record { state = h; cells = refl }
  Move-IsFinal rest (load_frozen e) s h = record { state = h; cells = refl }
  Move-IsFinal rest (look run) s h = record { state = h; cells = refl }
  Move-IsFinal rest (observe_open e) s h = record { state = h; cells = refl }
  Move-IsFinal rest (observe_taken e run) s h = record { state = h; cells = refl }
  Move-IsFinal rest (scan_unready counts a e) s h = record { state = h; cells = refl }
  Move-IsFinal rest (scan_ready counts a e) s h = record { state = h; cells = refl }
  Move-IsFinal rest (exchange_lost run) s h = record { state = h; cells = refl }
  Move-IsFinal rest (rescan_unready counts a e) s h = record { state = h; cells = refl }
  Move-IsFinal rest (rescan_terminal counts t a e run f) s h = record { state = h; cells = refl }
  Move-IsFinal rest (rescan_finite counts a e run f) s h = record { state = h; cells = refl }

  -- Once a sound recorder is frozen, no interleaving of marks and freezes changes its state or any
  -- published threshold.
  pub Reach-IsFinal :
      {n : ℕ} {r : Inner} {threads : List Thread} {r' : Inner} {threads' : List Thread}
      → IsSound n r threads
      → r.calibration_state ≡ 2
      → Reach n r threads r' threads'
      → IsFinal r r'
  Reach-IsFinal {n} {r} {threads} s h run = (go run).1
    where
      go :
          {r' : Inner} {threads' : List Thread}
          → Reach n r threads r' threads'
          → IsSound n r' threads' × IsFinal r r'
      go here = (s, record { state = h; cells = refl })
      go (next before (step {t} {t'} others after e e' m)) =
          let (sound, final) = go before in
          let front = IsSound-front _ _ others after t (subst (IsSound _ _) e sound) in
          let last = Move-IsFinal (others ++ after) m front final.state in
          (
            Step-IsSound (step others after e e' m) sound,
            record { state = last.state; cells = last.cells ∙ final.cells },
          )

  increment-keeps :
      (n : ℕ) (r r' : Inner) (p : Place)
      → IsReady n r
      → IsPlace n p
      → increment r (index_of r.layout p) ≡ returns r'
      → from_bool (r'.calibration_state == 2) ≡ from_bool (r.calibration_state == 2)
  increment-keeps n r r' p v h run =
      ap (λ x. from_bool (x == 2)) (increment-same n r r' p v h run).0

  Move-succeeded :
      {n : ℕ} {r r' : Inner} {t t' : Thread} (rest : List Thread)
      → Move n r t r' t'
      → IsSound n r (t ∷ rest)
      → succeeded t' + from_bool (r.calibration_state == 2)
        ≡ succeeded t + from_bool (r'.calibration_state == 2)
  Move-succeeded {n} {r} rest (count {p} run) s =
      omega (arith, increment-keeps n r _ p s.ready s.running.0.0.0.0 run)
  Move-succeeded {n} {r} rest (count_last {p} run) s =
      omega (arith, increment-keeps n r _ p s.ready s.running.0.0.0 run)
  Move-succeeded {n} {r} rest (exchange_won {minimum} {r'} run) s =
      let (free, e) = claim_inv r r' run in
      subst
        (λ x. 0 + from_bool (r.calibration_state == 2) ≡ 0 + from_bool (x.calibration_state == 2)) e
        (ground (arith, free))
  Move-succeeded rest restore s = ground (arith, s.alone)
  Move-succeeded rest store_frozen s = ground (arith, s.alone)
  Move-succeeded rest (publish_next run) s = refl
  Move-succeeded rest (load_collecting e) s = refl
  Move-succeeded rest (load_freezing e) s = refl
  Move-succeeded rest (load_frozen e) s = refl
  Move-succeeded rest (look run) s = refl
  Move-succeeded rest (observe_open e) s = refl
  Move-succeeded rest (observe_taken e run) s = refl
  Move-succeeded rest (scan_unready counts a e) s = refl
  Move-succeeded rest (scan_ready counts a e) s = refl
  Move-succeeded rest (exchange_lost run) s = refl
  Move-succeeded rest (rescan_unready counts a e) s = refl
  Move-succeeded rest (rescan_terminal counts t a e run f) s = refl
  Move-succeeded rest (rescan_finite counts a e run f) s = refl

successes-middle :
    (before after : List Thread) (t : Thread)
    → successes (before ++ (t ∷ after)) ≡ succeeded t + successes (before ++ after)
successes-middle [] after t = refl
successes-middle (b ∷ before) after t = omega (arith, successes-middle before after t)

successes-begin : (tasks : List Task) → successes (map begin tasks) ≡ 0
successes-begin [] = refl
successes-begin (to_mark v ∷ tasks) = omega (arith, successes-begin tasks)
successes-begin (to_freeze minimum ∷ tasks) = omega (arith, successes-begin tasks)

IsSound-report :
    (n : ℕ) (r : Inner) (threads before after : List Thread) (report : FreezeReport)
    → IsSound n r threads
    → threads ≡ before ++ (stopped (ok report) ∷ after)
    → frozen_calibration_report r ≡ some report
unfolding frozen_calibration_report
IsSound-report n r threads before after report s e =
    let front = IsSound-front n r before after (stopped (ok report)) (subst (IsSound n r) e s) in
    let frozen_now : (r.calibration_state == 2) ≡ true = ground (arith, front.running.0.0) in
    rw frozen_now (ap (λ x. some (record { stages = x })) front.running.0.1)

module _ ⦃float : Float⦄ where
  Step-successes :
      {n : ℕ} {r r' : Inner} {threads threads' : List Thread}
      → Step n r threads r' threads'
      → IsSound n r threads
      → successes threads ≡ from_bool (r.calibration_state == 2)
      → successes threads' ≡ from_bool (r'.calibration_state == 2)
  Step-successes {n} {r} (step {t} {t'} before after e e' m) s h =
      let front = IsSound-front n r before after t (subst (IsSound n r) e s) in
      let moved = Move-succeeded (before ++ after) m front in
      let was = successes-middle before after t in
      let is = successes-middle before after t' in
      let h₀ : succeeded t + successes (before ++ after) ≡ from_bool (r.calibration_state == 2) =
        sym was ∙ (ap successes (sym e) ∙ h) in
      ap successes e' ∙ (omega (arith, moved, is, h₀))

  -- From a sound recorder that is not frozen, with any threads that mark and freeze it, in any
  -- interleaving: as many freezes have succeeded as the state says, one if it is frozen and none if it
  -- is not, and the report that a freeze returned is the one that the recorder shows.
  pub Reach-successes :
      {n : ℕ} {r : Inner} (tasks : List Task) {r' : Inner} {threads : List Thread}
      → IsSound n r []
      → r.calibration_state ≢ 2
      → AreTasks n tasks
      → Reach n r (map begin tasks) r' threads
      → (successes threads ≡ from_bool (r'.calibration_state == 2))
        × ((before after : List Thread) (report : FreezeReport)
            → threads ≡ before ++ (stopped (ok report) ∷ after)
            → frozen_calibration_report r' ≡ some report)
  Reach-successes {n} {r} tasks s thawed a run = (
    go run,
    λ before after report e.
        IsSound-report n _ _ before after report (Reach-IsSound tasks s a run) e,
  )
    where
      go :
          {r' : Inner} {threads : List Thread}
          → Reach n r (map begin tasks) r' threads
          → successes threads ≡ from_bool (r'.calibration_state == 2)
      go here = ground (arith, successes-begin tasks, thawed)
      go (next before last) = Step-successes last (Reach-IsSound tasks s a before) (go before)
