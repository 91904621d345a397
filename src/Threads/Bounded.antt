-- ===== src/Threads/Bounded.antt =====
-- How many accesses marks of src/context.rs and freezes of src/calibration.rs have left.
use tracegrams.Marks.Places.{online_places, outcome_places, collecting_places}
use tracegrams.Freeze.Derive.{stage_scan}
use tracegrams.Freeze.{map_run}
use tracegrams.Threads.{
  publish_next, here, restore, store_frozen, scans_of, rescan_finite, rescan_terminal,
  rescan_unready, exchange_lost, exchange_won, scan_ready, stopped, publishing, scan_unready,
  restoring, observe_taken, rescanning, observe_open, claiming, count_last, scanning, look,
  observing, load_frozen, load_freezing, ending, looking, load_collecting, counting, next, step,
  count, cumulative_of, sampled_places, Reach, Step, Move, Valid, Thread,
}
use tracegrams.Float.{Float}
use tracegrams.Context.{Outcome}
use tracegrams.Recorder.{Inner}
use tracegrams.Prelude.{
  ◌++◌, ◌+◌, ◌<◌, ◌>>=◌, ◌∷◌, ◌≡◌, ◌≤◌, >>=-eq-returns, Bool, List, Option, Option-cases, Run, [],
  ap, arith, false, get_or, inl, inr, length, length-append, length-map, length-range_from, none,
  range, refl, returns, some, suc, true, ℕ,
}

-- The most accesses that a thread has left.
abbrev pub left : ℕ → Thread → ℕ
left n (counting ps v) = length ps + 5
left n (looking v) = 3
left n (ending ps) = length ps
left n (observing _) = n + 5
left n (scanning _) = n + 4
left n (claiming _) = n + 3
left n (rescanning _) = n + 2
left n (restoring _) = 1
left n (publishing _ reports) = length reports + 1
left n (stopped _) = 0

abbrev pub all_left : ℕ → List Thread → ℕ
all_left n [] = 0
all_left n (t ∷ ts) = left n t + all_left n ts

length-outcome_places : (stage : ℕ) (o : Option Outcome) → length (outcome_places stage o) ≤ 1
length-outcome_places stage none = omega arith
length-outcome_places stage (some o) = omega arith

length-sampled_places : (v : Valid) → length (sampled_places v) ≤ 4
length-sampled_places v = go v.later
  where
    go :
        (later : Bool)
        → length (
            collecting_places v.stage later v.before_ns v.local_ns (cumulative_of v)
            ++ outcome_places v.stage v.outcome)
          ≤ 4
    go true = omega (arith, length-outcome_places v.stage v.outcome)
    go false = omega (arith, length-outcome_places v.stage v.outcome)

length-online_places :
    (r : Inner) (started : Bool) (stage : ℕ) (later : Bool) (before_ns local_ns cumulative_ns : ℕ)
    → length (online_places r started stage later before_ns local_ns cumulative_ns) ≤ 1
length-online_places r false stage later before_ns local_ns cumulative_ns = omega arith
length-online_places r true stage later before_ns local_ns cumulative_ns =
    elim (Option-cases (get_or r.frozen_calibration stage none)) [
      | inl e ↦ rw e (omega arith)
      | inr (c, e) ↦ rw e (omega arith)
    ]

length-map_run :
    {A B : Type 0} (f : A → Run B) (xs : List A) (ys : List B)
    → map_run f xs ≡ returns ys
    → length ys ≡ length xs
unfolding map_run
length-map_run f [] ys h = let e : [] ≡ ys = cc in rw (← e) refl
length-map_run f (x ∷ xs) ys h =
    let (y, first, rest) = >>=-eq-returns (f x) (λ y. map_run f xs >>= λ zs. returns (y ∷ zs)) h in
    let (zs, run, last) = >>=-eq-returns (map_run f xs) (λ zs. returns (y ∷ zs)) rest in
    let e : y ∷ zs ≡ ys = cc in rw (← e) (ap suc (length-map_run f xs zs run))

module _ ⦃float : Float⦄ where
  Move-left : {n : ℕ} {r r' : Inner} {t t' : Thread} → Move n r t r' t' → left n t' < left n t
  Move-left (count run) = omega arith
  Move-left (load_collecting {v} e) = omega (arith, length-sampled_places v)
  Move-left (load_freezing {v} e) = omega (arith, length-outcome_places v.stage v.outcome)
  Move-left (load_frozen e) = omega arith
  Move-left {r = r} (look {v} run) =
      let online =
        length-online_places r v.started v.stage v.later v.before_ns v.local_ns (cumulative_of v) in
      let joined =
        length-append
          (online_places r v.started v.stage v.later v.before_ns v.local_ns (cumulative_of v))
          (outcome_places v.stage v.outcome) in
      omega (arith, length-outcome_places v.stage v.outcome)
  Move-left (count_last run) = omega arith
  Move-left (observe_open e) = omega arith
  Move-left (observe_taken e run) = omega arith
  Move-left (scan_unready counts h e) = omega arith
  Move-left (scan_ready counts h e) = omega arith
  Move-left (exchange_won run) = omega arith
  Move-left (exchange_lost run) = omega arith
  Move-left (rescan_unready counts h e) = omega arith
  Move-left (rescan_terminal counts t h e run f) = omega arith
  Move-left {n} {r} (rescan_finite {minimum} {reports} counts h e run f) =
      let derived = length-map_run _ (scans_of n r.cookie counts) reports run in
      omega (arith, length-map (stage_scan r.cookie counts) (range n), length-range_from 0 n)
  Move-left restore = omega arith
  Move-left (publish_next run) = omega arith
  Move-left store_frozen = omega arith

  all_left-middle :
      (n : ℕ) (before after : List Thread) (t : Thread)
      → all_left n (before ++ (t ∷ after)) ≡ left n t + all_left n (before ++ after)
  all_left-middle n [] after t = refl
  all_left-middle n (b ∷ before) after t = omega (arith, all_left-middle n before after t)

  Step-left :
      {n : ℕ} {r r' : Inner} {threads threads' : List Thread}
      → Step n r threads r' threads'
      → all_left n threads' < all_left n threads
  Step-left {n} (step {t} {t'} before after e e' m) =
      rw (e, e')
        (omega
          (arith, Move-left m, all_left-middle n before after t, all_left-middle n before after t'))

  abbrev pub steps :
      {n : ℕ} {r : Inner} {threads : List Thread} {r' : Inner} {threads' : List Thread}
      → Reach n r threads r' threads'
      → ℕ
  steps here = 0
  steps (next run last) = suc (steps run)

  -- However the accesses of any threads interleave, there are no more of them than the threads had left
  -- together: at most five for a mark besides its increments before the load of the state, and at most
  -- five more than the stages for a freeze. What a run has taken and what its threads still have left
  -- never exceeds it.
  pub Reach-left :
      {n : ℕ} {r : Inner} {threads : List Thread} {r' : Inner} {threads' : List Thread}
      (run : Reach n r threads r' threads')
      → steps run + all_left n threads' ≤ all_left n threads
  Reach-left here = omega arith
  Reach-left (next run last) = omega (arith, Reach-left run, Step-left last)
