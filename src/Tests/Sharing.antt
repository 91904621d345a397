-- ===== src/Tests/Sharing.antt =====
-- Concrete threads that share a recorder, for src/context.rs and src/calibration.rs.
use tracegrams.Freeze.Scans.{length-population_counts, population_counts}
use tracegrams.Threads.Alone.Freeze.{try_freeze_calibration-Alone}
use tracegrams.Marks.{record_valid_mark}
use tracegrams.Threads.Alone.{record_valid_mark-Alone, Alone}
use tracegrams.Threads.Tallies.{Reach-counts, task_hits}
use tracegrams.Threads.Progress.{IsSound-CanMove, CanMove, IsOver}
use tracegrams.Calibration.{FreezeReport}
use tracegrams.Threads.Frozen.{Reach-successes, successes}
use tracegrams.Threads.Bounded.{Reach-left, all_left, steps}
use tracegrams.Context.{MarkAdvance, success}
use tracegrams.Threads.{
  marking, scanning, scans_of, observing, Reach, counting, here, next, step, count, count_last,
  load_collecting, observe_open, scan_unready,
}
use tracegrams.Tests.Numbers.{whole_float, two_stages_lem, two_stages, half}
use tracegrams.Threads.Fresh.{new_inner-IsSound}
use tracegrams.Recorder.Bumps.{increment-bumped, bumped-IsReady, IsReady, bumped}
use tracegrams.Bucket.Spec.{grid-lt, ordinary-lt, grid, ordinary}
use tracegrams.Tests.Recording.{
  recorder-sum, recorder-get_or, recorder-IsReady, no_memory, two_names, recorder,
}
use tracegrams.Layout.{Segment, Population}
use tracegrams.Threads.Sound.{IsSound}
use tracegrams.Freeze.{
  try_freeze_calibration, frozen_calibration_report, find_map, is_ready, unready_population,
  first_unready, not_ready, FreezeError,
}
use tracegrams.Threads.Safety.{
  started-IsSound, Reach-IsSound, begin, to_freeze, to_mark, AreTasks, Task,
}
use tracegrams.Threads.{stopped, ending, Thread, Valid}
use tracegrams.Freeze.Derive.{IsReadable}
use tracegrams.Recorder.{increment, new_inner, Inner}
use tracegrams.Layout.Facts.{index_of, IsPlace, new_layout-IsLayout, at, Place}
use tracegrams.Prelude.{
  ◌%◌, ◌++◌, ◌+◌, ◌==◌, ◌^◌, ◌∷◌, ◌≡◌, ◌≢◌, ◌≤◌, ◌⊎◌, List, Result, [], arith, err, false,
  from_bool, get_or, if◌then◌else◌, map, none, ok, refl, replicate, returns, some, sum, ℕ,
}

pub recorder-IsSound : IsSound 2 recorder []
recorder-IsSound =
    new_inner-IsSound 2 7 two_names half no_memory two_stages
      (new_layout-IsLayout 2 two_stages two_stages_lem) (omega arith, omega arith)

-- A request's only mark, of 40 nanoseconds at the first stage.
abbrev pub only_mark : Valid
only_mark = record {
  started = false;
  stage = 0;
  later = false;
  before_ns = 0;
  local_ns = 40;
  overflowed = false;
  outcome = some success;
}

-- A mark and a freeze that asks for five samples.
abbrev pub two_tasks : List Task
two_tasks = to_mark only_mark ∷ to_freeze 5 ∷ []

pub two_tasks-AreTasks : AreTasks 2 two_tasks
two_tasks-AreTasks = ((omega arith, λ e. absurd cc), tt)

abbrev nothing_read : ℕ → Population → List ℕ
nothing_read i p = replicate 250 0

nothing_read-IsReadable : IsReadable 2 nothing_read
unfolding sum
nothing_read-IsReadable i p h = (refl, omega arith)

-- The increments of the mark, in order.
abbrev pub place : ℕ → Place
place k =
    if k == 0
    then at Segment.locals 0 (ordinary 40)
    else if k == 1
    then at Segment.cumulative 0 (ordinary 40)
    else if k == 2
    then at (Segment.calibration Population.local) 0 (grid 40)
    else if k == 3
    then at (Segment.calibration Population.cumulative_after) 0 (grid 40)
    else at Segment.completion 0 0

abbrev after_one : Inner
after_one = bumped recorder (place 0)

abbrev after_two : Inner
after_two = bumped after_one (place 1)

abbrev after_three : Inner
after_three = bumped after_two (place 2)

abbrev after_four : Inner
after_four = bumped after_three (place 3)

abbrev after_all : Inner
after_all = bumped after_four (place 4)

unready : FreezeError
unready = not_ready (record { cookie = 7; index = 0 }) Population.local 0 5

-- The freeze observes the state between the two increments, and scans before the mark loads it.
abbrev finished : List Thread
finished = ending [] ∷ stopped (err unready) ∷ []

-- Increment `k`, of the recorder that the ones before it left.
pub counted :
    (r : Inner)
    → IsReady 2 r
    → (k : ℕ) → IsPlace 2 (place k)
    → increment r (index_of r.layout (place k)) ≡ returns (bumped r (place k))
counted r v k h = increment-bumped 2 r v (place k) h

after_one-IsReady : IsReady 2 after_one
after_one-IsReady = bumped-IsReady 2 recorder recorder-IsReady (place 0)

after_two-IsReady : IsReady 2 after_two
after_two-IsReady = bumped-IsReady 2 after_one after_one-IsReady (place 1)

after_three-IsReady : IsReady 2 after_three
after_three-IsReady = bumped-IsReady 2 after_two after_two-IsReady (place 2)

after_four-IsReady : IsReady 2 after_four
after_four-IsReady = bumped-IsReady 2 after_three after_three-IsReady (place 3)

collecting_still : (after_one.calibration_state ≡ 0) × (after_two.calibration_state ≡ 0)
unfolding bumped new_inner
collecting_still = (refl, refl)

too_few : first_unready (scans_of 2 after_two.cookie nothing_read) 5 ≡ some unready
unfolding first_unready unready_population is_ready find_map sum bumped new_inner unready
too_few = refl

run : Reach ⦃float = whole_float⦄ 2 recorder (map begin two_tasks) after_all finished
run =
    let s₁ = next here (
      step [] (observing 5 ∷ []) refl refl
        (count (counted recorder recorder-IsReady 0 (omega arith, ordinary-lt 40)))) in
    let s₂ = next s₁ (
      step (counting (place 1 ∷ []) only_mark ∷ []) [] refl refl
        (observe_open collecting_still.0)) in
    let s₃ = next s₂ (
      step [] (scanning 5 ∷ []) refl refl
        (count (counted after_one after_one-IsReady 1 (omega arith, ordinary-lt 40)))) in
    let s₄ = next s₃ (
      step (counting [] only_mark ∷ []) [] refl refl
        (scan_unready nothing_read nothing_read-IsReadable too_few)) in
    let s₅ =
      next s₄
        (step [] (stopped (err unready) ∷ []) refl refl (load_collecting collecting_still.1)) in
    let s₆ = next s₅ (
      step [] (stopped (err unready) ∷ []) refl refl
        (count_last (counted after_two after_two-IsReady 2 (omega arith, grid-lt 40)))) in
    let s₇ = next s₆ (
      step [] (stopped (err unready) ∷ []) refl refl
        (count_last (counted after_three after_three-IsReady 3 (omega arith, grid-lt 40)))) in
    next s₇ (
      step [] (stopped (err unready) ∷ []) refl refl
        (count_last (counted after_four after_four-IsReady 4 (omega arith, omega arith))))

Reach-IsSound_example : IsSound 2 after_all finished
Reach-IsSound_example =
    Reach-IsSound ⦃float = whole_float⦄ two_tasks recorder-IsSound two_tasks-AreTasks run

Reach-counts_example :
    get_or after_all.counters (index_of recorder.layout (place 4)) 0
    ≡ (get_or recorder.counters (index_of recorder.layout (place 4)) 0
        + task_hits recorder.layout (place 4) two_tasks)
      % 2 ^ 64
Reach-counts_example =
    Reach-counts ⦃float = whole_float⦄ 2 recorder after_all two_tasks finished (place 4)
      recorder-IsSound two_tasks-AreTasks run (tt, (tt, tt)) (omega arith, omega arith) refl
      (omega (arith, recorder-get_or (index_of recorder.layout (place 4))))

Reach-left_example :
    steps ⦃float = whole_float⦄ run + all_left 2 finished ≤ all_left 2 (map begin two_tasks)
Reach-left_example = Reach-left ⦃float = whole_float⦄ run

thawed : recorder.calibration_state ≢ 2
unfolding new_inner
thawed e = omega arith

Reach-successes_example :
    (successes finished ≡ from_bool (after_all.calibration_state == 2))
    × ((before after : List Thread) (report : FreezeReport)
        → finished ≡ before ++ (stopped (ok report) ∷ after)
        → frozen_calibration_report after_all ≡ some report)
Reach-successes_example =
    Reach-successes ⦃float = whole_float⦄ two_tasks recorder-IsSound thawed two_tasks-AreTasks run

IsSound-CanMove_example :
    IsOver (observing 5)
    ⊎ CanMove ⦃float = whole_float⦄ 2 (population_counts recorder) recorder (observing 5)
IsSound-CanMove_example =
    IsSound-CanMove ⦃float = whole_float⦄ 2 recorder (marking only_mark ∷ []) [] (observing 5)
      (population_counts recorder)
      (started-IsSound 2 recorder two_tasks recorder-IsSound two_tasks-AreTasks)
      (λ i p h. (
        length-population_counts 2 recorder recorder-IsReady i p h,
        omega (arith, recorder-sum i p),
      ))

record_valid_mark-Alone_example :
    (result : MarkAdvance × Inner) × (record_valid_mark recorder 0 0 none false 40 false
        (some success)
      ≡ returns result)
    × Alone ⦃float = whole_float⦄ 2 recorder (marking only_mark) result.1 (ending [])
record_valid_mark-Alone_example =
    record_valid_mark-Alone ⦃float = whole_float⦄ 2 recorder only_mark recorder-IsReady
      (omega arith, λ e. absurd cc) (omega arith) (λ e. refl)

try_freeze_calibration-Alone_example :
    (result : Result FreezeReport FreezeError) × (r' : Inner) × (try_freeze_calibration
        ⦃float = whole_float⦄
        (λ x. x)
        recorder
        0
      ≡ returns (result, r'))
    × Alone ⦃float = whole_float⦄ 2 recorder (observing 0) r' (stopped result)
try_freeze_calibration-Alone_example =
    try_freeze_calibration-Alone ⦃float = whole_float⦄ 2 recorder 0 recorder-IsSound (omega arith)
      (λ i p h. omega (arith, recorder-sum i p))
