-- ===== src/Tests/Published.antt =====
-- A concrete recorder that was frozen, for src/calibration.rs and src/diagnose.rs.
use tracegrams.Bucket.Spec.{ordinary-lt}
use tracegrams.Tests.Numbers.{whole_float}
use tracegrams.Threads.Safety.{to_mark, started-IsSound}
use tracegrams.Tests.Recording.{recorder-IsReady, recorder}
use tracegrams.Recorder.Bumps.{bumped, IsUsable}
use tracegrams.Tests.Sharing.{two_tasks-AreTasks, counted, recorder-IsSound, place, only_mark}
use tracegrams.Threads.Halfway.{AreUsable}
use tracegrams.Threads.Frozen.{Reach-IsFinal, IsFinal}
use tracegrams.Estimate.{Terminal, CalibrationEstimate}
use tracegrams.Layout.{Population}
use tracegrams.Threads.Sound.{IsSound, ArePublished}
use tracegrams.Calibration.{
  PopulationReport, cumulative_after_threshold, FrozenStageCalibration, local_threshold,
}
use tracegrams.Recorder.{Inner}
use mathlib.Core.Path.{subst}
use tracegrams.Threads.{marking, here, next, step, count}
use tracegrams.Prelude.{◌∷◌, ◌≡◌, Option, [], arith, none, refl, some, suc, zero, ℕ}

-- A recorder that was frozen, with thresholds of 10 nanoseconds at both stages.
abbrev pub ten_ns : Option CalibrationEstimate
ten_ns = some (record {
  rank = 1;
  samples = 2;
  lower_bound = some 8;
  upper_bound = some 10;
  value = some 10;
  max_relative_error = none;
  terminal = Terminal.finite;
})

abbrev pub population_of : Population → PopulationReport
population_of p = record { population = p; samples = 2; estimate = ten_ns }

abbrev pub published : ℕ → FrozenStageCalibration
published i = record {
  report = record {
    stage = record { cookie = 7; index = i };
    local = population_of Population.local;
    cumulative_after = population_of Population.cumulative_after;
    previous_cumulative = population_of Population.previous_cumulative;
  };
}

pub published-IsUsable : (i : ℕ) → IsUsable (published i)
unfolding local_threshold cumulative_after_threshold
published-IsUsable i = record { local_read = refl; after_read = refl }

abbrev pub frozen_recorder : Inner
frozen_recorder = record recorder {
  calibration_state = 2;
  frozen_calibration = some (published 0) ∷ some (published 1) ∷ [];
}

pub published-AreUsable : AreUsable (some (published 0) ∷ some (published 1) ∷ [])
published-AreUsable zero c h =
    let e : published 0 ≡ c = cc in subst IsUsable e (published-IsUsable 0)
published-AreUsable (suc zero) c h =
    let e : published 1 ≡ c = cc in subst IsUsable e (published-IsUsable 1)
published-AreUsable (suc (suc i)) c h = absurd cc

pub published-ArePublished : ArePublished 2 (some (published 0) ∷ some (published 1) ∷ [])
published-ArePublished zero h = (published 0, refl)
published-ArePublished (suc zero) h = (published 1, refl)
published-ArePublished (suc (suc j)) h = absurd (omega arith)

pub frozen_recorder-IsSound : IsSound 2 frozen_recorder (marking only_mark ∷ [])
frozen_recorder-IsSound = record {
  ready = record {
    layout_ok = recorder-IsReady.layout_ok;
    sized = recorder-IsReady.sized;
    cells = refl;
    state_ok = omega arith;
    usable = published-AreUsable;
  };
  quantile = recorder-IsSound.quantile;
  running =
      (started-IsSound 2 recorder (to_mark only_mark ∷ []) recorder-IsSound
        (two_tasks-AreTasks.0, tt)).running;
  alone = refl;
  empty = λ zeroed. absurd (omega arith);
  full = λ two. published-ArePublished;
  quiet = λ frozen_now. absurd (frozen_now refl);
}

Reach-IsFinal_example : IsFinal frozen_recorder (bumped frozen_recorder (place 0))
Reach-IsFinal_example = Reach-IsFinal ⦃float = whole_float⦄ frozen_recorder-IsSound refl (
    next here (
      step [] [] refl refl (
        count
          (counted frozen_recorder frozen_recorder-IsSound.ready 0 (omega arith, ordinary-lt 40)))))
