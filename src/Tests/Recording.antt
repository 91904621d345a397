-- ===== src/Tests/Recording.antt =====
-- Concrete inputs for src/context.rs, src/recorder.rs and src/calibration.rs.
use tracegrams.Prelude.{
  ◌∷◌, ◌≡◌, ◌⊎◌, List, Option, [], arith, drop, err, false, get_or, inr, length, map, none, ok,
  range, refl, replicate, returns, some, suc, sum, take, true, zero, ℕ,
}
use tracegrams.Bucket.Spec.{ordinary}
use tracegrams.Registry.{StageId, Str, MemoryEstimate}
use tracegrams.Layout.{Population}
use tracegrams.Layout.Facts.{new_layout-IsLayout}
use tracegrams.Context.{
  Ctx, new_ctx, ManualCtx, success, ClockReading, PreviousMark, registry_cookie, started_frozen,
  previous,
}
use tracegrams.Context.Packing.{store_all, new_ctx-store_all, last_of}
use tracegrams.Calibration.{FrozenStageCalibration, FreezeReport}
use tracegrams.Recorder.{Inner, new_inner}
use tracegrams.Recorder.Bumps.{IsReady}
use tracegrams.Builder.Ready.{new_inner-IsReady}
use tracegrams.Marks.{record_manual_mark, start_manual}
use tracegrams.Marks.Verdict.{verdict, IsProgress}
use tracegrams.Marks.Manual.{marked, record_manual_mark-marked, record_all, start_manual-record_all}
use tracegrams.Freeze.{
  try_freeze_calibration, first_unready, FreezeError, freeze_after_claim, restore_collecting,
}
use tracegrams.Freeze.Scans.{scan_of, population_counts, population_start}
use tracegrams.Freeze.Races.{IsTaken, taken_error, try_freeze_calibration-loses}
use tracegrams.Freeze.Publish.{IsFreeze, freeze_after_claim-cases}
use tracegrams.Tests.Numbers.{half, two_stages, two_stages_lem, whole_float}

abbrev pub no_memory : MemoryEstimate
no_memory = record { matrix_bytes = 0; calibration_bytes = 0; metadata_bytes = 0 }

abbrev pub two_names : List Str
two_names = (97 ∷ []) ∷ (98 ∷ []) ∷ []

abbrev pub recorder : Inner
recorder = new_inner 7 two_names half no_memory two_stages

pub recorder-IsReady : IsReady 2 recorder
recorder-IsReady =
    new_inner-IsReady 2 7 two_names half no_memory two_stages
      (new_layout-IsLayout 2 two_stages two_stages_lem)

pub recorder-names : length recorder.stage_names ≡ 2
unfolding new_inner
recorder-names = refl

abbrev pub second : StageId
second = record { cookie = 7; index = 1 }

-- A request that has passed the first stage.
abbrev pub passed : ManualCtx
passed = record {
  cumulative_ns = 1_500;
  cookie = 7;
  started_frozen = false;
  previous = some (record { stage = 0; cumulative_bucket = ordinary 1_500 });
}

record_manual_mark-marked_example :
    record_manual_mark recorder passed second 900 (some success)
    ≡ returns (
        marked
          (verdict recorder 7 passed.previous second)
          recorder
          passed
          second
          900
          (some success))
record_manual_mark-marked_example =
    record_manual_mark-marked 2 recorder passed second 900 (some success) recorder-IsReady
      (omega arith, omega arith, refl) (λ e. omega arith)

abbrev two_marks : List (StageId × ℕ)
two_marks = (record { cookie = 7; index = 0 }, 40) ∷ (second, 60) ∷ []

start_manual-record_all_example :
    (result : ManualCtx × Inner) × (record_all recorder (start_manual recorder) two_marks
      ≡ returns result)
    × IsReady 2 result.1
    × IsProgress 2 result.0.cumulative_ns result.0.previous
start_manual-record_all_example =
    start_manual-record_all 2 recorder two_marks recorder-IsReady
      (λ e. omega arith, (λ e. omega arith, tt))

abbrev started : Ctx
started = new_ctx 100 7 false

abbrev later_reading : ClockReading
later_reading = record { timestamp_ns = 1_600; overflowed = false }

abbrev stored : List PreviousMark
stored =
    record { stage = 3; cumulative_bucket = 63 } ∷ record { stage = 63; cumulative_bucket = 9 } ∷ []

new_ctx-store_all_example :
    let c = store_all (new_ctx 5 4_294_967_295 true) stored in
    (registry_cookie c ≡ 4_294_967_295)
    × (started_frozen c ≡ true)
    × (previous c ≡ last_of none stored)
new_ctx-store_all_example =
    new_ctx-store_all 5 4_294_967_295 true stored (omega arith)
      ((omega arith, omega arith), ((omega arith, omega arith), tt))

nothing_counted : (i m : ℕ) → get_or {A = ℕ} (replicate m 0) i 0 ≡ 0
nothing_counted i zero = refl
nothing_counted zero (suc m) = refl
nothing_counted (suc i) (suc m) = nothing_counted i m

pub recorder-get_or : (i : ℕ) → get_or recorder.counters i 0 ≡ 0
unfolding new_inner
recorder-get_or i = nothing_counted i 14_080

nothing_sampled : (size from m : ℕ) → sum (take size (drop from (replicate m 0))) ≡ 0
unfolding sum
nothing_sampled zero from m = refl
nothing_sampled (suc size) zero zero = refl
nothing_sampled (suc size) zero (suc m) = omega (arith, nothing_sampled size zero m)
nothing_sampled (suc size) (suc from) zero = refl
nothing_sampled (suc size) (suc from) (suc m) = nothing_sampled (suc size) from m

pub recorder-sum : (i : ℕ) (p : Population) → sum (population_counts recorder i p) ≡ 0
unfolding new_inner
recorder-sum i p = nothing_sampled 250 (population_start recorder i p) 14_080

nothing_published :
    (j m : ℕ) → get_or {A = Option FrozenStageCalibration} (replicate m none) j none ≡ none
nothing_published j zero = refl
nothing_published zero (suc m) = refl
nothing_published (suc j) (suc m) = nothing_published j m

recorder-unpublished : (j : ℕ) → get_or recorder.frozen_calibration j none ≡ none
unfolding new_inner
recorder-unpublished j = nothing_published j 2

pub recorder-quantile : recorder.tail_quantile ≡ half
unfolding new_inner
recorder-quantile = refl

freeze_after_claim-cases_example :
    ((e : FreezeError) × (freeze_after_claim ⦃float = whole_float⦄ recorder 10
        ≡ returns (err e, restore_collecting recorder)))
    ⊎ ((report : FreezeReport) × (after : Inner) × (freeze_after_claim ⦃float = whole_float⦄
            recorder 10
          ≡ returns (ok report, after))
        × IsFreeze ⦃float = whole_float⦄ 2 recorder recorder-IsReady
            (omega arith)
            (omega (arith, recorder-quantile), omega (arith, recorder-quantile))
            (λ i p h. omega (arith, recorder-sum i p))
            report
            after)
freeze_after_claim-cases_example =
    freeze_after_claim-cases ⦃float = whole_float⦄ 2 recorder recorder-IsReady (omega arith)
      (omega (arith, recorder-quantile), omega (arith, recorder-quantile))
      (λ i p h. omega (arith, recorder-sum i p)) 10 recorder-unpublished

-- Another thread completes a freeze between the first scan and the claim.
abbrev overtaken : Inner → Inner
overtaken r = record r { calibration_state = 2 }

try_freeze_calibration-loses_example :
    (IsTaken recorder
      × (try_freeze_calibration ⦃float = whole_float⦄ overtaken recorder 0
          ≡ returns (err (taken_error recorder), recorder)))
    ⊎ ((recorder.calibration_state ≡ 0)
        × ((try_freeze_calibration ⦃float = whole_float⦄ overtaken recorder 0
              ≡ returns (err (taken_error (overtaken recorder)), overtaken recorder))
            ⊎ ((e : FreezeError) × (first_unready (map (scan_of recorder) (range 2)) 0 ≡ some e)
                × (try_freeze_calibration ⦃float = whole_float⦄ overtaken recorder 0
                    ≡ returns (err e, recorder)))))
try_freeze_calibration-loses_example =
    try_freeze_calibration-loses ⦃float = whole_float⦄ overtaken recorder 0 2 recorder-IsReady
      (omega arith) (inr refl)
