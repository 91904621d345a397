-- ===== src/Marks/Clocked/Simulation.antt =====
-- The clocked mark of src/context.rs beside the manual one, branch by branch.
use tracegrams.Prelude.{◌≡◌, Bool, Option, false, none, returns, some, true, ℕ}
use tracegrams.Registry.{StageId}
use tracegrams.Layout.{Diagnostic}
use tracegrams.Layout.Facts.{anomaly}
use tracegrams.Context.{Ctx, PreviousMark, ClockReading, Outcome}
use tracegrams.Context.Packing.{Holds}
use tracegrams.Recorder.{Inner}
use tracegrams.Recorder.Bumps.{bumped}
use tracegrams.Marks.{record_manual_mark}
use tracegrams.Marks.Verdict.{IsProgress}
use tracegrams.Marks.Clocked.{manual_of, interval}

-- Whether a clock regression rejects the mark: validation comes first.
abbrev pub is_regression : Option Diagnostic → Bool → Bool
is_regression none regressed = regressed
is_regression (some d) regressed = false

-- What the manual mark leaves of the plain context, or the rejection by the clock.
abbrev pub Agrees :
    Bool → Inner → Ctx → StageId → ClockReading → Option Outcome → Ctx × Inner → Type 0
Agrees true r c stage reading outcome result =
    result ≡ (c, bumped r (anomaly Diagnostic.clock_regressions))
Agrees false r c stage reading outcome result =
    record_manual_mark r (manual_of c) stage (interval c reading) outcome
    ≡ returns (manual_of result.0, result.1)

-- The context still packs the same identity and flag, with request-local state as marks leave it.
abbrev pub IsPacked : ℕ → ℕ → Bool → Ctx → Type 0
IsPacked n cookie started c =
    (before : Option PreviousMark) × Holds c cookie started before
    × IsProgress n c.cumulative_ns before
