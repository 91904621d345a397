-- ===== src/Tests/Windows.antt =====
-- Concrete inputs for windows over marks, src/snapshot.rs and src/context.rs.
use tracegrams.Snapshot.Marked.{record_marks-delta, Counted}
use tracegrams.Layout.{StorageLayout}
use tracegrams.Marks.Request.{record_marks, request_places}
use tracegrams.Marks.Verdict.{verdict}
use tracegrams.Context.{success, ManualCtx, Outcome}
use tracegrams.Snapshot.{delta, snapshot_relaxed, Snapshot}
use tracegrams.Recorder.{Inner, new_inner}
use tracegrams.Layout.Facts.{Place}
use tracegrams.Registry.{StageId}
use tracegrams.Recorder.Bumps.{hits}
use tracegrams.Prelude.{
  ◌∷◌, ◌≡◌, ◌≤◌, List, Option, [], arith, length, none, ok, refl, returns, some, ℕ,
}
use tracegrams.Tests.Recording.{
  recorder, recorder-IsReady, recorder-names, recorder-get_or, second, passed,
}

hits-le-length : (l : StorageLayout) (j : ℕ) (ps : List Place) → hits l j ps ≤ length ps
unfolding hits
hits-le-length l j [] = omega arith
hits-le-length l j (p ∷ ps) = let k = hits-le-length l j ps in ground arith

-- The second stage's mark, and the same stage once more, which is rejected.
abbrev marks : List (StageId × ℕ × Option Outcome)
marks = (second, 900, some success) ∷ (second, 50, none) ∷ []

abbrev counted : List Place
counted = request_places recorder passed marks

counted-length : length counted ≡ 9
unfolding new_inner verdict request_places
counted-length = refl

record_marks-delta_example :
    (before : Snapshot) × (snapshot_relaxed recorder ≡ returns before)
    × (result : ManualCtx × Inner) × (record_marks recorder passed marks ≡ returns result)
    × (after : Snapshot) × (snapshot_relaxed result.1 ≡ returns after)
    × (window : Snapshot) × (delta after before ≡ ok window)
    × Counted recorder counted window
record_marks-delta_example =
    record_marks-delta 2 recorder passed marks recorder-IsReady (omega arith) recorder-names
      (omega arith, omega arith, refl) (λ e. omega arith, (λ e. omega arith, tt))
      (λ j.
        omega (arith, recorder-get_or j, hits-le-length recorder.layout j counted, counted-length))
