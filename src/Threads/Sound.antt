-- ===== src/Threads/Sound.antt =====
-- What is to hold of a shared recorder and its threads, of src/context.rs and src/calibration.rs.
use tracegrams.Freeze.{published_reports}
use tracegrams.Layout.Cover.{index-lt, apart}
use tracegrams.Layout.{Segment}
use tracegrams.Marks.Exist.{AreOffline, AreEarly, is_online}
use tracegrams.Layout.Facts.{Place, index_of, at, IsPlace}
use tracegrams.Rank.Exact.{IsTailQuantile}
use tracegrams.Recorder.{Inner}
use tracegrams.Calibration.{FrozenStageCalibration, StageReport}
use tracegrams.Recorder.Bumps.{ArePlaces, get_or-bump, bumped-IsReady, IsUsable, IsReady, bumped}
use tracegrams.Threads.{
  stopped, claiming, scanning, observing, ending, publishing, looking, restoring, counting,
  rescanning, Thread, Valid,
}
use tracegrams.Prelude.{
  ◌+◌, ◌<◌, ◌==◌, ◌∙◌, ◌∷◌, ◌≡◌, ◌≢◌, ◌≤◌, ◌⊎◌, ==_iff, Bool-cases, List, Option, [], arith, err,
  false, from_bool, get_or, inl, inr, map, none, ok, range, range_from, some, true, ℕ,
}

-- A valid mark of a recorder of `n` stages.
abbrev pub IsCall : ℕ → Valid → Type 0
IsCall n v = (v.stage < n) × (v.later ≡ true → 0 < v.stage)

-- The threads that are between a won exchange and the store that ends their freeze.
abbrev pub holds : Thread → ℕ
holds (rescanning _) = 1
holds (restoring _) = 1
holds (publishing _ _) = 1
holds _ = 0

abbrev pub holders : List Thread → ℕ
holders [] = 0
holders (t ∷ ts) = holds t + holders ts

abbrev pub Cells : Type 0
Cells = List (Option FrozenStageCalibration)

abbrev pub AreEmpty : Cells → Type 0
AreEmpty cells = (j : ℕ) → get_or cells j none ≡ none

abbrev pub ArePublished : ℕ → Cells → Type 0
ArePublished n cells =
    (j : ℕ) → j < n → (c : FrozenStageCalibration) × (get_or cells j none ≡ some c)

-- A publication of all reports that has `count` left, of the stages from `first` on.
pub record IsHalfway (n : ℕ) (cells : Cells) (all left : List StageReport) : Type 0 where
  pub reports : ℕ → StageReport
  pub first : ℕ
  pub count : ℕ
  pub whole : first + count ≡ n
  pub is_all : all ≡ map reports (range n)
  pub is_left : left ≡ map reports (range_from first count)
  pub at_index : (j : ℕ) → (reports j).stage.index ≡ j
  pub good : (j : ℕ) → j < n → IsUsable (record { report = reports j })
  pub published : (j : ℕ) → j < first → get_or cells j none ≡ some (record { report = reports j })
  pub fresh : (j : ℕ) → first ≤ j → get_or cells j none ≡ none

-- What a thread relies on, of the calibration state and the publication cells.
abbrev pub IsThread : ℕ → ℕ → Cells → Thread → Type 0
IsThread n state cells (counting ps v) = AreEarly n ps × IsCall n v
IsThread n state cells (looking v) = IsCall n v × (state ≡ 2)
IsThread n state cells (ending ps) = ArePlaces n ps × (AreOffline ps ⊎ (state ≡ 2))
IsThread n state cells (rescanning _) = AreEmpty cells
IsThread n state cells (restoring _) = AreEmpty cells
IsThread n state cells (publishing all left) = IsHalfway n cells all left
IsThread n state cells (stopped (ok report)) =
    (state ≡ 2) × (published_reports cells ≡ report.stages)
IsThread n state cells _ = Unit

abbrev pub AreThreads : ℕ → ℕ → Cells → List Thread → Type 0
AreThreads n state cells [] = Unit
AreThreads n state cells (t ∷ ts) = IsThread n state cells t × AreThreads n state cells ts

-- The online cells of every stage are zero.
abbrev pub IsQuiet : ℕ → Inner → Type 0
IsQuiet n r =
    (stage offset : ℕ)
    → stage < n
    → offset < 12
    → get_or r.counters (index_of r.layout (at Segment.online stage offset)) 0 ≡ 0

-- The recorder is ready to record; at most one thread holds the freeze, and one does exactly while the
-- state is freezing; nothing is published while the recorder collects and every stage is once it is
-- frozen; until then no online cell has counted anything.
pub record IsSound (n : ℕ) (r : Inner) (threads : List Thread) : Type 0 where
  pub ready : IsReady n r
  pub quantile : IsTailQuantile r.tail_quantile
  pub running : AreThreads n r.calibration_state r.frozen_calibration threads
  pub alone : holders threads ≡ from_bool (r.calibration_state == 1)
  pub empty : r.calibration_state ≡ 0 → AreEmpty r.frozen_calibration
  pub full : r.calibration_state ≡ 2 → ArePublished n r.frozen_calibration
  pub quiet : r.calibration_state ≢ 2 → IsQuiet n r

-- Threads that hold nothing rely on nothing that a freeze changes before the recorder is frozen.
pub AreThreads-others :
    (n state state' : ℕ) (cells cells' : Cells) (threads : List Thread)
    → holders threads ≡ 0
    → state ≢ 2
    → AreThreads n state cells threads
    → AreThreads n state' cells' threads
AreThreads-others n state state' cells cells' [] h k a = tt
AreThreads-others n state state' cells cells' (t ∷ ts) h k a = (
  other t (omega arith) a.0,
  AreThreads-others n state state' cells cells' ts (omega arith) k a.1,
)
  where
    other : (t : Thread) → holds t ≡ 0 → IsThread n state cells t → IsThread n state' cells' t
    other (counting ps v) h a = a
    other (looking v) h a = absurd (k a.1)
    other (ending ps) h a =
        (a.0, elim a.1 [ inl off ↦ inl off | inr frozen_now ↦ absurd (k frozen_now) ])
    other (observing m) h a = tt
    other (scanning m) h a = tt
    other (claiming m) h a = tt
    other (rescanning m) h a = absurd (omega arith)
    other (restoring e) h a = absurd (omega arith)
    other (publishing all left) h a = absurd (omega arith)
    other (stopped (err e)) h a = tt
    other (stopped (ok report)) h a = absurd (k a.0)

-- A step that leaves the recorder alone.
pub moved-IsSound :
    (n : ℕ) (r : Inner) (t t' : Thread) (rest : List Thread)
    → IsSound n r (t ∷ rest)
    → holds t' ≡ holds t
    → IsThread n r.calibration_state r.frozen_calibration t'
    → IsSound n r (t' ∷ rest)
moved-IsSound n r t t' rest s h k = record {
  ready = s.ready;
  quantile = s.quantile;
  running = (k, s.running.1);
  alone = omega (arith, s.alone);
  empty = s.empty;
  full = s.full;
  quiet = s.quiet;
}

-- An increment elsewhere leaves the online cells zero.
bumped-IsQuiet :
    (n : ℕ) (r : Inner) (p : Place)
    → IsReady n r
    → IsPlace n p
    → is_online p ≡ false
    → IsQuiet n r
    → IsQuiet n (bumped r p)
unfolding bumped
bumped-IsQuiet n r p v h off quiet stage offset below within =
    let cell = at Segment.online stage offset in
    let apart : (index_of r.layout p == index_of r.layout cell) ≡ false =
      elim (Bool-cases (index_of r.layout p == index_of r.layout cell)) [
        | inr other ↦ other
        | inl same ↦
            let e : p ≡ cell =
              apart n r.layout v.layout_ok p cell h (below, within) ((==_iff _ _).0 same) in
            let w : true ≡ false = (rw e at off) in absurd cc
      ] in
    get_or-bump r.counters (index_of r.layout p) (index_of r.layout cell)
      (rw v.sized (index-lt n r.layout v.layout_ok p h))
    ∙ (rw apart (quiet stage offset below within))

pub counted-IsSound :
    (n : ℕ) (r : Inner) (t t' : Thread) (rest : List Thread) (p : Place)
    → IsSound n r (t ∷ rest)
    → IsPlace n p
    → (is_online p ≡ false) ⊎ (r.calibration_state ≡ 2)
    → holds t' ≡ holds t
    → IsThread n r.calibration_state r.frozen_calibration t'
    → IsSound n (bumped r p) (t' ∷ rest)
unfolding bumped
counted-IsSound n r t t' rest p s h off same k = record {
  ready = bumped-IsReady n r s.ready p;
  quantile = s.quantile;
  running = (k, s.running.1);
  alone = omega (arith, s.alone);
  empty = s.empty;
  full = s.full;
  quiet = λ thawed. elim off [
    | inl elsewhere ↦ bumped-IsQuiet n r p s.ready h elsewhere (s.quiet thawed)
    | inr frozen_now ↦ absurd (thawed frozen_now)
  ];
}
