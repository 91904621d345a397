-- ===== src/Marks/Request.antt =====
-- A request of src/context.rs as a sequence of manual marks: what they count, one after the other.
use tracegrams.Marks.Places.{mark_places}
use tracegrams.Marks.Refine.{advance_of}
use tracegrams.Marks.Manual.{marked, record_manual_mark-marked, advance-IsProgress}
use tracegrams.Layout.Facts.{anomaly, Place}
use tracegrams.Marks.Exist.{mark_places-ArePlaces, ArePlaces-append}
use tracegrams.Recorder.{Inner}
use tracegrams.Marks.Verdict.{accepted-pos, accepted-cookie, is_later, IsProgress, verdict}
use tracegrams.Layout.{Diagnostic}
use tracegrams.Marks.{local_of, record_manual_mark}
use tracegrams.Context.{PreviousMark, ManualCtx, Outcome}
use tracegrams.Recorder.Bumps.{
  bumped_all-append, bumped_all-IsReady, bumped_all-frozen, bumped_all-state, bumped_all-cookie,
  ArePlaces, IsReady, bumped_all,
}
use tracegrams.Prelude.{
  ◌++◌, ◌<◌, ◌>>=◌, ◌∙◌, ◌∷◌, ◌≡◌, List, Option, Option-cases, Run, [], ap, inl, inr, none, refl,
  returns, some, sym, ℕ,
}
use tracegrams.Registry.{StageId}

-- What a mark counts, by its verdict.
abbrev pub counted_places :
    Option Diagnostic → Inner → ManualCtx → StageId → ℕ → Option Outcome → List Place
counted_places (some d) r context stage elapsed outcome = anomaly d ∷ []
counted_places none r context stage elapsed outcome =
    mark_places r context.started_frozen stage.index (is_later context.previous)
      context.cumulative_ns (local_of elapsed).0 (local_of elapsed).1 outcome

marked-bumped :
    (d : Option Diagnostic) (r : Inner) (context : ManualCtx) (stage : StageId) (elapsed : ℕ)
    (outcome : Option Outcome)
    → (marked d r context stage elapsed outcome).1
      ≡ bumped_all r (counted_places d r context stage elapsed outcome)
unfolding bumped_all
marked-bumped (some d) r context stage elapsed outcome = refl
marked-bumped none r context stage elapsed outcome = refl

counted_places-ArePlaces :
    (n : ℕ) (r : Inner) (context : ManualCtx) (stage : StageId) (elapsed : ℕ)
    (outcome : Option Outcome)
    → IsProgress n context.cumulative_ns context.previous
    → (stage.cookie ≡ r.cookie → stage.index < n)
    → ArePlaces n (
        counted_places
          (verdict r context.cookie context.previous stage)
          r
          context
          stage
          elapsed
          outcome)
counted_places-ArePlaces n r context stage elapsed outcome g fits =
    elim (Option-cases (verdict r context.cookie context.previous stage)) [
      | inl accepted ↦ rw accepted (
          mark_places-ArePlaces n r context.started_frozen stage.index (is_later context.previous)
            context.cumulative_ns (local_of elapsed).0 (local_of elapsed).1 outcome
            (fits (accepted-cookie r context.cookie context.previous stage accepted))
            (accepted-pos r context.cookie context.previous stage accepted))
      | inr (d, refused) ↦ rw refused (tt, tt)
    ]

-- What a mark makes of its context, by its verdict.
abbrev advanced : Option Diagnostic → ManualCtx → StageId → ℕ → ManualCtx
advanced (some d) context stage elapsed = context
advanced none context stage elapsed =
    let advance = advance_of stage.index context.cumulative_ns (local_of elapsed).0 in
    record context { cumulative_ns = advance.cumulative_ns; previous = some advance.previous }

marked-advanced :
    (d : Option Diagnostic) (r : Inner) (context : ManualCtx) (stage : StageId) (elapsed : ℕ)
    (outcome : Option Outcome)
    → (marked d r context stage elapsed outcome).0 ≡ advanced d context stage elapsed
marked-advanced (some d) r context stage elapsed outcome = refl
marked-advanced none r context stage elapsed outcome = refl

-- The marks of one request, in order.
unfoldable pub record_marks :
    Inner → ManualCtx → List (StageId × ℕ × Option Outcome) → Run (ManualCtx × Inner)
unfolding record_manual_mark
record_marks r context [] = returns (context, r)
record_marks r context ((stage, elapsed, outcome) ∷ marks) =
    record_manual_mark r context stage elapsed outcome >>= λ result.
    record_marks result.1 result.0 marks

-- What they count, by the calibration state and the thresholds of one recorder.
unfoldable pub request_places : Inner → ManualCtx → List (StageId × ℕ × Option Outcome) → List Place
unfolding verdict
request_places r context [] = []
request_places r context ((stage, elapsed, outcome) ∷ marks) =
    counted_places (verdict r context.cookie context.previous stage) r context stage elapsed outcome
    ++ request_places r
        (advanced (verdict r context.cookie context.previous stage) context stage elapsed) marks

-- Stage identifiers of the recorder with this cookie are in range.
abbrev pub AreInRange : ℕ → ℕ → List (StageId × ℕ × Option Outcome) → Type 0
AreInRange n cookie [] = Unit
AreInRange n cookie ((stage, elapsed, outcome) ∷ marks) =
    (stage.cookie ≡ cookie → stage.index < n) × AreInRange n cookie marks

-- Recorders that differ in their counters only, as far as marks see.
pub record Agree (r now : Inner) : Type 0 where
  pub cookie : now.cookie ≡ r.cookie
  pub state : now.calibration_state ≡ r.calibration_state
  pub cells : now.frozen_calibration ≡ r.frozen_calibration

bumped-Agree : (r now : Inner) (ps : List Place) → Agree r now → Agree r (bumped_all now ps)
bumped-Agree r now ps a = record {
  cookie = bumped_all-cookie now ps ∙ a.cookie;
  state = bumped_all-state now ps ∙ a.state;
  cells = bumped_all-frozen now ps ∙ a.cells;
}

verdict-same :
    (r now : Inner) (cookie : ℕ) (before : Option PreviousMark) (stage : StageId)
    → Agree r now
    → verdict now cookie before stage ≡ verdict r cookie before stage
unfolding verdict
verdict-same r now cookie before stage a = rw a.cookie refl

counted_places-same :
    (d : Option Diagnostic) (r now : Inner) (context : ManualCtx) (stage : StageId) (elapsed : ℕ)
    (outcome : Option Outcome)
    → Agree r now
    → counted_places d now context stage elapsed outcome
      ≡ counted_places d r context stage elapsed outcome
counted_places-same (some d) r now context stage elapsed outcome a = refl
counted_places-same none r now context stage elapsed outcome a = rw (a.state, a.cells) refl

-- A mark on such a recorder.
mark_once :
    (n : ℕ) (r now : Inner) (context : ManualCtx) (stage : StageId) (elapsed : ℕ)
    (outcome : Option Outcome)
    → Agree r now
    → IsReady n now
    → IsProgress n context.cumulative_ns context.previous
    → (stage.cookie ≡ r.cookie → stage.index < n)
    → let d = verdict r context.cookie context.previous stage in
      record_manual_mark now context stage elapsed outcome
      ≡ returns (
        advanced d context stage elapsed,
        bumped_all now (counted_places d r context stage elapsed outcome),
      )
mark_once n r now context stage elapsed outcome a v g fits =
    let d = verdict r context.cookie context.previous stage in
    let run =
      record_manual_mark-marked n now context stage elapsed outcome v g
        (λ e. fits (e ∙ a.cookie)) in
    let same = verdict-same r now context.cookie context.previous stage a in
    let after = marked-advanced d now context stage elapsed outcome in
    let bumps = marked-bumped d now context stage elapsed outcome in
    let places = counted_places-same d r now context stage elapsed outcome a in
    run
    ∙ ap (λ x. returns (marked x now context stage elapsed outcome)) same
    ∙ ap (λ x. returns (x, (marked d now context stage elapsed outcome).1)) after
    ∙ ap (λ y. returns (advanced d context stage elapsed, y)) (bumps ∙ ap (bumped_all now) places)

advanced-IsProgress :
    (n : ℕ) (d : Option Diagnostic) (context : ManualCtx) (stage : StageId) (elapsed : ℕ)
    → IsProgress n context.cumulative_ns context.previous
    → (d ≡ none → stage.index < n)
    → let after = advanced d context stage elapsed in
      IsProgress n after.cumulative_ns after.previous
advanced-IsProgress n (some d) context stage elapsed g fits = g
advanced-IsProgress n none context stage elapsed g fits =
    advance-IsProgress n stage.index context.cumulative_ns (local_of elapsed).0 (fits refl)

pub request_places-ArePlaces :
    (n : ℕ) (r : Inner) (context : ManualCtx) (marks : List (StageId × ℕ × Option Outcome))
    → IsProgress n context.cumulative_ns context.previous
    → AreInRange n r.cookie marks
    → ArePlaces n (request_places r context marks)
unfolding request_places
request_places-ArePlaces n r context [] g b = tt
request_places-ArePlaces n r context ((stage, elapsed, outcome) ∷ marks) g b =
    let d = verdict r context.cookie context.previous stage in
    let next = advanced d context stage elapsed in
    ArePlaces-append n (counted_places d r context stage elapsed outcome)
      (request_places r next marks)
      (counted_places-ArePlaces n r context stage elapsed outcome g b.0)
      (request_places-ArePlaces n r next marks
        (advanced-IsProgress n d context stage elapsed g
          (λ e. b.0 (accepted-cookie r context.cookie context.previous stage e)))
        b.1)

pub record_marks-places :
    (n : ℕ) (r now : Inner) (context : ManualCtx) (marks : List (StageId × ℕ × Option Outcome))
    → Agree r now
    → IsReady n now
    → IsProgress n context.cumulative_ns context.previous
    → AreInRange n r.cookie marks
    → (after : ManualCtx) × (record_marks now context marks
        ≡ returns (after, bumped_all now (request_places r context marks)))
unfolding record_marks request_places bumped_all
record_marks-places n r now context [] a v g b = (context, refl)
record_marks-places n r now context ((stage, elapsed, outcome) ∷ marks) a v g b =
    let d = verdict r context.cookie context.previous stage in
    let ps = counted_places d r context stage elapsed outcome in
    let next = advanced d context stage elapsed in
    let (after, run) =
      record_marks-places n r (bumped_all now ps) next marks (bumped-Agree r now ps a)
        (bumped_all-IsReady n now ps v)
        (advanced-IsProgress n d context stage elapsed g
          (λ e. b.0 (accepted-cookie r context.cookie context.previous stage e)))
        b.1 in
    (
      after,
      ap (λ m. m >>= λ result. record_marks result.1 result.0 marks)
            (mark_once n r now context stage elapsed outcome a v g b.0)
          ∙ run
          ∙ ap (λ x. returns (after, x))
              (sym (bumped_all-append now ps (request_places r next marks))),
    )
