-- ===== src/Marks/Manual.antt =====
-- `record_manual_mark` of src/context.rs on every branch: what it counts and what it leaves of the
-- context, for one mark and for a whole request.
use tracegrams.Prelude.{
  ◌<◌, ◌>>=◌, ◌^◌, ◌∙◌, ◌∷◌, ◌≡◌, List, Option, Option-cases, Run, [], arith, inl, inr, none, refl,
  returns, some, ℕ,
}
use tracegrams.Registry.{StageId}
use tracegrams.Layout.{Diagnostic}
use tracegrams.Layout.Facts.{anomaly}
use tracegrams.Context.{ManualCtx, Outcome}
use tracegrams.Recorder.{Inner}
use tracegrams.Recorder.Bumps.{
  IsReady, bumped, bumped-IsReady, bumped_all, bumped_all-IsReady, bumped_all-cookie,
}
use tracegrams.Marks.{start_manual, record_elapsed, record_manual_mark, local_of}
use tracegrams.Marks.Places.{saturated, mark_places}
use tracegrams.Marks.Refine.{record_valid_mark-places, advance_of}
use tracegrams.Marks.Verdict.{
  verdict, is_later, IsProgress, validate_mark-rejected, validate_mark-accepted, accepted-pos,
  accepted-cookie, first_before,
}

-- What a mark returns: a rejected mark counts its diagnostic and leaves the context; an accepted one counts its places and
-- advances the context.
abbrev pub marked :
    Option Diagnostic → Inner → ManualCtx → StageId → ℕ → Option Outcome → ManualCtx × Inner
marked (some d) r context stage elapsed outcome = (context, bumped r (anomaly d))
marked none r context stage elapsed outcome =
    let advance = advance_of stage.index context.cumulative_ns (local_of elapsed).0 in
    (
      record context { cumulative_ns = advance.cumulative_ns; previous = some advance.previous },
      bumped_all r (
          mark_places r context.started_frozen stage.index (is_later context.previous)
            context.cumulative_ns (local_of elapsed).0 (local_of elapsed).1 outcome),
    )

pub local_of-lt : (elapsed : ℕ) → (local_of elapsed).0 < 2 ^ 64
local_of-lt elapsed = ground arith

pub saturated-lt : (before_ns local_ns : ℕ) → saturated before_ns local_ns < 2 ^ 64
saturated-lt before_ns local_ns = ground arith

-- For a ready recorder of `n` stages, request-local state as marks leave it, and a stage whose index is
-- in range where its cookie is the recorder's: the mark returns; it counts exactly one diagnostic and
-- keeps the context when it is rejected, and otherwise counts exactly the specified places and
-- advances the context to the saturated cumulative latency and its bucket.
pub record_manual_mark-marked :
    (n : ℕ) (r : Inner) (context : ManualCtx) (stage : StageId) (elapsed : ℕ)
    (outcome : Option Outcome)
    → IsReady n r
    → IsProgress n context.cumulative_ns context.previous
    → (stage.cookie ≡ r.cookie → stage.index < n)
    → record_manual_mark r context stage elapsed outcome
      ≡ returns
          (marked (verdict r context.cookie context.previous stage) r context stage elapsed outcome)
unfolding record_manual_mark
record_manual_mark-marked n r context stage elapsed outcome v g fits =
    elim (Option-cases (verdict r context.cookie context.previous stage)) [
      | inl accepted ↦
          let before = context.previous in
          rw (
            accepted,
            validate_mark-accepted n r v context.cookie context.cumulative_ns before stage g
                accepted,
            record_valid_mark-places n r stage.index (is_later before) context.started_frozen
                (local_of elapsed).1 context.cumulative_ns (local_of elapsed).0 outcome v
                (fits (accepted-cookie r context.cookie before stage accepted))
                (local_of-lt elapsed) (first_before n context.cumulative_ns before g)
                (accepted-pos r context.cookie before stage accepted),
          )
      | inr (d, refused) ↦
          rw (refused, validate_mark-rejected n r v context.cookie context.previous stage d refused)
    ]

pub advance-IsProgress :
    (n stage before_ns local_ns : ℕ)
    → stage < n
    → let advance = advance_of stage before_ns local_ns in
      IsProgress n advance.cumulative_ns (some advance.previous)
advance-IsProgress n stage before_ns local_ns h = (saturated-lt before_ns local_ns, h, refl)

-- What a mark keeps: a ready recorder, its cookie, and request-local state as marks leave it.
record Keeps (n : ℕ) (r : Inner) (result : ManualCtx × Inner) : Type 0 where
  pub ready : IsReady n result.1
  pub cookie : result.1.cookie ≡ r.cookie
  pub progress : IsProgress n result.0.cumulative_ns result.0.previous

marked-Keeps :
    (n : ℕ) (d : Option Diagnostic) (r : Inner) (context : ManualCtx) (stage : StageId)
    (elapsed : ℕ) (outcome : Option Outcome)
    → IsReady n r
    → IsProgress n context.cumulative_ns context.previous
    → (d ≡ none → stage.index < n)
    → Keeps n r (marked d r context stage elapsed outcome)
unfolding bumped
marked-Keeps n (some d) r context stage elapsed outcome v g fits = record {
  ready = bumped-IsReady n r v (anomaly d);
  cookie = refl;
  progress = g;
}
marked-Keeps n none r context stage elapsed outcome v g fits = record {
  ready = bumped_all-IsReady n r _ v;
  cookie = bumped_all-cookie r _;
  progress =
      advance-IsProgress n stage.index context.cumulative_ns (local_of elapsed).0 (fits refl);
}

-- The checkpoints of one request, in order.
unfoldable pub record_all : Inner → ManualCtx → List (StageId × ℕ) → Run (ManualCtx × Inner)
unfolding record_elapsed
record_all r context [] = returns (context, r)
record_all r context ((stage, elapsed) ∷ marks) =
    record_elapsed r context stage elapsed >>= λ result. record_all result.1 result.0 marks

-- Stage identifiers of the recorder with this cookie are in range.
abbrev pub AreBranded : ℕ → ℕ → List (StageId × ℕ) → Type 0
AreBranded n cookie [] = Unit
AreBranded n cookie ((stage, elapsed) ∷ marks) =
    (stage.cookie ≡ cookie → stage.index < n) × AreBranded n cookie marks

record_all-Keeps :
    (n : ℕ) (r : Inner) (context : ManualCtx) (marks : List (StageId × ℕ))
    → IsReady n r
    → IsProgress n context.cumulative_ns context.previous
    → AreBranded n r.cookie marks
    → (result : ManualCtx × Inner) × (record_all r context marks ≡ returns result)
      × Keeps n r result
unfolding record_all
record_all-Keeps n r context [] v g b =
    ((context, r), refl, record { ready = v; cookie = refl; progress = g })
record_all-Keeps n r context ((stage, elapsed) ∷ marks) v g b =
    let d = verdict r context.cookie context.previous stage in
    let step = marked d r context stage elapsed none in
    let k =
      marked-Keeps n d r context stage elapsed none v g
        (λ e. b.0 (accepted-cookie r context.cookie context.previous stage e)) in
    let (result, run, keeps) =
      record_all-Keeps n step.1 step.0 marks k.ready k.progress (rw k.cookie b.1) in
    (
      result,
      rw (record_manual_mark-marked n r context stage elapsed none v g b.0) run,
      record { ready = keeps.ready; cookie = keeps.cookie ∙ k.cookie; progress = keeps.progress },
    )

-- A request started on a ready recorder of `n` stages, whose stage identifiers are in range wherever
-- they carry the recorder's cookie, can make any sequence of marks: none panics, the recorder stays
-- ready, and the context ends with no latency and no previous mark, or with a cumulative latency
-- below 2 ^ 64, a previous stage in range and the bucket of that latency.
pub start_manual-record_all :
    (n : ℕ) (r : Inner) (marks : List (StageId × ℕ))
    → IsReady n r
    → AreBranded n r.cookie marks
    → (result : ManualCtx × Inner) × (record_all r (start_manual r) marks ≡ returns result)
      × IsReady n result.1
      × IsProgress n result.0.cumulative_ns result.0.previous
unfolding start_manual
start_manual-record_all n r marks v b =
    let (result, run, keeps) = record_all-Keeps n r (start_manual r) marks v refl b in
    (result, run, keeps.ready, keeps.progress)
