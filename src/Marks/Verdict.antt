-- ===== src/Marks/Verdict.antt =====
-- The verdict of `validate_mark` in src/context.rs: which diagnostic a rejected mark counts, and what
-- an accepted mark hands on.
use tracegrams.Prelude.{
  ◌<◌, ◌==◌, ◌^◌, ◌≡◌, Bool, Option, ap, arith, false, if◌then◌else◌, ltb, none, returns, some,
  true, ℕ,
}
use tracegrams.Prelude.Bits.{and_mask}
use tracegrams.Registry.{StageId}
use tracegrams.Bucket.{from_six_bits}
use tracegrams.Bucket.Spec.{bucket_of, ordinary, ordinary-lt}
use tracegrams.Layout.{Diagnostic}
use tracegrams.Layout.Facts.{anomaly}
use tracegrams.Context.{PreviousMark}
use tracegrams.Recorder.{Inner}
use tracegrams.Recorder.Bumps.{IsReady, bumped, increment_diagnostic-bumped}
use tracegrams.Marks.{validate_mark, reject}
use tracegrams.Marks.Blocks.{before_of}

-- Identity comes first: a context or a stage of another recorder, then a stage that is not after the
-- previous one.
unfoldable pub verdict : Inner → ℕ → Option PreviousMark → StageId → Option Diagnostic
verdict r cookie before stage =
    if cookie == r.cookie
    then (if stage.cookie == r.cookie
        then elim before [
          | none ↦ none
          | some p ↦ if ltb p.stage stage.index then none else some Diagnostic.non_monotonic_marks
        ]
        else some Diagnostic.invalid_stage_marks)
    else some Diagnostic.invalid_context_marks

abbrev pub is_later : Option PreviousMark → Bool
is_later none = false
is_later (some _) = true

-- Request-local state as marks leave it: no predecessor and no latency yet, or a predecessor among the
-- `n` stages whose bucket is that of the cumulative latency.
abbrev pub IsProgress : ℕ → ℕ → Option PreviousMark → Type 0
IsProgress n before_ns none = before_ns ≡ 0
IsProgress n before_ns (some p) =
    (before_ns < 2 ^ 64) × (p.stage < n) × (p.cumulative_bucket ≡ ordinary before_ns)

six_bits : (value bits : ℕ) → bits ≡ ordinary value → from_six_bits bits ≡ bucket_of value
unfolding from_six_bits
six_bits value bits e =
    rw e (
      ap (λ k. record { index = k })
        (omega (arith, and_mask 6 (ordinary value), ordinary-lt value)))

pub first_before :
    (n before_ns : ℕ) (before : Option PreviousMark)
    → IsProgress n before_ns before
    → is_later before ≡ false
    → before_ns ≡ 0
first_before n before_ns none g e = g
first_before n before_ns (some p) g e = cc

module _ (n : ℕ) (r : Inner) (v : IsReady n r) where
  rejected : (d : Diagnostic) → reject r d ≡ returns (none, bumped r (anomaly d))
  rejected d = rw (increment_diagnostic-bumped n r v d)

  pub validate_mark-rejected :
      (cookie : ℕ) (before : Option PreviousMark) (stage : StageId) (d : Diagnostic)
      → verdict r cookie before stage ≡ some d
      → validate_mark r cookie before stage ≡ returns (none, bumped r (anomaly d))
  unfolding validate_mark verdict
  validate_mark-rejected cookie none stage d e =
      ground
        (arith, rejected Diagnostic.invalid_context_marks, rejected Diagnostic.invalid_stage_marks)
  validate_mark-rejected cookie (some p) stage d e = ground (
    arith,
    rejected Diagnostic.invalid_context_marks,
    rejected Diagnostic.invalid_stage_marks,
    rejected Diagnostic.non_monotonic_marks,
  )

  pub validate_mark-accepted :
      (cookie before_ns : ℕ) (before : Option PreviousMark) (stage : StageId)
      → IsProgress n before_ns before
      → verdict r cookie before stage ≡ none
      → validate_mark r cookie before stage
        ≡ returns (
          some (record {
            stage = stage.index;
            previous = before_of (is_later before) stage.index before_ns;
          }),
          r,
        )
  unfolding validate_mark verdict
  validate_mark-accepted cookie before_ns none stage g e = ground arith
  validate_mark-accepted cookie before_ns (some p) stage g e =
      rw (six_bits before_ns p.cumulative_bucket g.2) (ground arith)

pub accepted-pos :
    (r : Inner) (cookie : ℕ) (before : Option PreviousMark) (stage : StageId)
    → verdict r cookie before stage ≡ none
    → is_later before ≡ true
    → 0 < stage.index
unfolding verdict
accepted-pos r cookie none stage e h = cc
accepted-pos r cookie (some p) stage e h = ground arith

pub accepted-cookie :
    (r : Inner) (cookie : ℕ) (before : Option PreviousMark) (stage : StageId)
    → verdict r cookie before stage ≡ none
    → stage.cookie ≡ r.cookie
unfolding verdict
accepted-cookie r cookie none stage e = ground arith
accepted-cookie r cookie (some p) stage e = ground arith
