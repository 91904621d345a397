-- ===== src/Marks/Clocked.antt =====
-- `record_clocked_mark` of src/context.rs on the packed context, and the marks that a clock gone
-- backwards rejects.
pub mod Simulation
use tracegrams.Prelude.{
  ◌-◌, ◌<◌, ◌^◌, ◌∙◌, ◌≡◌, ◌≤◌, Bool, Bool-cases, List, Option, ap, arith, false, if◌then◌else◌,
  inl, inr, ltb, lt→ltb, none, refl, returns, some, true, ℕ,
}
use tracegrams.Registry.{StageId}
use tracegrams.Bucket.Spec.{ordinary, ordinary-lt}
use tracegrams.Layout.{Diagnostic}
use tracegrams.Layout.Facts.{Place, anomaly}
use tracegrams.Context.{
  MarkAdvance, set_previous, Ctx, PreviousMark, ClockReading, ManualCtx, Outcome, registry_cookie,
  started_frozen, previous, u64_max,
}
use tracegrams.Context.Packing.{Holds, Holds-reads, set_previous-Holds, IsSmall}
use tracegrams.Recorder.{Inner}
use tracegrams.Recorder.Bumps.{IsReady, bumped_all, bumped, increment_diagnostic-bumped}
use tracegrams.Marks.{record_manual_mark, record_clocked_mark, measured, advanced, local_of}
use tracegrams.Marks.Places.{mark_places}
use tracegrams.Marks.Refine.{record_valid_mark-places, advance_of}
use tracegrams.Marks.Manual.{advance-IsProgress, record_manual_mark-marked, marked, saturated-lt}
use tracegrams.Marks.Verdict.{
  verdict, is_later, IsProgress, validate_mark-rejected, validate_mark-accepted, accepted-pos,
  accepted-cookie, first_before,
}

-- The plain context that a packed one stands for.
abbrev pub manual_of : Ctx → ManualCtx
manual_of c = record {
  cumulative_ns = c.cumulative_ns;
  cookie = registry_cookie c;
  started_frozen = started_frozen c;
  previous = previous c;
}

-- The elapsed time that a clock reading stands for; an overflowed reading is out of range.
abbrev pub interval : Ctx → ClockReading → ℕ
interval c reading =
    if reading.overflowed then 2 ^ 64 else reading.timestamp_ns - c.last_timestamp_ns

-- The clock went backwards.
abbrev pub has_regressed : Ctx → ClockReading → Bool
has_regressed c reading = ltb reading.timestamp_ns c.last_timestamp_ns

local_of-interval :
    (c : Ctx) (reading : ClockReading)
    → reading.timestamp_ns < 2 ^ 64
    → local_of (interval c reading) ≡ (measured c reading, reading.overflowed)
local_of-interval c reading h = elim (Bool-cases reading.overflowed) [
  | inl e ↦ rw (e, lt→ltb 0 1 (omega arith))
  | inr e ↦ rw (e, lt→ltb (reading.timestamp_ns - c.last_timestamp_ns) (2 ^ 64) (omega arith))
]

abbrev plain_of : ℕ → ℕ → Bool → Option PreviousMark → ManualCtx
plain_of cumulative_ns cookie started before = record {
  cumulative_ns = cumulative_ns;
  cookie = cookie;
  started_frozen = started;
  previous = before;
}

manual_of-Holds :
    (c : Ctx) (cookie : ℕ) (started : Bool) (before : Option PreviousMark)
    → Holds c cookie started before
    → manual_of c ≡ record {
      cumulative_ns = c.cumulative_ns;
      cookie = cookie;
      started_frozen = started;
      previous = before;
    }
manual_of-Holds c cookie started before w =
    let (a, b, d) = Holds-reads c cookie started before w in rw (a, b, d)

measured-lt :
    (c : Ctx) (reading : ClockReading) → reading.timestamp_ns < 2 ^ 64 → measured c reading < 2 ^ 64
measured-lt c reading h = ground arith

module _ (n : ℕ) (r : Inner) (c : Ctx) (cookie : ℕ) (started : Bool) (before : Option PreviousMark)
    (stage : StageId) (reading : ClockReading) (outcome : Option Outcome) (v : IsReady n r)
    (w : Holds c cookie started before) (g : IsProgress n c.cumulative_ns before) where
  pub clocked_rejected :
      (d : Diagnostic)
      → verdict r cookie before stage ≡ some d
      → record_clocked_mark r c stage reading outcome ≡ returns (c, bumped r (anomaly d))
  unfolding record_clocked_mark
  clocked_rejected d e =
      let (cookie_read, started_read, previous_read) = Holds-reads c cookie started before w in
      rw (cookie_read, previous_read, validate_mark-rejected n r v cookie before stage d e)

  pub manual_rejected :
      (d : Diagnostic)
      → (stage.cookie ≡ r.cookie → stage.index < n)
      → verdict r cookie before stage ≡ some d
      → record_manual_mark r (manual_of c) stage (interval c reading) outcome
        ≡ returns (manual_of c, bumped r (anomaly d))
  manual_rejected d fits e =
      let plain = manual_of-Holds c cookie started before w in
      rw plain (
        record_manual_mark-marked n r (plain_of c.cumulative_ns cookie started before) stage
          (interval c reading) outcome v g fits
        ∙ ap
            (λ x. returns (
              marked x r (plain_of c.cumulative_ns cookie started before) stage (interval c reading)
                outcome))
            e)

  pub clocked_regressed :
      verdict r cookie before stage ≡ none
      → has_regressed c reading ≡ true
      → record_clocked_mark r c stage reading outcome
        ≡ returns (c, bumped r (anomaly Diagnostic.clock_regressions))
  unfolding record_clocked_mark
  clocked_regressed e back =
      let (cookie_read, started_read, previous_read) = Holds-reads c cookie started before w in
      rw (
        cookie_read,
        previous_read,
        validate_mark-accepted n r v cookie c.cumulative_ns before stage g e,
        back,
        increment_diagnostic-bumped n r v Diagnostic.clock_regressions,
      )

  abbrev measured_advance : MarkAdvance
  measured_advance = advance_of stage.index c.cumulative_ns (measured c reading)

  abbrev measured_places : List Place
  measured_places =
      mark_places r started stage.index (is_later before) c.cumulative_ns (measured c reading)
        reading.overflowed outcome

  pub clocked_advanced :
      reading.timestamp_ns < 2 ^ 64
      → (stage.cookie ≡ r.cookie → stage.index < n)
      → verdict r cookie before stage ≡ none
      → has_regressed c reading ≡ false
      → record_clocked_mark r c stage reading outcome
        ≡ returns (advanced c reading measured_advance, bumped_all r measured_places)
  unfolding record_clocked_mark
  clocked_advanced t fits e back =
      let (cookie_read, started_read, previous_read) = Holds-reads c cookie started before w in
      rw (
        cookie_read,
        previous_read,
        validate_mark-accepted n r v cookie c.cumulative_ns before stage g e,
        back,
        started_read,
        record_valid_mark-places n r stage.index (is_later before) started reading.overflowed
            c.cumulative_ns (measured c reading) outcome v
            (fits (accepted-cookie r cookie before stage e)) (measured-lt c reading t)
            (first_before n c.cumulative_ns before g) (accepted-pos r cookie before stage e),
      )

  pub advanced-Holds :
      n ≤ 64
      → stage.index < n
      → Holds (advanced c reading measured_advance) cookie started (some measured_advance.previous)
  unfolding advanced
  advanced-Holds small h =
      set_previous-Holds
        (record c {
          last_timestamp_ns = reading.timestamp_ns;
          cumulative_ns = measured_advance.cumulative_ns;
        })
        cookie started before measured_advance.previous
        (record { cookie_fits = w.cookie_fits; small = w.small; word = w.word }) (omega arith)
        (ordinary-lt _)

  advanced-cumulative_ns :
      (advanced c reading measured_advance).cumulative_ns ≡ measured_advance.cumulative_ns
  unfolding advanced set_previous
  advanced-cumulative_ns = refl

  pub advanced-IsProgress :
      stage.index < n
      → IsProgress n
          (advanced c reading measured_advance).cumulative_ns
          (some measured_advance.previous)
  advanced-IsProgress h =
      rw advanced-cumulative_ns
        (advance-IsProgress n stage.index c.cumulative_ns (measured c reading) h)

  pub manual_advanced :
      reading.timestamp_ns < 2 ^ 64
      → n ≤ 64
      → (stage.cookie ≡ r.cookie → stage.index < n)
      → verdict r cookie before stage ≡ none
      → record_manual_mark r (manual_of c) stage (interval c reading) outcome
        ≡ returns (manual_of (advanced c reading measured_advance), bumped_all r measured_places)
  manual_advanced t small fits e =
      let h = fits (accepted-cookie r cookie before stage e) in
      let plain = manual_of-Holds c cookie started before w in
      let after = manual_of-Holds _ cookie started _ (advanced-Holds small h) in
      rw (after, advanced-cumulative_ns, plain)
        (record_manual_mark-marked n r (plain_of c.cumulative_ns cookie started before) stage
            (interval c reading) outcome v g fits
          ∙ (ap
                (λ x. returns (
                  marked x r (plain_of c.cumulative_ns cookie started before) stage
                    (interval c reading) outcome))
                e
              ∙ ap
                  (λ l. returns (
                    record {
                      cumulative_ns = (advance_of stage.index c.cumulative_ns l.0).cumulative_ns;
                      cookie = cookie;
                      started_frozen = started;
                      previous = some (advance_of stage.index c.cumulative_ns l.0).previous;
                    },
                    bumped_all r (
                        mark_places r started stage.index (is_later before) c.cumulative_ns l.0 l.1
                          outcome),
                  ))
                  (local_of-interval c reading t)))
