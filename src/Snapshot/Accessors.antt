-- ===== src/Snapshot/Accessors.antt =====
-- The summaries of a snapshot in src/snapshot.rs: sample counts, completions and diagnostics.
use tracegrams.Registry.{StageId}
use tracegrams.Layout.{Segment, Diagnostic, Population, is_incoming}
use tracegrams.Layout.Cover.{index-lt}
use tracegrams.Layout.Facts.{at, anomaly, index_of}
use tracegrams.Snapshot.Reads.{counts-Reads, has_segment, IsSnapshot, Reads}
use tracegrams.Snapshot.{
  SampleCounts, Snapshot, sample_counts, completion_counts, diagnostics, diagnostic_count, with_sum,
  counts, local_counts, cumulative_counts, cause_counts, incoming_counts, calibration_counts,
  online_counts,
}
use tracegrams.Prelude.{
  ◌&&◌, ◌<◌, ◌==◌, ◌≡◌, List, Option, arith, false, get_elem?, get_elem?-eq-some, get_or, inl, inr,
  length, ltb, none, refl, returns, some, sum, true, ℕ,
}

-- A number is the sum of a segment.
abbrev pub Totals : Snapshot → ℕ → Segment → ℕ → Type 0
Totals s stage segment k = (xs : List ℕ) × Reads s stage segment xs × (k ≡ sum xs)

pub record IsSampled (s : Snapshot) (stage : ℕ) (c : SampleCounts) : Type 0 where
  pub local : Totals s stage Segment.locals c.local
  pub cumulative_after : Totals s stage Segment.cumulative c.cumulative_after
  pub cause : Totals s stage Segment.cause c.cause
  pub first : stage ≡ 0 → c.incoming ≡ 0
  pub incoming : 0 < stage → Totals s stage Segment.incoming c.incoming
  pub calibration_local : Totals s stage (Segment.calibration Population.local) c.calibration_local
  pub calibration_cumulative_after :
      Totals s stage
        (Segment.calibration Population.cumulative_after)
        c.calibration_cumulative_after
  pub calibration_previous_cumulative :
      Totals s stage
        (Segment.calibration Population.previous_cumulative)
        c.calibration_previous_cumulative
  pub online : Totals s stage Segment.online c.online

module _ (n : ℕ) (s : Snapshot) (stage : StageId) (v : IsSnapshot n s) where
  segment_of :
      (segment : Segment)
      → has_segment s stage segment ≡ true
      → (xs : List ℕ) × (counts s stage segment ≡ returns (some xs))
        × Reads s stage.index segment xs
  segment_of segment here = elim (counts-Reads n s stage segment v) [
    | inl (missing, run) ↦ absurd (ground (arith, here))
    | inr (there, xs, run, reads) ↦ (xs, run, reads)
  ]

  -- An own stage has every segment, but the first has no incoming matrix.
  module _ (own : (stage.cookie == s.cookie && ltb stage.index (length s.stages)) ≡ true) where
    has : (segment : Segment) → is_incoming segment ≡ false → has_segment s stage segment ≡ true
    has segment other = ground (arith, own)

    abbrev sum_found : Option (List ℕ) → ℕ
    sum_found o = elim o as (λ x. ℕ) [ none ↦ 0 | some xs ↦ sum xs ]

    incoming_of :
        (o : Option (List ℕ)) × (counts s stage Segment.incoming ≡ returns o)
        × (stage.index ≡ 0 → sum_found o ≡ 0)
        × (0 < stage.index → Totals s stage.index Segment.incoming (sum_found o))
    incoming_of = elim (counts-Reads n s stage Segment.incoming v) [
      | inl (missing, run) ↦ (none, run, λ zeroth. refl, λ pos. absurd (ground (arith, own)))
      | inr (there, xs, run, reads) ↦
          (some xs, run, λ zeroth. absurd (ground (arith, own)), λ pos. (xs, reads, refl))
    ]

    -- For a stage of the recorder that a snapshot was taken of, the sample counts are returned, and each is
    -- the sum of the counters of its segment; incoming samples are none for the first stage.
    pub sample_counts-IsSampled :
        (c : SampleCounts) × (sample_counts s stage ≡ returns (some c)) × IsSampled s stage.index c
    unfolding sample_counts with_sum local_counts cumulative_counts cause_counts incoming_counts
        calibration_counts online_counts
    sample_counts-IsSampled =
        let (a, run₁, is₁) = segment_of Segment.locals (has Segment.locals refl) in
        let (b, run₂, is₂) = segment_of Segment.cumulative (has Segment.cumulative refl) in
        let (c, run₃, is₃) = segment_of Segment.cause (has Segment.cause refl) in
        let (o, run₄, is_first, is_later) = incoming_of in
        let at_local = Segment.calibration Population.local in
        let at_after = Segment.calibration Population.cumulative_after in
        let at_before = Segment.calibration Population.previous_cumulative in
        let (d, run₅, is₅) = segment_of at_local (has at_local refl) in
        let (e, run₆, is₆) = segment_of at_after (has at_after refl) in
        let (f, run₇, is₇) = segment_of at_before (has at_before refl) in
        let (g, run₈, is₈) = segment_of Segment.online (has Segment.online refl) in
        (
          record {
            local = sum a;
            cumulative_after = sum b;
            cause = sum c;
            incoming = sum_found o;
            calibration_local = sum d;
            calibration_cumulative_after = sum e;
            calibration_previous_cumulative = sum f;
            online = sum g;
          },
          rw (run₁, run₂, run₃, run₄, run₅, run₆, run₇, run₈),
          record {
            local = (a, is₁, refl);
            cumulative_after = (b, is₂, refl);
            cause = (c, is₃, refl);
            first = is_first;
            incoming = is_later;
            calibration_local = (d, is₅, refl);
            calibration_cumulative_after = (e, is₆, refl);
            calibration_previous_cumulative = (f, is₇, refl);
            online = (g, is₈, refl);
          },
        )

    -- The completions of such a stage are its two completion counters.
    pub completion_counts-read :
        completion_counts s stage
        ≡ returns (
            some (record {
              success =
                  get_or s.counters (index_of s.layout (at Segment.completion stage.index 0)) 0;
              error = get_or s.counters (index_of s.layout (at Segment.completion stage.index 1)) 0;
            }))
    unfolding completion_counts
    completion_counts-read =
        let (xs, run, is) = segment_of Segment.completion (has Segment.completion refl) in
        let two : (length xs == 2) ≡ true = ground (arith, is.sized) in
        rw (run, two, is.read 0 (omega arith), is.read 1 (omega arith))

-- The counter of a diagnostic.
abbrev pub anomalies : Snapshot → Diagnostic → ℕ
anomalies s d = get_or s.counters (index_of s.layout (anomaly d)) 0

-- The diagnostics of a snapshot of a recorder are returned, and each is the counter of the diagnostic of
-- its name.
pub diagnostics-anomalies :
    (n : ℕ) (s : Snapshot)
    → IsSnapshot n s
    → diagnostics s
      ≡ returns (record {
        invalid_stage_marks = anomalies s Diagnostic.invalid_stage_marks;
        invalid_context_marks = anomalies s Diagnostic.invalid_context_marks;
        non_monotonic_marks = anomalies s Diagnostic.non_monotonic_marks;
        clock_regressions = anomalies s Diagnostic.clock_regressions;
        latency_overflows = anomalies s Diagnostic.latency_overflows;
        cumulative_overflows = anomalies s Diagnostic.cumulative_overflows;
        calibration_samples_skipped_while_freezing =
            anomalies s Diagnostic.calibration_samples_skipped_while_freezing;
        online_samples_skipped_missing_previous_threshold =
            anomalies s Diagnostic.online_samples_skipped_missing_previous_threshold;
      })
unfolding diagnostics diagnostic_count
diagnostics-anomalies n s v =
    let read : (d : Diagnostic)
        → get_elem? s.counters (index_of s.layout (anomaly d)) ≡ some (anomalies s d) =
      λ d.
        get_elem?-eq-some s.counters (index_of s.layout (anomaly d)) 0
          (omega (arith, v.sized, index-lt n s.layout v.layout_ok (anomaly d) tt)) in
    rw (
      read Diagnostic.invalid_stage_marks,
      read Diagnostic.invalid_context_marks,
      read Diagnostic.non_monotonic_marks,
      read Diagnostic.clock_regressions,
      read Diagnostic.latency_overflows,
      read Diagnostic.cumulative_overflows,
      read Diagnostic.calibration_samples_skipped_while_freezing,
      read Diagnostic.online_samples_skipped_missing_previous_threshold,
    )
