-- ===== src/Marks/Calibrating.antt =====
-- The calibration and outcome blocks of `record_valid_mark` in src/context.rs, beside their
-- specified places.
use tracegrams.Prelude.{
  ◌<◌, ◌==◌, ◌∙◌, ◌≡◌, Bool, Bool-cases, Option, Option-cases, ap, arith, false, from_bool,
  get_elem?, get_elem?-eq-some, get_or, inl, inr, leb, lt→ltb, none, refl, returns, some, true, ℕ,
}
use tracegrams.Bucket.Spec.{bucket_of, grid, grid-lt, calibration_bucketize-grid}
use tracegrams.Context.{Outcome}
use tracegrams.Calibration.{FrozenStageCalibration, previous_cumulative_threshold}
use tracegrams.Recorder.{Inner}
use tracegrams.Recorder.Bumps.{
  IsUsable, IsReady, value_ns, bumped, bumped_all, increment-bumped, increment_diagnostic-bumped,
  bumped-IsReady,
}
use tracegrams.Layout.{
  Segment, Diagnostic, Population, first_online_counter, predecessor_online_counter,
  calibration_index, completion_index, online_index,
}
use tracegrams.Layout.Facts.{at, index_of}
use tracegrams.Updates.{
  record_collecting, record_frozen_online, record_outcome, record_calibration, is_error,
}
use tracegrams.Marks.Places.{
  collecting_places, classified_place, online_places, calibration_places, outcome_places,
}
use tracegrams.Marks.Blocks.{before_of, increment_next, bumped-layout}

module _ (n : ℕ) (r : Inner) (v : IsReady n r) where
  -- A grid index passes the assertion of `calibration_index`.
  grid_assert :
      (stage value : ℕ) (p : Population)
      → calibration_index r.layout stage p (grid value)
        ≡ returns (index_of r.layout (at (Segment.calibration p) stage (grid value)))
  unfolding calibration_index
  grid_assert stage value p = rw (lt→ltb (grid value) 250 (grid-lt value))

  collecting_first :
      (stage before_ns local_ns : ℕ)
      → stage < n
      → record_collecting r before_ns stage none local_ns local_ns
          (bucket_of local_ns)
          (bucket_of local_ns)
        ≡ returns (bumped_all r (collecting_places stage false before_ns local_ns local_ns))
  unfolding record_collecting bumped_all
  collecting_first stage before_ns local_ns h =
      let p₁ = at (Segment.calibration Population.local) stage (grid local_ns) in
      let p₂ = at (Segment.calibration Population.cumulative_after) stage (grid local_ns) in
      rw (
        calibration_bucketize-grid local_ns,
        grid_assert stage local_ns Population.local,
        increment-bumped n r v p₁ (h, grid-lt local_ns),
        grid_assert stage local_ns Population.cumulative_after,
        increment_next n r (bumped r p₁) p₂ (bumped-IsReady n r v p₁) (bumped-layout r p₁)
            (h, grid-lt local_ns),
      )

  pub record_collecting-places :
      (stage : ℕ) (later : Bool) (before_ns local_ns cumulative_ns : ℕ)
      → stage < n
      → (later ≡ false → cumulative_ns ≡ local_ns)
      → record_collecting r before_ns stage
          (before_of later stage before_ns)
          local_ns
          cumulative_ns
          (bucket_of local_ns)
          (bucket_of cumulative_ns)
        ≡ returns (bumped_all r (collecting_places stage later before_ns local_ns cumulative_ns))
  unfolding record_collecting bumped_all
  record_collecting-places stage false before_ns local_ns cumulative_ns h first =
      rw (first refl) (collecting_first stage before_ns local_ns h)
  record_collecting-places stage true before_ns local_ns cumulative_ns h first =
      let p₁ = at (Segment.calibration Population.local) stage (grid local_ns) in
      let p₂ = at (Segment.calibration Population.cumulative_after) stage (grid cumulative_ns) in
      let p₃ = at (Segment.calibration Population.previous_cumulative) stage (grid before_ns) in
      let r₁ = bumped r p₁ in
      let r₂ = bumped r₁ p₂ in
      let v₁ = bumped-IsReady n r v p₁ in
      let v₂ = bumped-IsReady n r₁ v₁ p₂ in
      rw (
        calibration_bucketize-grid local_ns,
        calibration_bucketize-grid cumulative_ns,
        grid_assert stage local_ns Population.local,
        increment-bumped n r v p₁ (h, grid-lt local_ns),
        grid_assert stage cumulative_ns Population.cumulative_after,
        increment_next n r r₁ p₂ v₁ (bumped-layout r p₁) (h, grid-lt cumulative_ns),
        calibration_bucketize-grid before_ns,
        grid_assert stage before_ns Population.previous_cumulative,
        increment_next n r r₂ p₃ v₂ (bumped-layout r₁ p₂ ∙ bumped-layout r p₁)
            (h, grid-lt before_ns),
      )

  pub record_outcome-places :
      (stage : ℕ) (outcome : Option Outcome)
      → stage < n
      → record_outcome r stage outcome ≡ returns (bumped_all r (outcome_places stage outcome))
  unfolding record_outcome bumped_all completion_index
  record_outcome-places stage none h = refl
  record_outcome-places stage (some o) h =
      increment-bumped n r v (at Segment.completion stage (from_bool (is_error o)))
        (h, error_fits o)
    where
      error_fits : (o : Outcome) → from_bool (is_error o) < 2
      error_fits Outcome.success = omega arith
      error_fits Outcome.failure = omega arith

  first-lt : (a b : Bool) → first_online_counter a b < 12
  unfolding first_online_counter
  first-lt a b = ground arith

  predecessor-lt : (a b c : Bool) → predecessor_online_counter a b c < 12
  unfolding predecessor_online_counter
  predecessor-lt a b c = ground arith

  classified_lem :
      (c : FrozenStageCalibration) (stage : ℕ) (later : Bool) (before_ns local_ns cumulative_ns : ℕ)
      → IsUsable c
      → stage < n
      → get_elem? r.frozen_calibration stage ≡ some (some c)
      → record_frozen_online r true before_ns stage
          (before_of later stage before_ns)
          local_ns
          cumulative_ns
        ≡ returns (bumped r (classified_place c stage later before_ns local_ns cumulative_ns))
  unfolding record_frozen_online online_index
  classified_lem c stage false before_ns local_ns cumulative_ns u h e = rw (
    e,
    u.local_read,
    u.after_read,
    increment-bumped n r v (classified_place c stage false before_ns local_ns cumulative_ns)
        (h, first-lt _ _),
  )
  classified_lem c stage true before_ns local_ns cumulative_ns u h e =
      elim (Option-cases (previous_cumulative_threshold c)) [
        | inl missing ↦ rw (
          e,
          u.local_read,
          u.after_read,
          missing,
          increment_diagnostic-bumped n r v
              Diagnostic.online_samples_skipped_missing_previous_threshold,
        )
        | inr (previous_ns, found) ↦ rw (
          e,
          u.local_read,
          u.after_read,
          found,
          increment-bumped n r v
              (at Segment.online stage (
                predecessor_online_counter (leb previous_ns before_ns)
                  (leb (value_ns c.report.local.estimate) local_ns)
                  (leb (value_ns c.report.cumulative_after.estimate) cumulative_ns)))
              (h, predecessor-lt _ _ _),
        )
      ]

  pub online_places_lem :
      (started : Bool) (stage : ℕ) (later : Bool) (before_ns local_ns cumulative_ns : ℕ)
      → stage < n
      → record_frozen_online r started before_ns stage
          (before_of later stage before_ns)
          local_ns
          cumulative_ns
        ≡ returns
            (bumped_all r (online_places r started stage later before_ns local_ns cumulative_ns))
  unfolding bumped_all record_frozen_online
  online_places_lem false stage later before_ns local_ns cumulative_ns h = refl
  online_places_lem true stage later before_ns local_ns cumulative_ns h =
      let e = get_elem?-eq-some r.frozen_calibration stage none (rw v.cells h) in
      elim (Option-cases (get_or r.frozen_calibration stage none)) [
        | inl missing ↦ rw (e, missing)
        | inr (c, found) ↦
            let published = e ∙ ap some found in
            rw found (
              classified_lem c stage later before_ns local_ns cumulative_ns
                (v.usable stage c published) h published)
      ]

  pub record_calibration-places :
      (started : Bool) (stage : ℕ) (later : Bool) (before_ns local_ns cumulative_ns : ℕ)
      → stage < n
      → (later ≡ false → cumulative_ns ≡ local_ns)
      → record_calibration r started before_ns stage
          (before_of later stage before_ns)
          local_ns
          cumulative_ns
          (bucket_of local_ns)
          (bucket_of cumulative_ns)
        ≡ returns (
            bumped_all r
              (calibration_places r started stage later before_ns local_ns cumulative_ns))
  unfolding record_calibration bumped_all
  record_calibration-places started stage later before_ns local_ns cumulative_ns h first =
      elim (Bool-cases (r.calibration_state == 0)) [
        | inl e₀ ↦
            rw e₀ (record_collecting-places stage later before_ns local_ns cumulative_ns h first)
        | inr e₀ ↦ elim (Bool-cases (r.calibration_state == 1)) [
          | inl e₁ ↦ rw (
            e₀,
            e₁,
            increment_diagnostic-bumped n r v Diagnostic.calibration_samples_skipped_while_freezing,
          )
          | inr e₁ ↦
              let e₂ : (r.calibration_state == 2) ≡ true = ground (arith, v.state_ok) in
              rw (e₀, e₁, e₂)
                (online_places_lem started stage later before_ns local_ns cumulative_ns h)
        ]
      ]
