-- ===== src/Layout/Cover.antt =====
-- The segments of all stages and the diagnostic counters in the storage of src/recorder.rs.
use tracegrams.Prelude.{
  ◌%◌, ◌*◌, ◌+◌, ◌-◌, ◌/◌, ◌<◌, ◌==◌, ◌∙◌, ◌≡◌, ap, arith, if◌then◌else◌, ltb, some, sym, ℕ,
}
use tracegrams.Layout.{
  new_layout, locals, cumulative, cause, incoming, calibration, online, completion, StorageLayout,
  Diagnostic, Population, cell, diagnostic_index,
}
use tracegrams.Layout.Facts.{new_layout-IsLayout, IsLayout, Place, at, anomaly, IsPlace, index_of}

-- The place that owns an index, by the regions in order.
abbrev population_at : ℕ → Population
population_at k =
    if k == 0
    then Population.local
    else if k == 1
    then Population.cumulative_after
    else Population.previous_cumulative

abbrev diagnostic_at : ℕ → Diagnostic
diagnostic_at k =
    if k == 0
    then Diagnostic.invalid_stage_marks
    else if k == 1
    then Diagnostic.invalid_context_marks
    else if k == 2
    then Diagnostic.non_monotonic_marks
    else if k == 3
    then Diagnostic.clock_regressions
    else if k == 4
    then Diagnostic.latency_overflows
    else if k == 5
    then Diagnostic.cumulative_overflows
    else if k == 6
    then Diagnostic.calibration_samples_skipped_while_freezing
    else Diagnostic.online_samples_skipped_missing_previous_threshold

pub owner : ℕ → ℕ → Place
owner n i =
    if ltb i (64 * n)
    then at locals (i / 64) (i % 64)
    else if ltb i (128 * n)
    then at cumulative ((i - 64 * n) / 64) ((i - 64 * n) % 64)
    else if ltb i (4224 * n)
    then at cause ((i - 128 * n) / 4096) ((i - 128 * n) % 4096)
    else if ltb (i + 4096) (8320 * n)
    then at incoming (1 + (i - 4224 * n) / 4096) ((i - 4224 * n) % 4096)
    else if ltb (i + 4096) (9070 * n)
    then at (calibration (population_at ((i + 4096 - 8320 * n) % 750 / 250)))
        ((i + 4096 - 8320 * n) / 750) ((i + 4096 - 8320 * n) % 750 % 250)
    else if ltb (i + 4096) (9082 * n)
    then at online ((i + 4096 - 9070 * n) / 12) ((i + 4096 - 9070 * n) % 12)
    else if ltb (i + 4096) (9084 * n)
    then at completion ((i + 4096 - 9082 * n) / 2) ((i + 4096 - 9082 * n) % 2)
    else anomaly (diagnostic_at (i + 4096 - 9084 * n))

module _ (n : ℕ) (l : StorageLayout) (v : IsLayout n l) where
  pub index-lt : (p : Place) → IsPlace n p → index_of l p < l.counter_count
  unfolding cell diagnostic_index
  index-lt (at locals stage offset) h = omega arith
  index-lt (at cumulative stage offset) h = omega arith
  index-lt (at cause stage offset) h = omega arith
  index-lt (at incoming stage offset) h = omega arith
  index-lt (at (calibration Population.local) stage offset) h = omega arith
  index-lt (at (calibration Population.cumulative_after) stage offset) h = omega arith
  index-lt (at (calibration Population.previous_cumulative) stage offset) h = omega arith
  index-lt (at online stage offset) h = omega arith
  index-lt (at completion stage offset) h = omega arith
  index-lt (anomaly d) h = ground arith

  owner-index : (p : Place) → IsPlace n p → owner n (index_of l p) ≡ p
  unfolding owner cell diagnostic_index
  owner-index (at locals stage offset) h = ground arith
  owner-index (at cumulative stage offset) h = ground arith
  owner-index (at cause stage offset) h = ground arith
  owner-index (at incoming stage offset) h = ground arith
  owner-index (at (calibration Population.local) stage offset) h = ground arith
  owner-index (at (calibration Population.cumulative_after) stage offset) h = ground arith
  owner-index (at (calibration Population.previous_cumulative) stage offset) h = ground arith
  owner-index (at online stage offset) h = ground arith
  owner-index (at completion stage offset) h = ground arith
  owner-index (anomaly d) h = ground arith

  -- Region by region, the index of the owner.
  in_locals : (i : ℕ) → i < 64 * n → cell l locals (i / 64) (i % 64) ≡ i
  unfolding cell
  in_locals i h = ground arith

  in_cumulative : (i j : ℕ) → j < 64 * n → 64 * n + j ≡ i → cell l cumulative (j / 64) (j % 64) ≡ i
  unfolding cell
  in_cumulative i j h e = ground arith

  in_cause : (i j : ℕ) → j < 4096 * n → 128 * n + j ≡ i → cell l cause (j / 4096) (j % 4096) ≡ i
  unfolding cell
  in_cause i j h e = ground arith

  in_incoming :
      (i j : ℕ)
      → j + 4096 < 4096 * n
      → 4224 * n + j ≡ i
      → cell l incoming (1 + j / 4096) (j % 4096) ≡ i
  unfolding cell
  in_incoming i j h e = ground arith

  in_calibration :
      (i j : ℕ)
      → j < 750 * n
      → 8320 * n + j ≡ i + 4096
      → cell l (calibration (population_at (j % 750 / 250))) (j / 750) (j % 750 % 250) ≡ i
  unfolding cell
  in_calibration i j h e = ground arith

  in_online : (i j : ℕ) → j < 12 * n → 9070 * n + j ≡ i + 4096 → cell l online (j / 12) (j % 12) ≡ i
  unfolding cell
  in_online i j h e = ground arith

  in_completion :
      (i j : ℕ) → j < 2 * n → 9082 * n + j ≡ i + 4096 → cell l completion (j / 2) (j % 2) ≡ i
  unfolding cell
  in_completion i j h e = ground arith

  in_diagnostics :
      (i j : ℕ) → j < 8 → 9084 * n + j ≡ i + 4096 → diagnostic_index l (diagnostic_at j) ≡ i
  unfolding diagnostic_index
  in_diagnostics i j h e = ground arith

  index-owner : (i : ℕ) → i < l.counter_count → index_of l (owner n i) ≡ i
  unfolding owner
  index-owner i h = ground (
    arith,
    in_locals i,
    in_cumulative i (i - 64 * n),
    in_cause i (i - 128 * n),
    in_incoming i (i - 4224 * n),
    in_calibration i (i + 4096 - 8320 * n),
    in_online i (i + 4096 - 9070 * n),
    in_completion i (i + 4096 - 9082 * n),
    in_diagnostics i (i + 4096 - 9084 * n),
  )

  owner-IsPlace : (i : ℕ) → i < l.counter_count → IsPlace n (owner n i)
  unfolding owner
  owner-IsPlace i h = ground arith

  pub apart : (p p' : Place) → IsPlace n p → IsPlace n p' → index_of l p ≡ index_of l p' → p ≡ p'
  apart p p' h h' same = sym (owner-index p h) ∙ (ap (owner n) same ∙ owner-index p' h')

-- The places of `n` stages are exactly the indices of the storage.
pub record Covers (n : ℕ) (l : StorageLayout) : Type 0 where
  pub in_bounds : (p : Place) → IsPlace n p → index_of l p < l.counter_count
  pub apart : (p p' : Place) → IsPlace n p → IsPlace n p' → index_of l p ≡ index_of l p' → p ≡ p'
  pub full : (i : ℕ) → i < l.counter_count → (p : Place) × IsPlace n p × (index_of l p ≡ i)

-- In every layout that `new_layout` returns, each place (an offset within a segment of a stage, or a
-- diagnostic counter) has an index inside the storage, two different places never share an index,
-- and every index of the storage belongs to a place.
pub new_layout-Covers : (n : ℕ) (l : StorageLayout) → new_layout n ≡ some l → Covers n l
new_layout-Covers n l e =
    let v = new_layout-IsLayout n l e in
    record {
      in_bounds = index-lt n l v;
      apart = apart n l v;
      full = λ i h. (owner n i, owner-IsPlace n l v i h, index-owner n l v i h);
    }
