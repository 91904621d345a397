-- ===== src/Estimate/Terminals.antt =====
-- The calibration estimate of src/bucket.rs: when it is given, and its terminal.
use tracegrams.Prelude.{
  ◌-◌, ◌<◌, ◌==◌, ◌^◌, ◌≡◌, ◌≤◌, Bool-cases, List, Option, arith, get_elem?, get_elem?-eq-some,
  get_or, inl, inr, length, none, refl, returns, some, suc, sum, true, ℕ,
}
use tracegrams.Bounds.{calibration_bounds}
use tracegrams.Bucket.Search.{
  length-calibration_bounds, calibration_bounds-IsAscending, ascending_le,
}
use tracegrams.Float.{F64, Float}
use tracegrams.Rank.{BucketThreshold}
use tracegrams.Rank.Exact.{IsTailQuantile}
use tracegrams.Rank.Select.{nearest_rank-Selects}
use tracegrams.Estimate.{
  relative_error, CalibrationEstimate, Terminal, estimate_quantile, estimate_at, bracket,
  finite_with, finite_representative,
}
use tracegrams.Estimate.Value.{finite_representative_lem}
use tracegrams.Calibration.{is_finite}

last_bound : get_or calibration_bounds 248 0 < 2 ^ 63
unfolding calibration_bounds
last_bound = omega arith

bound-lt : (k : ℕ) → k < 249 → get_or calibration_bounds k 0 < 2 ^ 63
bound-lt k h =
    let le =
      ascending_le calibration_bounds calibration_bounds-IsAscending k 248 (omega arith)
        (omega (arith, length-calibration_bounds)) in
    omega (arith, last_bound)

read_bound :
    (k : ℕ) → k < 249 → get_elem? calibration_bounds k ≡ some (get_or calibration_bounds k 0)
read_bound k h = get_elem?-eq-some calibration_bounds k 0 (omega (arith, length-calibration_bounds))

abbrev HasValue : Option ℕ × Option ℕ × Terminal → Type 0
HasValue b = is_finite b.2 ≡ true → (v : ℕ) × (finite_with b.0 b.1 finite_representative ≡ some v)

-- Between two neighbouring bounds there is a representative.
inner_value :
    (k : ℕ)
    → 0 < k
    → k < 249
    → (v : ℕ) × (finite_representative
          (get_or calibration_bounds (k - 1) 0)
          (get_or calibration_bounds k 0)
        ≡ some v)
inner_value k pos h =
    let e : suc (k - 1) ≡ k = omega arith in
    let up = calibration_bounds-IsAscending (k - 1) (omega (arith, length-calibration_bounds)) in
    let up₁ : get_or calibration_bounds (k - 1) 0 < get_or calibration_bounds k 0 = (rw e at up) in
    let (v, run, a, b, c, d) = finite_representative_lem _ _ up₁ (bound-lt k h) in (v, run)

bracket-HasValue :
    (k : ℕ)
    → k ≤ 249
    → (b : Option ℕ × Option ℕ × Terminal) × (bracket k calibration_bounds ≡ returns b) × HasValue b
unfolding bracket finite_with
bracket-HasValue k h = elim (Bool-cases (k == 0)) [
  | inl first ↦ (
    (none, some (get_or calibration_bounds 0 0), Terminal.lower),
    rw (first, read_bound 0 (omega arith)),
    λ e. absurd cc,
  )
  | inr inside ↦ elim (Bool-cases (k == 249)) [
    | inl last ↦ (
      (get_elem? calibration_bounds (k - 1), none, Terminal.upper),
      rw (inside, length-calibration_bounds, last),
      λ e. absurd cc,
    )
    | inr below ↦ (
      (
        some (get_or calibration_bounds (k - 1) 0),
        some (get_or calibration_bounds k 0),
        Terminal.finite,
      ),
      rw (
        inside,
        length-calibration_bounds,
        below,
        read_bound (k - 1) (ground arith),
        read_bound k (ground arith),
      ),
      λ e. inner_value k (ground arith) (ground arith),
    )
  ]
]

-- A finite estimate has a value.
abbrev pub IsValued : Option CalibrationEstimate → Type 0
IsValued none = Unit
IsValued (some e) = is_finite e.terminal ≡ true → (v : ℕ) × (e.value ≡ some v)

-- What the estimate of a population of `samples` samples is.
pub record IsEstimate (samples : ℕ) (o : Option CalibrationEstimate) : Type 0 where
  pub absent : samples ≡ 0 → o ≡ none
  pub present : 0 < samples → (e : CalibrationEstimate) × (o ≡ some e)
  pub valued : IsValued o

module _ ⦃float : Float⦄ where
  estimate_at-IsValued :
      (t : BucketThreshold)
      → t.bucket ≤ 249
      → (e : CalibrationEstimate) × (estimate_at calibration_bounds t ≡ returns e)
        × IsValued (some e)
  unfolding estimate_at
  estimate_at-IsValued t h =
      let (b, read, has) = bracket-HasValue t.bucket h in
      (
        record {
          rank = t.rank;
          samples = t.samples;
          lower_bound = b.0;
          upper_bound = b.1;
          value = finite_with b.0 b.1 finite_representative;
          max_relative_error = finite_with b.0 b.1 relative_error;
          terminal = b.2;
        },
        rw read,
        has,
      )

  -- For 250 counts whose total fits `u64`, and an accepted quantile, the estimate on the calibration
  -- bounds does not panic; it is absent exactly for an empty population, and where its terminal is
  -- finite it has a value.
  pub estimate_quantile-IsEstimate :
      (counts : List ℕ) (q : F64)
      → length counts ≡ 250
      → IsTailQuantile q
      → sum counts < 2 ^ 64
      → (o : Option CalibrationEstimate) × (estimate_quantile counts calibration_bounds q
          ≡ returns o)
        × IsEstimate (sum counts) o
  unfolding estimate_quantile
  estimate_quantile-IsEstimate counts q sized v small =
      elim (nearest_rank-Selects counts q v small) [
        | inl (empty, run) ↦ (
          none,
          rw (sized, length-calibration_bounds, run),
          record { absent = λ e. refl; present = λ pos. absurd (omega arith); valued = tt },
        )
        | inr (pos, (t, run, same, ranked, s)) ↦
            let (e, made, has) = estimate_at-IsValued t (omega (arith, s.within)) in
            (
              some e,
              rw (sized, length-calibration_bounds, run, made),
              record { absent = λ z. absurd (omega arith); present = λ p. (e, refl); valued = has },
            )
      ]
