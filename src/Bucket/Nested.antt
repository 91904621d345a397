-- ===== src/Bucket/Nested.antt =====
-- The calibration grid of src/bucket.rs beside the ordinary one, and the search of four buckets
-- inside an ordinary bucket.
use native.Mathlib.Decide.{dec_lt}
use tracegrams.Prelude.{
  ◌*◌, ◌+◌, ◌-◌, ◌<◌, ◌==◌, ◌>>=◌, ◌≡◌, ◌≤◌, ==_iff, Bool, Bool-cases, List, ap, arith, drop,
  get_or, get_or-drop, get_or-take, inl, inr, length, length-drop, length-take, refl, returns, suc,
  sym, table_holds, table_holds_lem, take, true, zero, ℕ,
}
use tracegrams.Bounds.{default_bounds, calibration_bounds}
use tracegrams.Bucket.{Bucket, slice, bucketize, default_bucketize, calibration_bucketize}
use tracegrams.Bucket.Search.{
  Brackets, Brackets-unique, partition_point-Brackets, calibration_bucketize_found,
  default_bucketize-Brackets, length-default_bounds, length-calibration_bounds,
  calibration_bounds-IsAscending,
}

nested_at : ℕ → Bool
nested_at i = get_or calibration_bounds (4 * i) 0 == get_or default_bounds i 0

nested_table : table_holds nested_at 63 ≡ true
unfolding table_holds nested_at default_bounds calibration_bounds
nested_table = refl

-- Every fourth calibration bound is an ordinary bound.
pub nested : (i : ℕ) → i < 63 → get_or calibration_bounds (4 * i) 0 ≡ get_or default_bounds i 0
unfolding nested_at
nested i h = (==_iff _ _).0 (table_holds_lem nested_at 63 i h nested_table)

abbrev first_of_four : ℕ → ℕ
first_of_four b = 1 + (b - 1) * 4

abbrev four_of : ℕ → List ℕ
four_of b = take (first_of_four b + 3 - first_of_four b) (drop (first_of_four b) calibration_bounds)

module _ (b : ℕ) (lo : 0 < b) (hi : b < 63) where
  length-four_of : length (four_of b) ≡ 3
  length-four_of = rw length-take (
      omega
        (arith, length-drop {0} (first_of_four b) calibration_bounds, length-calibration_bounds))

  four_of_lem :
      (j : ℕ) → j < 3 → get_or (four_of b) j 0 ≡ get_or calibration_bounds (first_of_four b + j) 0
  four_of_lem j h = rw (
    get_or-take (first_of_four b + 3 - first_of_four b) (drop (first_of_four b) calibration_bounds)
        j 0 (omega arith),
    get_or-drop,
  )

  -- A bracket among the four extends to a bracket in the whole grid.
  four_of-Brackets :
      (value p : ℕ)
      → Brackets value default_bounds b
      → Brackets value (four_of b) p
      → Brackets value calibration_bounds (first_of_four b + p)
  four_of-Brackets value p d f = record {
    within = omega (arith, f.within, length-four_of, length-calibration_bounds);
    above = λ _. above p (d.above lo) f.above (omega (arith, f.within, length-four_of));
    below = λ _. elim (dec_lt p 3) [
      | yes h ↦ rw (← four_of_lem p h) (f.below (omega (arith, length-four_of)))
      | no h ↦
          let e : first_of_four b + p ≡ 4 * b = omega (arith, f.within, length-four_of) in
          rw (e, nested b hi) (d.below (omega (arith, length-default_bounds)))
    ];
  }
    where
      above :
          (q : ℕ)
          → get_or default_bounds (b - 1) 0 ≤ value
          → (0 < q → get_or (four_of b) (q - 1) 0 ≤ value)
          → q ≤ 3
          → get_or calibration_bounds (first_of_four b + q - 1) 0 ≤ value
      above zero start inner h =
          let e : first_of_four b + 0 - 1 ≡ 4 * (b - 1) = omega arith in
          rw (e, nested (b - 1) (omega arith)) start
      above (suc q) start inner h =
          let e : first_of_four b + suc q - 1 ≡ first_of_four b + q = omega arith in
          let e' : suc q - 1 ≡ q = omega arith in
          rw (e, ← four_of_lem q (omega arith)) (rw e' at (inner (omega arith)))

slice-returns :
    (xs : List ℕ) (from to : ℕ)
    → from ≤ to
    → to ≤ length xs
    → slice xs from to ≡ returns (take (to - from) (drop from xs))
unfolding slice
slice-returns xs from to h k = ground arith

lowest-Brackets :
    (value k : ℕ) → k ≡ 0 → Brackets value default_bounds k → Brackets value calibration_bounds 0
lowest-Brackets value k e br =
    let start : get_or default_bounds 0 0 ≡ get_or calibration_bounds 0 0 =
      sym (nested 0 (omega arith)) in
    let low : value < get_or default_bounds 0 0 =
      rw e at (br.below (omega (arith, length-default_bounds))) in
    ground arith

highest-Brackets :
    (value k : ℕ) → k ≡ 63 → Brackets value default_bounds k → Brackets value calibration_bounds 249
highest-Brackets value k e br =
    let last : get_or calibration_bounds 248 0 ≡ get_or default_bounds 62 0 =
      nested 62 (omega arith) in
    let high : get_or default_bounds 62 0 ≤ value = rw e at (br.above (omega arith)) in
    ground (arith, length-calibration_bounds)

-- What `calibration_bucketize` returns is the bracket of the value in the whole grid.
found_nested :
    (value : ℕ) (b : Bucket)
    → b.index < 64
    → Brackets value default_bounds b.index
    → (j : ℕ) × (calibration_bucketize value b ≡ returns j) × Brackets value calibration_bounds j
unfolding calibration_bucketize
found_nested value b small br = elim (Bool-cases (b.index == 0)) [
  | inl lowest ↦ (0, rw lowest, lowest-Brackets value b.index (ground arith) br)
  | inr above ↦ elim (Bool-cases (b.index == 63)) [
    | inl highest ↦ (249, rw (above, highest), highest-Brackets value b.index (ground arith) br)
    | inr inner ↦ (
      _,
      rw (above, inner)
          (rw (
            slice-returns calibration_bounds (first_of_four b.index) (first_of_four b.index + 3)
              (omega arith) (ground (arith, length-calibration_bounds)))),
      four_of-Brackets b.index (ground arith) (ground arith) value _ br
          (partition_point-Brackets value (four_of b.index)),
    )
  ]
]

-- `calibration_bucketize`, given the ordinary bucket of the value, never panics and returns the
-- bucket that `bucketize` finds in the whole calibration grid.
pub calibration_bucketize-eq-bucketize :
    (value : ℕ)
    → (default_bucketize value >>= calibration_bucketize value) ≡ bucketize value calibration_bounds
calibration_bucketize-eq-bucketize value =
    let (b, run, small, br) = default_bucketize-Brackets value in
    let (j, fast, brj) = found_nested value b small br in
    let (k, slow, brk) = calibration_bucketize_found value in
    rw (run, fast, slow)
      (ap returns
        (Brackets-unique calibration_bounds calibration_bounds-IsAscending value j k brj brk))
