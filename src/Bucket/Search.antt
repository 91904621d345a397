-- ===== src/Bucket/Search.antt =====
-- Searching an ascending table of bounds in src/bucket.rs for the bucket of a value.
use native.Mathlib.Numerals.{unary_clauses}
use tracegrams.Prelude.{
  ◌+◌, ◌-◌, ◌<◌, ◌∷◌, ◌≡◌, ◌≤◌, Bool, Bool-cases, List, [], arith, get_or, inl, inr, leb, leb→le,
  length, ltb, ltb→lt, lt→ltb, refl, returns, suc, table_holds, table_holds_lem, true, zero, ℕ,
}
use tracegrams.Bounds.{default_bounds, calibration_bounds}
use tracegrams.Bucket.{Bucket, partition_point, bucketize, default_bucketize}

-- Each bound starts the next bucket: bucket `k` holds the values from bound `k - 1`, where there is
-- one, up to bound `k`, exclusive, where there is one.
pub record Brackets (value : ℕ) (bounds : List ℕ) (k : ℕ) : Type 0 where
  pub within : k ≤ length bounds
  pub above : 0 < k → get_or bounds (k - 1) 0 ≤ value
  pub below : k < length bounds → value < get_or bounds k 0

abbrev pub IsAscending : List ℕ → Type 0
IsAscending bounds = (i : ℕ) → suc i < length bounds → get_or bounds i 0 < get_or bounds (suc i) 0

-- Between any two places, from the neighbours.
ascending_steps :
    (bounds : List ℕ)
    → IsAscending bounds
    → (d i : ℕ) → d + i < length bounds
    → get_or bounds i 0 ≤ get_or bounds (d + i) 0
ascending_steps bounds up zero i h = let e : zero + i ≡ i = omega arith in rw e (omega arith)
ascending_steps bounds up (suc d) i h =
    let e : suc d + i ≡ suc (d + i) = omega arith in
    rw e (omega (arith, ascending_steps bounds up d i (omega arith), up (d + i) (omega arith)))

pub ascending_le :
    (bounds : List ℕ)
    → IsAscending bounds
    → (i j : ℕ) → i ≤ j
    → j < length bounds
    → get_or bounds i 0 ≤ get_or bounds j 0
ascending_le bounds up i j h k =
    let e : j - i + i ≡ j = omega arith in
    rw e at (ascending_steps bounds up (j - i) i (omega arith))

pub Brackets-unique :
    (bounds : List ℕ)
    → IsAscending bounds
    → (value k j : ℕ) → Brackets value bounds k
    → Brackets value bounds j
    → k ≡ j
Brackets-unique bounds up value k j p q =
    ground (arith, ascending_le bounds up k (j - 1), ascending_le bounds up j (k - 1))

Brackets-cons :
    (value x : ℕ) (xs : List ℕ) (k : ℕ)
    → x ≤ value
    → Brackets value xs k
    → Brackets value (x ∷ xs) (suc k)
Brackets-cons value x xs zero le b = ground arith
Brackets-cons value x xs (suc k) le b = record {
  within = omega (arith, b.within);
  above = λ _. simp unary_clauses (simp unary_clauses at (b.above (omega arith)));
  below = λ h. b.below (omega arith);
}

pub partition_point-Brackets :
    (value : ℕ) (bounds : List ℕ)
    → Brackets value bounds (partition_point (λ b. leb b value) bounds)
unfolding partition_point
partition_point-Brackets value [] = ground arith
partition_point-Brackets value (x ∷ xs) = elim (Bool-cases (leb x value)) [
  | inl le ↦
      rw le (Brackets-cons value x xs _ (leb→le x value le) (partition_point-Brackets value xs))
  | inr gt ↦ rw gt (ground arith)
]

-- `bucketize` returns on every non-empty table, and finds the bracket of the value.
pub bucketize-Brackets :
    (value bound : ℕ) (bounds : List ℕ)
    → (k : ℕ) × (bucketize value (bound ∷ bounds) ≡ returns k) × Brackets value (bound ∷ bounds) k
unfolding bucketize
bucketize-Brackets value bound bounds = elim (Bool-cases (ltb value bound)) [
  | inl low ↦ (0, rw low, ground arith)
  | inr high ↦ (_, rw high, partition_point-Brackets value (bound ∷ bounds))
]

-- A table is ascending if the comparison of its neighbours says so.
ascends_at : List ℕ → ℕ → Bool
ascends_at bounds i = ltb (get_or bounds i 0) (get_or bounds (suc i) 0)

default_table : table_holds (ascends_at default_bounds) 62 ≡ true
unfolding table_holds ascends_at default_bounds
default_table = refl

calibration_table : table_holds (ascends_at calibration_bounds) 248 ≡ true
unfolding table_holds ascends_at calibration_bounds
calibration_table = refl

pub length-default_bounds : length default_bounds ≡ 63
unfolding default_bounds
length-default_bounds = refl

pub length-calibration_bounds : length calibration_bounds ≡ 249
unfolding calibration_bounds
length-calibration_bounds = refl

pub default_bounds-IsAscending : IsAscending default_bounds
unfolding ascends_at
default_bounds-IsAscending i h =
    ltb→lt _ _ (table_holds_lem _ 62 i (omega (arith, length-default_bounds)) default_table)

pub calibration_bounds-IsAscending : IsAscending calibration_bounds
unfolding ascends_at
calibration_bounds-IsAscending i h =
    ltb→lt _ _
      (table_holds_lem _ 248 i (omega (arith, length-calibration_bounds)) calibration_table)

-- The default table is not empty, so `bucketize` applies to it.
default_bucketize_found :
    (value : ℕ)
    → (k : ℕ) × (bucketize value default_bounds ≡ returns k) × Brackets value default_bounds k
unfolding default_bounds
default_bucketize_found value = bucketize-Brackets value _ _

pub calibration_bucketize_found :
    (value : ℕ)
    → (k : ℕ) × (bucketize value calibration_bounds ≡ returns k)
      × Brackets value calibration_bounds k
unfolding calibration_bounds
calibration_bucketize_found value = bucketize-Brackets value _ _

-- For every value `default_bucketize` returns (no panic, and its debug assertion holds) a bucket
-- below 64, and the value lies in that bucket: at or above the bound before it, if there is one, and
-- below the bound after it, if there is one.
pub default_bucketize-Brackets :
    (value : ℕ)
    → (b : Bucket) × (default_bucketize value ≡ returns b)
      × (b.index < 64)
      × Brackets value default_bounds b.index
unfolding default_bucketize
default_bucketize-Brackets value =
    let (k, run, br) = default_bucketize_found value in
    let small : k < 64 = omega (arith, br.within, length-default_bounds) in
    (record { index = k }, rw (run, lt→ltb k 64 small), small, br)
