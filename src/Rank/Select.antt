-- ===== src/Rank/Select.antt =====
-- `nearest_rank` of src/bucket.rs and the bucket that it selects.
use native.Mathlib.Nat.{add_assoc, mod-eq_of_lt}
use native.Mathlib.Nat.{sub-add-eq}
use native.Mathlib.Nat.{sub-zero}
use tracegrams.Prelude.{
  ◌%◌, ◌+◌, ◌-◌, ◌<◌, ◌==◌, ◌^◌, ◌∙◌, ◌∷◌, ◌≡◌, ◌≤◌, ◌⊎◌, Bool-cases, List, Option, Run, [], ap,
  arith, if◌then◌else◌, inl, inr, leb, leb→le, length, none, not-leb→lt, refl, returns, some, suc,
  sum, take, ℕ,
}
use tracegrams.Float.{F64, unit_interval_iff}
use tracegrams.Rank.{BucketThreshold, sum_from, sum_u64, select, nearest_rank, quantile_rank}
use tracegrams.Rank.Exact.{IsTailQuantile, quantile_rank-IsCeiling}

sum_from-eq : (acc : ℕ) (xs : List ℕ) → acc + sum xs < 2 ^ 64 → sum_from acc xs ≡ acc + sum xs
unfolding sum_from sum
sum_from-eq acc [] h = omega arith
sum_from-eq acc (x ∷ xs) h =
    let e : (acc + x) % 2 ^ 64 ≡ acc + x = mod-eq_of_lt (omega arith) in
    rw e (sum_from-eq (acc + x) xs (omega arith) ∙ add_assoc acc x (sum xs))

pub sum_u64-eq-sum : (xs : List ℕ) → sum xs < 2 ^ 64 → sum_u64 xs ≡ sum xs
unfolding sum_u64
sum_u64-eq-sum xs h = sum_from-eq 0 xs (omega arith) ∙ omega arith

-- The bucket `t.bucket` is the first at which the counts so far reach the rank.
pub record Selects (counts : List ℕ) (rank : ℕ) (bucket : ℕ) : Type 0 where
  pub within : bucket < length counts
  pub before : sum (take bucket counts) < rank
  pub through : rank ≤ sum (take (suc bucket) counts)

Selects-cons :
    (x : ℕ) (xs : List ℕ) (rank bucket : ℕ)
    → x < rank
    → Selects xs (rank - x) bucket
    → Selects (x ∷ xs) rank (suc bucket)
unfolding sum
Selects-cons x xs rank bucket h s = record {
  within = omega (arith, s.within);
  before = omega (arith, s.before);
  through = omega (arith, s.through);
}

abbrev found : ℕ → ℕ → ℕ → Run (Option BucketThreshold)
found rank samples bucket =
    returns (some (record { bucket = bucket; rank = rank; samples = samples }))

select-Selects :
    (rank samples bucket cumulative : ℕ) (counts : List ℕ)
    → cumulative < rank
    → rank ≤ cumulative + sum counts
    → cumulative + sum counts < 2 ^ 128
    → (k : ℕ) × (select rank samples bucket cumulative counts
        ≡ returns (some (record { bucket = bucket + k; rank = rank; samples = samples })))
      × Selects counts (rank - cumulative) k
unfolding select sum
select-Selects rank samples bucket cumulative [] h k fits = absurd (omega arith)
select-Selects rank samples bucket cumulative (x ∷ xs) h k fits =
    let e : (cumulative + x) % 2 ^ 128 ≡ cumulative + x = mod-eq_of_lt (omega arith) in
    rw e (elim (Bool-cases (leb rank (cumulative + x))) [
      | inl reached ↦ (
        0,
        rw reached (ap (found rank samples) (let e' : bucket ≡ bucket + 0 = omega arith in e')),
        record {
          within = omega arith;
          before = omega arith;
          through = omega (arith, leb→le rank (cumulative + x) reached);
        },
      )
      | inr short ↦
          let more = not-leb→lt rank (cumulative + x) short in
          let (j, run, s) =
            select-Selects rank samples (suc bucket) (cumulative + x) xs more (omega arith)
              (omega arith) in
          (
            suc j,
            rw short (
                run
                ∙ ap (found rank samples)
                    (let e' : suc bucket + j ≡ bucket + suc j = omega arith in e')),
            Selects-cons x xs (rank - cumulative) j (omega arith)
                (rw (sub-add-eq rank cumulative x) at s),
          )
    ])

-- Within the contract the assertion passes and the wrapping total is the total.
nearest_rank-eq :
    (counts : List ℕ) (q : F64)
    → IsTailQuantile q
    → sum counts < 2 ^ 64
    → nearest_rank counts q ≡ (
        if sum counts == 0
        then returns none
        else select (quantile_rank (sum counts) q) (sum counts) 0 0 counts)
unfolding nearest_rank
nearest_rank-eq counts q v h = rw ((unit_interval_iff q (omega arith)).1 v, sum_u64-eq-sum counts h)

-- For an accepted quantile and counts within the counter contract (their total fits `u64`),
-- `nearest_rank` does not panic. It returns nothing exactly for an empty population; otherwise it
-- returns the population's total, the exact rank, and the first bucket at which the cumulative count
-- reaches that rank.
pub nearest_rank-Selects :
    (counts : List ℕ) (q : F64)
    → IsTailQuantile q
    → sum counts < 2 ^ 64
    → ((sum counts ≡ 0) × (nearest_rank counts q ≡ returns none))
      ⊎ ((0 < sum counts)
          × ((t : BucketThreshold) × (nearest_rank counts q ≡ returns (some t))
              × (t.samples ≡ sum counts)
              × (t.rank ≡ quantile_rank (sum counts) q)
              × Selects counts t.rank t.bucket))
nearest_rank-Selects counts q v h =
    rw (nearest_rank-eq counts q v h) (elim (Bool-cases (sum counts == 0)) [
      | inl empty ↦ inl (ground arith, rw empty)
      | inr filled ↦
          let pos : 0 < sum counts = ground arith in
          let (_, low, high) = quantile_rank-IsCeiling (sum counts) q pos h v in
          let (k, run, s) =
            select-Selects (quantile_rank (sum counts) q) (sum counts) 0 0 counts low (omega arith)
              (omega arith) in
          let e : 0 + k ≡ k = omega arith in
          let t : BucketThreshold = record {
            bucket = k;
            rank = quantile_rank (sum counts) q;
            samples = sum counts;
          } in
          inr (
            pos,
            (
              t,
              rw filled (run ∙ ap (found t.rank t.samples) e),
              refl,
              refl,
              rw (sub-zero t.rank) at s,
            ),
          )
    ])
