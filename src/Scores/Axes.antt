-- ===== src/Scores/Axes.antt =====
-- The marginals of a transition matrix in src/diagnose.rs, cell by cell.
use tracegrams.Scores.Regions.{region, region_from}
use tracegrams.Scores.{marginals_from, matrix_marginals, add_at}
use tracegrams.Prelude.{
  ◌%◌, ◌+◌, ◌/◌, ◌<◌, ◌==◌, ◌^◌, ◌∙◌, ◌∷◌, ◌≡◌, ◌≤◌, ==_iff, Bool-cases, List, [], ap, arith,
  get_elem?-eq-some, get_or, get_or-set_ne, get_or-set_self, if◌then◌else◌, inl, inr, length,
  length-replicate, length-set, refl, replicate, returns, set, suc, sum, zero, ℕ,
}

sum-set :
    (cells : List ℕ) (i value : ℕ)
    → i < length cells
    → sum (set cells i value) + get_or cells i 0 ≡ sum cells + value
unfolding sum
sum-set [] i value h = absurd (omega arith)
sum-set (x ∷ xs) zero value h = omega arith
sum-set (x ∷ xs) (suc i) value h = omega (arith, sum-set xs i value (omega arith))

get_or-le-sum : (cells : List ℕ) (i : ℕ) → get_or cells i 0 ≤ sum cells
unfolding sum
get_or-le-sum [] i = omega arith
get_or-le-sum (x ∷ xs) zero = omega arith
get_or-le-sum (x ∷ xs) (suc i) = omega (arith, get_or-le-sum xs i)

get_or-set :
    (cells : List ℕ) (i j value : ℕ)
    → i < length cells
    → get_or (set cells i value) j 0 ≡ (if i == j then value else get_or cells j 0)
get_or-set cells i j value h = elim (Bool-cases (i == j)) [
  | inl same ↦
      rw same (let e : i ≡ j = (==_iff i j).0 same in rw (← e) (get_or-set_self cells i value 0 h))
  | inr other ↦ rw other (get_or-set_ne cells i j value 0 (ground arith))
]

-- While the total fits `u64`, no cell wraps.
added :
    (cells : List ℕ) (i count : ℕ)
    → i < length cells
    → sum cells + count < 2 ^ 64
    → (after : List ℕ) × (add_at cells i count ≡ returns after)
      × (length after ≡ length cells)
      × (sum after ≡ sum cells + count)
      × ((j : ℕ) → get_or after j 0 ≡ get_or cells j 0 + (if i == j then count else 0))
added cells i count h small =
    let value = (get_or cells i 0 + count) % 2 ^ 64 in
    let e : value ≡ get_or cells i 0 + count = omega (arith, get_or-le-sum cells i) in
    (
      set cells i value,
      rw (get_elem?-eq-some cells i 0 h),
      length-set cells i value,
      omega (arith, sum-set cells i value h, e),
      λ j. elim (Bool-cases (i == j)) [
        | inl same ↦
            let k : i ≡ j = (==_iff i j).0 same in
            let m = get_or-set cells i j value h in
            let w : get_or cells i 0 ≡ get_or cells j 0 = ap (λ x. get_or cells x 0) k in
            ground (arith, same, m, e, w)
        | inr other ↦ let m = get_or-set cells i j value h in ground (arith, other, m)
      ],
    )

-- The marginal of a matrix along an axis: each cell has the samples of its row, or of its column.
pub record IsMarginal (along : ℕ → ℕ → ℕ) (counts xs : List ℕ) : Type 0 where
  pub sized : length xs ≡ 64
  pub total : sum xs ≡ sum counts
  pub cells : (i : ℕ) → get_or xs i 0 ≡ region (λ row column. along row column == i) counts

abbrev pub rows_axis : ℕ → ℕ → ℕ
rows_axis row column = row

abbrev pub columns_axis : ℕ → ℕ → ℕ
columns_axis row column = column

-- What a part of the loop adds to a marginal.
record Adds (along : ℕ → ℕ → ℕ) (index : ℕ) (counts before after : List ℕ) : Type 0 where
  pub sized : length after ≡ length before
  pub total : sum after ≡ sum before + sum counts
  pub cells :
      (i : ℕ)
      → get_or after i 0
        ≡ get_or before i 0 + region_from (λ row column. along row column == i) index counts

Adds-cons :
    (along : ℕ → ℕ → ℕ) (index count : ℕ) (counts before middle after : List ℕ)
    → length middle ≡ length before
    → sum middle ≡ sum before + count
    → ((j : ℕ)
        → get_or middle j 0
          ≡ get_or before j 0 + (if along (index / 64) (index % 64) == j then count else 0))
    → Adds along (suc index) counts middle after
    → Adds along index (count ∷ counts) before after
unfolding sum region_from
Adds-cons along index count counts before middle after s t c a = record {
  sized = a.sized ∙ s;
  total = omega (arith, a.total, t);
  cells = λ i. omega (arith, a.cells i, c i);
}

marginals_from-Adds :
    (index : ℕ) (counts rows columns : List ℕ)
    → length rows ≡ 64
    → length columns ≡ 64
    → index + length counts ≤ 4096
    → sum rows + sum counts < 2 ^ 64
    → sum columns + sum counts < 2 ^ 64
    → (m : List ℕ × List ℕ) × (marginals_from index counts rows columns ≡ returns m)
      × Adds rows_axis index counts rows m.0
      × Adds columns_axis index counts columns m.1
unfolding marginals_from sum region_from
marginals_from-Adds index [] rows columns a b within h k = (
  (rows, columns),
  refl,
  record { sized = refl; total = omega arith; cells = λ i. omega arith },
  record { sized = refl; total = omega arith; cells = λ i. omega arith },
)
marginals_from-Adds index (count ∷ counts) rows columns a b within h k =
    let (rows₁, run, s, t, c) = added rows (index / 64) count (omega arith) (omega arith) in
    let (columns₁, run₁, s₁, t₁, c₁) =
      added columns (index % 64) count (omega arith) (omega arith) in
    let (m, run₂, x, y) =
      marginals_from-Adds (suc index) counts rows₁ columns₁ (s ∙ a) (s₁ ∙ b) (omega arith)
        (omega arith) (omega arith) in
    (
      m,
      rw (run, run₁, run₂),
      Adds-cons rows_axis index count counts rows rows₁ m.0 s t c x,
      Adds-cons columns_axis index count counts columns columns₁ m.1 s₁ t₁ c₁ y,
    )

sum-replicate : (n : ℕ) → sum (replicate n 0) ≡ 0
unfolding sum
sum-replicate zero = refl
sum-replicate (suc n) = omega (arith, sum-replicate n)

zero_at : (n i : ℕ) → get_or {A = ℕ} (replicate n 0) i 0 ≡ 0
zero_at zero i = refl
zero_at (suc n) zero = refl
zero_at (suc n) (suc i) = zero_at n i

Adds-IsMarginal :
    (along : ℕ → ℕ → ℕ) (counts after : List ℕ)
    → Adds along 0 counts (replicate 64 0) after
    → IsMarginal along counts after
Adds-IsMarginal along counts after a = record {
  sized = a.sized ∙ length-replicate {A = ℕ} 64 0;
  total = omega (arith, a.total, sum-replicate 64);
  cells = λ i. omega (arith, a.cells i, zero_at 64 i);
}

-- Both marginals of a matrix whose total fits `u64` are taken.
pub matrix_marginals-IsMarginal :
    (counts : List ℕ)
    → length counts ≤ 4096
    → sum counts < 2 ^ 64
    → (m : List ℕ × List ℕ) × (matrix_marginals counts ≡ returns m)
      × IsMarginal rows_axis counts m.0
      × IsMarginal columns_axis counts m.1
unfolding matrix_marginals
matrix_marginals-IsMarginal counts h k =
    let zeros = sum-replicate 64 in
    let (m, run, x, y) =
      marginals_from-Adds 0 counts (replicate 64 0) (replicate 64 0) (length-replicate {A = ℕ} 64 0)
        (length-replicate {A = ℕ} 64 0) (omega arith) (omega arith) (omega arith) in
    (m, run, Adds-IsMarginal rows_axis counts m.0 x, Adds-IsMarginal columns_axis counts m.1 y)
