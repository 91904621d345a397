-- ===== src/Estimate.antt =====
-- The quantile estimate on a bound table (src/bucket.rs): the terminal buckets, and the
-- representative of a finite bucket.
pub mod Value
pub mod Terminals
use tracegrams.Prelude.{
  ◌%◌, ◌&&◌, ◌*◌, ◌+◌, ◌-◌, ◌/◌, ◌==◌, ◌>>=◌, ◌>>◌, ◌^◌, List, Option, Run, assert, from_bool,
  get_elem?, if◌then◌else◌, leb, length, ltb, none, not, opt_then, returns, some, unwrap, ℕ,
}
use tracegrams.Float.{F64, Float}
use tracegrams.Rank.{BucketThreshold, nearest_rank}

-- `enum CalibrationTerminal`
pub data Terminal : Type 0 where
  lower finite upper : Terminal

pub record CalibrationEstimate : Type 0 where
  pub rank : ℕ
  pub samples : ℕ
  pub lower_bound : Option ℕ
  pub upper_bound : Option ℕ
  pub value : Option ℕ
  pub max_relative_error : Option F64
  pub terminal : Terminal

-- `u128::checked_mul`
abbrev pub checked_mul_u128 : ℕ → ℕ → Option ℕ
checked_mul_u128 a b = if ltb (a * b) (2 ^ 128) then some (a * b) else none

-- `div_ceil(2)`
abbrev pub half_up : ℕ → ℕ
half_up d = d / 2 + d % 2

-- `u64::try_from`
abbrev pub try_u64 : ℕ → Option ℕ
try_u64 x = if ltb x (2 ^ 64) then some x else none

unfoldable pub finite_representative : ℕ → ℕ → Option ℕ
finite_representative low high =
    let denominator = (low + high) % 2 ^ 128 in
    let representative : Option ℕ = opt_then (checked_mul_u128 low high) λ product.
      opt_then (checked_mul_u128 product 2) λ numerator. try_u64 (
        numerator / denominator
        + from_bool (leb (half_up denominator) (numerator % denominator))) in
    if leb high low then none else representative

-- `Option::zip`, then `and_then`
unfoldable pub finite_with {ℓ} : {A : Type ℓ} → Option ℕ → Option ℕ → (ℕ → ℕ → Option A) → Option A
finite_with low high f = opt_then low λ l. opt_then high λ h. f l h

-- The bounds and the terminal of a selected bucket.
unfoldable pub bracket : ℕ → List ℕ → Run (Option ℕ × Option ℕ × Terminal)
bracket bucket bounds =
    if bucket == 0
    then unwrap (get_elem? bounds 0) >>= (λ b. returns (none, some b, lower))
    else if bucket == length bounds
    then returns (get_elem? bounds (bucket - 1), none, upper)
    else unwrap (get_elem? bounds (bucket - 1)) >>= λ low.
        unwrap (get_elem? bounds bucket) >>= λ high. returns (some low, some high, finite)

module _ ⦃float : Float⦄ where
  -- `upper - lower` is converted from `u64`, whose values are `u128` values too.
  unfoldable pub relative_error : ℕ → ℕ → Option F64
  relative_error low high =
      if ltb low high
      then some (float.div (float.of_u128 (high - low)) (float.of_u128 (high + low)))
      else none

  unfoldable pub estimate_at : List ℕ → BucketThreshold → Run CalibrationEstimate
  unfolding finite_with bracket
  estimate_at bounds selection = bracket selection.bucket bounds >>= λ b. returns (record {
    rank = selection.rank;
    samples = selection.samples;
    lower_bound = b.0;
    upper_bound = b.1;
    value = finite_with b.0 b.1 finite_representative;
    max_relative_error = finite_with b.0 b.1 relative_error;
    terminal = b.2;
  })

  unfoldable pub estimate_quantile : List ℕ → List ℕ → F64 → Run (Option CalibrationEstimate)
  unfolding estimate_at
  estimate_quantile counts bounds quantile = do
    assert (not (length bounds == 0) && length counts == length bounds + 1)
    selected ← nearest_rank counts quantile
    elim selected [
      | none ↦ returns none
      | some selection ↦ estimate_at bounds selection >>= λ e. returns (some e)
    ]
