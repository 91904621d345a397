-- ===== src/Prelude/Bits.antt =====
-- `&`, `|`, `<<` and `>>` on words, as arithmetic, at every width.
use Prim.Native.Nat.{
  ℕ, zero, suc, ◌+◌, ◌-◌, ◌*◌, ◌/◌, ◌%◌, ◌^◌, ◌≤◌, ◌<◌, min, max, bit_and, bit_or, digits,
  bit_and-bitwise, bit_or-bitwise,
}
use mathlib.Core.Path.{◌≡◌, refl, ap}
use native.Mathlib.Nat.{pow-suc, one-le-pow}
use native.Mathlib.Omega.{arith}

abbrev pub shr : ℕ → ℕ → ℕ
shr a k = a / 2 ^ k

abbrev pub shl : ℕ → ℕ → ℕ
shl a k = a * 2 ^ k

-- The native operations stand for a recursion on fuel, which any two sufficient amounts run alike.
digits_enough :
    (base : ℕ → ℕ) (op : ℕ → ℕ → ℕ) (a b fuel more : ℕ)
    → a ≤ fuel
    → a ≤ more
    → digits base op fuel a b ≡ digits base op more a b
digits_enough base op zero b zero zero h k = refl
digits_enough base op zero b zero (suc more) h k = refl
digits_enough base op zero b (suc fuel) zero h k = refl
digits_enough base op zero b (suc fuel) (suc more) h k = refl
digits_enough base op (suc a) b zero more h k = absurd (omega arith)
digits_enough base op (suc a) b (suc fuel) zero h k = absurd (omega arith)
digits_enough base op (suc a) b (suc fuel) (suc more) h k =
    let halved = digits_enough base op (suc a / 2) (b / 2) fuel more (omega arith) (omega arith) in
    omega arith

and_digit : (a b : ℕ) → bit_and a b ≡ bit_and (a / 2) (b / 2) * 2 + min (a % 2) (b % 2)
and_digit zero b = omega (arith, bit_and-bitwise 0 b, bit_and-bitwise 0 (b / 2))
and_digit (suc a) b = omega (
  arith,
  bit_and-bitwise (suc a) b,
  bit_and-bitwise (suc a / 2) (b / 2),
  digits_enough (λ b. zero) min (suc a / 2) (b / 2) a (suc a / 2) (omega arith) (omega arith),
)

or_digit : (a b : ℕ) → bit_or a b ≡ bit_or (a / 2) (b / 2) * 2 + max (a % 2) (b % 2)
or_digit zero b = omega (arith, bit_or-bitwise 0 b, bit_or-bitwise 0 (b / 2))
or_digit (suc a) b = omega (
  arith,
  bit_or-bitwise (suc a) b,
  bit_or-bitwise (suc a / 2) (b / 2),
  digits_enough (λ b. b) max (suc a / 2) (b / 2) a (suc a / 2) (omega arith) (omega arith),
)

zero-or : (b : ℕ) → bit_or 0 b ≡ b
zero-or b = bit_or-bitwise 0 b

zero-and : (b : ℕ) → bit_and 0 b ≡ 0
zero-and b = bit_and-bitwise 0 b

and-zero_fuel : (n a : ℕ) → a ≤ n → bit_and a 0 ≡ 0
and-zero_fuel n zero h = zero-and 0
and-zero_fuel zero (suc a) h = absurd (omega arith)
and-zero_fuel (suc n) (suc a) h =
    omega (arith, and_digit (suc a) 0, and-zero_fuel n (suc a / 2) (omega arith))

and-zero : (a : ℕ) → bit_and a 0 ≡ 0
and-zero a = and-zero_fuel a a (omega arith)

twice_pow : (q k : ℕ) → q * 2 ^ suc k ≡ 2 * (q * 2 ^ k)
twice_pow q k = omega (arith, ap (λ (t : ℕ). q * t) (pow-suc 2 k))

-- `low | (high << k)` adds, when `low` fits in `k` bits.
pub or_shl : (k low high : ℕ) → low < 2 ^ k → bit_or low (high * 2 ^ k) ≡ low + high * 2 ^ k
or_shl zero zero high fits = omega (arith, zero-or (high * 2 ^ 0))
or_shl zero (suc low) high fits = absurd (omega arith)
or_shl (suc k) low high fits =
    ground (
      arith,
      or_digit low (high * 2 ^ suc k),
      twice_pow high k,
      pow-suc 2 k,
      or_shl k (low / 2) high,
    )

or-zero_fuel : (n a : ℕ) → a ≤ n → bit_or a 0 ≡ a
or-zero_fuel n zero h = zero-or 0
or-zero_fuel zero (suc a) h = absurd (omega arith)
or-zero_fuel (suc n) (suc a) h =
    omega (arith, or_digit (suc a) 0, or-zero_fuel n (suc a / 2) (omega arith))

-- The same with the shifted field on the left.
pub shl_or : (k low high : ℕ) → low < 2 ^ k → bit_or (high * 2 ^ k) low ≡ high * 2 ^ k + low
shl_or zero zero high fits = omega (arith, or-zero_fuel (high * 2 ^ 0) (high * 2 ^ 0))
shl_or zero (suc low) high fits = absurd (omega arith)
shl_or (suc k) low high fits =
    ground (
      arith,
      or_digit (high * 2 ^ suc k) low,
      twice_pow high k,
      pow-suc 2 k,
      shl_or k (low / 2) high,
    )

and_low : (k low high : ℕ) → low < 2 ^ k → bit_and (low + high * 2 ^ k) (2 ^ k - 1) ≡ low
and_low zero low high fits = rw and-zero (omega arith)
and_low (suc k) low high fits = ground (
  arith,
  and_digit (low + high * 2 ^ suc k) (2 ^ suc k - 1),
  twice_pow high k,
  pow-suc 2 k,
  one-le-pow k 2,
  and_low k (low / 2) high,
)

-- `a & ((1 << k) - 1)` is the remainder.
pub and_mask : (k a : ℕ) → bit_and a (2 ^ k - 1) ≡ a % 2 ^ k
and_mask k a = ground (arith, one-le-pow k 2, and_low k (a % 2 ^ k) (a / 2 ^ k))

-- `a & (1 << k)` reads bit `k`, in its place.
pub and_flag :
    (k low bit high : ℕ)
    → low < 2 ^ k
    → bit < 2
    → bit_and (low + (bit + 2 * high) * 2 ^ k) (2 ^ k) ≡ bit * 2 ^ k
and_flag zero low bit high fits one = ground (
  arith,
  and_digit (low + (bit + 2 * high) * 2 ^ 0) 1,
  and-zero ((low + (bit + 2 * high) * 2 ^ 0) / 2),
)
and_flag (suc k) low bit high fits one = ground (
  arith,
  and_digit (low + (bit + 2 * high) * 2 ^ suc k) (2 ^ suc k),
  twice_pow (bit + 2 * high) k,
  twice_pow bit k,
  pow-suc 2 k,
  and_flag k (low / 2) bit high,
)
