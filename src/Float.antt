-- ===== src/Float.antt =====
-- `f64` as its bit pattern, a number below 2 ^ 64 (`to_bits`). Classification and comparison follow
-- IEEE 754 and are defined; conversion and division round, and are an interface that code takes as
-- an instance.
use tracegrams.Prelude.{
  ◌%◌, ◌&&◌, ◌+◌, ◌-◌, ◌/◌, ◌<◌, ◌==◌, ◌^◌, ◌||◌, ◌↔◌, ◌≡◌, ◌≤◌, Bool, arith, if◌then◌else◌, leb,
  ltb, not, true, ℕ,
}

abbrev pub F64 : Type 0
F64 = ℕ

-- The sign bit, and the pattern without it.
abbrev pub is_negative : F64 → Bool
is_negative q = leb (2 ^ 63) q

abbrev pub magnitude : F64 → ℕ
magnitude q = q % 2 ^ 63

abbrev pub infinity : F64
infinity = 0x7ff0_0000_0000_0000

-- `1.0`
abbrev pub one_bits : F64
one_bits = 0x3ff0_0000_0000_0000

unfoldable pub is_nan : F64 → Bool
is_nan q = ltb infinity (magnitude q)

unfoldable pub is_finite : F64 → Bool
is_finite q = ltb (magnitude q) infinity

-- `a <= b`, false if either is NaN; the two zeros are equal.
unfoldable pub le : F64 → F64 → Bool
unfolding is_nan
le a b =
    not (is_nan a)
    && not (is_nan b)
    && (if is_negative a
        then not (is_negative b) || leb (magnitude b) (magnitude a)
        else if is_negative b
        then magnitude a == 0 && magnitude b == 0
        else leb (magnitude a) (magnitude b))

-- `a < b`
unfoldable pub lt : F64 → F64 → Bool
unfolding le
lt a b = le a b && not (le b a)

-- The rounding operations, of the hardware.
pub record Float : Type 0 where
  pub of_u128 : ℕ → F64
  pub div : F64 → F64 → F64

-- The quantiles above zero and up to one are the patterns from 1 to that of `1.0`.
pub unit_interval_iff :
    (q : F64)
    → q < 2 ^ 64
    → ((is_finite q && lt 0 q && le q one_bits) ≡ true) ↔ ((1 ≤ q) × (q ≤ one_bits))
unfolding is_finite lt
unit_interval_iff q h = ground arith

-- The value of a finite pattern without sign is `significand q / 2 ^ scale q`.
abbrev pub exponent : F64 → ℕ
exponent q = q / 2 ^ 52 % 2 ^ 11

abbrev pub significand : F64 → ℕ
significand q = if exponent q == 0 then q % 2 ^ 52 else 2 ^ 52 + q % 2 ^ 52

abbrev pub scale : F64 → ℕ
scale q = if exponent q == 0 then 1074 else 1075 - exponent q
