-- ===== src/Prelude/Tests.antt =====
-- Boolean tests on the native numbers, the conditional, and case splits that keep the equation.
use Prim.Native.Nat.{ℕ, zero, suc, ◌≤◌, ◌<◌, compare, Ordering}
use mathlib.Core.Path.{◌≡◌, refl}
use mathlib.Core.Logic.{◌↔◌, ◌⊎◌, inl, inr}
use mathlib.Core.Bool.{Bool, true, false}
use mathlib.Core.Option.{Option, none, some}
use native.Mathlib.Omega.{arith}

abbrev pub ltb : ℕ → ℕ → Bool
ltb a b = elim (compare a b) [ Ordering.lt ↦ true | _ ↦ false ]

abbrev pub leb : ℕ → ℕ → Bool
leb a b = elim (compare a b) [ Ordering.gt ↦ false | _ ↦ true ]

infix 50 ◌==◌
abbrev pub ◌==◌ : ℕ → ℕ → Bool
a == b = elim (compare a b) [ Ordering.eq ↦ true | _ ↦ false ]

infix 1 if◌then◌else◌
abbrev pub if◌then◌else◌ {ℓ} : {A : Type ℓ} → Bool → A → A → A
if true then x else y = x
if false then x else y = y

-- `u128::from(b)`, `usize::from(b)`
abbrev pub from_bool : Bool → ℕ
from_bool true = 1
from_bool false = 0

pub ltb→lt : (a b : ℕ) → ltb a b ≡ true → a < b
ltb→lt a b h = ground arith

pub lt→ltb : (a b : ℕ) → a < b → ltb a b ≡ true
lt→ltb a b h = ground arith

pub leb→le : (a b : ℕ) → leb a b ≡ true → a ≤ b
leb→le a b h = ground arith

pub le→leb : (a b : ℕ) → a ≤ b → leb a b ≡ true
le→leb a b h = ground arith

pub not-leb→lt : (a b : ℕ) → leb a b ≡ false → b < a
not-leb→lt a b h = ground arith

pub ==_iff : (a b : ℕ) → ((a == b) ≡ true) ↔ (a ≡ b)
==_iff a b = ground arith

pub Bool-cases : (b : Bool) → (b ≡ true) ⊎ (b ≡ false)
Bool-cases true = inl refl
Bool-cases false = inr refl

pub Option-cases {ℓ} : {A : Type ℓ} (o : Option A) → (o ≡ none) ⊎ ((a : A) × (o ≡ some a))
Option-cases none = inl refl
Option-cases (some a) = inr (a, refl)

-- Every number below a bound passes a test, by evaluation.
unfoldable pub table_holds : (ℕ → Bool) → ℕ → Bool
table_holds test zero = true
table_holds test (suc size) = if test size then table_holds test size else false

pub table_holds_lem :
    (test : ℕ → Bool) (size i : ℕ) → i < size → table_holds test size ≡ true → test i ≡ true
unfolding table_holds
table_holds_lem test zero i fits whole = absurd (omega arith)
table_holds_lem test (suc size) i fits whole = elim (Bool-cases (test size)) [
  | inr fails ↦ let w : false ≡ true = (rw fails at whole) in absurd cc
  | inl passes ↦
      let rest : table_holds test size ≡ true = (rw passes at whole) in
      elim (Bool-cases (i == size)) [
        | inl last ↦ let e : i ≡ size = (==_iff i size).0 last in rw e passes
        | inr other ↦ table_holds_lem test size i (ground arith) rest
      ]
]
