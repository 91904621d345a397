-- ===== src/Snapshot/Window.antt =====
-- Windows between two snapshots of src/snapshot.rs: `delta` and pointwise subtraction.
use tracegrams.Prelude.{
  ◌+◌, ◌-◌, ◌<◌, ◌==◌, ◌↔◌, ◌∷◌, ◌≡◌, ◌≢◌, ◌≤◌, ◌⊎◌, ==_iff, Bool, Bool-cases, List, [], arith, err,
  false, from_bool, get_elem?, get_or, inl, inr, leb, leb→le, length, not, not-leb→lt, ok, refl,
  some, suc, true, zero, ℕ,
}
use tracegrams.Snapshot.{
  Snapshot, delta, subtract_all, counter_underflow, registry_mismatch, state_is_frozen,
}

-- Counters added pairwise.
unfoldable pub add_all : List ℕ → List ℕ → List ℕ
add_all [] ys = []
add_all (x ∷ xs) [] = []
add_all (x ∷ xs) (y ∷ ys) = (x + y) ∷ add_all xs ys

-- A position at which a counter went down, and the first such.
pub record Underflows (later earlier : List ℕ) (a b : ℕ) : Type 0 where
  pub position : ℕ
  pub in_earlier : get_elem? earlier position ≡ some a
  pub in_later : get_elem? later position ≡ some b
  pub below : b < a
  pub first : (i : ℕ) → i < position → get_or earlier i 0 ≤ get_or later i 0

Underflows-cons :
    (x y : ℕ) (xs ys : List ℕ) (a b : ℕ)
    → y ≤ x
    → Underflows xs ys a b
    → Underflows (x ∷ xs) (y ∷ ys) a b
Underflows-cons x y xs ys a b h u = record {
  position = suc u.position;
  in_earlier = u.in_earlier;
  in_later = u.in_later;
  below = u.below;
  first = λ i k. before i k;
}
  where
    before : (i : ℕ) → i < suc u.position → get_or (y ∷ ys) i 0 ≤ get_or (x ∷ xs) i 0
    before zero k = h
    before (suc i) k = u.first i (omega arith)

subtract_all-cases :
    (later earlier : List ℕ)
    → length later ≡ length earlier
    → ((window : List ℕ) × (subtract_all later earlier ≡ ok window)
        × (add_all earlier window ≡ later))
      ⊎ ((a : ℕ) × (b : ℕ) × (subtract_all later earlier ≡ err (counter_underflow a b))
          × Underflows later earlier a b)
unfolding subtract_all add_all
subtract_all-cases [] [] h = inl ([], refl, refl)
subtract_all-cases [] (y ∷ ys) h = absurd (omega arith)
subtract_all-cases (x ∷ xs) [] h = absurd (omega arith)
subtract_all-cases (x ∷ xs) (y ∷ ys) h = elim (Bool-cases (leb y x)) [
  | inr down ↦ inr (
    y,
    x,
    rw down,
    record {
      position = 0;
      in_earlier = refl;
      in_later = refl;
      below = not-leb→lt y x down;
      first = λ i k. absurd (omega arith);
    },
  )
  | inl fits ↦ elim (subtract_all-cases xs ys (omega arith)) [
    | inl (window, run, back) ↦
        let e : y + (x - y) ≡ x = omega (arith, leb→le y x fits) in
        inl ((x - y) ∷ window, rw (fits, run), rw (e, back))
    | inr (a, b, run, u) ↦
        inr (a, b, rw (fits, run), Underflows-cons x y xs ys a b (leb→le y x fits) u)
  ]
]

-- The window between two snapshots of one recorder.
pub record IsWindow (later earlier window : Snapshot) : Type 0 where
  pub restores : add_all earlier.counters window.counters ≡ later.counters
  pub spans :
      (window.spans_freeze ≡ true)
      ↔ (state_is_frozen later.calibration_state ≢ state_is_frozen earlier.calibration_state)
  pub state : window.calibration_state ≡ later.calibration_state
  pub cookie : window.cookie ≡ later.cookie

differs_iff : (a b : Bool) → (not (from_bool a == from_bool b) ≡ true) ↔ (a ≢ b)
differs_iff true true = (λ h. cc, λ h. absurd (h refl))
differs_iff true false = (λ h e. cc, λ h. refl)
differs_iff false true = (λ h e. cc, λ h. refl)
differs_iff false false = (λ h. cc, λ h. absurd (h refl))

abbrev window_of : Snapshot → Snapshot → List ℕ → Snapshot
window_of later earlier window = record later {
  counters = window;
  spans_freeze = not (
      from_bool (state_is_frozen later.calibration_state)
      == from_bool (state_is_frozen earlier.calibration_state));
}

-- For two snapshots with equally many counters, exactly one of three: their cookies differ and `delta`
-- reports a registry mismatch; or they agree and no counter went down, and `delta` gives a window
-- whose counters added to the earlier ones are the later ones, marked as spanning the freeze exactly
-- when one of the two snapshots is frozen and the other is not; or they agree and `delta` reports the
-- two values of the first counter that went down.
pub delta-cases :
    (later earlier : Snapshot)
    → length later.counters ≡ length earlier.counters
    → ((later.cookie ≢ earlier.cookie) × (delta later earlier ≡ err registry_mismatch))
      ⊎ ((later.cookie ≡ earlier.cookie)
          × (((window : Snapshot) × (delta later earlier ≡ ok window)
                × IsWindow later earlier window)
              ⊎ ((a : ℕ) × (b : ℕ) × (delta later earlier ≡ err (counter_underflow a b))
                  × Underflows later.counters earlier.counters a b)))
unfolding delta
delta-cases later earlier h = elim (Bool-cases (later.cookie == earlier.cookie)) [
  | inr foreign ↦ inl (ground arith, rw foreign)
  | inl same ↦ elim (subtract_all-cases later.counters earlier.counters h) [
    | inl (window, run, back) ↦ inr (
      (==_iff later.cookie earlier.cookie).0 same,
      inl (
        window_of later earlier window,
        rw (same, run),
        record {
          restores = back;
          spans =
              differs_iff (state_is_frozen later.calibration_state)
                (state_is_frozen earlier.calibration_state);
          state = refl;
          cookie = refl;
        },
      ),
    )
    | inr (a, b, run, u) ↦
        inr ((==_iff later.cookie earlier.cookie).0 same, inr (a, b, rw (same, run), u))
  ]
]
