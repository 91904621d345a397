-- ===== src/Recorder/Bumps.antt =====
-- Counter increments of src/recorder.rs as changes at places of the storage.
use native.Mathlib.Nat.{mod-lt}
use tracegrams.Prelude.{
  ◌%◌, ◌++◌, ◌+◌, ◌<◌, ◌==◌, ◌^◌, ◌∙◌, ◌∷◌, ◌≡◌, ==_iff, Bool-cases, List, Option, [], arith,
  from_bool, get_elem?, get_elem?-eq-some, get_or, get_or-set_ne, get_or-set_self, if◌then◌else◌,
  inl, inr, length, length-set, none, refl, returns, set, some, ℕ,
}
use tracegrams.Layout.{StorageLayout, Diagnostic}
use tracegrams.Layout.Facts.{IsLayout, Place, anomaly, IsPlace, index_of}
use tracegrams.Layout.Cover.{index-lt}
use tracegrams.Calibration.{FrozenStageCalibration, local_threshold, cumulative_after_threshold}
use tracegrams.Estimate.{CalibrationEstimate}
use tracegrams.Recorder.{Inner, increment, increment_diagnostic, increment_counter}

pub bump : List ℕ → ℕ → List ℕ
bump counters i = set counters i (increment_counter (get_or counters i 0))

pub length-bump : (counters : List ℕ) (i : ℕ) → length (bump counters i) ≡ length counters
unfolding bump
length-bump counters i = length-set counters i _

pub get_or-bump :
    (counters : List ℕ) (i j : ℕ)
    → i < length counters
    → get_or (bump counters i) j 0
      ≡ (if i == j then increment_counter (get_or counters j 0) else get_or counters j 0)
unfolding bump
get_or-bump counters i j h = elim (Bool-cases (i == j)) [
  | inl same ↦
      rw same (let e : i ≡ j = (==_iff i j).0 same in rw (← e) (get_or-set_self counters i _ 0 h))
  | inr other ↦ rw other (get_or-set_ne counters i j _ 0 (ground arith))
]

-- The recorder with the counter of a place, or of several, incremented.
unfoldable pub bumped : Inner → Place → Inner
bumped r p = record r { counters = bump r.counters (index_of r.layout p) }

unfoldable pub bumped_all : Inner → List Place → Inner
unfolding bumped
bumped_all r [] = r
bumped_all r (p ∷ ps) = bumped_all (bumped r p) ps

-- The value of an estimate, where it has one.
abbrev pub value_ns : Option CalibrationEstimate → ℕ
value_ns none = 0
value_ns (some e) = elim e.value [ none ↦ 0 | some ns ↦ ns ]

-- Published thresholds can be read.
pub record IsUsable (c : FrozenStageCalibration) : Type 0 where
  pub local_read : local_threshold c ≡ returns (value_ns c.report.local.estimate)
  pub after_read :
      cumulative_after_threshold c ≡ returns (value_ns c.report.cumulative_after.estimate)

-- A recorder of `n` stages: as many counters as the layout says, one publication cell for each
-- stage, a calibration state, and usable thresholds wherever they are published.
pub record IsReady (n : ℕ) (r : Inner) : Type 0 where
  pub layout_ok : IsLayout n r.layout
  pub sized : length r.counters ≡ r.layout.counter_count
  pub cells : length r.frozen_calibration ≡ n
  pub state_ok : r.calibration_state < 3
  pub usable :
      (i : ℕ) (c : FrozenStageCalibration)
      → get_elem? r.frozen_calibration i ≡ some (some c)
      → IsUsable c

module _ (n : ℕ) (r : Inner) (v : IsReady n r) where
  pub in_range : (p : Place) → IsPlace n p → index_of r.layout p < length r.counters
  in_range p h = rw v.sized (index-lt n r.layout v.layout_ok p h)

  pub increment-bumped :
      (p : Place) → IsPlace n p → increment r (index_of r.layout p) ≡ returns (bumped r p)
  unfolding increment bumped bump
  increment-bumped p h = rw (get_elem?-eq-some r.counters (index_of r.layout p) 0 (in_range p h))

  pub increment_diagnostic-bumped :
      (d : Diagnostic) → increment_diagnostic r d ≡ returns (bumped r (anomaly d))
  unfolding increment_diagnostic
  increment_diagnostic-bumped d = increment-bumped (anomaly d) tt

  pub bumped-IsReady : (p : Place) → IsReady n (bumped r p)
  unfolding bumped
  bumped-IsReady p = record {
    layout_ok = v.layout_ok;
    sized = length-bump r.counters _ ∙ v.sized;
    cells = v.cells;
    state_ok = v.state_ok;
    usable = v.usable;
  }

abbrev pub ArePlaces : ℕ → List Place → Type 0
ArePlaces n [] = Unit
ArePlaces n (p ∷ ps) = IsPlace n p × ArePlaces n ps

pub bumped_all-IsReady :
    (n : ℕ) (r : Inner) (ps : List Place) → IsReady n r → IsReady n (bumped_all r ps)
unfolding bumped_all
bumped_all-IsReady n r [] v = v
bumped_all-IsReady n r (p ∷ ps) v = bumped_all-IsReady n (bumped r p) ps (bumped-IsReady n r v p)

pub bumped_all-append :
    (r : Inner) (ps qs : List Place) → bumped_all r (ps ++ qs) ≡ bumped_all (bumped_all r ps) qs
unfolding bumped_all
bumped_all-append r [] qs = refl
bumped_all-append r (p ∷ ps) qs = bumped_all-append (bumped r p) ps qs

-- What increments leave alone.
pub bumped_all-layout : (r : Inner) (ps : List Place) → (bumped_all r ps).layout ≡ r.layout
unfolding bumped_all
bumped_all-layout r [] = refl
bumped_all-layout r (p ∷ ps) = bumped_all-layout (bumped r p) ps

pub bumped_all-state :
    (r : Inner) (ps : List Place) → (bumped_all r ps).calibration_state ≡ r.calibration_state
unfolding bumped_all
bumped_all-state r [] = refl
bumped_all-state r (p ∷ ps) = bumped_all-state (bumped r p) ps

pub bumped_all-frozen :
    (r : Inner) (ps : List Place) → (bumped_all r ps).frozen_calibration ≡ r.frozen_calibration
unfolding bumped_all
bumped_all-frozen r [] = refl
bumped_all-frozen r (p ∷ ps) = bumped_all-frozen (bumped r p) ps

pub bumped_all-cookie : (r : Inner) (ps : List Place) → (bumped_all r ps).cookie ≡ r.cookie
unfolding bumped_all
bumped_all-cookie r [] = refl
bumped_all-cookie r (p ∷ ps) = bumped_all-cookie (bumped r p) ps

pub bump_step :
    (counters : List ℕ) (i j : ℕ)
    → i < length counters
    → get_or counters j 0 < 2 ^ 64
    → get_or (bump counters i) j 0 ≡ (get_or counters j 0 + from_bool (i == j)) % 2 ^ 64
bump_step counters i j h k = ground (arith, get_or-bump counters i j h)

-- How often an index stands among the places.
unfoldable pub hits : StorageLayout → ℕ → List Place → ℕ
hits l j [] = 0
hits l j (p ∷ ps) = from_bool (index_of l p == j) + hits l j ps

wrap_twice :
    (c b h step all : ℕ)
    → step ≡ (c + b) % 2 ^ 64
    → all ≡ (step + h) % 2 ^ 64
    → all ≡ (c + (b + h)) % 2 ^ 64
wrap_twice c b h step all e f = omega arith

-- A counter grows by the number of its increments, modulo 2 ^ 64; all others keep their value.
pub bumped_all-counter :
    (n : ℕ) (r : Inner) (ps : List Place) (j : ℕ)
    → IsReady n r
    → ArePlaces n ps
    → get_or r.counters j 0 < 2 ^ 64
    → get_or (bumped_all r ps).counters j 0 ≡ (get_or r.counters j 0 + hits r.layout j ps) % 2 ^ 64
unfolding bumped_all hits
bumped_all-counter n r [] j v h k = omega arith
bumped_all-counter n r (p ∷ ps) j v h k =
    let step = bump_step r.counters (index_of r.layout p) j (in_range n r v p h.0) k in
    let small : get_or (bumped r p).counters j 0 < 2 ^ 64 = rw step (mod-lt _ (omega arith)) in
    let rest = bumped_all-counter n (bumped r p) ps j (bumped-IsReady n r v p) h.1 small in
    wrap_twice (get_or r.counters j 0) (from_bool (index_of r.layout p == j)) (hits r.layout j ps) _
      _ step rest
