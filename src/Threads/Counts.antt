-- ===== src/Threads/Counts.antt =====
-- Relaxed increments of src/recorder.rs, at counters that do not depend on the calibration state:
-- what each thread owes them.
use tracegrams.Layout.Cover.{apart}
use tracegrams.Threads.Moves.{increment_inv}
use tracegrams.Recorder.Bumps.{ArePlaces, in_range, bump_step, IsReady, hits, bumped}
use tracegrams.Calibration.{previous_cumulative_threshold, FrozenStageCalibration}
use tracegrams.Threads.{ending, looking, counting, Thread}
use tracegrams.Marks.Places.{outcome_places, online_places, classified_place, collecting_places}
use tracegrams.Recorder.{increment, Inner}
use mathlib.Core.Path.{subst}
use native.Mathlib.Nat.{mod-lt}
use tracegrams.Layout.{StorageLayout, calibration, online, Diagnostic}
use tracegrams.Layout.Facts.{IsLayout, index_of, IsPlace, Place, at, anomaly}
use tracegrams.Prelude.{
  ◌%◌, ◌++◌, ◌+◌, ◌<◌, ◌==◌, ◌^◌, ◌∙◌, ◌∷◌, ◌≡◌, ==_iff, Bool, Bool-cases, List, Option-cases, [],
  arith, false, from_bool, get_or, inl, inr, none, refl, returns, true, ℕ,
}

-- The places that a mark counts whatever the calibration state: distributions, matrices, completions
-- and overflows.
abbrev pub is_steady : Place → Bool
is_steady (at (calibration _) stage offset) = false
is_steady (at online stage offset) = false
is_steady (anomaly Diagnostic.calibration_samples_skipped_while_freezing) = false
is_steady (anomaly Diagnostic.online_samples_skipped_missing_previous_threshold) = false
is_steady _ = true

abbrev pub AreUnsteady : List Place → Type 0
AreUnsteady [] = Unit
AreUnsteady (p ∷ ps) = (is_steady p ≡ false) × AreUnsteady ps

pub hits-append :
    (l : StorageLayout) (j : ℕ) (ps qs : List Place)
    → hits l j (ps ++ qs) ≡ hits l j ps + hits l j qs
unfolding hits
hits-append l j [] qs = omega arith
hits-append l j (p ∷ ps) qs = omega (arith, hits-append l j ps qs)

-- An unsteady place is counted elsewhere.
pub hits-unsteady :
    (n : ℕ) (l : StorageLayout) (p : Place) (ps : List Place)
    → IsLayout n l
    → IsPlace n p
    → is_steady p ≡ true
    → ArePlaces n ps
    → AreUnsteady ps
    → hits l (index_of l p) ps ≡ 0
unfolding hits
hits-unsteady n l p [] v h steady a u = refl
hits-unsteady n l p (q ∷ ps) v h steady a u =
    let rest = hits-unsteady n l p ps v h steady a.1 u.1 in
    elim (Bool-cases (index_of l q == index_of l p)) [
      | inr other ↦ rw other (omega arith)
      | inl same ↦
          let e : q ≡ p = apart n l v q p a.0 h ((==_iff _ _).0 same) in
          let w : is_steady p ≡ false = (rw e at u.0) in absurd cc
    ]

pub collecting_places-AreUnsteady :
    (stage : ℕ) (later : Bool) (before_ns local_ns cumulative_ns : ℕ)
    → AreUnsteady (collecting_places stage later before_ns local_ns cumulative_ns)
collecting_places-AreUnsteady stage true before_ns local_ns cumulative_ns =
    (refl, (refl, (refl, tt)))
collecting_places-AreUnsteady stage false before_ns local_ns cumulative_ns = (refl, (refl, tt))

classified_place-is_steady :
    (c : FrozenStageCalibration) (stage : ℕ) (later : Bool) (before_ns local_ns cumulative_ns : ℕ)
    → is_steady (classified_place c stage later before_ns local_ns cumulative_ns) ≡ false
classified_place-is_steady c stage true before_ns local_ns cumulative_ns =
    elim (Option-cases (previous_cumulative_threshold c)) [ inl e ↦ rw e | inr (ns, e) ↦ rw e ]
classified_place-is_steady c stage false before_ns local_ns cumulative_ns = refl

pub online_places-AreUnsteady :
    (r : Inner) (started : Bool) (stage : ℕ) (later : Bool) (before_ns local_ns cumulative_ns : ℕ)
    → AreUnsteady (online_places r started stage later before_ns local_ns cumulative_ns)
online_places-AreUnsteady r false stage later before_ns local_ns cumulative_ns = tt
online_places-AreUnsteady r true stage later before_ns local_ns cumulative_ns =
    elim (Option-cases (get_or r.frozen_calibration stage none)) [
      | inl e ↦ rw e tt
      | inr (c, e) ↦
          rw e (classified_place-is_steady c stage later before_ns local_ns cumulative_ns, tt)
    ]

-- How often a thread has yet to increment the counter at an index, if that is a steady one.
abbrev pub owed : StorageLayout → ℕ → Thread → ℕ
owed l j (counting ps v) = hits l j ps + hits l j (outcome_places v.stage v.outcome)
owed l j (looking v) = hits l j (outcome_places v.stage v.outcome)
owed l j (ending ps) = hits l j ps
owed l j _ = 0

abbrev pub all_owed : StorageLayout → ℕ → List Thread → ℕ
all_owed l j [] = 0
all_owed l j (t ∷ ts) = owed l j t + all_owed l j ts

-- The counter at an index and what the threads owe it are a total, modulo 2 ^ 64.
pub record IsTally (l : StorageLayout) (j total : ℕ) (r : Inner) (threads : List Thread)
    : Type 0 where
  pub layout : r.layout ≡ l
  pub small : get_or r.counters j 0 < 2 ^ 64
  pub sums : (get_or r.counters j 0 + all_owed l j threads) % 2 ^ 64 ≡ total % 2 ^ 64

one_more :
    (c c' b total owed rest : ℕ)
    → c' ≡ (c + b) % 2 ^ 64
    → (c + (b + owed + rest)) % 2 ^ 64 ≡ total % 2 ^ 64
    → (c' + (owed + rest)) % 2 ^ 64 ≡ total % 2 ^ 64
one_more c c' b total owed rest e h = omega arith

pub counted-IsTally :
    (n j total : ℕ) (l : StorageLayout) (r r' : Inner) (t t' : Thread) (rest : List Thread)
    (p : Place)
    → IsReady n r
    → IsPlace n p
    → increment r (index_of r.layout p) ≡ returns r'
    → owed l j t ≡ from_bool (index_of l p == j) + owed l j t'
    → IsTally l j total r (t ∷ rest)
    → IsTally l j total r' (t' ∷ rest)
unfolding bumped
counted-IsTally n j total l r r' t t' rest p v h run paid s =
    let e = increment_inv n r r' p v h run in
    let step : get_or (bumped r p).counters j 0
        ≡ (get_or r.counters j 0 + from_bool (index_of l p == j)) % 2 ^ 64 =
      rw (← s.layout) (bump_step r.counters (index_of r.layout p) j (in_range n r v p h) s.small) in
    let due : (get_or r.counters j 0
            + (from_bool (index_of l p == j) + owed l j t' + all_owed l j rest))
          % 2 ^ 64
        ≡ total % 2 ^ 64 =
      rw (← paid) s.sums in
    subst (λ x. IsTally l j total x (t' ∷ rest)) e
      (record {
        layout = s.layout;
        small = rw step (mod-lt _ (omega arith));
        sums = one_more _ _ (from_bool (index_of l p == j)) total _ _ step due;
      })

pub moved-IsTally :
    (j total : ℕ) (l : StorageLayout) (r r' : Inner) (t t' : Thread) (rest : List Thread)
    → r'.layout ≡ r.layout
    → r'.counters ≡ r.counters
    → owed l j t' ≡ owed l j t
    → IsTally l j total r (t ∷ rest)
    → IsTally l j total r' (t' ∷ rest)
moved-IsTally j total l r r' t t' rest e f same s = record {
  layout = e ∙ s.layout;
  small = rw f s.small;
  sums = rw (f, same) s.sums;
}

pub all_owed-middle :
    (l : StorageLayout) (j : ℕ) (before after : List Thread) (t : Thread)
    → all_owed l j (before ++ (t ∷ after)) ≡ owed l j t + all_owed l j (before ++ after)
all_owed-middle l j [] after t = refl
all_owed-middle l j (b ∷ before) after t = omega (arith, all_owed-middle l j before after t)
