-- ===== src/Freeze/Derive.antt =====
-- The derivation of the freeze in src/calibration.rs, from whatever counts its scan read.
use tracegrams.Prelude.{
  ◌<◌, ◌>>=◌, ◌^◌, ◌∷◌, ◌≡◌, Bool-cases, List, Option, Option-cases, [], ap, arith, get_elem?, inl,
  inr, length, map, none, opt_then, range, refl, returns, some, suc, sum, true, unwrap, zero, ℕ,
}
use tracegrams.Bounds.{calibration_bounds}
use tracegrams.Float.{F64, Float}
use tracegrams.Registry.{StageId}
use tracegrams.Rank.Exact.{IsTailQuantile}
use tracegrams.Estimate.{CalibrationEstimate, estimate_quantile}
use tracegrams.Estimate.Terminals.{IsEstimate, IsValued, estimate_quantile-IsEstimate}
use tracegrams.Layout.{Population}
use tracegrams.Calibration.{
  PopulationReport, StageReport, is_finite, local_threshold, cumulative_after_threshold,
}
use tracegrams.Recorder.Bumps.{IsUsable, value_ns}
use tracegrams.Freeze.{
  PopulationScan, StageScan, first_unready, first_terminal, unready_population, is_ready,
  terminal_of, find_map, map_run, derive_population_report, derive_stage_report,
}
use tracegrams.Freeze.Runs.{result_or, map_run-map, find_map-none}
use tracegrams.Freeze.Scans.{id_of}

-- The required populations of a ready stage are not empty.
unready-none :
    {B : Type 0} (minimum : ℕ) (scan : StageScan) (f : PopulationScan → B)
    → (opt_then (unready_population minimum scan) λ p. some (f p)) ≡ none
    → (0 < scan.local.samples) × (0 < scan.cumulative_after.samples)
unfolding unready_population is_ready
unready-none minimum scan f h = ground arith

terminal-none :
    (stage : StageId) (p : PopulationReport) (e : CalibrationEstimate)
    → terminal_of stage p ≡ none
    → p.estimate ≡ some e
    → is_finite e.terminal ≡ true
unfolding terminal_of
terminal-none stage p e h k = elim (Bool-cases (is_finite e.terminal)) [
  | inl yes_finite ↦ yes_finite
  | inr not_finite ↦
      let w : some (stage, p.population, e.terminal) ≡ none = (rw (k, not_finite) at h) in absurd cc
]

-- A present, finite and valued estimate can be read.
read_threshold :
    (o : Option CalibrationEstimate)
    → (e : CalibrationEstimate) × (o ≡ some e)
    → ((e : CalibrationEstimate) → o ≡ some e → is_finite e.terminal ≡ true)
    → IsValued o
    → (unwrap o >>= λ e. unwrap e.value) ≡ returns (value_ns o)
read_threshold none (e, h) finite v = absurd cc
read_threshold (some e) h finite v = let (ns, k) = v (finite e refl) in rw k

pub get_elem?-lt :
    {A : Type 0} (xs : List A) (i : ℕ) (a : A) → get_elem? xs i ≡ some a → i < length xs
get_elem?-lt [] i a h = absurd cc
get_elem?-lt (x ∷ xs) zero a h = omega arith
get_elem?-lt (x ∷ xs) (suc i) a h = let k = get_elem?-lt xs i a h in omega arith

find_map-pair {ℓ κ} :
    {A : Type ℓ} {B : Type κ} (f : A → Option B) (a b c : A)
    → find_map f (a ∷ b ∷ c ∷ []) ≡ none
    → (f a ≡ none) × (f b ≡ none)
unfolding find_map
find_map-pair f a b c h = elim (Option-cases (f a)) [
  | inr (y, e) ↦ let w : some y ≡ none = (rw (e, find_map) at h) in absurd cc
  | inl e ↦
      let h₁ : find_map f (b ∷ c ∷ []) ≡ none = (rw (e, find_map) at h) in
      elim (Option-cases (f b)) [
        | inr (z, k) ↦ let w : some z ≡ none = (rw (k, find_map) at h₁) in absurd cc
        | inl k ↦ (e, k)
      ]
]

first_terminal-none :
    (reports : ℕ → StageReport) (n i : ℕ)
    → first_terminal (map reports (range n)) ≡ none
    → i < n
    → (terminal_of (reports i).stage (reports i).local ≡ none)
      × (terminal_of (reports i).stage (reports i).cumulative_after ≡ none)
unfolding first_terminal
first_terminal-none reports n i h k =
    find_map-pair (terminal_of (reports i).stage) (reports i).local (reports i).cumulative_after
      (reports i).previous_cumulative (find_map-none _ reports 0 n i h (omega arith) (omega arith))

-- Counts that a scan of `n` stages may read: 250 of each population, with a total that fits `u64`.
abbrev pub IsReadable : ℕ → (ℕ → Population → List ℕ) → Type 0
IsReadable n counts =
    (i : ℕ) (p : Population) → i < n → (length (counts i p) ≡ 250) × (sum (counts i p) < 2 ^ 64)

abbrev pub scan_with : (ℕ → Population → List ℕ) → ℕ → Population → PopulationScan
scan_with counts stage p = record {
  population = p;
  counts = counts stage p;
  samples = sum (counts stage p);
}

abbrev pub stage_scan : ℕ → (ℕ → Population → List ℕ) → ℕ → StageScan
stage_scan cookie counts i = record {
  stage = id_of cookie i;
  local = scan_with counts i Population.local;
  cumulative_after = scan_with counts i Population.cumulative_after;
  previous_cumulative = scan_with counts i Population.previous_cumulative;
}

module _ ⦃float : Float⦄ (n cookie : ℕ) (quantile : F64) (q : IsTailQuantile quantile)
    (counts : ℕ → Population → List ℕ) (readable : IsReadable n counts) where
  abbrev estimate_of : ℕ → Population → Option CalibrationEstimate
  estimate_of i p = result_or (estimate_quantile (counts i p) calibration_bounds quantile) none

  estimate_of_lem :
      (i : ℕ) (p : Population)
      → i < n
      → (estimate_quantile (counts i p) calibration_bounds quantile ≡ returns (estimate_of i p))
        × IsEstimate (sum (counts i p)) (estimate_of i p)
  estimate_of_lem i p h =
      let (o, run, e) =
        estimate_quantile-IsEstimate (counts i p) quantile ((readable i p h).0) q
          (readable i p h).1 in
      (rw run, rw run e)

  abbrev population_report_of : ℕ → Population → PopulationReport
  population_report_of i p = record {
    population = p;
    samples = sum (counts i p);
    estimate = estimate_of i p;
  }

  abbrev pub stage_report_of : ℕ → StageReport
  stage_report_of i = record {
    stage = id_of cookie i;
    local = population_report_of i Population.local;
    cumulative_after = population_report_of i Population.cumulative_after;
    previous_cumulative = population_report_of i Population.previous_cumulative;
  }

  derive_population_lem :
      (i : ℕ) (p : Population)
      → i < n
      → derive_population_report quantile (scan_with counts i p)
        ≡ returns (population_report_of i p)
  unfolding derive_population_report
  derive_population_lem i p h =
      ap
        (λ run. run >>= λ o.
          returns (record { population = p; samples = sum (counts i p); estimate = o }))
        (estimate_of_lem i p h).0

  pub derive_lem :
      map_run (derive_stage_report quantile) (map (stage_scan cookie counts) (range n))
      ≡ returns (map stage_report_of (range n))
  unfolding derive_stage_report
  derive_lem =
      map_run-map (derive_stage_report quantile) (stage_scan cookie counts) stage_report_of 0 n
        (λ j a b.
          let k : j < n = omega arith in
          rw (
            derive_population_lem j Population.local k,
            derive_population_lem j Population.cumulative_after k,
            derive_population_lem j Population.previous_cumulative k,
          ))

  -- Readiness and finiteness make published thresholds usable.
  pub stage_report_of-IsUsable :
      (minimum i : ℕ)
      → first_unready (map (stage_scan cookie counts) (range n)) minimum ≡ none
      → first_terminal (map stage_report_of (range n)) ≡ none
      → i < n
      → IsUsable (record { report = stage_report_of i })
  unfolding first_unready local_threshold cumulative_after_threshold
  stage_report_of-IsUsable minimum i ready finite h =
      let pos =
        unready-none minimum (stage_scan cookie counts i) _
          (find_map-none _ (stage_scan cookie counts) 0 n i ready (omega arith) (omega arith)) in
      let fin = first_terminal-none stage_report_of n i finite h in
      let at_local = (estimate_of_lem i Population.local h).1 in
      let after = (estimate_of_lem i Population.cumulative_after h).1 in
      record {
        local_read =
            read_threshold _ (at_local.present pos.0)
              (λ e k. terminal-none _ (population_report_of i Population.local) e fin.0 k)
              at_local.valued;
        after_read =
            read_threshold _ (after.present pos.1)
              (λ e k.
                terminal-none _ (population_report_of i Population.cumulative_after) e fin.1 k)
              after.valued;
      }
