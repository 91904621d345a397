-- ===== src/Freeze/Scans.antt =====
-- The scan of the freeze in src/calibration.rs on a ready recorder, and the values of finite
-- estimates.
use tracegrams.Prelude.{
  ◌+◌, ◌-◌, ◌<◌, ◌∙◌, ◌∷◌, ◌≡◌, ◌≤◌, List, ap, arith, drop, length, length-drop, length-take,
  le→leb, lt→ltb, map, range, range_from, refl, returns, some, suc, sum, take, zero, ℕ,
}
use tracegrams.Bucket.{slice}
use tracegrams.Registry.{StageId}
use tracegrams.Layout.{Population, Segment, segment_range, StorageLayout, geometry}
use tracegrams.Layout.Facts.{IsLayout}
use tracegrams.Recorder.{Inner}
use tracegrams.Recorder.Bumps.{IsReady}
use tracegrams.Freeze.{
  map_run, PopulationScan, StageScan, scan_population, scan_stage, scan_calibration, stage_ids,
  stage_id,
}
use tracegrams.Freeze.Runs.{map_run-map}

-- Where a calibration population starts.
abbrev pub population_start : Inner → ℕ → Population → ℕ
population_start r stage p = (geometry r.layout (Segment.calibration p) stage).0

abbrev pub population_counts : Inner → ℕ → Population → List ℕ
population_counts r stage p = take 250 (drop (population_start r stage p) r.counters)

abbrev pub population_scan : Inner → ℕ → Population → PopulationScan
population_scan r stage p = record {
  population = p;
  counts = population_counts r stage p;
  samples = sum (population_counts r stage p);
}

segment_range_lem :
    (n : ℕ) (l : StorageLayout) (stage : ℕ) (p : Population)
    → IsLayout n l
    → stage < n
    → let start = (geometry l (Segment.calibration p) stage).0 in
      (segment_range l stage (Segment.calibration p) ≡ some (start, start + 250))
      × (start + 250 ≤ l.counter_count)
unfolding segment_range geometry
segment_range_lem n l stage p v h = ground arith

pub slice-take :
    (xs : List ℕ) (from size : ℕ)
    → from + size ≤ length xs
    → slice xs from (from + size) ≡ returns (take size (drop from xs))
unfolding slice
slice-take xs from size h =
    let e : from + size - from ≡ size = omega arith in
    rw (le→leb from (from + size) (omega arith), le→leb (from + size) (length xs) h, e)

module _ (n : ℕ) (r : Inner) (v : IsReady n r) where
  pub scan_population_lem :
      (stage : StageId) (p : Population)
      → stage.index < n
      → scan_population r stage p ≡ returns (population_scan r stage.index p)
  unfolding scan_population
  scan_population_lem stage p h =
      let s = segment_range_lem n r.layout stage.index p v.layout_ok h in
      rw (s.0, slice-take r.counters (population_start r stage.index p) 250 (rw v.sized s.1))

  pub length-population_counts :
      (stage : ℕ) (p : Population) → stage < n → length (population_counts r stage p) ≡ 250
  length-population_counts stage p h =
      let s = segment_range_lem n r.layout stage p v.layout_ok h in
      let fits : population_start r stage p + 250 ≤ length r.counters = rw v.sized s.1 in
      length-take 250 (drop (population_start r stage p) r.counters)
      ∙ (omega (arith, length-drop (population_start r stage p) r.counters))

abbrev pub id_of : ℕ → ℕ → StageId
id_of cookie i = record { cookie = cookie; index = i }

abbrev pub scan_of : Inner → ℕ → StageScan
scan_of r i = record {
  stage = id_of r.cookie i;
  local = population_scan r i Population.local;
  cumulative_after = population_scan r i Population.cumulative_after;
  previous_cumulative = population_scan r i Population.previous_cumulative;
}

map_self : (i m : ℕ) → map (λ j. j) (range_from i m) ≡ range_from i m
map_self i zero = refl
map_self i (suc m) = ap (λ xs. i ∷ xs) (map_self (suc i) m)

pub stage_ids_lem :
    (n : ℕ) (r : Inner)
    → IsReady n r
    → n ≤ 256
    → stage_ids r ≡ returns (map (id_of r.cookie) (range n))
unfolding stage_ids stage_id
stage_ids_lem n r v h =
    let ids =
      map_run-map (stage_id r.cookie) (λ j. j) (id_of r.cookie) 0 n
        (λ j a b. rw (lt→ltb j 256 (omega arith))) in
    ap (λ k. map_run (stage_id r.cookie) (range k)) v.layout_ok.stages ∙ (rw (map_self 0 n) at ids)

pub scan_calibration_lem :
    (n : ℕ) (r : Inner)
    → IsReady n r
    → n ≤ 256
    → scan_calibration r ≡ returns (map (scan_of r) (range n))
unfolding scan_calibration scan_stage
scan_calibration_lem n r v h = rw (stage_ids_lem n r v h) (
    map_run-map (scan_stage r) (id_of r.cookie) (scan_of r) 0 n (λ j a b. rw (
      scan_population_lem n r v (id_of r.cookie j) Population.local (omega arith),
      scan_population_lem n r v (id_of r.cookie j) Population.cumulative_after (omega arith),
      scan_population_lem n r v (id_of r.cookie j) Population.previous_cumulative (omega arith),
    )))
