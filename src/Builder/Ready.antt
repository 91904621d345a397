-- ===== src/Builder/Ready.antt =====
-- Construction in src/init.rs: the recorder that `build` returns and its memory estimate.
use tracegrams.Builder.Stages.{IsBuilder}
use tracegrams.Prelude.{
  ◌*◌, ◌+◌, ◌-◌, ◌<◌, ◌==◌, ◌^◌, ◌∙◌, ◌∷◌, ◌≡◌, ◌≤◌, List, [], arith, false, get_elem?, length,
  length-replicate, le→leb, lt→ltb, map, none, ok, refl, replicate, some, suc, sum, zero, ℕ,
}
use tracegrams.Float.{F64}
use tracegrams.Registry.{Str, MemoryEstimate, total_bytes}
use tracegrams.Layout.{StorageLayout}
use tracegrams.Layout.Facts.{IsLayout, new_layout-IsLayout, new_layout_total}
use tracegrams.Recorder.{Inner, new_inner, collecting}
use tracegrams.Recorder.Bumps.{IsReady}
use tracegrams.Calibration.{FrozenStageCalibration}
use tracegrams.Builder.{
  TracegramsBuilder, storage_layout, build, Sizes, estimate_memory, checked_sum, checked_bytes,
}

pub new_inner-IsReady :
    (n cookie : ℕ) (names : List Str) (q : F64) (m : MemoryEstimate) (l : StorageLayout)
    → IsLayout n l
    → IsReady n (new_inner cookie names q m l)
unfolding new_inner
new_inner-IsReady n cookie names q m l v = record {
  layout_ok = v;
  sized = length-replicate l.counter_count 0;
  cells = length-replicate l.stage_count none ∙ v.stages;
  state_ok = omega arith;
  usable = λ i c h. absurd (nothing_published i l.stage_count c h);
}
  where
    nothing_published :
        (i n : ℕ) (c : FrozenStageCalibration) → get_elem? (replicate n none) i ≡ some (some c) → ⊥
    nothing_published i zero c h = cc
    nothing_published zero (suc n) c h = cc
    nothing_published (suc i) (suc n) c h = nothing_published i n c h

-- The bytes that a recorder takes: its counters, its publication cells, its names and itself with the
-- two reference counts of its `Arc`.
abbrev pub footprint : Sizes → StorageLayout → List ℕ → ℕ
footprint sizes l name_lengths =
    8 * l.counter_count
    + l.stage_count * sizes.once_lock
    + (l.stage_count * sizes.box_str + sum name_lengths)
    + (sizes.inner + 16)

checked_sum-eq :
    (acc : ℕ) (xs : List ℕ) → acc + sum xs < 2 ^ 64 → checked_sum acc xs ≡ ok (acc + sum xs)
unfolding checked_sum sum
checked_sum-eq acc [] h = let e : acc + 0 ≡ acc = omega arith in rw e
checked_sum-eq acc (x ∷ xs) h =
    let e : acc + (x + sum xs) ≡ acc + x + sum xs = omega arith in
    rw (lt→ltb (acc + x) (2 ^ 64) (omega arith), e) (checked_sum-eq (acc + x) xs (omega arith))

checked_mul-eq : (a b : ℕ) → a * b < 2 ^ 64 → checked_bytes a b ≡ ok (a * b)
unfolding checked_bytes
checked_mul-eq a b h = rw (lt→ltb (a * b) (2 ^ 64) h)

-- With a layout and a footprint that fits a `usize`, the estimate is given, and its total is exactly
-- the footprint.
module _ (sizes : Sizes) (n : ℕ) (l : StorageLayout) (name_lengths : List ℕ) (v : IsLayout n l)
    (h : footprint sizes l name_lengths < 2 ^ 64) where
  abbrev auxiliary : ℕ
  auxiliary = l.counter_count - l.calibration_start - (l.online_start - l.calibration_start)

  abbrev parts : List ℕ
  parts =
      (l.calibration_start * 8)
      ∷ ((l.online_start - l.calibration_start) * 8)
      ∷ (auxiliary * 8)
      ∷ (l.stage_count * sizes.once_lock)
      ∷ (l.stage_count * sizes.box_str + (0 + sum name_lengths))
      ∷ (sizes.inner + 2 * 8)
      ∷ []

  parts_lem : 0 + sum parts ≡ footprint sizes l name_lengths
  unfolding sum
  parts_lem = omega (arith, v.calibration_at, v.online_at, v.counters_at)

  above_first : l.calibration_start * 8 ≤ 0 + sum parts
  unfolding sum
  above_first = omega arith

  above_second :
      (l.online_start - l.calibration_start) * 8 ≤ 0 + sum parts - l.calibration_start * 8
  unfolding sum
  above_second = omega arith

  abbrev estimated : MemoryEstimate
  estimated = record {
    matrix_bytes = l.calibration_start * 8;
    calibration_bytes = (l.online_start - l.calibration_start) * 8;
    metadata_bytes =
        0 + sum parts - l.calibration_start * 8 - (l.online_start - l.calibration_start) * 8;
  }

  pub estimate_memory-footprint : estimate_memory sizes l name_lengths ≡ ok estimated
  unfolding estimate_memory
  estimate_memory-footprint =
      let whole = parts_lem in
      let first = above_first in
      let second = above_second in
      rw (
        checked_mul-eq l.calibration_start 8 (omega (arith, v.calibration_at, v.counters_at)),
        checked_mul-eq (l.online_start - l.calibration_start) 8
            (omega (arith, v.calibration_at, v.online_at, v.counters_at)),
        checked_mul-eq auxiliary 8 (omega arith),
        checked_mul-eq l.stage_count sizes.once_lock (omega arith),
        checked_mul-eq l.stage_count sizes.box_str (omega arith),
        checked_sum-eq 0 name_lengths (omega arith),
        lt→ltb (l.stage_count * sizes.box_str + (0 + sum name_lengths)) (2 ^ 64) (omega arith),
        lt→ltb (sizes.inner + 2 * 8) (2 ^ 64) (omega arith),
        checked_sum-eq 0 parts (omega arith),
        le→leb (l.calibration_start * 8) (0 + sum parts) first,
        le→leb ((l.online_start - l.calibration_start) * 8)
            (0 + sum parts - l.calibration_start * 8) second,
      )

  pub total_bytes-footprint : total_bytes estimated ≡ footprint sizes l name_lengths
  unfolding total_bytes
  total_bytes-footprint =
      let whole = parts_lem in let first = above_first in let second = above_second in omega arith

-- The recorder that is built.
pub build-new_inner :
    (sizes : Sizes) (b : TracegramsBuilder) (cookie : ℕ)
    → IsBuilder b
    → b.cookie ≡ some cookie
    → 0 < length b.stage_names
    → ((l : StorageLayout)
        → IsLayout (length b.stage_names) l
        → footprint sizes l (map length b.stage_names) < 2 ^ 64)
    → (m : MemoryEstimate) × (l : StorageLayout) × (build sizes b
        ≡ ok (new_inner cookie b.stage_names b.tail_quantile m l))
      × IsLayout (length b.stage_names) l
      × (total_bytes m ≡ footprint sizes l (map length b.stage_names))
unfolding build storage_layout
build-new_inner sizes b cookie v owned some_name fits =
    let n = length b.stage_names in
    let names = map length b.stage_names in
    let (l, laid_out) = new_layout_total n some_name v.few in
    let ok_layout = new_layout-IsLayout n l laid_out in
    let nonempty : (length b.stage_names == 0) ≡ false = ground (arith, some_name) in
    let small = fits l ok_layout in
    (
      estimated sizes n l names ok_layout small,
      l,
      rw (owned, nonempty, laid_out, estimate_memory-footprint sizes n l names ok_layout small),
      ok_layout,
      total_bytes-footprint sizes n l names ok_layout small,
    )

-- A builder with a cookie and at least one stage, as registrations leave it, builds a recorder wherever
-- the footprint of its stages fits a `usize`: the recorder is ready to record for as many stages as
-- names, keeps the builder's cookie, names and quantile, collects calibration samples, and its memory
-- estimate totals exactly the footprint.
pub build-IsReady :
    (sizes : Sizes) (b : TracegramsBuilder) (cookie : ℕ)
    → IsBuilder b
    → b.cookie ≡ some cookie
    → 0 < length b.stage_names
    → ((l : StorageLayout)
        → IsLayout (length b.stage_names) l
        → footprint sizes l (map length b.stage_names) < 2 ^ 64)
    → (r : Inner) × (build sizes b ≡ ok r)
      × IsReady (length b.stage_names) r
      × (r.cookie ≡ cookie)
      × (r.stage_names ≡ b.stage_names)
      × (r.tail_quantile ≡ b.tail_quantile)
      × (r.calibration_state ≡ collecting)
      × (total_bytes r.memory_estimate ≡ footprint sizes r.layout (map length b.stage_names))
unfolding new_inner
build-IsReady sizes b cookie v owned some_name fits =
    let (m, l, run, ok_layout, total) = build-new_inner sizes b cookie v owned some_name fits in
    (
      new_inner cookie b.stage_names b.tail_quantile m l,
      run,
      new_inner-IsReady (length b.stage_names) cookie b.stage_names b.tail_quantile m l ok_layout,
      refl,
      refl,
      refl,
      refl,
      total,
    )
