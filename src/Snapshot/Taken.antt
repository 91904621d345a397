-- ===== src/Snapshot/Taken.antt =====
-- `snapshot_relaxed` of src/snapshot.rs, of a recorder that is ready to record.
use tracegrams.Recorder.{Inner}
use tracegrams.Registry.{StageId, Str}
use tracegrams.Freeze.Scans.{stage_ids_lem, id_of}
use tracegrams.Snapshot.Reads.{IsSnapshot}
use tracegrams.Recorder.Bumps.{IsReady}
use tracegrams.Freeze.{frozen_calibration_report}
use tracegrams.Snapshot.{
  is_frozen, is_freezing, is_collecting, state_is_frozen, Snapshot, CalibrationState,
  snapshot_relaxed, from_raw, zip_stages,
}
use tracegrams.Prelude.{
  ◌+◌, ◌<◌, ◌==◌, ◌∙◌, ◌∷◌, ◌≡◌, ◌≤◌, Bool-cases, List, [], ap, arith, false, get_elem?,
  get_elem?-lt-some, if◌then◌else◌, inl, inr, length, length-map, length-range_from, map, min, none,
  range, range_from, refl, returns, some, suc, zero, ℕ,
}

zip_stages-length :
    (ids : List StageId) (names : List Str)
    → length (zip_stages ids names) ≡ min (length ids) (length names)
unfolding zip_stages
zip_stages-length [] names = omega arith
zip_stages-length (id ∷ ids) [] = omega arith
zip_stages-length (id ∷ ids) (name ∷ names) = omega (arith, zip_stages-length ids names)

-- The byte that stands for a state.
abbrev pub IsState : ℕ → CalibrationState → Type 0
IsState state is_collecting = state ≡ 0
IsState state is_freezing = state ≡ 1
IsState state is_frozen = state ≡ 2

from_raw-IsState :
    (state : ℕ)
    → state < 3
    → (c : CalibrationState) × (from_raw state ≡ returns c)
      × (state_is_frozen c ≡ (state == 2))
      × IsState state c
unfolding from_raw
from_raw-IsState zero h = (is_collecting, refl, refl, refl)
from_raw-IsState (suc zero) h = (is_freezing, refl, refl, refl)
from_raw-IsState (suc (suc zero)) h = (is_frozen, refl, refl, refl)
from_raw-IsState (suc (suc (suc k))) h = absurd (omega arith)

zip_stages-get_elem? :
    (ids : List StageId) (names : List Str) (i : ℕ) (id : StageId) (name : Str)
    → get_elem? ids i ≡ some id
    → get_elem? names i ≡ some name
    → get_elem? (zip_stages ids names) i ≡ some (record { id = id; name = name })
unfolding zip_stages
zip_stages-get_elem? [] names i id name h k = absurd cc
zip_stages-get_elem? (x ∷ ids) [] i id name h k = absurd cc
zip_stages-get_elem? (x ∷ ids) (y ∷ names) zero id name h k =
    let e : x ≡ id = cc in let f : y ≡ name = cc in rw (e, f) refl
zip_stages-get_elem? (x ∷ ids) (y ∷ names) (suc i) id name h k =
    zip_stages-get_elem? ids names i id name h k

ids-get_elem? :
    (cookie first count i : ℕ)
    → i < count
    → get_elem? (map (id_of cookie) (range_from first count)) i
      ≡ some (record { cookie = cookie; index = first + i })
ids-get_elem? cookie first zero i h = absurd (omega arith)
ids-get_elem? cookie first (suc count) zero h = let e : first + 0 ≡ first = omega arith in rw e refl
ids-get_elem? cookie first (suc count) (suc i) h =
    let e : first + suc i ≡ suc first + i = omega arith in
    rw e (ids-get_elem? cookie (suc first) count i (omega arith))

stage_at :
    (cookie n i : ℕ)
    → i < n
    → get_elem? (map (id_of cookie) (range n)) i ≡ some (record { cookie = cookie; index = i })
stage_at cookie n i h =
    let e : 0 + i ≡ i = omega arith in
    ids-get_elem? cookie 0 n i h ∙ ap (λ k. some (record { cookie = cookie; index = k })) e

-- What the snapshot of a recorder of `n` stages has of it.
pub record IsCopy (n : ℕ) (r : Inner) (s : Snapshot) : Type 0 where
  pub snapshot : IsSnapshot n s
  pub cookie : s.cookie ≡ r.cookie
  pub counters : s.counters ≡ r.counters
  pub layout : s.layout ≡ r.layout
  pub quantile : s.tail_quantile ≡ r.tail_quantile
  pub memory : s.memory_estimate ≡ r.memory_estimate
  pub staged :
      (i : ℕ)
      → i < n
      → (name : Str) × (get_elem? r.stage_names i ≡ some name)
        × (get_elem? s.stages i
            ≡ some (record { id = record { cookie = r.cookie; index = i }; name = name }))
  pub stated : IsState r.calibration_state s.calibration_state
  pub state : state_is_frozen s.calibration_state ≡ (r.calibration_state == 2)
  pub report : s.calibration_report ≡ frozen_calibration_report r
  pub whole : s.spans_freeze ≡ false

report_of-state :
    (r : Inner) (c : CalibrationState)
    → state_is_frozen c ≡ (r.calibration_state == 2)
    → (if state_is_frozen c then frozen_calibration_report r else none)
      ≡ frozen_calibration_report r
unfolding frozen_calibration_report
report_of-state r c e = elim (Bool-cases (r.calibration_state == 2)) [
  | inl two ↦ rw (e, two)
  | inr other ↦ rw (e, other)
]

abbrev copy_of : ℕ → Inner → CalibrationState → Snapshot
copy_of n r state = record {
  cookie = r.cookie;
  stages = zip_stages (map (id_of r.cookie) (range n)) r.stage_names;
  layout = r.layout;
  counters = r.counters;
  tail_quantile = r.tail_quantile;
  calibration_state = state;
  calibration_report = if state_is_frozen state then frozen_calibration_report r else none;
  memory_estimate = r.memory_estimate;
  spans_freeze = false;
}

-- A ready recorder of at most 256 stages with a name for each has a snapshot: taking it does not
-- panic, and it has the recorder's cookie, layout, counters, tail quantile and memory estimate; its
-- stages are the identifiers of the recorder's cookie in order, each with its registered name; its state
-- is the one of the recorder's state byte; it has the report that the recorder shows, and spans no
-- freeze.
pub snapshot_relaxed-IsCopy :
    (n : ℕ) (r : Inner)
    → IsReady n r
    → n ≤ 256
    → length r.stage_names ≡ n
    → (s : Snapshot) × (snapshot_relaxed r ≡ returns s) × IsCopy n r s
unfolding snapshot_relaxed
snapshot_relaxed-IsCopy n r v small named =
    let (c, run, e, stated) = from_raw-IsState r.calibration_state v.state_ok in
    let ids = map (id_of r.cookie) (range n) in
    let counted : length ids ≡ n = length-map (id_of r.cookie) (range n) ∙ length-range_from 0 n in
    (
      copy_of n r c,
      rw (stage_ids_lem n r v small, run),
      record {
        snapshot = record {
          layout_ok = v.layout_ok;
          sized = v.sized;
          staged = zip_stages-length ids r.stage_names ∙ omega (arith, counted);
        };
        cookie = refl;
        counters = refl;
        layout = refl;
        quantile = refl;
        memory = refl;
        staged = λ i h.
            let (name, at_name) = get_elem?-lt-some r.stage_names i (rw named h) in
            (
              name,
              at_name,
              zip_stages-get_elem? ids r.stage_names i _ name (stage_at r.cookie n i h) at_name,
            );
        stated = stated;
        state = e;
        report = report_of-state r c e;
        whole = refl;
      },
    )
