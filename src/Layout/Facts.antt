-- ===== src/Layout/Facts.antt =====
-- The starts of a layout that `new_layout` of src/recorder.rs accepts, and when it accepts.
use tracegrams.Prelude.{◌*◌, ◌+◌, ◌-◌, ◌<◌, ◌^◌, ◌≡◌, ◌≤◌, arith, some, ℕ}
use tracegrams.Layout.{
  calibration, incoming, locals, cumulative, cause, online, completion, diagnostic_index,
  Diagnostic, Segment, cell, StorageLayout, new_layout,
}

-- Every start is the exact sum of what stands before it, and all of it fits a `usize`.
pub record IsLayout (n : ℕ) (l : StorageLayout) : Type 0 where
  pub stages : l.stage_count ≡ n
  pub some_stage : 0 < n
  pub cumulative_at : l.cumulative_start ≡ 64 * n
  pub cause_at : l.cause_start ≡ 128 * n
  pub incoming_at : l.incoming_start ≡ 4224 * n
  pub calibration_at : l.calibration_start + 4096 ≡ 8320 * n
  pub online_at : l.online_start + 4096 ≡ 9070 * n
  pub completion_at : l.completion_start + 4096 ≡ 9082 * n
  pub diagnostic_at : l.diagnostic_start + 4096 ≡ 9084 * n
  pub counters_at : l.counter_count + 4088 ≡ 9084 * n
  pub fits : l.counter_count < 2 ^ 64

pub new_layout-IsLayout : (n : ℕ) (l : StorageLayout) → new_layout n ≡ some l → IsLayout n l
unfolding new_layout
new_layout-IsLayout n l e = ground arith

-- A registration of 1 to 64 stages always has a layout.
pub new_layout_total : (n : ℕ) → 0 < n → n ≤ 64 → (l : StorageLayout) × (new_layout n ≡ some l)
unfolding new_layout
new_layout_total n pos small = (
  record {
    stage_count = n;
    cumulative_start = n * 64;
    cause_start = n * 64 + n * 64;
    incoming_start = n * 64 + n * 64 + n * 4096;
    calibration_start = n * 64 + n * 64 + n * 4096 + (n - 1) * 4096;
    online_start = n * 64 + n * 64 + n * 4096 + (n - 1) * 4096 + n * 3 * 250;
    completion_start = n * 64 + n * 64 + n * 4096 + (n - 1) * 4096 + n * 3 * 250 + n * 12;
    diagnostic_start = n * 64 + n * 64 + n * 4096 + (n - 1) * 4096 + n * 3 * 250 + n * 12 + n * 2;
    counter_count = n * 64 + n * 64 + n * 4096 + (n - 1) * 4096 + n * 3 * 250 + n * 12 + n * 2 + 8;
  },
  ground arith,
)

-- The length of a segment.
abbrev pub size : Segment → ℕ
size locals = 64
size cumulative = 64
size cause = 4096
size incoming = 4096
size (calibration _) = 250
size online = 12
size completion = 2

-- A place of the storage: an offset in a segment of a stage, or a diagnostic counter.
pub data Place : Type 0 where
  at : Segment → ℕ → ℕ → Place
  anomaly : Diagnostic → Place

-- The places that exist with `n` stages; the first stage has no incoming matrix.
abbrev pub IsPlace : ℕ → Place → Type 0
IsPlace n (at incoming stage offset) = (0 < stage) × (stage < n) × (offset < 4096)
IsPlace n (at segment stage offset) = (stage < n) × (offset < size segment)
IsPlace n (anomaly d) = Unit

-- Where the code keeps a place.
abbrev pub index_of : StorageLayout → Place → ℕ
index_of l (at segment stage offset) = cell l segment stage offset
index_of l (anomaly d) = diagnostic_index l d
