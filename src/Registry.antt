-- ===== src/Registry.antt =====
-- What src/init.rs brands: stage identifiers, and the itemised memory estimate.
use tracegrams.Prelude.{◌%◌, ◌&&◌, ◌+◌, ◌==◌, ◌^◌, Bool, List, ℕ}

-- A `str` is its UTF-8 bytes.
abbrev pub Str : Type 0
Str = List ℕ

-- `struct StageId`, with the raw cookie of `RegistryCookie`.
pub record StageId : Type 0 where
  pub cookie : ℕ
  pub index : ℕ

-- The derived `==`.
abbrev pub same_stage : StageId → StageId → Bool
same_stage a b = a.cookie == b.cookie && a.index == b.index

pub record MemoryEstimate : Type 0 where
  pub matrix_bytes : ℕ
  pub calibration_bytes : ℕ
  pub metadata_bytes : ℕ

-- `total_bytes`: plain `usize` additions.
unfoldable pub total_bytes : MemoryEstimate → ℕ
total_bytes m = ((m.matrix_bytes + m.calibration_bytes) % 2 ^ 64 + m.metadata_bytes) % 2 ^ 64
