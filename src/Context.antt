-- ===== src/Context.antt =====
-- Request contexts of src/context.rs: the packed `Ctx` and the plain `ManualCtx`.
pub mod Packing
use tracegrams.Prelude.{
  ◌%◌, ◌-◌, ◌==◌, ◌^◌, Bool, Option, bit_and, bit_or, false, if◌then◌else◌, ltb, none, not, some,
  true, ℕ,
}
use tracegrams.Prelude.Bits.{shr, shl}
use tracegrams.Registry.{StageId}
use tracegrams.Bucket.{Bucket, from_six_bits, raw_u8, default_bucketize, calibration_bucketize}
use tracegrams.Layout.{
  Diagnostic, Population, local_index, cumulative_index, cause_index, incoming_index,
  calibration_index, online_index, completion_index, first_online_counter,
  predecessor_online_counter,
}
use tracegrams.Calibration.{
  FrozenStageCalibration, local_threshold, cumulative_after_threshold,
  previous_cumulative_threshold,
}
use tracegrams.Recorder.{Inner, increment, increment_diagnostic, collecting, freezing, frozen}

pub data Outcome : Type 0 where
  success failure : Outcome

pub record PreviousMark : Type 0 where
  pub stage : ℕ
  pub cumulative_bucket : ℕ

-- `COOKIE_MASK`, `STARTED_FROZEN_BIT`, `PREVIOUS_FIELD_MASK`, `HAS_PREVIOUS_BIT`, `IDENTITY_MASK`
abbrev pub cookie_mask : ℕ
cookie_mask = 0xffff_ffff

abbrev pub started_frozen_bit : ℕ
started_frozen_bit = 2 ^ 32

abbrev pub previous_field_mask : ℕ
previous_field_mask = 0x3f

abbrev pub has_previous_bit : ℕ
has_previous_bit = 2 ^ 60

abbrev pub identity_mask : ℕ
identity_mask = 2 ^ 48 - 1

-- `struct Ctx`: the recorder's identity, the flag and the previous mark are packed in one word.
pub record Ctx : Type 0 where
  pub last_timestamp_ns : ℕ
  pub cumulative_ns : ℕ
  pub metadata : ℕ

unfoldable pub new_ctx : ℕ → ℕ → Bool → Ctx
new_ctx last_timestamp_ns cookie started_frozen = record {
  last_timestamp_ns = last_timestamp_ns;
  cumulative_ns = 0;
  metadata = bit_or cookie (if started_frozen then started_frozen_bit else 0);
}

unfoldable pub registry_cookie : Ctx → ℕ
registry_cookie c = bit_and c.metadata cookie_mask

unfoldable pub started_frozen : Ctx → Bool
started_frozen c = not (bit_and c.metadata started_frozen_bit == 0)

unfoldable pub previous : Ctx → Option PreviousMark
previous c =
    if bit_and c.metadata has_previous_bit == 0
    then none
    else some (record {
      stage = bit_and (shr c.metadata 48) previous_field_mask % 2 ^ 8;
      cumulative_bucket = bit_and (shr c.metadata 54) previous_field_mask % 2 ^ 8;
    })

unfoldable pub set_previous : Ctx → PreviousMark → Ctx
set_previous c p = record c {
  metadata =
      bit_or
        (bit_or (bit_or (bit_and c.metadata identity_mask) (shl p.stage 48 % 2 ^ 64))
          (shl p.cumulative_bucket 54 % 2 ^ 64))
        has_previous_bit;
}

pub record ClockReading : Type 0 where
  pub timestamp_ns : ℕ
  pub overflowed : Bool

abbrev pub u64_max : ℕ
u64_max = 2 ^ 64 - 1

-- `from_elapsed`, of a duration in nanoseconds.
unfoldable pub from_elapsed : ℕ → ClockReading
from_elapsed nanos =
    if ltb nanos (2 ^ 64)
    then record { timestamp_ns = nanos; overflowed = false }
    else record { timestamp_ns = u64_max; overflowed = true }

-- `read_clock`, given what `checked_duration_since` says of the epoch, in nanoseconds: a clock that
-- reads before it counts as zero.
unfoldable pub read_clock : Option ℕ → ClockReading
unfolding from_elapsed
read_clock none = from_elapsed 0
read_clock (some nanos) = from_elapsed nanos

pub record MarkAdvance : Type 0 where
  pub cumulative_ns : ℕ
  pub previous : PreviousMark

pub record ManualCtx : Type 0 where
  pub cumulative_ns : ℕ
  pub cookie : ℕ
  pub started_frozen : Bool
  pub previous : Option PreviousMark
