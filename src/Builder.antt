-- ===== src/Builder.antt =====
-- Stage registration and recorder construction, src/init.rs. The sizes that the compiler gives to
-- the recorder's types are parameters.
pub mod Stages
pub mod Ready
pub mod Calls
pub mod Cookies
use tracegrams.Prelude.{
  ◌%◌, ◌&&◌, ◌*◌, ◌++◌, ◌+◌, ◌-◌, ◌==◌, ◌^◌, ◌||◌, ◌∷◌, Bool, List, Option, Result, [], and_then,
  err, false, if◌then◌else◌, leb, length, ltb, map, none, not, ok, ok_or, some, true, ℕ,
}
use tracegrams.Float.{F64, is_finite, le, lt, one_bits}
use tracegrams.Registry.{Str, StageId, MemoryEstimate}
use tracegrams.Layout.{
  StorageLayout, new_layout, checked_add, checked_mul, matrix_counter_count,
  calibration_counter_count,
}
use tracegrams.Recorder.{Inner, new_inner}

abbrev pub max_stages : ℕ
max_stages = 64

abbrev pub first_registry_cookie : ℕ
first_registry_cookie = 1

abbrev pub max_registry_cookie : ℕ
max_registry_cookie = 2 ^ 32 - 1

-- `0.99` as bits.
abbrev pub default_tail_quantile : F64
default_tail_quantile = 0x3fefae147ae147ae

pub data InitError : Type 0 where
  empty_stage_name : InitError
  duplicate_stage_name : Str → InitError
  no_stages : InitError
  too_many_stages : ℕ → InitError
  invalid_tail_quantile : F64 → InitError
  registry_cookie_exhausted size_overflow : InitError

-- The claim loop: what it loaded, then what each failing exchange observed, then an exchange that
-- succeeds. It gives the cookie and the new value of the source.
unfoldable pub claim_registry_cookie : ℕ → List ℕ → Option (ℕ × ℕ)
claim_registry_cookie current [] =
    if ltb max_registry_cookie current then none else some (current % 2 ^ 32, current + 1)
claim_registry_cookie current (observed ∷ rest) =
    let again = claim_registry_cookie observed rest in
    if ltb max_registry_cookie current then none else again

pub record TracegramsBuilder : Type 0 where
  pub cookie : Option ℕ
  pub stage_names : List Str
  pub tail_quantile : F64

-- `TracegramsBuilder::new`, given what the claim returned.
unfoldable pub new_builder : Option ℕ → TracegramsBuilder
new_builder cookie = record {
  cookie = cookie;
  stage_names = [];
  tail_quantile = default_tail_quantile;
}

-- The equality of byte strings.
unfoldable pub same_str : Str → Str → Bool
same_str [] [] = true
same_str [] (y ∷ ys) = false
same_str (x ∷ xs) [] = false
same_str (x ∷ xs) (y ∷ ys) = x == y && same_str xs ys

unfoldable pub is_registered : Str → List Str → Bool
unfolding same_str
is_registered name [] = false
is_registered name (n ∷ ns) = same_str n name || is_registered name ns

-- `stage`: an error leaves the builder as it was.
unfoldable pub stage : TracegramsBuilder → Str → Result StageId InitError × TracegramsBuilder
unfolding is_registered
stage b name = elim b.cookie [
  | none ↦ (err registry_cookie_exhausted, b)
  | some cookie ↦
      if length name == 0
      then (err empty_stage_name, b)
      else if leb max_stages (length b.stage_names)
      then (err (too_many_stages max_stages), b)
      else if is_registered name b.stage_names
      then (err (duplicate_stage_name name), b)
      else (
        ok (record { cookie = cookie; index = length b.stage_names % 2 ^ 8 }),
        record b { stage_names = b.stage_names ++ (name ∷ []) },
      )
]

unfoldable pub tail_quantile : TracegramsBuilder → F64 → Result TracegramsBuilder InitError
tail_quantile b quantile =
    if not (is_finite quantile) || (le quantile 0 || lt one_bits quantile)
    then err (invalid_tail_quantile quantile)
    else ok (record b { tail_quantile = quantile })

unfoldable pub checked_bytes : ℕ → ℕ → Result ℕ InitError
checked_bytes items item_bytes = ok_or (checked_mul items item_bytes) size_overflow

-- `try_fold` with `checked_add`
unfoldable pub checked_sum : ℕ → List ℕ → Result ℕ InitError
checked_sum total [] = ok total
checked_sum total (x ∷ xs) =
    and_then (ok_or (checked_add total x) size_overflow) λ t. checked_sum t xs

-- `size_of` of `OnceLock<FrozenStageCalibration>`, `Box<str>` and `Inner`.
pub record Sizes : Type 0 where
  pub once_lock : ℕ
  pub box_str : ℕ
  pub inner : ℕ

unfoldable pub estimate_memory : Sizes → StorageLayout → List ℕ → Result MemoryEstimate InitError
unfolding checked_bytes checked_sum
estimate_memory sizes l name_lengths =
    and_then (checked_bytes (matrix_counter_count l) 8) λ matrix_bytes.
      and_then (checked_bytes (calibration_counter_count l) 8) λ calibration_bytes.
        and_then
          (checked_bytes (l.counter_count - matrix_counter_count l - calibration_counter_count l) 8)
          λ auxiliary_bytes.
            and_then (checked_bytes l.stage_count sizes.once_lock) λ threshold_bytes.
              and_then (checked_bytes l.stage_count sizes.box_str) λ stage_headers.
                and_then (checked_sum 0 name_lengths) λ name_bytes.
                  and_then (ok_or (checked_add stage_headers name_bytes) size_overflow)
                    λ stage_bytes.
                      and_then (ok_or (checked_add sizes.inner (2 * 8)) size_overflow)
                        λ recorder_bytes.
                          and_then
                            (checked_sum 0 (
                              matrix_bytes ∷ calibration_bytes ∷ auxiliary_bytes ∷ threshold_bytes
                              ∷ stage_bytes ∷ recorder_bytes ∷ []))
                            λ total.
                              if leb matrix_bytes total
                                && leb calibration_bytes (total - matrix_bytes)
                              then ok (record {
                                matrix_bytes = matrix_bytes;
                                calibration_bytes = calibration_bytes;
                                metadata_bytes = total - matrix_bytes - calibration_bytes;
                              })
                              else err size_overflow

unfoldable pub storage_layout : TracegramsBuilder → Result StorageLayout InitError
storage_layout b =
    if length b.stage_names == 0
    then err no_stages
    else ok_or (new_layout (length b.stage_names)) size_overflow

unfoldable pub build : Sizes → TracegramsBuilder → Result Inner InitError
unfolding storage_layout estimate_memory
build sizes b = and_then (ok_or b.cookie registry_cookie_exhausted) λ cookie.
    and_then (storage_layout b) λ layout.
      and_then (estimate_memory sizes layout (map length b.stage_names))
        λ estimate. ok (new_inner cookie b.stage_names b.tail_quantile estimate layout)
