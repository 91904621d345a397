-- ===== src/Tests/Building.antt =====
-- Concrete calls of the builder of src/init.rs.
use tracegrams.Float.{is_nan, lt, le, is_finite}
use tracegrams.Builder.Calls.{configured}
use tracegrams.Threads.Sound.{IsSound}
use tracegrams.Tests.Numbers.{some_sizes, half}
use tracegrams.Builder.Calls.{
  configured-IsSound, tail_quantile-cases, set_quantile, add_stage, configured, Call,
}
use tracegrams.Rank.Exact.{IsTailQuantile}
use tracegrams.Recorder.{Inner}
use tracegrams.Builder.{
  invalid_tail_quantile, tail_quantile, same_str, is_registered, stage, new_builder, build,
  TracegramsBuilder,
}
use tracegrams.Prelude.{◌∷◌, ◌≡◌, ◌⊎◌, List, [], arith, err, length, map, ok, refl, some, sum}

tail_quantile-cases_example :
    (IsTailQuantile half
      × (tail_quantile (new_builder (some 7)) half
          ≡ ok (record (new_builder (some 7)) { tail_quantile = half })))
    ⊎ (¬ IsTailQuantile half
        × (tail_quantile (new_builder (some 7)) half ≡ err (invalid_tail_quantile half)))
tail_quantile-cases_example = tail_quantile-cases (new_builder (some 7)) half (omega arith)

-- A name, the same name again, an infinite quantile, and another name.
abbrev four_calls : List Call
four_calls =
    add_stage (97 ∷ [])
    ∷ add_stage (97 ∷ [])
    ∷ set_quantile 0x7ff0_0000_0000_0000
    ∷ add_stage (98 ∷ [])
    ∷ []

abbrev after_calls : TracegramsBuilder
after_calls = configured (new_builder (some 7)) four_calls

after_calls-length : length after_calls.stage_names ≡ 2
unfolding configured new_builder stage is_registered same_str tail_quantile is_finite le lt is_nan
after_calls-length = refl

short_names : sum (map length after_calls.stage_names) ≡ 2
unfolding configured new_builder stage is_registered same_str tail_quantile is_finite le lt is_nan
    sum
short_names = refl

configured-IsSound_example :
    (r : Inner) × (build some_sizes after_calls ≡ ok r)
    × IsSound (length after_calls.stage_names) r []
    × (r.cookie ≡ 7)
    × (r.stage_names ≡ after_calls.stage_names)
configured-IsSound_example =
    configured-IsSound some_sizes 7 four_calls (omega arith, tt) (omega (arith, after_calls-length))
      (λ l v. omega (arith, v.stages, v.counters_at, after_calls-length, short_names))
