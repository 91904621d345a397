-- ===== src/Builder/Calls.antt =====
-- Sequences of registrations and quantile settings in src/init.rs, and what `build` makes of them.
use tracegrams.Registry.{Str}
use tracegrams.Layout.{StorageLayout}
use tracegrams.Threads.Fresh.{new_inner-IsSound}
use tracegrams.Threads.Sound.{IsSound}
use tracegrams.Builder.Ready.{build-new_inner, footprint}
use tracegrams.Layout.Facts.{IsLayout}
use tracegrams.Recorder.{Inner, new_inner}
use tracegrams.Rank.Exact.{IsTailQuantile}
use tracegrams.Float.{F64, one_bits, le, is_finite, lt, is_nan}
use tracegrams.Builder.Stages.{stage-cases, IsBuilder}
use tracegrams.Builder.{
  build, Sizes, invalid_tail_quantile, InitError, TracegramsBuilder, stage, tail_quantile,
  new_builder,
}
use tracegrams.Prelude.{
  ◌&&◌, ◌<◌, ◌^◌, ◌∙◌, ◌∷◌, ◌≡◌, ◌⊎◌, Bool-cases, List, Option, Result, [], arith, err, inl, inr,
  leb, length, map, ok, refl, some, ℕ,
}

-- Setting a tail quantile, of any `f64` bit pattern: above zero and up to one it is accepted and nothing
-- else of the builder changes; anything else, NaN included, is refused with the error that names it.
pub tail_quantile-cases :
    (b : TracegramsBuilder) (q : F64)
    → q < 2 ^ 64
    → (IsTailQuantile q × (tail_quantile b q ≡ ok (record b { tail_quantile = q })))
      ⊎ (¬ IsTailQuantile q × (tail_quantile b q ≡ err (invalid_tail_quantile q)))
unfolding tail_quantile is_finite lt le is_nan
tail_quantile-cases b q h = elim (Bool-cases (leb 1 q && leb q one_bits)) [
  | inl within ↦ inl (ground arith, ground arith)
  | inr without ↦ inr (ground arith, ground arith)
]

-- The calls that configure a builder.
pub data Call : Type 0 where
  add_stage : Str → Call
  set_quantile : F64 → Call

kept : TracegramsBuilder → Result TracegramsBuilder InitError → TracegramsBuilder
kept b (err e) = b
kept b (ok after) = after

unfoldable pub configured : TracegramsBuilder → List Call → TracegramsBuilder
unfolding stage tail_quantile kept
configured b [] = b
configured b (add_stage name ∷ calls) = configured (stage b name).1 calls
configured b (set_quantile q ∷ calls) = configured (kept b (tail_quantile b q)) calls

abbrev pub AreCalls : List Call → Type 0
AreCalls [] = Unit
AreCalls (add_stage name ∷ calls) = AreCalls calls
AreCalls (set_quantile q ∷ calls) = (q < 2 ^ 64) × AreCalls calls

pub record IsConfigured (cookie : Option ℕ) (b : TracegramsBuilder) : Type 0 where
  pub builder : IsBuilder b
  pub quantile : IsTailQuantile b.tail_quantile
  pub owner : b.cookie ≡ cookie

new_builder-IsConfigured : (cookie : Option ℕ) → IsConfigured cookie (new_builder cookie)
unfolding new_builder
new_builder-IsConfigured cookie = record {
  builder = record { few = omega arith; distinct = tt; named = tt };
  quantile = (omega arith, omega arith);
  owner = refl;
}

stage-IsConfigured :
    (cookie : Option ℕ) (b : TracegramsBuilder) (name : Str)
    → IsConfigured cookie b
    → IsConfigured cookie (stage b name).1
stage-IsConfigured cookie b name c = elim (stage-cases b name c.builder) [
  | inl (e, run) ↦ rw run c
  | inr (id, after, run, registered) ↦ rw run (record {
    builder = registered.kept;
    quantile = rw registered.same_quantile c.quantile;
    owner = registered.same_cookie ∙ c.owner;
  })
]

tail_quantile-IsConfigured :
    (cookie : Option ℕ) (b : TracegramsBuilder) (q : F64)
    → q < 2 ^ 64
    → IsConfigured cookie b
    → IsConfigured cookie (kept b (tail_quantile b q))
unfolding kept
tail_quantile-IsConfigured cookie b q h c = elim (tail_quantile-cases b q h) [
  | inl (accepted, run) ↦ rw run (record {
    builder = record {
      few = c.builder.few;
      distinct = c.builder.distinct;
      named = c.builder.named;
    };
    quantile = accepted;
    owner = c.owner;
  })
  | inr (refused, run) ↦ rw run c
]

configured-IsConfigured :
    (cookie : Option ℕ) (b : TracegramsBuilder) (calls : List Call)
    → AreCalls calls
    → IsConfigured cookie b
    → IsConfigured cookie (configured b calls)
unfolding configured
configured-IsConfigured cookie b [] a c = c
configured-IsConfigured cookie b (add_stage name ∷ calls) a c =
    configured-IsConfigured cookie (stage b name).1 calls a (stage-IsConfigured cookie b name c)
configured-IsConfigured cookie b (set_quantile q ∷ calls) a c =
    configured-IsConfigured cookie (kept b (tail_quantile b q)) calls a.1
      (tail_quantile-IsConfigured cookie b q a.0 c)

-- A builder that claimed a cookie, after any sequence of registrations and quantile settings, successful
-- or not: if it has a stage and the footprint of its stages fits a `usize`, `build` gives a recorder
-- that threads can share from the start, for as many stages as it has names.
pub configured-IsSound :
    (sizes : Sizes) (cookie : ℕ) (calls : List Call)
    → AreCalls calls
    → let b = configured (new_builder (some cookie)) calls in
      0 < length b.stage_names
      → ((l : StorageLayout)
          → IsLayout (length b.stage_names) l
          → footprint sizes l (map length b.stage_names) < 2 ^ 64)
      → (r : Inner) × (build sizes b ≡ ok r)
        × IsSound (length b.stage_names) r []
        × (r.cookie ≡ cookie)
        × (r.stage_names ≡ b.stage_names)
unfolding new_inner
configured-IsSound sizes cookie calls a some_name fits =
    let b = configured (new_builder (some cookie)) calls in
    let c =
      configured-IsConfigured (some cookie) (new_builder (some cookie)) calls a
        (new_builder-IsConfigured (some cookie)) in
    let (m, l, run, ok_layout, total) =
      build-new_inner sizes b cookie c.builder c.owner some_name fits in
    (
      new_inner cookie b.stage_names b.tail_quantile m l,
      run,
      new_inner-IsSound (length b.stage_names) cookie b.stage_names b.tail_quantile m l ok_layout
          c.quantile,
      refl,
      refl,
    )
