-- ===== src/Marks/Blocks.antt =====
-- The duration and distribution blocks of `record_valid_mark` in src/context.rs, beside their
-- specified places.
use tracegrams.Prelude.{
  ◌*◌, ◌+◌, ◌<◌, ◌^◌, ◌∙◌, ◌≡◌, Bool, Bool-cases, Option, arith, false, if◌then◌else◌, inl, inr,
  ltb, none, refl, returns, some, true, ℕ,
}
use tracegrams.Bucket.Spec.{ordinary, bucket_of, ordinary-lt}
use tracegrams.Layout.{
  Segment, Diagnostic, local_index, cumulative_index, cause_index, incoming_index,
}
use tracegrams.Layout.Facts.{Place, at, anomaly, IsPlace, index_of}
use tracegrams.Recorder.{Inner, increment}
use tracegrams.Recorder.Bumps.{
  IsReady, bumped, bumped_all, increment-bumped, increment_diagnostic-bumped, bumped-IsReady,
}
use tracegrams.Updates.{ValidatedPrevious, add_cumulative, record_buckets}
use tracegrams.Marks.Places.{saturated, overflow_places, bucket_places}

-- A predecessor at `stage` with cumulative latency `before_ns`, as validation hands it on.
abbrev pub before_of : Bool → ℕ → ℕ → Option ValidatedPrevious
before_of later stage before_ns =
    if later
    then some (record { cumulative_bucket = bucket_of before_ns; incoming = stage })
    else none

-- A second increment computes its index from the same layout.
pub increment_next :
    (n : ℕ) (r r' : Inner) (p : Place)
    → IsReady n r'
    → r'.layout ≡ r.layout
    → IsPlace n p
    → increment r' (index_of r.layout p) ≡ returns (bumped r' p)
increment_next n r r' p v e h = rw (← e) (increment-bumped n r' v p h)

pub bumped-layout : (r : Inner) (p : Place) → (bumped r p).layout ≡ r.layout
unfolding bumped
bumped-layout r p = refl

cell_fits : (a b : ℕ) → a < 64 → b < 64 → a * 64 + b < 4096
cell_fits a b h k = omega arith

module _ (n : ℕ) (r : Inner) (v : IsReady n r) where
  pub add_cumulative-places :
      (before_ns local_ns : ℕ) (overflowed : Bool)
      → add_cumulative r before_ns local_ns overflowed
        ≡ returns (
          saturated before_ns local_ns,
          bumped_all r (overflow_places before_ns local_ns overflowed),
        )
  unfolding add_cumulative bumped_all
  add_cumulative-places before_ns local_ns true =
      elim (Bool-cases (ltb (before_ns + local_ns) (2 ^ 64))) [
        | inl fits ↦ rw (increment_diagnostic-bumped n r v Diagnostic.latency_overflows, fits)
        | inr over ↦ rw (
          increment_diagnostic-bumped n r v Diagnostic.latency_overflows,
          over,
          increment_diagnostic-bumped n _
              (bumped-IsReady n r v (anomaly Diagnostic.latency_overflows))
              Diagnostic.cumulative_overflows,
        )
      ]
  add_cumulative-places before_ns local_ns false =
      elim (Bool-cases (ltb (before_ns + local_ns) (2 ^ 64))) [
        | inl fits ↦ rw fits
        | inr over ↦ rw (over, increment_diagnostic-bumped n r v Diagnostic.cumulative_overflows)
      ]

  pub record_buckets-places :
      (stage : ℕ) (later : Bool) (before_ns local_ns cumulative_ns : ℕ)
      → stage < n
      → (later ≡ true → 0 < stage)
      → record_buckets r stage
          (before_of later stage before_ns)
          (bucket_of local_ns)
          (bucket_of cumulative_ns)
        ≡ returns (bumped_all r (bucket_places stage later before_ns local_ns cumulative_ns))
  unfolding record_buckets bumped_all local_index cumulative_index cause_index incoming_index
  record_buckets-places stage false before_ns local_ns cumulative_ns h later =
      let p₁ = at Segment.locals stage (ordinary local_ns) in
      let p₂ = at Segment.cumulative stage (ordinary cumulative_ns) in
      rw (
        increment-bumped n r v p₁ (h, ordinary-lt local_ns),
        increment_next n r (bumped r p₁) p₂ (bumped-IsReady n r v p₁) (bumped-layout r p₁)
            (h, ordinary-lt cumulative_ns),
      )
  record_buckets-places stage true before_ns local_ns cumulative_ns h later =
      let p₁ = at Segment.locals stage (ordinary local_ns) in
      let p₂ = at Segment.cumulative stage (ordinary cumulative_ns) in
      let p₃ = at Segment.cause stage (ordinary before_ns * 64 + ordinary local_ns) in
      let p₄ = at Segment.incoming stage (ordinary before_ns * 64 + ordinary cumulative_ns) in
      let r₁ = bumped r p₁ in
      let r₂ = bumped r₁ p₂ in
      let r₃ = bumped r₂ p₃ in
      let v₁ = bumped-IsReady n r v p₁ in
      let v₂ = bumped-IsReady n r₁ v₁ p₂ in
      let v₃ = bumped-IsReady n r₂ v₂ p₃ in
      let e₂ = bumped-layout r₁ p₂ ∙ bumped-layout r p₁ in
      rw (
        increment-bumped n r v p₁ (h, ordinary-lt local_ns),
        increment_next n r r₁ p₂ v₁ (bumped-layout r p₁) (h, ordinary-lt cumulative_ns),
        increment_next n r r₂ p₃ v₂ e₂
            (h, cell_fits _ _ (ordinary-lt before_ns) (ordinary-lt local_ns)),
        increment_next n r r₃ p₄ v₃ (bumped-layout r₂ p₃ ∙ e₂)
            (later refl, h, cell_fits _ _ (ordinary-lt before_ns) (ordinary-lt cumulative_ns)),
      )
