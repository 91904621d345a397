-- ===== src/Snapshot/Reads.antt =====
-- The accessors of a snapshot in src/snapshot.rs, beside the places of its segments.
use tracegrams.Registry.{StageId}
use tracegrams.Bucket.{slice}
use tracegrams.Freeze.Scans.{slice-take}
use tracegrams.Snapshot.{counts, stage_index, stage_index, counts, Snapshot}
use tracegrams.Layout.Facts.{at, index_of, size, IsLayout}
use tracegrams.Layout.{
  Population, extent, geometry, is_incoming, segment_range, Segment, cell, StorageLayout, incoming,
  locals, cumulative, cause, calibration, online, completion,
}
use tracegrams.Prelude.{
  ◌&&◌, ◌+◌, ◌<◌, ◌==◌, ◌>>=◌, ◌∙◌, ◌≡◌, ◌≤◌, ◌⊎◌, Bool, Bool-cases, List, Option, Run, ap, arith,
  drop, false, get_or, get_or-drop, get_or-take, inl, inr, length, length-drop, length-take, ltb,
  none, not, opt_then, range, refl, returns, some, sym, take, true, ℕ,
}

-- A snapshot of a recorder of `n` stages.
pub record IsSnapshot (n : ℕ) (s : Snapshot) : Type 0 where
  pub layout_ok : IsLayout n s.layout
  pub sized : length s.counters ≡ s.layout.counter_count
  pub staged : length s.stages ≡ n

-- Of the stages, all but the first have an incoming matrix.
abbrev pub has_segment : Snapshot → StageId → Segment → Bool
has_segment s stage segment =
    stage.cookie == s.cookie
    && ltb stage.index (length s.stages)
    && not (stage.index == 0 && is_incoming segment)

module _ (n : ℕ) (l : StorageLayout) (v : IsLayout n l) where
  abbrev start : Segment → ℕ → ℕ
  start segment stage = cell l segment stage 0

  range_of :
      (segment : Segment) (stage : ℕ)
      → stage < n
      → (stage == 0 && is_incoming segment) ≡ false
      → (segment_range l stage segment
          ≡ some (start segment stage, start segment stage + size segment))
        × (start segment stage + size segment ≤ l.counter_count)
  unfolding segment_range geometry extent cell
  range_of locals stage h k = ground (arith, v.stages, v.cumulative_at, v.counters_at, v.fits)
  range_of cumulative stage h k = ground (arith, v.stages, v.cumulative_at, v.counters_at, v.fits)
  range_of cause stage h k = ground (arith, v.stages, v.cause_at, v.counters_at, v.fits)
  range_of incoming stage h k = ground (arith, v.stages, v.incoming_at, v.counters_at, v.fits)
  range_of (calibration Population.local) stage h k =
      ground (arith, v.stages, v.calibration_at, v.counters_at, v.fits)
  range_of (calibration Population.cumulative_after) stage h k =
      ground (arith, v.stages, v.calibration_at, v.counters_at, v.fits)
  range_of (calibration Population.previous_cumulative) stage h k =
      ground (arith, v.stages, v.calibration_at, v.counters_at, v.fits)
  range_of online stage h k = ground (arith, v.stages, v.online_at, v.counters_at, v.fits)
  range_of completion stage h k = ground (arith, v.stages, v.completion_at, v.counters_at, v.fits)

  -- The places of a segment stand in order from its start.
  cell-start :
      (segment : Segment) (stage k : ℕ)
      → stage < n
      → (stage == 0 && is_incoming segment) ≡ false
      → k < size segment
      → cell l segment stage k ≡ start segment stage + k
  unfolding cell
  cell-start segment stage k h here within =
      let (range, fits) = range_of segment stage h here in omega (arith, fits, v.fits)

  range_of-none :
      (segment : Segment) (stage : ℕ)
      → (stage == 0 && is_incoming segment) ≡ true
      → segment_range l stage segment ≡ none
  unfolding segment_range
  range_of-none segment stage h = ground arith

-- The counts of a segment: each is the counter of its place.
pub record Reads (s : Snapshot) (stage : ℕ) (segment : Segment) (xs : List ℕ) : Type 0 where
  pub sized : length xs ≡ size segment
  pub read :
      (k : ℕ)
      → k < size segment
      → get_or xs k 0 ≡ get_or s.counters (index_of s.layout (at segment stage k)) 0

-- The stage's range, and then the slice.
abbrev sliced : Snapshot → Option (ℕ × ℕ) → Run (Option (List ℕ))
sliced s none = returns none
sliced s (some bounds) = slice s.counters bounds.0 bounds.1 >>= λ found. returns (some found)

counts-sliced :
    (s : Snapshot) (stage : StageId) (segment : Segment) (index : Option ℕ)
    → stage_index s stage ≡ index
    → counts s stage segment ≡ sliced s (opt_then index λ i. segment_range s.layout i segment)
unfolding counts
counts-sliced s stage segment index e =
    ap
      (λ o.
        elim (opt_then o λ i. segment_range s.layout i segment) as (λ x. Run (Option (List ℕ))) [
          | none ↦ returns none
          | some bounds ↦ slice s.counters bounds.0 bounds.1 >>= λ found. returns (some found)
        ])
      e
    ∙ go (opt_then index λ i. segment_range s.layout i segment)
  where
    go :
        (o : Option (ℕ × ℕ))
        → (elim o as (λ x. Run (Option (List ℕ))) [
          | none ↦ returns none
          | some bounds ↦ slice s.counters bounds.0 bounds.1 >>= λ found. returns (some found)
        ])
          ≡ sliced s o
    go none = refl
    go (some bounds) = refl

pub stage_index-own :
    (s : Snapshot) (stage : StageId)
    → (stage.cookie == s.cookie && ltb stage.index (length s.stages)) ≡ true
    → stage_index s stage ≡ some stage.index
unfolding stage_index
stage_index-own s stage h = rw h

pub stage_index-foreign :
    (s : Snapshot) (stage : StageId)
    → (stage.cookie == s.cookie && ltb stage.index (length s.stages)) ≡ false
    → stage_index s stage ≡ none
unfolding stage_index
stage_index-foreign s stage h = rw h

-- On a snapshot of a recorder, for every stage identifier and segment: the counts are none exactly
-- where the identifier belongs to another recorder or is out of range, or the segment is the incoming
-- matrix of the first stage; elsewhere they are the counters of the segment's places, in order.
pub counts-Reads :
    (n : ℕ) (s : Snapshot) (stage : StageId) (segment : Segment)
    → IsSnapshot n s
    → ((has_segment s stage segment ≡ false) × (counts s stage segment ≡ returns none))
      ⊎ ((has_segment s stage segment ≡ true)
          × (xs : List ℕ) × (counts s stage segment ≡ returns (some xs))
          × Reads s stage.index segment xs)
counts-Reads n s stage segment v =
    elim (Bool-cases (stage.cookie == s.cookie && ltb stage.index (length s.stages))) [
      | inr foreign ↦
          inl
            (ground arith, counts-sliced s stage segment none (stage_index-foreign s stage foreign))
      | inl own ↦
          let reached =
            counts-sliced s stage segment (some stage.index) (stage_index-own s stage own) in
          elim (Bool-cases (stage.index == 0 && is_incoming segment)) [
            | inl missing ↦
                let none_there = range_of-none n s.layout v.layout_ok segment stage.index missing in
                inl (ground arith, reached ∙ ap (sliced s) none_there)
            | inr present ↦
                let below : stage.index < n = ground (arith, v.staged) in
                let (range, fits) =
                  range_of n s.layout v.layout_ok segment stage.index below present in
                let from = cell s.layout segment stage.index 0 in
                let room : from + size segment ≤ length s.counters = omega (arith, v.sized) in
                let found = take (size segment) (drop from s.counters) in
                inr (
                  ground arith,
                  found,
                  reached
                      ∙ (ap (sliced s) range
                          ∙ ap (λ run. run >>= λ xs. returns (some xs))
                              (slice-take s.counters from (size segment) room)),
                  record {
                    sized =
                        length-take (size segment) (drop from s.counters)
                        ∙ omega (arith, length-drop from s.counters);
                    read = λ k within.
                        get_or-take (size segment) (drop from s.counters) k 0 within
                        ∙ (get_or-drop s.counters from k 0
                            ∙ ap (λ i. get_or s.counters i 0)
                                (sym (
                                  cell-start n s.layout v.layout_ok segment stage.index k below
                                    present within)));
                  },
                )
          ]
    ]
