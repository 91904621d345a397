-- ===== src/Scores.antt =====
-- The matrix-derived scores of src/diagnose.rs: exact rational scores, the marginals of a transition
-- matrix, and the scores over its four tail regions.
pub mod Shares
pub mod Regions
pub mod Axes
pub mod Marginals
use tracegrams.Prelude.{
  ◌%◌, ◌*◌, ◌+◌, ◌/◌, ◌==◌, ◌>>=◌, ◌>>◌, ◌^◌, ◌∷◌, Bool, List, Option, Run, [], false, get_elem?,
  if◌then◌else◌, leb, ltb, none, replicate, returns, set, some, suc, sum, true, unwrap, ℕ,
}
use tracegrams.Float.{F64, Float}
use tracegrams.Registry.{StageId}
use tracegrams.Bounds.{buckets}
use tracegrams.Rank.{BucketThreshold, nearest_rank}
use tracegrams.Snapshot.{Snapshot, cause_counts, incoming_counts}

pub data ScoreStatus : Type 0 where
  available no_predecessor_population zero_denominator : ScoreStatus

pub record Score : Type 0 where
  pub numerator : ℕ
  pub denominator : ℕ
  pub status : ScoreStatus

unfoldable pub unavailable : ScoreStatus → Score
unavailable status = record { numerator = 0; denominator = 0; status = status }

unfoldable pub ratio : ℕ → ℕ → Score
ratio numerator denominator = record {
  numerator = numerator;
  denominator = denominator;
  status = if denominator == 0 then zero_denominator else available;
}

-- `probability`, whose order of arguments is checked in debug builds only.
unfoldable pub probability : ℕ → ℕ → Score
unfolding ratio
probability numerator denominator = ratio numerator denominator

unfoldable pub lift : ℕ → ℕ → ℕ → ℕ → Score
unfolding ratio
lift tail_local_tail previous_tail clean_local_tail previous_clean =
    ratio (tail_local_tail * previous_clean % 2 ^ 128) (previous_tail * clean_local_tail % 2 ^ 128)

abbrev pub is_available : ScoreStatus → Bool
is_available ScoreStatus.available = true
is_available _ = false

pub record Scores : Type 0 where
  pub tail_onset : Score
  pub local_tail_origin_clean : Score
  pub local_tail_origin_tail : Score
  pub local_tail_rate_given_prev_tail : Score
  pub local_tail_rate_given_prev_not_tail : Score
  pub amplification_lift : Score
  pub carry_through : Score

-- `Scores::all`
unfoldable pub all_scores : Score → Scores
all_scores score = record {
  tail_onset = score;
  local_tail_origin_clean = score;
  local_tail_origin_tail = score;
  local_tail_rate_given_prev_tail = score;
  local_tail_rate_given_prev_not_tail = score;
  amplification_lift = score;
  carry_through = score;
}

-- `cells[index] += count`, of a `u64` cell; the index panics out of range.
abbrev pub add_at : List ℕ → ℕ → ℕ → Run (List ℕ)
add_at cells index count =
    unwrap (get_elem? cells index) >>= λ cell. returns (set cells index ((cell + count) % 2 ^ 64))

-- The loop of `matrix_marginals` from an index on.
unfoldable pub marginals_from : ℕ → List ℕ → List ℕ → List ℕ → Run (List ℕ × List ℕ)
marginals_from index [] rows columns = returns (rows, columns)
marginals_from index (count ∷ counts) rows columns =
    add_at rows (index / buckets) count >>= λ rows'.
    add_at columns (index % buckets) count >>= λ columns'.
    marginals_from (suc index) counts rows' columns'

unfoldable pub matrix_marginals : List ℕ → Run (List ℕ × List ℕ)
unfolding marginals_from
matrix_marginals counts = marginals_from 0 counts (replicate buckets 0) (replicate buckets 0)

-- The accumulators of `cause_scores`. Sums of `u64`s over one matrix fit their `u128`s.
pub record CauseTotals : Type 0 where
  pub local_tail_from_prev_not_tail : ℕ
  pub local_tail_from_prev_tail : ℕ
  pub prev_not_tail_total : ℕ
  pub prev_tail_total : ℕ
  pub carry_through : ℕ

abbrev pub no_cause_totals : CauseTotals
no_cause_totals = record {
  local_tail_from_prev_not_tail = 0;
  local_tail_from_prev_tail = 0;
  prev_not_tail_total = 0;
  prev_tail_total = 0;
  carry_through = 0;
}

-- The `match` on the two tail predicates.
abbrev pub add_cause : Bool → Bool → ℕ → CauseTotals → CauseTotals
add_cause false false count t = record t { prev_not_tail_total = t.prev_not_tail_total + count }
add_cause false true count t = record t {
  prev_not_tail_total = t.prev_not_tail_total + count;
  local_tail_from_prev_not_tail = t.local_tail_from_prev_not_tail + count;
}
add_cause true false count t = record t {
  prev_tail_total = t.prev_tail_total + count;
  carry_through = t.carry_through + count;
}
add_cause true true count t = record t {
  prev_tail_total = t.prev_tail_total + count;
  local_tail_from_prev_tail = t.local_tail_from_prev_tail + count;
}

unfoldable pub cause_from : ℕ → ℕ → ℕ → List ℕ → CauseTotals → CauseTotals
cause_from previous_threshold local_threshold index [] t = t
cause_from previous_threshold local_threshold index (count ∷ counts) t =
    cause_from previous_threshold local_threshold (suc index) counts (
      add_cause (leb previous_threshold (index / buckets)) (leb local_threshold (index % buckets))
        count t)

unfoldable pub cause_scores : List ℕ → ℕ → ℕ → Score → Scores
unfolding cause_from probability lift
cause_scores counts previous_threshold local_threshold tail_onset =
    let t = cause_from previous_threshold local_threshold 0 counts no_cause_totals in
    let local_tail_total = t.local_tail_from_prev_not_tail + t.local_tail_from_prev_tail in
    record {
      tail_onset = tail_onset;
      local_tail_origin_clean = probability t.local_tail_from_prev_not_tail local_tail_total;
      local_tail_origin_tail = probability t.local_tail_from_prev_tail local_tail_total;
      local_tail_rate_given_prev_tail = probability t.local_tail_from_prev_tail t.prev_tail_total;
      local_tail_rate_given_prev_not_tail =
          probability t.local_tail_from_prev_not_tail t.prev_not_tail_total;
      amplification_lift =
          lift t.local_tail_from_prev_tail t.prev_tail_total t.local_tail_from_prev_not_tail
            t.prev_not_tail_total;
      carry_through = probability t.carry_through t.prev_tail_total;
    }

-- The loop of `tail_onset_score`: the numerator and the denominator.
unfoldable pub onset_from : ℕ → ℕ → ℕ → List ℕ → ℕ × ℕ → ℕ × ℕ
onset_from previous_threshold after_threshold index [] t = t
onset_from previous_threshold after_threshold index (count ∷ counts) (numerator, denominator) =
    onset_from previous_threshold after_threshold (suc index) counts (
      if leb after_threshold (index % buckets)
      then (
        (if ltb (index / buckets) previous_threshold then numerator + count else numerator),
        denominator + count,
      )
      else (numerator, denominator))

unfoldable pub tail_onset_score : List ℕ → ℕ → ℕ → Score
unfolding onset_from probability
tail_onset_score counts previous_threshold after_threshold =
    let t = onset_from previous_threshold after_threshold 0 counts (0, 0) in probability t.0 t.1

pub record MatrixThresholds : Type 0 where
  pub local : Option BucketThreshold
  pub previous_cumulative : Option BucketThreshold
  pub cumulative_after : Option BucketThreshold

pub record MatrixScores : Type 0 where
  pub stage : StageId
  pub thresholds : MatrixThresholds
  pub cause_samples : ℕ
  pub incoming_samples : ℕ
  pub scores : Scores

-- The two matches on the thresholds.
unfoldable pub onset_of : Option (List ℕ) → MatrixThresholds → Score
unfolding tail_onset_score unavailable
onset_of none t = unavailable no_predecessor_population
onset_of (some xs) t = elim t.previous_cumulative [
  | none ↦ unavailable no_predecessor_population
  | some p ↦ elim t.cumulative_after [
    | none ↦ unavailable no_predecessor_population
    | some a ↦ tail_onset_score xs p.bucket a.bucket
  ]
]

unfoldable pub scores_of : List ℕ → Score → MatrixThresholds → Scores
unfolding cause_scores all_scores unavailable
scores_of by_cause onset t = elim t.previous_cumulative [
  | none ↦ all_scores (unavailable no_predecessor_population)
  | some p ↦ elim t.local [
    | none ↦ all_scores (unavailable no_predecessor_population)
    | some l ↦ cause_scores by_cause p.bucket l.bucket onset
  ]
]

unfoldable pub derive_matrix_scores : StageId → F64 → List ℕ → Option (List ℕ) → Run MatrixScores
unfolding matrix_marginals nearest_rank onset_of scores_of sum
derive_matrix_scores stage quantile by_cause by_incoming = do
  causes ← matrix_marginals by_cause
  previous ← nearest_rank causes.0 quantile
  at_local ← nearest_rank causes.1 quantile
  after ← elim by_incoming [
    | none ↦ returns none
    | some xs ↦ matrix_marginals xs >>= λ marginals. nearest_rank marginals.1 quantile
  ]
  let thresholds : MatrixThresholds = record {
    local = at_local;
    previous_cumulative = previous;
    cumulative_after = after;
  }
  returns (record {
    stage = stage;
    thresholds = thresholds;
    cause_samples = sum by_cause;
    incoming_samples = elim by_incoming [ none ↦ 0 | some xs ↦ sum xs ];
    scores = scores_of by_cause (onset_of by_incoming thresholds) thresholds;
  })

unfoldable pub matrix_scores : Snapshot → StageId → Run (Option MatrixScores)
unfolding derive_matrix_scores cause_counts incoming_counts
matrix_scores s stage = do
  by_cause ← cause_counts s stage
  elim by_cause [
    | none ↦ returns none
    | some xs ↦ incoming_counts s stage >>= λ by_incoming.
        derive_matrix_scores stage s.tail_quantile xs by_incoming >>= λ scores.
        returns (some scores)
  ]
