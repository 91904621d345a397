-- ===== src/Scores/Marginals.antt =====
-- The derivation of the matrix scores in src/diagnose.rs, on every branch of its two matches.
use tracegrams.Rank.Exact.{IsTailQuantile}
use tracegrams.Scores.Regions.{
  cause_scores-AreCauseScores, region, IsRatio, tail_onset_score-regions, AreCauseScores,
}
use tracegrams.Scores.Axes.{matrix_marginals-IsMarginal, rows_axis, columns_axis, IsMarginal}
use tracegrams.Rank.Select.{nearest_rank-Selects, Selects}
use tracegrams.Float.{F64}
use tracegrams.Scores.{
  matrix_marginals, no_predecessor_population, all_scores, MatrixScores, unavailable,
  derive_matrix_scores, scores_of, MatrixThresholds, Score, Scores, cause_scores, onset_of,
}
use tracegrams.Rank.{nearest_rank, quantile_rank, BucketThreshold}
use tracegrams.Prelude.{
  ◌&&◌, ◌<◌, ◌^◌, ◌≡◌, ◌≤◌, List, Option, ap, arith, inl, inr, leb, length, ltb, none, refl,
  returns, some, sum, sym, ℕ,
}
use mathlib.Core.Path.{subst}
use tracegrams.Registry.{StageId}

-- What the nearest rank finds in a marginal: nothing without samples, else the bucket that the rank of
-- the quantile selects.
pub record IsThreshold (q : F64) (marginal : List ℕ) (o : Option BucketThreshold) : Type 0 where
  pub absent : sum marginal ≡ 0 → o ≡ none
  pub present :
      0 < sum marginal
      → (t : BucketThreshold) × (o ≡ some t)
        × (t.samples ≡ sum marginal)
        × (t.rank ≡ quantile_rank (sum marginal) q)
        × Selects marginal t.rank t.bucket

nearest_rank-IsThreshold :
    (marginal : List ℕ) (q : F64)
    → IsTailQuantile q
    → sum marginal < 2 ^ 64
    → (o : Option BucketThreshold) × (nearest_rank marginal q ≡ returns o)
      × IsThreshold q marginal o
nearest_rank-IsThreshold marginal q v h = elim (nearest_rank-Selects marginal q v h) [
  | inl (empty, run) ↦
      (none, run, record { absent = λ z. refl; present = λ z. absurd (omega arith) })
  | inr (filled, (t, run, total, rank, selects)) ↦ (
    some t,
    run,
    record { absent = λ z. absurd (omega arith); present = λ z. (t, refl, total, rank, selects) },
  )
]

-- A threshold of one marginal of a matrix.
abbrev pub IsThresholdOf : (ℕ → ℕ → ℕ) → F64 → List ℕ → Option BucketThreshold → Type 0
IsThresholdOf along q counts o =
    (marginal : List ℕ) × IsMarginal along counts marginal × IsThreshold q marginal o

-- The score and the scores without a predecessor population.
abbrev pub no_score : Score
no_score = record { numerator = 0; denominator = 0; status = no_predecessor_population }

abbrev pub no_scores : Scores
no_scores = record {
  tail_onset = no_score;
  local_tail_origin_clean = no_score;
  local_tail_origin_tail = no_score;
  local_tail_rate_given_prev_tail = no_score;
  local_tail_rate_given_prev_not_tail = no_score;
  amplification_lift = no_score;
  carry_through = no_score;
}

-- The tail onset, given the previous threshold: over the incoming matrix, where it has a threshold.
abbrev pub IsOnset : Option (List ℕ) → BucketThreshold → Option BucketThreshold → Score → Type 0
IsOnset none p o s = s ≡ no_score
IsOnset (some xs) p none s = s ≡ no_score
IsOnset (some xs) p (some a) s =
    IsRatio (region (λ row column. ltb row p.bucket && leb a.bucket column) xs)
      (region (λ row column. leb a.bucket column) xs) s

-- The scores of both matrices, for the thresholds that were found.
pub record AreScores (by_cause : List ℕ) (by_incoming : Option (List ℕ)) (t : MatrixThresholds)
    (s : Scores) : Type 0 where
  pub missing : t.previous_cumulative ≡ none → s ≡ no_scores
  pub no_local : t.local ≡ none → s ≡ no_scores
  pub causes :
      (p l : BucketThreshold)
      → t.previous_cumulative ≡ some p
      → t.local ≡ some l
      → AreCauseScores by_cause p.bucket l.bucket s
        × IsOnset by_incoming p t.cumulative_after s.tail_onset

abbrev thresholds_of :
    Option BucketThreshold → Option BucketThreshold → Option BucketThreshold → MatrixThresholds
thresholds_of previous at_local after = record {
  local = at_local;
  previous_cumulative = previous;
  cumulative_after = after;
}

onset_of-IsOnset :
    (by_incoming : Option (List ℕ)) (p : BucketThreshold) (at_local after : Option BucketThreshold)
    → IsOnset by_incoming p after (onset_of by_incoming (thresholds_of (some p) at_local after))
unfolding onset_of unavailable
onset_of-IsOnset none p at_local after = refl
onset_of-IsOnset (some xs) p at_local none = refl
onset_of-IsOnset (some xs) p at_local (some a) = tail_onset_score-regions xs p.bucket a.bucket

cause_scores-onset :
    (counts : List ℕ) (p l : ℕ) (onset : Score) → (cause_scores counts p l onset).tail_onset ≡ onset
unfolding cause_scores
cause_scores-onset counts p l onset = refl

scores_of-AreScores :
    (by_cause : List ℕ) (by_incoming : Option (List ℕ))
    (previous at_local after : Option BucketThreshold)
    → let t = thresholds_of previous at_local after in
      AreScores by_cause by_incoming t (scores_of by_cause (onset_of by_incoming t) t)
unfolding scores_of all_scores unavailable
scores_of-AreScores by_cause by_incoming none at_local after = record {
  missing = λ e. refl;
  no_local = λ e. refl;
  causes = λ p l e f. absurd cc;
}
scores_of-AreScores by_cause by_incoming (some p) none after = record {
  missing = λ e. refl;
  no_local = λ e. refl;
  causes = λ q l e f. absurd cc;
}
scores_of-AreScores by_cause by_incoming (some p) (some l) after = record {
  missing = λ e. absurd cc;
  no_local = λ e. absurd cc;
  causes = λ q m e f.
      let onset = onset_of by_incoming (thresholds_of (some p) (some l) after) in
      let s = cause_scores by_cause p.bucket l.bucket onset in
      let same : p ≡ q = cc in
      let same_local : l ≡ m = cc in
      let is = onset_of-IsOnset by_incoming p (some l) after in
      let kept = cause_scores-onset by_cause p.bucket l.bucket onset in
      (
        subst (λ x. AreCauseScores by_cause x m.bucket s) (ap (λ x. x.bucket) same)
            (subst (λ x. AreCauseScores by_cause p.bucket x s) (ap (λ x. x.bucket) same_local)
              (cause_scores-AreCauseScores by_cause p.bucket l.bucket onset)),
        subst (λ x. IsOnset by_incoming x after s.tail_onset) same
            (subst (IsOnset by_incoming p after) (sym kept) is),
      );
}

abbrev pub sum_of : Option (List ℕ) → ℕ
sum_of none = 0
sum_of (some xs) = sum xs

abbrev pub FitsMatrix : Option (List ℕ) → Type 0
FitsMatrix none = Unit
FitsMatrix (some xs) = (length xs ≤ 4096) × (sum xs < 2 ^ 64)

-- The threshold of the incoming matrix, where there is one.
abbrev pub IsAfter : F64 → Option (List ℕ) → Option BucketThreshold → Type 0
IsAfter q none o = o ≡ none
IsAfter q (some xs) o = IsThresholdOf columns_axis q xs o

-- The scores of matrices that were read: the samples of both, the thresholds of their marginals, and the
-- scores for those.
pub record IsMatrixScores (stage : StageId) (q : F64) (by_cause : List ℕ)
    (by_incoming : Option (List ℕ)) (m : MatrixScores) : Type 0 where
  pub stage_is : m.stage ≡ stage
  pub causes : m.cause_samples ≡ sum by_cause
  pub incomings : m.incoming_samples ≡ sum_of by_incoming
  pub previous : IsThresholdOf rows_axis q by_cause m.thresholds.previous_cumulative
  pub local : IsThresholdOf columns_axis q by_cause m.thresholds.local
  pub after : IsAfter q by_incoming m.thresholds.cumulative_after
  pub scored : AreScores by_cause by_incoming m.thresholds m.scores

abbrev matrix_of :
    StageId
    → List ℕ
    → Option (List ℕ)
    → Option BucketThreshold
    → Option BucketThreshold
    → Option BucketThreshold
    → MatrixScores
matrix_of stage by_cause by_incoming previous at_local after =
    let thresholds = thresholds_of previous at_local after in
    record {
      stage = stage;
      thresholds = thresholds;
      cause_samples = sum by_cause;
      incoming_samples = sum_of by_incoming;
      scores = scores_of by_cause (onset_of by_incoming thresholds) thresholds;
    }

-- The marginals of one matrix and their thresholds.
both_of :
    (counts : List ℕ) (q : F64)
    → IsTailQuantile q
    → FitsMatrix (some counts)
    → (m : List ℕ × List ℕ) × (matrix_marginals counts ≡ returns m)
      × (p : Option BucketThreshold) × (nearest_rank m.0 q ≡ returns p)
      × (l : Option BucketThreshold) × (nearest_rank m.1 q ≡ returns l)
      × IsThresholdOf rows_axis q counts p
      × IsThresholdOf columns_axis q counts l
both_of counts q v h =
    let (m, run, rows, columns) = matrix_marginals-IsMarginal counts h.0 h.1 in
    let (p, run₁, is₁) = nearest_rank-IsThreshold m.0 q v (omega (arith, rows.total, h.1)) in
    let (l, run₂, is₂) = nearest_rank-IsThreshold m.1 q v (omega (arith, columns.total, h.1)) in
    (m, run, p, run₁, l, run₂, (m.0, rows, is₁), (m.1, columns, is₂))

-- For an accepted quantile and matrices of at most 4,096 cells whose totals fit `u64`, the
-- matrix-derived scores are derived without a panic. They have the samples of both matrices; the
-- thresholds are the nearest ranks of the cause rows, the cause columns and the incoming columns, each
-- absent exactly without samples; and each score is the quotient of the regions that the thresholds cut
-- out, or unavailable where a threshold that it needs is absent.
pub derive_matrix_scores-IsMatrixScores :
    (stage : StageId) (q : F64) (by_cause : List ℕ) (by_incoming : Option (List ℕ))
    → IsTailQuantile q
    → FitsMatrix (some by_cause)
    → FitsMatrix by_incoming
    → (m : MatrixScores) × (derive_matrix_scores stage q by_cause by_incoming ≡ returns m)
      × IsMatrixScores stage q by_cause by_incoming m
unfolding derive_matrix_scores
derive_matrix_scores-IsMatrixScores stage q by_cause none v h k =
    let (m, run, previous, run₁, at_local, run₂, is₁, is₂) = both_of by_cause q v h in
    (
      matrix_of stage by_cause none previous at_local none,
      rw (run, run₁, run₂),
      record {
        stage_is = refl;
        causes = refl;
        incomings = refl;
        previous = is₁;
        local = is₂;
        after = refl;
        scored = scores_of-AreScores by_cause none previous at_local none;
      },
    )
derive_matrix_scores-IsMatrixScores stage q by_cause (some xs) v h k =
    let (m, run, previous, run₁, at_local, run₂, is₁, is₂) = both_of by_cause q v h in
    let (m₁, run₃, _, _, after, run₄, _, is₃) = both_of xs q v k in
    (
      matrix_of stage by_cause (some xs) previous at_local after,
      rw (run, run₁, run₂, run₃, run₄),
      record {
        stage_is = refl;
        causes = refl;
        incomings = refl;
        previous = is₁;
        local = is₂;
        after = is₃;
        scored = scores_of-AreScores by_cause (some xs) previous at_local after;
      },
    )
