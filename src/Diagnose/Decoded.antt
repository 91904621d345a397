-- ===== src/Diagnose/Decoded.antt =====
-- The truth-table cells of src/recorder.rs, as src/diagnose.rs reads them.
use tracegrams.Scores.Marginals.{no_score}
use tracegrams.Scores.{all_scores, probability, unavailable, lift}
use tracegrams.Scores.Regions.{ratio-IsRatio, IsRatio}
use tracegrams.Diagnose.{
  all_scores, unavailable, probability, first_mark_scores, Scores, online_scores, totals_from,
  online_totals, OnlineTotals,
}
use tracegrams.Prelude.{
  ◌%◌, ◌*◌, ◌+◌, ◌<◌, ◌==◌, ◌^◌, ◌∷◌, ◌≡◌, Bool, Bool-cases, List, [], arith, false, get_or, inl,
  inr, length, refl, suc, true, zero, ℕ,
}
use tracegrams.Layout.{first_online_counter, predecessor_online_counter}

-- Every list of a length has elements.
abbrev Filled : ℕ → (List ℕ → Type 0) → Type 0
Filled zero P = P []
Filled (suc n) P = (x : ℕ) → Filled n (λ xs. P (x ∷ xs))

of_length : (n : ℕ) (P : List ℕ → Type 0) → Filled n P → (xs : List ℕ) → length xs ≡ n → P xs
of_length zero P h [] e = h
of_length zero P h (x ∷ xs) e = absurd (omega arith)
of_length (suc n) P h [] e = absurd (omega arith)
of_length (suc n) P h (x ∷ xs) e = of_length n (λ ys. P (x ∷ ys)) (h x) xs (omega arith)

-- The count of the cell that a first mark is recorded in, by its tail predicates: local, cumulative.
abbrev first_count : List ℕ → Bool → Bool → ℕ
first_count cells local_tail after_tail =
    get_or cells (first_online_counter local_tail after_tail) 0

-- And of a mark with a predecessor: previous cumulative, local, cumulative.
abbrev later_count : List ℕ → Bool → Bool → Bool → ℕ
later_count cells before_tail local_tail after_tail =
    get_or cells (predecessor_online_counter before_tail local_tail after_tail) 0

-- Over both values of a predicate.
abbrev either : (Bool → ℕ) → ℕ
either f = f true + f false

-- The totals by the predicates that the marks were recorded with.
pub record AreDecoded (cells : List ℕ) (t : OnlineTotals) : Type 0 where
  pub first_samples : t.first_samples ≡ either λ l. either λ a. first_count cells l a
  pub predecessor_samples :
      t.predecessor_samples ≡ either λ b. either λ l. either λ a. later_count cells b l a
  pub local_tail_total :
      t.local_tail_total
      ≡ (either λ a. first_count cells true a)
        + (either λ b. either λ a. later_count cells b true a)
  pub local_tail_clean :
      t.local_tail_clean
      ≡ (either λ a. first_count cells true a) + (either λ a. later_count cells false true a)
  pub local_tail_previous_clean :
      t.local_tail_previous_clean ≡ either λ a. later_count cells false true a
  pub local_tail_previous_tail :
      t.local_tail_previous_tail ≡ either λ a. later_count cells true true a
  pub previous_tail_total :
      t.previous_tail_total ≡ either λ l. either λ a. later_count cells true l a
  pub previous_clean_total :
      t.previous_clean_total ≡ either λ l. either λ a. later_count cells false l a
  pub carry_through : t.carry_through ≡ either λ a. later_count cells true false a
  pub cumulative_after_tail_total :
      t.cumulative_after_tail_total
      ≡ (either λ l. first_count cells l true)
        + (either λ b. either λ l. later_count cells b l true)
  pub tail_onset :
      t.tail_onset
      ≡ (either λ l. first_count cells l true) + (either λ l. later_count cells false l true)

-- For any twelve cell counts, each online total is the sum of the cells that recording chooses for the
-- marks with the predicates that the total is of: first marks and marks with a predecessor, tail and
-- clean previous latencies, tail local and tail cumulative latencies.
pub online_totals-AreDecoded :
    (cells : List ℕ) → length cells ≡ 12 → AreDecoded cells (online_totals cells)
unfolding online_totals totals_from first_online_counter predecessor_online_counter
online_totals-AreDecoded =
    of_length 12 (λ cells. AreDecoded cells (online_totals cells))
      (λ a b c d e f g h i j k l. record {
        first_samples = omega arith;
        predecessor_samples = omega arith;
        local_tail_total = omega arith;
        local_tail_clean = omega arith;
        local_tail_previous_clean = omega arith;
        local_tail_previous_tail = omega arith;
        previous_tail_total = omega arith;
        previous_clean_total = omega arith;
        carry_through = omega arith;
        cumulative_after_tail_total = omega arith;
        tail_onset = omega arith;
      })

-- The scores of totals; those that need a predecessor are unavailable without one.
pub record AreOnlineScores (t : OnlineTotals) (s : Scores) : Type 0 where
  pub onset : IsRatio t.tail_onset t.cumulative_after_tail_total s.tail_onset
  pub origin_clean : IsRatio t.local_tail_clean t.local_tail_total s.local_tail_origin_clean
  pub alone :
      t.predecessor_samples ≡ 0
      → (s.local_tail_origin_tail ≡ no_score)
        × (s.local_tail_rate_given_prev_tail ≡ no_score)
        × (s.local_tail_rate_given_prev_not_tail ≡ no_score)
        × (s.amplification_lift ≡ no_score)
        × (s.carry_through ≡ no_score)
  pub later :
      0 < t.predecessor_samples
      → IsRatio t.local_tail_previous_tail t.local_tail_total s.local_tail_origin_tail
        × IsRatio t.local_tail_previous_tail t.previous_tail_total s.local_tail_rate_given_prev_tail
        × IsRatio t.local_tail_previous_clean t.previous_clean_total
            s.local_tail_rate_given_prev_not_tail
        × IsRatio
            (t.local_tail_previous_tail * t.previous_clean_total % 2 ^ 128)
            (t.previous_tail_total * t.local_tail_previous_clean % 2 ^ 128)
            s.amplification_lift
        × IsRatio t.carry_through t.previous_tail_total s.carry_through

pub online_scores-AreOnlineScores : (t : OnlineTotals) → AreOnlineScores t (online_scores t)
unfolding online_scores first_mark_scores probability lift unavailable all_scores
online_scores-AreOnlineScores t = elim (Bool-cases (t.predecessor_samples == 0)) [
  | inl none_before ↦ rw none_before (record {
    onset = ratio-IsRatio _ _ _ _ refl refl;
    origin_clean = ratio-IsRatio _ _ _ _ refl refl;
    alone = λ z. (refl, refl, refl, refl, refl);
    later = λ z. absurd (ground arith);
  })
  | inr some_before ↦ rw some_before (record {
    onset = ratio-IsRatio _ _ _ _ refl refl;
    origin_clean = ratio-IsRatio _ _ _ _ refl refl;
    alone = λ z. absurd (ground arith);
    later = λ z. (
      ratio-IsRatio _ _ _ _ refl refl,
      ratio-IsRatio _ _ _ _ refl refl,
      ratio-IsRatio _ _ _ _ refl refl,
      ratio-IsRatio _ _ _ _ refl refl,
      ratio-IsRatio _ _ _ _ refl refl,
    );
  })
]
