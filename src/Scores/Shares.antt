-- ===== src/Scores/Shares.antt =====
-- The totals behind the matrix-derived scores of src/diagnose.rs.
use tracegrams.Prelude.{
  ◌%◌, ◌+◌, ◌/◌, ◌∷◌, ◌≡◌, ◌≤◌, Bool, List, [], arith, false, leb, refl, suc, sum, true, ℕ,
}
use tracegrams.Scores.{
  CauseTotals, no_cause_totals, add_cause, cause_from, cause_scores, Score, probability, ratio,
}

pub record IsShared (all : ℕ) (t : CauseTotals) : Type 0 where
  pub whole : t.prev_not_tail_total + t.prev_tail_total ≡ all
  pub clean : t.local_tail_from_prev_not_tail ≤ t.prev_not_tail_total
  pub carried : t.local_tail_from_prev_tail + t.carry_through ≡ t.prev_tail_total

add_cause-IsShared :
    (all count : ℕ) (p l : Bool) (t : CauseTotals)
    → IsShared all t
    → IsShared (all + count) (add_cause p l count t)
add_cause-IsShared all count true true t s = record {
  whole = omega (arith, s.whole);
  clean = s.clean;
  carried = omega (arith, s.carried);
}
add_cause-IsShared all count true false t s = record {
  whole = omega (arith, s.whole);
  clean = s.clean;
  carried = omega (arith, s.carried);
}
add_cause-IsShared all count false true t s = record {
  whole = omega (arith, s.whole);
  clean = omega (arith, s.clean);
  carried = s.carried;
}
add_cause-IsShared all count false false t s = record {
  whole = omega (arith, s.whole);
  clean = omega (arith, s.clean);
  carried = s.carried;
}

cause_from-IsShared :
    (p l index : ℕ) (counts : List ℕ) (all : ℕ) (t : CauseTotals)
    → IsShared all t
    → IsShared (all + sum counts) (cause_from p l index counts t)
unfolding cause_from sum
cause_from-IsShared p l index [] all t s = record {
  whole = omega (arith, s.whole);
  clean = s.clean;
  carried = s.carried;
}
cause_from-IsShared p l index (count ∷ counts) all t s =
    let assoc : all + (count + sum counts) ≡ all + count + sum counts = omega arith in
    rw assoc (
      cause_from-IsShared p l (suc index) counts (all + count) _
        (add_cause-IsShared all count (leb p (index / 64)) (leb l (index % 64)) t s))

-- A score that is a share of its denominator.
abbrev pub IsShare : Score → Type 0
IsShare s = s.numerator ≤ s.denominator

-- For any counts and thresholds, every probability of `cause_scores` is a share; the clean and tail
-- origins of a tail local have one denominator and their numerators add up to it; so do the carried
-- and the amplified share of the previous tail; and the populations behind the two rates add up to all
-- the samples.
pub cause_scores-shares :
    (counts : List ℕ) (p l : ℕ) (onset : Score)
    → let s = cause_scores counts p l onset in
      (s.local_tail_origin_clean.numerator + s.local_tail_origin_tail.numerator
        ≡ s.local_tail_origin_clean.denominator)
      × (s.local_tail_origin_tail.denominator ≡ s.local_tail_origin_clean.denominator)
      × (s.local_tail_rate_given_prev_tail.numerator + s.carry_through.numerator
          ≡ s.carry_through.denominator)
      × (s.local_tail_rate_given_prev_tail.denominator ≡ s.carry_through.denominator)
      × (s.local_tail_rate_given_prev_tail.denominator
            + s.local_tail_rate_given_prev_not_tail.denominator
          ≡ sum counts)
      × IsShare s.local_tail_rate_given_prev_not_tail
unfolding cause_scores probability ratio
cause_scores-shares counts p l onset =
    let s =
      cause_from-IsShared p l 0 counts 0 no_cause_totals
        (record { whole = refl; clean = omega arith; carried = refl }) in
    (refl, refl, s.carried, refl, omega (arith, s.whole), s.clean)
