-- ===== src/Diagnose/Shares.antt =====
-- The populations of src/diagnose.rs that the truth-table cells split into.
use tracegrams.Prelude.{
  ◌+◌, ◌-◌, ◌∷◌, ◌≡◌, ◌≤◌, Bool, Bool-cases, List, [], arith, false, inl, inr, ltb, refl, suc, sum,
  true, ℕ,
}
use tracegrams.Diagnose.{
  OnlineTotals, no_totals, add_first, add_predecessor, has_bit, totals_from, online_totals,
}

-- What the totals of `all` samples add up to.
pub record IsSplit (all : ℕ) (t : OnlineTotals) : Type 0 where
  pub whole : t.first_samples + t.predecessor_samples ≡ all
  pub previous : t.previous_tail_total + t.previous_clean_total ≡ t.predecessor_samples
  pub origin : t.local_tail_clean + t.local_tail_previous_tail ≡ t.local_tail_total
  pub carried : t.local_tail_previous_tail + t.carry_through ≡ t.previous_tail_total
  pub clean : t.local_tail_previous_clean ≤ t.previous_clean_total
  pub clean_within : t.local_tail_previous_clean ≤ t.local_tail_clean
  pub onset : t.tail_onset ≤ t.cumulative_after_tail_total

add_first-IsSplit :
    (all count : ℕ) (l a : Bool) (t : OnlineTotals)
    → IsSplit all t
    → IsSplit (all + count) (add_first l a count t)
add_first-IsSplit all count true true t s = record {
  whole = omega (arith, s.whole);
  previous = s.previous;
  origin = omega (arith, s.origin);
  carried = s.carried;
  clean = s.clean;
  clean_within = omega (arith, s.clean_within);
  onset = omega (arith, s.onset);
}
add_first-IsSplit all count true false t s = record {
  whole = omega (arith, s.whole);
  previous = s.previous;
  origin = omega (arith, s.origin);
  carried = s.carried;
  clean = s.clean;
  clean_within = omega (arith, s.clean_within);
  onset = s.onset;
}
add_first-IsSplit all count false a t s = record {
  whole = omega (arith, s.whole);
  previous = s.previous;
  origin = s.origin;
  carried = s.carried;
  clean = s.clean;
  clean_within = s.clean_within;
  onset = ground arith;
}

add_predecessor-IsSplit :
    (all count : ℕ) (p l a : Bool) (t : OnlineTotals)
    → IsSplit all t
    → IsSplit (all + count) (add_predecessor p l a count t)
add_predecessor-IsSplit all count p l a t s = record {
  whole = ground arith;
  previous = ground arith;
  origin = ground arith;
  carried = ground arith;
  clean = ground arith;
  clean_within = ground arith;
  onset = ground arith;
}

totals_from-IsSplit :
    (cell : ℕ) (counts : List ℕ) (all : ℕ) (t : OnlineTotals)
    → IsSplit all t
    → IsSplit (all + sum counts) (totals_from cell counts t)
unfolding totals_from sum
totals_from-IsSplit cell [] all t s = record {
  whole = omega (arith, s.whole);
  previous = s.previous;
  origin = s.origin;
  carried = s.carried;
  clean = s.clean;
  clean_within = s.clean_within;
  onset = s.onset;
}
totals_from-IsSplit cell (count ∷ counts) all t s =
    let assoc : all + (count + sum counts) ≡ all + count + sum counts = omega arith in
    rw assoc (elim (Bool-cases (ltb cell 4)) [
      | inl e ↦ rw e (
          totals_from-IsSplit (suc cell) counts (all + count) _
            (add_first-IsSplit all count (has_bit cell 2) (has_bit cell 1) t s))
      | inr e ↦ rw e (
          totals_from-IsSplit (suc cell) counts (all + count) _ (
            add_predecessor-IsSplit all count (has_bit (cell - 4) 4) (has_bit cell 2)
              (has_bit cell 1) t s))
    ])

-- The totals of any cell counts: first and predecessor samples are all the samples, the previous tail
-- and clean populations are the predecessor samples, tail locals of clean and of tail origin are the
-- tail locals, what a previous tail amplified and what it carried through are the previous tail
-- population, and every part is at most its whole.
pub online_totals-IsSplit : (counts : List ℕ) → IsSplit (sum counts) (online_totals counts)
unfolding online_totals
online_totals-IsSplit counts =
    let empty : IsSplit 0 no_totals = record {
      whole = refl;
      previous = refl;
      origin = refl;
      carried = refl;
      clean = omega arith;
      clean_within = omega arith;
      onset = omega arith;
    } in
    let split = totals_from-IsSplit 0 counts 0 no_totals empty in
    let e : 0 + sum counts ≡ sum counts = omega arith in rw e at split
