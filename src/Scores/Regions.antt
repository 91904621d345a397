-- ===== src/Scores/Regions.antt =====
-- The scores of src/diagnose.rs over the regions of a transition matrix that two thresholds cut out.
use tracegrams.Scores.{
  no_cause_totals, lift, available, probability, add_cause, zero_denominator, ratio,
  tail_onset_score, onset_from, cause_scores, Scores, cause_from, Score, CauseTotals,
}
use tracegrams.Prelude.{
  ◌%◌, ◌&&◌, ◌*◌, ◌+◌, ◌/◌, ◌<◌, ◌==◌, ◌^◌, ◌∙◌, ◌∷◌, ◌≡◌, Bool, List, [], ap, arith, false,
  if◌then◌else◌, leb, ltb, refl, suc, true, ℕ,
}

-- The samples of the cells whose row and column a test accepts, from a cell on.
unfoldable pub region_from : (ℕ → ℕ → Bool) → ℕ → List ℕ → ℕ
region_from accepts index [] = 0
region_from accepts index (count ∷ counts) =
    (if accepts (index / 64) (index % 64) then count else 0)
    + region_from accepts (suc index) counts

abbrev pub region : (ℕ → ℕ → Bool) → List ℕ → ℕ
region accepts counts = region_from accepts 0 counts

-- The quotient of two numbers as a score: without a value over nothing.
pub record IsRatio (numerator denominator : ℕ) (s : Score) : Type 0 where
  pub above : s.numerator ≡ numerator
  pub below : s.denominator ≡ denominator
  pub unavailable : denominator ≡ 0 → s.status ≡ zero_denominator
  pub available : 0 < denominator → s.status ≡ available

pub ratio-IsRatio :
    (a b numerator denominator : ℕ)
    → a ≡ numerator
    → b ≡ denominator
    → IsRatio numerator denominator (ratio a b)
unfolding ratio
ratio-IsRatio a b numerator denominator e f = record {
  above = e;
  below = f;
  unavailable = λ z. let k : (b == 0) ≡ true = ground arith in rw k;
  available = λ z. let k : (b == 0) ≡ false = ground arith in rw k;
}

onset_step :
    (p a index count : ℕ) (counts : List ℕ) (m d : ℕ) (clean tail : Bool)
    → ltb (index / 64) p ≡ clean
    → leb a (index % 64) ≡ tail
    → let next : ℕ × ℕ = if tail then ((if clean then m + count else m), d + count) else (m, d) in
      (next.0 + region_from (λ row column. ltb row p && leb a column) (suc index) counts
        ≡ m + region_from (λ row column. ltb row p && leb a column) index (count ∷ counts))
      × (next.1 + region_from (λ row column. leb a column) (suc index) counts
          ≡ d + region_from (λ row column. leb a column) index (count ∷ counts))
unfolding region_from
onset_step p a index count counts m d true true e f = (ground (arith, e, f), ground (arith, e, f))
onset_step p a index count counts m d true false e f = (ground (arith, e, f), ground (arith, e, f))
onset_step p a index count counts m d false true e f = (ground (arith, e, f), ground (arith, e, f))
onset_step p a index count counts m d false false e f = (ground (arith, e, f), ground (arith, e, f))

onset_from-region :
    (p a index : ℕ) (counts : List ℕ) (t : ℕ × ℕ)
    → ((onset_from p a index counts t).0
        ≡ t.0 + region_from (λ row column. ltb row p && leb a column) index counts)
      × ((onset_from p a index counts t).1
          ≡ t.1 + region_from (λ row column. leb a column) index counts)
unfolding onset_from region_from
onset_from-region p a index [] (m, d) = (omega arith, omega arith)
onset_from-region p a index (count ∷ counts) (m, d) =
    let (x, y) =
      onset_step p a index count counts m d (ltb (index / 64) p) (leb a (index % 64)) refl refl in
    let (k, l) = onset_from-region p a (suc index) counts _ in (k ∙ x, l ∙ y)

-- For any counts and thresholds, the tail-onset score is the quotient of the samples in the cells with
-- a clean previous row and a tail column over all samples with a tail column: rows below the previous
-- threshold are clean, columns from the other threshold on are tails. Over nothing it is unavailable.
pub tail_onset_score-regions :
    (counts : List ℕ) (p a : ℕ)
    → IsRatio
        (region (λ row column. ltb row p && leb a column) counts)
        (region (λ row column. leb a column) counts)
        (tail_onset_score counts p a)
unfolding tail_onset_score probability
tail_onset_score-regions counts p a =
    let (m, d) = onset_from-region p a 0 counts (0, 0) in
    ratio-IsRatio _ _ _ _ (omega (arith, m)) (omega (arith, d))

-- The accumulators of `cause_scores`, with what they had before a cell.
record IsCut (p l index : ℕ) (counts : List ℕ) (t u : CauseTotals) : Type 0 where
  pub clean_tail :
      u.local_tail_from_prev_not_tail
      ≡ t.local_tail_from_prev_not_tail
        + region_from (λ row column. ltb row p && leb l column) index counts
  pub tail_tail :
      u.local_tail_from_prev_tail
      ≡ t.local_tail_from_prev_tail
        + region_from (λ row column. leb p row && leb l column) index counts
  pub clean :
      u.prev_not_tail_total
      ≡ t.prev_not_tail_total + region_from (λ row column. ltb row p) index counts
  pub tail :
      u.prev_tail_total ≡ t.prev_tail_total + region_from (λ row column. leb p row) index counts
  pub carried :
      u.carry_through
      ≡ t.carry_through + region_from (λ row column. leb p row && ltb column l) index counts

IsCut-cons :
    (p l index count : ℕ) (counts : List ℕ) (t u : CauseTotals) (row column : Bool)
    → leb p (index / 64) ≡ row
    → leb l (index % 64) ≡ column
    → IsCut p l (suc index) counts (add_cause row column count t) u
    → IsCut p l index (count ∷ counts) t u
unfolding region_from
IsCut-cons p l index count counts t u true true e f c = record {
  clean_tail = ground (arith, e, f, c.clean_tail);
  tail_tail = ground (arith, e, f, c.tail_tail);
  clean = ground (arith, e, f, c.clean);
  tail = ground (arith, e, f, c.tail);
  carried = ground (arith, e, f, c.carried);
}
IsCut-cons p l index count counts t u true false e f c = record {
  clean_tail = ground (arith, e, f, c.clean_tail);
  tail_tail = ground (arith, e, f, c.tail_tail);
  clean = ground (arith, e, f, c.clean);
  tail = ground (arith, e, f, c.tail);
  carried = ground (arith, e, f, c.carried);
}
IsCut-cons p l index count counts t u false true e f c = record {
  clean_tail = ground (arith, e, f, c.clean_tail);
  tail_tail = ground (arith, e, f, c.tail_tail);
  clean = ground (arith, e, f, c.clean);
  tail = ground (arith, e, f, c.tail);
  carried = ground (arith, e, f, c.carried);
}
IsCut-cons p l index count counts t u false false e f c = record {
  clean_tail = ground (arith, e, f, c.clean_tail);
  tail_tail = ground (arith, e, f, c.tail_tail);
  clean = ground (arith, e, f, c.clean);
  tail = ground (arith, e, f, c.tail);
  carried = ground (arith, e, f, c.carried);
}

cause_from-IsCut :
    (p l index : ℕ) (counts : List ℕ) (t : CauseTotals)
    → IsCut p l index counts t (cause_from p l index counts t)
unfolding cause_from region_from
cause_from-IsCut p l index [] t = record {
  clean_tail = omega arith;
  tail_tail = omega arith;
  clean = omega arith;
  tail = omega arith;
  carried = omega arith;
}
cause_from-IsCut p l index (count ∷ counts) t =
    IsCut-cons p l index count counts t _ (leb p (index / 64)) (leb l (index % 64)) refl refl
      (cause_from-IsCut p l (suc index) counts _)

-- The four regions of the cause matrix: a row from the previous threshold on is a tail, and so is a
-- column from the local threshold on.
abbrev clean_tail : List ℕ → ℕ → ℕ → ℕ
clean_tail counts p l = region (λ row column. ltb row p && leb l column) counts

abbrev tail_tail : List ℕ → ℕ → ℕ → ℕ
tail_tail counts p l = region (λ row column. leb p row && leb l column) counts

abbrev clean_rows : List ℕ → ℕ → ℕ
clean_rows counts p = region (λ row column. ltb row p) counts

abbrev tail_rows : List ℕ → ℕ → ℕ
tail_rows counts p = region (λ row column. leb p row) counts

-- The six scores over them.
pub record AreCauseScores (counts : List ℕ) (p l : ℕ) (s : Scores) : Type 0 where
  pub origin_clean :
      IsRatio
        (clean_tail counts p l)
        (clean_tail counts p l + tail_tail counts p l)
        s.local_tail_origin_clean
  pub origin_tail :
      IsRatio
        (tail_tail counts p l)
        (clean_tail counts p l + tail_tail counts p l)
        s.local_tail_origin_tail
  pub rate_tail :
      IsRatio (tail_tail counts p l) (tail_rows counts p) s.local_tail_rate_given_prev_tail
  pub rate_clean :
      IsRatio (clean_tail counts p l) (clean_rows counts p) s.local_tail_rate_given_prev_not_tail
  pub lifted :
      IsRatio
        (tail_tail counts p l * clean_rows counts p % 2 ^ 128)
        (tail_rows counts p * clean_tail counts p l % 2 ^ 128)
        s.amplification_lift
  pub carried :
      IsRatio
        (region (λ row column. leb p row && ltb column l) counts)
        (tail_rows counts p)
        s.carry_through

pub cause_scores-AreCauseScores :
    (counts : List ℕ) (p l : ℕ) (onset : Score)
    → AreCauseScores counts p l (cause_scores counts p l onset)
unfolding cause_scores probability lift
cause_scores-AreCauseScores counts p l onset =
    let c = cause_from-IsCut p l 0 counts no_cause_totals in
    let a : _ ≡ clean_tail counts p l = c.clean_tail ∙ omega arith in
    let b : _ ≡ tail_tail counts p l = c.tail_tail ∙ omega arith in
    let d : _ ≡ clean_rows counts p = c.clean ∙ omega arith in
    let e : _ ≡ tail_rows counts p = c.tail ∙ omega arith in
    record {
      origin_clean = ratio-IsRatio _ _ _ _ a (omega (arith, a, b));
      origin_tail = ratio-IsRatio _ _ _ _ b (omega (arith, a, b));
      rate_tail = ratio-IsRatio _ _ _ _ b e;
      rate_clean = ratio-IsRatio _ _ _ _ a d;
      lifted =
          ratio-IsRatio _ _ _ _ (ap (λ (x : ℕ × ℕ). x.0 * x.1 % 2 ^ 128) (λ i. (b i, d i)))
            (ap (λ (x : ℕ × ℕ). x.0 * x.1 % 2 ^ 128) (λ i. (e i, a i)));
      carried = ratio-IsRatio _ _ _ _ (c.carried ∙ omega arith) e;
    }
