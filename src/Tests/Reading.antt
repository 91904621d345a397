-- ===== src/Tests/Reading.antt =====
-- Concrete inputs for src/snapshot.rs and src/diagnose.rs.
use tracegrams.Diagnose.Decoded.{online_totals-AreDecoded, AreDecoded}
use tracegrams.Scores.Regions.{tail_onset_score-regions, region, IsRatio}
use tracegrams.Prelude.{
  ◌&&◌, ◌+◌, ◌∷◌, ◌≡◌, ◌≢◌, ◌⊎◌, List, [], err, false, leb, ltb, none, ok, refl, sum, ℕ,
}
use tracegrams.Snapshot.{
  Snapshot, delta, counter_underflow, registry_mismatch, is_collecting, is_frozen,
}
use tracegrams.Snapshot.Window.{IsWindow, Underflows, delta-cases}
use tracegrams.Scores.{Score, unavailable, zero_denominator, cause_scores, tail_onset_score}
use tracegrams.Scores.Shares.{IsShare, cause_scores-shares}
use tracegrams.Diagnose.{online_totals}
use tracegrams.Diagnose.Shares.{IsSplit, online_totals-IsSplit}
use tracegrams.Tests.Numbers.{half, two_stages}

abbrev earlier : Snapshot
earlier = record {
  cookie = 7;
  stages = [];
  layout = two_stages;
  counters = 1 ∷ 4 ∷ [];
  tail_quantile = half;
  calibration_state = is_collecting;
  calibration_report = none;
  memory_estimate = record { matrix_bytes = 0; calibration_bytes = 0; metadata_bytes = 0 };
  spans_freeze = false;
}

abbrev later : Snapshot
later = record earlier { counters = 3 ∷ 4 ∷ []; calibration_state = is_frozen }

delta-cases_example :
    ((later.cookie ≢ earlier.cookie) × (delta later earlier ≡ err registry_mismatch))
    ⊎ ((later.cookie ≡ earlier.cookie)
        × (((window : Snapshot) × (delta later earlier ≡ ok window) × IsWindow later earlier window)
            ⊎ ((a : ℕ) × (b : ℕ) × (delta later earlier ≡ err (counter_underflow a b))
                × Underflows later.counters earlier.counters a b)))
delta-cases_example = delta-cases later earlier refl

abbrev cell_counts : List ℕ
cell_counts = 1 ∷ 2 ∷ 3 ∷ 4 ∷ 5 ∷ 6 ∷ 7 ∷ 8 ∷ 9 ∷ 10 ∷ 11 ∷ 12 ∷ []

online_totals-IsSplit_example : IsSplit (sum cell_counts) (online_totals cell_counts)
online_totals-IsSplit_example = online_totals-IsSplit cell_counts

online_totals-AreDecoded_example : AreDecoded cell_counts (online_totals cell_counts)
online_totals-AreDecoded_example = online_totals-AreDecoded cell_counts refl

abbrev no_onset : Score
no_onset = unavailable zero_denominator

cause_scores-shares_example :
    let s = cause_scores cell_counts 0 5 no_onset in
    (s.local_tail_origin_clean.numerator + s.local_tail_origin_tail.numerator
      ≡ s.local_tail_origin_clean.denominator)
    × (s.local_tail_origin_tail.denominator ≡ s.local_tail_origin_clean.denominator)
    × (s.local_tail_rate_given_prev_tail.numerator + s.carry_through.numerator
        ≡ s.carry_through.denominator)
    × (s.local_tail_rate_given_prev_tail.denominator ≡ s.carry_through.denominator)
    × (s.local_tail_rate_given_prev_tail.denominator
          + s.local_tail_rate_given_prev_not_tail.denominator
        ≡ sum cell_counts)
    × IsShare s.local_tail_rate_given_prev_not_tail
cause_scores-shares_example = cause_scores-shares cell_counts 0 5 no_onset

tail_onset_score-regions_example :
    IsRatio
      (region (λ row column. ltb row 1 && leb 4 column) cell_counts)
      (region (λ row column. leb 4 column) cell_counts)
      (tail_onset_score cell_counts 1 4)
tail_onset_score-regions_example = tail_onset_score-regions cell_counts 1 4
