-- ===== src/Threads/Looking.antt =====
-- The lookup of published thresholds in `record_frozen_online` of src/context.rs, on a ready recorder.
use tracegrams.Calibration.{previous_cumulative_threshold}
use tracegrams.Marks.Places.{classified_place}
use tracegrams.Layout.{Segment, Diagnostic}
use tracegrams.Recorder.Bumps.{IsUsable, IsReady}
use tracegrams.Updates.{online_cell}
use tracegrams.Threads.{
  at, anomaly, Place, cumulative_of, online_places, before_of, FrozenStageCalibration, Valid,
  looked_up,
}
use tracegrams.Prelude.{
  ◌<◌, ◌>>=◌, ◌∙◌, ◌∷◌, ◌≡◌, Bool, Bool-cases, List, Option-cases, [], ap, false, get_elem?-eq-some,
  get_or, inl, inr, none, returns, some, true, ℕ,
}
use tracegrams.Recorder.{Inner}

classified_cell :
    (c : FrozenStageCalibration) (stage : ℕ) (later : Bool) (before_ns local_ns cumulative_ns : ℕ)
    → IsUsable c
    → (online_cell c (before_of later stage before_ns) before_ns local_ns cumulative_ns
        >>= λ counter. returns (elim counter as (λ x. List Place) [
          | none ↦ anomaly Diagnostic.online_samples_skipped_missing_previous_threshold ∷ []
          | some k ↦ at Segment.online stage k ∷ []
        ]))
      ≡ returns (classified_place c stage later before_ns local_ns cumulative_ns ∷ [])
unfolding online_cell
classified_cell c stage false before_ns local_ns cumulative_ns u = rw (u.local_read, u.after_read)
classified_cell c stage true before_ns local_ns cumulative_ns u =
    elim (Option-cases (previous_cumulative_threshold c)) [
      | inl missing ↦ rw (u.local_read, u.after_read, missing)
      | inr (previous_ns, found) ↦ rw (u.local_read, u.after_read, found)
    ]

-- On a ready recorder the lookup returns: no publication cell is missing, and no published threshold.
pub looked_up-places :
    (n : ℕ) (r : Inner) (v : Valid)
    → IsReady n r
    → v.stage < n
    → looked_up r v
      ≡ returns (online_places r v.started v.stage v.later v.before_ns v.local_ns (cumulative_of v))
unfolding looked_up
looked_up-places n r v ready h = elim (Bool-cases v.started) [
  | inr fresh ↦ rw fresh
  | inl started ↦
      let e = get_elem?-eq-some r.frozen_calibration v.stage none (rw ready.cells h) in
      elim (Option-cases (get_or r.frozen_calibration v.stage none)) [
        | inl missing ↦ rw (started, e, missing)
        | inr (c, found) ↦
            let published = e ∙ ap some found in
            rw (started, published, found)
              (classified_cell c v.stage v.later v.before_ns v.local_ns (cumulative_of v)
                (ready.usable v.stage c published))
      ]
]
