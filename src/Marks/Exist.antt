-- ===== src/Marks/Exist.antt =====
-- The places that a mark of src/context.rs counts, within the storage, and which of them are online
-- cells.
use tracegrams.Recorder.Bumps.{ArePlaces}
use tracegrams.Bucket.Spec.{ordinary-lt, grid-lt, ordinary}
use tracegrams.Layout.Facts.{at, anomaly, IsPlace, Place}
use tracegrams.Context.{Outcome}
use tracegrams.Marks.Places.{
  saturated, mark_places, calibration_places, online_places, classified_place, outcome_places, when,
  collecting_places, bucket_places, overflow_places,
}
use tracegrams.Recorder.{Inner}
use tracegrams.Layout.{online, Diagnostic, first_online_counter, predecessor_online_counter}
use tracegrams.Calibration.{previous_cumulative_threshold, FrozenStageCalibration}
use tracegrams.Prelude.{
  ◌*◌, ◌++◌, ◌+◌, ◌<◌, ◌==◌, ◌∷◌, ◌≡◌, Bool, Bool-cases, List, Option, Option-cases, [], arith,
  false, get_or, inl, inr, none, refl, some, true, ℕ,
}

abbrev pub is_online : Place → Bool
is_online (at online stage offset) = true
is_online _ = false

abbrev pub AreOffline : List Place → Type 0
AreOffline [] = Unit
AreOffline (p ∷ ps) = (is_online p ≡ false) × AreOffline ps

pub ArePlaces-append :
    (n : ℕ) (ps qs : List Place) → ArePlaces n ps → ArePlaces n qs → ArePlaces n (ps ++ qs)
ArePlaces-append n [] qs h k = k
ArePlaces-append n (p ∷ ps) qs h k = (h.0, ArePlaces-append n ps qs h.1 k)

pub AreOffline-append : (ps qs : List Place) → AreOffline ps → AreOffline qs → AreOffline (ps ++ qs)
AreOffline-append [] qs h k = k
AreOffline-append (p ∷ ps) qs h k = (h.0, AreOffline-append ps qs h.1 k)

-- Both, for lists that are joined.
abbrev pub AreEarly : ℕ → List Place → Type 0
AreEarly n ps = ArePlaces n ps × AreOffline ps

pub AreEarly-append :
    (n : ℕ) (ps qs : List Place) → AreEarly n ps → AreEarly n qs → AreEarly n (ps ++ qs)
AreEarly-append n ps qs h k = (ArePlaces-append n ps qs h.0 k.0, AreOffline-append ps qs h.1 k.1)

when-AreEarly : (n : ℕ) (b : Bool) (d : Diagnostic) → AreEarly n (when b (anomaly d))
when-AreEarly n true d = ((tt, tt), (refl, tt))
when-AreEarly n false d = (tt, tt)

pub overflow_places-AreEarly :
    (n before_ns local_ns : ℕ) (overflowed : Bool)
    → AreEarly n (overflow_places before_ns local_ns overflowed)
overflow_places-AreEarly n before_ns local_ns overflowed =
    AreEarly-append n _ _ (when-AreEarly n overflowed Diagnostic.latency_overflows)
      (when-AreEarly n _ Diagnostic.cumulative_overflows)

cell-lt : (a b : ℕ) → ordinary a * 64 + ordinary b < 4096
cell-lt a b = omega (arith, ordinary-lt a, ordinary-lt b)

pub bucket_places-AreEarly :
    (n stage : ℕ) (later : Bool) (before_ns local_ns cumulative_ns : ℕ)
    → stage < n
    → (later ≡ true → 0 < stage)
    → AreEarly n (bucket_places stage later before_ns local_ns cumulative_ns)
bucket_places-AreEarly n stage true before_ns local_ns cumulative_ns h pos = (
  (
    (h, ordinary-lt local_ns),
    (
      (h, ordinary-lt cumulative_ns),
      ((h, cell-lt before_ns local_ns), ((pos refl, h, cell-lt before_ns cumulative_ns), tt)),
    ),
  ),
  (refl, (refl, (refl, (refl, tt)))),
)
bucket_places-AreEarly n stage false before_ns local_ns cumulative_ns h pos =
    (((h, ordinary-lt local_ns), ((h, ordinary-lt cumulative_ns), tt)), (refl, (refl, tt)))

pub collecting_places-AreEarly :
    (n stage : ℕ) (later : Bool) (before_ns local_ns cumulative_ns : ℕ)
    → stage < n
    → AreEarly n (collecting_places stage later before_ns local_ns cumulative_ns)
collecting_places-AreEarly n stage true before_ns local_ns cumulative_ns h = (
  ((h, grid-lt local_ns), ((h, grid-lt cumulative_ns), ((h, grid-lt before_ns), tt))),
  (refl, (refl, (refl, tt))),
)
collecting_places-AreEarly n stage false before_ns local_ns cumulative_ns h =
    (((h, grid-lt local_ns), ((h, grid-lt cumulative_ns), tt)), (refl, (refl, tt)))

pub outcome_places-AreEarly :
    (n stage : ℕ) (outcome : Option Outcome) → stage < n → AreEarly n (outcome_places stage outcome)
outcome_places-AreEarly n stage none h = (tt, tt)
outcome_places-AreEarly n stage (some Outcome.success) h = (((h, omega arith), tt), (refl, tt))
outcome_places-AreEarly n stage (some Outcome.failure) h = (((h, omega arith), tt), (refl, tt))

first_counter-lt : (l a : Bool) → first_online_counter l a < 12
unfolding first_online_counter
first_counter-lt l a = ground arith

predecessor_counter-lt : (p l a : Bool) → predecessor_online_counter p l a < 12
unfolding predecessor_online_counter
predecessor_counter-lt p l a = ground arith

classified_place-IsPlace :
    (n : ℕ) (c : FrozenStageCalibration) (stage : ℕ) (later : Bool)
    (before_ns local_ns cumulative_ns : ℕ)
    → stage < n
    → IsPlace n (classified_place c stage later before_ns local_ns cumulative_ns)
classified_place-IsPlace n c stage true before_ns local_ns cumulative_ns h =
    elim (Option-cases (previous_cumulative_threshold c)) [
      | inl e ↦ rw e tt
      | inr (ns, e) ↦ rw e (h, predecessor_counter-lt _ _ _)
    ]
classified_place-IsPlace n c stage false before_ns local_ns cumulative_ns h =
    (h, first_counter-lt _ _)

pub online_places-ArePlaces :
    (n : ℕ) (r : Inner) (started : Bool) (stage : ℕ) (later : Bool)
    (before_ns local_ns cumulative_ns : ℕ)
    → stage < n
    → ArePlaces n (online_places r started stage later before_ns local_ns cumulative_ns)
online_places-ArePlaces n r false stage later before_ns local_ns cumulative_ns h = tt
online_places-ArePlaces n r true stage later before_ns local_ns cumulative_ns h =
    elim (Option-cases (get_or r.frozen_calibration stage none)) [
      | inl e ↦ rw e tt
      | inr (c, e) ↦
          rw e (classified_place-IsPlace n c stage later before_ns local_ns cumulative_ns h, tt)
    ]

calibration_places-ArePlaces :
    (n : ℕ) (r : Inner) (started : Bool) (stage : ℕ) (later : Bool)
    (before_ns local_ns cumulative_ns : ℕ)
    → stage < n
    → ArePlaces n (calibration_places r started stage later before_ns local_ns cumulative_ns)
calibration_places-ArePlaces n r started stage later before_ns local_ns cumulative_ns h =
    elim (Bool-cases (r.calibration_state == 0)) [
      | inl gathers ↦
          rw gathers (collecting_places-AreEarly n stage later before_ns local_ns cumulative_ns h).0
      | inr shut ↦ elim (Bool-cases (r.calibration_state == 1)) [
        | inl busy ↦ rw (shut, busy) (tt, tt)
        | inr over ↦
            rw (shut, over)
              (online_places-ArePlaces n r started stage later before_ns local_ns cumulative_ns h)
      ]
    ]

pub mark_places-ArePlaces :
    (n : ℕ) (r : Inner) (started : Bool) (stage : ℕ) (later : Bool) (before_ns local_ns : ℕ)
    (overflowed : Bool) (outcome : Option Outcome)
    → stage < n
    → (later ≡ true → 0 < stage)
    → ArePlaces n (mark_places r started stage later before_ns local_ns overflowed outcome)
mark_places-ArePlaces n r started stage later before_ns local_ns overflowed outcome h pos =
    let cumulative_ns = saturated before_ns local_ns in
    let first = overflow_places before_ns local_ns overflowed in
    let second = bucket_places stage later before_ns local_ns cumulative_ns in
    let third = calibration_places r started stage later before_ns local_ns cumulative_ns in
    let last = outcome_places stage outcome in
    ArePlaces-append n first (second ++ (third ++ last))
      (overflow_places-AreEarly n before_ns local_ns overflowed).0
      (ArePlaces-append n second (third ++ last)
        (bucket_places-AreEarly n stage later before_ns local_ns cumulative_ns h pos).0
        (ArePlaces-append n third last
          (calibration_places-ArePlaces n r started stage later before_ns local_ns cumulative_ns h)
          (outcome_places-AreEarly n stage outcome h).0))
