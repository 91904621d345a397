-- ===== src/Snapshot/Marked.antt =====
-- The window of src/snapshot.rs over the marks of a request of src/context.rs: what `delta` makes of
-- the snapshots before and after them.
use tracegrams.Marks.Request.{
  record_marks-places, Agree, request_places-ArePlaces, record_marks, request_places, AreInRange,
}
use tracegrams.Snapshot.Taken.{snapshot_relaxed-IsCopy, IsCopy}
use tracegrams.Marks.Verdict.{IsProgress}
use tracegrams.Marks.Manual.{marked}
use tracegrams.Snapshot.{delta, state_is_frozen, snapshot_relaxed, Snapshot}
use tracegrams.Context.{Outcome, ManualCtx}
use tracegrams.Layout.Facts.{Place}
use tracegrams.Recorder.{Inner}
use tracegrams.Snapshot.Window.{delta-cases, IsWindow, add_all}
use tracegrams.Recorder.Bumps.{
  bumped_all-cookie, bumped_all-layout, bumped_all-state, bumped_all-IsReady, bumped_all-counter,
  hits, ArePlaces, IsReady, bumped, bumped_all,
}
use tracegrams.Prelude.{
  ◌+◌, ◌<◌, ◌==◌, ◌^◌, ◌∙◌, ◌∷◌, ◌≡◌, ◌≤◌, Bool-cases, List, Option, [], ap, arith, false,
  get_elem?, get_or, inl, inr, length, ok, refl, returns, some, suc, sym, zero, ℕ,
}
use tracegrams.Registry.{StageId}

bumped_all-names : (r : Inner) (ps : List Place) → (bumped_all r ps).stage_names ≡ r.stage_names
unfolding bumped_all bumped
bumped_all-names r [] = refl
bumped_all-names r (p ∷ ps) = bumped_all-names (bumped r p) ps

get_or-of : (xs : List ℕ) (i a : ℕ) → get_elem? xs i ≡ some a → get_or xs i 0 ≡ a
get_or-of [] i a h = absurd cc
get_or-of (x ∷ xs) zero a h = cc
get_or-of (x ∷ xs) (suc i) a h = get_or-of xs i a h

get_or-add_all :
    (xs ys : List ℕ) (j : ℕ)
    → j < length (add_all xs ys)
    → get_or (add_all xs ys) j 0 ≡ get_or xs j 0 + get_or ys j 0
unfolding add_all
get_or-add_all [] ys j h = absurd (omega arith)
get_or-add_all (x ∷ xs) [] j h = absurd (omega arith)
get_or-add_all (x ∷ xs) (y ∷ ys) zero h = refl
get_or-add_all (x ∷ xs) (y ∷ ys) (suc j) h = get_or-add_all xs ys j (omega arith)

-- A window that counted these places, and nothing else.
pub record Counted (r : Inner) (ps : List Place) (window : Snapshot) : Type 0 where
  pub whole : window.spans_freeze ≡ false
  pub counts : (j : ℕ) → j < length r.counters → get_or window.counters j 0 ≡ hits r.layout j ps

module _ (n : ℕ) (r : Inner) (ps : List Place) (v : IsReady n r) (exist : ArePlaces n ps)
    (room : (j : ℕ) → get_or r.counters j 0 + hits r.layout j ps < 2 ^ 64) where
  grown :
      (j : ℕ) → get_or (bumped_all r ps).counters j 0 ≡ get_or r.counters j 0 + hits r.layout j ps
  grown j = omega (arith, room j, bumped_all-counter n r ps j v exist (omega (arith, room j)))

  module _ (s s' : Snapshot) (before : IsCopy n r s) (after : IsCopy n (bumped_all r ps) s') where
    sized : length s'.counters ≡ length s.counters
    sized =
        rw (after.counters, before.counters, (bumped_all-IsReady n r ps v).sized, v.sized)
          (ap (λ l. l.counter_count) (bumped_all-layout r ps))

    grew : (j : ℕ) → get_or s'.counters j 0 ≡ get_or s.counters j 0 + hits r.layout j ps
    grew j = rw (after.counters, before.counters) (grown j)

    same_state : state_is_frozen s'.calibration_state ≡ state_is_frozen s.calibration_state
    same_state = after.state ∙ ap (λ x. x == 2) (bumped_all-state r ps) ∙ sym before.state

    window-Counted : (w : Snapshot) → IsWindow s' s w → Counted r ps w
    window-Counted w is = record {
      whole = elim (Bool-cases w.spans_freeze) [
        | inl spans ↦ absurd (is.spans.0 spans same_state)
        | inr whole ↦ whole
      ];
      counts = λ j h.
          let e : length (add_all s.counters w.counters) ≡ length r.counters =
            ap length is.restores ∙ sized ∙ ap length before.counters in
          let k = get_or-add_all s.counters w.counters j (omega (arith, e, h)) in
          let m : get_or (add_all s.counters w.counters) j 0 ≡ get_or s'.counters j 0 =
            ap (λ xs. get_or xs j 0) is.restores in
          omega (arith, k, m, grew j);
    }

    pub delta-Counted : (w : Snapshot) × (delta s' s ≡ ok w) × Counted r ps w
    delta-Counted = elim (delta-cases s' s sized) [
      | inl (foreign, run) ↦
          absurd (foreign (after.cookie ∙ bumped_all-cookie r ps ∙ sym before.cookie))
      | inr (own, inl (w, run, is)) ↦ (w, run, window-Counted w is)
      | inr (own, inr (a, b, run, u)) ↦ absurd (
          omega (
            arith,
            grew u.position,
            get_or-of s'.counters u.position b u.in_later,
            get_or-of s.counters u.position a u.in_earlier,
            u.below,
          ))
    ]

-- On a ready recorder of `n` stages, at most 256 and each named, with request-local state as marks leave
-- it, stages whose indices are in range where their cookie is the recorder's, and counters that the
-- marks do not wrap: a snapshot can be taken, the manual marks of any sequence return, a second snapshot
-- can be taken, and `delta` of the two gives a window that does not span the freeze and in which every
-- counter is the number of times that the marks count there: each its diagnostic where it is rejected,
-- else its specified places.
pub record_marks-delta :
    (n : ℕ) (r : Inner) (context : ManualCtx) (marks : List (StageId × ℕ × Option Outcome))
    → IsReady n r
    → n ≤ 256
    → length r.stage_names ≡ n
    → IsProgress n context.cumulative_ns context.previous
    → AreInRange n r.cookie marks
    → ((j : ℕ) → get_or r.counters j 0 + hits r.layout j (request_places r context marks) < 2 ^ 64)
    → (before : Snapshot) × (snapshot_relaxed r ≡ returns before)
      × (result : ManualCtx × Inner) × (record_marks r context marks ≡ returns result)
      × (after : Snapshot) × (snapshot_relaxed result.1 ≡ returns after)
      × (window : Snapshot) × (delta after before ≡ ok window)
      × Counted r (request_places r context marks) window
record_marks-delta n r context marks v small named g b room =
    let ps = request_places r context marks in
    let exist = request_places-ArePlaces n r context marks g b in
    let agree : Agree r r = record { cookie = refl; state = refl; cells = refl } in
    let (left, marked) = record_marks-places n r r context marks agree v g b in
    let (before, run, is) = snapshot_relaxed-IsCopy n r v small named in
    let (after, run₂, is₂) =
      snapshot_relaxed-IsCopy n (bumped_all r ps) (bumped_all-IsReady n r ps v) small
        (ap length (bumped_all-names r ps) ∙ named) in
    let (window, run₃, counted) = delta-Counted n r ps v exist room before after is is₂ in
    (before, run, (left, bumped_all r ps), marked, after, run₂, window, run₃, counted)
