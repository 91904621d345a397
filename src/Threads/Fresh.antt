-- ===== src/Threads/Fresh.antt =====
-- The recorder that `build` of src/init.rs returns, as threads find it.
use tracegrams.Builder.Ready.{new_inner-IsReady}
use tracegrams.Threads.Sound.{IsSound}
use tracegrams.Rank.Exact.{IsTailQuantile}
use tracegrams.Layout.Facts.{IsLayout}
use tracegrams.Layout.{StorageLayout}
use tracegrams.Float.{F64}
use tracegrams.Registry.{MemoryEstimate, Str}
use tracegrams.Recorder.{new_inner}
use tracegrams.Prelude.{◌≡◌, List, [], arith, get_or, none, refl, replicate, suc, zero, ℕ}

get_or-replicate {ℓ} : {A : Type ℓ} (n i : ℕ) (a : A) → get_or (replicate n a) i a ≡ a
get_or-replicate zero i a = refl
get_or-replicate (suc n) zero a = refl
get_or-replicate (suc n) (suc i) a = get_or-replicate n i a

pub new_inner-IsSound :
    (n cookie : ℕ) (names : List Str) (q : F64) (m : MemoryEstimate) (l : StorageLayout)
    → IsLayout n l
    → IsTailQuantile q
    → IsSound n (new_inner cookie names q m l) []
unfolding new_inner
new_inner-IsSound n cookie names q m l v accepted = record {
  ready = new_inner-IsReady n cookie names q m l v;
  quantile = accepted;
  running = tt;
  alone = refl;
  empty = λ zeroed j. get_or-replicate l.stage_count j none;
  full = λ two. absurd (omega arith);
  quiet = λ thawed stage offset below within. get_or-replicate l.counter_count _ 0;
}
