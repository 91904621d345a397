-- ===== src/Context/Packing.antt =====
-- The metadata word of `Ctx` in src/context.rs: the cookie, the started-after-freeze flag and the
-- previous mark in it.
use tracegrams.Prelude.{
  ◌*◌, ◌+◌, ◌<◌, ◌^◌, ◌∷◌, ◌≡◌, Bool, List, Option, [], arith, bit_and, from_bool, none, some, ℕ,
}
use tracegrams.Prelude.Bits.{and_mask, and_flag, or_shl, shr}
use tracegrams.Context.{
  new_ctx, PreviousMark, Ctx, registry_cookie, started_frozen, previous, set_previous,
  started_frozen_bit, identity_mask,
}

-- The word as a sum of its fields.
abbrev pub packed : ℕ → Bool → Option PreviousMark → ℕ
packed cookie started none = cookie + from_bool started * 2 ^ 32
packed cookie started (some p) =
    cookie + from_bool started * 2 ^ 32 + p.stage * 2 ^ 48 + p.cumulative_bucket * 2 ^ 54 + 2 ^ 60

-- The fields fit their places.
abbrev pub IsSmall : Option PreviousMark → Type 0
IsSmall none = Unit
IsSmall (some p) = (p.stage < 64) × (p.cumulative_bucket < 64)

-- A context whose word holds these fields.
pub record Holds (c : Ctx) (cookie : ℕ) (started : Bool) (before : Option PreviousMark)
    : Type 0 where
  pub cookie_fits : cookie < 2 ^ 32
  pub small : IsSmall before
  pub word : c.metadata ≡ packed cookie started before

abbrev high_of : Option PreviousMark → ℕ
high_of none = 0
high_of (some p) = p.stage * 2 ^ 15 + p.cumulative_bucket * 2 ^ 21 + 2 ^ 27

flag_word :
    (cookie : ℕ) (started : Bool) (before : Option PreviousMark)
    → packed cookie started before ≡ cookie + (from_bool started + 2 * high_of before) * 2 ^ 32
flag_word cookie started none = omega arith
flag_word cookie started (some p) = omega arith

flag_lem :
    (cookie : ℕ) (started : Bool) (before : Option PreviousMark)
    → cookie < 2 ^ 32
    → bit_and (packed cookie started before) started_frozen_bit ≡ from_bool started * 2 ^ 32
flag_lem cookie started before h =
    rw (flag_word cookie started before)
      (and_flag 32 cookie (from_bool started) (high_of before) h (ground arith))

module _ (c : Ctx) (cookie : ℕ) (started : Bool) where
  registry_cookie_lem :
      (before : Option PreviousMark) → Holds c cookie started before → registry_cookie c ≡ cookie
  unfolding registry_cookie
  registry_cookie_lem none h = omega (arith, and_mask 32 c.metadata)
  registry_cookie_lem (some p) h = omega (arith, and_mask 32 c.metadata)

  started_frozen_lem :
      (before : Option PreviousMark) → Holds c cookie started before → started_frozen c ≡ started
  unfolding started_frozen
  started_frozen_lem before h =
      rw (h.word, flag_lem cookie started before h.cookie_fits) (ground arith)

  previous_lem :
      (before : Option PreviousMark) → Holds c cookie started before → previous c ≡ before
  unfolding previous
  previous_lem none h = ground (arith, and_flag 60 (cookie + from_bool started * 2 ^ 32) 0 0)
  previous_lem (some p) h = ground (
    arith,
    and_flag 60
        (cookie + from_bool started * 2 ^ 32 + p.stage * 2 ^ 48 + p.cumulative_bucket * 2 ^ 54) 1 0,
    and_mask 6 (shr c.metadata 48),
    and_mask 6 (shr c.metadata 54),
  )

  identity_lem :
      (before : Option PreviousMark)
      → Holds c cookie started before
      → bit_and c.metadata identity_mask ≡ cookie + from_bool started * 2 ^ 32
  identity_lem none h = ground (arith, and_mask 48 c.metadata)
  identity_lem (some p) h = ground (arith, and_mask 48 c.metadata)

  pub set_previous-Holds :
      (before : Option PreviousMark) (p : PreviousMark)
      → Holds c cookie started before
      → p.stage < 64
      → p.cumulative_bucket < 64
      → Holds (set_previous c p) cookie started (some p)
  unfolding set_previous
  set_previous-Holds before p h ps pb = record {
    cookie_fits = h.cookie_fits;
    small = (ps, pb);
    word = ground (
      arith,
      identity_lem before h,
      or_shl 48 (cookie + from_bool started * 2 ^ 32) p.stage,
      or_shl 54 (cookie + from_bool started * 2 ^ 32 + p.stage * 2 ^ 48) p.cumulative_bucket,
      or_shl 60
          (cookie + from_bool started * 2 ^ 32 + p.stage * 2 ^ 48 + p.cumulative_bucket * 2 ^ 54) 1,
    );
  }

pub new_ctx-Holds :
    (timestamp cookie : ℕ) (started : Bool)
    → cookie < 2 ^ 32
    → Holds (new_ctx timestamp cookie started) cookie started none
unfolding new_ctx
new_ctx-Holds timestamp cookie started h = record {
  cookie_fits = h;
  small = tt;
  word = ground (arith, or_shl 32 cookie 1, or_shl 32 cookie 0);
}

-- What the accessors read is what the word holds.
pub Holds-reads :
    (c : Ctx) (cookie : ℕ) (started : Bool) (before : Option PreviousMark)
    → Holds c cookie started before
    → (registry_cookie c ≡ cookie) × (started_frozen c ≡ started) × (previous c ≡ before)
Holds-reads c cookie started before h = (
  registry_cookie_lem c cookie started before h,
  started_frozen_lem c cookie started before h,
  previous_lem c cookie started before h,
)

-- A sequence of previous marks, stored one after the other.
pub store_all : Ctx → List PreviousMark → Ctx
store_all c [] = c
store_all c (p ∷ ps) = store_all (set_previous c p) ps

abbrev pub last_of : Option PreviousMark → List PreviousMark → Option PreviousMark
last_of before [] = before
last_of before (p ∷ ps) = last_of (some p) ps

abbrev pub AreSmall : List PreviousMark → Type 0
AreSmall [] = Unit
AreSmall (p ∷ ps) = IsSmall (some p) × AreSmall ps

store_all-Holds :
    (c : Ctx) (cookie : ℕ) (started : Bool) (before : Option PreviousMark) (ps : List PreviousMark)
    → Holds c cookie started before
    → AreSmall ps
    → Holds (store_all c ps) cookie started (last_of before ps)
unfolding store_all
store_all-Holds c cookie started before [] h small = h
store_all-Holds c cookie started before (p ∷ ps) h small =
    store_all-Holds (set_previous c p) cookie started (some p) ps
      (set_previous-Holds c cookie started before p h small.0.0 small.0.1) small.1

-- For a context created with a 32-bit cookie and a flag, and any sequence of stored marks with stages
-- and buckets below 64, the accessors read the cookie and the flag unchanged, and the last mark that
-- was stored (none, before the first).
pub new_ctx-store_all :
    (timestamp cookie : ℕ) (started : Bool) (ps : List PreviousMark)
    → cookie < 2 ^ 32
    → AreSmall ps
    → let c = store_all (new_ctx timestamp cookie started) ps in
      (registry_cookie c ≡ cookie) × (started_frozen c ≡ started) × (previous c ≡ last_of none ps)
new_ctx-store_all timestamp cookie started ps h small =
    Holds-reads _ cookie started (last_of none ps)
      (store_all-Holds _ cookie started none ps (new_ctx-Holds timestamp cookie started h) small)
