-- ===== src/Builder/Stages.antt =====
-- Registration in src/init.rs: what identifiers a registration gives out, and what a builder keeps.
use tracegrams.Prelude.{
  ◌%◌, ◌++◌, ◌<◌, ◌==◌, ◌^◌, ◌∷◌, ◌≡◌, ◌≤◌, ◌⊎◌, All, Bool-cases, List, Option-cases, [], arith,
  err, false, inl, inr, leb, length, length-append, ok, refl, some,
}
use tracegrams.Registry.{Str, StageId}
use tracegrams.Builder.{
  duplicate_stage_name, too_many_stages, empty_stage_name, registry_cookie_exhausted,
  TracegramsBuilder, InitError, stage, is_registered, same_str,
}

-- Every name is registered once.
abbrev pub AreDistinct : List Str → Type 0
AreDistinct [] = Unit
AreDistinct (n ∷ ns) = (is_registered n ns ≡ false) × AreDistinct ns

-- A builder as registrations leave it.
pub record IsBuilder (b : TracegramsBuilder) : Type 0 where
  pub few : length b.stage_names ≤ 64
  pub distinct : AreDistinct b.stage_names
  pub named : All (λ name. 0 < length name) b.stage_names

same_str-sym : (a b : Str) → same_str a b ≡ same_str b a
unfolding same_str
same_str-sym [] [] = refl
same_str-sym [] (y ∷ ys) = refl
same_str-sym (x ∷ xs) [] = refl
same_str-sym (x ∷ xs) (y ∷ ys) = ground (arith, same_str-sym xs ys)

is_registered-append :
    (name other : Str) (ns : List Str)
    → is_registered name ns ≡ false
    → same_str other name ≡ false
    → is_registered name (ns ++ (other ∷ [])) ≡ false
unfolding is_registered
is_registered-append name other [] h k = ground arith
is_registered-append name other (n ∷ ns) h k = ground (arith, is_registered-append name other ns)

AreDistinct-append :
    (ns : List Str) (name : Str)
    → AreDistinct ns
    → is_registered name ns ≡ false
    → AreDistinct (ns ++ (name ∷ []))
unfolding is_registered
AreDistinct-append [] name d h = (refl, tt)
AreDistinct-append (n ∷ ns) name d h = (
  is_registered-append n name ns d.0 (ground (arith, same_str-sym n name)),
  AreDistinct-append ns name d.1 (ground arith),
)

All-append :
    (P : Str → Type 0) (ns : List Str) (name : Str) → All P ns → P name → All P (ns ++ (name ∷ []))
All-append P [] name a h = (h, tt)
All-append P (n ∷ ns) name a h = (a.0, All-append P ns name a.1 h)

-- What a successful registration has done.
pub record IsRegistered (b after : TracegramsBuilder) (name : Str) (id : StageId) : Type 0 where
  pub owner : b.cookie ≡ some id.cookie
  pub dense : id.index ≡ length b.stage_names
  pub appended : after.stage_names ≡ b.stage_names ++ (name ∷ [])
  pub same_quantile : after.tail_quantile ≡ b.tail_quantile
  pub same_cookie : after.cookie ≡ b.cookie
  pub kept : IsBuilder after

-- `stage` on a builder as registrations leave it: an error leaves the builder unchanged; a success
-- brands the identifier with the builder's cookie, numbers it by the names registered before, appends
-- the name, and keeps names distinct, not empty and at most 64.
pub stage-cases :
    (b : TracegramsBuilder) (name : Str)
    → IsBuilder b
    → ((e : InitError) × (stage b name ≡ (err e, b)))
      ⊎ ((id : StageId) × (after : TracegramsBuilder) × (stage b name ≡ (ok id, after))
          × IsRegistered b after name id)
unfolding stage
stage-cases b name v = elim (Option-cases b.cookie) [
  | inl missing ↦ inl (registry_cookie_exhausted, rw missing)
  | inr (cookie, owned) ↦ elim (Bool-cases (length name == 0)) [
    | inl empty ↦ inl (empty_stage_name, rw (owned, empty))
    | inr filled ↦ elim (Bool-cases (leb 64 (length b.stage_names))) [
      | inl full ↦ inl (too_many_stages 64, rw (owned, filled, full))
      | inr room ↦ elim (Bool-cases (is_registered name b.stage_names)) [
        | inl twice ↦ inl (duplicate_stage_name name, rw (owned, filled, room, twice))
        | inr once ↦
            let small : length b.stage_names % 2 ^ 8 ≡ length b.stage_names =
              ground (arith, v.few) in
            inr (
              record { cookie = cookie; index = length b.stage_names },
              record b { stage_names = b.stage_names ++ (name ∷ []) },
              rw (owned, filled, room, once, small),
              record {
                owner = owned;
                dense = refl;
                appended = refl;
                same_quantile = refl;
                same_cookie = refl;
                kept = record {
                  few = ground (arith, length-append b.stage_names (name ∷ []));
                  distinct = AreDistinct-append b.stage_names name v.distinct once;
                  named = All-append _ b.stage_names name v.named (ground arith);
                };
              },
            )
      ]
    ]
  ]
]
