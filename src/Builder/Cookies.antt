-- ===== src/Builder/Cookies.antt =====
-- The registry cookies of src/init.rs over a history of claims on the shared source.
use tracegrams.Prelude.{
  ◌+◌, ◌-◌, ◌<◌, ◌^◌, ◌∙◌, ◌∷◌, ◌≡◌, All, Bool-cases, List, [], ap, arith, inl, inr, length, ltb,
  none, range_from, refl, some, suc, ℕ,
}
use tracegrams.Builder.{claim_registry_cookie}

-- The value that the succeeding exchange compares with: what the last failing one observed, or what
-- was loaded.
abbrev pub last_seen : ℕ → List ℕ → ℕ
last_seen loaded [] = loaded
last_seen loaded (observed ∷ rest) = last_seen observed rest

-- Successful claims, one after the other: the source at the start, the cookies, and the source at the
-- end. An exchange succeeds only on the value that the source has.
pub data Claims : ℕ → List ℕ → ℕ → Type 0 where
  none_left : {source : ℕ} → Claims source [] source
  claimed :
      {source : ℕ} {cookies : List ℕ} {after : ℕ} (loaded : ℕ) (observed : List ℕ) (cookie next : ℕ)
      → last_seen loaded observed ≡ source
      → claim_registry_cookie loaded observed ≡ some (cookie, next)
      → Claims next cookies after
      → Claims source (cookie ∷ cookies) after

claim_lem :
    (loaded : ℕ) (observed : List ℕ) (cookie next : ℕ)
    → claim_registry_cookie loaded observed ≡ some (cookie, next)
    → (cookie ≡ last_seen loaded observed)
      × (next ≡ suc (last_seen loaded observed))
      × (last_seen loaded observed < 2 ^ 32)
unfolding claim_registry_cookie
claim_lem loaded [] cookie next h = ground arith
claim_lem loaded (seen ∷ rest) cookie next h = elim (Bool-cases (ltb (2 ^ 32 - 1) loaded)) [
  | inl over ↦ let w : none ≡ some (cookie, next) = (rw over at h) in absurd cc
  | inr within ↦
      let again : claim_registry_cookie seen rest ≡ some (cookie, next) = (rw within at h) in
      claim_lem seen rest cookie next again
]

-- In every history of successful claims, whatever their failing exchanges observed, the cookies are
-- consecutive numbers from the source's first value on, so that no two recorders share one; the source
-- ends behind the last of them, and each fits 32 bits.
pub Claims-consecutive :
    (source : ℕ) (cookies : List ℕ) (after : ℕ)
    → Claims source cookies after
    → (cookies ≡ range_from source (length cookies))
      × (after ≡ source + length cookies)
      × All (λ cookie. cookie < 2 ^ 32) cookies
Claims-consecutive source cookies after none_left = (refl, omega arith, tt)
Claims-consecutive source cookies after
      (claimed {cookies = cs} loaded observed c next seen run rest) =
    let (same, up, small) = claim_lem loaded observed c next run in
    let (row, reach, fits) = Claims-consecutive next cs after rest in
    let here : c ≡ source = same ∙ seen in
    let there : next ≡ suc source = up ∙ ap suc seen in
    let tail : cs ≡ range_from (suc source) (length cs) =
      row ∙ ap (λ k. range_from k (length cs)) there in
    (ap (λ k. k ∷ cs) here ∙ ap (λ xs. source ∷ xs) tail, omega arith, (omega arith, fits))
