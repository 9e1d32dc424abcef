-- ===== src/Editorial/Tokens/Loop.antt =====
-- On the loop of normalize_tokens, crates/reference-core/src/editorial.rs.
use mathlib.Core.List.{append-nil, append_assoc}
use reference_library.Common.{
  ◌+◌, ◌≤◌, ◌≡◌, refl, ◌∙◌, ap, subst, sym, String, Bool, true, false, List, [], ◌∷◌, ◌++◌,
  if◌then◌else◌, length, any, All, Apart, arith, Bool-cases, inl, inr, length-append, any-append,
  Apart-snoc, All-snoc,
}
use reference_library.Common.Text.{
  char_count, is_empty, has_char, trim, trim_idem, eq_ignore_ascii_case, eq_ignore_ascii_case_refl,
}
use reference_library.Fallible.{ok, ok-injective}
use reference_library.Protocol.Limits.{max_asset_token_chars}
use reference_library.Editorial.Tokens.{is_invalid_token, collect_tokens}

-- A token as it is stored.
pub record IsToken (value : String) : Type 0 where
  pub is_trimmed : trim value ≡ value
  pub not_blank : is_empty value ≡ false
  pub no_nul : has_char 0 value ≡ false
  pub within : char_count value ≤ max_asset_token_chars

-- What the loop keeps true of the tokens collected so far.
pub record IsCollected (tokens : List String) : Type 0 where
  pub each : All IsToken tokens
  pub apart : Apart eq_ignore_ascii_case tokens

IsToken-trim : (raw : String) → is_invalid_token (trim raw) ≡ false → IsToken (trim raw)
IsToken-trim raw h = record {
  is_trimmed = trim_idem raw;
  not_blank = ground arith;
  no_nul = ground arith;
  within = ground arith;
}

-- One round of the loop: the token is refused, or the loop goes on with it collected.
collect_tokens-step :
    (raw : String) (values normalized : List String) {tokens : List String}
    → collect_tokens (raw ∷ values) normalized ≡ ok tokens
    → (is_invalid_token (trim raw) ≡ false)
      × (collect_tokens values (
            if any (λ existing. eq_ignore_ascii_case existing (trim raw)) normalized
            then normalized
            else normalized ++ (trim raw ∷ []))
          ≡ ok tokens)
unfolding collect_tokens
collect_tokens-step raw values normalized h = elim (Bool-cases (is_invalid_token (trim raw))) [
  | inl bad ↦ cc (rw bad at h)
  | inr good ↦ (good, rw good at h)
]

IsCollected-insert :
    (raw : String) (normalized : List String)
    → IsCollected normalized
    → is_invalid_token (trim raw) ≡ false
    → IsCollected (
        if any (λ existing. eq_ignore_ascii_case existing (trim raw)) normalized
        then normalized
        else normalized ++ (trim raw ∷ []))
IsCollected-insert raw normalized c good =
    elim (Bool-cases (any (λ existing. eq_ignore_ascii_case existing (trim raw)) normalized)) [
      | inl known ↦ rw known c
      | inr fresh ↦ rw fresh (record {
        each = All-snoc IsToken normalized (trim raw) (IsToken-trim raw good) c.each;
        apart = Apart-snoc eq_ignore_ascii_case normalized (trim raw) fresh c.apart;
      })
    ]

pub collect_tokens-IsCollected :
    (values normalized : List String) {tokens : List String}
    → IsCollected normalized
    → collect_tokens values normalized ≡ ok tokens
    → IsCollected tokens
unfolding collect_tokens
collect_tokens-IsCollected [] normalized {tokens} c h =
    subst IsCollected (ok-injective normalized tokens h) c
collect_tokens-IsCollected (raw ∷ values) normalized c h =
    let (good, rest) = collect_tokens-step raw values normalized h in
    collect_tokens-IsCollected values _ (IsCollected-insert raw normalized c good) rest

pub length-collect_tokens :
    (values normalized : List String) {tokens : List String}
    → collect_tokens values normalized ≡ ok tokens
    → length tokens ≤ length values + length normalized
unfolding collect_tokens
length-collect_tokens [] normalized {tokens} h =
    omega (arith, ap length (ok-injective normalized tokens h))
length-collect_tokens (raw ∷ values) normalized h =
    let (good, rest) = collect_tokens-step raw values normalized h in
    elim (Bool-cases (any (λ existing. eq_ignore_ascii_case existing (trim raw)) normalized)) [
      | inl known ↦ omega (arith, length-collect_tokens values normalized (rw known at rest))
      | inr fresh ↦ omega (
        arith,
        length-collect_tokens values (normalized ++ (trim raw ∷ [])) (rw fresh at rest),
        length-append normalized (trim raw ∷ []),
      )
    ]

-- What has been collected stays.
any-collect_tokens :
    (p : String → Bool) (values normalized : List String) {tokens : List String}
    → collect_tokens values normalized ≡ ok tokens
    → any p normalized ≡ true
    → any p tokens ≡ true
unfolding collect_tokens
any-collect_tokens p [] normalized {tokens} h k =
    subst (λ ts. any p ts ≡ true) (ok-injective normalized tokens h) k
any-collect_tokens p (raw ∷ values) normalized h k =
    let (good, rest) = collect_tokens-step raw values normalized h in
    any-collect_tokens p values _ rest
      (elim (Bool-cases (any (λ existing. eq_ignore_ascii_case existing (trim raw)) normalized)) [
        | inl known ↦ rw known k
        | inr fresh ↦ rw fresh (any-append p normalized (trim raw ∷ []) ∙ rw k refl)
      ])

-- The token of a value is there, up to the case of its ASCII letters.
abbrev pub Represented : List String → String → Type 0
Represented tokens raw = any (λ t. eq_ignore_ascii_case t (trim raw)) tokens ≡ true

pub collect_tokens-Represented :
    (values normalized : List String) {tokens : List String}
    → collect_tokens values normalized ≡ ok tokens
    → All (Represented tokens) values
unfolding collect_tokens
collect_tokens-Represented [] normalized h = tt
collect_tokens-Represented (raw ∷ values) normalized h =
    let (good, rest) = collect_tokens-step raw values normalized h in
    let same = λ (t : String). eq_ignore_ascii_case t (trim raw) in
    (
      any-collect_tokens same values _ rest (elim (Bool-cases (any same normalized)) [
        | inl known ↦ rw known known
        | inr fresh ↦ rw fresh (
            any-append same normalized (trim raw ∷ [])
            ∙ ground (arith, eq_ignore_ascii_case_refl (trim raw)))
      ]),
      collect_tokens-Represented values _ rest,
    )

Apart-middle {ℓ} :
    {A : Type ℓ} (r : A → A → Bool) (xs : List A) (y : A) (ys : List A)
    → Apart r (xs ++ (y ∷ ys))
    → any (λ x. r x y) xs ≡ false
Apart-middle r [] y ys a = refl
Apart-middle r (x ∷ xs) y ys a =
    ground (arith, any-append (r x) xs (y ∷ ys), a.0, Apart-middle r xs y ys a.1)

is_invalid_token-IsToken : (value : String) → IsToken value → is_invalid_token value ≡ false
is_invalid_token-IsToken value t = ground (arith, t.not_blank, t.no_nul, t.within)

-- Tokens as they are stored pass the loop as they are.
pub collect_tokens-stored :
    (tokens normalized : List String)
    → All IsToken tokens
    → Apart eq_ignore_ascii_case (normalized ++ tokens)
    → collect_tokens tokens normalized ≡ ok (normalized ++ tokens)
unfolding collect_tokens
collect_tokens-stored [] normalized each apart = rw append-nil refl
collect_tokens-stored (t ∷ tokens) normalized each apart =
    rw
      (
        each.0.is_trimmed,
        Apart-middle eq_ignore_ascii_case normalized t tokens apart,
        is_invalid_token-IsToken t each.0,
      )
      (collect_tokens-stored tokens (normalized ++ (t ∷ [])) each.1
          (subst (Apart eq_ignore_ascii_case) (sym (append_assoc normalized (t ∷ []) tokens)) apart)
        ∙ ap ok (append_assoc normalized (t ∷ []) tokens))
