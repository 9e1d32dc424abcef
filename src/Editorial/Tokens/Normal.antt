-- ===== src/Editorial/Tokens/Normal.antt =====
-- On the normal form of tokens in normalize_tokens, crates/reference-core/src/editorial.rs.
use reference_library.Common.{
  ◌≤◌, ◌≡◌, ◌∙◌, refl, subst, String, false, List, [], ltb, length, All, All-mono, Apart, arith,
  Bool-cases, inl, inr,
}
use reference_library.Common.Text.{trim, eq_ignore_ascii_case, eq_ignore_ascii_case_sym}
use reference_library.Common.Sort.{
  sort_by, IsSortedBy, sort_by-IsSortedBy, sort_by-Apart, length-sort_by, All-sort_by, any-sort_by,
  sort_by_sorted,
}
use reference_library.Fallible.{ok, >>=-eq-ok, ok-injective}
use reference_library.Protocol.Limits.{max_asset_tokens}
use reference_library.Editorial.Tokens.{collect_tokens, normalize_tokens}
use reference_library.Editorial.Tokens.Loop.{
  IsToken, IsCollected, Represented, collect_tokens-IsCollected, length-collect_tokens,
  collect_tokens-Represented, collect_tokens-stored,
}

module _ (to_lowercase : String → String) where
  -- The tokens of an asset: within the count, each of them trimmed, not blank, free of NUL and within
  -- its length, no two of them equal up to ASCII case, in the order of their lower-case forms.
  pub record IsNormal (tokens : List String) : Type 0 where
    pub count : length tokens ≤ max_asset_tokens
    pub each : All IsToken tokens
    pub apart : Apart eq_ignore_ascii_case tokens
    pub sorted : IsSortedBy to_lowercase tokens

  -- A call that succeeds has collected tokens and sorted them.
  normalize_tokens_inv :
      (values tokens : List String)
      → normalize_tokens to_lowercase values ≡ ok tokens
      → (length values ≤ max_asset_tokens)
        × ((collected : List String) × (collect_tokens values [] ≡ ok collected)
            × (sort_by to_lowercase collected ≡ tokens))
  unfolding normalize_tokens
  normalize_tokens_inv values tokens h = elim (Bool-cases (ltb max_asset_tokens (length values))) [
    | inl many ↦ cc (rw many at h)
    | inr few ↦
        let (collected, e, f) = >>=-eq-ok (collect_tokens values []) _ (rw few at h) in
        (ground arith, (collected, e, ok-injective _ tokens f))
  ]

  -- What the tokens of a client are normalised to is in normal form: within the count, each
  -- trimmed, not blank, free of NUL and within its length, no two equal up to ASCII case, in the
  -- order of their lower-case forms; and each value sent is represented in it.
  pub normalize_tokens-IsNormal :
      (values tokens : List String)
      → normalize_tokens to_lowercase values ≡ ok tokens
      → IsNormal tokens × All (Represented tokens) values
  normalize_tokens-IsNormal values tokens h =
      let (few, (collected, e, f)) = normalize_tokens_inv values tokens h in
      let kept : IsCollected collected =
        collect_tokens-IsCollected values [] (record { each = tt; apart = tt }) e in
      subst (λ ts. IsNormal ts × All (Represented ts) values) f
        (
          record {
            count =
                omega
                  (arith, length-sort_by to_lowercase collected, length-collect_tokens values [] e);
            each = All-sort_by to_lowercase IsToken collected kept.each;
            apart =
                sort_by-Apart to_lowercase eq_ignore_ascii_case eq_ignore_ascii_case_sym collected
                  kept.apart;
            sorted = sort_by-IsSortedBy to_lowercase collected;
          },
          All-mono (Represented collected) (Represented (sort_by to_lowercase collected))
              (λ raw r.
                any-sort_by to_lowercase (λ t. eq_ignore_ascii_case t (trim raw)) collected ∙ r)
              values (collect_tokens-Represented values [] e),
        )

  -- Tokens in normal form are normalised to themselves.
  normalize_tokens-stored :
      (tokens : List String) → IsNormal tokens → normalize_tokens to_lowercase tokens ≡ ok tokens
  unfolding normalize_tokens
  normalize_tokens-stored tokens n =
      let fits : ltb max_asset_tokens (length tokens) ≡ false = ground (arith, n.count) in
      rw
        (
          fits,
          collect_tokens-stored tokens [] n.each n.apart,
          sort_by_sorted to_lowercase tokens n.sorted,
        )
        refl
