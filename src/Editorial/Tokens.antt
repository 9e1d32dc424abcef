-- ===== src/Editorial/Tokens.antt =====
-- The tags and uses of an asset: `normalize_tokens` of crates/reference-core/src/editorial.rs. Rust's
-- `to_lowercase`, which folds all of Unicode, is a parameter.
pub mod Loop
pub mod Normal
use reference_library.Common.{
  ℕ, String, Bool, List, [], ◌∷◌, ◌++◌, ◌||◌, ltb, if◌then◌else◌, length, any,
}
use reference_library.Common.Text.{char_count, is_empty, has_char, trim, eq_ignore_ascii_case}
use reference_library.Common.Sort.{sort_by}
use reference_library.Errors.{query_invalid}
use reference_library.Fallible.{Result, ok, err, ◌>>=◌}
use reference_library.Protocol.Limits.{max_asset_tokens, max_asset_token_chars}
use reference_library.Protocol.Patch.{StringListPatch}

-- The test that refuses a trimmed token.
abbrev pub is_invalid_token : String → Bool
is_invalid_token value =
    is_empty value || has_char 0 value || ltb max_asset_token_chars (char_count value)

-- The loop of `normalize_tokens` over the values that are left.
unfoldable pub collect_tokens : List String → List String → Result (List String)
collect_tokens [] normalized = ok normalized
collect_tokens (raw ∷ values) normalized =
    let value = trim raw in
    let known = any (λ existing. eq_ignore_ascii_case existing value) normalized in
    let rest = collect_tokens values (if known then normalized else normalized ++ (value ∷ [])) in
    if is_invalid_token value then err (query_invalid "editorial token is invalid") else rest

module _ (to_lowercase : String → String) where
  unfoldable pub normalize_tokens : List String → Result (List String)
  unfolding collect_tokens sort_by
  normalize_tokens values =
      if ltb max_asset_tokens (length values)
      then err (query_invalid "too many editorial tokens")
      else (do normalized ← collect_tokens values []; ok (sort_by to_lowercase normalized))

  unfoldable pub normalize_string_list_patch : StringListPatch → Result StringListPatch
  normalize_string_list_patch StringListPatch.unchanged = ok StringListPatch.unchanged
  normalize_string_list_patch (StringListPatch.set values) = do
    tokens ← normalize_tokens values
    ok (StringListPatch.set tokens)

unfoldable pub apply_string_list_patch : List String → StringListPatch → List String
apply_string_list_patch current StringListPatch.unchanged = current
apply_string_list_patch current (StringListPatch.set values) = values
