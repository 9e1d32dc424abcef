-- ===== src/Editorial/Search.antt =====
-- What a query may ask, and the search text as a LIKE pattern: `validate_query` and `escape_like` of
-- crates/reference-core/src/editorial.rs.
pub mod Like
use Prim.Native.Char.{Char, code}
use Prim.Native.String.{[] as empty, ◌∷◌ as char_first, ◌++◌ as ◌<>◌}
use reference_library.Common.{
  ℕ, ◌+◌, ◌≤◌, ◌≡◌, refl, String, Bool, true, false, not, Option, none, some, List, [], ◌∷◌, ◌&&◌,
  ◌||◌, str_eq, ltb, ◌==◌, if◌then◌else◌, any, length, arith,
}
use reference_library.Common.Text.{char_count, is_empty, has_char}
use reference_library.Errors.{root_not_found, query_invalid}
use reference_library.Fallible.{Result, ok, ◌>>◌, reject_if}
use reference_library.Protocol.Limits.{max_search_chars, max_asset_query_values}
use reference_library.Protocol.Patch.{AssetQuery}
use reference_library.Database.{Db}
use reference_library.Editorial.Collections.{validate_uuid}

-- `replace(c, "\\c")` for one character, given by its code point.
unfoldable pub escape_char : ℕ → String → String
escape_char k empty = empty
escape_char k (char_first c s) =
    let rest = escape_char k s in
    if code c == k then char_first "\\" (char_first c rest) else char_first c rest

unfoldable pub escape_like : String → String
unfolding escape_char
escape_like value = escape_char b'_' (escape_char b'%' (escape_char b'\\' value))

-- `format!("%{}%", escape_like(search))`
unfoldable pub search_pattern : (search : String) → String
unfolding escape_like
search_pattern search = "%" <> (escape_like search <> "%")

-- The lists of a query.
abbrev pub is_invalid_filter : List String → Bool
is_invalid_filter values =
    ltb max_asset_query_values (length values)
    || any (λ value. is_empty value || has_char 0 value || ltb 1024 (char_count value)) values

abbrev is_invalid_search : Option String → Bool
is_invalid_search none = false
is_invalid_search (some search) = ltb max_search_chars (char_count search) || has_char 0 search

unfoldable pub validate_root : (String → Bool) → Db → String → String → Result (Unit {0})
unfolding validate_uuid
validate_root uuid_parses db library_id root_id = do
  validate_uuid uuid_parses root_id root_not_found
  reject_if (not (any (λ r. str_eq r.id root_id && str_eq r.library_id library_id) db.roots))
      root_not_found

-- `if let Some(root_id) = &query.root_id`
unfoldable pub validate_query_root :
    (String → Bool) → Db → String → Option String → Result (Unit {0})
unfolding validate_root
validate_query_root uuid_parses db library_id none = ok tt
validate_query_root uuid_parses db library_id (some root_id) =
    validate_root uuid_parses db library_id root_id

unfoldable pub validate_query : (String → Bool) → Db → String → AssetQuery → Result (Unit {0})
unfolding validate_query_root
validate_query uuid_parses db library_id query = do
  reject_if (is_invalid_search query.search) (query_invalid "search text is invalid")
  reject_if (ltb 4 (length query.review_states) || ltb 7 (length query.availability))
      (query_invalid "filter list is too large")
  reject_if
      (any is_invalid_filter (
        query.categories ∷ query.extensions ∷ query.media_families ∷ query.tags ∷ query.used_in
        ∷ []))
      (query_invalid "facet filter is invalid")
  validate_query_root uuid_parses db library_id query.root_id

-- The values that an accepted query binds: 8 more are the fixed ones of the statement.
abbrev pub bound_values : AssetQuery → ℕ
bound_values query =
    length query.review_states
    + length query.availability
    + length query.categories
    + length query.extensions
    + length query.media_families
    + length query.tags
    + length query.used_in

-- A query that is accepted has at most 651 values in its filter lists.
validate_query-bound :
    (uuid_parses : String → Bool) (db : Db) (library_id : String) (query : AssetQuery)
    → validate_query uuid_parses db library_id query ≡ ok tt
    → bound_values query ≤ 651
unfolding validate_query
validate_query-bound uuid_parses db library_id query h = ground (arith, h)
