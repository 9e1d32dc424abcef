-- ===== src/Editorial/TextPatches.antt =====
-- The text patches of crates/reference-core/src/editorial.rs.
use reference_library.Common.{
  ℕ, String, Bool, true, false, Option, none, some, ◌≡◌, ◌||◌, ◌≤◌, arith, ltb, if◌then◌else◌,
}
use reference_library.Common.Text.{
  char_count, is_empty, has_char, trim, char_count-trim-le, has_char-trim, trim_idem,
}
use reference_library.Errors.{query_invalid}
use reference_library.Fallible.{Result, ok, err}
use reference_library.Protocol.Patch.{TextPatch}

unfoldable pub normalize_text_patch : TextPatch → ℕ → Bool → Result TextPatch
normalize_text_patch (TextPatch.set value) max_chars trim_nonblank =
    if has_char 0 value || ltb max_chars (char_count value)
    then err (query_invalid "editorial text is invalid")
    else if is_empty (trim value)
    then ok TextPatch.clear
    else if trim_nonblank
    then ok (TextPatch.set (trim value))
    else ok (TextPatch.set value)
normalize_text_patch TextPatch.clear max_chars trim_nonblank = ok TextPatch.clear
normalize_text_patch TextPatch.unchanged max_chars trim_nonblank = ok TextPatch.unchanged

unfoldable pub apply_patch : Option String → TextPatch → Option String
apply_patch current TextPatch.unchanged = current
apply_patch current TextPatch.clear = none
apply_patch current (TextPatch.set value) = some value

-- A text that may be stored: within the limit, without NUL, not blank, and trimmed where asked.
pub record IsStorable (max_chars : ℕ) (trimmed : Bool) (value : String) : Type 0 where
  pub within : char_count value ≤ max_chars
  pub no_nul : has_char 0 value ≡ false
  pub not_blank : is_empty (trim value) ≡ false
  pub is_trimmed : trimmed ≡ true → trim value ≡ value

-- A text that a normalised patch sets is within the limit, free of NUL, not blank, and trimmed
-- where that is asked.
pub normalize_text_patch-IsStorable :
    (patch : TextPatch) (max_chars : ℕ) (trimmed : Bool) (value : String)
    → normalize_text_patch patch max_chars trimmed ≡ ok (TextPatch.set value)
    → IsStorable max_chars trimmed value
unfolding normalize_text_patch
normalize_text_patch-IsStorable (TextPatch.set v) max_chars true value h =
    ground (arith, char_count-trim-le v, has_char-trim 0 v, trim_idem v)
normalize_text_patch-IsStorable (TextPatch.set v) max_chars false value h = ground arith
normalize_text_patch-IsStorable TextPatch.clear max_chars trimmed value h = cc
normalize_text_patch-IsStorable TextPatch.unchanged max_chars trimmed value h = cc
