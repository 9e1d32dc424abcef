-- ===== src/Editorial/Assets/Stored.antt =====
-- On the columns that update_asset of crates/reference-core/src/editorial.rs stores.
use reference_library.Common.{
  ℕ, ◌≡◌, sym, String, Bool, true, false, Option, none, some, List, [], ◌∷◌, All, Bool-cases, inl,
  inr, ◌&&◌, ◌==◌, arith,
}
use reference_library.Fallible.{ok, >>=-eq-ok, ok-injective}
use reference_library.Protocol.Limits.{max_title_chars, max_note_chars}
use reference_library.Protocol.Patch.{AssetPatch, TextPatch, StringListPatch}
use reference_library.Protocol.Results.{AssetDetail}
use reference_library.Database.{Db, AssetRow, update_where, bump_revision}
use reference_library.Editorial.TextPatches.{
  normalize_text_patch, apply_patch, IsStorable, normalize_text_patch-IsStorable,
}
use reference_library.Editorial.Tokens.{
  normalize_string_list_patch, normalize_tokens, apply_string_list_patch,
}
use reference_library.Editorial.Tokens.Normal.{IsNormal, normalize_tokens-IsNormal}
use reference_library.Editorial.Assets.{patched_row, is_asset, normalize_patch, update_asset}
use reference_library.Editorial.Assets.Stale.{update_asset-patch, update_asset-tables}

-- A text column: empty, or a text that may be stored.
abbrev pub Column : ℕ → Bool → Option String → Type 0
Column max_chars trimmed none = Unit
Column max_chars trimmed (some value) = IsStorable max_chars trimmed value

pub record IsStored (to_lowercase : String → String) (row : AssetRow) : Type 0 where
  pub title : Column max_title_chars true row.custom_title
  pub note : Column max_note_chars false row.note
  pub tags : IsNormal to_lowercase row.tags
  pub used_in : IsNormal to_lowercase row.used_in

apply_patch-Column :
    (current : Option String) (sent patch : TextPatch) (max_chars : ℕ) (trimmed : Bool)
    → normalize_text_patch sent max_chars trimmed ≡ ok patch
    → Column max_chars trimmed current
    → Column max_chars trimmed (apply_patch current patch)
unfolding apply_patch
apply_patch-Column current sent TextPatch.unchanged max_chars trimmed h c = c
apply_patch-Column current sent TextPatch.clear max_chars trimmed h c = tt
apply_patch-Column current sent (TextPatch.set value) max_chars trimmed h c =
    normalize_text_patch-IsStorable sent max_chars trimmed value h

module _ (to_lowercase : String → String) where
  apply_string_list_patch-IsNormal :
      (current : List String) (sent patch : StringListPatch)
      → normalize_string_list_patch to_lowercase sent ≡ ok patch
      → IsNormal to_lowercase current
      → IsNormal to_lowercase (apply_string_list_patch current patch)
  unfolding apply_string_list_patch normalize_string_list_patch
  apply_string_list_patch-IsNormal current sent StringListPatch.unchanged h c = c
  apply_string_list_patch-IsNormal current StringListPatch.unchanged (StringListPatch.set values) h
        c =
      cc
  apply_string_list_patch-IsNormal current (StringListPatch.set sent) (StringListPatch.set values) h
        c =
      let (tokens, e, f) = >>=-eq-ok (normalize_tokens to_lowercase sent) _ h in
      let same : tokens ≡ values = ground (arith, f) in
      rw (sym same) (normalize_tokens-IsNormal to_lowercase sent tokens e).0

  patched_row-IsStored :
      (row : AssetRow) (sent patch : AssetPatch) (timestamp : ℕ)
      → normalize_patch to_lowercase sent ≡ ok patch
      → IsStored to_lowercase row
      → IsStored to_lowercase (patched_row row patch timestamp)
  unfolding patched_row normalize_patch
  patched_row-IsStored row sent patch timestamp h stored =
      let (title, e1, h1) =
        >>=-eq-ok (normalize_text_patch sent.custom_title max_title_chars true) _ h in
      let (note, e2, h2) = >>=-eq-ok (normalize_text_patch sent.note max_note_chars false) _ h1 in
      let (tags, e3, h3) = >>=-eq-ok (normalize_string_list_patch to_lowercase sent.tags) _ h2 in
      let (used_in, e4, h4) =
        >>=-eq-ok (normalize_string_list_patch to_lowercase sent.used_in) _ h3 in
      let made = ok-injective _ patch h4 in
      rw (sym made) (record {
        title =
            apply_patch-Column row.custom_title sent.custom_title title max_title_chars true e1
              stored.title;
        note = apply_patch-Column row.note sent.note note max_note_chars false e2 stored.note;
        tags = apply_string_list_patch-IsNormal row.tags sent.tags tags e3 stored.tags;
        used_in =
            apply_string_list_patch-IsNormal row.used_in sent.used_in used_in e4 stored.used_in;
      })

All-update_where {ℓ κ} :
    {A : Type ℓ} (P : A → Type κ) (p : A → Bool) (f : A → A) (xs : List A)
    → ((x : A) → P x → P (f x))
    → All P xs
    → All P (update_where p f xs)
All-update_where P p f [] keeps h = tt
All-update_where P p f (x ∷ xs) keeps h = elim (Bool-cases (p x)) [
  | inl e ↦ rw e (keeps x h.0, All-update_where P p f xs keeps h.1)
  | inr e ↦ rw e (h.0, All-update_where P p f xs keeps h.1)
]

-- A successful update keeps every asset row in its stored form: title and note are empty or
-- storable, tags and uses are in normal form.
pub update_asset-IsStored :
    (uuid_parses : String → Bool) (to_lowercase : String → String)
    (file_name : String → Option String) (db : Db) (library_id asset_id : String) (expected : ℕ)
    (patch : AssetPatch) (timestamp : ℕ) (made : AssetDetail × ℕ × Db)
    → update_asset uuid_parses to_lowercase file_name db library_id asset_id expected patch
        timestamp
      ≡ ok made
    → All (IsStored to_lowercase) db.assets
    → All (IsStored to_lowercase) made.2.assets
unfolding bump_revision
update_asset-IsStored uuid_parses to_lowercase file_name db library_id asset_id expected patch
      timestamp made h stored =
    let found =
      update_asset-patch uuid_parses to_lowercase file_name db library_id asset_id expected patch
        timestamp h in
    rw
      (update_asset-tables uuid_parses to_lowercase file_name db library_id asset_id expected patch
        timestamp h)
      (All-update_where (IsStored to_lowercase)
        (λ a. is_asset library_id asset_id a && a.revision == expected)
        (λ a. patched_row a found.0 timestamp) db.assets
        (λ row s. patched_row-IsStored to_lowercase row patch found.0 timestamp found.1 s) stored)
