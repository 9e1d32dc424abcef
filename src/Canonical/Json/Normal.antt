-- ===== src/Canonical/Json/Normal.antt =====
-- On write_canonical_json and normalize_json of crates/reference-core/src/canonical.rs.
use reference_library.Common.{ℕ, String, List, [], ◌∷◌, map, ◌++◌, ◌≡◌, refl, sym, ap, ◌∙◌}
use reference_library.Common.Sort.{sort_by, sort_by_sorted, sort_by-IsSortedBy, sort_by-map}
use reference_library.Canonical.Json.{
  Value, null, bool, number, string, array, object, Values, no_values, value, Entries, no_entries,
  entry, separated, entry_key, written_entry, write_canonical_json, write_values, write_entries,
  entries_of, normalize_json, normalize_values, normalize_entries,
}

module _ {Number : Type 0} (number_bytes : Number → List ℕ) (string_bytes : String → List ℕ) where
  abbrev write : Value Number → List ℕ
  write = write_canonical_json number_bytes string_bytes

  abbrev written : String × Value Number → String × List ℕ
  written (key, v) = (key, write v)

  abbrev entries_written : Entries Number → List (String × List ℕ)
  entries_written = write_entries number_bytes string_bytes

  abbrev braced : List (String × List ℕ) → List ℕ
  braced pairs =
      b'{' ∷ (separated (map (written_entry number_bytes string_bytes) pairs) ++ (b'}' ∷ []))

  abbrev bracketed : List (List ℕ) → List ℕ
  bracketed items = b'[' ∷ (separated items ++ (b']' ∷ []))

  entries_written-entries_of :
      (pairs : List (String × Value Number))
      → entries_written (entries_of pairs) ≡ map written pairs
  unfolding write_canonical_json
  entries_written-entries_of [] = refl
  entries_written-entries_of (p ∷ ps) =
      ap (λ rest. written p ∷ rest) (entries_written-entries_of ps)

  sorted_again :
      (pairs : List (String × List ℕ))
      → sort_by entry_key (sort_by entry_key pairs) ≡ sort_by entry_key pairs
  sorted_again pairs = sort_by_sorted entry_key _ (sort_by-IsSortedBy entry_key pairs)

  -- What is in order already is written as what is put in order.
  in_order :
      (pairs : List (String × Value Number))
      → sort_by entry_key (entries_written (entries_of (sort_by entry_key pairs)))
        ≡ sort_by entry_key (map written pairs)
  in_order pairs =
      ap (sort_by entry_key) (
        entries_written-entries_of (sort_by entry_key pairs)
        ∙ sym (sort_by-map entry_key entry_key written (λ p. refl) pairs))
      ∙ sorted_again (map written pairs)

  mutual
    unfolding write_canonical_json normalize_json

    normal : (v : Value Number) → write (normalize_json v) ≡ write v
    normal null = refl
    normal (bool b) = refl
    normal (number n) = refl
    normal (string s) = refl
    normal (array vs) = ap bracketed (normal_values vs)
    normal (object es) =
        ap braced (in_order (normalize_entries es) ∙ ap (sort_by entry_key) (normal_entries es))

    normal_values :
        (vs : Values Number)
        → write_values number_bytes string_bytes (normalize_values vs)
          ≡ write_values number_bytes string_bytes vs
    normal_values no_values = refl
    normal_values (value v vs) = λ i. normal v i ∷ normal_values vs i

    normal_entries : (es : Entries Number) → map written (normalize_entries es) ≡ entries_written es
    normal_entries no_entries = refl
    normal_entries (entry key v es) = λ i. (key, normal v i) ∷ normal_entries es i

  -- Putting the keys of a JSON value in order does not change its canonical spelling.
  pub write_canonical_json-normalize_json : (v : Value Number) → write (normalize_json v) ≡ write v
  write_canonical_json-normalize_json v = normal v
