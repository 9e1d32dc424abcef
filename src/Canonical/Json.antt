-- ===== src/Canonical/Json.antt =====
-- The canonical spelling of a JSON value: `write_canonical_json` and `normalize_json` of
-- crates/reference-core/src/canonical.rs. `serde_json::Value` is rebuilt with its constructors; how
-- a number and a string are spelled is serde_json's, a parameter, as its numbers are.
pub mod Normal
use reference_library.Common.{
  ℕ, String, Bool, true, false, List, [], ◌∷◌, ◌++◌, map, ◌≡◌, refl, if◌then◌else◌,
}
use reference_library.Common.Sort.{sort_by}

mutual
  pub data Value (Number : Type 0) : Type 0 where
    null : Value Number
    bool : Bool → Value Number
    number : Number → Value Number
    string : String → Value Number
    array : Values Number → Value Number
    object : Entries Number → Value Number

  pub data Values (Number : Type 0) : Type 0 where
    no_values : Values Number
    value : Value Number → Values Number → Values Number

  -- The entries of a map; a key occurs once.
  pub data Entries (Number : Type 0) : Type 0 where
    no_entries : Entries Number
    entry : String → Value Number → Entries Number → Entries Number

-- The items with a comma between each two.
abbrev pub separated : List (List ℕ) → List ℕ
separated [] = []
separated (x ∷ []) = x
separated (x ∷ (y ∷ xs)) = x ++ (b',' ∷ separated (y ∷ xs))

abbrev pub entry_key {ℓ} : {A : Type ℓ} → String × A → String
entry_key pair = pair.0

module _ {Number : Type 0} (number_bytes : Number → List ℕ) (string_bytes : String → List ℕ) where
  abbrev pub written_entry : String × List ℕ → List ℕ
  written_entry (key, bytes) = string_bytes key ++ (b':' ∷ bytes)

  -- A value under its key is written before the keys are put in order.
  unfoldable mutual
    unfolding sort_by

    pub write_canonical_json : Value Number → List ℕ
    write_canonical_json null = b'n' ∷ b'u' ∷ b'l' ∷ b'l' ∷ []
    write_canonical_json (bool true) = b't' ∷ b'r' ∷ b'u' ∷ b'e' ∷ []
    write_canonical_json (bool false) = b'f' ∷ b'a' ∷ b'l' ∷ b's' ∷ b'e' ∷ []
    write_canonical_json (number n) = number_bytes n
    write_canonical_json (string s) = string_bytes s
    write_canonical_json (array values) = b'[' ∷ (separated (write_values values) ++ (b']' ∷ []))
    write_canonical_json (object entries) =
        b'{'
        ∷ (separated (map written_entry (sort_by entry_key (write_entries entries))) ++ (b'}' ∷ []))

    pub write_values : Values Number → List (List ℕ)
    write_values no_values = []
    write_values (value v vs) = write_canonical_json v ∷ write_values vs

    pub write_entries : Entries Number → List (String × List ℕ)
    write_entries no_entries = []
    write_entries (entry key v rest) = (key, write_canonical_json v) ∷ write_entries rest

-- The map that holds the entries, in this order.
abbrev pub entries_of : {Number : Type 0} → List (String × Value Number) → Entries Number
entries_of [] = no_entries
entries_of ((key, v) ∷ rest) = entry key v (entries_of rest)

module _ {Number : Type 0} where
  unfoldable mutual
    unfolding sort_by

    pub normalize_json : Value Number → Value Number
    normalize_json null = null
    normalize_json (bool b) = bool b
    normalize_json (number n) = number n
    normalize_json (string s) = string s
    normalize_json (array values) = array (normalize_values values)
    normalize_json (object entries) =
        object (entries_of (sort_by entry_key (normalize_entries entries)))

    pub normalize_values : Values Number → Values Number
    normalize_values no_values = no_values
    normalize_values (value v vs) = value (normalize_json v) (normalize_values vs)

    pub normalize_entries : Entries Number → List (String × Value Number)
    normalize_entries no_entries = []
    normalize_entries (entry key v rest) = (key, normalize_json v) ∷ normalize_entries rest
