-- ===== src/Editorial/Collections/Names.antt =====
-- On create_collection, rename_collection and delete_collection of
-- crates/reference-core/src/editorial.rs: the well-formed collection rows of a Library.
use reference_library.Common.{
  ℕ, ◌≤◌, ◌≡◌, String, Bool, false, not, ◌&&◌, ◌||◌, none, some, [], ◌∷◌, ◌++◌, str_eq, eq_refl,
  leb, any, keep_if, length, Apart, Apart-snoc, any-false, arith,
}
use reference_library.Common.Text.{trim}
use reference_library.Fallible.{ok}
use reference_library.Protocol.Limits.{max_collections}
use reference_library.Protocol.Results.{CollectionSummary}
use reference_library.Database.{Db, CollectionRow, bump_revision}
use reference_library.Editorial.Collections.{
  conflicts, create_collection, rename_collection, delete_collection, is_collection, delete_rows,
}
use reference_library.Editorial.Collections.Rows.{
  same_id, same_name, in_library, renamed, renamed-same_id, renamed-same_name, keep_if-Apart,
  count-keep_if-le, count-renamed, count-append,
}

pub record IsValid (library_id : String) (db : Db) : Type 0 where
  pub ids : Apart same_id db.collections
  pub names : Apart same_name db.collections
  pub bounded : length (keep_if (in_library library_id) db.collections) ≤ max_collections

abbrev new_row : (library_id name id : String) → (timestamp : ℕ) → CollectionRow
new_row library_id name id timestamp = record {
  id = id;
  library_id = library_id;
  name = name;
  revision = 0;
  created_at_ms = timestamp;
  updated_at_ms = timestamp;
}

-- What a call that creates a collection has checked, and what it leaves.
module _ (db : Db) (library_id raw id : String) (timestamp : ℕ) {made : CollectionSummary × ℕ × Db}
    (h : create_collection db library_id raw id timestamp ≡ ok made) where
  create_collection-free : any (conflicts library_id none (trim raw)) db.collections ≡ false
  unfolding create_collection
  create_collection-free = ground arith

  create_collection-room :
      leb max_collections (length (keep_if (in_library library_id) db.collections)) ≡ false
  unfolding create_collection
  create_collection-room = ground arith

  create_collection-tables :
      made.2
      ≡ bump_revision timestamp (record db {
        collections = db.collections ++ (new_row library_id (trim raw) id timestamp ∷ []);
      })
  unfolding create_collection
  create_collection-tables = ground arith

  create_collection-fresh : any (λ c. str_eq c.id id) db.collections ≡ false
  unfolding create_collection
  create_collection-fresh =
      any-false
        (λ c. str_eq c.id id || (str_eq c.library_id library_id && str_eq c.name (trim raw)))
        (λ c. str_eq c.id id || (str_eq c.library_id library_id && str_eq c.name (trim raw)))
        (λ c. str_eq c.id id) db.collections (ground arith) (ground arith)
        (λ c p q. ground (arith, p))

  -- A successful creation keeps the collections well formed: identifiers are keys, names in one
  -- Library differ up to ASCII case, and the Library has at most 512.
  pub create_collection-IsValid : IsValid library_id db → IsValid library_id made.2
  unfolding bump_revision
  create_collection-IsValid valid = rw create_collection-tables (record {
    ids =
        Apart-snoc same_id db.collections (new_row library_id (trim raw) id timestamp)
          create_collection-fresh valid.ids;
    names =
        Apart-snoc same_name db.collections (new_row library_id (trim raw) id timestamp)
          (any-false (conflicts library_id none (trim raw)) (conflicts library_id none (trim raw))
            (λ c. same_name c (new_row library_id (trim raw) id timestamp)) db.collections
            create_collection-free create_collection-free (λ c p q. ground (arith, p)))
          valid.names;
    bounded = ground (
      arith,
      create_collection-room,
      eq_refl library_id,
      count-append (in_library library_id) db.collections
          (new_row library_id (trim raw) id timestamp ∷ []),
    );
  })

module _ (uuid_parses : String → Bool) (db : Db) (library_id collection_id : String) (expected : ℕ)
    (raw : String) (timestamp : ℕ) {made : CollectionSummary × ℕ × Db}
    (h : rename_collection uuid_parses db library_id collection_id expected raw timestamp
      ≡ ok made) where
  rename_collection-free :
      any (conflicts library_id (some collection_id) (trim raw)) db.collections ≡ false
  unfolding rename_collection
  rename_collection-free = ground arith

  rename_collection-tables :
      made.2
      ≡ bump_revision timestamp (record db {
        collections = renamed library_id collection_id expected (trim raw) timestamp db.collections;
      })
  unfolding rename_collection
  rename_collection-tables = ground arith

  -- A successful rename keeps the collections well formed.
  rename_collection-IsValid : IsValid library_id db → IsValid library_id made.2
  unfolding bump_revision
  rename_collection-IsValid valid = rw rename_collection-tables (record {
    ids =
        renamed-same_id library_id collection_id expected (trim raw) timestamp db.collections
          valid.ids;
    names =
        renamed-same_name library_id collection_id expected (trim raw) timestamp db.collections
          rename_collection-free valid.ids valid.names;
    bounded = ground (
      arith,
      valid.bounded,
      count-renamed library_id collection_id expected (trim raw) timestamp library_id
          db.collections,
    );
  })

module _ (uuid_parses : String → Bool) (db : Db) (library_id collection_id : String) (timestamp : ℕ)
    {made : ℕ × Db}
    (h : delete_collection uuid_parses db library_id collection_id timestamp ≡ ok made) where
  delete_collection-tables :
      made.1 ≡ bump_revision timestamp (delete_rows library_id collection_id db)
  unfolding delete_collection
  delete_collection-tables = ground arith

  -- A successful deletion keeps the collections well formed.
  delete_collection-IsValid : IsValid library_id db → IsValid library_id made.1
  unfolding bump_revision delete_rows
  delete_collection-IsValid valid = rw delete_collection-tables (record {
    ids =
        keep_if-Apart (λ c. not (is_collection library_id collection_id c)) same_id db.collections
          valid.ids;
    names =
        keep_if-Apart (λ c. not (is_collection library_id collection_id c)) same_name db.collections
          valid.names;
    bounded = ground (
      arith,
      valid.bounded,
      count-keep_if-le (λ c. not (is_collection library_id collection_id c)) (in_library library_id)
          db.collections,
    );
  })
