-- ===== src/Editorial/Collections.antt =====
-- The collections of crates/reference-core/src/editorial.rs. A call returns its result with the new
-- tables; where it fails its transaction is dropped, and the tables are those before it.
-- `uuid_parses` stands for `Uuid::parse_str(..).is_ok()`; a new identifier and the time are arguments.
pub mod Names
pub mod Rows
pub mod Stale
use reference_library.Common.{
  ℕ, ◌+◌, String, Bool, true, false, not, Option, none, some, List, [], ◌∷◌, ◌++◌, ◌&&◌, ◌||◌,
  str_eq, ltb, leb, ◌==◌, if◌then◌else◌, any, keep_if, length,
}
use reference_library.Common.Text.{
  char_count, is_empty, has_char, trim, eq_ignore_ascii_case, has_dot_dot,
}
use reference_library.Errors.{
  CoreError, database, collection_not_found, collection_name_conflict, collection_revision_conflict,
  collection_membership_invalid, collection_limit_reached,
}
use reference_library.Fallible.{Result, ok, err, ◌>>=◌, ◌>>◌, reject_if, ok_or}
use reference_library.Protocol.Limits.{max_collection_name_chars, max_collections}
use reference_library.Protocol.Results.{CollectionSummary}
use reference_library.Database.{
  Db, CollectionRow, MembershipRow, bump_revision, update_where, count_where, find_where,
}

-- `validate_uuid`
unfoldable pub validate_uuid : (String → Bool) → String → CoreError → Result (Unit {0})
validate_uuid uuid_parses value error = do
  reject_if
      (has_char b'/' value || has_char b'\\' value || has_dot_dot value || has_char b':' value)
      error
  reject_if (not (uuid_parses value)) error

unfoldable pub normalize_collection_name : String → Result String
normalize_collection_name raw =
    let name = trim raw in
    if is_empty name || has_char 0 name || ltb max_collection_name_chars (char_count name)
    then err (collection_membership_invalid "Collection name is invalid")
    else ok name

-- `lower(name) = lower(?2) AND (?3 IS NULL OR id <> ?3)` within a Library.
abbrev pub is_other : Option String → String → Bool
is_other none id = true
is_other (some except) id = not (str_eq id except)

abbrev pub conflicts : String → Option String → String → CollectionRow → Bool
conflicts library_id except_id name c =
    str_eq c.library_id library_id && eq_ignore_ascii_case c.name name && is_other except_id c.id

unfoldable pub ensure_collection_name_available :
    Db → String → Option String → String → Result (Unit {0})
ensure_collection_name_available db library_id except_id name =
    reject_if (any (conflicts library_id except_id name) db.collections) collection_name_conflict

-- The key of `UPDATE`, `DELETE` and `SELECT … WHERE id = ?1 AND library_id = ?2`.
abbrev pub is_collection : String → String → CollectionRow → Bool
is_collection library_id id c = str_eq c.id id && str_eq c.library_id library_id

-- `collection_summary_row` over the join with the memberships.
unfoldable pub collection_summary_row : Db → CollectionRow → CollectionSummary
collection_summary_row db c = record {
  collection_id = c.id;
  name = c.name;
  asset_count = count_where (λ m. str_eq m.collection_id c.id) db.collection_assets;
  revision = c.revision;
}

unfoldable pub collection_by_id : Db → String → String → Result CollectionSummary
unfolding collection_summary_row
collection_by_id db library_id collection_id = do
  row ←
      ok_or (find_where (is_collection library_id collection_id) db.collections)
        collection_not_found
  ok (collection_summary_row db row)

-- `INSERT INTO collections`: PRIMARY KEY(id), UNIQUE(library_id, name).
unfoldable pub insert_collection : CollectionRow → Db → Result Db
insert_collection row db =
    if any
      (λ c. str_eq c.id row.id || (str_eq c.library_id row.library_id && str_eq c.name row.name))
      db.collections
    then err (database "UNIQUE constraint failed")
    else ok (record db { collections = db.collections ++ (row ∷ []) })

unfoldable pub create_collection :
    Db → (library_id name id : String) → (timestamp : ℕ) → Result (CollectionSummary × ℕ × Db)
unfolding normalize_collection_name ensure_collection_name_available insert_collection
    collection_by_id
create_collection db library_id raw id timestamp = do
  name ← normalize_collection_name raw
  ensure_collection_name_available db library_id none name
  reject_if (leb max_collections (count_where (λ c. str_eq c.library_id library_id) db.collections))
      collection_limit_reached
  inserted ←
      insert_collection
        (record {
          id = id;
          library_id = library_id;
          name = name;
          revision = 0;
          created_at_ms = timestamp;
          updated_at_ms = timestamp;
        })
        db
  let bumped = bump_revision timestamp inserted
  collection ← collection_by_id bumped library_id id
  ok (collection, bumped.library_meta.library_revision, bumped)

-- `UPDATE collections SET name = …, revision = revision + 1 … WHERE … AND revision = ?5`
unfoldable pub rename_row : String → ℕ → CollectionRow → CollectionRow
rename_row name timestamp c = record c {
  name = name;
  revision = c.revision + 1;
  updated_at_ms = timestamp;
}

unfoldable pub rename_collection :
    (String → Bool)
    → Db
    → (library_id collection_id : String) → (expected_revision : ℕ) → (name : String)
    → (timestamp : ℕ) → Result (CollectionSummary × ℕ × Db)
unfolding validate_uuid normalize_collection_name collection_by_id ensure_collection_name_available
    rename_row bump_revision
rename_collection uuid_parses db library_id collection_id expected_revision raw timestamp = do
  validate_uuid uuid_parses collection_id collection_not_found
  name ← normalize_collection_name raw
  existing ← collection_by_id db library_id collection_id
  reject_if (not (existing.revision == expected_revision))
      (collection_revision_conflict expected_revision existing.revision)
  ensure_collection_name_available db library_id (some collection_id) name
  let renamed = record db {
    collections =
        update_where
          (λ c. is_collection library_id collection_id c && c.revision == expected_revision)
          (rename_row name timestamp) db.collections;
  }
  let bumped = bump_revision timestamp renamed
  collection ← collection_by_id bumped library_id collection_id
  ok (collection, bumped.library_meta.library_revision, bumped)

-- `DELETE FROM collections`; `ON DELETE CASCADE` takes the memberships along.
unfoldable pub delete_rows : String → String → Db → Db
delete_rows library_id collection_id db = record db {
  collections = keep_if (λ c. not (is_collection library_id collection_id c)) db.collections;
  collection_assets =
      keep_if (λ m. not (str_eq m.collection_id collection_id)) db.collection_assets;
}

unfoldable pub delete_collection :
    (String → Bool) → Db → (library_id collection_id : String) → (timestamp : ℕ) → Result (ℕ × Db)
unfolding validate_uuid delete_rows bump_revision
delete_collection uuid_parses db library_id collection_id timestamp = do
  validate_uuid uuid_parses collection_id collection_not_found
  reject_if (not (any (is_collection library_id collection_id) db.collections)) collection_not_found
  let bumped = bump_revision timestamp (delete_rows library_id collection_id db)
  ok (bumped.library_meta.library_revision, bumped)
