-- ===== src/Editorial/Membership.antt =====
-- Assets in and out of a collection: `set_collection_membership` of
-- crates/reference-core/src/editorial.rs. A batch is one transaction.
pub mod Unique
pub mod Rows
pub mod Room
pub mod Batch
pub mod Repeat
use reference_library.Common.{
  ℕ, ◌+◌, String, Bool, true, false, not, List, [], ◌∷◌, ◌++◌, ◌&&◌, ◌||◌, str_eq, ltb, leb, ◌==◌,
  if◌then◌else◌, any, keep_if, length,
}
use reference_library.Common.Sort.{sort_by}
use reference_library.Errors.{
  CoreError, database, collection_not_found, collection_membership_invalid,
  asset_collection_limit_reached,
}
use reference_library.Fallible.{Result, ok, err, ◌>>=◌, ◌>>◌, reject_if}
use reference_library.Protocol.Limits.{max_collection_membership_batch, max_asset_collections}
use reference_library.Database.{Db, MembershipRow, bump_revision, update_where, count_where}
use reference_library.Editorial.Collections.{validate_uuid, collection_by_id}

-- `Vec::dedup` behind an item: equal neighbours are one.
unfoldable pub dedup_behind : String → List String → List String
dedup_behind last [] = []
dedup_behind last (x ∷ xs) =
    let rest = dedup_behind x xs in if str_eq last x then rest else x ∷ rest

unfoldable pub dedup : List String → List String
unfolding dedup_behind
dedup [] = []
dedup (x ∷ xs) = x ∷ dedup_behind x xs

-- `asset_ids.to_vec()`, `sort`, `dedup`
abbrev pub unique_ids : List String → List String
unique_ids ids = dedup (sort_by (λ id. id) ids)

unfoldable pub validate_ids : (String → Bool) → List String → Result (Unit {0})
validate_ids uuid_parses [] = ok tt
validate_ids uuid_parses (id ∷ ids) = do
  validate_uuid uuid_parses id (collection_membership_invalid "invalid Asset ID")
  validate_ids uuid_parses ids

abbrev pub asset_exists : Db → String → String → Bool
asset_exists db library_id id =
    any (λ a. str_eq a.id id && str_eq a.library_id library_id) db.assets

unfoldable pub require_assets : Db → String → List String → Result (Unit {0})
require_assets db library_id [] = ok tt
require_assets db library_id (id ∷ ids) = do
  reject_if (not (asset_exists db library_id id))
      (collection_membership_invalid "an Asset was not found")
  require_assets db library_id ids

abbrev pub is_row : String → String → MembershipRow → Bool
is_row collection_id asset_id m = str_eq m.collection_id collection_id && str_eq m.asset_id asset_id

abbrev pub is_member : List MembershipRow → String → String → Bool
is_member rows collection_id asset_id = any (is_row collection_id asset_id) rows

-- `SELECT COUNT(*) FROM collection_assets WHERE asset_id = …`
abbrev pub memberships_of : List MembershipRow → String → ℕ
memberships_of rows asset_id = count_where (λ m. str_eq m.asset_id asset_id) rows

unfoldable pub require_room : List MembershipRow → String → List String → Result (Unit {0})
require_room rows collection_id [] = ok tt
require_room rows collection_id (id ∷ ids) = do
  reject_if
      (not (is_member rows collection_id id) && leb max_asset_collections (memberships_of rows id))
      asset_collection_limit_reached
  require_room rows collection_id ids

abbrev pub membership : String → String → ℕ → MembershipRow
membership collection_id asset_id timestamp = record {
  collection_id = collection_id;
  asset_id = asset_id;
  added_at_ms = timestamp;
}

-- The loop of the statements: `INSERT OR IGNORE` or `DELETE`, each with the rows it changed.
unfoldable pub apply_members :
    (member : Bool) (collection_id : String)
    → ℕ
    → List String
    → List MembershipRow
    → ℕ × List MembershipRow
apply_members member collection_id timestamp [] rows = (0, rows)
apply_members true collection_id timestamp (id ∷ ids) rows =
    let known = is_member rows collection_id id in
    let rest =
      apply_members true collection_id timestamp ids
        (if known then rows else rows ++ (membership collection_id id timestamp ∷ [])) in
    ((if known then 0 else 1) + rest.0, rest.1)
apply_members false collection_id timestamp (id ∷ ids) rows =
    let rest =
      apply_members false collection_id timestamp ids
        (keep_if (λ m. not (is_row collection_id id m)) rows) in
    (count_where (is_row collection_id id) rows + rest.0, rest.1)

-- The end of the transaction: both revisions move where a row changed, and neither does otherwise.
unfoldable pub settle_revision :
    Db → (library_id collection_id : String) → ℕ → ℕ → Result (ℕ × ℕ × Db)
unfolding bump_revision
settle_revision db library_id collection_id timestamp affected =
    let touched = record db {
      collections =
          update_where (λ c. str_eq c.id collection_id)
            (λ c. record c { revision = c.revision + 1; updated_at_ms = timestamp }) db.collections;
    } in
    let bumped = bump_revision timestamp touched in
    if ltb 0 affected
    then ok (affected, bumped.library_meta.library_revision, bumped)
    else if str_eq db.library_meta.id library_id
    then ok (affected, db.library_meta.library_revision, db)
    else err (database "Query returned no rows")

unfoldable pub set_collection_membership :
    (String → Bool)
    → Db
    → (library_id collection_id : String) → List String
    → (member : Bool) → (timestamp : ℕ) → Result (ℕ × ℕ × Db)
unfolding validate_uuid collection_by_id
set_collection_membership uuid_parses db library_id collection_id asset_ids member timestamp = do
  validate_uuid uuid_parses collection_id collection_not_found
  reject_if (length asset_ids == 0 || ltb max_collection_membership_batch (length asset_ids))
      (collection_membership_invalid "assetIds must contain between 1 and 250 IDs")
  let unique = unique_ids asset_ids
  reject_if (not (length unique == length asset_ids))
      (collection_membership_invalid "assetIds must not contain duplicates")
  validate_ids uuid_parses unique
  found ← collection_by_id db library_id collection_id
  require_assets db library_id unique
  (if member then require_room db.collection_assets collection_id unique else ok tt)
  let applied = apply_members member collection_id timestamp unique db.collection_assets
  settle_revision (record db { collection_assets = applied.1 }) library_id collection_id timestamp
      applied.0
