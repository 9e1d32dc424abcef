-- ===== src/Editorial/Collections/Stale.antt =====
-- On rename_collection of crates/reference-core/src/editorial.rs with an expected revision.
use reference_library.Common.{
  ℕ, ◌+◌, ◌≡◌, refl, String, Bool, true, ◌&&◌, some, List, [], ◌∷◌, ◌==◌, arith, Bool-cases,
  Option-cases, inl, inr, sym,
}
use reference_library.Common.Text.{trim}
use reference_library.Errors.{collection_not_found, collection_revision_conflict}
use reference_library.Fallible.{ok, err}
use reference_library.Protocol.Results.{CollectionSummary}
use reference_library.Database.{Db, CollectionRow, find_where, update_where}
use reference_library.Editorial.Collections.{
  normalize_collection_name, rename_collection, rename_row, is_collection, collection_by_id,
  validate_uuid, collection_summary_row,
}

pub find_where-holds {ℓ} :
    {A : Type ℓ} (q : A → Bool) (xs : List A) (a : A) → find_where q xs ≡ some a → q a ≡ true
find_where-holds q [] a h = cc
find_where-holds q (x ∷ xs) a h = elim (Bool-cases (q x)) [
  | inl hit ↦ let same : x ≡ a = ground arith in rw (sym same) hit
  | inr miss ↦ find_where-holds q xs a (ground arith)
]

-- The first row that has a key is still the first after an update that keeps keys.
pub find_where-update_where {ℓ} :
    {A : Type ℓ} (p q : A → Bool) (f : A → A) (xs : List A) (a : A)
    → ((x : A) → q (f x) ≡ q x)
    → find_where q xs ≡ some a
    → p a ≡ true
    → find_where q (update_where p f xs) ≡ some (f a)
find_where-update_where p q f [] a keeps h k = cc
find_where-update_where p q f (x ∷ xs) a keeps h k = elim (Bool-cases (q x)) [
  | inl hit ↦ let same : x ≡ a = ground arith in rw (same, k, keeps a) (rw (sym same, hit) refl)
  | inr miss ↦
      let rest = find_where-update_where p q f xs a keeps (ground arith) k in
      ground (arith, keeps x)
]

module _ (uuid_parses : String → Bool) (db : Db) (library_id collection_id : String) (expected : ℕ)
    (raw : String) (timestamp : ℕ) {made : CollectionSummary × ℕ × Db}
    (h : rename_collection uuid_parses db library_id collection_id expected raw timestamp
      ≡ ok made) where
  rename_collection-known : validate_uuid uuid_parses collection_id collection_not_found ≡ ok tt
  unfolding rename_collection
  rename_collection-known = ground arith

  rename_collection-summary : collection_by_id made.2 library_id collection_id ≡ ok made.0
  unfolding rename_collection
  rename_collection-summary = ground arith

  rename_collection-row :
      (c : CollectionRow) × (find_where (is_collection library_id collection_id) db.collections
        ≡ some c)
      × ((c.revision == expected) ≡ true)
  unfolding rename_collection
  rename_collection-row =
      elim (Option-cases (find_where (is_collection library_id collection_id) db.collections)) [
        | inl e ↦ ground (arith, e)
        | inr (c, e) ↦ (c, e, ground (arith, e))
      ]

  rename_collection-revision : made.0.revision ≡ expected + 1
  unfolding rename_collection collection_by_id collection_summary_row rename_row
  rename_collection-revision =
      let row = rename_collection-row in
      ground (
        arith,
        row.1,
        row.2,
        find_where-update_where
            (λ c. is_collection library_id collection_id c && c.revision == expected)
            (is_collection library_id collection_id) (rename_row (trim raw) timestamp)
            db.collections row.0 (λ c. refl) row.1
            (ground (
              arith,
              row.2,
              find_where-holds (is_collection library_id collection_id) db.collections row.0 row.1,
            )),
      )

  -- After a successful rename, a rename with a valid name that expects the same revision is
  -- refused with a revision conflict that names the expected revision and the next one.
  pub rename_collection-stale :
      (other : String) (later : ℕ) {name : String}
      → normalize_collection_name other ≡ ok name
      → rename_collection uuid_parses made.2 library_id collection_id expected other later
        ≡ err (collection_revision_conflict expected (expected + 1))
  unfolding rename_collection
  rename_collection-stale other later k =
      ground (arith, rename_collection-known, rename_collection-summary, rename_collection-revision)
