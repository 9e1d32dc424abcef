-- ===== src/Database.antt =====
-- The tables of a Library, migrations/*.sql, as lists of rows, and the statements that the modules
-- share. SQLite is another program: the model is of the statements that the source writes, run on
-- rows whose JSON columns are already decoded. An INTEGER column is a natural number.
use reference_library.Common.{
  ℕ, ◌+◌, String, Bool, Option, List, [], ◌∷◌, if◌then◌else◌, keep_if, length,
}

pub record Meta : Type 0 where
  pub id : String
  pub name : String
  pub library_revision : ℕ
  pub updated_at_ms : ℕ

pub record AssetRow : Type 0 where
  pub id : String
  pub library_id : String
  pub custom_title : Option String
  pub review_state : String
  pub note : Option String
  pub tags : List String
  pub used_in : List String
  pub revision : ℕ
  pub created_at_ms : ℕ
  pub updated_at_ms : ℕ

pub record CollectionRow : Type 0 where
  pub id : String
  pub library_id : String
  pub name : String
  pub revision : ℕ
  pub created_at_ms : ℕ
  pub updated_at_ms : ℕ

pub record MembershipRow : Type 0 where
  pub collection_id : String
  pub asset_id : String
  pub added_at_ms : ℕ

pub record RootRow : Type 0 where
  pub id : String
  pub library_id : String
  pub display_name : String
  pub root_kind : String
  pub last_known_display_path : Option String
  pub state : String
  pub scan_policy : String
  pub created_at_ms : ℕ
  pub updated_at_ms : ℕ
  pub last_seen_at_ms : Option ℕ

pub record JobRow : Type 0 where
  pub id : String
  pub library_id : String
  pub job_kind : String
  pub state : String
  pub observed_count : ℕ
  pub unsupported_count : ℕ
  pub error_code : Option String
  pub root_id : Option String
  pub created_at_ms : ℕ
  pub updated_at_ms : ℕ
  pub finished_at_ms : Option ℕ

pub record SourceRow : Type 0 where
  pub id : String
  pub library_id : String
  pub media_family : String
  pub current_revision_id : Option String
  pub lineage_state : String
  pub created_at_ms : ℕ
  pub updated_at_ms : ℕ

pub record SourceRevisionRow : Type 0 where
  pub id : String
  pub source_id : String
  pub byte_size : ℕ
  pub mtime_observed_ms : Option ℕ
  pub quick_fingerprint : Option String
  pub mime_detected : String
  pub extension_observed : Option String
  pub pixel_width : ℕ
  pub pixel_height : ℕ
  pub preview_kind : String
  pub grid_preview : Bool
  pub created_at_ms : ℕ

pub record LocationRow : Type 0 where
  pub id : String
  pub root_id : String
  pub source_id : String
  pub relative_path : List ℕ
  pub relative_path_display : String
  pub platform_file_id : Option (List ℕ)
  pub platform_file_id_kind : Option String
  pub state : String
  pub last_stat_size : Option ℕ
  pub last_stat_mtime_ms : Option ℕ
  pub created_at_ms : ℕ
  pub updated_at_ms : ℕ

pub record OriginRow : Type 0 where
  pub id : String
  pub asset_id : String
  pub source_id : String
  pub origin_kind : String
  pub origin_spec_json : String
  pub revision_binding : String
  pub created_at_ms : ℕ

-- The one kind of event that is recorded, with its payload.
pub record AppEventRow : Type 0 where
  pub library_revision : ℕ
  pub event_kind : String
  pub root_id : String
  pub asset_ids : List String
  pub created_at_ms : ℕ

pub record Db : Type 0 where
  pub library_meta : Meta
  pub roots : List RootRow
  pub sources : List SourceRow
  pub source_revisions : List SourceRevisionRow
  pub locations : List LocationRow
  pub assets : List AssetRow
  pub asset_origins : List OriginRow
  pub jobs : List JobRow
  pub collections : List CollectionRow
  pub collection_assets : List MembershipRow
  pub app_events : List AppEventRow

-- `bump_revision` of session.rs: the new revision is `(bump_revision db t).library_meta`'s.
unfoldable pub bump_revision : ℕ → Db → Db
bump_revision timestamp db = record db {
  library_meta = record db.library_meta {
    library_revision = db.library_meta.library_revision + 1;
    updated_at_ms = timestamp;
  };
}

-- `UPDATE … SET … WHERE …` on the rows of a table.
abbrev pub update_where {ℓ} : {A : Type ℓ} → (A → Bool) → (A → A) → List A → List A
update_where p f [] = []
update_where p f (x ∷ xs) = (if p x then f x else x) ∷ update_where p f xs

-- `SELECT COUNT(*) … WHERE …`
abbrev pub count_where {ℓ} : {A : Type ℓ} → (A → Bool) → List A → ℕ
count_where p xs = length (keep_if p xs)

-- The first row that satisfies the condition, where at most one can: a key is asked for.
abbrev pub find_where {ℓ} : {A : Type ℓ} → (A → Bool) → List A → Option A
find_where p [] = Option.none
find_where p (x ∷ xs) = if p x then Option.some x else find_where p xs
