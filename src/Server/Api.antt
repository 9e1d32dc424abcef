-- ===== src/Server/Api.antt =====
-- What the engine of crates/reference-core/src/server.rs asks of an open session: the methods of
-- `LibrarySession` in crates/reference-core/src/session.rs, as a record. A method that may write
-- returns the new session with its result; a scan plan is the id of its root and that of its job.
use reference_library.Common.{ℕ, String, Bool, Option, none, some, List}
use reference_library.Fallible.{Result}
use reference_library.Protocol.States.{
  AssetProjection, ReviewState, ResourceProfile, CanonicalEntity,
}
use reference_library.Protocol.Patch.{TextPatch, AssetPatch, default_patch, AssetQuery, JobQuery}
use reference_library.Protocol.Results.{
  SessionOpened, AssetPage, AssetDetail, RootSummary, JobPage, CollectionSummary, CanonicalDigest,
  CanonicalPage, ResourceDescriptor, NativeLocation,
}

pub record SessionApi (S Value Record : Type 0) : Type 0 where
  pub create : (path name : String) → Result S
  pub open_at : (path : String) → Result S
  pub opened : S → SessionOpened
  pub close : S → Result (Unit {0})
  pub add_root : S → (authorized_path display_name : String) → Result (String × String) × S
  pub query_roots : S → Result (List RootSummary)
  pub reauthorize_root : S → (root_id authorized_path : String) → Result RootSummary × S
  pub rescan_root : S → (root_id : String) → Result (String × String) × S
  pub query_assets : S → (offset limit : ℕ) → AssetProjection → Result AssetPage
  pub query_asset_index_at_revision :
      S → (offset limit : ℕ) → AssetProjection → AssetQuery → Option ℕ → Result AssetPage
  pub get_asset : S → (asset_id : String) → Result AssetDetail
  pub update_asset :
      S → (asset_id : String) → (expected_revision : ℕ) → AssetPatch → Result (AssetDetail × ℕ) × S
  pub query_jobs : S → (offset limit : ℕ) → JobQuery → Result JobPage
  pub list_collections : S → Result (List CollectionSummary)
  pub create_collection : S → (name : String) → Result (CollectionSummary × ℕ) × S
  pub rename_collection :
      S
      → (collection_id : String) → (expected_revision : ℕ) → (name : String)
      → Result (CollectionSummary × ℕ) × S
  pub delete_collection : S → (collection_id : String) → Result ℕ × S
  pub set_collection_membership :
      S
      → (collection_id : String) → (asset_ids : List String) → (member : Bool) → Result (ℕ × ℕ) × S
  pub authorize_resource : S → (asset_id : String) → ResourceProfile → Result ResourceDescriptor × S
  pub resolve_location : S → (location_id : String) → Result NativeLocation
  pub canonical_dump : S → Result Value
  pub canonical_digest : S → Result CanonicalDigest × S
  pub canonical_page :
      S
      → (snapshot_digest : String) → CanonicalEntity
      → (cursor : Option String) → (limit : ℕ) → Result (CanonicalPage Record) × S
  pub job_state : S → (job_id : String) → Result (Option String)

-- The patches of `update_asset_review`, `update_asset_title` and `update_asset_note`.
abbrev pub review_patch : ReviewState → AssetPatch
review_patch state = record default_patch { review_state = some state }

abbrev pub set_or_clear : Option String → TextPatch
set_or_clear (some value) = TextPatch.set value
set_or_clear none = TextPatch.clear

abbrev pub title_patch : Option String → AssetPatch
title_patch title = record default_patch { custom_title = set_or_clear title }

abbrev pub note_patch : Option String → AssetPatch
note_patch note = record default_patch { note = set_or_clear note }
