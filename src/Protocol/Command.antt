-- ===== src/Protocol/Command.antt =====
-- The commands, crates/reference-protocol/src/lib.rs.
use reference_library.Common.{ℕ, String, Bool, Option, List}
use reference_library.Protocol.States.{
  AssetProjection, ReviewState, ResourceProfile, CanonicalEntity,
}
use reference_library.Protocol.Patch.{AssetPatch, AssetQuery, JobQuery}

pub data Command : Type 0 where
  hello : (client_name : String) → (supported_versions : List ℕ) → Command
  create_library : (path : String) → (name : String) → Command
  open_library : (path : String) → Command
  close_library : (session_id : String) → Command
  add_root : (session_id : String) → (authorized_path : String) → (display_name : String) → Command
  list_roots : (session_id : String) → Command
  bind_root : (session_id : String) → (root_id : String) → (authorized_path : String) → Command
  scan_root : (session_id : String) → (root_id : String) → Command
  query_assets :
      (session_id : String) → (offset : ℕ) → (limit : ℕ) → (projection : AssetProjection) → Command
  query_asset_index :
      (session_id : String)
      → (offset : ℕ) → (limit : ℕ) → (projection : AssetProjection) → (query : AssetQuery)
      → (expected_library_revision : Option ℕ) → Command
  get_asset : (session_id : String) → (asset_id : String) → Command
  update_asset :
      (session_id : String)
      → (asset_id : String) → (expected_revision : ℕ) → (patch : AssetPatch) → Command
  update_asset_review :
      (session_id : String)
      → (asset_id : String) → (expected_revision : ℕ) → (review_state : ReviewState) → Command
  update_asset_title :
      (session_id : String)
      → (asset_id : String) → (expected_revision : ℕ) → (title : Option String) → Command
  update_asset_note :
      (session_id : String)
      → (asset_id : String) → (expected_revision : ℕ) → (note : Option String) → Command
  query_jobs : (session_id : String) → (offset : ℕ) → (limit : ℕ) → (query : JobQuery) → Command
  list_collections : (session_id : String) → Command
  create_collection : (session_id : String) → (name : String) → Command
  rename_collection :
      (session_id : String)
      → (collection_id : String) → (expected_revision : ℕ) → (name : String) → Command
  delete_collection : (session_id : String) → (collection_id : String) → Command
  set_collection_membership :
      (session_id : String)
      → (collection_id : String) → (asset_ids : List String) → (member : Bool) → Command
  authorize_resource :
      (session_id : String) → (asset_id : String) → (profile : ResourceProfile) → Command
  resolve_location : (session_id : String) → (location_id : String) → Command
  canonical_dump : (session_id : String) → Command
  canonical_digest : (session_id : String) → Command
  canonical_page :
      (session_id : String)
      → (snapshot_digest : String) → (entity : CanonicalEntity) → (cursor : Option String)
      → (limit : ℕ) → Command
  get_capabilities : (session_id : Option String) → Command
  cancel_job : (session_id : String) → (job_id : String) → Command
  test_crash : Command
  shutdown : Command

pub record ClientFrame : Type 0 where
  pub protocol_version : ℕ
  pub request_id : String
  pub command : Command
