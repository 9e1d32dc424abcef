-- ===== src/Protocol/Event.antt =====
-- The events, crates/reference-protocol/src/lib.rs.
use reference_library.Common.{ℕ, String, Bool, List}
use reference_library.Protocol.States.{ResourceProfile}

pub data Event : Type 0 where
  root_state_changed : (root_id : String) → (state : String) → Event
  scan_progress_changed :
      (root_id : String)
      → (job_id : String) → (observed_count : ℕ) → (unsupported_count : ℕ) → (terminal : Bool)
      → Event
  assets_inserted : (root_id : String) → (asset_ids : List String) → (library_revision : ℕ) → Event
  job_updated : (job_id : String) → (state : String) → Event
  resource_authorization_started :
      (request_id : String)
      → (job_id : String) → (asset_id : String) → (profile : ResourceProfile) → Event
  asset_updated : (asset_id : String) → (revision : ℕ) → (library_revision : ℕ) → Event
  collections_changed : (collection_id : String) → (library_revision : ℕ) → Event
  core_needs_restart : (reason : String) → Event
