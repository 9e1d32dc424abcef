-- ===== src/Protocol/Results.antt =====
-- The records that results carry, crates/reference-protocol/src/lib.rs. The canonical records of a
-- page are a parameter.
use reference_library.Common.{ℕ, String, Bool, Option, List}
use reference_library.Protocol.States.{JobState, ResourceProfile, CanonicalEntity}

pub record HelloResult : Type 0 where
  pub protocol_version : ℕ
  pub core_version : String
  pub max_page_size : ℕ
  pub features : List String

pub record SessionOpened : Type 0 where
  pub session_id : String
  pub library_id : String
  pub schema_version : ℕ
  pub name : String

pub record FacetCount : Type 0 where
  pub value : String
  pub count : ℕ

pub record AssetFacets : Type 0 where
  pub categories : List FacetCount
  pub extensions : List FacetCount
  pub media_families : List FacetCount
  pub tags : List FacetCount
  pub used_in : List FacetCount

pub record AssetSummary : Type 0 where
  pub asset_id : String
  pub location_id : String
  pub display_name : String
  pub relative_display_path : String
  pub media_family : String
  pub mime_type : String
  pub extension : Option String
  pub byte_size : ℕ
  pub category : String
  pub preview_kind : String
  pub availability : String
  pub review_state : String
  pub custom_title : Option String
  pub tags : List String
  pub used_in : List String
  pub preview_asset_ids : List String
  pub created_at_ms : ℕ
  pub revision : ℕ

pub record AssetPage : Type 0 where
  pub offset : ℕ
  pub limit : ℕ
  pub total : ℕ
  pub items : List AssetSummary
  pub next_offset : Option ℕ
  pub library_revision : ℕ
  pub facets : AssetFacets

pub record AssetDetail : Type 0 where
  pub asset_id : String
  pub location_id : String
  pub original_display_name : String
  pub relative_display_path : String
  pub media_family : String
  pub mime_type : String
  pub extension : Option String
  pub byte_size : ℕ
  pub category : String
  pub preview_kind : String
  pub availability : String
  pub review_state : String
  pub custom_title : Option String
  pub note : Option String
  pub tags : List String
  pub used_in : List String
  pub revision : ℕ
  pub collection_ids : List String

pub record RootSummary : Type 0 where
  pub root_id : String
  pub display_name : String
  pub root_kind : String
  pub state : String
  pub authorized : Bool
  pub active_job_id : Option String
  pub observed_count : ℕ
  pub unsupported_count : ℕ

pub record JobSummary : Type 0 where
  pub job_id : String
  pub root_id : Option String
  pub job_kind : String
  pub state : JobState
  pub observed_count : ℕ
  pub unsupported_count : ℕ
  pub error_code : Option String
  pub created_at_ms : ℕ
  pub updated_at_ms : ℕ
  pub finished_at_ms : Option ℕ

pub record JobPage : Type 0 where
  pub offset : ℕ
  pub limit : ℕ
  pub total : ℕ
  pub items : List JobSummary
  pub next_offset : Option ℕ

pub record CollectionSummary : Type 0 where
  pub collection_id : String
  pub name : String
  pub asset_count : ℕ
  pub revision : ℕ

pub record CanonicalEntityCount : Type 0 where
  pub entity : CanonicalEntity
  pub count : ℕ

pub record CanonicalDigest : Type 0 where
  pub format : String
  pub algorithm : String
  pub digest : String
  pub counts : List CanonicalEntityCount

pub record CanonicalPage (Record : Type 0) : Type 0 where
  pub format : String
  pub snapshot_digest : String
  pub entity : CanonicalEntity
  pub cursor : Option String
  pub limit : ℕ
  pub total : ℕ
  pub records : List Record
  pub next_cursor : Option String

pub record ResourceDescriptor : Type 0 where
  pub resource_token : String
  pub session_id : String
  pub asset_id : String
  pub location_id : String
  pub profile : ResourceProfile
  pub mime_type : String
  pub content_length : ℕ
  pub native_path_for_handler : String

pub record NativeLocation : Type 0 where
  pub location_id : String
  pub native_path_for_shell : String

pub record CapabilityDetail : Type 0 where
  pub name : String
  pub state : String
  pub reason : Option String

pub record Capabilities : Type 0 where
  pub choose_root : Bool
  pub reveal_location : Bool
  pub opaque_asset_resources : Bool
  pub source_mutation : Bool
  pub detail : List CapabilityDetail

pub record ProtocolError : Type 0 where
  pub code : String
  pub message : String
  pub retryable : Bool
