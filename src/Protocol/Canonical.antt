-- ===== src/Protocol/Canonical.antt =====
-- The records of the canonical projection, crates/reference-protocol/src/lib.rs. A JSON value is
-- another crate's: a parameter.
use reference_library.Common.{ℕ, String, Option, List}

pub record CanonicalLibraryRecord : Type 0 where
  pub id : String
  pub name : String

pub record CanonicalRootRecord : Type 0 where
  pub id : String
  pub display_name : String
  pub root_kind : String

pub record CanonicalSourceRecord : Type 0 where
  pub id : String
  pub media_family : String
  pub current_revision_id : String

pub record CanonicalSourceRevisionRecord (Value : Type 0) : Type 0 where
  pub id : String
  pub source_id : String
  pub byte_size : ℕ
  pub quick_fingerprint : Option String
  pub mime_detected : String
  pub extension_observed : Option String
  pub media_metadata : Value

pub record CanonicalLocationRecord : Type 0 where
  pub id : String
  pub root_id : String
  pub source_id : String
  pub relative_path_bytes_hex : String
  pub relative_path_display : String

pub record CanonicalAssetOriginRecord (Value : Type 0) : Type 0 where
  pub id : String
  pub asset_id : String
  pub source_id : String
  pub origin_kind : String
  pub origin_spec : Value
  pub revision_binding : String

pub record CanonicalAssetRecord : Type 0 where
  pub id : String
  pub custom_title : Option String
  pub review_state : String
  pub note : Option String
  pub tags : List String
  pub used_in : List String

pub record CanonicalCollectionRecord : Type 0 where
  pub id : String
  pub name : String

pub record CanonicalCollectionMembershipRecord : Type 0 where
  pub collection_id : String
  pub asset_id : String

pub data CanonicalRecord (Value : Type 0) : Type 0 where
  library : CanonicalLibraryRecord → CanonicalRecord Value
  root : CanonicalRootRecord → CanonicalRecord Value
  source : CanonicalSourceRecord → CanonicalRecord Value
  source_revision : CanonicalSourceRevisionRecord Value → CanonicalRecord Value
  location : CanonicalLocationRecord → CanonicalRecord Value
  asset_origin : CanonicalAssetOriginRecord Value → CanonicalRecord Value
  asset : CanonicalAssetRecord → CanonicalRecord Value
  collection : CanonicalCollectionRecord → CanonicalRecord Value
  collection_membership : CanonicalCollectionMembershipRecord → CanonicalRecord Value
