-- ===== src/Protocol/Patch.antt =====
-- The patches that an asset update carries, crates/reference-protocol/src/lib.rs.
use reference_library.Common.{String, Option, none, List}
use reference_library.Protocol.States.{ReviewState, AvailabilityFilter, JobState, AssetSort}

pub data TextPatch : Type 0 where
  unchanged clear : TextPatch
  set : String → TextPatch

pub data StringListPatch : Type 0 where
  unchanged : StringListPatch
  set : List String → StringListPatch

pub record AssetPatch : Type 0 where
  pub custom_title : TextPatch
  pub review_state : Option ReviewState
  pub note : TextPatch
  pub tags : StringListPatch
  pub used_in : StringListPatch

-- `AssetPatch::default`
abbrev pub default_patch : AssetPatch
default_patch = record {
  custom_title = TextPatch.unchanged;
  review_state = none;
  note = TextPatch.unchanged;
  tags = StringListPatch.unchanged;
  used_in = StringListPatch.unchanged;
}

pub record AssetQuery : Type 0 where
  pub search : Option String
  pub review_states : List ReviewState
  pub availability : List AvailabilityFilter
  pub collection_id : Option String
  pub root_id : Option String
  pub categories : List String
  pub extensions : List String
  pub media_families : List String
  pub tags : List String
  pub used_in : List String
  pub sort : AssetSort

pub record JobQuery : Type 0 where
  pub root_id : Option String
  pub states : List JobState
