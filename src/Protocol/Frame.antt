-- ===== src/Protocol/Frame.antt =====
-- Results and server frames, crates/reference-protocol/src/lib.rs. The legacy dump is a JSON value of
-- another crate: a parameter, as are the canonical records.
use reference_library.Common.{ℕ, String, List}
use reference_library.Protocol.States.{CancellationState}
use reference_library.Protocol.Results.{
  HelloResult, SessionOpened, AssetPage, AssetDetail, RootSummary, JobPage, CollectionSummary,
  CanonicalDigest, CanonicalPage, ResourceDescriptor, NativeLocation, Capabilities, ProtocolError,
}
use reference_library.Protocol.Event.{Event}

pub data CommandResult (Value Record : Type 0) : Type 0 where
  hello : HelloResult → CommandResult Value Record
  session_opened : SessionOpened → CommandResult Value Record
  library_closed : (session_id : String) → CommandResult Value Record
  root_added : (root_id : String) → (job_id : String) → CommandResult Value Record
  roots : (items : List RootSummary) → CommandResult Value Record
  root_bound : (root : RootSummary) → CommandResult Value Record
  root_scan_started : (root_id : String) → (job_id : String) → CommandResult Value Record
  asset_page : AssetPage → CommandResult Value Record
  asset : AssetDetail → CommandResult Value Record
  asset_updated : (asset : AssetDetail) → (library_revision : ℕ) → CommandResult Value Record
  job_page : JobPage → CommandResult Value Record
  collections : (items : List CollectionSummary) → CommandResult Value Record
  collection_updated :
      (collection : CollectionSummary) → (library_revision : ℕ) → CommandResult Value Record
  collection_deleted :
      (collection_id : String) → (library_revision : ℕ) → CommandResult Value Record
  collection_membership_updated :
      (collection_id : String)
      → (affected : ℕ) → (library_revision : ℕ) → CommandResult Value Record
  resource_authorized : ResourceDescriptor → CommandResult Value Record
  location_resolved : NativeLocation → CommandResult Value Record
  canonical_dump : (dump : Value) → CommandResult Value Record
  canonical_digest : CanonicalDigest → CommandResult Value Record
  canonical_page : CanonicalPage Record → CommandResult Value Record
  capabilities : Capabilities → CommandResult Value Record
  job_cancellation : (job_id : String) → (state : CancellationState) → CommandResult Value Record
  shutdown : CommandResult Value Record

pub data ServerFrame (Value Record : Type 0) : Type 0 where
  response :
      (protocol_version : ℕ)
      → (request_id : String) → (result : CommandResult Value Record) → ServerFrame Value Record
  error :
      (protocol_version : ℕ)
      → (request_id : String) → (error : ProtocolError) → ServerFrame Value Record
  event : (protocol_version : ℕ) → (sequence : ℕ) → (event : Event) → ServerFrame Value Record
