-- ===== src/Errors.antt =====
-- crates/reference-core/src/error.rs: the errors of the core, and what a client is told of them.
-- An I/O error keeps its kind, which the code tests; it and a path keep the text that is shown.
pub mod Public
use Prim.Native.String.{◌++◌ as ◌<>◌}
use reference_library.Common.{ℕ, String, Bool, true, false}
use reference_library.Common.Decimal.{decimal}
use reference_library.Protocol.Results.{ProtocolError}

-- The kinds of `std::io::Error` that the code tells apart.
pub data IoKind : Type 0 where
  not_found permission_denied unexpected_eof other : IoKind

pub data CoreError : Type 0 where
  io : (kind : IoKind) → (text : String) → CoreError
  database : (text : String) → CoreError
  manifest_json : (text : String) → CoreError
  destination_exists : (path : String) → CoreError
  invalid_package_extension : (path : String) → CoreError
  invalid_manifest : (text : String) → CoreError
  database_integrity : (text : String) → CoreError
  migration_ledger_invalid : (value : ℕ) → CoreError
  schema_unsupported : (actual : ℕ) → (supported : ℕ) → CoreError
  library_locked_by_other_writer : CoreError
  session_closed : CoreError
  root_permission_required : CoreError
  root_not_found : CoreError
  root_scan_in_progress : CoreError
  root_scan_capacity_reached : CoreError
  root_scan_limit_exceeded : CoreError
  root_limit_reached : CoreError
  root_identity_mismatch : CoreError
  query_page_too_large : (value : ℕ) → CoreError
  query_invalid : (text : String) → CoreError
  query_snapshot_changed : (expected : ℕ) → (actual : ℕ) → CoreError
  query_result_too_large : CoreError
  asset_not_found : CoreError
  asset_revision_conflict : (expected : ℕ) → (actual : ℕ) → CoreError
  collection_not_found : CoreError
  collection_name_conflict : CoreError
  collection_revision_conflict : (expected : ℕ) → (actual : ℕ) → CoreError
  collection_membership_invalid : (text : String) → CoreError
  collection_limit_reached : CoreError
  asset_collection_limit_reached : CoreError
  location_not_found : CoreError
  location_missing : CoreError
  source_revision_changed : CoreError
  unsupported_preview : CoreError
  resource_too_large : CoreError
  rendition_input_invalid : CoreError
  rendition_limit_exceeded : CoreError
  rendition_timed_out : CoreError
  rendition_cache_failure : CoreError
  rendition_cache_unsafe : CoreError
  rendition_queue_full : CoreError
  rendition_cancelled : CoreError
  raw_path_resource_denied : CoreError
  protocol_version_unsupported : (value : ℕ) → CoreError
  canonical_snapshot_changed : CoreError
  canonical_dump_too_large : CoreError
  test_command_disabled : CoreError

-- `to_string`, the `#[error]` formats.
unfoldable pub display : CoreError → String
display (io kind text) = "I/O error: " <> text
display (database text) = "database error: " <> text
display (manifest_json text) = "manifest JSON error: " <> text
display (destination_exists path) = "Library destination already exists: " <> path
display (invalid_package_extension path) = "Library path must end in .pitchlibrary: " <> path
display (invalid_manifest text) = "Library manifest is invalid: " <> text
display (database_integrity text) = "Library database integrity check failed: " <> text
display (migration_ledger_invalid value) =
    "migration ledger does not match embedded schema " <> decimal value
display (schema_unsupported actual supported) =
    "Library schema "
    <> (decimal actual <> (" is newer than supported schema " <> decimal supported))
display library_locked_by_other_writer = "Library is locked by another writer"
display session_closed = "unknown or closed session"
display root_permission_required = "Root path is not an authorized readable directory"
display root_not_found = "Root was not found"
display root_scan_in_progress = "Root already has a scan in progress"
display root_scan_capacity_reached = "Root scan capacity is currently full"
display root_scan_limit_exceeded = "Root scan exceeded a bounded directory traversal limit"
display root_limit_reached = "Library has reached the V1 Root limit"
display root_identity_mismatch = "selected directory does not match the Root's known file evidence"
display (query_page_too_large value) = "query page size " <> (decimal value <> " exceeds limit")
display (query_invalid text) = "query is invalid: " <> text
display (query_snapshot_changed expected actual) =
    "query snapshot changed: expected Library revision "
    <> (decimal expected <> (", actual " <> decimal actual))
display query_result_too_large = "a query record cannot fit the bounded protocol frame"
display asset_not_found = "Asset was not found"
display (asset_revision_conflict expected actual) =
    "Asset revision conflict: expected " <> (decimal expected <> (", actual " <> decimal actual))
display collection_not_found = "Collection was not found"
display collection_name_conflict = "Collection name is already in use"
display (collection_revision_conflict expected actual) =
    "Collection revision conflict: expected "
    <> (decimal expected <> (", actual " <> decimal actual))
display (collection_membership_invalid text) = "Collection membership is invalid: " <> text
display collection_limit_reached = "Library has reached the V1 Collection limit"
display asset_collection_limit_reached = "Asset has reached the V1 Collection membership limit"
display location_not_found = "Location was not found"
display location_missing = "Location is missing or outside its authorized Root"
display source_revision_changed =
    "source bytes no longer match the indexed SourceRevision; rescan required"
display unsupported_preview = "preview is unsupported for this media type"
display resource_too_large = "Asset resource exceeds the T01 512 MiB output limit"
display rendition_input_invalid = "image bytes are invalid or do not match the indexed media type"
display rendition_limit_exceeded = "image exceeds bounded rendition limits"
display rendition_timed_out = "bounded rendition timed out"
display rendition_cache_failure = "rendition cache is unavailable"
display rendition_cache_unsafe = "rendition cache resolved inside canonical Library bytes"
display rendition_queue_full = "rendition authorization queue is full"
display rendition_cancelled = "rendition generation was cancelled"
display raw_path_resource_denied = "raw paths are not valid resource identifiers"
display (protocol_version_unsupported value) =
    "protocol version " <> (decimal value <> " is unsupported")
display canonical_snapshot_changed = "canonical snapshot changed; request a new digest"
display canonical_dump_too_large =
    "legacy canonical dump is too large; use canonical digest and pages"
display test_command_disabled = "test-only command is disabled"

pub record CodeRetryable : Type 0 where
  pub code : String
  pub retryable : Bool

-- The code of an error, and whether a client may try again.
unfoldable pub code_retryable : CoreError → CodeRetryable
code_retryable (destination_exists _) = record {
  code = "LibraryDestinationExists";
  retryable = false;
}
code_retryable (invalid_package_extension _) = record {
  code = "LibraryManifestInvalid";
  retryable = false;
}
code_retryable (invalid_manifest _) = record { code = "LibraryManifestInvalid"; retryable = false }
code_retryable (database_integrity _) = record {
  code = "LibraryIntegrityFailedPreserved";
  retryable = false;
}
code_retryable (migration_ledger_invalid _) = record {
  code = "LibraryIntegrityFailedPreserved";
  retryable = false;
}
code_retryable (schema_unsupported _ _) = record {
  code = "LibrarySchemaUnsupported";
  retryable = false;
}
code_retryable library_locked_by_other_writer = record {
  code = "LibraryLockedByOtherWriter";
  retryable = true;
}
code_retryable session_closed = record { code = "SessionClosed"; retryable = false }
code_retryable root_permission_required = record {
  code = "RootPermissionRequired";
  retryable = true;
}
code_retryable root_not_found = record { code = "RootNotFound"; retryable = false }
code_retryable root_scan_in_progress = record { code = "RootScanInProgress"; retryable = true }
code_retryable root_scan_capacity_reached = record {
  code = "RootScanCapacityReached";
  retryable = true;
}
code_retryable root_scan_limit_exceeded = record {
  code = "RootScanLimitExceeded";
  retryable = false;
}
code_retryable root_limit_reached = record { code = "RootLimitReached"; retryable = false }
code_retryable root_identity_mismatch = record { code = "RootIdentityMismatch"; retryable = false }
code_retryable (query_page_too_large _) = record { code = "QueryInvalid"; retryable = false }
code_retryable (query_invalid _) = record { code = "QueryInvalid"; retryable = false }
code_retryable (query_snapshot_changed _ _) = record {
  code = "QuerySnapshotChanged";
  retryable = true;
}
code_retryable query_result_too_large = record { code = "QueryResultTooLarge"; retryable = false }
code_retryable asset_not_found = record { code = "AssetNotFound"; retryable = false }
code_retryable (asset_revision_conflict _ _) = record {
  code = "AssetRevisionConflict";
  retryable = true;
}
code_retryable collection_not_found = record { code = "CollectionNotFound"; retryable = false }
code_retryable collection_name_conflict = record {
  code = "CollectionNameConflict";
  retryable = false;
}
code_retryable (collection_revision_conflict _ _) = record {
  code = "CollectionRevisionConflict";
  retryable = true;
}
code_retryable (collection_membership_invalid _) = record {
  code = "CollectionMembershipInvalid";
  retryable = false;
}
code_retryable collection_limit_reached = record {
  code = "CollectionLimitReached";
  retryable = false;
}
code_retryable asset_collection_limit_reached = record {
  code = "AssetCollectionLimitReached";
  retryable = false;
}
code_retryable location_not_found = record { code = "LocationNotFound"; retryable = false }
code_retryable location_missing = record { code = "LocationMissing"; retryable = true }
code_retryable source_revision_changed = record { code = "SourceRevisionChanged"; retryable = true }
code_retryable unsupported_preview = record { code = "UnsupportedPreview"; retryable = false }
code_retryable resource_too_large = record { code = "ResourceTooLarge"; retryable = false }
code_retryable rendition_input_invalid = record {
  code = "RenditionInputInvalid";
  retryable = false;
}
code_retryable rendition_limit_exceeded = record {
  code = "RenditionLimitExceeded";
  retryable = false;
}
code_retryable rendition_timed_out = record { code = "RenditionTimedOut"; retryable = true }
code_retryable rendition_cache_failure = record { code = "RenditionCacheFailure"; retryable = true }
code_retryable rendition_cache_unsafe = record { code = "RenditionCacheUnsafe"; retryable = false }
code_retryable rendition_queue_full = record { code = "RenditionQueueFull"; retryable = true }
code_retryable rendition_cancelled = record { code = "RenditionCancelled"; retryable = true }
code_retryable raw_path_resource_denied = record {
  code = "RawPathResourceDenied";
  retryable = false;
}
code_retryable (protocol_version_unsupported _) = record {
  code = "ProtocolVersionUnsupported";
  retryable = false;
}
code_retryable canonical_snapshot_changed = record {
  code = "CanonicalSnapshotChanged";
  retryable = true;
}
code_retryable canonical_dump_too_large = record {
  code = "CanonicalDumpTooLarge";
  retryable = false;
}
code_retryable test_command_disabled = record { code = "TestCommandDisabled"; retryable = false }
code_retryable (io _ _) = record { code = "CoreFailure"; retryable = true }
code_retryable (database _) = record { code = "CoreFailure"; retryable = true }
code_retryable (manifest_json _) = record { code = "CoreFailure"; retryable = true }

-- The message that leaves the process: fixed where the error's own text would name a host path.
unfoldable pub public_message : CoreError → String
unfolding display decimal
public_message (destination_exists _) = "Library destination already exists"
public_message (invalid_package_extension _) = "Library path must end in .pitchlibrary"
public_message (io _ _) = "Core operation failed without changing source files"
public_message (database _) = "Core operation failed without changing source files"
public_message (manifest_json _) = "Core operation failed without changing source files"
public_message e = display e

-- `CoreError::to_protocol_error`
unfoldable pub to_protocol_error : CoreError → ProtocolError
unfolding code_retryable public_message
to_protocol_error e = record {
  code = (code_retryable e).code;
  message = public_message e;
  retryable = (code_retryable e).retryable;
}
