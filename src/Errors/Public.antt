-- ===== src/Errors/Public.antt =====
-- On to_protocol_error of crates/reference-core/src/error.rs.
use reference_library.Common.{String, Bool, ◌≡◌, refl, ◌||◌, str_eq}
use reference_library.Errors.{
  CoreError, io, database, manifest_json, destination_exists, invalid_package_extension,
  to_protocol_error,
}

-- The error without the text of an I/O error, of an error that rusqlite or serde_json returned, and
-- without a path. An integrity error keeps its text, in which the schema quotes such an error.
abbrev pub without_private_text : CoreError → CoreError
without_private_text (io kind _) = io kind ""
without_private_text (database _) = database ""
without_private_text (manifest_json _) = manifest_json ""
without_private_text (destination_exists _) = destination_exists ""
without_private_text (invalid_package_extension _) = invalid_package_extension ""
without_private_text e = e

-- What a client is told of an error does not depend on the text of an I/O, database or manifest
-- JSON error, nor on the path of a destination that exists or of a package with another
-- extension.
pub to_protocol_error-without_private_text :
    (e : CoreError) → to_protocol_error (without_private_text e) ≡ to_protocol_error e
unfolding to_protocol_error
to_protocol_error-without_private_text (io _ _) = refl
to_protocol_error-without_private_text (database _) = refl
to_protocol_error-without_private_text (manifest_json _) = refl
to_protocol_error-without_private_text (destination_exists _) = refl
to_protocol_error-without_private_text (invalid_package_extension _) = refl
to_protocol_error-without_private_text _ = refl

-- The codes after which a client may try again.
abbrev pub is_retryable_code : String → Bool
is_retryable_code c =
    str_eq c "LibraryLockedByOtherWriter"
    || str_eq c "RootPermissionRequired"
    || str_eq c "RootScanInProgress"
    || str_eq c "RootScanCapacityReached"
    || str_eq c "QuerySnapshotChanged"
    || str_eq c "AssetRevisionConflict"
    || str_eq c "CollectionRevisionConflict"
    || str_eq c "LocationMissing"
    || str_eq c "SourceRevisionChanged"
    || str_eq c "RenditionTimedOut"
    || str_eq c "RenditionCacheFailure"
    || str_eq c "RenditionQueueFull"
    || str_eq c "RenditionCancelled"
    || str_eq c "CanonicalSnapshotChanged"
    || str_eq c "CoreFailure"

-- Whether an error may be retried is decided by its code: exactly the fifteen listed codes are
-- retryable.
retryable-code :
    (e : CoreError) → (to_protocol_error e).retryable ≡ is_retryable_code (to_protocol_error e).code
unfolding to_protocol_error
retryable-code (io _ _) = refl
retryable-code _ = refl
