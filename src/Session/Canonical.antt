-- ===== src/Session/Canonical.antt =====
-- `canonical_digest` and `canonical_page` of crates/reference-core/src/session.rs, with the digest
-- that a session keeps.
pub mod Cached
use reference_library.Common.{ℕ, String, Bool, Option, none, some, List, str_eq, not, if◌then◌else◌}
use reference_library.Errors.{canonical_snapshot_changed}
use reference_library.Fallible.{Result, ok, err, ◌>>=◌, ◌>>◌, reject_if}
use reference_library.Database.{Db, SourceRevisionRow}
use reference_library.Protocol.States.{CanonicalEntity}
use reference_library.Protocol.Results.{CanonicalDigest, CanonicalPage}
use reference_library.Protocol.Canonical.{CanonicalRecord}
use reference_library.Protocol.Frame.{ServerFrame}
use reference_library.Canonical.Json.{Value}
use reference_library.Canonical.Digest.{digest_with_revision, page_verified}
use reference_library.Session.State.{LibrarySession, CanonicalSessionSnapshot, connection}

-- `borrow().as_ref().filter(..).cloned()`
abbrev pub cached :
    Option CanonicalSessionSnapshot → (snapshot_digest : String) → Option CanonicalSessionSnapshot
cached none snapshot_digest = none
cached (some snapshot) snapshot_digest =
    if str_eq snapshot.digest.digest snapshot_digest then some snapshot else none

-- `replace(Some(CanonicalSessionSnapshot { .. }))`
abbrev pub keeping :
    {File : Type 0} → LibrarySession File → CanonicalDigest × ℕ → LibrarySession File
keeping session both = record session {
  canonical_snapshot = some (record { digest = both.0; library_revision = both.1 });
}

digested :
    {File : Type 0}
    → LibrarySession File
    → Result (CanonicalDigest × ℕ)
    → Result CanonicalDigest × LibrarySession File
digested session (err cause) = (err cause, session)
digested session (ok both) = (ok both.0, keeping session both)

module _ {Number : Type 0} (media_metadata_json : SourceRevisionRow → String)
    (from_str : String → Option (Value Number))
    (to_value : CanonicalRecord (Value Number) → Value Number) (number_bytes : Number → List ℕ)
    (string_bytes : String → List ℕ) (sha256 : List ℕ → List ℕ) where
  abbrev pub fresh_digest : Db → Result (CanonicalDigest × ℕ)
  fresh_digest =
      digest_with_revision media_metadata_json from_str to_value number_bytes string_bytes sha256

  module _ {File : Type 0} where
    unfoldable pub canonical_digest :
        LibrarySession File → Result CanonicalDigest × LibrarySession File
    unfolding digested digest_with_revision
    canonical_digest session = digested session (connection session >>= fresh_digest)

    -- The arm without a snapshot in the session.
    abbrev pub taken_anew :
        LibrarySession File → (snapshot_digest : String) → Result CanonicalSessionSnapshot
    taken_anew session snapshot_digest = do
      db ← connection session
      both ← fresh_digest db
      reject_if (not (str_eq both.0.digest snapshot_digest)) canonical_snapshot_changed
      ok (record { digest = both.0; library_revision = both.1 })

    abbrev pub snapshot_for :
        LibrarySession File
        → (snapshot_digest : String) → Option CanonicalSessionSnapshot
        → Result CanonicalSessionSnapshot
    snapshot_for session snapshot_digest (some snapshot) = ok snapshot
    snapshot_for session snapshot_digest none = taken_anew session snapshot_digest

  module _ {Dump : Type 0} (frame_length : ServerFrame Dump (CanonicalRecord (Value Number)) → ℕ)
      (record_length : CanonicalRecord (Value Number) → ℕ) (entity : CanonicalEntity)
      (cursor : Option String) (limit : ℕ) where
    abbrev pub verified :
        Db → CanonicalSessionSnapshot → Result (CanonicalPage (CanonicalRecord (Value Number)))
    verified db snapshot =
        page_verified media_metadata_json from_str to_value number_bytes string_bytes sha256
          frame_length record_length db snapshot.digest snapshot.library_revision entity cursor
          limit

    module _ {File : Type 0} where
      -- A snapshot that the session kept is kept again.
      unfoldable pub answered_page :
          LibrarySession File
          → Result CanonicalSessionSnapshot
          → Result (CanonicalPage (CanonicalRecord (Value Number))) × LibrarySession File
      unfolding page_verified
      answered_page session (err cause) = (err cause, session)
      answered_page session (ok snapshot) = (
        connection session >>= (λ db. verified db snapshot),
        record session { canonical_snapshot = some snapshot },
      )

      unfoldable pub canonical_page :
          LibrarySession File
          → (snapshot_digest : String)
          → Result (CanonicalPage (CanonicalRecord (Value Number))) × LibrarySession File
      unfolding answered_page digest_with_revision
      canonical_page session snapshot_digest =
          answered_page session (
            snapshot_for session snapshot_digest
              (cached session.canonical_snapshot snapshot_digest))
