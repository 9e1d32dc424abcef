-- ===== src/Session/Canonical/Cached.antt =====
-- On canonical_page of crates/reference-core/src/session.rs.
use reference_library.Common.{
  ℕ, ◌≡◌, refl, sym, ap, ◌∙◌, ◌⊎◌, inl, inr, String, true, false, Option, none, some, List, str_eq,
  eq_iff, ◌==◌, ==_iff, Bool-cases, Option-cases, arith,
}
use reference_library.Errors.{CoreError, canonical_snapshot_changed}
use reference_library.Fallible.{Result, ok, err, Result-cases}
use reference_library.Database.{Db, SourceRevisionRow}
use reference_library.Protocol.States.{CanonicalEntity}
use reference_library.Protocol.Results.{CanonicalDigest, CanonicalPage}
use reference_library.Protocol.Canonical.{CanonicalRecord}
use reference_library.Protocol.Frame.{ServerFrame}
use reference_library.Canonical.Json.{Value}
use reference_library.Canonical.Page.{bad_limit}
use reference_library.Canonical.Digest.{digest_snapshot, digest_with_revision, page, page_verified}
use reference_library.Session.State.{LibrarySession, CanonicalSessionSnapshot}
use reference_library.Session.Canonical.{cached, canonical_page}

cached-some :
    (kept : Option CanonicalSessionSnapshot) (d : String) (snapshot : CanonicalSessionSnapshot)
    → cached kept d ≡ some snapshot
    → (kept ≡ some snapshot) × (snapshot.digest.digest ≡ d)
cached-some none d snapshot h = cc
cached-some (some s) d snapshot h = elim (Bool-cases (str_eq s.digest.digest d)) [
  | inr other ↦ ground (arith, other, h)
  | inl same ↦
      let found : some s ≡ some snapshot = ground (arith, same, h) in
      let equal : s ≡ snapshot = cc in (found, rw (sym equal) ((eq_iff s.digest.digest d).0 same))
]

kept_digest : (a b : CanonicalSessionSnapshot) → some a ≡ some b → a.digest ≡ b.digest
kept_digest a b h = let same : a ≡ b = cc in ap (λ s. s.digest) same

module _ {Number Dump : Type 0} (media_metadata_json : SourceRevisionRow → String)
    (from_str : String → Option (Value Number))
    (to_value : CanonicalRecord (Value Number) → Value Number) (number_bytes : Number → List ℕ)
    (string_bytes : String → List ℕ) (sha256 : List ℕ → List ℕ)
    (frame_length : ServerFrame Dump (CanonicalRecord (Value Number)) → ℕ)
    (record_length : CanonicalRecord (Value Number) → ℕ) where
  abbrev pub snapshot_of : Db → Result CanonicalDigest
  snapshot_of =
      digest_snapshot media_metadata_json from_str to_value number_bytes string_bytes sha256

  module _ (entity : CanonicalEntity) (cursor : Option String) (limit : ℕ) where
    abbrev page_now : Db → String → Result (CanonicalPage (CanonicalRecord (Value Number)))
    page_now db d =
        page media_metadata_json from_str to_value number_bytes string_bytes sha256 frame_length
          record_length db d entity cursor limit

    abbrev page_verified_by :
        Db → CanonicalDigest → ℕ → Result (CanonicalPage (CanonicalRecord (Value Number)))
    page_verified_by db digest revision =
        page_verified media_metadata_json from_str to_value number_bytes string_bytes sha256
          frame_length record_length db digest revision entity cursor limit

    page_verified-current :
        (db : Db) (current : CanonicalDigest) (d : String) (revision : ℕ)
        → bad_limit limit ≡ false
        → snapshot_of db ≡ ok current
        → str_eq current.digest d ≡ true
        → (db.library_meta.library_revision == revision) ≡ true
        → page_verified_by db current revision ≡ page_now db d
    unfolding page page_verified
    page_verified-current db current d revision good fresh same now =
        rw (good, now, fresh, same) refl

    page_now-failed :
        (db : Db) (d : String) (cause : CoreError)
        → snapshot_of db ≡ err cause
        → page_now db d ≡ err cause
    unfolding page
    page_now-failed db d cause failed = rw failed refl

    page_verified-moved :
        (db : Db) (current : CanonicalDigest) (revision : ℕ)
        → bad_limit limit ≡ false
        → (db.library_meta.library_revision == revision) ≡ false
        → page_verified_by db current revision ≡ err canonical_snapshot_changed
    unfolding page_verified
    page_verified-moved db current revision good moved = rw (good, moved) refl

    module _ {File : Type 0} where
      -- The digest that the session keeps is that of its tables, unless their revision has moved on.
      abbrev pub IsHonest : LibrarySession File → Type 0
      IsHonest session =
          (snapshot : CanonicalSessionSnapshot)
          → session.canonical_snapshot ≡ some snapshot
          → session.db.library_meta.library_revision ≡ snapshot.library_revision
          → snapshot_of session.db ≡ ok snapshot.digest

      abbrev page_kept :
          LibrarySession File
          → String
          → Result (CanonicalPage (CanonicalRecord (Value Number))) × LibrarySession File
      page_kept session d =
          canonical_page media_metadata_json from_str to_value number_bytes string_bytes sha256
            frame_length record_length entity cursor limit session d

      abbrev pub IsConservative :
          LibrarySession File
          → String
          → Result (CanonicalPage (CanonicalRecord (Value Number))) × LibrarySession File
          → Type 0
      IsConservative session d made =
          ((made.0 ≡ page_now session.db d) ⊎ (made.0 ≡ err canonical_snapshot_changed))
          × IsHonest made.1

      hit-IsConservative :
          (session : LibrarySession File) (d : String) (snapshot : CanonicalSessionSnapshot)
          → session.closed ≡ false
          → bad_limit limit ≡ false
          → IsHonest session
          → cached session.canonical_snapshot d ≡ some snapshot
          → IsConservative session d (page_kept session d)
      unfolding canonical_page
      hit-IsConservative session d snapshot is_open good honest hit =
          let (kept, named) = cached-some session.canonical_snapshot d snapshot hit in
          let revision = session.db.library_meta.library_revision in
          rw (hit, is_open)
            (
              elim (Bool-cases (revision == snapshot.library_revision)) [
                | inr moved ↦ inr (
                    page_verified-moved session.db snapshot.digest snapshot.library_revision good
                      moved)
                | inl now ↦ inl (
                    page_verified-current session.db snapshot.digest d snapshot.library_revision
                      good
                      (honest snapshot kept ((==_iff revision snapshot.library_revision).0 now))
                      ((eq_iff snapshot.digest.digest d).1 named) now)
              ],
              λ later same. honest later (kept ∙ same),
            )

      miss-IsConservative :
          (session : LibrarySession File) (d : String)
          → session.closed ≡ false
          → bad_limit limit ≡ false
          → IsHonest session
          → cached session.canonical_snapshot d ≡ none
          → IsConservative session d (page_kept session d)
      unfolding canonical_page digest_with_revision
      miss-IsConservative session d is_open good honest miss =
          elim (Result-cases (snapshot_of session.db)) [
            | inr (cause, failed) ↦
                rw (miss, is_open, failed)
                  (inl (sym (page_now-failed session.db d cause failed)), honest)
            | inl (current, fresh) ↦ elim (Bool-cases (str_eq current.digest d)) [
              | inr other ↦ rw (miss, is_open, fresh, other) (inr refl, honest)
              | inl same ↦
                  let revision = session.db.library_meta.library_revision in
                  rw (miss, is_open, fresh, same)
                    (
                      inl (
                          page_verified-current session.db current d revision good fresh same
                            ((==_iff revision revision).1 refl)),
                      λ snapshot kept now. fresh ∙ ap (λ k. ok k) (kept_digest _ snapshot kept),
                    )
            ]
          ]

      -- In an open session whose kept digest is that of its tables unless their revision has
      -- moved on, a page with an accepted limit is answered as it is without the kept digest, or
      -- refused as of a changed snapshot; and the kept digest stays so.
      pub canonical_page-conservative :
          (session : LibrarySession File) (d : String)
          → session.closed ≡ false
          → bad_limit limit ≡ false
          → IsHonest session
          → (((page_kept session d).0 ≡ page_now session.db d)
              ⊎ ((page_kept session d).0 ≡ err canonical_snapshot_changed))
            × IsHonest (page_kept session d).1
      canonical_page-conservative session d is_open good honest =
          elim (Option-cases (cached session.canonical_snapshot d)) [
            | inl miss ↦ miss-IsConservative session d is_open good honest miss
            | inr (snapshot, hit) ↦ hit-IsConservative session d snapshot is_open good honest hit
          ]
