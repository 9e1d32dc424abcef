-- ===== src/Session/Evidence/Recognized.antt =====
-- On what validate_root_evidence of crates/reference-core/src/session.rs accepts.
use reference_library.Common.{
  ℕ, ◌+◌, min, ◌≡◌, refl, String, Bool, true, false, not, Option, none, some, List, [], ◌∷◌, ◌&&◌,
  ◌||◌, str_eq, leb, ltb, ◌==◌, if◌then◌else◌, keep_if, length, arith, Bool-cases, Option-cases,
  inl, inr,
}
use reference_library.Errors.{CoreError, root_identity_mismatch}
use reference_library.Fallible.{Result, ok, err, Result-cases, reject_if, ◌>>=◌, ◌>>◌}
use reference_library.Database.{Db, RootRow, find_where, count_where}
use reference_library.Session.Authority.{
  Metadata, Filesystem, AuthorizedRoot, open_file, matches_identity_policy,
}
use reference_library.Session.Evidence.{
  Evidence, in_root, evidence, platform_identity_matches, has_evidence, compare_hash, weigh,
  weigh_all, validate_root_evidence,
}

-- The fingerprints are there and the same.
abbrev pub is_same : (expected observed : Option String) → Bool
is_same (some expected) (some observed) = str_eq observed expected
is_same expected observed = false

abbrev pub every {ℓ} : {A : Type ℓ} → (A → Bool) → List A → Bool
every p [] = true
every p (x ∷ xs) = p x && every p xs

compare_hash-is_same :
    {File : Type 0} (fs : Filesystem File) (expected observed : Option String) (counts : ℕ × ℕ)
    → compare_hash fs expected observed counts ≡ (
        if is_same expected observed
        then ok (counts.0 + 1, counts.1 + 1)
        else err root_identity_mismatch)
compare_hash-is_same fs none observed counts = refl
compare_hash-is_same fs (some expected) none counts = refl
compare_hash-is_same fs (some expected) (some observed) counts = refl

settled :
    {A : Type 0} (sized identified hashed : Bool) (good : Result A) (cause : CoreError)
    → (reject_if (not sized) cause
        >> (if identified then good else (if hashed then good else err cause)))
      ≡ (if sized && (identified || hashed) then good else err cause)
settled false identified hashed good cause = refl
settled true true hashed good cause = refl
settled true false hashed good cause = refl

module _ {File : Type 0} (fs : Filesystem File) (root : AuthorizedRoot File) where
  abbrev pub describes : Evidence → File → Option Metadata → Bool
  describes e file none = false
  describes e file (some metadata) =
      metadata.len == e.byte_size
      && (platform_identity_matches metadata e.platform_id e.platform_kind
          || is_same e.fingerprint (fs.fingerprint file e.byte_size))

  abbrev pub found : Evidence → Result File → Bool
  found e (err cause) = false
  found e (ok file) = describes e file (fs.file_metadata file)

  -- The file of a row is in the directory, with its size, and has its identity or its hash.
  abbrev pub verified : Evidence → Bool
  verified e = found e (open_file fs root e.relative)

  weigh-verified :
      (e : Evidence) (counts : ℕ × ℕ)
      → has_evidence e ≡ true
      → weigh fs root e counts
        ≡ (if verified e then ok (counts.0 + 1, counts.1 + 1) else err root_identity_mismatch)
  unfolding weigh
  weigh-verified e counts h = elim (Result-cases (open_file fs root e.relative)) [
    | inr (cause, o) ↦ rw (weigh, h, o) refl
    | inl (file, o) ↦
        rw (weigh, h, o)
          (elim (Option-cases (fs.file_metadata file)) [
            | inl m ↦ rw m refl
            | inr (metadata, m) ↦
                rw
                  (
                    m,
                    compare_hash-is_same fs e.fingerprint (fs.fingerprint file e.byte_size) counts,
                  )
                  (settled (metadata.len == e.byte_size)
                    (platform_identity_matches metadata e.platform_id e.platform_kind)
                    (is_same e.fingerprint (fs.fingerprint file e.byte_size))
                    (ok (counts.0 + 1, counts.1 + 1)) root_identity_mismatch)
          ])
  ]

  abbrev pub weighed : List Evidence → List Evidence
  weighed es = keep_if has_evidence es

  weigh_skipped :
      (e : Evidence) (counts : ℕ × ℕ) → has_evidence e ≡ false → weigh fs root e counts ≡ ok counts
  unfolding weigh
  weigh_skipped e counts h = rw (weigh, h) refl

  weigh_all-verified :
      (es : List Evidence) (counts : ℕ × ℕ)
      → weigh_all fs root es counts ≡ (
          if every verified (weighed es)
          then ok (counts.0 + length (weighed es), counts.1 + length (weighed es))
          else err root_identity_mismatch)
  unfolding weigh_all
  weigh_all-verified [] counts = ground arith
  weigh_all-verified (e ∷ es) counts =
      let rest = weigh_all-verified es in
      elim (Bool-cases (has_evidence e)) [
        | inr skipped ↦ rw (weigh_skipped e counts skipped, skipped) (rest counts)
        | inl h ↦ elim (Bool-cases (verified e)) [
          | inl v ↦
              rw (weigh-verified e counts h, h, v)
                (ground (arith, rest (counts.0 + 1, counts.1 + 1)))
          | inr v ↦ rw (weigh-verified e counts h, h, v) refl
        ]
      ]

  -- The recorded identity, or enough known files, all of them verified.
  abbrev pub recognized : Db → (root_id policy : String) → Bool
  recognized db root_id policy =
      let known = weighed (evidence db root_id) in
      let total = count_where (in_root root_id) db.locations in
      matches_identity_policy fs root policy
      || (not (total == 0) && (every verified known && leb (min 2 total) (length known)))

  enough :
      (all none : Bool) (n least : ℕ)
      → (reject_if none root_identity_mismatch
          >> ◌>>=◌ {T = ℕ × ℕ}
              (if all then ok (0 + n, 0 + n) else err root_identity_mismatch)
              (λ counts.
                reject_if
                  (ltb counts.0 least || not (counts.1 == counts.0))
                  root_identity_mismatch))
        ≡ (if not none && (all && leb least n) then ok tt else err root_identity_mismatch)
  enough all true n least = refl
  enough false false n least = refl
  enough true false n least = ground arith

  -- For a root that is there, a directory is accepted exactly where the recorded identity is its
  -- own, or where the root has locations and the known files are enough, each of them in the
  -- directory with its size and its identity or its hash; else it is refused as another
  -- directory.
  pub validate_root_evidence-recognized :
      (db : Db) (root_id : String) (row : RootRow)
      → find_where (λ r. str_eq r.id root_id) db.roots ≡ some row
      → validate_root_evidence fs db root_id root
        ≡ (if recognized db root_id row.scan_policy then ok tt else err root_identity_mismatch)
  unfolding validate_root_evidence
  validate_root_evidence-recognized db root_id row there =
      elim (Bool-cases (matches_identity_policy fs root row.scan_policy)) [
        | inl same ↦ rw (validate_root_evidence, there, same) refl
        | inr other ↦
            rw
              (
                validate_root_evidence,
                there,
                other,
                weigh_all-verified (evidence db root_id) (0, 0),
              )
              (enough (every verified (weighed (evidence db root_id)))
                (count_where (in_root root_id) db.locations == 0)
                (length (weighed (evidence db root_id)))
                (min 2 (count_where (in_root root_id) db.locations)))
      ]
