-- ===== src/Canonical/Digest/Determined.antt =====
-- On the bytes that digest_snapshot of crates/reference-core/src/canonical.rs hashes.
use reference_library.Common.{
  ℕ, ◌<◌, ◌≡◌, refl, sym, subst, ap, ◌∙◌, String, Bool, Option, List, [], ◌∷◌, ◌++◌, append-nil,
  append_assoc, map, length, length-map, All,
}
use reference_library.Common.Rank.{length-order_by}
use reference_library.Fallible.{Result, ok, err, ◌>>=◌, >>=-eq-ok, ok-injective, Holds}
use reference_library.Database.{Db, SourceRevisionRow}
use reference_library.Protocol.States.{CanonicalEntity}
use reference_library.Protocol.Canonical.{CanonicalRecord}
use reference_library.Canonical.Json.{Value}
use reference_library.Canonical.Records.{
  entities, entity_name, entity_count, selected, by_id, visit_rows, visit_records,
}
use reference_library.Canonical.Digest.{
  be_bytes, ascii_bytes, framed, frame, digest_domain, canonical_json, hash_record, digest_entity,
  digest_entities,
}
use reference_library.Canonical.Digest.Framing.{
  append-injective, bytes_bound, frames, AreShort, frames-injective, framed_number-injective,
}

module _ {Number : Type 0} (media_metadata_json : SourceRevisionRow → String)
    (from_str : String → Option (Value Number))
    (to_value : CanonicalRecord (Value Number) → Value Number) (number_bytes : Number → List ℕ)
    (string_bytes : String → List ℕ) where
  abbrev json : CanonicalRecord (Value Number) → List ℕ
  json = canonical_json media_metadata_json from_str to_value number_bytes string_bytes

  abbrev hash : List ℕ → CanonicalRecord (Value Number) → Result (List ℕ × Bool)
  hash = hash_record media_metadata_json from_str to_value number_bytes string_bytes

  abbrev in_json : Result (CanonicalRecord (Value Number)) → Result (List ℕ)
  in_json row = row >>= (λ r. ok (json r))

  -- The canonical JSON of the records of an entity, in their order.
  abbrev pub written : Db → CanonicalEntity → List (Result (List ℕ))
  written db entity = map in_json (selected media_metadata_json from_str db entity)

  hashed_rows :
      (rows : List (Result (CanonicalRecord (Value Number)))) (h made : List ℕ)
      → visit_rows hash h rows ≡ ok made
      → (ps : List (List ℕ)) × (map in_json rows ≡ map (λ p. ok p) ps) × (made ≡ h ++ frames ps)
  hashed_rows [] h made e = ([], refl, sym (ok-injective h made e) ∙ sym (append-nil h))
  hashed_rows (err cause ∷ rows) h made e = cc
  hashed_rows (ok r ∷ rows) h made e =
      let (ps, same, grown) = hashed_rows rows (frame h (json r)) made e in
      (
        json r ∷ ps,
        ap (λ rest. ok (json r) ∷ rest) same,
        grown ∙ append_assoc h (framed (json r)) (frames ps),
      )

  length-selected :
      (db : Db) (entity : CanonicalEntity)
      → length (selected media_metadata_json from_str db entity) ≡ entity_count db entity
  unfolding selected entity_count by_id
  length-selected db CanonicalEntity.library = refl
  length-selected db CanonicalEntity.roots = length-map _ _ ∙ length-order_by _ db.roots
  length-selected db CanonicalEntity.sources = length-map _ _ ∙ length-order_by _ db.sources
  length-selected db CanonicalEntity.source_revisions =
      length-map _ _ ∙ length-order_by _ db.source_revisions
  length-selected db CanonicalEntity.locations = length-map _ _ ∙ length-order_by _ db.locations
  length-selected db CanonicalEntity.asset_origins =
      length-map _ _ ∙ length-order_by _ db.asset_origins
  length-selected db CanonicalEntity.assets = length-map _ _ ∙ length-order_by _ db.assets
  length-selected db CanonicalEntity.collections = length-map _ _ ∙ length-order_by _ db.collections
  length-selected db CanonicalEntity.collection_memberships =
      length-map _ _ ∙ length-order_by _ db.collection_assets

  -- What one entity adds to the bytes.
  abbrev segment : Db → CanonicalEntity → List (List ℕ) → List ℕ
  segment db entity ps =
      framed (ascii_bytes (entity_name entity))
      ++ (framed (be_bytes 8 (entity_count db entity)) ++ frames ps)

  abbrev Tail : Db → List CanonicalEntity → List ℕ → Type 0
  Tail db [] tail = tail ≡ []
  Tail db (entity ∷ rest) tail =
      (ps : List (List ℕ)) × (behind : List ℕ) × (written db entity ≡ map (λ p. ok p) ps)
      × (tail ≡ segment db entity ps ++ behind)
      × Tail db rest behind

  hashed_entities :
      (db : Db) (es : List CanonicalEntity) (h made : List ℕ)
      → digest_entities media_metadata_json from_str to_value number_bytes string_bytes db es h
        ≡ ok made
      → (tail : List ℕ) × (made ≡ h ++ tail) × Tail db es tail
  unfolding digest_entities digest_entity visit_records
  hashed_entities db [] h made e = ([], sym (ok-injective h made e) ∙ sym (append-nil h), refl)
  hashed_entities db (entity ∷ es) h made e =
      let name = framed (ascii_bytes (entity_name entity)) in
      let count = framed (be_bytes 8 (entity_count db entity)) in
      let rows = selected media_metadata_json from_str db entity in
      let (middle, first, later) = >>=-eq-ok (visit_rows hash ((h ++ name) ++ count) rows) _ e in
      let (ps, same, grown) = hashed_rows rows ((h ++ name) ++ count) middle first in
      let (tail, ends, tails) = hashed_entities db es middle made later in
      (
        segment db entity ps ++ tail,
        ends
            ∙ ap (λ m. m ++ tail)
                (grown
                  ∙ append_assoc (h ++ name) count (frames ps)
                  ∙ append_assoc h name (count ++ frames ps))
            ∙ append_assoc h (segment db entity ps) tail,
        (ps, tail, same, refl, tails),
      )

  AreShort-of :
      (ps : List (List ℕ))
      → All (Holds (λ p. length p < bytes_bound 8)) (map (λ p. ok p) ps)
      → AreShort ps
  unfolding Holds
  AreShort-of [] h = tt
  AreShort-of (p ∷ ps) h = (h.0, AreShort-of ps h.1)

  module _ (db other : Db)
      (fits : (entity : CanonicalEntity) → entity_count db entity < bytes_bound 8)
      (fits_other : (entity : CanonicalEntity) → entity_count other entity < bytes_bound 8)
      (short : (entity : CanonicalEntity)
        → All (Holds (λ p. length p < bytes_bound 8)) (written db entity))
      (short_other : (entity : CanonicalEntity)
        → All (Holds (λ p. length p < bytes_bound 8)) (written other entity)) where
    length-payloads :
        (tables : Db) (entity : CanonicalEntity) (ps : List (List ℕ))
        → written tables entity ≡ map (λ p. ok p) ps
        → length ps ≡ entity_count tables entity
    length-payloads tables entity ps same =
        sym (length-map (λ p. ok p) ps)
        ∙ sym (ap length same)
        ∙ length-map in_json (selected media_metadata_json from_str tables entity)
        ∙ length-selected tables entity

    segment-injective :
        (entity : CanonicalEntity) (ps qs : List (List ℕ)) (rest rest' : List ℕ)
        → written db entity ≡ map (λ p. ok p) ps
        → written other entity ≡ map (λ p. ok p) qs
        → segment db entity ps ++ rest ≡ segment other entity qs ++ rest'
        → (written db entity ≡ written other entity) × (rest ≡ rest')
    segment-injective entity ps qs rest rest' here there h =
        let name = framed (ascii_bytes (entity_name entity)) in
        let count = framed (be_bytes 8 (entity_count db entity)) in
        let count' = framed (be_bytes 8 (entity_count other entity)) in
        let (named, numbered) =
          append-injective name name ((count ++ frames ps) ++ rest) ((count' ++ frames qs) ++ rest')
            refl
            (sym (append_assoc name (count ++ frames ps) rest)
              ∙ h
              ∙ append_assoc name (count' ++ frames qs) rest') in
        let (as_many, listed) =
          framed_number-injective (entity_count db entity) (entity_count other entity)
            (frames ps ++ rest) (frames qs ++ rest') (fits entity) (fits_other entity)
            (sym (append_assoc count (frames ps) rest)
              ∙ numbered
              ∙ append_assoc count' (frames qs) rest') in
        let (equal, behind) =
          frames-injective ps qs rest rest'
            (length-payloads db entity ps here
              ∙ as_many
              ∙ sym (length-payloads other entity qs there))
            (AreShort-of ps
              (subst (All (Holds (λ p. length p < bytes_bound 8))) here (short entity)))
            (AreShort-of qs
              (subst (All (Holds (λ p. length p < bytes_bound 8))) there (short_other entity)))
            listed in
        (here ∙ ap (map (λ p. ok p)) equal ∙ sym there, behind)

    Tail-injective :
        (es : List CanonicalEntity) (tail tail' : List ℕ)
        → Tail db es tail
        → Tail other es tail'
        → tail ≡ tail'
        → All (λ entity. written db entity ≡ written other entity) es
    Tail-injective [] tail tail' t t' same = tt
    Tail-injective (entity ∷ es) tail tail' (ps, behind, here, is, t) (qs, behind', there, is', t')
          same =
        let (equal, after) =
          segment-injective entity ps qs behind behind' here there (sym is ∙ same ∙ is') in
        (equal, Tail-injective es behind behind' t t' after)

    -- Where two Libraries give the same bytes to the hash, and their counts and the lengths of
    -- their records fit into eight bytes, the records of each entity have the same canonical
    -- JSON, in the same order.
    pub digest_entities-determined :
        (made : List ℕ)
        → digest_entities media_metadata_json from_str to_value number_bytes string_bytes db
            entities
            (frame [] digest_domain)
          ≡ ok made
        → digest_entities media_metadata_json from_str to_value number_bytes string_bytes other
            entities
            (frame [] digest_domain)
          ≡ ok made
        → All (λ entity. written db entity ≡ written other entity) entities
    digest_entities-determined made h h' =
        let (tail, is, t) = hashed_entities db entities (frame [] digest_domain) made h in
        let (tail', is', t') = hashed_entities other entities (frame [] digest_domain) made h' in
        let (start, same) =
          append-injective (frame [] digest_domain) (frame [] digest_domain) tail tail' refl
            (sym is ∙ is') in
        Tail-injective entities tail tail' t t' same
