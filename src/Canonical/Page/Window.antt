-- ===== src/Canonical/Page/Window.antt =====
-- On page_from_snapshot of crates/reference-core/src/canonical.rs.
use reference_library.Common.{
  ℕ, ◌+◌, ◌≤◌, ◌≡◌, refl, subst, sym, ap, ◌∙◌, String, Option, List, length, length-take,
  length-map, take, drop, ltb, arith,
}
use reference_library.Fallible.{ok-injective, Result, ok, >>=-eq-ok, reject_if-eq-ok}
use reference_library.Database.{Db, SourceRevisionRow}
use reference_library.Protocol.Limits.{max_frame_bytes}
use reference_library.Protocol.States.{CanonicalEntity}
use reference_library.Protocol.Results.{CanonicalDigest, CanonicalPage}
use reference_library.Protocol.Canonical.{CanonicalRecord}
use reference_library.Protocol.Frame.{ServerFrame}
use reference_library.Canonical.Cursor.{decode_cursor}
use reference_library.Common.Decimal.{max_u64}
use reference_library.Canonical.Json.{Value}
use reference_library.Canonical.Records.{selected, visit_rows, visit_records}
use reference_library.Canonical.Page.{
  Collected, count_of, cursor_at, page_with, page_envelope_size, page_of_collected,
  nothing_collected, bad_limit, page_from_snapshot,
}
use reference_library.Canonical.Page.Continued.{Continues, cursor_at-Continues}
use reference_library.Canonical.Page.Collect.{collect, collect-prefix, decoded}

module _ {Dump Record : Type 0} (frame_length : ServerFrame Dump Record → ℕ)
    (record_length : Record → ℕ) (current : CanonicalDigest) (entity : CanonicalEntity)
    (cursor : Option String) (limit offset : ℕ) where
  -- What is sent is the page of what is collected, and fits.
  pub page_of_collected-sent :
      (c : Collected Record) (made : CanonicalPage Record)
      → page_of_collected current entity cursor limit frame_length record_length offset c ≡ ok made
      → (page_with current entity cursor limit c.records (offset + length c.records) ≡ made)
        × (page_envelope_size frame_length made ≤ max_frame_bytes)
  unfolding page_of_collected
  page_of_collected-sent c made h =
      let (kept, sent) = reject_if-eq-ok c.first_record_exceeds_frame _ _ h in
      let result = page_with current entity cursor limit c.records (offset + length c.records) in
      let (small, same) =
        reject_if-eq-ok (ltb max_frame_bytes (page_envelope_size frame_length result)) _ _ sent in
      let made_is = ok-injective result made same in
      (
        made_is,
        subst (λ m. page_envelope_size frame_length m ≤ max_frame_bytes) made_is
            (ground (arith, small)),
      )

  page_with-records :
      (records : List Record) (at : ℕ)
      → (page_with current entity cursor limit records at).records ≡ records
  unfolding page_with
  page_with-records records at = refl

  page_with-next_cursor :
      (records : List Record) (at : ℕ)
      → (page_with current entity cursor limit records at).next_cursor
        ≡ cursor_at at (count_of entity current.counts)
  unfolding page_with
  page_with-next_cursor records at = refl

  -- The facts of a page of what is collected from rows.
  unfoldable Windowed : List (Result Record) → CanonicalPage Record → Type 0
  Windowed rows made =
      (decoded made.records ≡ take (length made.records) (take limit (drop offset rows)))
      × (length made.records ≤ limit)
      × (made.next_cursor
          ≡ cursor_at (offset + length made.records) (count_of entity current.counts))
      × (page_envelope_size frame_length made ≤ max_frame_bytes)

  -- The page of what is collected from rows has the facts.
  collected-Windowed :
      (rows : List (Result Record)) (c : Collected Record) (made : CanonicalPage Record)
      → visit_rows
          (collect frame_length record_length current entity cursor limit offset)
          nothing_collected
          (take limit (drop offset rows))
        ≡ ok c
      → page_of_collected current entity cursor limit frame_length record_length offset c ≡ ok made
      → Windowed rows made
  unfolding Windowed
  collected-Windowed rows c made visited sent =
      let window = take limit (drop offset rows) in
      let (n, collected, within) =
        collect-prefix frame_length record_length current entity cursor limit offset window
          nothing_collected c visited in
      let counted : length c.records ≡ n = omega (
        arith,
        length-map (λ r. ok r) c.records,
        ap length collected,
        length-take n window,
        within,
      ) in
      let (same, fits) = page_of_collected-sent c made sent in
      let records_are : made.records ≡ c.records =
        sym (ap (λ m. m.records) same) ∙ page_with-records c.records (offset + length c.records) in
      (
        ap decoded records_are
            ∙ collected
            ∙ ap (λ k. take k window) (sym (ap length records_are ∙ counted)),
        omega (arith, counted, within, ap length records_are, length-take limit (drop offset rows)),
        sym (ap (λ m. m.next_cursor) same)
            ∙ page_with-next_cursor c.records (offset + length c.records)
            ∙ ap (λ k. cursor_at (offset + k) (count_of entity current.counts))
                (sym (ap length records_are)),
        fits,
      )

module _ {Dump Record : Type 0} (frame_length : ServerFrame Dump Record → ℕ) (limit offset : ℕ)
    (rows : List (Result Record)) where
  -- The window of the rows that a page shows, and how a client goes on behind it.
  abbrev pub IsWindow : CanonicalPage Record → Type 0
  IsWindow made =
      (decoded made.records ≡ take (length made.records) (take limit (drop offset rows)))
      × (length made.records ≤ limit)
      × Continues (offset + length made.records) rows made.next_cursor
      × (page_envelope_size frame_length made ≤ max_frame_bytes)

  Windowed-IsWindow :
      (record_length : Record → ℕ) (current : CanonicalDigest) (entity : CanonicalEntity)
      (cursor : Option String) (made : CanonicalPage Record)
      → count_of entity current.counts ≡ length rows
      → length rows ≤ max_u64
      → Windowed frame_length record_length current entity cursor limit offset rows made
      → IsWindow made
  unfolding Windowed
  Windowed-IsWindow record_length current entity cursor made counted in_u64
        (prefix, within, next, fits) =
      let reached = offset + length made.records in
      (
        prefix,
        within,
        subst (Continues reached rows) (sym (next ∙ ap (cursor_at reached) counted))
            (cursor_at-Continues reached rows in_u64),
        fits,
      )

module _ {Dump Number : Type 0} (media_metadata_json : SourceRevisionRow → String)
    (from_str : String → Option (Value Number))
    (frame_length : ServerFrame Dump (CanonicalRecord (Value Number)) → ℕ)
    (record_length : CanonicalRecord (Value Number) → ℕ) where
  abbrev pub page_at :
      Db
      → (current : CanonicalDigest) → CanonicalEntity
      → (cursor : Option String) → (limit : ℕ)
      → Result (CanonicalPage (CanonicalRecord (Value Number)))
  page_at = page_from_snapshot media_metadata_json from_str frame_length record_length

  -- The steps of a page that is made.
  pub page_from_snapshot-steps :
      (db : Db) (current : CanonicalDigest) (entity : CanonicalEntity) (cursor : Option String)
      (limit : ℕ) (made : CanonicalPage (CanonicalRecord (Value Number)))
      → page_at db current entity cursor limit ≡ ok made
      → (offset : ℕ) × (decode_cursor cursor ≡ ok offset)
        × (c : Collected (CanonicalRecord (Value Number))) × (visit_rows
              (collect frame_length record_length current entity cursor limit offset)
              nothing_collected
              (take limit (drop offset (selected media_metadata_json from_str db entity)))
            ≡ ok c)
        × (page_of_collected current entity cursor limit frame_length record_length offset c
            ≡ ok made)
  unfolding page_from_snapshot visit_records
  page_from_snapshot-steps db current entity cursor limit made h =
      let (good, h1) = reject_if-eq-ok (bad_limit limit) _ _ h in
      let (offset, located, h2) = >>=-eq-ok (decode_cursor cursor) _ h1 in
      let (inside, h3) = reject_if-eq-ok (ltb (count_of entity current.counts) offset) _ _ h2 in
      let (c, visited, h4) =
        >>=-eq-ok
          (visit_rows (collect frame_length record_length current entity cursor limit offset)
            nothing_collected
            (take limit (drop offset (selected media_metadata_json from_str db entity))))
          _ h3 in
      (offset, located, c, visited, h4)

  -- A page that is sent, of an entity whose digest counts its rows, holds the next records
  -- behind its offset, at most as many as its limit, and fits into a frame; where rows are left
  -- behind them, its cursor is read back as the offset of the first of those, and where none is
  -- left, it has no cursor.
  pub page_from_snapshot-IsWindow :
      (db : Db) (current : CanonicalDigest) (entity : CanonicalEntity) (cursor : Option String)
      (limit offset : ℕ) (made : CanonicalPage (CanonicalRecord (Value Number)))
      → count_of entity current.counts ≡ length (selected media_metadata_json from_str db entity)
      → length (selected media_metadata_json from_str db entity) ≤ max_u64
      → page_at db current entity cursor limit ≡ ok made
      → decode_cursor cursor ≡ ok offset
      → IsWindow frame_length limit offset (selected media_metadata_json from_str db entity) made
  page_from_snapshot-IsWindow db current entity cursor limit offset made counted in_u64 h at =
      let rows = selected media_metadata_json from_str db entity in
      let (found, located, c, visited, sent) =
        page_from_snapshot-steps db current entity cursor limit made h in
      let same = ok-injective found offset (sym located ∙ at) in
      let windowed =
        collected-Windowed frame_length record_length current entity cursor limit offset rows c made
          (rw (sym same) visited) (rw (sym same) sent) in
      Windowed-IsWindow frame_length limit offset rows record_length current entity cursor made
        counted in_u64 windowed
