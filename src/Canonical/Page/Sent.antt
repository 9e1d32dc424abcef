-- ===== src/Canonical/Page/Sent.antt =====
-- Where page_from_snapshot of crates/reference-core/src/canonical.rs sends a page.
use reference_library.Common.{
  ℕ, ◌+◌, ◌≤◌, ◌<◌, ◌≡◌, refl, ap, ◌∙◌, String, false, Option, List, [], length, length-take,
  length-drop, take, drop, take-take, take-map, drop-map, All, All-take, All-drop, ltb, arith,
}
use reference_library.Fallible.{Result, ok}
use reference_library.Database.{Db, SourceRevisionRow}
use reference_library.Protocol.Limits.{max_frame_bytes}
use reference_library.Protocol.States.{CanonicalEntity}
use reference_library.Protocol.Results.{CanonicalDigest, CanonicalPage}
use reference_library.Protocol.Canonical.{CanonicalRecord}
use reference_library.Protocol.Frame.{ServerFrame}
use reference_library.Canonical.Cursor.{decode_cursor}
use reference_library.Canonical.Json.{Value}
use reference_library.Canonical.Records.{selected, visit_rows, visit_records}
use reference_library.Canonical.Page.{
  Collected, count_of, page_with, page_envelope_size, page_of_collected, nothing_collected,
  bad_limit, page_from_snapshot,
}
use reference_library.Canonical.Page.Collect.{
  collect, decoded, content_length, envelope, IsFit, collect-Ends,
}
use reference_library.Canonical.Page.Window.{page_at}

module _ {Dump Record : Type 0} (frame_length : ServerFrame Dump Record → ℕ)
    (record_length : Record → ℕ)
    (writes_records : (page : CanonicalPage Record)
      → page_envelope_size frame_length page
        ≡ page_envelope_size frame_length (record page { records = [] })
          + content_length record_length page.records) where
  module _ (current : CanonicalDigest) (entity : CanonicalEntity) (cursor : Option String)
      (limit offset : ℕ) where
    abbrev size_from : List Record → ℕ → ℕ
    size_from records at =
        page_envelope_size frame_length (page_with current entity cursor limit records at)

    size_from-split :
        (records : List Record) (at : ℕ)
        → size_from records at ≡ size_from [] at + content_length record_length records
    unfolding page_with
    size_from-split records at = writes_records (page_with current entity cursor limit records at)

    -- The last test never refuses what has been collected.
    pub page_of_collected-fit :
        (c : Collected Record)
        → IsFit frame_length record_length current entity cursor limit offset c
        → page_of_collected current entity cursor limit frame_length record_length offset c
          ≡ ok (page_with current entity cursor limit c.records (offset + length c.records))
    unfolding page_of_collected
    page_of_collected-fit c (kept, counted, within) =
        let small : ltb max_frame_bytes (size_from c.records (offset + length c.records)) ≡ false =
          ground (arith, size_from-split c.records (offset + length c.records), counted, within) in
        rw (kept, small) refl

bad_limit-positive : (limit : ℕ) → bad_limit limit ≡ false → 1 ≤ limit
bad_limit-positive limit h = ground (arith, h)

module _ {Dump Number : Type 0} (media_metadata_json : SourceRevisionRow → String)
    (from_str : String → Option (Value Number))
    (frame_length : ServerFrame Dump (CanonicalRecord (Value Number)) → ℕ)
    (record_length : CanonicalRecord (Value Number) → ℕ)
    (writes_records : (page : CanonicalPage (CanonicalRecord (Value Number)))
      → page_envelope_size frame_length page
        ≡ page_envelope_size frame_length (record page { records = [] })
          + content_length record_length page.records)
    (db : Db) (current : CanonicalDigest) (entity : CanonicalEntity) (limit : ℕ)
    (records : List (CanonicalRecord (Value Number)))
    (are_selected : selected media_metadata_json from_str db entity ≡ decoded records)
    (are_counted : count_of entity current.counts ≡ length records) (longest : ℕ)
    (are_short : All (λ r. record_length r ≤ longest) records)
    (has_limit : bad_limit limit ≡ false) where
  abbrev rows_at : ℕ → List (Result (CanonicalRecord (Value Number)))
  rows_at offset = take limit (drop offset (selected media_metadata_json from_str db entity))

  rows_at-decoded : (offset : ℕ) → rows_at offset ≡ decoded (take limit (drop offset records))
  rows_at-decoded offset =
      ap (λ rows. take limit (drop offset rows)) are_selected
      ∙ ap (take limit) (drop-map (λ r. ok r) offset records)
      ∙ take-map (λ r. ok r) limit (drop offset records)

  page_at-made :
      (cursor : Option String) (offset : ℕ)
      → decode_cursor cursor ≡ ok offset
      → offset ≤ length records
      → (c : Collected (CanonicalRecord (Value Number)))
      → visit_rows
          (collect frame_length record_length current entity cursor limit offset)
          nothing_collected
          (rows_at offset)
        ≡ ok c
      → page_at media_metadata_json from_str frame_length record_length db current entity cursor
          limit
        ≡ page_of_collected current entity cursor limit frame_length record_length offset c
  unfolding page_from_snapshot visit_records
  page_at-made cursor offset located inside c visited =
      let in_range : ltb (count_of entity current.counts) offset ≡ false =
        ground (arith, are_counted, inside) in
      rw (has_limit, located, in_range, visited) refl

  -- Within the entity a page is sent; it has the next records, one at least where one is left.
  pub page_at-sent :
      (cursor : Option String) (offset : ℕ)
      → decode_cursor cursor ≡ ok offset
      → offset ≤ length records
      → ((at : ℕ)
          → envelope frame_length record_length current entity cursor limit offset at + longest
            ≤ max_frame_bytes)
      → (n : ℕ) × (page_at media_metadata_json from_str frame_length record_length db current entity
            cursor limit
          ≡ ok (page_with current entity cursor limit (take n (drop offset records)) (offset + n)))
        × (offset < length records → 1 ≤ n)
        × (offset + n ≤ length records)
  page_at-sent cursor offset located inside room =
      let window = take limit (drop offset records) in
      let (c, visited, (n, same, within, fit, grows)) =
        collect-Ends frame_length record_length current entity cursor limit offset longest room
          window nothing_collected
          (
            refl,
            refl,
            omega (arith, room (offset + length {A = CanonicalRecord (Value Number)} [])),
          )
          (All-take _ limit (drop offset records) (All-drop _ offset records are_short)) in
      let sized = length-take limit (drop offset records) in
      let left = length-drop offset records in
      let collected : c.records ≡ take n (drop offset records) =
        same ∙ take-take n limit (drop offset records) (omega (arith, within, sized)) in
      let counted : length c.records ≡ n =
        omega (arith, ap length same, length-take n window, within) in
      let nonempty = bad_limit-positive limit has_limit in
      (
        n,
        page_at-made cursor offset located inside c (rw (rows_at-decoded offset) visited)
            ∙ page_of_collected-fit frame_length record_length writes_records current entity cursor
                limit offset c fit
            ∙ ap (λ k. ok (page_with current entity cursor limit c.records (offset + k))) counted
            ∙ ap (λ rs. ok (page_with current entity cursor limit rs (offset + n))) collected,
        λ more. grows refl (omega (arith, sized, left, more, nonempty)),
        omega (arith, within, sized, left, inside),
      )
