-- ===== src/Canonical/Page/Walk.antt =====
-- A client that follows the cursors of page_from_snapshot, crates/reference-core/src/canonical.rs,
-- while the tables stay as they are.
use reference_library.Common.{
  ℕ, zero, suc, ◌+◌, ◌≤◌, ◌<◌, ◌≡◌, refl, sym, ap, ◌∙◌, inl, inr, String, Option, true, false, none,
  some, List, [], ◌++◌, length, length-drop, take, drop, drop-drop, drop_all, take-append-drop, All,
  ltb, Bool-cases, arith,
}
use reference_library.Common.Decimal.{max_u64}
use reference_library.Fallible.{Result, ok, ◌>>=◌}
use reference_library.Database.{Db, SourceRevisionRow}
use reference_library.Protocol.Limits.{max_frame_bytes}
use reference_library.Protocol.States.{CanonicalEntity}
use reference_library.Protocol.Results.{CanonicalDigest, CanonicalPage}
use reference_library.Protocol.Canonical.{CanonicalRecord}
use reference_library.Protocol.Frame.{ServerFrame}
use reference_library.Canonical.Cursor.{decode_cursor, encode_cursor, decode_cursor-encode_cursor}
use reference_library.Canonical.Json.{Value}
use reference_library.Canonical.Records.{selected}
use reference_library.Canonical.Page.{
  count_of, page_with, page_envelope_size, bad_limit, page_from_snapshot,
}
use reference_library.Canonical.Page.Collect.{decoded, content_length, envelope}
use reference_library.Canonical.Page.Window.{page_at}
use reference_library.Canonical.Page.Sent.{page_at-sent}

module _ {Dump Number : Type 0} (media_metadata_json : SourceRevisionRow → String)
    (from_str : String → Option (Value Number))
    (frame_length : ServerFrame Dump (CanonicalRecord (Value Number)) → ℕ)
    (record_length : CanonicalRecord (Value Number) → ℕ) (db : Db) (current : CanonicalDigest)
    (entity : CanonicalEntity) (limit : ℕ) where
  abbrev page_behind : Option String → Result (CanonicalPage (CanonicalRecord (Value Number)))
  page_behind cursor =
      page_at media_metadata_json from_str frame_length record_length db current entity cursor limit

  -- The records of at most this many pages, each asked for with the cursor of the page before.
  unfoldable pub walk : ℕ → Option String → Result (List (CanonicalRecord (Value Number)))
  unfolding page_from_snapshot
  walk zero cursor = ok []
  walk (suc fuel) cursor = do
    made ← page_behind cursor
    rest ← elim made.next_cursor [ none ↦ ok [] | some next ↦ walk fuel (some next) ]
    ok (made.records ++ rest)

  module _
      (writes_records : (page : CanonicalPage (CanonicalRecord (Value Number)))
        → page_envelope_size frame_length page
          ≡ page_envelope_size frame_length (record page { records = [] })
            + content_length record_length page.records)
      (records : List (CanonicalRecord (Value Number)))
      (are_selected : selected media_metadata_json from_str db entity ≡ decoded records)
      (are_counted : count_of entity current.counts ≡ length records)
      (in_u64 : length records ≤ max_u64) (longest : ℕ)
      (are_short : All (λ r. record_length r ≤ longest) records)
      (has_limit : bad_limit limit ≡ false)
      (room : (cursor : Option String) (offset at : ℕ)
        → decode_cursor cursor ≡ ok offset
        → envelope frame_length record_length current entity cursor limit offset at + longest
          ≤ max_frame_bytes) where
    walk-last :
        (fuel n offset : ℕ) (cursor : Option String)
        → page_behind cursor
          ≡ ok (page_with current entity cursor limit (take n (drop offset records)) (offset + n))
        → ltb (offset + n) (count_of entity current.counts) ≡ false
        → walk (suc fuel) cursor ≡ ok (take n (drop offset records) ++ [])
    unfolding walk page_with
    walk-last fuel n offset cursor sent over = rw (sent, over) refl

    walk-next :
        (fuel n offset : ℕ) (cursor : Option String) (rest : List (CanonicalRecord (Value Number)))
        → page_behind cursor
          ≡ ok (page_with current entity cursor limit (take n (drop offset records)) (offset + n))
        → ltb (offset + n) (count_of entity current.counts) ≡ true
        → walk fuel (some (encode_cursor (offset + n))) ≡ ok rest
        → walk (suc fuel) cursor ≡ ok (take n (drop offset records) ++ rest)
    unfolding walk page_with
    walk-next fuel n offset cursor rest sent more went_on = rw (sent, more, went_on) refl

    walk-from :
        (fuel offset : ℕ) (cursor : Option String)
        → decode_cursor cursor ≡ ok offset
        → offset ≤ length records
        → length records < offset + fuel
        → walk fuel cursor ≡ ok (drop offset records)
    walk-from zero offset cursor located inside enough = absurd (omega (arith, inside, enough))
    walk-from (suc fuel) offset cursor located inside enough =
        let ahead = drop offset records in
        let (n, sent, grows, bound) =
          page_at-sent media_metadata_json from_str frame_length record_length writes_records db
            current entity limit records are_selected are_counted longest are_short has_limit cursor
            offset located inside (λ at. room cursor offset at located) in
        elim (Bool-cases (ltb (offset + n) (count_of entity current.counts))) [
          | inl more ↦
              let left : offset + n < length records = ground (arith, more, are_counted) in
              let one : 1 ≤ n = grows (omega (arith, left)) in
              let onward =
                walk-from fuel (offset + n) (some (encode_cursor (offset + n)))
                  (decode_cursor-encode_cursor (offset + n) (omega (arith, bound, in_u64))) bound
                  (omega (arith, enough, one)) in
              walk-next fuel n offset cursor (drop (offset + n) records) sent more onward
              ∙ ap (λ rest. ok (take n ahead ++ rest)) (sym (drop-drop offset n records))
              ∙ ap (λ rs. ok rs) (take-append-drop n ahead)
          | inr over ↦
              let reached : length ahead ≤ n =
                ground (arith, over, are_counted, length-drop offset records) in
              walk-last fuel n offset cursor sent over
              ∙ ap (λ rest. ok (take n ahead ++ rest)) (sym (drop_all n ahead reached))
              ∙ ap (λ rs. ok rs) (take-append-drop n ahead)
        ]

    -- Where every row of an entity is decoded, its digest counts them, none of the records is
    -- longer than the room that an empty page leaves in a frame, and the codec writes a list of
    -- records as their lengths with one byte between each two, the pages that a client asks for,
    -- each with the cursor of the page before and any accepted limit, all succeed, end, and hold
    -- together the records of the entity, in order and once each.
    pub walk-all : walk (suc (length records)) none ≡ ok records
    unfolding decode_cursor
    walk-all = walk-from (suc (length records)) 0 none refl (omega arith) (omega arith)
