-- ===== src/Canonical/Page/Collect.antt =====
-- On the closure of page_from_snapshot of crates/reference-core/src/canonical.rs.
use reference_library.Common.{
  is_nil, ℕ, suc, ◌+◌, ◌≤◌, ◌≡◌, refl, sym, ap, ◌∙◌, inl, inr, String, Bool, true, false, Option,
  List, [], ◌∷◌, ◌++◌, map, append-nil, map-append, append_assoc, length, length-append, take, All,
  ltb, if◌then◌else◌, Bool-cases, arith,
}
use reference_library.Fallible.{ok-injective, Result, ok, err}
use reference_library.Protocol.Limits.{max_frame_bytes}
use reference_library.Protocol.States.{CanonicalEntity}
use reference_library.Protocol.Results.{CanonicalDigest}
use reference_library.Protocol.Frame.{ServerFrame}
use reference_library.Canonical.Records.{visit_rows}
use reference_library.Canonical.Page.{
  Collected, empty_page_envelope_size, candidate_record_bytes, collect_record,
}

-- Rows that are all decoded.
abbrev pub decoded : {Record : Type 0} → List Record → List (Result Record)
decoded records = map (λ r. ok r) records

module _ {Record : Type 0} (record_length : Record → ℕ) where
  -- The bytes of the records with a separator between each two.
  abbrev pub content_length : List Record → ℕ
  content_length [] = 0
  content_length (r ∷ []) = record_length r
  content_length (r ∷ (s ∷ rs)) = record_length r + 1 + content_length (s ∷ rs)

  pub content_length-snoc :
      (rs : List Record) (r : Record)
      → content_length (rs ++ (r ∷ []))
        ≡ content_length rs + (if is_nil rs then 0 else 1) + record_length r
  content_length-snoc [] r = omega arith
  content_length-snoc (x ∷ []) r = omega arith
  content_length-snoc (x ∷ (y ∷ rs)) r = omega (arith, content_length-snoc (y ∷ rs) r)

module _ {Dump Record : Type 0} (frame_length : ServerFrame Dump Record → ℕ)
    (record_length : Record → ℕ) (current : CanonicalDigest) (entity : CanonicalEntity)
    (cursor : Option String) (limit offset : ℕ) where
  abbrev pub collect : Collected Record → Record → Result (Collected Record × Bool)
  collect = collect_record current entity cursor limit frame_length record_length offset

  -- The envelope of a page that ends at the offset.
  abbrev pub envelope : (at : ℕ) → ℕ
  envelope = empty_page_envelope_size current entity cursor limit frame_length record_length offset

  abbrev pub candidate_bytes : Collected Record → Record → ℕ
  candidate_bytes =
      candidate_record_bytes current entity cursor limit frame_length record_length offset

  -- The next record does not fit.
  abbrev pub exceeds : Collected Record → Record → Bool
  exceeds s r =
      ltb max_frame_bytes (envelope (offset + (length s.records + 1)) + candidate_bytes s r)

  abbrev pub stopped : Collected Record → Collected Record
  stopped s = record s { first_record_exceeds_frame = is_nil s.records }

  abbrev pub extended : Collected Record → Record → Collected Record
  extended s r = record s {
    records = s.records ++ (r ∷ []);
    record_content_bytes = candidate_bytes s r;
  }

  pub collect-over :
      (s : Collected Record) (r : Record) (rows : List (Result Record))
      → exceeds s r ≡ true
      → visit_rows collect s (ok r ∷ rows) ≡ ok (stopped s)
  unfolding collect_record
  collect-over s r rows e = rw e refl

  pub collect-fit :
      (s : Collected Record) (r : Record) (rows : List (Result Record))
      → exceeds s r ≡ false
      → visit_rows collect s (ok r ∷ rows) ≡ visit_rows collect (extended s r) rows
  unfolding collect_record
  collect-fit s r rows e = rw e refl

  -- The records that are collected are the next ones, as they are decoded.
  pub collect-prefix :
      (rows : List (Result Record)) (s made : Collected Record)
      → visit_rows collect s rows ≡ ok made
      → (n : ℕ) × (decoded made.records ≡ decoded s.records ++ take n rows) × (n ≤ length rows)
  collect-prefix [] s made h = (
    0,
    ap (λ m. decoded m.records) (sym (ok-injective s made h)) ∙ sym (append-nil _),
    omega arith,
  )
  collect-prefix (err cause ∷ rows) s made h = cc
  collect-prefix (ok r ∷ rows) s made h = elim (Bool-cases (exceeds s r)) [
    | inl over ↦ (
      0,
      ap (λ m. decoded m.records)
            (sym (ok-injective (stopped s) made (sym (collect-over s r rows over) ∙ h)))
          ∙ sym (append-nil _),
      omega arith,
    )
    | inr fit ↦
        let (n, same, bound) =
          collect-prefix rows (extended s r) made (sym (collect-fit s r rows fit) ∙ h) in
        (
          suc n,
          same
              ∙ ap (λ front. front ++ take n rows) (map-append (λ r. ok r) s.records (r ∷ []))
              ∙ append_assoc (decoded s.records) (ok r ∷ []) (take n rows),
          omega (arith, bound),
        )
  ]

  -- What is collected would fit as a page.
  abbrev pub IsFit : Collected Record → Type 0
  IsFit s =
      (s.first_record_exceeds_frame ≡ false)
      × (s.record_content_bytes ≡ content_length record_length s.records)
      × (envelope (offset + length s.records) + s.record_content_bytes ≤ max_frame_bytes)

  extended-IsFit :
      (s : Collected Record) (r : Record) → exceeds s r ≡ false → IsFit s → IsFit (extended s r)
  extended-IsFit s r fit (none_over, counted, within) =
      let one_more = length-append s.records (r ∷ []) in
      (
        none_over,
        rw counted (sym (content_length-snoc record_length s.records r)),
        rw one_more (ground (arith, fit)),
      )

  module _ (longest : ℕ) (room : (at : ℕ) → envelope at + longest ≤ max_frame_bytes) where
    nil_content : (rs : List Record) → is_nil rs ≡ true → content_length record_length rs ≡ 0
    nil_content [] e = refl
    nil_content (r ∷ rs) e = cc

    -- The first record always fits.
    not_first :
        (s : Collected Record) (r : Record)
        → record_length r ≤ longest
        → exceeds s r ≡ true
        → s.record_content_bytes ≡ content_length record_length s.records
        → is_nil s.records ≡ false
    not_first s r small over counted = elim (Bool-cases (is_nil s.records)) [
      | inr e ↦ e
      | inl e ↦
          let none_yet = counted ∙ nil_content s.records e in
          let spare = room (offset + (length s.records + 1)) in
          ground (arith, over, e, none_yet, spare, small)
    ]

    -- What the visit of records that are all short enough ends with.
    abbrev pub Ends : List Record → Collected Record → Collected Record → Type 0
    Ends rs s made =
        (n : ℕ) × (made.records ≡ s.records ++ take n rs)
        × (n ≤ length rs)
        × IsFit made
        × (is_nil s.records ≡ true → 1 ≤ length rs → 1 ≤ n)

    pub collect-Ends :
        (rs : List Record) (s : Collected Record)
        → IsFit s
        → All (λ r. record_length r ≤ longest) rs
        → (made : Collected Record) × (visit_rows collect s (decoded rs) ≡ ok made) × Ends rs s made
    collect-Ends [] s fit small = (
      s,
      refl,
      (0, sym (append-nil s.records), omega arith, fit, λ e l. absurd (omega (arith, l))),
    )
    collect-Ends (r ∷ rs) s fit small = elim (Bool-cases (exceeds s r)) [
      | inl over ↦
          let later = not_first s r small.0 over fit.1 in
          (
            stopped s,
            collect-over s r (decoded rs) over,
            (0, sym (append-nil s.records), omega arith, (later, fit.1, fit.2), λ e l. cc),
          )
      | inr fits ↦
          let (made, ends, (n, same, bound, fit_made, grows)) =
            collect-Ends rs (extended s r) (extended-IsFit s r fits fit) small.1 in
          (
            made,
            collect-fit s r (decoded rs) fits ∙ ends,
            (
              suc n,
              same ∙ append_assoc s.records (r ∷ []) (take n rs),
              omega (arith, bound),
              fit_made,
              λ e l. omega arith,
            ),
          )
    ]
