-- ===== src/Editorial/Page/Longest.antt =====
-- On byte_bound_asset_page of crates/reference-core/src/editorial.rs.
use reference_library.Common.{
  ℕ, zero, suc, ◌+◌, ◌-◌, ◌/◌, ◌≤◌, ◌<◌, ◌≡◌, refl, sym, true, List, ltb, leb, take, length,
  length-take, arith, leb→le, Bool-cases, ◌⊎◌, inl, inr,
}
use reference_library.Fallible.{Result, ok, >>=-eq-ok}
use reference_library.Protocol.Limits.{max_frame_bytes}
use reference_library.Protocol.Results.{AssetFacets, AssetSummary, AssetPage}
use reference_library.Editorial.Page.{
  page_of, fits, search_largest, select_count, select_fewer, byte_bound_asset_page,
}

module _ (encoded_length : AssetPage → ℕ) (offset limit total : ℕ) (items : List AssetSummary)
    (library_revision : ℕ) (facets : AssetFacets) where
  abbrev page : ℕ → AssetPage
  page = page_of encoded_length offset limit total items library_revision facets

  abbrev size : ℕ → ℕ
  size count = encoded_length (page count) + 4

  abbrev search : ℕ → ℕ → ℕ → Result ℕ
  search = search_largest encoded_length offset limit total items library_revision facets

  -- A search that starts at a page that fits ends at one.
  search_largest-fits :
      (fuel low high : ℕ) {found : ℕ}
      → size low ≤ max_frame_bytes
      → search fuel low high ≡ ok found
      → size found ≤ max_frame_bytes
  unfolding search_largest fits
  search_largest-fits zero low high {found = found} h k =
      let same : low ≡ found = cc in rw (sym same) h
  search_largest-fits (suc fuel) low high {found = found} h k =
      let middle = low + (high - low + 1) / 2 in
      elim (Bool-cases (ltb low high)) [
        | inr done ↦ let same : low ≡ found = ground (arith, done, k) in rw (sym same) h
        | inl more ↦ elim (Bool-cases (leb (size middle) max_frame_bytes)) [
          | inl fit ↦
              search_largest-fits fuel middle high {found = found} (leb→le _ _ fit)
                (ground (arith, more, fit, k))
          | inr over ↦
              search_largest-fits fuel low (middle - 1) {found = found} h
                (ground (arith, more, over, k))
        ]
      ]

  -- With fuel for every candidate the search ends where the next page does not fit.
  search_largest-stops :
      (fuel low high : ℕ) {found : ℕ}
      → high ≤ low + fuel
      → low ≤ high
      → search fuel low high ≡ ok found
      → (found ≡ high) ⊎ (max_frame_bytes < size (found + 1))
  unfolding search_largest fits
  search_largest-stops zero low high h l k = inl (ground (arith, h, l, k))
  search_largest-stops (suc fuel) low high {found = found} h l k =
      let middle = low + (high - low + 1) / 2 in
      elim (Bool-cases (ltb low high)) [
        | inr done ↦ inl (ground (arith, done, l, k))
        | inl more ↦ elim (Bool-cases (leb (size middle) max_frame_bytes)) [
          | inl fit ↦
              search_largest-stops fuel middle high {found = found} (ground (arith, more, h))
                (ground (arith, more, h)) (ground (arith, more, fit, k))
          | inr over ↦
              elim (search_largest-stops fuel low (middle - 1) {found = found}
                (ground (arith, more, h)) (ground (arith, more, h))
                (ground (arith, more, over, k))) [
                  | inl e ↦
                      let next : found + 1 ≡ middle = ground (arith, more, e) in
                      inr (rw next (ground (arith, over)))
                  | inr e ↦ inr e
                ]
        ]
      ]

  search_largest-within :
      (fuel low high : ℕ) {found : ℕ} → low ≤ high → search fuel low high ≡ ok found → found ≤ high
  unfolding search_largest fits
  search_largest-within zero low high l k = ground (arith, l, k)
  search_largest-within (suc fuel) low high {found = found} l k =
      let middle = low + (high - low + 1) / 2 in
      elim (Bool-cases (ltb low high)) [
        | inr done ↦ ground (arith, done, l, k)
        | inl more ↦ elim (Bool-cases (leb (size middle) max_frame_bytes)) [
          | inl fit ↦
              search_largest-within fuel middle high {found = found} (ground (arith, more))
                (ground (arith, more, fit, k))
          | inr over ↦
              let rest =
                search_largest-within fuel low (middle - 1) {found = found} (ground (arith, more))
                  (ground (arith, more, over, k)) in
              ground (arith, more, rest)
        ]
      ]

  abbrev selection : Result ℕ
  selection = select_count encoded_length offset limit total items library_revision facets

  abbrev bounded_page : Result AssetPage
  bounded_page =
      byte_bound_asset_page encoded_length offset limit total items library_revision facets

  -- The three facts about the number of items that is selected.
  select_count-facts :
      (n : ℕ)
      → selection ≡ ok n
      → (size n ≤ max_frame_bytes)
        × ((n ≡ length items) ⊎ (max_frame_bytes < size (n + 1)))
        × (n ≤ length items)
  unfolding select_count select_fewer fits
  select_count-facts n h = elim (Bool-cases (leb (size (length items)) max_frame_bytes)) [
    | inl all ↦
        let same : length items ≡ n = ground (arith, all, h) in
        rw (sym same) (leb→le _ _ all, inl refl, omega arith)
    | inr some_left ↦
        let searched : search (length items) 1 (length items) ≡ ok n =
          ground (arith, some_left, h) in
        let one : leb (size 1) max_frame_bytes ≡ true = ground (arith, some_left, h) in
        let nonempty : 1 ≤ length items = ground (arith, some_left, h) in
        (
          search_largest-fits (length items) 1 (length items) (leb→le _ _ one) searched,
          search_largest-stops (length items) 1 (length items) (omega arith) nonempty searched,
          search_largest-within (length items) 1 (length items) nonempty searched,
        )
  ]

  bounded_page-selection :
      {made : AssetPage} → bounded_page ≡ ok made → (n : ℕ) × (selection ≡ ok n) × (page n ≡ made)
  unfolding byte_bound_asset_page
  bounded_page-selection {made = made} h =
      let bound = >>=-eq-ok selection _ h in (bound.0, bound.1, ground (arith, bound.2))

  page_of-length : (n : ℕ) → length (page n).items ≡ length (take n items)
  unfolding page_of
  page_of-length n = refl

  -- A page that is sent fits, with its length prefix, into the frame limit.
  pub byte_bound_asset_page-fits :
      (made : AssetPage) → bounded_page ≡ ok made → encoded_length made + 4 ≤ max_frame_bytes
  byte_bound_asset_page-fits made h =
      let (n, chosen, same) = bounded_page-selection h in
      rw (sym same) (select_count-facts n chosen).0

  -- Where of two pages with some of the items the one with more of them never encodes shorter,
  -- no page with more of the items than the page that is sent would fit into a frame.
  pub byte_bound_asset_page-longest :
      ((a b : ℕ) → a ≤ b → b ≤ length items → encoded_length (page a) ≤ encoded_length (page b))
      → (made : AssetPage) → bounded_page ≡ ok made
      → (count : ℕ) → count ≤ length items
      → length made.items < count
      → max_frame_bytes < encoded_length (page count) + 4
  byte_bound_asset_page-longest monotone made h count within more =
      let (n, chosen, same) = bounded_page-selection h in
      let (fit, next, bound) = select_count-facts n chosen in
      let sent : length made.items ≡ length (take n items) = rw (sym same) (page_of-length n) in
      let counted = length-take n items in
      elim next [
        | inl e ↦ ground (arith, e, within, more, sent, counted)
        | inr over ↦
            let wider =
              monotone (n + 1) count (ground (arith, more, sent, counted, bound)) within in
            ground (arith, over, wider)
      ]
