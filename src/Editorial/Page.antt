-- ===== src/Editorial/Page.antt =====
-- A page of assets that fits into one frame: `byte_bound_asset_page` of
-- crates/reference-core/src/editorial.rs. `encoded_length` stands for the length of
-- `serde_json::to_vec` of the response frame that carries a page.
pub mod Longest
use reference_library.Common.{
  ℕ, zero, suc, ◌+◌, ◌-◌, ◌/◌, String, Bool, true, false, Option, none, some, List, [], ◌∷◌, ltb,
  leb, min, take, length, if◌then◌else◌,
}
use reference_library.Common.Decimal.{max_u64}
use reference_library.Errors.{query_invalid, query_result_too_large}
use reference_library.Fallible.{Result, ok, err, ◌>>=◌, ◌>>◌, reject_if}
use reference_library.Protocol.Limits.{max_frame_bytes}
use reference_library.Protocol.Results.{AssetFacets, AssetSummary, AssetPage}

module _ (encoded_length : AssetPage → ℕ) (offset limit total : ℕ) (items : List AssetSummary)
    (library_revision : ℕ) (facets : AssetFacets) where
  -- The page of the first `count` items.
  unfoldable pub page_of : ℕ → AssetPage
  page_of count = record {
    offset = offset;
    limit = limit;
    total = total;
    items = take count items;
    next_offset = if ltb (offset + count) total then some (offset + count) else none;
    library_revision = library_revision;
    facets = facets;
  }

  -- The closure `fits`; `saturating_add(4)` cannot reach its limit below the bound.
  unfoldable pub fits : ℕ → Result Bool
  unfolding page_of
  fits count =
      if ltb max_u64 (offset + count)
      then err (query_invalid "query offset is outside supported range")
      else ok (leb (encoded_length (page_of count) + 4) max_frame_bytes)

  -- `while low < high`, on fuel: `high - low` shrinks in every round.
  unfoldable pub search_largest : ℕ → (low high : ℕ) → Result ℕ
  search_largest zero low high = ok low
  search_largest (suc fuel) low high =
      let middle = low + (high - low + 1) / 2 in
      let upper = search_largest fuel middle high in
      let lower = search_largest fuel low (middle - 1) in
      if ltb low high then (do fitting ← fits middle; if fitting then upper else lower) else ok low

  -- `items.is_empty() || !fits(1)?`, and the search.
  unfoldable pub select_fewer : Result ℕ
  unfolding fits search_largest
  select_fewer = if leb (length items) 0 then err query_result_too_large else (do
    one ← fits 1
    (if one then search_largest (length items) 1 (length items) else err query_result_too_large))

  unfoldable pub select_count : Result ℕ
  unfolding fits select_fewer
  select_count = do all ← fits (length items); (if all then ok (length items) else select_fewer)

  unfoldable pub byte_bound_asset_page : Result AssetPage
  unfolding select_count page_of
  byte_bound_asset_page = do
    selected ← select_count
    reject_if (ltb max_u64 (offset + selected))
        (query_invalid "query offset is outside supported range")
    ok (page_of selected)
