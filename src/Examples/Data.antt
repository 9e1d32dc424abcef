-- ===== src/Examples/Data.antt =====
-- A small Library, for the examples.
use reference_library.Common.{ℕ, String, Bool, true, none, List, [], ◌∷◌}
use reference_library.Database.{Db, AssetRow, CollectionRow, MembershipRow}

abbrev pub all_parse : String → Bool
all_parse value = true

abbrev pub asset : String → ℕ → AssetRow
asset id revision = record {
  id = id;
  library_id = "l";
  custom_title = none;
  review_state = "unreviewed";
  note = none;
  tags = "red" ∷ [];
  used_in = [];
  revision = revision;
  created_at_ms = 1;
  updated_at_ms = 1;
}

abbrev pub collection : (id name : String) → (revision updated : ℕ) → CollectionRow
collection id name revision updated = record {
  id = id;
  library_id = "l";
  name = name;
  revision = revision;
  created_at_ms = 1;
  updated_at_ms = updated;
}

abbrev pub member : (collection_id asset_id : String) → ℕ → MembershipRow
member collection_id asset_id added = record {
  collection_id = collection_id;
  asset_id = asset_id;
  added_at_ms = added;
}

abbrev pub library :
    (revision updated : ℕ) → List AssetRow → List CollectionRow → List MembershipRow → Db
library revision updated assets collections members = record {
  library_meta = record {
    id = "l";
    name = "Trees";
    library_revision = revision;
    updated_at_ms = updated;
  };
  roots = [];
  sources = [];
  source_revisions = [];
  locations = [];
  assets = assets;
  asset_origins = [];
  jobs = [];
  collections = collections;
  collection_assets = members;
  app_events = [];
}

-- Two assets; one collection, which has the first.
abbrev pub start : Db
start =
    library 7 1 (asset "a1" 0 ∷ asset "a2" 0 ∷ []) (collection "c1" "Trees" 0 1 ∷ [])
      (member "c1" "a1" 1 ∷ [])
