-- ===== src/Protocol/Limits.antt =====
-- The protocol's bounds, crates/reference-protocol/src/lib.rs.
use reference_library.Common.{ℕ, ◌*◌}

abbrev pub protocol_version : ℕ
protocol_version = 1

abbrev pub max_frame_bytes : ℕ
max_frame_bytes = 1024 * 1024

abbrev pub max_request_id_bytes : ℕ
max_request_id_bytes = 128

abbrev pub max_page_size : ℕ
max_page_size = 250

abbrev pub max_job_page_size : ℕ
max_job_page_size = 100

abbrev pub max_canonical_page_size : ℕ
max_canonical_page_size = 250

abbrev pub max_search_chars : ℕ
max_search_chars = 200

abbrev pub max_title_chars : ℕ
max_title_chars = 500

abbrev pub max_note_chars : ℕ
max_note_chars = 5000

abbrev pub max_collection_name_chars : ℕ
max_collection_name_chars = 200

abbrev pub max_collection_membership_batch : ℕ
max_collection_membership_batch = 250

abbrev pub max_root_name_chars : ℕ
max_root_name_chars = 200

abbrev pub max_roots : ℕ
max_roots = 64

abbrev pub max_collections : ℕ
max_collections = 512

abbrev pub max_asset_collections : ℕ
max_asset_collections = max_collections

abbrev pub max_asset_tokens : ℕ
max_asset_tokens = 64

abbrev pub max_asset_token_chars : ℕ
max_asset_token_chars = 100

abbrev pub max_asset_query_values : ℕ
max_asset_query_values = 128
