-- ===== src/Lib.antt =====
-- Reference Library core: a catalogue of linked folders of media, run as a helper process that
-- answers framed JSON commands. The crates are crates/reference-protocol (the messages) and
-- crates/reference-core (the library). A command reaches the engine of server.rs, which calls an open
-- session; the session runs statements of editorial.rs on the Library's SQLite tables, or starts scans
-- (discovery.rs) and renditions (rendition.rs) that report by events.
--
-- Which file models which part:
--   Protocol/*      crates/reference-protocol/src/lib.rs: limits, enumerations, patches, commands,
--                   results, events and frames; Wire is read_frame and write_frame on lists of bytes.
--   Errors          crates/reference-core/src/error.rs: CoreError, its text, to_protocol_error.
--   Fallible        Result<T, CoreError> with its `?`.
--   Database        the tables of migrations/*.sql as lists of rows, and bump_revision of session.rs.
--   Editorial/*     crates/reference-core/src/editorial.rs: TextPatches and Tokens normalise what a
--                   client sends, Collections and Membership are the calls on collections, Assets is
--                   update_asset with asset_detail, Located is its preferred location, Page is
--                   byte_bound_asset_page, Search is validate_query, escape_like and the pattern of
--                   query_assets, Preview is preview_kind_for_mime.
--   Discovery/*     crates/reference-core/src/discovery.rs: Media is classify_media and
--                   valid_dimensions, Inspect is inspect_file, Match is existing_location and
--                   relocated_location, Store is refresh_existing, relocate_existing and insert_new,
--                   Flush is flush_batch, Unseen is mark_unseen, Walk is the loop of run_scan, Scan is
--                   scan_root and finish_cancelled, Marks is mark_completed, mark_cancelled and
--                   mark_failed.
--   Rendition       crates/reference-core/src/rendition.rs: the supported media types.
--   Canonical/*     crates/reference-core/src/canonical.rs: Json is write_canonical_json and
--                   normalize_json, Records is visit_records and entity_count, Page is
--                   page_from_snapshot, Digest is digest_snapshot, digest, page and page_verified,
--                   Cursor is decode_cursor and encode_cursor.
--   Server/*        crates/reference-core/src/server.rs: Engine is CommandEngine's tables and queues
--                   with the resource work, Jobs is reap_finished_scans, stop_jobs_for_session and
--                   stop_all_jobs, Api is what the engine calls of a session, Call, Arms and Execute
--                   are execute, Loop is the arms of run_server, Reply is write_server_frame and
--                   valid_request_id.
--   Session/*       crates/reference-core/src/session.rs: Authority is AuthorizedRoot and the checks
--                   on paths, Evidence is validate_root_evidence, Roots is add_root and list_roots,
--                   Bind is bind_root, scan_bound_root and what open does to the tables, Resources is
--                   resource_plan, start_resource_authorization and resolve_location, Jobs is
--                   fail_resource_job and job_state with update_job and prune_jobs of rendition.rs,
--                   Canonical is canonical_digest and canonical_page.
--   Common/*        tests, lists, texts, decimal numbers, the order of texts, the stable sort.
--   Examples/*      the theorems at concrete inputs.
--
-- A call on the tables takes them and returns its result with the new tables; where it fails its
-- transaction is dropped. Identifiers that are made, and the time, are arguments. Parameters stand for
-- other programs: the JSON codec and the length of an encoded page, SHA-256, what a disk answers to a
-- scan and the flag that cancels it, SQLite's LIKE and lower, Uuid::parse_str, Rust's
-- to_lowercase, Path::file_name and Path::join, the file system with its descriptors and the hash of a
-- file, the waiting for a worker. The calls of a session are a record that the engine takes, since it
-- uses nothing else of a session. A HashMap is an association list; where its order is not determined,
-- the model takes the order of the list. Numbers are natural numbers; an offset is checked
-- against the largest u64 as the source does. The search for the longest page runs on fuel, the number
-- of items, which is enough since every round shrinks the interval; that it is enough is part of the
-- theorem on the longest page. The loop of a scan runs on fuel, two more than the entries that a scan
-- may come past, which its theorem shows to be enough; the pages of mark_unseen run on fuel, one more
-- than the locations, and its theorem shows that more change nothing.
--
-- Not modelled: SQLite and its planner, file systems, threads beyond the steps of the engine and its
-- workers, image decoding, the statements of query_assets but for its search pattern, query_jobs, scans on
-- other systems than Unix, the files of a package, the legacy dump, schema migration, and the applications and
-- packages around the core.
pub mod Common
pub mod Protocol
pub mod Errors
pub mod Fallible
pub mod Database
pub mod Editorial
pub mod Discovery
pub mod Rendition
pub mod Server
pub mod Session
pub mod Canonical
pub mod Examples
