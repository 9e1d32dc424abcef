-- ===== src/Discovery/Flush.antt =====
-- A batch of files: `flush_batch` of crates/reference-core/src/discovery.rs, with `record_event`. A
-- transaction that fails is dropped.
use reference_library.Common.{
  ℕ, ◌+◌, String, Bool, Option, false, none, some, List, [], ◌∷◌, ◌++◌, any, str_eq, if◌then◌else◌,
  same_bytes, is_nil,
}
use reference_library.Fallible.{Result, ok, ◌>>=◌}
use reference_library.Database.{Db, bump_revision, update_where}
use reference_library.Protocol.Event.{Event}
use reference_library.Discovery.Marks.{ScanPlan, is_job}
use reference_library.Discovery.Match.{
  FileCandidate, ExistingLocation, existing_location, relocated_location,
}
use reference_library.Discovery.Store.{NewIds, relocate_existing, refresh_existing, insert_new}

-- The tables with the temporary table `scan_seen`, and the counts of a scan.
pub record Scanned : Type 0 where
  pub db : Db
  pub scan_seen : List (List ℕ)
  pub observed_count : ℕ
  pub unsupported_count : ℕ

-- A file of a batch, with the identifiers that are made for it.
abbrev pub Candidates : Type 0
Candidates = List (FileCandidate × NewIds)

-- `INSERT OR IGNORE INTO scan_seen`
abbrev pub see : List ℕ → List (List ℕ) → List (List ℕ)
see bytes seen = if any (same_bytes bytes) seen then seen else seen ++ (bytes ∷ [])

abbrev pub counted : FileCandidate → Db → Scanned → Scanned
counted candidate db s = record {
  db = db;
  scan_seen = see candidate.relative_bytes s.scan_seen;
  observed_count = s.observed_count + 1;
  unsupported_count =
      if str_eq candidate.preview_kind "none" then s.unsupported_count + 1 else s.unsupported_count;
}

module _ (path_is_absent : List ℕ → Bool) (plan : ScanPlan) (timestamp : ℕ) where
  -- The arms behind `relocated_location`; with the asset that is inserted, if one is.
  abbrev pub store_moved :
      FileCandidate → NewIds → Db → Option ExistingLocation → Result (List String × Db)
  store_moved candidate ids db (some existing) = do
    moved ← relocate_existing existing plan candidate timestamp db
    refreshed ← refresh_existing existing candidate ids.revision_id timestamp moved
    ok ([], refreshed)
  store_moved candidate ids db none = do
    made ← insert_new ids plan candidate timestamp db
    ok (made.0 ∷ [], made.1)

  -- The arms behind `existing_location`.
  abbrev pub store_found :
      FileCandidate → NewIds → Db → Option ExistingLocation → Result (List String × Db)
  store_found candidate ids db (some existing) = do
    refreshed ← refresh_existing existing candidate ids.revision_id timestamp db
    ok ([], refreshed)
  store_found candidate ids db none =
      store_moved candidate ids db (relocated_location path_is_absent db plan candidate)

  unfoldable pub store_candidate : FileCandidate → NewIds → Db → Result (List String × Db)
  unfolding refresh_existing relocate_existing insert_new existing_location relocated_location
  store_candidate candidate ids db =
      store_found candidate ids db (existing_location db plan candidate)

  -- `for candidate in candidates.drain(..)`
  unfoldable pub store_all : Candidates → Scanned → Result (List String × Scanned)
  unfolding store_candidate
  store_all [] s = ok ([], s)
  store_all ((candidate, ids) ∷ rest) s = do
    stored ← store_candidate candidate ids s.db
    after ← store_all rest (counted candidate stored.1 s)
    ok (stored.0 ++ after.0, after.1)

  -- `UPDATE jobs SET progress_json = ?1, updated_at_ms = ?2 WHERE id = ?3`
  abbrev pub progressed : Scanned → Db
  progressed s = record s.db {
    jobs =
        update_where (is_job plan.job_id)
          (λ job. record job {
            observed_count = s.observed_count;
            unsupported_count = s.unsupported_count;
            updated_at_ms = timestamp;
          })
          s.db.jobs;
  }

  abbrev pub record_event : (asset_ids : List String) → Db → Db
  record_event asset_ids db = record db {
    app_events =
        db.app_events
        ++ (record {
          library_revision = db.library_meta.library_revision;
          event_kind = "assets_inserted";
          root_id = plan.root_id;
          asset_ids = asset_ids;
          created_at_ms = timestamp;
        }
            ∷ []);
  }

  unfoldable pub written_batch : (asset_ids : List String) → Scanned → Scanned
  unfolding bump_revision
  written_batch asset_ids s = record s {
    db = record_event asset_ids (bump_revision timestamp (progressed s));
  }

  abbrev pub batch_events : (asset_ids : List String) → Scanned → List Event
  batch_events asset_ids s =
      let progress =
        Event.scan_progress_changed plan.root_id plan.job_id s.observed_count s.unsupported_count
          false in
      if is_nil asset_ids
      then progress ∷ []
      else Event.assets_inserted plan.root_id asset_ids s.db.library_meta.library_revision
        ∷ (progress ∷ [])

  -- The events that are emitted, with what is stored.
  unfoldable pub flush_batch : Candidates → Scanned → Result (List Event × Scanned)
  unfolding store_all written_batch
  flush_batch [] s = ok ([], s)
  flush_batch (first ∷ rest) s = do
    stored ← store_all (first ∷ rest) s
    ok (batch_events stored.0 (written_batch stored.0 stored.1), written_batch stored.0 stored.1)
