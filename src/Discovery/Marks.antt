-- ===== src/Discovery/Marks.antt =====
-- How a scan ends in the tables: `mark_completed`, `mark_cancelled` and `mark_failed` of
-- crates/reference-core/src/discovery.rs.
use reference_library.Common.{ℕ, String, Bool, Option, none, some, List, str_eq}
use reference_library.Errors.{IoKind, CoreError, io, to_protocol_error}
use reference_library.Database.{Db, RootRow, JobRow, LocationRow, bump_revision, update_where}

-- What the updates take of `ScanPlan`.
pub record ScanPlan : Type 0 where
  pub library_id : String
  pub root_id : String
  pub job_id : String

abbrev pub is_job : String → JobRow → Bool
is_job job_id job = str_eq job.id job_id

abbrev pub has_root_id : String → RootRow → Bool
has_root_id root_id r = str_eq r.id root_id

-- `UPDATE jobs SET state = .., progress_json = .., updated_at_ms = ?2, finished_at_ms = ?2 WHERE id = ?3`
abbrev pub ended : (state : String) → (count unsupported_count timestamp : ℕ) → JobRow → JobRow
ended state count unsupported_count timestamp job = record job {
  state = state;
  observed_count = count;
  unsupported_count = unsupported_count;
  updated_at_ms = timestamp;
  finished_at_ms = some timestamp;
}

unfoldable pub mark_completed : ScanPlan → (count unsupported_count timestamp : ℕ) → Db → Db
unfolding bump_revision
mark_completed plan count unsupported_count timestamp db = bump_revision timestamp (record db {
  roots =
      update_where (has_root_id plan.root_id)
        (λ r. record r {
          state = "ready";
          updated_at_ms = timestamp;
          last_seen_at_ms = some timestamp;
        })
        db.roots;
  jobs =
      update_where (is_job plan.job_id) (ended "completed" count unsupported_count timestamp)
        db.jobs;
})

unfoldable pub mark_cancelled : ScanPlan → (count unsupported_count timestamp : ℕ) → Db → Db
unfolding bump_revision
mark_cancelled plan count unsupported_count timestamp db = bump_revision timestamp (record db {
  roots =
      update_where (has_root_id plan.root_id)
        (λ r. record r { state = "connected"; updated_at_ms = timestamp }) db.roots;
  jobs =
      update_where (is_job plan.job_id) (ended "cancelled" count unsupported_count timestamp)
        db.jobs;
})

-- The states of the root and, where it has one, of its locations.
abbrev pub failed_states : CoreError → String × Option String
failed_states (io IoKind.not_found text) = ("offline_volume", some "offline_root")
failed_states (io IoKind.permission_denied text) = ("needs_permission", some "permission_denied")
failed_states (io kind text) = ("unavailable", some "unreadable")
failed_states cause = ("error", none)

abbrev pub mark_locations :
    (root_id : String) → Option String → (timestamp : ℕ) → List LocationRow → List LocationRow
mark_locations root_id none timestamp locations = locations
mark_locations root_id (some state) timestamp locations =
    update_where (λ l. str_eq l.root_id root_id)
      (λ l. record l { state = state; updated_at_ms = timestamp }) locations

-- `UPDATE jobs SET state = 'failed', error_code = ?1, ..`
abbrev pub failed_with : CoreError → (timestamp : ℕ) → JobRow → JobRow
failed_with cause timestamp job = record job {
  state = "failed";
  error_code = some (to_protocol_error cause).code;
  updated_at_ms = timestamp;
  finished_at_ms = some timestamp;
}

-- The root's new state, with the tables.
unfoldable pub mark_failed : ScanPlan → CoreError → (timestamp : ℕ) → Db → String × Db
unfolding bump_revision
mark_failed plan cause timestamp db =
    let states = failed_states cause in
    (
      states.0,
      bump_revision timestamp (record db {
        roots =
            update_where (has_root_id plan.root_id)
              (λ r. record r { state = states.0; updated_at_ms = timestamp }) db.roots;
        locations = mark_locations plan.root_id states.1 timestamp db.locations;
        jobs = update_where (is_job plan.job_id) (failed_with cause timestamp) db.jobs;
      }),
    )
