-- ===== src/Session/Jobs.antt =====
-- The jobs of a Library: `fail_resource_job` and `job_state` of crates/reference-core/src/session.rs,
-- `update_job` and `prune_jobs` of crates/reference-core/src/rendition.rs.
use reference_library.Common.{
  ℕ, String, Bool, not, Option, none, some, ◌&&◌, ◌||◌, str_eq, ltb, leb, if◌then◌else◌, map,
  keep_if, contains, take,
}
use reference_library.Common.Order.{text_leb}
use reference_library.Common.Rank.{order_by}
use reference_library.Errors.{CoreError, to_protocol_error}
use reference_library.Fallible.{Result, ok, err, ◌>>=◌}
use reference_library.Database.{Db, JobRow, update_where, find_where}
use reference_library.Server.Engine.{is_terminal}
use reference_library.Session.State.{LibrarySession, connection}

-- `UPDATE jobs … WHERE id = .. AND job_kind = 'rendition_generation'`
abbrev pub is_rendition : String → JobRow → Bool
is_rendition job_id job = str_eq job.id job_id && str_eq job.job_kind "rendition_generation"

abbrev pub is_past : JobRow → Bool
is_past job = str_eq job.job_kind "rendition_generation" && is_terminal job.state

-- `ORDER BY updated_at_ms DESC, id DESC`
abbrev pub more_recent : JobRow → JobRow → Bool
more_recent a b =
    ltb b.updated_at_ms a.updated_at_ms
    || (leb b.updated_at_ms a.updated_at_ms && text_leb b.id a.id)

-- The 128 most recent renditions that have ended stay.
unfoldable pub prune_jobs : Db → Db
unfolding order_by
prune_jobs db =
    let kept = map (λ job. job.id) (take 128 (order_by more_recent (keep_if is_past db.jobs))) in
    record db { jobs = keep_if (λ job. not (is_past job) || contains kept job.id) db.jobs }

abbrev pub moved_on :
    (state : String) → (error_code : Option String) → (timestamp : ℕ) → JobRow → JobRow
moved_on state error_code timestamp job = record job {
  state = state;
  error_code = error_code;
  updated_at_ms = timestamp;
  finished_at_ms = if is_terminal state then some timestamp else none;
}

unfoldable pub update_job :
    (job_id state : String) → (error_code : Option String) → (timestamp : ℕ) → Db → Db
unfolding prune_jobs
update_job job_id state error_code timestamp db =
    let updated = record db {
      jobs = update_where (is_rendition job_id) (moved_on state error_code timestamp) db.jobs;
    } in
    if is_terminal state then prune_jobs updated else updated

abbrev pub state_of : Option JobRow → Option String
state_of none = none
state_of (some job) = some job.state

module _ {File : Type 0} where
  unfoldable pub fail_resource_job :
      LibrarySession File
      → (job_id : String) → CoreError
      → (timestamp : ℕ) → Result (Unit {0}) × LibrarySession File
  fail_resource_job session job_id cause timestamp = elim (connection session) [
    | err closed ↦ (err closed, session)
    | ok db ↦ (
      ok tt,
      record session {
        db = record db {
          jobs =
              update_where (is_rendition job_id)
                (λ job. record job {
                  state = "failed";
                  error_code = some (to_protocol_error cause).code;
                  updated_at_ms = timestamp;
                  finished_at_ms = some timestamp;
                })
                db.jobs;
        };
      },
    )
  ]

  unfoldable pub job_state : LibrarySession File → (job_id : String) → Result (Option String)
  job_state session job_id = do
    db ← connection session
    ok (
        state_of
          (find_where (λ j. str_eq j.id job_id && str_eq j.library_id session.library_id) db.jobs))
