-- ===== src/Examples/Jobs.antt =====
-- A finished scan, and the rendition of another session.
use reference_library.Common.{
  ◌≡◌, refl, String, true, false, none, some, List, [], ◌∷◌, any, ◌&&◌, not,
}
use reference_library.Errors.{rendition_timed_out}
use reference_library.Server.Engine.{JobControl, JobKind}
use reference_library.Server.Jobs.{Waited, of_session, keys, stop_jobs_for_session}
use reference_library.Server.Jobs.Stopped.{stop_jobs_for_session-all_kept}

abbrev jobs : List (String × JobControl)
jobs =
    (
      "j1",
      record {
        session_id = "s1";
        cancelled = false;
        handle_finished = some true;
        completion = some true;
        kind = JobKind.scan;
      },
    )
    ∷ (
      "j2",
      record {
        session_id = "s2";
        cancelled = false;
        handle_finished = none;
        completion = some false;
        kind = JobKind.resource;
      },
    )
    ∷ []

abbrev in_time : String → Waited
in_time id = Waited.completed

abbrev too_late : String → Waited
too_late id = Waited.timed_out

stop_jobs_for_session-all_kept_example :
    (keys (stop_jobs_for_session too_late jobs "s2").1 ≡ keys jobs)
    × (any
          (λ job. of_session "s2" job && not job.1.cancelled)
          (stop_jobs_for_session too_late jobs "s2").1
        ≡ false)
unfolding stop_jobs_for_session
stop_jobs_for_session-all_kept_example =
    stop_jobs_for_session-all_kept too_late jobs "s2" rendition_timed_out refl
