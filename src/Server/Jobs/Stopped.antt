-- ===== src/Server/Jobs/Stopped.antt =====
-- On stop_jobs_for_session and reap_finished_scans of crates/reference-core/src/server.rs.
use reference_library.Common.{
  ◌≡◌, refl, ◌∙◌, String, Bool, true, false, not, List, [], ◌∷◌, ◌&&◌, str_eq, eq_iff, eq_refl,
  keep_if, map, any, contains, arith, Bool-cases, inl, inr,
}
use reference_library.Errors.{CoreError}
use reference_library.Fallible.{Result, ok, err, Result-cases}
use reference_library.Server.Engine.{JobControl, remove}
use reference_library.Server.Jobs.{
  Waited, keys, remove_all, reap_finished_scans, is_finished_scan, of_session, cancel, wait_all,
  stop_jobs_for_session,
}

-- What a removal leaves is what has another key.
any-remove :
    (p : String × JobControl → Bool) (id : String) (jobs : List (String × JobControl))
    → any p (remove jobs id) ≡ any (λ job. not (str_eq job.0 id) && p job) jobs
any-remove p id [] = refl
any-remove p id (job ∷ jobs) = ground (arith, any-remove p id jobs)

any_same :
    (p : String × JobControl → Bool) (jobs : List (String × JobControl))
    → any p jobs ≡ any (λ job. not false && p job) jobs
any_same p [] = refl
any_same p (job ∷ jobs) = ground (arith, any_same p jobs)

any_order :
    (p : String × JobControl → Bool) (id : String) (ids : List String)
    (jobs : List (String × JobControl))
    → any (λ job. not (str_eq job.0 id) && (not (contains ids job.0) && p job)) jobs
      ≡ any (λ job. not (contains (id ∷ ids) job.0) && p job) jobs
any_order p id ids [] = refl
any_order p id ids (job ∷ jobs) =
    ground (arith, any_order p id ids jobs, eq_iff job.0 id, eq_iff id job.0)

pub any-remove_all :
    (p : String × JobControl → Bool) (ids : List String) (jobs : List (String × JobControl))
    → any p (remove_all ids jobs) ≡ any (λ job. not (contains ids job.0) && p job) jobs
unfolding remove_all
any-remove_all p [] jobs = any_same p jobs
any-remove_all p (id ∷ ids) jobs =
    any-remove_all p ids (remove jobs id)
    ∙ any-remove (λ job. not (contains ids job.0) && p job) id jobs
    ∙ any_order p id ids jobs

covered :
    (p : String × JobControl → Bool) (ids : List String) (jobs : List (String × JobControl))
    → ((k : String) → contains (keys (keep_if p jobs)) k ≡ true → contains ids k ≡ true)
    → any (λ job. not (contains ids job.0) && p job) jobs ≡ false
covered p ids [] h = refl
covered p ids (job ∷ jobs) h = elim (Bool-cases (p job)) [
  | inl e ↦
      let rest = covered p ids jobs (λ k c. h k (rw e (ground (arith, c)))) in
      let here : contains ids job.0 ≡ true = h job.0 (rw e (ground (arith, eq_refl job.0))) in
      ground (arith, rest, here)
  | inr e ↦ let rest = covered p ids jobs (λ k c. h k (rw e c)) in ground (arith, rest, e)
]

-- After the reaping no finished scan is registered.
reap_finished_scans-none_finished :
    (jobs : List (String × JobControl)) → any is_finished_scan (reap_finished_scans jobs) ≡ false
unfolding reap_finished_scans
reap_finished_scans-none_finished jobs =
    any-remove_all is_finished_scan (keys (keep_if is_finished_scan jobs)) jobs
    ∙ covered is_finished_scan (keys (keep_if is_finished_scan jobs)) jobs (λ k c. c)

of_session-cancel :
    (session_id : String) (ids : List String) (jobs : List (String × JobControl))
    → any
        (λ job. not (contains ids job.0) && of_session session_id job)
        (map (cancel session_id) jobs)
      ≡ any (λ job. not (contains ids job.0) && of_session session_id job) jobs
of_session-cancel session_id ids [] = refl
of_session-cancel session_id ids (job ∷ jobs) =
    ground (arith, of_session-cancel session_id ids jobs)

all_cancelled :
    (session_id : String) (jobs : List (String × JobControl))
    → any (λ job. of_session session_id job && not job.1.cancelled) (map (cancel session_id) jobs)
      ≡ false
all_cancelled session_id [] = refl
all_cancelled session_id (job ∷ jobs) = ground (arith, all_cancelled session_id jobs)

keys-cancel :
    (session_id : String) (jobs : List (String × JobControl))
    → keys (map (cancel session_id) jobs) ≡ keys jobs
keys-cancel session_id [] = refl
keys-cancel session_id (job ∷ jobs) = ground (arith, keys-cancel session_id jobs)

module _ (waits : String → Waited) (jobs : List (String × JobControl)) (session_id : String) where
  abbrev waited : Result (Unit {0})
  waited =
      wait_all waits (map (cancel session_id) jobs) (keys (keep_if (of_session session_id) jobs))

  abbrev stopped : Result (Unit {0}) × List (String × JobControl)
  stopped = stop_jobs_for_session waits jobs session_id

  -- Where stopping the jobs of a session succeeds, no job of the session is left.
  pub stop_jobs_for_session-none_left :
      stopped.0 ≡ ok tt → any (of_session session_id) stopped.1 ≡ false
  unfolding stop_jobs_for_session
  stop_jobs_for_session-none_left h = elim (Result-cases waited) [
    | inl (done, e) ↦
        rw (stop_jobs_for_session, e)
          (any-remove_all (of_session session_id) (keys (keep_if (of_session session_id) jobs))
              (map (cancel session_id) jobs)
            ∙ of_session-cancel session_id (keys (keep_if (of_session session_id) jobs)) jobs
            ∙ covered (of_session session_id) (keys (keep_if (of_session session_id) jobs)) jobs
                (λ k c. c))
    | inr (cause, e) ↦ cc (rw (stop_jobs_for_session, e) at h)
  ]

  -- Where stopping the jobs of a session fails, every job is still registered, in its place, and
  -- all jobs of the session are told to cancel.
  pub stop_jobs_for_session-all_kept :
      (cause : CoreError)
      → stopped.0 ≡ err cause
      → (keys stopped.1 ≡ keys jobs)
        × (any (λ job. of_session session_id job && not job.1.cancelled) stopped.1 ≡ false)
  unfolding stop_jobs_for_session
  stop_jobs_for_session-all_kept cause h = elim (Result-cases waited) [
    | inl (done, e) ↦ cc (rw (stop_jobs_for_session, e) at h)
    | inr (other, e) ↦
        rw (stop_jobs_for_session, e) (keys-cancel session_id jobs, all_cancelled session_id jobs)
  ]
