-- ===== src/Server/Jobs/Everywhere.antt =====
-- On stop_all_jobs of crates/reference-core/src/server.rs.
use reference_library.Common.{
  ◌≡◌, refl, sym, ◌∙◌, String, Bool, true, not, List, [], ◌∷◌, ◌&&◌, eq_iff, eq_refl, keep_if, map,
  any, contains, arith, inl, inr,
}
use reference_library.Fallible.{ok, Result-cases}
use reference_library.Server.Engine.{JobControl}
use reference_library.Server.Jobs.{
  Waited, keys, of_session, cancel, wait_for, wait_all, stop_jobs_for_session, stop_each,
  stop_all_jobs, session_ids,
}
use reference_library.Server.Jobs.Stopped.{any-remove_all, stop_jobs_for_session-none_left}

any-cancel :
    (k s : String) (jobs : List (String × JobControl))
    → any (of_session k) (map (cancel s) jobs) ≡ any (of_session k) jobs
any-cancel k s [] = refl
any-cancel k s (job ∷ jobs) = ground (arith, any-cancel k s jobs)

any_weaker :
    (p q : String × JobControl → Bool) (jobs : List (String × JobControl))
    → any (λ job. q job && p job) jobs ≡ true
    → any p jobs ≡ true
any_weaker p q (job ∷ jobs) h = ground (arith, any_weaker p q jobs)
any_weaker p q [] h = cc h

module _ (waits : String → Waited) where
  -- Stopping the jobs of a session registers no job of another.
  any-stop_jobs_for_session :
      (jobs : List (String × JobControl)) (s k : String)
      → any (of_session k) (stop_jobs_for_session waits jobs s).1 ≡ true
      → any (of_session k) jobs ≡ true
  unfolding stop_jobs_for_session
  any-stop_jobs_for_session jobs s k h =
      let ids = keys (keep_if (of_session s) jobs) in
      elim (Result-cases (wait_all waits (map (cancel s) jobs) ids)) [
        | inl (done, e) ↦
            sym (any-cancel k s jobs)
            ∙ any_weaker (of_session k) (λ job. not (contains ids job.0)) (map (cancel s) jobs)
                (sym (any-remove_all (of_session k) ids (map (cancel s) jobs))
                  ∙ (rw (stop_jobs_for_session, e) at h))
        | inr (cause, e) ↦ sym (any-cancel k s jobs) ∙ (rw (stop_jobs_for_session, e) at h)
      ]

  stop_each-empty :
      (ids : List String) (jobs : List (String × JobControl))
      → ((k : String) → any (of_session k) jobs ≡ true → contains ids k ≡ true)
      → (stop_each waits ids jobs).0 ≡ ok tt
      → (stop_each waits ids jobs).1 ≡ []
  unfolding stop_each
  stop_each-empty [] [] covers h = refl
  stop_each-empty [] (job ∷ jobs) covers h =
      cc (covers job.1.session_id (ground (arith, eq_refl job.1.session_id)))
  stop_each-empty (id ∷ ids) jobs covers h =
      elim (Result-cases (stop_jobs_for_session waits jobs id).0) [
        | inl (done, e) ↦
            rw (stop_each, e)
              (stop_each-empty ids (stop_jobs_for_session waits jobs id).1
                (λ k left.
                  let here = covers k (any-stop_jobs_for_session jobs id k left) in
                  let none = stop_jobs_for_session-none_left waits jobs id e in
                  ground (arith, here, none, left, eq_iff id k))
                (rw (stop_each, e) at h))
        | inr (cause, e) ↦ cc (rw (stop_each, e) at h)
      ]

  every_session :
      (jobs : List (String × JobControl)) (k : String)
      → any (of_session k) jobs ≡ true
      → contains (session_ids jobs) k ≡ true
  every_session [] k h = h
  every_session (job ∷ jobs) k h = ground (arith, every_session jobs k)

  -- Where stopping all jobs succeeds, no job is registered.
  pub stop_all_jobs-empty :
      (jobs : List (String × JobControl))
      → (stop_all_jobs waits jobs).0 ≡ ok tt
      → (stop_all_jobs waits jobs).1 ≡ []
  unfolding stop_all_jobs
  stop_all_jobs-empty jobs h = stop_each-empty (session_ids jobs) jobs (every_session jobs) h

  module _ (in_time : (id : String) → waits id ≡ Waited.completed) where
    wait_for-ok : (jobs : List (String × JobControl)) (id : String) → wait_for waits jobs id ≡ ok tt
    wait_for-ok jobs id = ground (arith, in_time id)

    wait_all-ok :
        (jobs : List (String × JobControl)) (ids : List String) → wait_all waits jobs ids ≡ ok tt
    unfolding wait_all
    wait_all-ok jobs [] = refl
    wait_all-ok jobs (id ∷ ids) = rw (wait_all, wait_for-ok jobs id) (wait_all-ok jobs ids)

    stop_jobs_for_session-ok :
        (jobs : List (String × JobControl)) (s : String)
        → (stop_jobs_for_session waits jobs s).0 ≡ ok tt
    unfolding stop_jobs_for_session
    stop_jobs_for_session-ok jobs s =
        rw
          (
            stop_jobs_for_session,
            wait_all-ok (map (cancel s) jobs) (keys (keep_if (of_session s) jobs)),
          )
          refl

    stop_each-ok :
        (ids : List String) (jobs : List (String × JobControl))
        → (stop_each waits ids jobs).0 ≡ ok tt
    unfolding stop_each
    stop_each-ok [] jobs = refl
    stop_each-ok (id ∷ ids) jobs =
        rw (stop_each, stop_jobs_for_session-ok jobs id)
          (stop_each-ok ids (stop_jobs_for_session waits jobs id).1)

    -- Where every worker completes in time, stopping all jobs succeeds.
    pub stop_all_jobs-ok :
        (jobs : List (String × JobControl)) → (stop_all_jobs waits jobs).0 ≡ ok tt
    unfolding stop_all_jobs
    stop_all_jobs-ok jobs = stop_each-ok (session_ids jobs) jobs
