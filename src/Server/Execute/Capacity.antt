-- ===== src/Server/Execute/Capacity.antt =====
-- On the limit of two scans in execute, crates/reference-core/src/server.rs.
use reference_library.Common.{
  ◌≤◌, ◌≡◌, refl, String, Bool, Option, none, some, List, [], ◌∷◌, leb, keep_if, map, ◌==◌, arith,
  Bool-cases, inl, inr,
}
use reference_library.Fallible.{Result, ok, err, Result-cases}
use reference_library.Protocol.Limits.{protocol_version}
use reference_library.Protocol.Command.{Command, ClientFrame}
use reference_library.Protocol.Event.{Event, root_state_changed}
use reference_library.Server.Engine.{CommandEngine, JobControl, lookup, remove}
use reference_library.Server.Jobs.{
  Waited, keys, remove_all, reap_finished_scans, is_finished_scan, of_session, cancel, wait_all,
  stop_jobs_for_session, stop_each, stop_all_jobs, session_ids,
}
use reference_library.Server.Api.{SessionApi}
use reference_library.Server.Call.{
  ask, told, launched, tell, reply, announce, start_scan, queue_local_event, scan_count,
}
use reference_library.Server.Arms.{
  Afterwards, stop_session, cancelled_as, cancel_job, flag, close_library, close_removed,
  open_session, shut_down,
}
use reference_library.Server.Execute.{dispatch, execute}

scan_count-remove :
    (jobs : List (String × JobControl)) (id : String)
    → scan_count (remove jobs id) ≤ scan_count jobs
scan_count-remove [] id = omega arith
scan_count-remove (job ∷ jobs) id = ground (arith, scan_count-remove jobs id)

scan_count-remove_all :
    (ids : List String) (jobs : List (String × JobControl))
    → scan_count (remove_all ids jobs) ≤ scan_count jobs
unfolding remove_all
scan_count-remove_all [] jobs = omega arith
scan_count-remove_all (id ∷ ids) jobs =
    omega (arith, scan_count-remove_all ids (remove jobs id), scan_count-remove jobs id)

scan_count-cancel :
    (session_id : String) (jobs : List (String × JobControl))
    → scan_count (map (cancel session_id) jobs) ≡ scan_count jobs
scan_count-cancel session_id [] = refl
scan_count-cancel session_id (job ∷ jobs) = ground (arith, scan_count-cancel session_id jobs)

scan_count-flag :
    (id : String) (jobs : List (String × JobControl))
    → scan_count (map (flag id) jobs) ≡ scan_count jobs
scan_count-flag id [] = refl
scan_count-flag id (job ∷ jobs) = ground (arith, scan_count-flag id jobs)

scan_count-stop :
    (waits : String → Waited) (jobs : List (String × JobControl)) (session_id : String)
    → scan_count (stop_jobs_for_session waits jobs session_id).1 ≤ scan_count jobs
unfolding stop_jobs_for_session
scan_count-stop waits jobs session_id =
    elim (Result-cases (
      wait_all waits (map (cancel session_id) jobs)
        (keys (keep_if (of_session session_id) jobs)))) [
          | inl (done, e) ↦
              rw (stop_jobs_for_session, e)
                (omega (
                  arith,
                  scan_count-cancel session_id jobs,
                  scan_count-remove_all (keys (keep_if (of_session session_id) jobs))
                      (map (cancel session_id) jobs),
                ))
          | inr (cause, e) ↦
              rw (stop_jobs_for_session, e) (omega (arith, scan_count-cancel session_id jobs))
        ]

scan_count-stop_each :
    (waits : String → Waited) (ids : List String) (jobs : List (String × JobControl))
    → scan_count (stop_each waits ids jobs).1 ≤ scan_count jobs
unfolding stop_each
scan_count-stop_each waits [] jobs = omega arith
scan_count-stop_each waits (id ∷ ids) jobs =
    let first = scan_count-stop waits jobs id in
    let rest = scan_count-stop_each waits ids (stop_jobs_for_session waits jobs id).1 in
    elim (Result-cases (stop_jobs_for_session waits jobs id).0) [
      | inl (done, e) ↦ rw (stop_each, e) (omega (arith, first, rest))
      | inr (cause, e) ↦ rw (stop_each, e) first
    ]

module _ {S : Type 0} where
  jobs-queue_local_event :
      (e : CommandEngine S) (sent : Event) → (queue_local_event e sent).jobs ≡ e.jobs
  unfolding queue_local_event
  jobs-queue_local_event e sent = ground arith

  module _ {A : Type 0} where
    jobs-told :
        (e : CommandEngine S) (session_id : String) (found : Option S) (method : S → Result A × S)
        → (told e session_id found method).1.jobs ≡ e.jobs
    jobs-told e session_id none method = refl
    jobs-told e session_id (some session) method = refl

    jobs-tell :
        (e : CommandEngine S) (session_id : String) (method : S → Result A × S)
        → (tell e session_id method).1.jobs ≡ e.jobs
    jobs-tell e session_id method = jobs-told e session_id (lookup e.sessions session_id) method

  module _ {A B : Type 0} (f : A → B) where
    jobs-reply : (made : Result A × CommandEngine S) → (reply f made).1.jobs ≡ made.1.jobs
    jobs-reply (ok value, e) = refl
    jobs-reply (err cause, e) = refl

    jobs-announce :
        (note : A → Event) (made : Result A × CommandEngine S)
        → (announce note f made).1.jobs ≡ made.1.jobs
    jobs-announce note (ok value, e) = jobs-queue_local_event e (note value)
    jobs-announce note (err cause, e) = refl

  module _ {B : Type 0} (session_id : String) (f : String × String → B) where
    scan_count-launched :
        (made : Result (String × String) × CommandEngine S)
        → scan_count made.1.jobs ≤ 1
        → scan_count (launched session_id f made).1.jobs ≤ 2
    scan_count-launched (ok plan, e) h =
        rw (jobs-queue_local_event _ (root_state_changed plan.0 "scanning"))
          (omega (arith, h, scan_count-remove e.jobs plan.1))
    scan_count-launched (err cause, e) h = omega (arith, h)

    scan_count-start_scan :
        (e : CommandEngine S) (plan : S → Result (String × String) × S)
        → scan_count e.jobs ≤ 2
        → scan_count (start_scan e session_id plan f).1.jobs ≤ 2
    unfolding start_scan
    scan_count-start_scan e plan h = elim (Bool-cases (leb 2 (scan_count e.jobs))) [
      | inl full ↦ rw (start_scan, full) h
      | inr free ↦
          rw (start_scan, free)
            (scan_count-launched (tell e session_id plan)
              (rw (jobs-tell e session_id plan) (ground (arith, free))))
    ]

  jobs-cancel_job :
      (e : CommandEngine S) (session_id job_id : String) (persisted : Option String)
      → scan_count (cancel_job e session_id job_id persisted).1.jobs ≡ scan_count e.jobs
  unfolding cancel_job
  jobs-cancel_job e session_id job_id persisted = ground (arith, scan_count-flag job_id e.jobs)

  scan_count-cancelled_as :
      (Value Record : Type 0) (e : CommandEngine S) (session_id job_id : String)
      (persisted : Result (Option String))
      → scan_count
          (cancelled_as {Value = Value} {Record = Record} e session_id job_id persisted).1.jobs
        ≡ scan_count e.jobs
  scan_count-cancelled_as Value Record e session_id job_id (ok persisted) =
      jobs-cancel_job e session_id job_id persisted
  scan_count-cancelled_as Value Record e session_id job_id (err cause) = refl

  module _ {Value Record : Type 0} where
    jobs-open_session :
        (api : SessionApi S Value Record) (e : CommandEngine S) (made : Result S)
        → (open_session api e made).1.jobs ≡ e.jobs
    jobs-open_session api e (ok session) = refl
    jobs-open_session api e (err cause) = refl

    jobs-close_removed :
        (api : SessionApi S Value Record) (e : CommandEngine S) (session_id : String)
        (found : Option S)
        → (close_removed api e session_id found).1.jobs ≡ e.jobs
    jobs-close_removed api e session_id none = refl
    jobs-close_removed api e session_id (some session) = refl

    jobs-close_library :
        (api : SessionApi S Value Record) (session_id : String)
        (stopped : Result (Unit {0}) × CommandEngine S)
        → (close_library api session_id stopped).1.jobs ≡ stopped.1.jobs
    jobs-close_library api session_id (ok done, e) =
        jobs-close_removed api e session_id (lookup e.sessions session_id)
    jobs-close_library api session_id (err cause, e) = refl

    scan_count-shut_down :
        (api : SessionApi S Value Record) (waits : String → Waited) (e : CommandEngine S)
        → scan_count (shut_down api waits e).1.jobs ≤ scan_count e.jobs
    unfolding shut_down stop_all_jobs
    scan_count-shut_down api waits e =
        let bound = scan_count-stop_each waits (session_ids e.jobs) e.jobs in
        elim (Result-cases (stop_each waits (session_ids e.jobs) e.jobs).0) [
          | inl (done, s) ↦ rw (shut_down, stop_all_jobs, s) bound
          | inr (cause, s) ↦ rw (shut_down, stop_all_jobs, s) bound
        ]

-- The number of scans is at most two.
abbrev HasRoom : {S : Type 0} → CommandEngine S → Type 0
HasRoom e = scan_count e.jobs ≤ 2

module _ {S A B : Type 0} (e : CommandEngine S) (session_id : String) (f : A → B) where
  told-HasRoom :
      (note : A → Event) (method : S → Result A × S)
      → HasRoom e
      → HasRoom (announce note f (tell e session_id method)).1
  told-HasRoom note method h =
      rw (jobs-announce f note (tell e session_id method), jobs-tell e session_id method) h

  replied-HasRoom :
      (method : S → Result A × S) → HasRoom e → HasRoom (reply f (tell e session_id method)).1
  replied-HasRoom method h =
      rw (jobs-reply f (tell e session_id method), jobs-tell e session_id method) h

module _ {S Value Record : Type 0} (api : SessionApi S Value Record) (waits : String → Waited)
    (core_version : String) (test_commands : Bool) where
  dispatch-HasRoom :
      (e : CommandEngine S) (command : Command)
      → HasRoom e
      → Afterwards
          (λ made. HasRoom made.1)
          (dispatch api waits core_version test_commands e command)
  unfolding dispatch
  dispatch-HasRoom e (Command.hello client_name versions) h = h
  dispatch-HasRoom e (Command.create_library path name) h =
      rw (jobs-open_session api e (api.create path name)) h
  dispatch-HasRoom e (Command.open_library path) h =
      rw (jobs-open_session api e (api.open_at path)) h
  dispatch-HasRoom e (Command.close_library s) h =
      rw (jobs-close_library api s (stop_session waits e s))
        (omega (arith, h, scan_count-stop waits e.jobs s))
  dispatch-HasRoom e (Command.add_root s path name) h = scan_count-start_scan s _ e _ h
  dispatch-HasRoom e (Command.list_roots s) h = h
  dispatch-HasRoom e (Command.bind_root s root_id path) h = replied-HasRoom e s _ _ h
  dispatch-HasRoom e (Command.scan_root s root_id) h = scan_count-start_scan s _ e _ h
  dispatch-HasRoom e (Command.query_assets s offset limit projection) h = h
  dispatch-HasRoom e (Command.query_asset_index s offset limit projection query revision) h = h
  dispatch-HasRoom e (Command.get_asset s asset_id) h = h
  dispatch-HasRoom e (Command.update_asset s asset_id revision patch) h = told-HasRoom e s _ _ _ h
  dispatch-HasRoom e (Command.update_asset_review s asset_id revision state) h =
      told-HasRoom e s _ _ _ h
  dispatch-HasRoom e (Command.update_asset_title s asset_id revision title) h =
      told-HasRoom e s _ _ _ h
  dispatch-HasRoom e (Command.update_asset_note s asset_id revision text) h =
      told-HasRoom e s _ _ _ h
  dispatch-HasRoom e (Command.query_jobs s offset limit query) h = h
  dispatch-HasRoom e (Command.list_collections s) h = h
  dispatch-HasRoom e (Command.create_collection s name) h = told-HasRoom e s _ _ _ h
  dispatch-HasRoom e (Command.rename_collection s id revision name) h = told-HasRoom e s _ _ _ h
  dispatch-HasRoom e (Command.delete_collection s id) h = told-HasRoom e s _ _ _ h
  dispatch-HasRoom e (Command.set_collection_membership s id asset_ids member) h =
      told-HasRoom e s _ _ _ h
  dispatch-HasRoom e (Command.authorize_resource s asset_id profile) h = replied-HasRoom e s _ _ h
  dispatch-HasRoom e (Command.resolve_location s location_id) h = h
  dispatch-HasRoom e (Command.canonical_dump s) h = h
  dispatch-HasRoom e (Command.canonical_digest s) h = replied-HasRoom e s _ _ h
  dispatch-HasRoom e (Command.canonical_page s digest entity cursor limit) h =
      replied-HasRoom e s _ _ h
  dispatch-HasRoom e (Command.get_capabilities none) h = h
  dispatch-HasRoom e (Command.get_capabilities (some s)) h = h
  dispatch-HasRoom e (Command.cancel_job s job_id) h = omega (
    arith,
    h,
    scan_count-cancelled_as Value Record e s job_id
        (ask e s (λ session. api.job_state session job_id)),
  )
  dispatch-HasRoom e Command.test_crash h = elim (Bool-cases test_commands) [
    | inl enabled ↦ rw enabled tt
    | inr disabled ↦ rw disabled h
  ]
  dispatch-HasRoom e Command.shutdown h = omega (arith, h, scan_count-shut_down api waits e)

  -- No command leaves more than two scans registered, where there were at most two before.
  pub execute-HasRoom :
      (e : CommandEngine S) (request : ClientFrame)
      → scan_count e.jobs ≤ 2
      → Afterwards
          (λ made. scan_count made.1.jobs ≤ 2)
          (execute api waits core_version test_commands e request)
  unfolding execute reap_finished_scans
  execute-HasRoom e request h =
      let reaped = record e { jobs = reap_finished_scans e.jobs } in
      let room : HasRoom reaped =
        omega (arith, h, scan_count-remove_all (keys (keep_if is_finished_scan e.jobs)) e.jobs) in
      elim (Bool-cases (request.protocol_version == protocol_version)) [
        | inl same ↦ rw (execute, same) (dispatch-HasRoom reaped request.command room)
        | inr other ↦ rw (execute, other) room
      ]
