-- ===== src/Server/Loop/Answered.antt =====
-- On the answers to requests, and on the end, of run_server in crates/reference-core/src/server.rs.
use reference_library.Common.{
  ◌+◌, ◌-◌, ◌≡◌, refl, ◌⊎◌, inl, inr, String, true, false, none, some, List, [], ◌∷◌, ◌++◌, leb,
  length, ◌==◌, Bool-cases, Option-cases,
}
use reference_library.Errors.{rendition_queue_full}
use reference_library.Fallible.{Result, ok, err, Result-cases}
use reference_library.Protocol.Limits.{protocol_version}
use reference_library.Protocol.States.{ResourceProfile}
use reference_library.Protocol.Command.{Command, ClientFrame}
use reference_library.Protocol.Event.{resource_authorization_started}
use reference_library.Protocol.Frame.{CommandResult, ServerFrame}
use reference_library.Server.Reply.{valid_request_id, reply_id}
use reference_library.Server.Engine.{
  CommandEngine, SessionCalls, lookup, insert, event_capacity, max_rendition_work,
  rendition_workers, refuse_job, launch_job, start_resource_authorization,
}
use reference_library.Server.Jobs.{Waited, reap_finished_scans}
use reference_library.Server.Api.{SessionApi}
use reference_library.Server.Arms.{Outcome}
use reference_library.Server.Execute.{dispatch, execute}
use reference_library.Server.Loop.{Input, Next, framed, executed, started, commanded, receive}

module _ {Value Record : Type 0} where
  -- One frame is written, and it answers the request.
  abbrev pub AnswersWith : (request_id : String) → List (ServerFrame Value Record) → Type 0
  AnswersWith request_id frames =
      (frame : ServerFrame Value Record) × (frames ≡ frame ∷ []) × (reply_id frame ≡ request_id)

  reply_id-framed :
      (request_id : String) (result : Result (CommandResult Value Record))
      → reply_id (framed request_id result) ≡ request_id
  reply_id-framed request_id (ok result) = refl
  reply_id-framed request_id (err cause) = refl

module _ {S Value Record : Type 0} where
  -- Nothing is written, and one more piece of resource work is under way.
  abbrev pub Accepts : CommandEngine S → List (ServerFrame Value Record) × Next S → Type 0
  Accepts e turn =
      (turn.0 ≡ [])
      × ((later : CommandEngine S) × (turn.1 ≡ Next.goes_on later)
          × (later.resource_inflight ≡ e.resource_inflight + 1))

  module _ (api : SessionApi S Value Record) (calls : SessionCalls S) (waits : String → Waited)
      (core_version : String) where
    Returned : Outcome (Result (CommandResult Value Record) × CommandEngine S) → Type 0
    Returned outcome =
        (made : Result (CommandResult Value Record) × CommandEngine S) × (outcome
          ≡ Outcome.returns made)

    dispatch-Returned :
        (e : CommandEngine S) (command : Command)
        → Returned (dispatch api waits core_version false e command)
    unfolding dispatch Returned
    dispatch-Returned e (Command.hello client_name versions) = (_, refl)
    dispatch-Returned e (Command.create_library path name) = (_, refl)
    dispatch-Returned e (Command.open_library path) = (_, refl)
    dispatch-Returned e (Command.close_library s) = (_, refl)
    dispatch-Returned e (Command.add_root s path name) = (_, refl)
    dispatch-Returned e (Command.list_roots s) = (_, refl)
    dispatch-Returned e (Command.bind_root s root_id path) = (_, refl)
    dispatch-Returned e (Command.scan_root s root_id) = (_, refl)
    dispatch-Returned e (Command.query_assets s offset limit projection) = (_, refl)
    dispatch-Returned e (Command.query_asset_index s offset limit projection query revision) =
        (_, refl)
    dispatch-Returned e (Command.get_asset s asset_id) = (_, refl)
    dispatch-Returned e (Command.update_asset s asset_id revision patch) = (_, refl)
    dispatch-Returned e (Command.update_asset_review s asset_id revision state) = (_, refl)
    dispatch-Returned e (Command.update_asset_title s asset_id revision title) = (_, refl)
    dispatch-Returned e (Command.update_asset_note s asset_id revision text) = (_, refl)
    dispatch-Returned e (Command.query_jobs s offset limit query) = (_, refl)
    dispatch-Returned e (Command.list_collections s) = (_, refl)
    dispatch-Returned e (Command.create_collection s name) = (_, refl)
    dispatch-Returned e (Command.rename_collection s id revision name) = (_, refl)
    dispatch-Returned e (Command.delete_collection s id) = (_, refl)
    dispatch-Returned e (Command.set_collection_membership s id asset_ids member) = (_, refl)
    dispatch-Returned e (Command.authorize_resource s asset_id profile) = (_, refl)
    dispatch-Returned e (Command.resolve_location s location_id) = (_, refl)
    dispatch-Returned e (Command.canonical_dump s) = (_, refl)
    dispatch-Returned e (Command.canonical_digest s) = (_, refl)
    dispatch-Returned e (Command.canonical_page s digest entity cursor limit) = (_, refl)
    dispatch-Returned e (Command.get_capabilities none) = (_, refl)
    dispatch-Returned e (Command.get_capabilities (some s)) = (_, refl)
    dispatch-Returned e (Command.cancel_job s job_id) = (_, refl)
    dispatch-Returned e Command.test_crash = (_, refl)
    dispatch-Returned e Command.shutdown = (_, refl)

    execute-Returned :
        (e : CommandEngine S) (request : ClientFrame)
        → Returned (execute api waits core_version false e request)
    unfolding execute Returned
    execute-Returned e request = elim (Bool-cases (request.protocol_version == protocol_version)) [
      | inl same ↦
          rw (execute, same)
            (dispatch-Returned (record e { jobs = reap_finished_scans e.jobs }) request.command)
      | inr other ↦ rw (execute, other) (_, refl)
    ]

    -- Resource work that is accepted is counted.
    Counted : CommandEngine S → Result (Unit {0}) × CommandEngine S → Type 0
    Counted e (err cause, later) = Unit
    Counted e (ok done, later) = later.resource_inflight ≡ e.resource_inflight + 1

    refuse_job-Counted :
        (before e : CommandEngine S) (s : String) (session : S) (job_id : String)
        → Counted before (refuse_job calls e s session job_id)
    unfolding refuse_job Counted
    refuse_job-Counted before e s session job_id =
        elim (Result-cases (calls.fail_resource_job session job_id rendition_queue_full).0) [
          | inl (done, h) ↦ rw (refuse_job, h) tt
          | inr (cause, h) ↦ rw (refuse_job, h) tt
        ]

    launch_job-Counted :
        (e : CommandEngine S) (id s asset_id : String) (profile : ResourceProfile) (session : S)
        (job_id : String)
        → Counted e (launch_job calls e id s asset_id profile session job_id)
    unfolding launch_job Counted
    launch_job-Counted e id s asset_id profile session job_id =
        elim (Bool-cases (leb event_capacity (length e.events))) [
          | inl full ↦
              rw (launch_job, full)
                (refuse_job-Counted e (record e { sessions = insert e.sessions s session }) s
                  session job_id)
          | inr free ↦
              rw (launch_job, free)
                (elim (Bool-cases
                  (leb (max_rendition_work - rendition_workers) (length e.resource_queue))) [
                    | inl busy ↦ rw busy (
                        refuse_job-Counted e
                          (record e {
                            sessions = insert e.sessions s session;
                            events =
                                e.events
                                ++ (resource_authorization_started id job_id asset_id profile ∷ []);
                          })
                          s session job_id)
                    | inr idle ↦ rw idle refl
                  ])
        ]

    start-Counted :
        (e : CommandEngine S) (id s asset_id : String) (profile : ResourceProfile)
        → Counted e (start_resource_authorization calls e id s asset_id profile)
    unfolding start_resource_authorization Counted
    start-Counted e id s asset_id profile =
        elim (Bool-cases (leb max_rendition_work e.resource_inflight)) [
          | inl full ↦ rw (start_resource_authorization, full) tt
          | inr room ↦
              rw (start_resource_authorization, room)
                (elim (Option-cases (lookup e.sessions s)) [
                  | inl absent ↦ rw absent tt
                  | inr (session, k) ↦
                      rw k (elim (Result-cases (calls.start_resource session asset_id profile).0) [
                        | inl (job_id, h) ↦
                            rw h (launch_job-Counted e id s asset_id profile _ job_id)
                        | inr (cause, h) ↦ rw h tt
                      ])
                ])
        ]

    started-or :
        (e : CommandEngine S) (r : ClientFrame) (made : Result (Unit {0}) × CommandEngine S)
        → Counted e made
        → AnswersWith {Value = Value} {Record = Record} r.request_id (started r made).0
          ⊎ Accepts e (started {Value = Value} {Record = Record} r made)
    unfolding Counted
    started-or e r (err cause, later) counted = inl (_, refl, refl)
    started-or e r (ok done, later) counted = inr (refl, (later, refl, counted))

    executed-AnswersWith :
        (r : ClientFrame)
        (outcome : Outcome (Result (CommandResult Value Record) × CommandEngine S))
        → Returned outcome
        → AnswersWith r.request_id (executed r outcome).0
    unfolding Returned
    executed-AnswersWith r (Outcome.returns (result, e)) h =
        (framed r.request_id result, refl, reply_id-framed r.request_id result)
    executed-AnswersWith r (Outcome.exits code) h = cc h.1

    commanded-AnswersWith :
        (e : CommandEngine S) (r : ClientFrame) (command : Command)
        → AnswersWith r.request_id (commanded api calls waits core_version false e r command).0
          ⊎ Accepts e (commanded api calls waits core_version false e r command)
    commanded-AnswersWith e r (Command.hello client_name versions) =
        inl (executed-AnswersWith r _ (execute-Returned e r))
    commanded-AnswersWith e r (Command.create_library path name) =
        inl (executed-AnswersWith r _ (execute-Returned e r))
    commanded-AnswersWith e r (Command.open_library path) =
        inl (executed-AnswersWith r _ (execute-Returned e r))
    commanded-AnswersWith e r (Command.close_library s) =
        inl (executed-AnswersWith r _ (execute-Returned e r))
    commanded-AnswersWith e r (Command.add_root s path name) =
        inl (executed-AnswersWith r _ (execute-Returned e r))
    commanded-AnswersWith e r (Command.list_roots s) =
        inl (executed-AnswersWith r _ (execute-Returned e r))
    commanded-AnswersWith e r (Command.bind_root s root_id path) =
        inl (executed-AnswersWith r _ (execute-Returned e r))
    commanded-AnswersWith e r (Command.scan_root s root_id) =
        inl (executed-AnswersWith r _ (execute-Returned e r))
    commanded-AnswersWith e r (Command.query_assets s offset limit projection) =
        inl (executed-AnswersWith r _ (execute-Returned e r))
    commanded-AnswersWith e r (Command.query_asset_index s offset limit projection query revision) =
        inl (executed-AnswersWith r _ (execute-Returned e r))
    commanded-AnswersWith e r (Command.get_asset s asset_id) =
        inl (executed-AnswersWith r _ (execute-Returned e r))
    commanded-AnswersWith e r (Command.update_asset s asset_id revision patch) =
        inl (executed-AnswersWith r _ (execute-Returned e r))
    commanded-AnswersWith e r (Command.update_asset_review s asset_id revision state) =
        inl (executed-AnswersWith r _ (execute-Returned e r))
    commanded-AnswersWith e r (Command.update_asset_title s asset_id revision title) =
        inl (executed-AnswersWith r _ (execute-Returned e r))
    commanded-AnswersWith e r (Command.update_asset_note s asset_id revision text) =
        inl (executed-AnswersWith r _ (execute-Returned e r))
    commanded-AnswersWith e r (Command.query_jobs s offset limit query) =
        inl (executed-AnswersWith r _ (execute-Returned e r))
    commanded-AnswersWith e r (Command.list_collections s) =
        inl (executed-AnswersWith r _ (execute-Returned e r))
    commanded-AnswersWith e r (Command.create_collection s name) =
        inl (executed-AnswersWith r _ (execute-Returned e r))
    commanded-AnswersWith e r (Command.rename_collection s id revision name) =
        inl (executed-AnswersWith r _ (execute-Returned e r))
    commanded-AnswersWith e r (Command.delete_collection s id) =
        inl (executed-AnswersWith r _ (execute-Returned e r))
    commanded-AnswersWith e r (Command.set_collection_membership s id asset_ids member) =
        inl (executed-AnswersWith r _ (execute-Returned e r))
    commanded-AnswersWith e r (Command.authorize_resource s asset_id profile) =
        started-or e r _ (start-Counted e r.request_id s asset_id profile)
    commanded-AnswersWith e r (Command.resolve_location s location_id) =
        inl (executed-AnswersWith r _ (execute-Returned e r))
    commanded-AnswersWith e r (Command.canonical_dump s) =
        inl (executed-AnswersWith r _ (execute-Returned e r))
    commanded-AnswersWith e r (Command.canonical_digest s) =
        inl (executed-AnswersWith r _ (execute-Returned e r))
    commanded-AnswersWith e r (Command.canonical_page s digest entity cursor limit) =
        inl (executed-AnswersWith r _ (execute-Returned e r))
    commanded-AnswersWith e r (Command.get_capabilities none) =
        inl (executed-AnswersWith r _ (execute-Returned e r))
    commanded-AnswersWith e r (Command.get_capabilities (some s)) =
        inl (executed-AnswersWith r _ (execute-Returned e r))
    commanded-AnswersWith e r (Command.cancel_job s job_id) =
        inl (executed-AnswersWith r _ (execute-Returned e r))
    commanded-AnswersWith e r Command.test_crash =
        inl (executed-AnswersWith r _ (execute-Returned e r))
    commanded-AnswersWith e r Command.shutdown =
        inl (executed-AnswersWith r _ (execute-Returned e r))

    -- Without the test commands, a request with a valid id is answered at once by one frame with
    -- its id, or nothing is written and one more piece of resource work is under way.
    pub receive-AnswersWith :
        (e : CommandEngine S) (r : ClientFrame)
        → valid_request_id r.request_id ≡ true
        → AnswersWith r.request_id
            (receive api calls waits core_version false e (Input.request r)).0
          ⊎ Accepts e (receive api calls waits core_version false e (Input.request r))
    unfolding receive
    receive-AnswersWith e r valid = rw (receive, valid) (commanded-AnswersWith e r r.command)
