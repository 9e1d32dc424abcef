-- ===== src/Server/Loop/Ended.antt =====
-- On the end of the loop of run_server, crates/reference-core/src/server.rs.
use reference_library.Common.{
  ◌≡◌, refl, String, Bool, true, false, some, none, [], ◌==◌, ◌&&◌, subst, Bool-cases, inl, inr,
}
use reference_library.Fallible.{Result, ok, err, Result-cases}
use reference_library.Protocol.Limits.{protocol_version}
use reference_library.Protocol.Command.{Command, ClientFrame}
use reference_library.Protocol.Frame.{CommandResult}
use reference_library.Server.Reply.{valid_request_id}
use reference_library.Server.Engine.{CommandEngine, SessionCalls}
use reference_library.Server.Jobs.{Waited, reap_finished_scans, stop_all_jobs}
use reference_library.Server.Jobs.Everywhere.{stop_all_jobs-empty, stop_all_jobs-ok}
use reference_library.Server.Api.{SessionApi}
use reference_library.Server.Arms.{Outcome, shut_down, close_all}
use reference_library.Server.Execute.{dispatch, execute}
use reference_library.Server.Loop.{
  Input, Next, is_shutdown, says_shutdown, pass, executed, started, commanded, receive,
}

-- No pass that ends the loop leaves a job.
EndsQuiet : {S : Type 0} → Next S → Type 0
EndsQuiet (Next.goes_on e) = Unit
EndsQuiet (Next.ends e) = e.jobs ≡ []
EndsQuiet (Next.exits code) = Unit

started-goes_on :
    {S : Type 0} (Value Record : Type 0) (r : ClientFrame)
    (made : Result (Unit {0}) × CommandEngine S)
    → EndsQuiet (started {Value = Value} {Record = Record} r made).1
unfolding EndsQuiet
started-goes_on Value Record r (ok done, e) = tt
started-goes_on Value Record r (err cause, e) = tt

module _ {S Value Record : Type 0} where
  executed-goes_on :
      (r : ClientFrame) (outcome : Outcome (Result (CommandResult Value Record) × CommandEngine S))
      → is_shutdown r.command ≡ false
      → EndsQuiet (executed r outcome).1
  unfolding EndsQuiet
  executed-goes_on r (Outcome.exits code) h = tt
  executed-goes_on r (Outcome.returns (result, e)) h = rw h tt

  module _ (api : SessionApi S Value Record) (calls : SessionCalls S) (waits : String → Waited)
      (core_version : String) (test_commands : Bool) where
    shut_down-EndsQuiet :
        (e : CommandEngine S) (also : Bool)
        → EndsQuiet
            (pass (also && says_shutdown (shut_down api waits e).0) (shut_down api waits e).1)
    unfolding shut_down EndsQuiet
    shut_down-EndsQuiet e false = tt
    shut_down-EndsQuiet e true = elim (Result-cases (stop_all_jobs waits e.jobs).0) [
      | inr (cause, h) ↦ rw (shut_down, h) tt
      | inl (done, h) ↦
          rw (shut_down, h)
            (elim (Result-cases (close_all api e.sessions)) [
              | inl (closed, c) ↦ rw c (stop_all_jobs-empty waits e.jobs h)
              | inr (cause, c) ↦ rw c tt
            ])
    ]

    executed-EndsQuiet :
        (e : CommandEngine S) (r : ClientFrame)
        → r.command ≡ Command.shutdown
        → EndsQuiet (executed r (execute api waits core_version test_commands e r)).1
    unfolding execute dispatch EndsQuiet
    executed-EndsQuiet e r named = elim (Bool-cases (r.protocol_version == protocol_version)) [
      | inl same ↦
          rw (execute, same, named)
            (shut_down-EndsQuiet (record e { jobs = reap_finished_scans e.jobs }) true)
      | inr other ↦ rw (execute, other, named) tt
    ]

    commanded-EndsQuiet :
        (e : CommandEngine S) (r : ClientFrame) (command : Command)
        → r.command ≡ command
        → EndsQuiet (commanded api calls waits core_version test_commands e r command).1
    commanded-EndsQuiet e r (Command.hello client_name versions) named =
        executed-goes_on r _ (rw named refl)
    commanded-EndsQuiet e r (Command.create_library path name) named =
        executed-goes_on r _ (rw named refl)
    commanded-EndsQuiet e r (Command.open_library path) named = executed-goes_on r _ (rw named refl)
    commanded-EndsQuiet e r (Command.close_library s) named = executed-goes_on r _ (rw named refl)
    commanded-EndsQuiet e r (Command.add_root s path name) named =
        executed-goes_on r _ (rw named refl)
    commanded-EndsQuiet e r (Command.list_roots s) named = executed-goes_on r _ (rw named refl)
    commanded-EndsQuiet e r (Command.bind_root s root_id path) named =
        executed-goes_on r _ (rw named refl)
    commanded-EndsQuiet e r (Command.scan_root s root_id) named =
        executed-goes_on r _ (rw named refl)
    commanded-EndsQuiet e r (Command.query_assets s offset limit projection) named =
        executed-goes_on r _ (rw named refl)
    commanded-EndsQuiet e r (Command.query_asset_index s offset limit projection query revision)
          named =
        executed-goes_on r _ (rw named refl)
    commanded-EndsQuiet e r (Command.get_asset s asset_id) named =
        executed-goes_on r _ (rw named refl)
    commanded-EndsQuiet e r (Command.update_asset s asset_id revision patch) named =
        executed-goes_on r _ (rw named refl)
    commanded-EndsQuiet e r (Command.update_asset_review s asset_id revision state) named =
        executed-goes_on r _ (rw named refl)
    commanded-EndsQuiet e r (Command.update_asset_title s asset_id revision title) named =
        executed-goes_on r _ (rw named refl)
    commanded-EndsQuiet e r (Command.update_asset_note s asset_id revision text) named =
        executed-goes_on r _ (rw named refl)
    commanded-EndsQuiet e r (Command.query_jobs s offset limit query) named =
        executed-goes_on r _ (rw named refl)
    commanded-EndsQuiet e r (Command.list_collections s) named =
        executed-goes_on r _ (rw named refl)
    commanded-EndsQuiet e r (Command.create_collection s name) named =
        executed-goes_on r _ (rw named refl)
    commanded-EndsQuiet e r (Command.rename_collection s id revision name) named =
        executed-goes_on r _ (rw named refl)
    commanded-EndsQuiet e r (Command.delete_collection s id) named =
        executed-goes_on r _ (rw named refl)
    commanded-EndsQuiet e r (Command.set_collection_membership s id asset_ids member) named =
        executed-goes_on r _ (rw named refl)
    commanded-EndsQuiet e r (Command.authorize_resource s asset_id profile) named =
        started-goes_on Value Record r _
    commanded-EndsQuiet e r (Command.resolve_location s location_id) named =
        executed-goes_on r _ (rw named refl)
    commanded-EndsQuiet e r (Command.canonical_dump s) named = executed-goes_on r _ (rw named refl)
    commanded-EndsQuiet e r (Command.canonical_digest s) named =
        executed-goes_on r _ (rw named refl)
    commanded-EndsQuiet e r (Command.canonical_page s digest entity cursor limit) named =
        executed-goes_on r _ (rw named refl)
    commanded-EndsQuiet e r (Command.get_capabilities none) named =
        executed-goes_on r _ (rw named refl)
    commanded-EndsQuiet e r (Command.get_capabilities (some s)) named =
        executed-goes_on r _ (rw named refl)
    commanded-EndsQuiet e r (Command.cancel_job s job_id) named =
        executed-goes_on r _ (rw named refl)
    commanded-EndsQuiet e r Command.test_crash named = executed-goes_on r _ (rw named refl)
    commanded-EndsQuiet e r Command.shutdown named = executed-EndsQuiet e r named

    receive-EndsQuiet :
        (e : CommandEngine S) (input : Input)
        → EndsQuiet (receive api calls waits core_version test_commands e input).1
    unfolding receive EndsQuiet
    receive-EndsQuiet e (Input.request r) = elim (Bool-cases (valid_request_id r.request_id)) [
      | inl valid ↦ rw (receive, valid) (commanded-EndsQuiet e r r.command refl)
      | inr invalid ↦ rw (receive, invalid) tt
    ]
    receive-EndsQuiet e (Input.invalid message) = tt
    receive-EndsQuiet e Input.eof = elim (Result-cases (stop_all_jobs waits e.jobs).0) [
      | inl (done, h) ↦ rw (receive, h) (stop_all_jobs-empty waits e.jobs h)
      | inr (cause, h) ↦ rw (receive, h) tt
    ]

    -- The loop ends only with no job registered, be it for a shutdown or at the end of the
    -- input.
    pub receive-no_jobs :
        (e later : CommandEngine S) (input : Input)
        → (receive api calls waits core_version test_commands e input).1 ≡ Next.ends later
        → later.jobs ≡ []
    unfolding EndsQuiet
    receive-no_jobs e later input h = subst (λ next. EndsQuiet next) h (receive-EndsQuiet e input)

    -- At the end of the input, where every worker completes in time, the loop ends, with no job
    -- registered and nothing written.
    pub receive-eof :
        (e : CommandEngine S)
        → ((id : String) → waits id ≡ Waited.completed)
        → receive api calls waits core_version test_commands e Input.eof
          ≡ ([], Next.ends (record e { jobs = [] }))
    unfolding receive
    receive-eof e in_time =
        let stops = stop_all_jobs-ok waits in_time e.jobs in
        rw (receive, stops, stop_all_jobs-empty waits e.jobs stops) refl
