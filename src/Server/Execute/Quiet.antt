-- ===== src/Server/Execute/Quiet.antt =====
-- On the events that execute of crates/reference-core/src/server.rs sends.
use reference_library.Common.{
  ◌≡◌, refl, ◌∙◌, ◌⊎◌, inl, inr, String, Bool, Option, none, some, List, [], ◌∷◌, ◌++◌, leb, length,
  ◌==◌, arith, Bool-cases,
}
use reference_library.Fallible.{Result, ok, err, Result-cases}
use reference_library.Protocol.Limits.{protocol_version}
use reference_library.Protocol.Command.{Command, ClientFrame}
use reference_library.Protocol.Event.{Event, root_state_changed}
use reference_library.Server.Engine.{CommandEngine, lookup, insert, event_capacity}
use reference_library.Server.Jobs.{Waited, reap_finished_scans, stop_all_jobs}
use reference_library.Server.Api.{SessionApi}
use reference_library.Server.Call.{
  ask, told, tell, reply, announce, launched, start_scan, scan_count, scan_job, queue_local_event,
}
use reference_library.Server.Arms.{
  Afterwards, stop_session, close_library, close_removed, open_session, cancel_job, cancelled_as,
  shut_down,
}
use reference_library.Server.Execute.{dispatch, execute}

module _ {S : Type 0} where
  -- An answer that refuses has sent nothing; one that succeeds has sent at most one event, behind those
  -- that wait.
  abbrev pub Announces : {B : Type 0} → List Event → Result B × CommandEngine S → Type 0
  Announces before (err cause, later) = later.events ≡ before
  Announces before (ok value, later) =
      (later.events ≡ before) ⊎ ((sent : Event) × (later.events ≡ before ++ (sent ∷ [])))

  -- Nothing is sent by what leaves the queue alone.
  quiet :
      {B : Type 0} (before : List Event) (made : Result B × CommandEngine S)
      → made.1.events ≡ before
      → Announces before made
  quiet before (ok value, later) h = inl h
  quiet before (err cause, later) h = h

  queue_local_event-appends :
      (e : CommandEngine S) (sent : Event)
      → ((queue_local_event e sent).events ≡ e.events)
        ⊎ ((queue_local_event e sent).events ≡ e.events ++ (sent ∷ []))
  unfolding queue_local_event
  queue_local_event-appends e sent = elim (Bool-cases (leb event_capacity (length e.events))) [
    | inl full ↦ rw (queue_local_event, full) (inl refl)
    | inr room ↦ rw (queue_local_event, room) (inr refl)
  ]

  told-events :
      {A : Type 0} (e : CommandEngine S) (s : String) (found : Option S) (method : S → Result A × S)
      → (told e s found method).1.events ≡ e.events
  told-events e s none method = refl
  told-events e s (some session) method = refl

  module _ {A B : Type 0} (f : A → B) where
    reply-events : (made : Result A × CommandEngine S) → (reply f made).1.events ≡ made.1.events
    reply-events (ok value, e) = refl
    reply-events (err cause, e) = refl

    announce-Announces :
        (before : List Event) (note : A → Event) (made : Result A × CommandEngine S)
        → made.1.events ≡ before
        → Announces before (announce note f made)
    announce-Announces before note (ok value, e) h =
        elim (queue_local_event-appends e (note value)) [
          | inl same ↦ inl (rw same h)
          | inr more ↦ inr (note value, rw (more, h) refl)
        ]
    announce-Announces before note (err cause, e) h = h

  module _ {B : Type 0} (s : String) (f : String × String → B) (before : List Event) where
    launched-Announces :
        (made : Result (String × String) × CommandEngine S)
        → made.1.events ≡ before
        → Announces before (launched s f made)
    launched-Announces (ok plan, e) h =
        elim (queue_local_event-appends (record e { jobs = insert e.jobs plan.1 (scan_job s) })
          (root_state_changed plan.0 "scanning")) [
            | inl same ↦ inl (rw same h)
            | inr more ↦ inr (root_state_changed plan.0 "scanning", rw (more, h) refl)
          ]
    launched-Announces (err cause, e) h = h

    start_scan-Announces :
        (e : CommandEngine S) (plan : S → Result (String × String) × S)
        → e.events ≡ before
        → Announces before (start_scan e s plan f)
    unfolding start_scan
    start_scan-Announces e plan h = elim (Bool-cases (leb 2 (scan_count e.jobs))) [
      | inl full ↦ rw (start_scan, full) h
      | inr free ↦
          rw (start_scan, free)
            (launched-Announces (tell e s plan) (rw (told-events e s (lookup e.sessions s) plan) h))
    ]

  cancel_job-events :
      (e : CommandEngine S) (s job_id : String) (persisted : Option String)
      → (cancel_job e s job_id persisted).1.events ≡ e.events
  unfolding cancel_job
  cancel_job-events e s job_id persisted = ground arith

  module _ {Value Record : Type 0} (api : SessionApi S Value Record) where
    open_session-events :
        (e : CommandEngine S) (made : Result S) → (open_session api e made).1.events ≡ e.events
    open_session-events e (ok session) = refl
    open_session-events e (err cause) = refl

    close_removed-events :
        (e : CommandEngine S) (s : String) (found : Option S)
        → (close_removed api e s found).1.events ≡ e.events
    close_removed-events e s none = refl
    close_removed-events e s (some session) = refl

    close_library-events :
        (s : String) (stopped : Result (Unit {0}) × CommandEngine S)
        → (close_library api s stopped).1.events ≡ stopped.1.events
    close_library-events s (ok done, e) = close_removed-events e s (lookup e.sessions s)
    close_library-events s (err cause, e) = refl

    cancelled_as-events :
        (e : CommandEngine S) (s job_id : String) (persisted : Result (Option String))
        → (cancelled_as {Value = Value} {Record = Record} e s job_id persisted).1.events ≡ e.events
    cancelled_as-events e s job_id (ok persisted) = cancel_job-events e s job_id persisted
    cancelled_as-events e s job_id (err cause) = refl

    shut_down-events :
        (waits : String → Waited) (e : CommandEngine S)
        → (shut_down api waits e).1.events ≡ e.events
    unfolding shut_down
    shut_down-events waits e = elim (Result-cases (stop_all_jobs waits e.jobs).0) [
      | inl (done, s) ↦ rw (shut_down, s) refl
      | inr (cause, s) ↦ rw (shut_down, s) refl
    ]

    module _ (waits : String → Waited) (core_version : String) (test_commands : Bool) where
      dispatch-Announces :
          (e : CommandEngine S) (command : Command)
          → Afterwards
              (Announces e.events)
              (dispatch api waits core_version test_commands e command)
      unfolding dispatch
      dispatch-Announces e (Command.hello client_name versions) = quiet e.events (_, e) refl
      dispatch-Announces e (Command.create_library path name) =
          quiet e.events _ (open_session-events e (api.create path name))
      dispatch-Announces e (Command.open_library path) =
          quiet e.events _ (open_session-events e (api.open_at path))
      dispatch-Announces e (Command.close_library s) =
          quiet e.events _ (close_library-events s (stop_session waits e s))
      dispatch-Announces e (Command.add_root s path name) =
          start_scan-Announces s _ e.events e _ refl
      dispatch-Announces e (Command.list_roots s) = quiet e.events (_, e) refl
      dispatch-Announces e (Command.bind_root s root_id path) =
          quiet e.events _ (reply-events _ (tell e s _) ∙ told-events e s (lookup e.sessions s) _)
      dispatch-Announces e (Command.scan_root s root_id) =
          start_scan-Announces s _ e.events e _ refl
      dispatch-Announces e (Command.query_assets s offset limit projection) =
          quiet e.events (_, e) refl
      dispatch-Announces e (Command.query_asset_index s offset limit projection query revision) =
          quiet e.events (_, e) refl
      dispatch-Announces e (Command.get_asset s asset_id) = quiet e.events (_, e) refl
      dispatch-Announces e (Command.update_asset s asset_id revision patch) =
          announce-Announces _ e.events _ _ (told-events e s (lookup e.sessions s) _)
      dispatch-Announces e (Command.update_asset_review s asset_id revision state) =
          announce-Announces _ e.events _ _ (told-events e s (lookup e.sessions s) _)
      dispatch-Announces e (Command.update_asset_title s asset_id revision title) =
          announce-Announces _ e.events _ _ (told-events e s (lookup e.sessions s) _)
      dispatch-Announces e (Command.update_asset_note s asset_id revision text) =
          announce-Announces _ e.events _ _ (told-events e s (lookup e.sessions s) _)
      dispatch-Announces e (Command.query_jobs s offset limit query) = quiet e.events (_, e) refl
      dispatch-Announces e (Command.list_collections s) = quiet e.events (_, e) refl
      dispatch-Announces e (Command.create_collection s name) =
          announce-Announces _ e.events _ _ (told-events e s (lookup e.sessions s) _)
      dispatch-Announces e (Command.rename_collection s id revision name) =
          announce-Announces _ e.events _ _ (told-events e s (lookup e.sessions s) _)
      dispatch-Announces e (Command.delete_collection s id) =
          announce-Announces _ e.events _ _ (told-events e s (lookup e.sessions s) _)
      dispatch-Announces e (Command.set_collection_membership s id asset_ids member) =
          announce-Announces _ e.events _ _ (told-events e s (lookup e.sessions s) _)
      dispatch-Announces e (Command.authorize_resource s asset_id profile) =
          quiet e.events _ (reply-events _ (tell e s _) ∙ told-events e s (lookup e.sessions s) _)
      dispatch-Announces e (Command.resolve_location s location_id) = quiet e.events (_, e) refl
      dispatch-Announces e (Command.canonical_dump s) = quiet e.events (_, e) refl
      dispatch-Announces e (Command.canonical_digest s) =
          quiet e.events _ (reply-events _ (tell e s _) ∙ told-events e s (lookup e.sessions s) _)
      dispatch-Announces e (Command.canonical_page s digest entity cursor limit) =
          quiet e.events _ (reply-events _ (tell e s _) ∙ told-events e s (lookup e.sessions s) _)
      dispatch-Announces e (Command.get_capabilities none) = inl refl
      dispatch-Announces e (Command.get_capabilities (some s)) = quiet e.events (_, e) refl
      dispatch-Announces e (Command.cancel_job s job_id) =
          quiet e.events _
            (cancelled_as-events e s job_id (ask e s (λ session. api.job_state session job_id)))
      dispatch-Announces e Command.test_crash = elim (Bool-cases test_commands) [
        | inl enabled ↦ rw enabled tt
        | inr disabled ↦ rw disabled refl
      ]
      dispatch-Announces e Command.shutdown = quiet e.events _ (shut_down-events waits e)

      -- A refused command sends no event; a command that succeeds sends at most one, behind
      -- those that wait.
      pub execute-Announces :
          (e : CommandEngine S) (request : ClientFrame)
          → Afterwards (Announces e.events) (execute api waits core_version test_commands e request)
      unfolding execute
      execute-Announces e request =
          let reaped = record e { jobs = reap_finished_scans e.jobs } in
          elim (Bool-cases (request.protocol_version == protocol_version)) [
            | inl same ↦ rw (execute, same) (dispatch-Announces reaped request.command)
            | inr other ↦ rw (execute, other) refl
          ]
