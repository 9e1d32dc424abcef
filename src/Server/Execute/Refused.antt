-- ===== src/Server/Execute/Refused.antt =====
-- On the commands for a session that is not open, in execute of crates/reference-core/src/server.rs.
use reference_library.Common.{
  ◌≡◌, refl, String, Bool, true, false, Option, none, some, leb, ◌==◌, arith, Bool-cases, inl, inr,
}
use reference_library.Fallible.{Result, ok, err}
use reference_library.Protocol.Limits.{protocol_version}
use reference_library.Protocol.Command.{Command, ClientFrame}
use reference_library.Protocol.Frame.{CommandResult}
use reference_library.Server.Engine.{CommandEngine, lookup}
use reference_library.Server.Jobs.{Waited, reap_finished_scans}
use reference_library.Server.Api.{SessionApi}
use reference_library.Server.Call.{start_scan, scan_count}
use reference_library.Server.Arms.{Afterwards, stop_session, close_library}
use reference_library.Server.Execute.{dispatch, execute}

-- The session that a command names.
abbrev pub session_of : Command → Option String
session_of (Command.close_library s) = some s
session_of (Command.add_root s _ _) = some s
session_of (Command.list_roots s) = some s
session_of (Command.bind_root s _ _) = some s
session_of (Command.scan_root s _) = some s
session_of (Command.query_assets s _ _ _) = some s
session_of (Command.query_asset_index s _ _ _ _ _) = some s
session_of (Command.get_asset s _) = some s
session_of (Command.update_asset s _ _ _) = some s
session_of (Command.update_asset_review s _ _ _) = some s
session_of (Command.update_asset_title s _ _ _) = some s
session_of (Command.update_asset_note s _ _ _) = some s
session_of (Command.query_jobs s _ _ _) = some s
session_of (Command.list_collections s) = some s
session_of (Command.create_collection s _) = some s
session_of (Command.rename_collection s _ _ _) = some s
session_of (Command.delete_collection s _) = some s
session_of (Command.set_collection_membership s _ _ _) = some s
session_of (Command.authorize_resource s _ _) = some s
session_of (Command.resolve_location s _) = some s
session_of (Command.canonical_dump s) = some s
session_of (Command.canonical_digest s) = some s
session_of (Command.canonical_page s _ _ _ _) = some s
session_of (Command.cancel_job s _) = some s
session_of (Command.get_capabilities session_id) = session_id
session_of other = none

abbrev pub is_ok {ℓ} : {A : Type ℓ} → Result A → Bool
is_ok (ok value) = true
is_ok (err cause) = false

module _ {S Value Record : Type 0} where
  -- An answer that refuses and leaves the sessions and the queue of events as they were.
  abbrev pub IsRefusal :
      CommandEngine S → Result (CommandResult Value Record) × CommandEngine S → Type 0
  IsRefusal e made =
      (is_ok made.0 ≡ false) × (made.1.sessions ≡ e.sessions) × (made.1.events ≡ e.events)

  start_scan-IsRefusal :
      (e : CommandEngine S) (s : String) (plan : S → Result (String × String) × S)
      (f : String × String → CommandResult Value Record)
      → lookup e.sessions s ≡ none
      → IsRefusal e (start_scan e s plan f)
  unfolding start_scan
  start_scan-IsRefusal e s plan f closed = elim (Bool-cases (leb 2 (scan_count e.jobs))) [
    | inl full ↦ rw (start_scan, full) (refl, refl, refl)
    | inr free ↦ rw (start_scan, free, closed) (refl, refl, refl)
  ]

  close_library-IsRefusal :
      (api : SessionApi S Value Record) (e : CommandEngine S) (s : String)
      (stopped : Result (Unit {0}) × CommandEngine S)
      → stopped.1.sessions ≡ e.sessions
      → stopped.1.events ≡ e.events
      → lookup e.sessions s ≡ none
      → IsRefusal e (close_library api s stopped)
  close_library-IsRefusal api e s (err cause, later) sessions events closed =
      (refl, sessions, events)
  close_library-IsRefusal api e s (ok done, later) sessions events closed =
      let gone : lookup later.sessions s ≡ none = rw sessions closed in
      rw gone (refl, sessions, events)

  module _ (api : SessionApi S Value Record) (waits : String → Waited) (core_version : String)
      (test_commands : Bool) where
    dispatch-IsRefusal :
        (e : CommandEngine S) (command : Command) (session_id : String)
        → session_of command ≡ some session_id
        → lookup e.sessions session_id ≡ none
        → Afterwards (IsRefusal e) (dispatch api waits core_version test_commands e command)
    unfolding dispatch
    dispatch-IsRefusal e (Command.hello client_name versions) id named closed = cc named
    dispatch-IsRefusal e (Command.create_library path name) id named closed = cc named
    dispatch-IsRefusal e (Command.open_library path) id named closed = cc named
    dispatch-IsRefusal e (Command.close_library s) id named closed =
        let gone : lookup e.sessions s ≡ none = ground (arith, named, closed) in
        close_library-IsRefusal api e s (stop_session waits e s) refl refl gone
    dispatch-IsRefusal e (Command.add_root s path name) id named closed =
        let gone : lookup e.sessions s ≡ none = ground (arith, named, closed) in
        start_scan-IsRefusal e s _ _ gone
    dispatch-IsRefusal e (Command.list_roots s) id named closed =
        let gone : lookup e.sessions s ≡ none = ground (arith, named, closed) in
        rw gone (refl, refl, refl)
    dispatch-IsRefusal e (Command.bind_root s root_id path) id named closed =
        let gone : lookup e.sessions s ≡ none = ground (arith, named, closed) in
        rw gone (refl, refl, refl)
    dispatch-IsRefusal e (Command.scan_root s root_id) id named closed =
        let gone : lookup e.sessions s ≡ none = ground (arith, named, closed) in
        start_scan-IsRefusal e s _ _ gone
    dispatch-IsRefusal e (Command.query_assets s offset limit projection) id named closed =
        let gone : lookup e.sessions s ≡ none = ground (arith, named, closed) in
        rw gone (refl, refl, refl)
    dispatch-IsRefusal e (Command.query_asset_index s offset limit projection query revision) id
          named closed =
        let gone : lookup e.sessions s ≡ none = ground (arith, named, closed) in
        rw gone (refl, refl, refl)
    dispatch-IsRefusal e (Command.get_asset s asset_id) id named closed =
        let gone : lookup e.sessions s ≡ none = ground (arith, named, closed) in
        rw gone (refl, refl, refl)
    dispatch-IsRefusal e (Command.update_asset s asset_id revision patch) id named closed =
        let gone : lookup e.sessions s ≡ none = ground (arith, named, closed) in
        rw gone (refl, refl, refl)
    dispatch-IsRefusal e (Command.update_asset_review s asset_id revision state) id named closed =
        let gone : lookup e.sessions s ≡ none = ground (arith, named, closed) in
        rw gone (refl, refl, refl)
    dispatch-IsRefusal e (Command.update_asset_title s asset_id revision title) id named closed =
        let gone : lookup e.sessions s ≡ none = ground (arith, named, closed) in
        rw gone (refl, refl, refl)
    dispatch-IsRefusal e (Command.update_asset_note s asset_id revision text) id named closed =
        let gone : lookup e.sessions s ≡ none = ground (arith, named, closed) in
        rw gone (refl, refl, refl)
    dispatch-IsRefusal e (Command.query_jobs s offset limit query) id named closed =
        let gone : lookup e.sessions s ≡ none = ground (arith, named, closed) in
        rw gone (refl, refl, refl)
    dispatch-IsRefusal e (Command.list_collections s) id named closed =
        let gone : lookup e.sessions s ≡ none = ground (arith, named, closed) in
        rw gone (refl, refl, refl)
    dispatch-IsRefusal e (Command.create_collection s name) id named closed =
        let gone : lookup e.sessions s ≡ none = ground (arith, named, closed) in
        rw gone (refl, refl, refl)
    dispatch-IsRefusal e (Command.rename_collection s collection_id revision name) id named closed =
        let gone : lookup e.sessions s ≡ none = ground (arith, named, closed) in
        rw gone (refl, refl, refl)
    dispatch-IsRefusal e (Command.delete_collection s collection_id) id named closed =
        let gone : lookup e.sessions s ≡ none = ground (arith, named, closed) in
        rw gone (refl, refl, refl)
    dispatch-IsRefusal e (Command.set_collection_membership s collection_id asset_ids member) id
          named closed =
        let gone : lookup e.sessions s ≡ none = ground (arith, named, closed) in
        rw gone (refl, refl, refl)
    dispatch-IsRefusal e (Command.authorize_resource s asset_id profile) id named closed =
        let gone : lookup e.sessions s ≡ none = ground (arith, named, closed) in
        rw gone (refl, refl, refl)
    dispatch-IsRefusal e (Command.resolve_location s location_id) id named closed =
        let gone : lookup e.sessions s ≡ none = ground (arith, named, closed) in
        rw gone (refl, refl, refl)
    dispatch-IsRefusal e (Command.canonical_dump s) id named closed =
        let gone : lookup e.sessions s ≡ none = ground (arith, named, closed) in
        rw gone (refl, refl, refl)
    dispatch-IsRefusal e (Command.canonical_digest s) id named closed =
        let gone : lookup e.sessions s ≡ none = ground (arith, named, closed) in
        rw gone (refl, refl, refl)
    dispatch-IsRefusal e (Command.canonical_page s digest entity cursor limit) id named closed =
        let gone : lookup e.sessions s ≡ none = ground (arith, named, closed) in
        rw gone (refl, refl, refl)
    dispatch-IsRefusal e (Command.get_capabilities none) id named closed = cc named
    dispatch-IsRefusal e (Command.get_capabilities (some s)) id named closed =
        let gone : lookup e.sessions s ≡ none = ground (arith, named, closed) in
        rw gone (refl, refl, refl)
    dispatch-IsRefusal e (Command.cancel_job s job_id) id named closed =
        let gone : lookup e.sessions s ≡ none = ground (arith, named, closed) in
        rw gone (refl, refl, refl)
    dispatch-IsRefusal e Command.test_crash id named closed = cc named
    dispatch-IsRefusal e Command.shutdown id named closed = cc named

    -- A command that names a session that is not open is refused, where it has an answer; no
    -- session is opened or closed, and no event is sent.
    pub execute-IsRefusal :
        (e : CommandEngine S) (request : ClientFrame) (session_id : String)
        → session_of request.command ≡ some session_id
        → lookup e.sessions session_id ≡ none
        → Afterwards (IsRefusal e) (execute api waits core_version test_commands e request)
    unfolding execute
    execute-IsRefusal e request session_id named closed =
        let reaped = record e { jobs = reap_finished_scans e.jobs } in
        elim (Bool-cases (request.protocol_version == protocol_version)) [
          | inl same ↦
              rw (execute, same) (dispatch-IsRefusal reaped request.command session_id named closed)
          | inr other ↦ rw (execute, other) (refl, refl, refl)
        ]
