-- ===== src/Server/Execute.antt =====
-- `CommandEngine::execute` of crates/reference-core/src/server.rs. `core_version` stands for the
-- version of the package, `test_commands` for the environment variable that allows a crash; a crash
-- ends the process.
pub mod Capacity
pub mod Refused
pub mod Quiet
use reference_library.Common.{String, Bool, none, some, if◌then◌else◌, ◌==◌}
use reference_library.Errors.{protocol_version_unsupported, test_command_disabled}
use reference_library.Fallible.{Result, ok, err}
use reference_library.Protocol.Limits.{protocol_version}
use reference_library.Protocol.Command.{Command, ClientFrame}
use reference_library.Protocol.Event.{collections_changed}
use reference_library.Protocol.Frame.{CommandResult}
use reference_library.Server.Engine.{CommandEngine}
use reference_library.Server.Jobs.{Waited, reap_finished_scans}
use reference_library.Server.Api.{SessionApi, review_patch, title_patch, note_patch}
use reference_library.Server.Call.{ask, tell, reply, answered, announce, start_scan}
use reference_library.Server.Arms.{
  Outcome, capabilities, asset_event, collection_event, updated, collected, say_hello, stop_session,
  cancelled_as, close_library, open_session, shut_down,
}

module _ {S Value Record : Type 0} where
  module _ (api : SessionApi S Value Record) (waits : String → Waited) (core_version : String)
      (test_commands : Bool) where
    -- One arm for each command.
    unfoldable pub dispatch :
        CommandEngine S → Command → Outcome (Result (CommandResult Value Record) × CommandEngine S)
    unfolding say_hello shut_down start_scan
    dispatch e (Command.hello client_name versions) =
        Outcome.returns (say_hello versions core_version, e)
    dispatch e (Command.create_library path name) =
        Outcome.returns (open_session api e (api.create path name))
    dispatch e (Command.open_library path) = Outcome.returns (open_session api e (api.open_at path))
    dispatch e (Command.close_library s) =
        Outcome.returns (close_library api s (stop_session waits e s))
    dispatch e (Command.add_root s path name) = Outcome.returns (
        start_scan e s (λ session. api.add_root session path name)
          (λ plan. CommandResult.root_added plan.0 plan.1))
    dispatch e (Command.list_roots s) =
        Outcome.returns (answered (λ items. CommandResult.roots items) (ask e s api.query_roots), e)
    dispatch e (Command.bind_root s root_id path) = Outcome.returns (
        reply (λ root. CommandResult.root_bound root)
          (tell e s (λ session. api.reauthorize_root session root_id path)))
    dispatch e (Command.scan_root s root_id) = Outcome.returns (
        start_scan e s (λ session. api.rescan_root session root_id)
          (λ plan. CommandResult.root_scan_started plan.0 plan.1))
    dispatch e (Command.query_assets s offset limit projection) = Outcome.returns (
      answered (λ page. CommandResult.asset_page page)
          (ask e s (λ session. api.query_assets session offset limit projection)),
      e,
    )
    dispatch e (Command.query_asset_index s offset limit projection query revision) =
        Outcome.returns (
          answered (λ page. CommandResult.asset_page page)
              (ask e s (λ session.
                api.query_asset_index_at_revision session offset limit projection query revision)),
          e,
        )
    dispatch e (Command.get_asset s asset_id) = Outcome.returns (
      answered (λ asset. CommandResult.asset asset)
          (ask e s (λ session. api.get_asset session asset_id)),
      e,
    )
    dispatch e (Command.update_asset s asset_id revision patch) = Outcome.returns (
        announce asset_event updated
          (tell e s (λ session. api.update_asset session asset_id revision patch)))
    dispatch e (Command.update_asset_review s asset_id revision state) = Outcome.returns (
        announce asset_event updated
          (tell e s (λ session. api.update_asset session asset_id revision (review_patch state))))
    dispatch e (Command.update_asset_title s asset_id revision title) = Outcome.returns (
        announce asset_event updated
          (tell e s (λ session. api.update_asset session asset_id revision (title_patch title))))
    dispatch e (Command.update_asset_note s asset_id revision note) = Outcome.returns (
        announce asset_event updated
          (tell e s (λ session. api.update_asset session asset_id revision (note_patch note))))
    dispatch e (Command.query_jobs s offset limit query) = Outcome.returns (
      answered (λ page. CommandResult.job_page page)
          (ask e s (λ session. api.query_jobs session offset limit query)),
      e,
    )
    dispatch e (Command.list_collections s) =
        Outcome.returns
          (answered (λ items. CommandResult.collections items) (ask e s api.list_collections), e)
    dispatch e (Command.create_collection s name) = Outcome.returns (
        announce collection_event collected
          (tell e s (λ session. api.create_collection session name)))
    dispatch e (Command.rename_collection s collection_id revision name) = Outcome.returns (
        announce collection_event collected
          (tell e s (λ session. api.rename_collection session collection_id revision name)))
    dispatch e (Command.delete_collection s collection_id) = Outcome.returns (
        announce (λ revision. collections_changed collection_id revision)
          (λ revision. CommandResult.collection_deleted collection_id revision)
          (tell e s (λ session. api.delete_collection session collection_id)))
    dispatch e (Command.set_collection_membership s collection_id asset_ids member) =
        Outcome.returns (
          announce (λ made. collections_changed collection_id made.1)
            (λ made. CommandResult.collection_membership_updated collection_id made.0 made.1)
            (tell e s
              (λ session. api.set_collection_membership session collection_id asset_ids member)))
    dispatch e (Command.authorize_resource s asset_id profile) = Outcome.returns (
        reply (λ descriptor. CommandResult.resource_authorized descriptor)
          (tell e s (λ session. api.authorize_resource session asset_id profile)))
    dispatch e (Command.resolve_location s location_id) = Outcome.returns (
      answered (λ location. CommandResult.location_resolved location)
          (ask e s (λ session. api.resolve_location session location_id)),
      e,
    )
    dispatch e (Command.canonical_dump s) =
        Outcome.returns
          (answered (λ dump. CommandResult.canonical_dump dump) (ask e s api.canonical_dump), e)
    dispatch e (Command.canonical_digest s) =
        Outcome.returns
          (reply (λ digest. CommandResult.canonical_digest digest) (tell e s api.canonical_digest))
    dispatch e (Command.canonical_page s digest entity cursor limit) = Outcome.returns (
        reply (λ page. CommandResult.canonical_page page)
          (tell e s (λ session. api.canonical_page session digest entity cursor limit)))
    dispatch e (Command.get_capabilities none) =
        Outcome.returns (ok (CommandResult.capabilities capabilities), e)
    dispatch e (Command.get_capabilities (some s)) = Outcome.returns (
      answered (λ session. CommandResult.capabilities capabilities)
          (ask e s (λ session. ok session)),
      e,
    )
    dispatch e (Command.cancel_job s job_id) =
        Outcome.returns
          (cancelled_as e s job_id (ask e s (λ session. api.job_state session job_id)))
    dispatch e Command.test_crash =
        if test_commands then Outcome.exits 91 else Outcome.returns (err test_command_disabled, e)
    dispatch e Command.shutdown = Outcome.returns (shut_down api waits e)

    unfoldable pub execute :
        CommandEngine S
        → ClientFrame
        → Outcome (Result (CommandResult Value Record) × CommandEngine S)
    unfolding dispatch
    execute e request =
        let reaped = record e { jobs = reap_finished_scans e.jobs } in
        if request.protocol_version == protocol_version
        then dispatch reaped request.command
        else Outcome.returns (err (protocol_version_unsupported request.protocol_version), reaped)
