-- ===== src/Server/Loop.antt =====
-- The loop of `run_server`, crates/reference-core/src/server.rs. What try_recv gives
-- in a pass is an argument; a frame is handed to write_server_frame, whose errors end the loop at once.
pub mod Answered
pub mod Ended
use reference_library.Common.{
  ℕ, ◌+◌, ◌-◌, String, Bool, true, false, not, Option, none, some, List, [], ◌∷◌, ◌++◌, ◌&&◌,
  if◌then◌else◌,
}
use reference_library.Errors.{CoreError, to_protocol_error}
use reference_library.Fallible.{Result, ok, err}
use reference_library.Protocol.Limits.{protocol_version}
use reference_library.Protocol.States.{ResourceProfile}
use reference_library.Protocol.Command.{Command, ClientFrame}
use reference_library.Protocol.Frame.{CommandResult, ServerFrame}
use reference_library.Server.Reply.{valid_request_id}
use reference_library.Server.Engine.{
  CommandEngine, SessionCalls, AsyncResponse, answer, is_present, lookup, remove,
  start_resource_authorization, drain_events,
}
use reference_library.Server.Jobs.{Waited, stop_all_jobs}
use reference_library.Server.Api.{SessionApi}
use reference_library.Server.Arms.{Outcome}
use reference_library.Server.Execute.{execute}

pub data Input : Type 0 where
  request : ClientFrame → Input
  invalid : (message : String) → Input
  eof : Input

-- How a pass of the loop ends.
pub data Next (S : Type 0) : Type 0 where
  goes_on : CommandEngine S → Next S
  ends : CommandEngine S → Next S
  exits : (code : ℕ) → Next S

abbrev pub is_shutdown : Command → Bool
is_shutdown Command.shutdown = true
is_shutdown other = false

module _ {Value Record : Type 0} where
  abbrev pub frame_invalid : (request_id message : String) → ServerFrame Value Record
  frame_invalid request_id message =
      ServerFrame.error protocol_version request_id
        (record { code = "ProtocolFrameInvalid"; message = message; retryable = false })

  abbrev pub framed :
      (request_id : String) → Result (CommandResult Value Record) → ServerFrame Value Record
  framed request_id (ok result) = ServerFrame.response protocol_version request_id result
  framed request_id (err cause) =
      ServerFrame.error protocol_version request_id (to_protocol_error cause)

  -- `matches!(result.as_ref(), CommandResult::Shutdown)`
  abbrev pub says_shutdown : Result (CommandResult Value Record) → Bool
  says_shutdown (ok CommandResult.shutdown) = true
  says_shutdown other = false

abbrev pub pass : {S : Type 0} → Bool → CommandEngine S → Next S
pass true e = Next.ends e
pass false e = Next.goes_on e

module _ {S Value Record : Type 0} where
  -- The arm of a request that `execute` takes.
  abbrev pub executed :
      ClientFrame
      → Outcome (Result (CommandResult Value Record) × CommandEngine S)
      → List (ServerFrame Value Record) × Next S
  executed r (Outcome.exits code) = ([], Next.exits code)
  executed r (Outcome.returns (result, e)) =
      (framed r.request_id result ∷ [], pass (is_shutdown r.command && says_shutdown result) e)

  -- The arm of `AuthorizeResource`: what is accepted is answered by a worker.
  abbrev pub started :
      ClientFrame → Result (Unit {0}) × CommandEngine S → List (ServerFrame Value Record) × Next S
  started r (ok done, e) = ([], Next.goes_on e)
  started r (err cause, e) = (framed r.request_id (err cause) ∷ [], Next.goes_on e)

  module _ (api : SessionApi S Value Record) (calls : SessionCalls S) (waits : String → Waited)
      (core_version : String) (test_commands : Bool) where
    abbrev pub commanded :
        CommandEngine S → ClientFrame → Command → List (ServerFrame Value Record) × Next S
    commanded e r (Command.authorize_resource session_id asset_id profile) =
        started r (start_resource_authorization calls e r.request_id session_id asset_id profile)
    commanded e r other = executed r (execute api waits core_version test_commands e r)

    -- What the loop does with an input.
    unfoldable pub receive : CommandEngine S → Input → List (ServerFrame Value Record) × Next S
    receive e (Input.request r) =
        if valid_request_id r.request_id then commanded e r r.command else (
          frame_invalid "invalid-request-id" "requestId must be a short printable identifier" ∷ [],
          Next.goes_on e,
        )
    receive e (Input.invalid message) = (frame_invalid "invalid-frame" message ∷ [], Next.goes_on e)
    receive e Input.eof =
        let stopped = stop_all_jobs waits e.jobs in
        elim stopped.0 [
          | ok done ↦ ([], Next.ends (record e { jobs = stopped.1 }))
          | err cause ↦ ([], Next.goes_on (record e { jobs = stopped.1 }))
        ]
