-- ===== src/Server/Arms.antt =====
-- The arms of `execute` in crates/reference-core/src/server.rs that are more than one call.
use reference_library.Common.{
  ℕ, String, true, false, Option, none, some, List, [], ◌∷◌, str_eq, any, if◌then◌else◌, map, ◌==◌,
}
use reference_library.Errors.{session_closed, protocol_version_unsupported}
use reference_library.Fallible.{Result, ok, err, ◌>>◌}
use reference_library.Protocol.Limits.{protocol_version, max_page_size}
use reference_library.Protocol.States.{CancellationState}
use reference_library.Protocol.Results.{AssetDetail, CollectionSummary, Capabilities}
use reference_library.Protocol.Event.{Event, asset_updated, collections_changed}
use reference_library.Protocol.Frame.{CommandResult}
use reference_library.Server.Engine.{
  CommandEngine, JobControl, is_terminal, lookup, insert, remove, is_present,
}
use reference_library.Server.Jobs.{Waited, stop_jobs_for_session, stop_all_jobs}
use reference_library.Server.Api.{SessionApi}
use reference_library.Server.Call.{answered}

-- An answer with the engine behind it, or the end of the process.
pub data Outcome (A : Type 0) : Type 0 where
  returns : A → Outcome A
  exits : (code : ℕ) → Outcome A

-- What holds of every answer.
abbrev pub Afterwards : {A : Type 0} → (A → Type 0) → Outcome A → Type 0
Afterwards P (Outcome.returns a) = P a
Afterwards P (Outcome.exits code) = Unit

abbrev pub features : List String
features =
    "package-v1" ∷ "progressive-common-stills" ∷ "external-rename-reconciliation"
    ∷ "opaque-resources" ∷ "canonical-dump-v1" ∷ "canonical-proof-v1" ∷ []

-- `supported_versions.first().copied().unwrap_or_default()`
abbrev pub first_or_zero : List ℕ → ℕ
first_or_zero [] = 0
first_or_zero (n ∷ ns) = n

abbrev pub capabilities : Capabilities
capabilities = record {
  choose_root = true;
  reveal_location = true;
  opaque_asset_resources = true;
  source_mutation = false;
  detail =
      (record { name = "common-stills"; state = "required_parity"; reason = none })
      ∷ (record {
        name = "source-mutation";
        state = "intentionally_absent";
        reason = some "outside T02";
      })
      ∷ [];
}

abbrev pub asset_event : AssetDetail × ℕ → Event
asset_event made = asset_updated made.0.asset_id made.0.revision made.1

abbrev pub collection_event : CollectionSummary × ℕ → Event
collection_event made = collections_changed made.0.collection_id made.1

-- `job.cancelled.store(true, ..)` on the job of an id.
abbrev pub flag : String → String × JobControl → String × JobControl
flag job_id job = if str_eq job.0 job_id then (job.0, record job.1 { cancelled = true }) else job

module _ {Value Record : Type 0} where
  abbrev pub updated : AssetDetail × ℕ → CommandResult Value Record
  updated made = CommandResult.asset_updated made.0 made.1

  abbrev pub collected : CollectionSummary × ℕ → CommandResult Value Record
  collected made = CommandResult.collection_updated made.0 made.1

  unfoldable pub say_hello : List ℕ → (core_version : String) → Result (CommandResult Value Record)
  say_hello versions core_version =
      if any (λ n. n == protocol_version) versions
      then ok (
          CommandResult.hello (record {
            protocol_version = protocol_version;
            core_version = core_version;
            max_page_size = max_page_size;
            features = features;
          }))
      else err (protocol_version_unsupported (first_or_zero versions))

module _ {S : Type 0} where
  -- The arm of `CancelJob`, by the state that the session has of the job.
  unfoldable pub cancel_job :
      CommandEngine S
      → (session_id job_id : String) → Option String
      → CancellationState × CommandEngine S
  cancel_job e session_id job_id persisted =
      if elim persisted [ none ↦ false | some state ↦ is_terminal state ]
      then (CancellationState.already_terminal, e)
      else elim (lookup e.jobs job_id) [
        | some job ↦
            if str_eq job.session_id session_id
            then (
              CancellationState.cancellation_requested,
              record e { jobs = map (flag job_id) e.jobs },
            )
            else (CancellationState.unknown_job, e)
        | none ↦
            if is_present persisted
            then (CancellationState.already_terminal, e)
            else (CancellationState.unknown_job, e)
      ]

  -- `self.stop_jobs_for_session(id)?`
  abbrev pub stop_session :
      (String → Waited) → CommandEngine S → String → Result (Unit {0}) × CommandEngine S
  stop_session waits e session_id =
      let stopped = stop_jobs_for_session waits e.jobs session_id in
      (stopped.0, record e { jobs = stopped.1 })

module _ {S Value Record : Type 0} where
  abbrev pub cancelled_as :
      CommandEngine S
      → (session_id job_id : String) → Result (Option String)
      → Result (CommandResult Value Record) × CommandEngine S
  cancelled_as e session_id job_id (err cause) = (err cause, e)
  cancelled_as e session_id job_id (ok persisted) =
      let made = cancel_job e session_id job_id persisted in
      (ok (CommandResult.job_cancellation job_id made.0), made.1)

  -- The rest of `CloseLibrary`: a session is out of the table before it is closed.
  abbrev pub close_removed :
      SessionApi S Value Record
      → CommandEngine S
      → String
      → Option S
      → Result (CommandResult Value Record) × CommandEngine S
  close_removed api e session_id none = (err session_closed, e)
  close_removed api e session_id (some session) = (
    answered (λ done. CommandResult.library_closed session_id) (api.close session),
    record e { sessions = remove e.sessions session_id },
  )

  abbrev pub close_library :
      SessionApi S Value Record
      → String
      → Result (Unit {0}) × CommandEngine S
      → Result (CommandResult Value Record) × CommandEngine S
  close_library api session_id (err cause, e) = (err cause, e)
  close_library api session_id (ok done, e) =
      close_removed api e session_id (lookup e.sessions session_id)

  abbrev pub open_session :
      SessionApi S Value Record
      → CommandEngine S
      → Result S
      → Result (CommandResult Value Record) × CommandEngine S
  open_session api e (err cause) = (err cause, e)
  open_session api e (ok session) =
      let opened = api.opened session in
      (
        ok (CommandResult.session_opened opened),
        record e { sessions = insert e.sessions opened.session_id session },
      )

  abbrev pub close_all : SessionApi S Value Record → List (String × S) → Result (Unit {0})
  close_all api [] = ok tt
  close_all api ((session_id, session) ∷ sessions) = do api.close session; close_all api sessions

  -- The arm of `Shutdown`: the table of sessions is drained before the first of them is closed.
  unfoldable pub shut_down :
      SessionApi S Value Record
      → (String → Waited)
      → CommandEngine S
      → Result (CommandResult Value Record) × CommandEngine S
  shut_down api waits e =
      let stopped = stop_all_jobs waits e.jobs in
      elim stopped.0 [
        | err cause ↦ (err cause, record e { jobs = stopped.1 })
        | ok done ↦ (
          answered (λ closed. CommandResult.shutdown) (close_all api e.sessions),
          record e { jobs = stopped.1; sessions = [] },
        )
      ]
