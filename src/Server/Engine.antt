-- ===== src/Server/Engine.antt =====
-- `CommandEngine`: its tables, its queues, and the resource work that runs beside it. A queue is the
-- list of what has been sent and not received; the map of jobs is an association list. A session is a
-- parameter with the two operations that the engine calls; a plan and a moment's waiting are too.
pub mod Inflight
pub mod Sequence
use reference_library.Common.{
  ℕ, ◌+◌, ◌-◌, String, Bool, true, false, not, Option, none, some, List, [], ◌∷◌, ◌++◌, ◌&&◌, ◌||◌,
  str_eq, ltb, leb, if◌then◌else◌, keep_if, length,
}
use reference_library.Errors.{
  CoreError, session_closed, rendition_queue_full, rendition_cancelled, to_protocol_error,
}
use reference_library.Fallible.{Result, ok, err}
use reference_library.Protocol.Limits.{protocol_version}
use reference_library.Protocol.States.{ResourceProfile}
use reference_library.Protocol.Results.{ResourceDescriptor}
use reference_library.Protocol.Event.{Event, resource_authorization_started, job_updated}
use reference_library.Protocol.Frame.{ServerFrame, response, error, event, resource_authorized}

abbrev pub rendition_workers : ℕ
rendition_workers = 2

abbrev pub max_rendition_work : ℕ
max_rendition_work = 10

abbrev pub event_capacity : ℕ
event_capacity = 1024

pub data JobKind : Type 0 where
  scan resource : JobKind

pub record JobControl : Type 0 where
  pub session_id : String
  pub cancelled : Bool
  pub handle_finished : Option Bool
  pub completion : Option Bool
  pub kind : JobKind

abbrev pub is_scan : JobKind → Bool
is_scan JobKind.scan = true
is_scan JobKind.resource = false

pub record ResourceWork : Type 0 where
  pub request_id : String
  pub job_id : String
  pub session_id : String

pub record AsyncResponse : Type 0 where
  pub request_id : String
  pub job_id : String
  pub session_id : String
  pub result : Result ResourceDescriptor

-- `start_resource_authorization` and `fail_resource_job` of a session: the new session with the result.
pub record SessionCalls (S : Type 0) : Type 0 where
  pub start_resource : S → String → ResourceProfile → Result String × S
  pub fail_resource_job : S → String → CoreError → Result (Unit {0}) × S

pub record CommandEngine (S : Type 0) : Type 0 where
  pub sessions : List (String × S)
  pub jobs : List (String × JobControl)
  pub events : List Event
  pub event_sequence : ℕ
  pub resource_queue : List ResourceWork
  pub running : List ResourceWork
  pub responses : List AsyncResponse
  pub resource_inflight : ℕ

-- `HashMap::get`, `remove` and `insert`.
abbrev pub lookup {ℓ} : {A : Type ℓ} → List (String × A) → String → Option A
lookup [] k = none
lookup ((key, a) ∷ entries) k = if str_eq key k then some a else lookup entries k

abbrev pub remove {ℓ} : {A : Type ℓ} → List (String × A) → String → List (String × A)
remove entries k = keep_if (λ entry. not (str_eq entry.0 k)) entries

abbrev pub insert {ℓ} : {A : Type ℓ} → List (String × A) → String → A → List (String × A)
insert entries k a = (k, a) ∷ remove entries k

abbrev pub answer :
    {Value Record : Type 0} → String → Result ResourceDescriptor → ServerFrame Value Record
answer request_id (ok descriptor) =
    response protocol_version request_id (resource_authorized descriptor)
answer request_id (err cause) = error protocol_version request_id (to_protocol_error cause)

abbrev pub is_present {ℓ} : {A : Type ℓ} → Option A → Bool
is_present none = false
is_present (some a) = true

abbrev pub is_terminal : String → Bool
is_terminal state = str_eq state "completed" || str_eq state "failed" || str_eq state "cancelled"

abbrev pub scans : Option JobControl → Bool
scans none = false
scans (some job) = is_scan job.kind

-- The control of a scan goes with the event of its end.
abbrev pub released : List (String × JobControl) → Event → List (String × JobControl)
released jobs (job_updated job_id state) =
    if is_terminal state && scans (lookup jobs job_id) then remove jobs job_id else jobs
released jobs other = jobs

module _ {S : Type 0} where
  -- `CommandEngine::new`, once its workers wait.
  unfoldable pub new_engine : CommandEngine S
  new_engine = record {
    sessions = [];
    jobs = [];
    events = [];
    event_sequence = 0;
    resource_queue = [];
    running = [];
    responses = [];
    resource_inflight = 0;
  }

  module _ (calls : SessionCalls S) where
    -- `self.session(..)?.fail_resource_job(..)?; return Err(error)`
    unfoldable pub refuse_job :
        CommandEngine S
        → (session_id : String) → S
        → (job_id : String) → Result (Unit {0}) × CommandEngine S
    refuse_job e session_id session job_id =
        let failed = calls.fail_resource_job session job_id rendition_queue_full in
        let kept = record e { sessions = insert e.sessions session_id failed.1 } in
        elim failed.0 [ ok done ↦ (err rendition_queue_full, kept) | err cause ↦ (err cause, kept) ]

    -- The rest of `start_resource_authorization`, once the session has a job for it.
    unfoldable pub launch_job :
        CommandEngine S
        → (request_id session_id asset_id : String) → ResourceProfile
        → S
        → (job_id : String) → Result (Unit {0}) × CommandEngine S
    unfolding refuse_job
    launch_job e request_id session_id asset_id profile session job_id =
        let opened = record e { sessions = insert e.sessions session_id session } in
        let announced = record opened {
          events =
              e.events ++ (resource_authorization_started request_id job_id asset_id profile ∷ []);
        } in
        if leb event_capacity (length e.events)
        then refuse_job opened session_id session job_id
        else if leb (max_rendition_work - rendition_workers) (length e.resource_queue)
        then refuse_job announced session_id session job_id
        else (
          ok tt,
          record announced {
            resource_queue =
                e.resource_queue
                ++ (record { request_id = request_id; job_id = job_id; session_id = session_id }
                    ∷ []);
            jobs = insert e.jobs job_id (record {
              session_id = session_id;
              cancelled = false;
              handle_finished = none;
              completion = some false;
              kind = JobKind.resource;
            });
            resource_inflight = e.resource_inflight + 1;
          },
        )

    unfoldable pub start_resource_authorization :
        CommandEngine S
        → (request_id session_id asset_id : String) → ResourceProfile
        → Result (Unit {0}) × CommandEngine S
    unfolding launch_job
    start_resource_authorization e request_id session_id asset_id profile =
        if leb max_rendition_work e.resource_inflight
        then (err rendition_queue_full, e)
        else elim (lookup e.sessions session_id) [
          | none ↦ (err session_closed, e)
          | some session ↦
              let started = calls.start_resource session asset_id profile in
              elim started.0 [
                | ok job_id ↦ launch_job e request_id session_id asset_id profile started.1 job_id
                | err cause ↦
                    (err cause, record e { sessions = insert e.sessions session_id started.1 })
              ]
        ]

  module _ {Value Record : Type 0} where
    -- One response is taken; a session closed meanwhile turns it into a cancellation.
    unfoldable pub take_async_response :
        CommandEngine S → Option (ServerFrame Value Record × CommandEngine S)
    take_async_response e = elim e.responses [
      | [] ↦ none
      | r ∷ later ↦ some (
        answer r.request_id (
            if is_present (lookup e.sessions r.session_id)
            then r.result
            else err rendition_cancelled),
        record e {
          responses = later;
          resource_inflight = e.resource_inflight - 1;
          jobs = remove e.jobs r.job_id;
        },
      )
    ]

    unfoldable pub next_event_frame :
        CommandEngine S → Event → ServerFrame Value Record × CommandEngine S
    next_event_frame e sent = (
      event protocol_version (e.event_sequence + 1) sent,
      record e { event_sequence = e.event_sequence + 1; jobs = released e.jobs sent },
    )

    -- `while let Some(event) = engine.take_event() { write(next_event_frame(event)) }`
    unfoldable pub drain_events :
        List Event → CommandEngine S → List (ServerFrame Value Record) × CommandEngine S
    unfolding next_event_frame
    drain_events [] e = ([], e)
    drain_events (sent ∷ events) e =
        let taken = next_event_frame (record e { events = events }) sent in
        let rest = drain_events events taken.1 in (taken.0 ∷ rest.0, rest.1)
