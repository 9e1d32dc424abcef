-- ===== src/Server/Call.antt =====
-- How `execute` of crates/reference-core/src/server.rs reaches a session, answers, and sends events.
use reference_library.Common.{
  ℕ, String, Bool, false, Option, none, some, List, [], ◌∷◌, ◌++◌, leb, if◌then◌else◌, keep_if,
  length,
}
use reference_library.Errors.{session_closed, root_scan_capacity_reached}
use reference_library.Fallible.{Result, ok, err}
use reference_library.Protocol.Event.{Event, root_state_changed}
use reference_library.Server.Engine.{
  CommandEngine, JobControl, JobKind, is_scan, lookup, insert, event_capacity,
}

module _ {S A : Type 0} where
  -- `self.session(id)?.method(..)?` for a method that reads.
  abbrev pub asked : Option S → (S → Result A) → Result A
  asked none method = err session_closed
  asked (some session) method = method session

  abbrev pub ask : CommandEngine S → String → (S → Result A) → Result A
  ask e session_id method = asked (lookup e.sessions session_id) method

  -- The same for a method that may write.
  abbrev pub told :
      CommandEngine S → String → Option S → (S → Result A × S) → Result A × CommandEngine S
  told e session_id none method = (err session_closed, e)
  told e session_id (some session) method =
      let made = method session in
      (made.0, record e { sessions = insert e.sessions session_id made.1 })

  abbrev pub tell : CommandEngine S → String → (S → Result A × S) → Result A × CommandEngine S
  tell e session_id method = told e session_id (lookup e.sessions session_id) method

module _ {S : Type 0} where
  -- `queue_local_event`: a full queue drops the event.
  unfoldable pub queue_local_event : CommandEngine S → Event → CommandEngine S
  queue_local_event e sent =
      if leb event_capacity (length e.events)
      then e
      else record e { events = e.events ++ (sent ∷ []) }

abbrev pub answered : {A B : Type 0} → (A → B) → Result A → Result B
answered f (ok value) = ok (f value)
answered f (err cause) = err cause

module _ {S A B : Type 0} where
  -- `Ok(f(value?))`
  abbrev pub reply : (A → B) → Result A × CommandEngine S → Result B × CommandEngine S
  reply f (ok value, e) = (ok (f value), e)
  reply f (err cause, e) = (err cause, e)

  -- The same with the event that goes before the answer.
  abbrev pub announce :
      (A → Event) → (A → B) → Result A × CommandEngine S → Result B × CommandEngine S
  announce note f (ok value, e) = (ok (f value), queue_local_event e (note value))
  announce note f (err cause, e) = (err cause, e)

abbrev pub is_scan_job : String × JobControl → Bool
is_scan_job job = is_scan job.1.kind

-- The control of a scan that has just started.
abbrev pub scan_job : (session_id : String) → JobControl
scan_job session_id = record {
  session_id = session_id;
  cancelled = false;
  handle_finished = some false;
  completion = some false;
  kind = JobKind.scan;
}

-- `self.jobs.values().filter(|job| job.kind == JobKind::Scan).count()`
abbrev pub scan_count : List (String × JobControl) → ℕ
scan_count jobs = length (keep_if is_scan_job jobs)

module _ {S B : Type 0} where
  -- The scan that a plan starts: its control, and the event of its root.
  abbrev pub launched :
      (session_id : String)
      → (String × String → B)
      → Result (String × String) × CommandEngine S
      → Result B × CommandEngine S
  launched session_id f (ok plan, e) = (
    ok (f plan),
    queue_local_event (record e { jobs = insert e.jobs plan.1 (scan_job session_id) })
        (root_state_changed plan.0 "scanning"),
  )
  launched session_id f (err cause, e) = (err cause, e)

  -- The arms of `AddRoot` and `ScanRoot`, which differ in the plan and in the answer.
  unfoldable pub start_scan :
      CommandEngine S
      → (session_id : String) → (S → Result (String × String) × S)
      → (String × String → B)
      → Result B × CommandEngine S
  unfolding queue_local_event
  start_scan e session_id plan f =
      if leb 2 (scan_count e.jobs)
      then (err root_scan_capacity_reached, e)
      else launched session_id f (tell e session_id plan)
