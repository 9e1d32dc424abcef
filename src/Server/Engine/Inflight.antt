-- ===== src/Server/Engine/Inflight.antt =====
-- On resource_inflight of CommandEngine, crates/reference-core/src/server.rs: the steps of the
-- engine and its workers.
use reference_library.Common.{
  suc, ◌+◌, ◌-◌, ◌≤◌, ◌<◌, ◌≡◌, refl, sym, String, some, List, [], ◌∷◌, ◌++◌, leb, length,
  length-append, arith, Option-cases, Bool-cases, inl, inr,
}
use reference_library.Errors.{rendition_queue_full}
use reference_library.Fallible.{Result, Result-cases}
use reference_library.Protocol.States.{ResourceProfile}
use reference_library.Protocol.Results.{ResourceDescriptor}
use reference_library.Protocol.Event.{Event, resource_authorization_started}
use reference_library.Protocol.Frame.{ServerFrame}
use reference_library.Server.Engine.{
  rendition_workers, max_rendition_work, event_capacity, JobControl, ResourceWork, AsyncResponse,
  SessionCalls, CommandEngine, lookup, insert, remove, new_engine, refuse_job, launch_job,
  start_resource_authorization, take_async_response, next_event_frame,
}

queue_length :
    {queue later : List ResourceWork} {w : ResourceWork}
    → queue ≡ w ∷ later
    → length queue ≡ suc (length later)
queue_length q = λ i. length (q i)

module _ {S : Type 0} where
  pub record IsAccounted (e : CommandEngine S) : Type 0 where
    pub exact :
        e.resource_inflight ≡ length e.resource_queue + length e.running + length e.responses
    pub bounded : e.resource_inflight ≤ max_rendition_work
    pub workers : length e.running ≤ rendition_workers

  -- What can happen: resource work is started, another command opens or closes sessions, starts or stops
  -- jobs and sends events, a worker takes work and ends it, the server writes an answer or an event.
  pub data Step (calls : SessionCalls S) (Value Record : Type 0)
      : CommandEngine S → CommandEngine S → Type 0 where
    authorizes :
        (e : CommandEngine S) (request_id session_id asset_id : String) (profile : ResourceProfile)
        → Step calls Value Record e
            (start_resource_authorization calls e request_id session_id asset_id profile).1
    executes :
        (e : CommandEngine S) (sessions : List (String × S)) (jobs : List (String × JobControl))
        (events : List Event)
        → Step calls Value Record e (record e { sessions = sessions; jobs = jobs; events = events })
    works :
        (e : CommandEngine S) (w : ResourceWork) (later : List ResourceWork)
        → e.resource_queue ≡ w ∷ later
        → length e.running < rendition_workers
        → Step calls Value Record e
            (record e { resource_queue = later; running = e.running ++ (w ∷ []) })
    finishes :
        (e : CommandEngine S) (before after : List ResourceWork) (w : ResourceWork)
        (result : Result ResourceDescriptor)
        → e.running ≡ before ++ (w ∷ after)
        → Step calls Value Record e (record e {
          running = before ++ after;
          responses =
              e.responses
              ++ (record {
                request_id = w.request_id;
                job_id = w.job_id;
                session_id = w.session_id;
                result = result;
              }
                  ∷ []);
        })
    answers :
        (e later : CommandEngine S) (frame : ServerFrame Value Record)
        → take_async_response e ≡ some (frame, later)
        → Step calls Value Record e later
    emits :
        (e : CommandEngine S) (sent : Event)
        → Step calls Value Record e (next_event_frame {Value = Value} {Record = Record} e sent).1

  pub data Reachable (calls : SessionCalls S) (Value Record : Type 0)
      : CommandEngine S → Type 0 where
    starts : Reachable calls Value Record new_engine
    goes_on :
        {e later : CommandEngine S}
        → Reachable calls Value Record e
        → Step calls Value Record e later
        → Reachable calls Value Record later

  module _ (calls : SessionCalls S) where
    refuse_job-IsAccounted :
        (e : CommandEngine S) (session_id : String) (session : S) (job_id : String)
        → IsAccounted e
        → IsAccounted (refuse_job calls e session_id session job_id).1
    unfolding refuse_job
    refuse_job-IsAccounted e session_id session job_id v =
        elim (Result-cases (calls.fail_resource_job session job_id rendition_queue_full).0) [
          | inl (a, k) ↦
              rw (refuse_job, k)
                (record { exact = v.exact; bounded = v.bounded; workers = v.workers })
          | inr (c, k) ↦
              rw (refuse_job, k)
                (record { exact = v.exact; bounded = v.bounded; workers = v.workers })
        ]

    launch_job-IsAccounted :
        (e : CommandEngine S) (request_id session_id asset_id : String) (profile : ResourceProfile)
        (session : S) (job_id : String)
        → e.resource_inflight < max_rendition_work
        → IsAccounted e
        → IsAccounted (launch_job calls e request_id session_id asset_id profile session job_id).1
    unfolding launch_job
    launch_job-IsAccounted e request_id session_id asset_id profile session job_id room v =
        elim (Bool-cases (leb event_capacity (length e.events))) [
          | inl full ↦
              rw (launch_job, full)
                (refuse_job-IsAccounted
                  (record e { sessions = insert e.sessions session_id session }) session_id session
                  job_id (record { exact = v.exact; bounded = v.bounded; workers = v.workers }))
          | inr free ↦
              rw (launch_job, free)
                (elim (Bool-cases
                  (leb (max_rendition_work - rendition_workers) (length e.resource_queue))) [
                    | inl busy ↦ rw busy (
                        refuse_job-IsAccounted
                          (record e {
                            sessions = insert e.sessions session_id session;
                            events =
                                e.events
                                ++ (resource_authorization_started request_id job_id asset_id
                                      profile
                                    ∷ []);
                          })
                          session_id session job_id
                          (record { exact = v.exact; bounded = v.bounded; workers = v.workers }))
                    | inr idle ↦ rw idle (record {
                      exact = omega (
                        arith,
                        v.exact,
                        length-append e.resource_queue (
                            record {
                              request_id = request_id;
                              job_id = job_id;
                              session_id = session_id;
                            }
                            ∷ []),
                      );
                      bounded = omega (arith, room);
                      workers = v.workers;
                    })
                  ])
        ]

    start_resource_authorization-IsAccounted :
        (e : CommandEngine S) (request_id session_id asset_id : String) (profile : ResourceProfile)
        → IsAccounted e
        → IsAccounted
            (start_resource_authorization calls e request_id session_id asset_id profile).1
    unfolding start_resource_authorization
    start_resource_authorization-IsAccounted e request_id session_id asset_id profile v =
        elim (Bool-cases (leb max_rendition_work e.resource_inflight)) [
          | inl full ↦ rw (start_resource_authorization, full) v
          | inr room ↦
              rw (start_resource_authorization, room)
                (elim (Option-cases (lookup e.sessions session_id)) [
                  | inl absent ↦ rw absent v
                  | inr (session, k) ↦
                      rw k (elim (Result-cases (calls.start_resource session asset_id profile).0) [
                        | inl (job_id, started) ↦ rw started (
                            launch_job-IsAccounted e request_id session_id asset_id profile
                              (calls.start_resource session asset_id profile).1 job_id
                              (ground (arith, room)) v)
                        | inr (cause, failed) ↦
                            rw failed
                              (record { exact = v.exact; bounded = v.bounded; workers = v.workers })
                      ])
                ])
        ]

    module _ (Value Record : Type 0) where
      answered :
          (e later : CommandEngine S) (frame : ServerFrame Value Record)
          (responses : List AsyncResponse)
          → e.responses ≡ responses
          → take_async_response e ≡ some (frame, later)
          → IsAccounted e
          → IsAccounted later
      unfolding take_async_response
      answered e later frame [] same taken v = cc (rw (take_async_response, same) at taken)
      answered e later frame (r ∷ rest) same taken v =
          let left : length e.responses ≡ suc (length rest) = λ i. length (same i) in
          let next = record e {
            responses = rest;
            resource_inflight = e.resource_inflight - 1;
            jobs = remove e.jobs r.job_id;
          } in
          let made : next ≡ later = ground (arith, same, taken) in
          rw (sym made) (record {
            exact = omega (arith, v.exact, left);
            bounded = omega (arith, v.bounded);
            workers = v.workers;
          })

      Step-IsAccounted :
          (e later : CommandEngine S)
          → Step calls Value Record e later
          → IsAccounted e
          → IsAccounted later
      unfolding take_async_response next_event_frame
      Step-IsAccounted e later (Step.authorizes _ request_id session_id asset_id profile) v =
          start_resource_authorization-IsAccounted e request_id session_id asset_id profile v
      Step-IsAccounted e later (Step.executes _ sessions jobs events) v = record {
        exact = v.exact;
        bounded = v.bounded;
        workers = v.workers;
      }
      Step-IsAccounted e later (Step.works _ w queued q free) v = record {
        exact = omega (arith, v.exact, queue_length q, length-append e.running (w ∷ []));
        bounded = v.bounded;
        workers = omega (arith, free, length-append e.running (w ∷ []));
      }
      Step-IsAccounted e later (Step.finishes _ before after w result r) v =
          let all : length e.running ≡ length (before ++ (w ∷ after)) = λ i. length (r i) in
          let split = length-append before (w ∷ after) in
          let left = length-append before after in
          record {
            exact = omega (arith, v.exact, all, split, left, length-append e.responses (_ ∷ []));
            bounded = v.bounded;
            workers = omega (arith, v.workers, all, split, left);
          }
      Step-IsAccounted e later (Step.answers _ _ frame taken) v =
          answered e later frame e.responses refl taken v
      Step-IsAccounted e later (Step.emits _ sent) v = record {
        exact = v.exact;
        bounded = v.bounded;
        workers = v.workers;
      }

      -- In every reachable state of the engine and its workers, the count of resource work is
      -- the number of queued, running and finished but unanswered pieces, at most 10, with at
      -- most 2 running.
      pub Reachable-IsAccounted :
          (e : CommandEngine S) → Reachable calls Value Record e → IsAccounted e
      unfolding new_engine
      Reachable-IsAccounted e Reachable.starts = record {
        exact = refl;
        bounded = omega arith;
        workers = omega arith;
      }
      Reachable-IsAccounted e (Reachable.goes_on {e = before} reached step) =
          Step-IsAccounted before e step (Reachable-IsAccounted before reached)
