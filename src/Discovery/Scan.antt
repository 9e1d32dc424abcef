-- ===== src/Discovery/Scan.antt =====
-- A scan from its start to its end: `scan_root`, `run_scan` and `finish_cancelled` of
-- crates/reference-core/src/discovery.rs. Whether the package's manifest and tables can be opened, at
-- the start and for a failure, is an argument.
pub mod Preserved
pub mod JobEnded
use reference_library.Common.{ℕ, ◌+◌, String, Bool, true, false, List, [], ◌∷◌, ◌++◌}
use reference_library.Errors.{CoreError, to_protocol_error}
use reference_library.Fallible.{Result, ok, err}
use reference_library.Database.{Db}
use reference_library.Protocol.Event.{Event}
use reference_library.Discovery.Marks.{ScanPlan, mark_completed, mark_cancelled, mark_failed}
use reference_library.Discovery.Store.{NewIds}
use reference_library.Discovery.Unseen.{mark_unseen}
use reference_library.Discovery.Walk.{
  Disk, Walk, Ran, going, cancelled, broken, then_go, flush, walk_stack, max_scan_entries,
}

-- The variables before the loop.
abbrev pub first_walk : Db → Walk
first_walk db = record {
  scanned = record { db = db; scan_seen = []; observed_count = 0; unsupported_count = 0 };
  batch = [];
  per_entry_states = [];
  unreadable_directories = [];
  traversed_entries = 0;
  stack = [] ∷ [];
  looks = 0;
  files = 0;
  events = [];
}

-- The events of an end that is stored.
abbrev pub end_events : ScanPlan → (root_state job_state : String) → Walk → List Event
end_events plan root_state job_state w =
    Event.scan_progress_changed plan.root_id plan.job_id w.scanned.observed_count
      w.scanned.unsupported_count true
    ∷ (Event.root_state_changed plan.root_id root_state
        ∷ (Event.job_updated plan.job_id job_state ∷ []))

-- What a scan leaves: the tables, the events, and `ScanOutcome.terminal_persisted`.
pub record Ended : Type 0 where
  pub db : Db
  pub events : List Event
  pub terminal_persisted : Bool

module _ (disk : Disk) (plan : ScanPlan) (is_cancelled : ℕ → Bool) (new_ids : ℕ → NewIds)
    (now : ℕ → ℕ) where
  abbrev pub stored_end : (root_state job_state : String) → (db : Db) → Walk → Ran
  stored_end root_state job_state db w = going (record w {
    scanned = record w.scanned { db = db };
    events = w.events ++ end_events plan root_state job_state w;
  })

  -- `finish_cancelled` behind its flush.
  abbrev pub cancelled_end : Walk → Ran
  cancelled_end w =
      stored_end "connected" "cancelled"
        (mark_cancelled plan w.scanned.observed_count w.scanned.unsupported_count (now w.looks)
          w.scanned.db)
        w

  unfoldable pub finish_cancelled : Walk → Ran
  unfolding flush mark_cancelled
  finish_cancelled w = then_go (flush disk plan is_cancelled new_ids now w) cancelled_end

  -- What follows the last flush.
  abbrev pub completed_end : Walk → Ran
  completed_end w =
      let marked =
        mark_unseen plan w.per_entry_states w.unreadable_directories w.scanned.scan_seen
          (now w.looks) w.scanned.db in
      stored_end "ready" "completed"
        (mark_completed plan w.scanned.observed_count w.scanned.unsupported_count (now w.looks)
          marked)
        w

  abbrev pub finish_completed : Walk → Ran
  finish_completed w = then_go (flush disk plan is_cancelled new_ids now w) completed_end

  abbrev pub finish : Ran → Ran
  finish (going w) = finish_completed w
  finish (cancelled w) = finish_cancelled w
  finish (broken cause w) = broken cause w

  unfoldable pub run_scan : Result (Unit {0}) → Db → Ran
  unfolding walk_stack finish_cancelled mark_unseen mark_completed
  run_scan (err cause) db = broken cause (first_walk db)
  run_scan (ok opened) db =
      finish (walk_stack disk plan is_cancelled new_ids now (max_scan_entries + 2) (first_walk db))

  -- The arms of `mark_failed`, which opens the package again.
  abbrev pub failed_end : CoreError → Walk → Result (Unit {0}) → Ended
  failed_end cause w (err persistence_error) = record {
    db = w.scanned.db;
    events = w.events ++ (Event.core_needs_restart (to_protocol_error persistence_error).code ∷ []);
    terminal_persisted = false;
  }
  failed_end cause w (ok reopened) =
      let failed = mark_failed plan cause (now w.looks) w.scanned.db in
      record {
        db = failed.1;
        events =
            w.events
            ++ (Event.root_state_changed plan.root_id failed.0
                ∷ (Event.job_updated plan.job_id "failed" ∷ []));
        terminal_persisted = true;
      }

  -- A cancelled scan has been finished: `run_scan` returns `Ok(())`.
  abbrev pub scan_ended : Result (Unit {0}) → Ran → Ended
  scan_ended reopened (going w) = record {
    db = w.scanned.db;
    events = w.events;
    terminal_persisted = true;
  }
  scan_ended reopened (cancelled w) = record {
    db = w.scanned.db;
    events = w.events;
    terminal_persisted = true;
  }
  scan_ended reopened (broken cause w) = failed_end cause w reopened

  unfoldable pub scan_root : (opened reopened : Result (Unit {0})) → Db → Ended
  unfolding run_scan mark_failed
  scan_root opened reopened db = scan_ended reopened (run_scan opened db)
