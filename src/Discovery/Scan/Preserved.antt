-- ===== src/Discovery/Scan/Preserved.antt =====
-- What a whole scan leaves as it was, crates/reference-core/src/discovery.rs.
use reference_library.Common.{
  ℕ, zero, suc, ◌+◌, inl, inr, Bool, true, false, Option, none, some, List, [], ◌∷◌, length, ltb,
  leb, if◌then◌else◌, List-cases,
}
use reference_library.Errors.{CoreError}
use reference_library.Fallible.{Result, ok, err, Result-cases}
use reference_library.Database.{Db}
use reference_library.Discovery.Marks.{ScanPlan, mark_completed, mark_cancelled, mark_failed}
use reference_library.Discovery.Match.{FileCandidate}
use reference_library.Discovery.Store.{NewIds}
use reference_library.Discovery.Flush.{flush_batch}
use reference_library.Discovery.Inspect.{inspect_file}
use reference_library.Discovery.Kept.Batch.{flush_batch-Keeps}
use reference_library.Discovery.Unseen.{mark_unseen}
use reference_library.Discovery.Walk.{
  Disk, OpenAt, Walk, Ran, going, cancelled, broken, Arm, handled, file_arm, names_arm, open_arm,
  join, then_go, flush, add_candidate, inspected, regular, file_opened, directory_opened,
  visit_entry, visit_entries, names_read, directory_read, visit_directory, walk_stack,
  max_queued_directories, max_scan_entries, insert_batch, looked, pushed,
}
use reference_library.Discovery.Scan.{
  first_walk, scan_ended, completed_end, cancelled_end, finish_cancelled, scan_root, run_scan,
  finish,
}
use reference_library.Discovery.Kept.Marked.{
  IsKept, IsKept-refl, IsKept-trans, mark_unseen-IsKept, mark_cancelled-IsKept,
  mark_completed-IsKept, mark_failed-IsKept,
}

abbrev tables_of : Ran → Db
tables_of (going w) = w.scanned.db
tables_of (cancelled w) = w.scanned.db
tables_of (broken cause w) = w.scanned.db

abbrev RanKept : Db → Ran → Type 0
RanKept db r = IsKept db (tables_of r)

module _ (db : Db) where
  abbrev WalkKept : Walk → Type 0
  WalkKept w = IsKept db w.scanned.db

  then_go-kept :
      (r : Ran) (next : Walk → Ran)
      → RanKept db r
      → ((w : Walk) → WalkKept w → RanKept db (next w))
      → RanKept db (then_go r next)
  then_go-kept (going w) next h f = f w h
  then_go-kept (cancelled w) next h f = h
  then_go-kept (broken cause w) next h f = h

  either-kept :
      (b : Bool) (x y : Ran) → RanKept db x → RanKept db y → RanKept db (if b then x else y)
  either-kept true x y h k = h
  either-kept false x y h k = k

  handled-kept :
      (arm : Arm) (cause : CoreError) (w noted : Walk)
      → WalkKept w
      → WalkKept noted
      → RanKept db (handled arm cause w noted)
  handled-kept Arm.cancels cause w noted h k = h
  handled-kept Arm.skips cause w noted h k = h
  handled-kept Arm.notes cause w noted h k = k
  handled-kept Arm.fails cause w noted h k = h

  module _ (disk : Disk) (plan : ScanPlan) (is_cancelled : ℕ → Bool) (new_ids : ℕ → NewIds)
      (now : ℕ → ℕ) where
    flush-kept : (w : Walk) → WalkKept w → RanKept db (flush disk plan is_cancelled new_ids now w)
    unfolding flush
    flush-kept w h =
        elim (Result-cases (flush_batch disk.is_absent plan (now w.looks) w.batch w.scanned)) [
          | inr (cause, e) ↦ rw e h
          | inl ((events, new), e) ↦
              let (inserted, (kept, counts)) =
                flush_batch-Keeps disk.is_absent plan (now w.looks) w.batch w.scanned new events
                  e in
              rw e (IsKept-trans db w.scanned.db new.db h (inserted, kept))
        ]

    add_candidate-kept :
        (w : Walk) (candidate : FileCandidate)
        → WalkKept w
        → RanKept db (add_candidate disk plan is_cancelled new_ids now w candidate)
    unfolding add_candidate
    add_candidate-kept w candidate h =
        let next = pushed disk plan is_cancelled new_ids now w candidate in
        either-kept (leb insert_batch (length next.batch)) _ _ (flush-kept next h) h

    inspected-kept :
        (w : Walk) (relative : List ℕ) (found : Result (Option FileCandidate))
        → WalkKept w
        → RanKept db (inspected disk plan is_cancelled new_ids now w relative found)
    inspected-kept w relative (ok (some candidate)) h = add_candidate-kept w candidate h
    inspected-kept w relative (ok none) h = h
    inspected-kept w relative (err cause) h = handled-kept (file_arm cause).0 cause w _ h h

    regular-kept :
        (w : Walk) (relative : List ℕ) (found : Result Bool)
        → WalkKept w
        → RanKept db (regular disk plan is_cancelled new_ids now w relative found)
    unfolding inspect_file
    regular-kept w relative (err cause) h = h
    regular-kept w relative (ok false) h = h
    regular-kept w relative (ok true) h =
        inspected-kept w relative (inspect_file (disk.read_file relative)) h

    file_opened-kept :
        (w : Walk) (relative : List ℕ) (found : OpenAt)
        → WalkKept w
        → RanKept db (file_opened disk plan is_cancelled new_ids now w relative found)
    file_opened-kept w relative OpenAt.opened h = regular-kept w relative (disk.is_file relative) h
    file_opened-kept w relative OpenAt.missing h = h
    file_opened-kept w relative OpenAt.symbolic_link h = h
    file_opened-kept w relative OpenAt.denied h = h
    file_opened-kept w relative OpenAt.not_directory h = h
    file_opened-kept w relative (OpenAt.failed cause) h = h

    directory_opened-kept :
        (w : Walk) (relative : List ℕ) (found : OpenAt)
        → WalkKept w
        → RanKept db (directory_opened disk plan is_cancelled new_ids now w relative found)
    directory_opened-kept w relative OpenAt.opened h =
        either-kept (leb max_queued_directories (length w.stack)) _ _ h h
    directory_opened-kept w relative OpenAt.missing h = h
    directory_opened-kept w relative OpenAt.symbolic_link h = h
    directory_opened-kept w relative OpenAt.not_directory h =
        file_opened-kept w relative (disk.open_file relative) h
    directory_opened-kept w relative OpenAt.denied h = h
    directory_opened-kept w relative (OpenAt.failed cause) h = h

    visit_entry-kept :
        (directory name : List ℕ) (w : Walk)
        → WalkKept w
        → RanKept db (visit_entry disk plan is_cancelled new_ids now directory name w)
    unfolding visit_entry
    visit_entry-kept directory name w h = either-kept (is_cancelled w.looks) _ _ h (
        directory_opened-kept (looked disk plan is_cancelled new_ids now w) (join directory name)
          (disk.open_directory (join directory name)) h)

    visit_entries-kept :
        (directory : List ℕ) (entries : List (List ℕ)) (w : Walk)
        → WalkKept w
        → RanKept db (visit_entries disk plan is_cancelled new_ids now directory entries w)
    unfolding visit_entries
    visit_entries-kept directory [] w h = h
    visit_entries-kept directory (name ∷ entries) w h =
        then_go-kept (visit_entry disk plan is_cancelled new_ids now directory name w)
          (visit_entries disk plan is_cancelled new_ids now directory entries)
          (visit_entry-kept directory name w h) (visit_entries-kept directory entries)

    names_read-kept :
        (directory : List ℕ) (w : Walk) (found : Result (List (List ℕ)))
        → WalkKept w
        → RanKept db (names_read disk plan is_cancelled new_ids now directory w found)
    unfolding names_read
    names_read-kept directory w (ok entries) h =
        either-kept (ltb max_scan_entries (w.traversed_entries + length entries)) _ _ h
          (visit_entries-kept directory _ _ h)
    names_read-kept directory w (err cause) h = handled-kept (names_arm cause) cause w _ h h

    directory_read-kept :
        (directory : List ℕ) (w : Walk) (found : Result (Unit {0}))
        → WalkKept w
        → RanKept db (directory_read disk plan is_cancelled new_ids now directory w found)
    directory_read-kept directory w (ok handle) h =
        names_read-kept directory w (disk.read_directory_names directory) h
    directory_read-kept directory w (err cause) h = handled-kept (open_arm cause) cause w _ h h

    visit_directory-kept :
        (directory : List ℕ) (w : Walk)
        → WalkKept w
        → RanKept db (visit_directory disk plan is_cancelled new_ids now directory w)
    unfolding visit_directory
    visit_directory-kept directory w h = either-kept (is_cancelled w.looks) _ _ h (
        directory_read-kept directory (looked disk plan is_cancelled new_ids now w)
          (disk.open_relative_directory directory) h)

    walk_stack-kept :
        (fuel : ℕ) (w : Walk)
        → WalkKept w
        → RanKept db (walk_stack disk plan is_cancelled new_ids now fuel w)
    unfolding walk_stack
    walk_stack-kept zero w h = h
    walk_stack-kept (suc fuel) w h = elim (List-cases w.stack) [
      | inl e ↦ rw e h
      | inr (directory, stack, e) ↦
          let popped : Walk = record w { stack = stack } in
          rw e (
            then_go-kept (visit_directory disk plan is_cancelled new_ids now directory popped)
              (walk_stack disk plan is_cancelled new_ids now fuel)
              (visit_directory-kept directory popped h) (walk_stack-kept fuel))
    ]

    stored_finish-kept :
        (r : Ran) → RanKept db r → RanKept db (finish disk plan is_cancelled new_ids now r)
    unfolding finish_cancelled
    stored_finish-kept (going w) h =
        then_go-kept (flush disk plan is_cancelled new_ids now w)
          (completed_end disk plan is_cancelled new_ids now) (flush-kept w h)
          (λ v k.
            let marked =
              mark_unseen plan v.per_entry_states v.unreadable_directories v.scanned.scan_seen
                (now v.looks) v.scanned.db in
            IsKept-trans db marked
              (mark_completed plan v.scanned.observed_count v.scanned.unsupported_count
                (now v.looks) marked)
              (IsKept-trans db v.scanned.db marked k (
                mark_unseen-IsKept plan v.per_entry_states v.unreadable_directories
                  v.scanned.scan_seen (now v.looks) v.scanned.db))
              (mark_completed-IsKept plan v.scanned.observed_count v.scanned.unsupported_count
                (now v.looks) marked))
    stored_finish-kept (cancelled w) h =
        then_go-kept (flush disk plan is_cancelled new_ids now w)
          (cancelled_end disk plan is_cancelled new_ids now) (flush-kept w h)
          (λ v k.
            IsKept-trans db v.scanned.db
              (mark_cancelled plan v.scanned.observed_count v.scanned.unsupported_count
                (now v.looks) v.scanned.db)
              k
              (mark_cancelled-IsKept plan v.scanned.observed_count v.scanned.unsupported_count
                (now v.looks) v.scanned.db))
    stored_finish-kept (broken cause w) h = h

    scan_ended-IsKept :
        (reopened : Result (Unit {0})) (r : Ran)
        → RanKept db r
        → IsKept db (scan_ended disk plan is_cancelled new_ids now reopened r).db
    scan_ended-IsKept reopened (going w) h = h
    scan_ended-IsKept reopened (cancelled w) h = h
    scan_ended-IsKept (err persistence) (broken cause w) h = h
    scan_ended-IsKept (ok again) (broken cause w) h =
        IsKept-trans db w.scanned.db (mark_failed plan cause (now w.looks) w.scanned.db).1 h
          (mark_failed-IsKept plan cause (now w.looks) w.scanned.db)

    run_scan-kept :
        (opened : Result (Unit {0}))
        → RanKept db (run_scan disk plan is_cancelled new_ids now opened db)
    unfolding run_scan
    run_scan-kept (err cause) = IsKept-refl db
    run_scan-kept (ok opened) =
        stored_finish-kept
          (walk_stack disk plan is_cancelled new_ids now (max_scan_entries + 2) (first_walk db))
          (walk_stack-kept (max_scan_entries + 2) (first_walk db) (IsKept-refl db))

-- However a scan ends and whatever the disk answers, the rows of assets, of their origins, of
-- collections and of memberships that were there are there unchanged, in their order, and so are
-- the identities of locations and roots; assets and origins are only added.
pub scan_root-IsKept :
    (disk : Disk) (plan : ScanPlan) (is_cancelled : ℕ → Bool) (new_ids : ℕ → NewIds) (now : ℕ → ℕ)
    (opened reopened : Result (Unit {0})) (db : Db)
    → IsKept db (scan_root disk plan is_cancelled new_ids now opened reopened db).db
unfolding scan_root
scan_root-IsKept disk plan is_cancelled new_ids now opened reopened db =
    scan_ended-IsKept db disk plan is_cancelled new_ids now reopened
      (run_scan disk plan is_cancelled new_ids now opened db)
      (run_scan-kept db disk plan is_cancelled new_ids now opened)
