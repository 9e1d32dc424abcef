-- ===== src/Discovery/Walk/Within.antt =====
-- What one entry adds to the stack of run_scan, crates/reference-core/src/discovery.rs.
use reference_library.Common.{
  ℕ, ◌+◌, ◌≤◌, ◌≡◌, inl, inr, Bool, true, false, Option, none, some, List, ◌∷◌, length, leb,
  if◌then◌else◌, arith,
}
use reference_library.Errors.{CoreError}
use reference_library.Fallible.{Result, ok, err, Result-cases}
use reference_library.Discovery.Marks.{ScanPlan}
use reference_library.Discovery.Match.{FileCandidate}
use reference_library.Discovery.Store.{NewIds}
use reference_library.Discovery.Flush.{flush_batch}
use reference_library.Discovery.Inspect.{inspect_file}
use reference_library.Discovery.Walk.{
  Disk, OpenAt, Walk, Ran, going, cancelled, broken, Arm, handled, file_arm, join, then_go, flush,
  add_candidate, inspected, regular, file_opened, directory_opened, visit_entry,
  max_queued_directories, insert_batch, looked, pushed, entry_state,
}

-- A run that goes on has a stack of at most so many directories, and has come past so many entries.
abbrev pub RanWithin : (k t : ℕ) → Ran → Type 0
RanWithin k t (going w) = (length w.stack ≤ k) × (w.traversed_entries ≡ t)
RanWithin k t (cancelled w) = Unit {0}
RanWithin k t (broken cause w) = Unit {0}

pub then_go-Within :
    (k t k' t' : ℕ) (r : Ran) (next : Walk → Ran)
    → RanWithin k t r
    → ((w : Walk) → length w.stack ≤ k → w.traversed_entries ≡ t → RanWithin k' t' (next w))
    → RanWithin k' t' (then_go r next)
then_go-Within k t k' t' (going w) next h f = f w h.0 h.1
then_go-Within k t k' t' (cancelled w) next h f = tt
then_go-Within k t k' t' (broken cause w) next h f = tt

module _ (k t : ℕ) where
  either-Within :
      (b : Bool) (x y : Ran)
      → RanWithin k t x
      → RanWithin k t y
      → RanWithin k t (if b then x else y)
  either-Within true x y h l = h
  either-Within false x y h l = l

  handled-Within :
      (arm : Arm) (cause : CoreError) (w noted : Walk)
      → RanWithin k t (going w)
      → RanWithin k t (going noted)
      → RanWithin k t (handled arm cause w noted)
  handled-Within Arm.cancels cause w noted h l = tt
  handled-Within Arm.skips cause w noted h l = h
  handled-Within Arm.notes cause w noted h l = l
  handled-Within Arm.fails cause w noted h l = tt

  module _ (disk : Disk) (plan : ScanPlan) (is_cancelled : ℕ → Bool) (new_ids : ℕ → NewIds)
      (now : ℕ → ℕ) where
    flush-Within :
        (w : Walk)
        → RanWithin k t (going w)
        → RanWithin k t (flush disk plan is_cancelled new_ids now w)
    unfolding flush
    flush-Within w h =
        elim (Result-cases (flush_batch disk.is_absent plan (now w.looks) w.batch w.scanned)) [
          | inr (cause, e) ↦ rw e tt
          | inl ((events, new), e) ↦ rw e h
        ]

    add_candidate-Within :
        (w : Walk) (candidate : FileCandidate)
        → RanWithin k t (going w)
        → RanWithin k t (add_candidate disk plan is_cancelled new_ids now w candidate)
    unfolding add_candidate
    add_candidate-Within w candidate h =
        let next = pushed disk plan is_cancelled new_ids now w candidate in
        either-Within (leb insert_batch (length next.batch))
          (flush disk plan is_cancelled new_ids now next) (going next) (flush-Within next h) h

    inspected-Within :
        (w : Walk) (relative : List ℕ) (found : Result (Option FileCandidate))
        → RanWithin k t (going w)
        → RanWithin k t (inspected disk plan is_cancelled new_ids now w relative found)
    inspected-Within w relative (ok (some candidate)) h = add_candidate-Within w candidate h
    inspected-Within w relative (ok none) h = h
    inspected-Within w relative (err cause) h =
        handled-Within (file_arm cause).0 cause w
          (entry_state disk plan is_cancelled new_ids now w relative (file_arm cause).1) h h

    regular-Within :
        (w : Walk) (relative : List ℕ) (found : Result Bool)
        → RanWithin k t (going w)
        → RanWithin k t (regular disk plan is_cancelled new_ids now w relative found)
    unfolding inspect_file
    regular-Within w relative (err cause) h = tt
    regular-Within w relative (ok false) h = h
    regular-Within w relative (ok true) h =
        inspected-Within w relative (inspect_file (disk.read_file relative)) h

    file_opened-Within :
        (w : Walk) (relative : List ℕ) (found : OpenAt)
        → RanWithin k t (going w)
        → RanWithin k t (file_opened disk plan is_cancelled new_ids now w relative found)
    file_opened-Within w relative OpenAt.opened h =
        regular-Within w relative (disk.is_file relative) h
    file_opened-Within w relative OpenAt.missing h = h
    file_opened-Within w relative OpenAt.symbolic_link h = h
    file_opened-Within w relative OpenAt.denied h = h
    file_opened-Within w relative OpenAt.not_directory h = tt
    file_opened-Within w relative (OpenAt.failed cause) h = tt

    -- With room for one more directory.
    directory_opened-Within :
        (w : Walk) (relative : List ℕ) (found : OpenAt)
        → length w.stack + 1 ≤ k
        → w.traversed_entries ≡ t
        → RanWithin k t (directory_opened disk plan is_cancelled new_ids now w relative found)
    directory_opened-Within w relative OpenAt.opened h e =
        either-Within (leb max_queued_directories (length w.stack)) (broken _ w)
          (going (record w { stack = relative ∷ w.stack })) tt (omega (arith, h), e)
    directory_opened-Within w relative OpenAt.missing h e = (omega (arith, h), e)
    directory_opened-Within w relative OpenAt.symbolic_link h e = (omega (arith, h), e)
    directory_opened-Within w relative OpenAt.not_directory h e =
        file_opened-Within w relative (disk.open_file relative) (omega (arith, h), e)
    directory_opened-Within w relative OpenAt.denied h e = (omega (arith, h), e)
    directory_opened-Within w relative (OpenAt.failed cause) h e = tt

    pub visit_entry-Within :
        (directory name : List ℕ) (w : Walk)
        → length w.stack + 1 ≤ k
        → w.traversed_entries ≡ t
        → RanWithin k t (visit_entry disk plan is_cancelled new_ids now directory name w)
    unfolding visit_entry
    visit_entry-Within directory name w h e =
        either-Within (is_cancelled w.looks)
          (cancelled (looked disk plan is_cancelled new_ids now w)) _ tt
          (directory_opened-Within (looked disk plan is_cancelled new_ids now w)
            (join directory name) (disk.open_directory (join directory name)) h e)
