-- ===== src/Discovery/Walk.antt =====
-- The walk of a scan: the loop of `run_scan` of crates/reference-core/src/discovery.rs, on Unix. What
-- the directories and files answer is a parameter, as are the flag that cancels the scan, as it is
-- seen at each look, the identifiers that are made for each file, and the time of each flush.
pub mod Within
pub mod Exhausted
use reference_library.Common.{
  ℕ, zero, suc, ◌+◌, String, Bool, true, false, Option, none, some, List, [], ◌∷◌, ◌++◌, length,
  ltb, leb, if◌then◌else◌,
}
use reference_library.Errors.{
  IoKind, CoreError, io, rendition_cancelled, source_revision_changed, root_scan_limit_exceeded,
}
use reference_library.Fallible.{Result, ok, err}
use reference_library.Protocol.Event.{Event}
use reference_library.Discovery.Marks.{ScanPlan}
use reference_library.Discovery.Match.{FileCandidate}
use reference_library.Discovery.Store.{NewIds}
use reference_library.Discovery.Flush.{Scanned, Candidates, flush_batch}
use reference_library.Discovery.Inspect.{FileReads, inspect_file}

abbrev pub insert_batch : ℕ
insert_batch = 32

abbrev pub max_queued_directories : ℕ
max_queued_directories = 100000

abbrev pub max_scan_entries : ℕ
max_scan_entries = 250000

-- What `openat` answers.
pub data OpenAt : Type 0 where
  opened missing symbolic_link not_directory denied : OpenAt
  failed : CoreError → OpenAt

-- What the disk answers at a path.
pub record Disk : Type 0 where
  pub open_relative_directory : List ℕ → Result (Unit {0})
  pub read_directory_names : List ℕ → Result (List (List ℕ))
  pub open_directory : List ℕ → OpenAt
  pub open_file : List ℕ → OpenAt
  pub is_file : List ℕ → Result Bool
  pub read_file : List ℕ → FileReads
  pub is_absent : List ℕ → Bool

-- The variables of the loop. `looks` and `files` count the looks at the flag and the files so far.
pub record Walk : Type 0 where
  pub scanned : Scanned
  pub batch : Candidates
  pub per_entry_states : List (List ℕ × String)
  pub unreadable_directories : List (List ℕ)
  pub traversed_entries : ℕ
  pub stack : List (List ℕ)
  pub looks : ℕ
  pub files : ℕ
  pub events : List Event

-- How a step ends: the loop goes on, the scan is cancelled, or it fails with what is stored.
pub data Ran : Type 0 where
  going : Walk → Ran
  cancelled : Walk → Ran
  broken : CoreError → Walk → Ran

-- The arms of a `match` on an error: it cancels the scan, is passed over, is noted, or fails.
pub data Arm : Type 0 where
  cancels skips notes fails : Arm

-- The errors of `inspect_file`, with the state that is noted.
abbrev pub file_arm : CoreError → Arm × String
file_arm rendition_cancelled = (cancels, "")
file_arm (io IoKind.not_found text) = (skips, "")
file_arm (io IoKind.permission_denied text) = (notes, "permission_denied")
file_arm source_revision_changed = (notes, "unreadable")
file_arm cause = (fails, "")

-- The errors of `read_directory_names` and of `open_relative_directory`.
abbrev pub names_arm : CoreError → Arm
names_arm (io IoKind.permission_denied text) = notes
names_arm rendition_cancelled = cancels
names_arm cause = fails

abbrev pub open_arm : CoreError → Arm
open_arm (io IoKind.not_found text) = skips
open_arm (io IoKind.permission_denied text) = notes
open_arm cause = fails

-- What an arm makes of the variables, and of those with the note.
abbrev pub handled : Arm → CoreError → (w noted : Walk) → Ran
handled cancels cause w noted = cancelled w
handled skips cause w noted = going w
handled notes cause w noted = going noted
handled fails cause w noted = broken cause w

abbrev pub then_go : Ran → (Walk → Ran) → Ran
then_go (going w) next = next w
then_go (cancelled w) next = cancelled w
then_go (broken cause w) next = broken cause w

abbrev pub join : (directory name : List ℕ) → List ℕ
join [] name = name
join (c ∷ directory) name = (c ∷ directory) ++ (b'/' ∷ name)

module _ (disk : Disk) (plan : ScanPlan) (is_cancelled : ℕ → Bool) (new_ids : ℕ → NewIds)
    (now : ℕ → ℕ) where
  abbrev pub flushed : Walk → Result (List Event × Scanned) → Ran
  flushed w (err cause) = broken cause w
  flushed w (ok stored) =
      going (record w { scanned = stored.1; batch = []; events = w.events ++ stored.0 })

  unfoldable pub flush : Walk → Ran
  unfolding flush_batch
  flush w = flushed w (flush_batch disk.is_absent plan (now w.looks) w.batch w.scanned)

  -- `batch.push(candidate)`
  abbrev pub pushed : Walk → FileCandidate → Walk
  pushed w candidate = record w {
    batch = w.batch ++ ((candidate, new_ids w.files) ∷ []);
    files = w.files + 1;
  }

  -- The push, and the flush of a full batch.
  unfoldable pub add_candidate : Walk → FileCandidate → Ran
  unfolding flush
  add_candidate w candidate =
      if leb insert_batch (length (pushed w candidate).batch)
      then flush (pushed w candidate)
      else going (pushed w candidate)

  abbrev pub entry_state : Walk → (relative : List ℕ) → String → Walk
  entry_state w relative state = record w {
    per_entry_states = (relative, state) ∷ w.per_entry_states;
  }

  -- The arms behind `inspect_file`.
  abbrev pub inspected : Walk → (relative : List ℕ) → Result (Option FileCandidate) → Ran
  inspected w relative (ok (some candidate)) = add_candidate w candidate
  inspected w relative (ok none) = going w
  inspected w relative (err cause) =
      let arm = file_arm cause in handled arm.0 cause w (entry_state w relative arm.1)

  abbrev pub regular : Walk → (relative : List ℕ) → Result Bool → Ran
  regular w relative (err cause) = broken cause w
  regular w relative (ok false) = going w
  regular w relative (ok true) = inspected w relative (inspect_file (disk.read_file relative))

  -- The arms behind the second `openat`.
  abbrev pub file_opened : Walk → (relative : List ℕ) → OpenAt → Ran
  file_opened w relative OpenAt.opened = regular w relative (disk.is_file relative)
  file_opened w relative OpenAt.missing = going w
  file_opened w relative OpenAt.symbolic_link = going w
  file_opened w relative OpenAt.denied = going (entry_state w relative "permission_denied")
  file_opened w relative OpenAt.not_directory = broken (io IoKind.other "Not a directory") w
  file_opened w relative (OpenAt.failed cause) = broken cause w

  -- The arms behind the first `openat`.
  abbrev pub directory_opened : Walk → (relative : List ℕ) → OpenAt → Ran
  directory_opened w relative OpenAt.opened =
      if leb max_queued_directories (length w.stack)
      then broken root_scan_limit_exceeded w
      else going (record w { stack = relative ∷ w.stack })
  directory_opened w relative OpenAt.missing = going w
  directory_opened w relative OpenAt.symbolic_link = going w
  directory_opened w relative OpenAt.not_directory =
      file_opened w relative (disk.open_file relative)
  directory_opened w relative OpenAt.denied =
      going (record w { unreadable_directories = relative ∷ w.unreadable_directories })
  directory_opened w relative (OpenAt.failed cause) = broken cause w

  abbrev pub looked : Walk → Walk
  looked w = record w { looks = w.looks + 1 }

  -- One round of `for name in entries.into_iter().rev()`.
  unfoldable pub visit_entry : (directory name : List ℕ) → Walk → Ran
  unfolding add_candidate inspect_file
  visit_entry directory name w =
      if is_cancelled w.looks
      then cancelled (looked w)
      else directory_opened (looked w) (join directory name)
          (disk.open_directory (join directory name))

  unfoldable pub visit_entries : (directory : List ℕ) → (entries : List (List ℕ)) → Walk → Ran
  unfolding visit_entry
  visit_entries directory [] w = going w
  visit_entries directory (name ∷ entries) w =
      then_go (visit_entry directory name w) (visit_entries directory entries)

  abbrev pub reversed : List (List ℕ) → List (List ℕ)
  reversed [] = []
  reversed (x ∷ xs) = reversed xs ++ (x ∷ [])

  abbrev pub unreadable : Walk → (directory : List ℕ) → Walk
  unreadable w directory = record w {
    unreadable_directories = directory ∷ w.unreadable_directories;
  }

  -- The arms behind `read_directory_names`.
  unfoldable pub names_read : (directory : List ℕ) → Walk → Result (List (List ℕ)) → Ran
  unfolding visit_entries
  names_read directory w (ok entries) =
      let traversed = w.traversed_entries + length entries in
      if ltb max_scan_entries traversed
      then broken root_scan_limit_exceeded w
      else visit_entries directory (reversed entries) (record w { traversed_entries = traversed })
  names_read directory w (err cause) = handled (names_arm cause) cause w (unreadable w directory)

  -- The arms behind `open_relative_directory`.
  abbrev pub directory_read : (directory : List ℕ) → Walk → Result (Unit {0}) → Ran
  directory_read directory w (ok handle) =
      names_read directory w (disk.read_directory_names directory)
  directory_read directory w (err cause) = handled (open_arm cause) cause w (unreadable w directory)

  -- One round of the loop, for the directory that has been popped.
  unfoldable pub visit_directory : (directory : List ℕ) → Walk → Ran
  unfolding names_read
  visit_directory directory w =
      if is_cancelled w.looks
      then cancelled (looked w)
      else directory_read directory (looked w) (disk.open_relative_directory directory)

  -- `while let Some(directory) = stack.pop()`, on fuel.
  unfoldable pub walk_stack : ℕ → Walk → Ran
  unfolding visit_directory
  walk_stack zero w = going w
  walk_stack (suc fuel) w = elim w.stack [
    | [] ↦ going w
    | directory ∷ stack ↦
        then_go (visit_directory directory (record w { stack = stack })) (walk_stack fuel)
  ]
