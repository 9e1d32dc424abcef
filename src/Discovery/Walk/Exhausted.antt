-- ===== src/Discovery/Walk/Exhausted.antt =====
-- The end of the loop of run_scan, crates/reference-core/src/discovery.rs.
use reference_library.Common.{
  ℕ, zero, suc, ◌+◌, ◌-◌, ◌≤◌, ◌<◌, ◌≡◌, refl, subst, ap, inl, inr, Bool, List, [], ◌∷◌, length,
  length-append, ltb, Bool-cases, List-cases, arith,
}
use reference_library.Errors.{CoreError}
use reference_library.Fallible.{Result, ok, err}
use reference_library.Discovery.Marks.{ScanPlan}
use reference_library.Discovery.Store.{NewIds}
use reference_library.Discovery.Walk.{
  Disk, Walk, Ran, going, cancelled, broken, Arm, handled, names_arm, open_arm, then_go,
  visit_entry, visit_entries, names_read, directory_read, visit_directory, walk_stack,
  max_scan_entries, looked, reversed, unreadable,
}
use reference_library.Discovery.Walk.Within.{RanWithin, then_go-Within, visit_entry-Within}

-- What is left to do: the directories of the stack, and the entries that may still be found.
abbrev left : Walk → ℕ
left w = length w.stack + (max_scan_entries - w.traversed_entries)

abbrev RanLeft : (k : ℕ) → Ran → Type 0
RanLeft k (going w) = left w ≤ k
RanLeft k (cancelled w) = Unit {0}
RanLeft k (broken cause w) = Unit {0}

abbrev pub IsExhausted : Ran → Type 0
IsExhausted (going w) = w.stack ≡ []
IsExhausted (cancelled w) = Unit {0}
IsExhausted (broken cause w) = Unit {0}

then_go-IsExhausted :
    (k : ℕ) (r : Ran) (next : Walk → Ran)
    → RanLeft k r
    → ((w : Walk) → left w ≤ k → IsExhausted (next w))
    → IsExhausted (then_go r next)
then_go-IsExhausted k (going w) next h f = f w h
then_go-IsExhausted k (cancelled w) next h f = tt
then_go-IsExhausted k (broken cause w) next h f = tt

within_left : (k t m : ℕ) (r : Ran) → k + (max_scan_entries - t) ≤ m → RanWithin k t r → RanLeft m r
within_left k t m (going w) bound h = omega (arith, bound, h.0, h.1)
within_left k t m (cancelled w) bound h = tt
within_left k t m (broken cause w) bound h = tt

module _ (disk : Disk) (plan : ScanPlan) (is_cancelled : ℕ → Bool) (new_ids : ℕ → NewIds)
    (now : ℕ → ℕ) where
  -- Each entry adds one directory at most.
  visit_entries-Within :
      (k t : ℕ) (directory : List ℕ) (entries : List (List ℕ)) (w : Walk)
      → length w.stack + length entries ≤ k
      → w.traversed_entries ≡ t
      → RanWithin k t (visit_entries disk plan is_cancelled new_ids now directory entries w)
  unfolding visit_entries
  visit_entries-Within k t directory [] w h e = (omega (arith, h), e)
  visit_entries-Within k t directory (name ∷ entries) w h e =
      then_go-Within (length w.stack + 1) t k t
        (visit_entry disk plan is_cancelled new_ids now directory name w)
        (visit_entries disk plan is_cancelled new_ids now directory entries)
        (visit_entry-Within (length w.stack + 1) t disk plan is_cancelled new_ids now directory name
          w (omega arith) e)
        (λ v l s. visit_entries-Within k t directory entries v (omega (arith, l, h)) s)

  length-reversed :
      (xs : List (List ℕ)) → length (reversed disk plan is_cancelled new_ids now xs) ≡ length xs
  length-reversed [] = refl
  length-reversed (x ∷ xs) = omega (
    arith,
    length-append (reversed disk plan is_cancelled new_ids now xs) (x ∷ []),
    length-reversed xs,
  )

  handled-Left :
      (arm : Arm) (cause : CoreError) (w noted : Walk)
      → left noted ≡ left w
      → RanLeft (left w) (handled arm cause w noted)
  handled-Left Arm.cancels cause w noted e = tt
  handled-Left Arm.skips cause w noted e = omega arith
  handled-Left Arm.notes cause w noted e = omega (arith, e)
  handled-Left Arm.fails cause w noted e = tt

  names_read-Left :
      (directory : List ℕ) (w : Walk) (found : Result (List (List ℕ)))
      → RanLeft (left w) (names_read disk plan is_cancelled new_ids now directory w found)
  unfolding names_read
  names_read-Left directory w (err cause) =
      handled-Left (names_arm cause) cause w
        (unreadable disk plan is_cancelled new_ids now w directory) refl
  names_read-Left directory w (ok entries) =
      let traversed = w.traversed_entries + length entries in
      let entered : Walk = record w { traversed_entries = traversed } in
      let names = reversed disk plan is_cancelled new_ids now entries in
      elim (Bool-cases (ltb max_scan_entries traversed)) [
        | inl over ↦ rw over tt
        | inr fine ↦
            let bound : length w.stack + length entries + (max_scan_entries - traversed) ≤ left w =
              ground (arith, fine) in
            rw fine (
              within_left (length w.stack + length entries) traversed (left w)
                (visit_entries disk plan is_cancelled new_ids now directory names entered) bound
                (visit_entries-Within (length w.stack + length entries) traversed directory names
                  entered (omega (arith, length-reversed entries)) refl))
      ]

  directory_read-Left :
      (directory : List ℕ) (w : Walk) (found : Result (Unit {0}))
      → RanLeft (left w) (directory_read disk plan is_cancelled new_ids now directory w found)
  directory_read-Left directory w (ok handle) =
      names_read-Left directory w (disk.read_directory_names directory)
  directory_read-Left directory w (err cause) =
      handled-Left (open_arm cause) cause w
        (unreadable disk plan is_cancelled new_ids now w directory) refl

  visit_directory-Left :
      (directory : List ℕ) (w : Walk)
      → RanLeft (left w) (visit_directory disk plan is_cancelled new_ids now directory w)
  unfolding visit_directory
  visit_directory-Left directory w = elim (Bool-cases (is_cancelled w.looks)) [
    | inl e ↦ rw e tt
    | inr e ↦ rw e (
        directory_read-Left directory (looked disk plan is_cancelled new_ids now w)
          (disk.open_relative_directory directory))
  ]

  walk_stack-IsExhausted :
      (fuel : ℕ) (w : Walk)
      → left w < fuel
      → IsExhausted (walk_stack disk plan is_cancelled new_ids now fuel w)
  unfolding walk_stack
  walk_stack-IsExhausted zero w h = absurd (omega (arith, h))
  walk_stack-IsExhausted (suc fuel) w h = elim (List-cases w.stack) [
    | inl e ↦ rw e refl
    | inr (directory, stack, e) ↦
        let popped : Walk = record w { stack = stack } in
        let fewer : left popped + 1 ≡ left w = omega (arith, ap length e) in
        rw e (
          then_go-IsExhausted (left popped)
            (visit_directory disk plan is_cancelled new_ids now directory popped)
            (walk_stack disk plan is_cancelled new_ids now fuel)
            (visit_directory-Left directory popped)
            (λ v l. walk_stack-IsExhausted fuel v (omega (arith, l, fewer, h))))
  ]

  -- With fuel above the number of queued directories and of entries that may still be found, the
  -- loop of a scan that is not cancelled and does not fail ends with no directory left.
  pub walk_stack-exhausted :
      (fuel : ℕ) (w v : Walk)
      → length w.stack + (max_scan_entries - w.traversed_entries) < fuel
      → walk_stack disk plan is_cancelled new_ids now fuel w ≡ going v
      → v.stack ≡ []
  walk_stack-exhausted fuel w v h e = subst IsExhausted e (walk_stack-IsExhausted fuel w h)
