-- ===== src/Discovery/Unseen.antt =====
-- What a complete scan has not seen: `mark_unseen` of crates/reference-core/src/discovery.rs. Rows
-- are read in pages of 256.
pub mod Paged
use reference_library.Common.{
  ℕ, zero, suc, ◌+◌, ◌==◌, String, Bool, Option, none, some, List, [], ◌∷◌, ◌++◌, any, keep_if,
  length, take, str_eq, not, ◌&&◌, ◌||◌, if◌then◌else◌, same_bytes,
}
use reference_library.Common.Order.{text_leb}
use reference_library.Common.Sort.{sort_by}
use reference_library.Database.{Db, LocationRow, bump_revision, update_where}
use reference_library.Discovery.Marks.{ScanPlan}

-- `BTreeMap::get`; a later insertion stands first.
abbrev pub state_at : List (List ℕ × String) → List ℕ → Option String
state_at [] bytes = none
state_at ((key, state) ∷ rest) bytes =
    if same_bytes key bytes then some state else state_at rest bytes

-- `path.ancestors().any(..)`: the path itself and its beginnings that end before a slash.
abbrev pub any_ancestor : (List ℕ → Bool) → (front bytes : List ℕ) → Bool
any_ancestor p front [] = p front
any_ancestor p front (c ∷ rest) = (c == b'/' && p front) || any_ancestor p (front ++ (c ∷ [])) rest

module _ (plan : ScanPlan) (per_entry_states : List (List ℕ × String))
    (unreadable_directories : List (List ℕ)) where
  abbrev pub is_unreadable : List ℕ → Bool
  is_unreadable directory = any (same_bytes directory) unreadable_directories

  abbrev pub or_directory : Option String → List ℕ → String
  or_directory (some state) bytes = state
  or_directory none bytes =
      if is_unreadable [] || any_ancestor is_unreadable [] bytes
      then "permission_denied"
      else "missing"

  unfoldable pub unseen_state : (relative_bytes : List ℕ) → String
  unseen_state bytes = or_directory (state_at per_entry_states bytes) bytes

  abbrev pub is_unseen : (scan_seen : List (List ℕ)) → LocationRow → Bool
  is_unseen scan_seen l =
      str_eq l.root_id plan.root_id && not (any (same_bytes l.relative_path) scan_seen)

  -- `ORDER BY l.id LIMIT 256`
  unfoldable pub unresolved :
      (scan_seen : List (List ℕ)) → (after_id : String) → Db → List LocationRow
  unfolding sort_by text_leb
  unresolved scan_seen after_id db = take 256 (
      sort_by (λ l. l.id)
        (keep_if (λ l. is_unseen scan_seen l && not (text_leb l.id after_id)) db.locations))

  -- `EXISTS (SELECT 1 FROM locations WHERE source_id = ?2 AND state <> 'missing')`
  abbrev pub has_place : (source_id : String) → List LocationRow → Bool
  has_place source_id locations =
      any (λ l. str_eq l.source_id source_id && not (str_eq l.state "missing")) locations

  abbrev pub mark_state :
      (id : String) → (state : String) → (timestamp : ℕ) → List LocationRow → List LocationRow
  mark_state id state timestamp locations =
      update_where (λ l. str_eq l.id id)
        (λ l. record l { state = state; updated_at_ms = timestamp }) locations

  -- The two updates for a row.
  unfoldable pub mark_row : (timestamp : ℕ) → LocationRow → Db → Db
  unfolding unseen_state
  mark_row timestamp row db =
      let locations = mark_state row.id (unseen_state row.relative_path) timestamp db.locations in
      record db {
        locations = locations;
        sources =
            update_where (λ s. str_eq s.id row.source_id)
              (λ s. record s {
                lineage_state = if has_place row.source_id locations then "active" else "missing";
                updated_at_ms = timestamp;
              })
              db.sources;
      }

  -- A page of rows, with the identifier of the last one.
  unfoldable pub mark_page : (timestamp : ℕ) → List LocationRow → String × Db → String × Db
  unfolding mark_row
  mark_page timestamp [] at = at
  mark_page timestamp (row ∷ rows) at =
      mark_page timestamp rows (row.id, mark_row timestamp row at.1)

  -- `loop`, on fuel.
  unfoldable pub mark_pages : (scan_seen : List (List ℕ)) → (timestamp : ℕ) → ℕ → String × Db → Db
  unfolding unresolved mark_page
  mark_pages scan_seen timestamp zero at = at.1
  mark_pages scan_seen timestamp (suc fuel) at = elim (unresolved scan_seen at.0 at.1) [
    | [] ↦ at.1
    | row ∷ rows ↦ mark_pages scan_seen timestamp fuel (mark_page timestamp (row ∷ rows) at)
  ]

  -- One page for each location, and one more.
  unfoldable pub mark_unseen : (scan_seen : List (List ℕ)) → (timestamp : ℕ) → Db → Db
  unfolding mark_pages bump_revision
  mark_unseen scan_seen timestamp db =
      bump_revision timestamp (mark_pages scan_seen timestamp (length db.locations + 1) ("", db))
