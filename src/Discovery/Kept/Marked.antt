-- ===== src/Discovery/Kept/Marked.antt =====
-- What the marks of a scan leave as it was, crates/reference-core/src/discovery.rs.
use reference_library.Common.{
  ℕ, zero, suc, ◌+◌, ◌≡◌, refl, sym, ◌∙◌, inl, inr, String, Option, none, some, List, [], ◌∷◌, ◌++◌,
  append-nil, map, length, List-cases,
}
use reference_library.Errors.{CoreError}
use reference_library.Database.{Db, LocationRow}
use reference_library.Discovery.Marks.{
  ScanPlan, mark_completed, mark_cancelled, mark_failed, mark_locations, failed_states,
}
use reference_library.Discovery.Kept.{identity, root_identity, Keeps, Keeps-trans, map-update_where}
use reference_library.Discovery.Unseen.{unresolved, mark_row, mark_page, mark_pages, mark_unseen}

-- Assets, their origins, the identities of locations and roots, collections and memberships are
-- kept; some assets may have been added.
abbrev pub IsKept : (old new : Db) → Type 0
IsKept old new = (inserted : List String) × Keeps inserted old new

pub IsKept-refl : (db : Db) → IsKept db db
IsKept-refl db = (
  [],
  (
    ([], sym (append-nil db.assets), refl),
    ([], sym (append-nil db.asset_origins)),
    ([], sym (append-nil (map identity db.locations))),
    refl,
    refl,
    refl,
  ),
)

pub IsKept-trans : (a b c : Db) → IsKept a b → IsKept b c → IsKept a c
IsKept-trans a b c (i, h) (j, k) = (i ++ j, Keeps-trans i j a b c h k)

-- Marks of roots, locations, sources and jobs keep what is kept.
marked-IsKept :
    (old new : Db)
    → new.assets ≡ old.assets
    → new.asset_origins ≡ old.asset_origins
    → map identity new.locations ≡ map identity old.locations
    → new.collections ≡ old.collections
    → new.collection_assets ≡ old.collection_assets
    → map root_identity new.roots ≡ map root_identity old.roots
    → IsKept old new
marked-IsKept old new a o l c m r = (
  [],
  (
    ([], a ∙ sym (append-nil old.assets), refl),
    ([], o ∙ sym (append-nil old.asset_origins)),
    ([], l ∙ sym (append-nil (map identity old.locations))),
    c,
    m,
    r,
  ),
)

pub mark_cancelled-IsKept :
    (plan : ScanPlan) (count unsupported timestamp : ℕ) (db : Db)
    → IsKept db (mark_cancelled plan count unsupported timestamp db)
unfolding mark_cancelled
mark_cancelled-IsKept plan count unsupported timestamp db =
    marked-IsKept db (mark_cancelled plan count unsupported timestamp db) refl refl refl refl refl
      (map-update_where root_identity _ _ (λ r. refl) db.roots)

pub mark_completed-IsKept :
    (plan : ScanPlan) (count unsupported timestamp : ℕ) (db : Db)
    → IsKept db (mark_completed plan count unsupported timestamp db)
unfolding mark_completed
mark_completed-IsKept plan count unsupported timestamp db =
    marked-IsKept db (mark_completed plan count unsupported timestamp db) refl refl refl refl refl
      (map-update_where root_identity _ _ (λ r. refl) db.roots)

mark_locations-identity :
    (root_id : String) (state : Option String) (timestamp : ℕ) (locations : List LocationRow)
    → map identity (mark_locations root_id state timestamp locations) ≡ map identity locations
mark_locations-identity root_id none timestamp locations = refl
mark_locations-identity root_id (some state) timestamp locations =
    map-update_where identity _ _ (λ l. refl) locations

pub mark_failed-IsKept :
    (plan : ScanPlan) (cause : CoreError) (timestamp : ℕ) (db : Db)
    → IsKept db (mark_failed plan cause timestamp db).1
unfolding mark_failed
mark_failed-IsKept plan cause timestamp db =
    marked-IsKept db (mark_failed plan cause timestamp db).1 refl refl
      (mark_locations-identity plan.root_id (failed_states cause).1 timestamp db.locations) refl
      refl (map-update_where root_identity _ _ (λ r. refl) db.roots)

module _ (plan : ScanPlan) (states : List (List ℕ × String)) (directories : List (List ℕ)) where
  mark_row-IsKept :
      (timestamp : ℕ) (row : LocationRow) (db : Db)
      → IsKept db (mark_row plan states directories timestamp row db)
  unfolding mark_row
  mark_row-IsKept timestamp row db =
      marked-IsKept db (mark_row plan states directories timestamp row db) refl refl
        (map-update_where identity _ _ (λ l. refl) db.locations) refl refl refl

  mark_page-IsKept :
      (timestamp : ℕ) (rows : List LocationRow) (at : String × Db)
      → IsKept at.1 (mark_page plan states directories timestamp rows at).1
  unfolding mark_page
  mark_page-IsKept timestamp [] at = IsKept-refl at.1
  mark_page-IsKept timestamp (row ∷ rows) at =
      let marked = mark_row plan states directories timestamp row at.1 in
      IsKept-trans at.1 marked (mark_page plan states directories timestamp rows (row.id, marked)).1
        (mark_row-IsKept timestamp row at.1) (mark_page-IsKept timestamp rows (row.id, marked))

  mark_pages-IsKept :
      (seen : List (List ℕ)) (timestamp fuel : ℕ) (at : String × Db)
      → IsKept at.1 (mark_pages plan states directories seen timestamp fuel at)
  unfolding mark_pages
  mark_pages-IsKept seen timestamp zero at = IsKept-refl at.1
  mark_pages-IsKept seen timestamp (suc fuel) at =
      elim (List-cases (unresolved plan states directories seen at.0 at.1)) [
        | inl e ↦ rw (mark_pages, e) (IsKept-refl at.1)
        | inr (row, rows, e) ↦
            let next = mark_page plan states directories timestamp (row ∷ rows) at in
            rw (mark_pages, e)
              (IsKept-trans at.1 next.1
                (mark_pages plan states directories seen timestamp fuel next)
                (mark_page-IsKept timestamp (row ∷ rows) at)
                (mark_pages-IsKept seen timestamp fuel next))
      ]

  pub mark_unseen-IsKept :
      (seen : List (List ℕ)) (timestamp : ℕ) (db : Db)
      → IsKept db (mark_unseen plan states directories seen timestamp db)
  unfolding mark_unseen
  mark_unseen-IsKept seen timestamp db =
      mark_pages-IsKept seen timestamp (length db.locations + 1) ("", db)
