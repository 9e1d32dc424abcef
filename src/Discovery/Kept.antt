-- ===== src/Discovery/Kept.antt =====
-- What the storing of a file leaves as it was, crates/reference-core/src/discovery.rs.
pub mod Announced
pub mod Batch
pub mod Marked
use reference_library.Common.{
  ℕ, ◌+◌, ◌≡◌, refl, sym, subst, ap, ◌∙◌, inl, inr, String, Bool, Option, none, some, List, [], ◌∷◌,
  ◌++◌, ◌&&◌, append-nil, append_assoc, map-append, map, length, any, str_eq, not, Bool-cases,
  arith,
}
use reference_library.Fallible.{>>=-eq-ok, ok, Holds, Holds-ok, Holds-eq-ok, Holds->>=}
use reference_library.Database.{
  RootRow, Db, LocationRow, OriginRow, AssetRow, update_where, count_where,
}
use reference_library.Protocol.Event.{Event}
use reference_library.Session.Authority.{is_text}
use reference_library.Discovery.Marks.{ScanPlan}
use reference_library.Discovery.Match.{FileCandidate, ExistingLocation, at_path}
use reference_library.Discovery.Store.{
  NewIds, insert_row, insert_location, relocate_existing, insert_revision, located,
  refresh_existing, new_source, new_location, new_asset, new_origin, insert_new,
}
use reference_library.Discovery.Flush.{
  Scanned, Candidates, store_moved, store_found, store_candidate, store_all, written_batch,
  flush_batch, counted,
}

-- What other rows refer to in a location.
abbrev pub identity : LocationRow → String × (String × String)
identity l = (l.id, (l.root_id, l.source_id))

abbrev pub asset_id_of : AssetRow → String
asset_id_of a = a.id

abbrev pub root_identity : RootRow → String × (String × String)
root_identity r = (r.id, (r.display_name, r.root_kind))

-- Assets and origins are added behind those that are there, the assets being the ones that are
-- named; locations and roots keep their identities; collections and memberships stay.
abbrev pub Keeps : (inserted : List String) → (old new : Db) → Type 0
Keeps inserted old new =
    ((added : List AssetRow) × (new.assets ≡ old.assets ++ added)
      × (map asset_id_of added ≡ inserted))
    × ((more : List OriginRow) × (new.asset_origins ≡ old.asset_origins ++ more))
    × ((fresh : List (String × (String × String))) × (map identity new.locations
          ≡ map identity old.locations ++ fresh))
    × (new.collections ≡ old.collections)
    × (new.collection_assets ≡ old.collection_assets)
    × (map root_identity new.roots ≡ map root_identity old.roots)

append_trans : {A : Type 0} (a b c x y : List A) → b ≡ a ++ x → c ≡ b ++ y → c ≡ a ++ (x ++ y)
append_trans a b c x y h k = k ∙ ap (λ front. front ++ y) h ∙ append_assoc a x y

pub Keeps-trans : (i j : List String) (a b c : Db) → Keeps i a b → Keeps j b c → Keeps (i ++ j) a c
Keeps-trans i j a b c
      (
        (added, assets, named),
        (more, origins),
        (fresh, places),
        same_collections,
        same_members,
        same_roots,
      )
      (
        (added', assets', named'),
        (more', origins'),
        (fresh', places'),
        same_collections',
        same_members',
        same_roots',
      ) =
    (
      (
        added ++ added',
        append_trans a.assets b.assets c.assets added added' assets assets',
        map-append asset_id_of added added' ∙ (λ k. named k ++ named' k),
      ),
      (
        more ++ more',
        append_trans a.asset_origins b.asset_origins c.asset_origins more more' origins origins',
      ),
      (
        fresh ++ fresh',
        append_trans (map identity a.locations) (map identity b.locations)
            (map identity c.locations) fresh fresh' places places',
      ),
      same_collections' ∙ same_collections,
      same_members' ∙ same_members,
      same_roots' ∙ same_roots,
    )

-- An update that keeps what is read of a row keeps what is read of the table.
pub map-update_where :
    {A B : Type 0} (g : A → B) (p : A → Bool) (f : A → A)
    → ((x : A) → g (f x) ≡ g x)
    → (xs : List A) → map g (update_where p f xs) ≡ map g xs
map-update_where g p f keeps [] = refl
map-update_where g p f keeps (x ∷ xs) = elim (Bool-cases (p x)) [
  | inl e ↦ rw e (λ k. keeps x k ∷ map-update_where g p f keeps xs k)
  | inr e ↦ rw e (ap (λ rest. g x ∷ rest) (map-update_where g p f keeps xs))
]

insert_row-Holds :
    {A : Type 0} (id : A → String) (row : A) (rows : List A)
    → Holds (λ made. made ≡ rows ++ (row ∷ [])) (insert_row id row rows)
unfolding Holds
insert_row-Holds id row rows = elim (Bool-cases (any (λ r. str_eq (id r) (id row)) rows)) [
  | inl e ↦ rw e tt
  | inr e ↦ rw e refl
]

module _ (candidate : FileCandidate) (timestamp : ℕ) where
  located-Keeps :
      (existing : ExistingLocation) (db : Db)
      → Keeps [] db (located existing candidate timestamp db)
  located-Keeps existing db = (
    ([], sym (append-nil db.assets), refl),
    ([], sym (append-nil db.asset_origins)),
    (
      [],
      map-update_where identity _ _ (λ l. refl) db.locations
          ∙ sym (append-nil (map identity db.locations)),
    ),
    refl,
    refl,
    refl,
  )

  pub refresh_existing-Keeps :
      (existing : ExistingLocation) (revision_id : String) (db : Db)
      → Holds (Keeps [] db) (refresh_existing existing candidate revision_id timestamp db)
  unfolding refresh_existing insert_revision Holds
  refresh_existing-Keeps existing revision_id db =
      elim (Bool-cases (not (is_text existing.fingerprint candidate.quick_fingerprint))) [
        | inr e ↦ rw e (located-Keeps existing db)
        | inl e ↦ elim (Bool-cases (any (λ r. str_eq r.id revision_id) db.source_revisions)) [
          | inl taken ↦ rw (e, taken) tt
          | inr free ↦ rw (e, free) (located-Keeps existing db)
        ]
      ]

  pub relocate_existing-Keeps :
      (existing : ExistingLocation) (plan : ScanPlan) (db : Db)
      → Holds (Keeps [] db) (relocate_existing existing plan candidate timestamp db)
  unfolding relocate_existing Holds
  relocate_existing-Keeps existing plan db =
      elim (Bool-cases (
        any
          (λ l.
            at_path plan.root_id candidate.relative_bytes l
            && not (str_eq l.id existing.location_id))
          db.locations)) [
            | inl taken ↦ rw taken tt
            | inr free ↦ rw free (
              ([], sym (append-nil db.assets), refl),
              ([], sym (append-nil db.asset_origins)),
              (
                [],
                map-update_where identity _ _ (λ l. refl) db.locations
                    ∙ sym (append-nil (map identity db.locations)),
              ),
              refl,
              refl,
              refl,
            )
          ]

  -- What is read of the rows behind an insertion.
  inserted_place :
      (rows made : List LocationRow) (l : LocationRow)
      → made ≡ rows ++ (l ∷ [])
      → map identity made ≡ map identity rows ++ (identity l ∷ [])
  inserted_place rows made l h = ap (map identity) h ∙ map-append identity rows (l ∷ [])

  insert_location-Holds :
      (l : LocationRow) (rows : List LocationRow)
      → Holds (λ made. made ≡ rows ++ (l ∷ [])) (insert_location l rows)
  unfolding Holds
  insert_location-Holds l rows = elim (Bool-cases (any (at_path l.root_id l.relative_path) rows)) [
    | inl taken ↦ rw taken tt
    | inr free ↦ rw free (insert_row-Holds (λ r. r.id) l rows)
  ]

  abbrev SamePlaces : (old new : Db) → Type 0
  SamePlaces old new =
      (new.collections ≡ old.collections)
      × (new.collection_assets ≡ old.collection_assets)
      × (new.roots ≡ old.roots)

  insert_revision-SamePlaces :
      (revision_id source_id : String) (db : Db)
      → Holds (SamePlaces db) (insert_revision revision_id source_id candidate timestamp db)
  unfolding insert_revision Holds
  insert_revision-SamePlaces revision_id source_id db =
      elim (Bool-cases (any (λ r. str_eq r.id revision_id) db.source_revisions)) [
        | inl taken ↦ rw taken tt
        | inr free ↦ rw free (refl, refl, refl)
      ]

  pub insert_new-Keeps :
      (ids : NewIds) (plan : ScanPlan) (db : Db)
      → Holds (λ made. Keeps (made.0 ∷ []) db made.1) (insert_new ids plan candidate timestamp db)
  unfolding insert_new insert_revision
  insert_new-Keeps ids plan db =
      let P : String × Db → Type 0 = λ made. Keeps (made.0 ∷ []) db made.1 in
      Holds->>= P (insert_row (λ s. s.id) (new_source ids plan candidate timestamp) db.sources) _
        (λ sources e.
          Holds->>= P
            (insert_revision ids.revision_id ids.source_id candidate timestamp
              (record db { sources = sources }))
            _
            (λ with_revision e1.
              let (c, m, r) =
                Holds-eq-ok (SamePlaces db) _
                  (insert_revision-SamePlaces ids.revision_id ids.source_id
                    (record db { sources = sources }))
                  e1 in
              Holds->>= P (insert_location (new_location ids plan candidate timestamp) db.locations)
                _
                (λ locations e2.
                  let places =
                    Holds-eq-ok _ _
                      (insert_location-Holds (new_location ids plan candidate timestamp)
                        db.locations)
                      e2 in
                  Holds->>= P (insert_row (λ a. a.id) (new_asset ids plan timestamp) db.assets) _
                    (λ assets e3.
                      let added =
                        Holds-eq-ok _ _
                          (insert_row-Holds (λ a. a.id) (new_asset ids plan timestamp) db.assets)
                          e3 in
                      Holds->>= P
                        (insert_row (λ o. o.id) (new_origin ids timestamp) db.asset_origins) _
                        (λ origins e4.
                          let more =
                            Holds-eq-ok _ _
                              (insert_row-Holds (λ o. o.id) (new_origin ids timestamp)
                                db.asset_origins)
                              e4 in
                          Holds-ok P _ (
                            (new_asset ids plan timestamp ∷ [], added, refl),
                            (new_origin ids timestamp ∷ [], more),
                            (
                              identity (new_location ids plan candidate timestamp) ∷ [],
                              inserted_place db.locations locations
                                  (new_location ids plan candidate timestamp) places,
                            ),
                            c,
                            m,
                            ap (map root_identity) r,
                          ))))))
