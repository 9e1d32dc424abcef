-- ===== src/Discovery/Kept/Batch.antt =====
-- What flush_batch of crates/reference-core/src/discovery.rs leaves as it was.
use reference_library.Common.{
  ℕ, ◌+◌, ◌≡◌, refl, sym, subst, String, Bool, Option, none, some, List, [], ◌∷◌, ◌++◌, append-nil,
  map, length, str_eq, arith,
}
use reference_library.Fallible.{>>=-eq-ok, ok, Holds, Holds-ok, Holds-eq-ok, Holds->>=}
use reference_library.Database.{Db, count_where}
use reference_library.Protocol.Event.{Event}
use reference_library.Discovery.Marks.{ScanPlan}
use reference_library.Discovery.Match.{FileCandidate, ExistingLocation}
use reference_library.Discovery.Store.{NewIds, relocate_existing, refresh_existing, insert_new}
use reference_library.Discovery.Flush.{
  Scanned, Candidates, store_moved, store_found, store_candidate, store_all, written_batch,
  flush_batch, counted,
}
use reference_library.Discovery.Kept.{
  identity, Keeps, Keeps-trans, refresh_existing-Keeps, relocate_existing-Keeps, insert_new-Keeps,
}

module _ (path_is_absent : List ℕ → Bool) (plan : ScanPlan) (timestamp : ℕ) where
  abbrev KeepsMade : Db → List String × Db → Type 0
  KeepsMade db made = Keeps made.0 db made.1

  store_moved-Keeps :
      (candidate : FileCandidate) (ids : NewIds) (db : Db) (found : Option ExistingLocation)
      → Holds (KeepsMade db) (store_moved path_is_absent plan timestamp candidate ids db found)
  store_moved-Keeps candidate ids db (some existing) =
      Holds->>= (KeepsMade db) (relocate_existing existing plan candidate timestamp db) _
        (λ moved m.
          Holds->>= (KeepsMade db)
            (refresh_existing existing candidate ids.revision_id timestamp moved) _
            (λ refreshed r. Holds-ok (KeepsMade db) _ (
              Keeps-trans [] [] db moved refreshed
                (Holds-eq-ok _ _ (relocate_existing-Keeps candidate timestamp existing plan db) m)
                (Holds-eq-ok _ _
                  (refresh_existing-Keeps candidate timestamp existing ids.revision_id moved) r))))
  store_moved-Keeps candidate ids db none =
      Holds->>= (KeepsMade db) (insert_new ids plan candidate timestamp db) _ (λ made n.
        Holds-ok (KeepsMade db) _
          (Holds-eq-ok _ _ (insert_new-Keeps candidate timestamp ids plan db) n))

  store_found-Keeps :
      (candidate : FileCandidate) (ids : NewIds) (db : Db) (found : Option ExistingLocation)
      → Holds (KeepsMade db) (store_found path_is_absent plan timestamp candidate ids db found)
  store_found-Keeps candidate ids db (some existing) =
      Holds->>= (KeepsMade db) (refresh_existing existing candidate ids.revision_id timestamp db) _
        (λ refreshed r. Holds-ok (KeepsMade db) _ (
          Holds-eq-ok _ _ (refresh_existing-Keeps candidate timestamp existing ids.revision_id db)
            r))
  store_found-Keeps candidate ids db none = store_moved-Keeps candidate ids db _

  store_candidate-Keeps :
      (candidate : FileCandidate) (ids : NewIds) (db : Db)
      → Holds (KeepsMade db) (store_candidate path_is_absent plan timestamp candidate ids db)
  unfolding store_candidate
  store_candidate-Keeps candidate ids db = store_found-Keeps candidate ids db _

  -- The counts are those of the files.
  abbrev pub Counts : Candidates → (old new : Scanned) → Type 0
  Counts candidates old new =
      (new.observed_count ≡ old.observed_count + length candidates)
      × (new.unsupported_count
          ≡ old.unsupported_count + count_where (λ c. str_eq c.0.preview_kind "none") candidates)

  pub store_all-Keeps :
      (candidates : Candidates) (s : Scanned)
      → Holds
          (λ made. Keeps made.0 s.db made.1.db × Counts candidates s made.1)
          (store_all path_is_absent plan timestamp candidates s)
  unfolding store_all Holds
  store_all-Keeps [] s = (
    (
      ([], sym (append-nil s.db.assets), refl),
      ([], sym (append-nil s.db.asset_origins)),
      ([], sym (append-nil (map identity s.db.locations))),
      refl,
      refl,
      refl,
    ),
    (omega arith, omega arith),
  )
  store_all-Keeps ((candidate, ids) ∷ rest) s =
      let P : List String × Scanned → Type 0 =
        λ made. Keeps made.0 s.db made.1.db × Counts ((candidate, ids) ∷ rest) s made.1 in
      Holds->>= P (store_candidate path_is_absent plan timestamp candidate ids s.db) _ (λ stored e.
        let next = counted candidate stored.1 s in
        Holds->>= P (store_all path_is_absent plan timestamp rest next) _ (λ after f.
          let kept = Holds-eq-ok (KeepsMade s.db) _ (store_candidate-Keeps candidate ids s.db) e in
          let (later, (observed, unsupported)) = Holds-eq-ok _ _ (store_all-Keeps rest next) f in
          Holds-ok P (stored.0 ++ after.0, after.1)
            (
              Keeps-trans stored.0 after.0 s.db stored.1 after.1.db kept later,
              (ground (arith, observed), ground (arith, unsupported)),
            )))

  store_all_nothing : (s : Scanned) → store_all path_is_absent plan timestamp [] s ≡ ok ([], s)
  unfolding store_all
  store_all_nothing s = refl

  pub written_batch-Keeps :
      (candidates : Candidates) (inserted : List String) (s stored : Scanned)
      → Keeps inserted s.db stored.db
      → Counts candidates s stored
      → Keeps inserted s.db (written_batch path_is_absent plan timestamp inserted stored).db
        × Counts candidates s (written_batch path_is_absent plan timestamp inserted stored)
  unfolding written_batch
  written_batch-Keeps candidates inserted s stored kept counts = (kept, counts)

  -- A batch that is stored leaves the rows of assets, origins, collections and memberships as they
  -- were and the identities of locations and roots, adds assets, origins and locations behind them,
  -- and counts each of its files as observed and those without a preview kind as unsupported.
  pub flush_batch-Keeps :
      (candidates : Candidates) (s new : Scanned) (events : List Event)
      → flush_batch path_is_absent plan timestamp candidates s ≡ ok (events, new)
      → (inserted : List String) × (Keeps inserted s.db new.db × Counts candidates s new)
  unfolding flush_batch
  flush_batch-Keeps [] s new events h =
      let same : s ≡ new = cc in
      (
        [],
        subst (λ n. Keeps [] s.db n.db × Counts [] s n) same
            (Holds-eq-ok _ _ (store_all-Keeps [] s) (store_all_nothing s)),
      )
  flush_batch-Keeps (first ∷ rest) s new events h =
      let (stored, e, sent) =
        >>=-eq-ok (store_all path_is_absent plan timestamp (first ∷ rest) s) _ h in
      let (kept, counts) = Holds-eq-ok _ _ (store_all-Keeps (first ∷ rest) s) e in
      let same : written_batch path_is_absent plan timestamp stored.0 stored.1 ≡ new = cc in
      (
        stored.0,
        subst (λ n. Keeps stored.0 s.db n.db × Counts (first ∷ rest) s n) same
            (written_batch-Keeps (first ∷ rest) stored.0 s stored.1 kept counts),
      )
