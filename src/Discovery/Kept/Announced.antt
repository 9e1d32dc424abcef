-- ===== src/Discovery/Kept/Announced.antt =====
-- What flush_batch of crates/reference-core/src/discovery.rs tells a client of a batch.
use reference_library.Common.{
  ℕ, ◌+◌, ◌≡◌, sym, ap, ◌∙◌, List, [], ◌∷◌, ◌++◌, map, length, false, str_eq, Bool,
}
use reference_library.Fallible.{ok, >>=-eq-ok, Holds-eq-ok}
use reference_library.Database.{AssetRow, count_where}
use reference_library.Protocol.Event.{Event}
use reference_library.Discovery.Marks.{ScanPlan}
use reference_library.Discovery.Match.{FileCandidate}
use reference_library.Discovery.Store.{NewIds}
use reference_library.Discovery.Flush.{
  Scanned, Candidates, store_all, written_batch, batch_events, flush_batch,
}
use reference_library.Discovery.Kept.{asset_id_of}
use reference_library.Discovery.Kept.Batch.{store_all-Keeps, written_batch-Keeps}

module _ (plan : ScanPlan) (observed_count unsupported_count library_revision : ℕ) where
  abbrev progress : Event
  progress =
      Event.scan_progress_changed plan.root_id plan.job_id observed_count unsupported_count false

  -- The events for the assets that a batch has added.
  pub data Announces : List AssetRow → List Event → Type 0 where
    progress_alone : Announces [] (progress ∷ [])
    with_assets :
        (first : AssetRow) (rest : List AssetRow)
        → Announces (first ∷ rest) (
            Event.assets_inserted plan.root_id (first.id ∷ map asset_id_of rest) library_revision
            ∷ progress
            ∷ [])

module _ (path_is_absent : List ℕ → Bool) (plan : ScanPlan) (timestamp : ℕ) where
  batch_events-Announces :
      (added : List AssetRow) (s : Scanned)
      → Announces plan s.observed_count s.unsupported_count s.db.library_meta.library_revision added
          (batch_events path_is_absent plan timestamp (map asset_id_of added) s)
  batch_events-Announces [] s = Announces.progress_alone
  batch_events-Announces (first ∷ rest) s = Announces.with_assets first rest

  -- A batch of some files that is stored adds assets behind those that are there, and its events
  -- name just these, in their order, with the revision of the tables that are stored, and then
  -- the counts: one more observed for each file, one more unsupported for each without a preview
  -- kind.
  pub flush_batch-Announces :
      (first : FileCandidate × NewIds) (rest : Candidates) (s new : Scanned) (events : List Event)
      → flush_batch path_is_absent plan timestamp (first ∷ rest) s ≡ ok (events, new)
      → (added : List AssetRow) × (new.db.assets ≡ s.db.assets ++ added)
        × Announces plan
            (s.observed_count + length (first ∷ rest))
            (s.unsupported_count + count_where (λ c. str_eq c.0.preview_kind "none") (first ∷ rest))
            new.db.library_meta.library_revision
            added
            events
  unfolding flush_batch
  flush_batch-Announces first rest s new events h =
      let (stored, e, sent) =
        >>=-eq-ok (store_all path_is_absent plan timestamp (first ∷ rest) s) _ h in
      let (kept, counts) =
        Holds-eq-ok _ _ (store_all-Keeps path_is_absent plan timestamp (first ∷ rest) s) e in
      let written = written_batch path_is_absent plan timestamp stored.0 stored.1 in
      let (after_all, counts_after) =
        written_batch-Keeps path_is_absent plan timestamp (first ∷ rest) stored.0 s stored.1 kept
          counts in
      let (added, grown, named) = after_all.0 in
      let is_new : written ≡ new = cc in
      let are_events : batch_events path_is_absent plan timestamp stored.0 written ≡ events = cc in
      let told = batch_events-Announces added written in
      (
        added,
        sym (ap (λ n. n.db.assets) is_new) ∙ grown,
        rw (sym is_new, sym are_events, sym named, sym counts_after.0, sym counts_after.1) told,
      )
