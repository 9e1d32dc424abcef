-- ===== src/Editorial/Located/Joined.antt =====
-- The rows that the join of asset_detail, crates/reference-core/src/editorial.rs, finds.
use mathlib.Core.List.{Memᴰ}
use mathlib.Core.List.Memᴰ
use reference_library.Common.{
  ◌≡◌, sym, ap, subst, arith, ◌∙◌, String, true, Option-cases, inl, inr, some, eq_iff, eq_refl,
  str_eq,
}
use reference_library.Common.Members.{
  Memᴰ-concat_map, Memᴰ_of_concat_map, Memᴰ-keep_if, Memᴰ_of_keep_if,
}
use reference_library.Database.{Db, OriginRow, SourceRow, SourceRevisionRow}
use reference_library.Editorial.Located.{Place, places, is_current}

-- The rows of a place are in the tables, and each refers to the next by its key: an origin of the
-- asset to the source, the source to its current revision, the location to the source and to its
-- root.
pub record IsPlace (db : Db) (asset_id : String) (p : Place) : Type 0 where
  pub origin : OriginRow
  pub origin_row : Memᴰ origin db.asset_origins
  pub of_asset : origin.asset_id ≡ asset_id
  pub source_row : Memᴰ p.source db.sources
  pub of_origin : p.source.id ≡ origin.source_id
  pub revision_row : Memᴰ p.revision db.source_revisions
  pub is_current : p.source.current_revision_id ≡ some p.revision.id
  pub location_row : Memᴰ p.location db.locations
  pub of_source : p.location.source_id ≡ p.source.id
  pub root_row : Memᴰ p.root db.roots
  pub of_location : p.root.id ≡ p.location.root_id

same_text : {s t : String} → s ≡ t → str_eq s t ≡ true
same_text {s = s} {t = t} e = (eq_iff s t).1 e

current_of :
    (s : SourceRow) (r : SourceRevisionRow)
    → s.current_revision_id ≡ some r.id
    → is_current s r ≡ true
current_of s r e = rw e (eq_refl r.id)

of_current :
    (s : SourceRow) (r : SourceRevisionRow)
    → is_current s r ≡ true
    → s.current_revision_id ≡ some r.id
of_current s r h = elim (Option-cases s.current_revision_id) [
  | inl e ↦ ground (arith, e, h)
  | inr (id, e) ↦ e ∙ ap some (sym ((eq_iff r.id id).0 (rw e at h)))
]

pub IsPlace-places :
    (db : Db) (asset_id : String) (p : Place) → IsPlace db asset_id p → Memᴰ p (places db asset_id)
unfolding places
IsPlace-places db asset_id p h =
    Memᴰ-concat_map _ (Memᴰ-keep_if _ h.origin_row (same_text h.of_asset)) (
      Memᴰ-concat_map _ (Memᴰ-keep_if _ h.source_row (same_text h.of_origin)) (
        Memᴰ-concat_map _
          (Memᴰ-keep_if _ h.revision_row (current_of p.source p.revision h.is_current))
          (Memᴰ-concat_map _ (Memᴰ-keep_if _ h.location_row (same_text h.of_source))
            (Memᴰ.map _ (Memᴰ-keep_if _ h.root_row (same_text h.of_location))))))

pub places-IsPlace :
    (db : Db) (asset_id : String) (p : Place) → Memᴰ p (places db asset_id) → IsPlace db asset_id p
unfolding places
places-IsPlace db asset_id p m =
    let (origin, by_asset, m1) = Memᴰ_of_concat_map _ _ m in
    let (source, by_origin, m2) = Memᴰ_of_concat_map _ _ m1 in
    let (revision, currents, m3) = Memᴰ_of_concat_map _ _ m2 in
    let (location, by_source, m4) = Memᴰ_of_concat_map _ _ m3 in
    let (root, by_location, same) = Memᴰ.of_map _ _ m4 in
    let (origin_row, of_asset) = Memᴰ_of_keep_if _ _ by_asset in
    let (source_row, of_origin) = Memᴰ_of_keep_if _ _ by_origin in
    let (revision_row, is_latest) = Memᴰ_of_keep_if _ _ currents in
    let (location_row, of_source) = Memᴰ_of_keep_if _ _ by_source in
    let (root_row, of_location) = Memᴰ_of_keep_if _ _ by_location in
    subst (IsPlace db asset_id) same (record {
      origin = origin;
      origin_row = origin_row;
      of_asset = (eq_iff _ _).0 of_asset;
      source_row = source_row;
      of_origin = (eq_iff _ _).0 of_origin;
      revision_row = revision_row;
      is_current = of_current source revision is_latest;
      location_row = location_row;
      of_source = (eq_iff _ _).0 of_source;
      root_row = root_row;
      of_location = (eq_iff _ _).0 of_location;
    })
