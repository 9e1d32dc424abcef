-- ===== src/Editorial/Located.antt =====
-- The preferred location of an asset: the join in `asset_detail` of
-- crates/reference-core/src/editorial.rs, with `category_expression` and `display_name`. The preview
-- kind is read from the decoded `media_metadata_json`. `file_name` stands for
-- `Path::file_name` followed by `to_str`.
pub mod Joined
pub mod Preferred
pub mod Ranked
use Prim.Native.Char.{code}
use Prim.Native.String.{[] as empty, ◌∷◌ as char_first}
use reference_library.Common.{
  ℕ, ◌+◌, String, Bool, true, false, not, Option, none, some, List, [], ◌∷◌, ◌++◌, ◌&&◌, ◌||◌,
  str_eq, ltb, ◌==◌, map, if◌then◌else◌, keep_if, contains,
}
use reference_library.Common.Members.{concat_map}
use reference_library.Common.Text.{has_char}
use reference_library.Common.Order.{text_leb}
use reference_library.Database.{Db, SourceRow, SourceRevisionRow, LocationRow, RootRow}

-- A row of the join.
pub record Place : Type 0 where
  pub source : SourceRow
  pub revision : SourceRevisionRow
  pub location : LocationRow
  pub root : RootRow

abbrev pub is_current : SourceRow → SourceRevisionRow → Bool
is_current s sr = elim s.current_revision_id [ none ↦ false | some id ↦ str_eq sr.id id ]

-- `FROM asset_origins ao JOIN sources … JOIN source_revisions … JOIN locations … JOIN roots …`
unfoldable pub places : Db → String → List Place
places db asset_id =
    concat_map
      (λ ao.
        concat_map
          (λ s.
            concat_map
              (λ sr.
                concat_map
                  (λ l.
                    map (λ r. record { source = s; revision = sr; location = l; root = r })
                      (keep_if (λ r. str_eq r.id l.root_id) db.roots))
                  (keep_if (λ l. str_eq l.source_id s.id) db.locations))
              (keep_if (λ sr. is_current s sr) db.source_revisions))
          (keep_if (λ s. str_eq s.id ao.source_id) db.sources))
      (keep_if (λ ao. str_eq ao.asset_id asset_id) db.asset_origins)

-- `CASE … END AS state`
unfoldable pub availability : Place → String
availability p =
    if str_eq p.root.state "offline_volume"
    then "offline_volume"
    else if str_eq p.root.state "needs_permission"
    then "needs_permission"
    else if contains ("unavailable" ∷ "error" ∷ []) p.root.state
    then "unavailable"
    else if str_eq p.location.state "permission_denied"
    then "needs_permission"
    else if str_eq p.location.state "offline_root"
    then "offline_volume"
    else if str_eq p.location.state "moved_candidate"
    then "unavailable"
    else if str_eq p.location.state "unreadable"
    then "unreadable"
    else if str_eq p.revision.preview_kind "none"
    then "unsupported"
    else p.location.state

-- The first key of the order: a reachable place, then any other, then one whose root cannot be read.
abbrev pub root_rank : Place → ℕ
root_rank p =
    if contains ("ready" ∷ "connected" ∷ "scanning" ∷ []) p.root.state
      && str_eq p.location.state "present"
    then 0
    else if contains ("needs_permission" ∷ "offline_volume" ∷ "unavailable" ∷ "error" ∷ [])
        p.root.state
    then 2
    else 1

abbrev pub location_rank : Place → ℕ
location_rank p = if str_eq p.location.state "present" then 0 else 1

-- `ORDER BY …, l.created_at_ms, l.id`: strictly before, by the keys.
unfoldable pub key_before : (a b c : ℕ) (s : String) → (a' b' c' : ℕ) (t : String) → Bool
unfolding text_leb
key_before a b c s a' b' c' t =
    if not (a == a')
    then ltb a a'
    else if not (b == b')
    then ltb b b'
    else if not (c == c')
    then ltb c c'
    else not (text_leb t s)

unfoldable pub precedes : Place → Place → Bool
unfolding key_before
precedes p q =
    key_before (root_rank p) (location_rank p) p.location.created_at_ms p.location.id (root_rank q)
      (location_rank q) q.location.created_at_ms q.location.id

-- The row with `location_rank = 1`.
unfoldable pub first_ranked : List Place → Option Place
unfolding precedes
first_ranked [] = none
first_ranked (p ∷ ps) = elim (first_ranked ps) [
  | none ↦ some p
  | some best ↦ if precedes best p then some best else some p
]

unfoldable pub preferred_place : Db → String → Option Place
unfolding places first_ranked
preferred_place db asset_id = first_ranked (places db asset_id)

abbrev pub before_slash : String → String
before_slash empty = empty
before_slash (char_first c s) =
    let rest = before_slash s in if code c == b'/' then empty else char_first c rest

-- `category_expression`
unfoldable pub category : String → String
category path = if has_char b'/' path then before_slash path else "(Root)"

-- `display_name`
abbrev pub display_name : (String → Option String) → String → String
display_name file_name path = elim (file_name path) [ some name ↦ name | none ↦ path ]
