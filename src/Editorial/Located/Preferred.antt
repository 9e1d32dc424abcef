-- ===== src/Editorial/Located/Preferred.antt =====
-- The preferred place in asset_detail of crates/reference-core/src/editorial.rs.
use mathlib.Core.List.{Memᴰ}
use mathlib.Core.List.Memᴰ
use reference_library.Common.{
  Bool, if◌then◌else◌, ◌⊎◌, contains, ◌==◌, ◌&&◌, ◌<◌, str_eq, eq_iff, ap, ℕ, ◌≡◌, refl, subst,
  String, true, false, some, List, [], ◌∷◌, arith, Bool-cases, Option-cases, inl, inr,
}
use reference_library.Common.Order.{text_leb}
use reference_library.Common.Members.{any-Memᴰ}
use reference_library.Database.{Db}
use reference_library.Editorial.Located.Joined.{IsPlace, IsPlace-places, places-IsPlace}
use reference_library.Editorial.Located.{
  Place, key_before, precedes, first_ranked, places, preferred_place, root_rank, location_rank,
}
use reference_library.Editorial.Located.Ranked.{
  first_ranked-none, first_ranked-first, first_ranked-among,
}

-- The root can be read and the file is in its place.
abbrev pub is_reachable : Place → Bool
is_reachable p =
    contains ("ready" ∷ "connected" ∷ "scanning" ∷ []) p.root.state
    && str_eq p.location.state "present"

-- The root cannot be read.
abbrev pub is_barred : Place → Bool
is_barred p =
    contains ("needs_permission" ∷ "offline_volume" ∷ "unavailable" ∷ "error" ∷ []) p.root.state

abbrev pub is_present : Place → Bool
is_present p = str_eq p.location.state "present"

pub record SameReach (p q : Place) : Type 0 where
  pub reachable : is_reachable p ≡ is_reachable q
  pub barred : is_barred p ≡ is_barred q

-- Why a place is not behind another.
pub data NotBehind (best p : Place) : Type 0 where
  only_reachable : is_reachable best ≡ true → is_reachable p ≡ false → NotBehind best p
  not_barred : is_barred best ≡ false → is_barred p ≡ true → NotBehind best p
  only_present : SameReach best p → is_present best ≡ true → is_present p ≡ false → NotBehind best p
  older :
      SameReach best p
      → is_present best ≡ is_present p
      → best.location.created_at_ms < p.location.created_at_ms
      → NotBehind best p
  by_id :
      SameReach best p
      → is_present best ≡ is_present p
      → best.location.created_at_ms ≡ p.location.created_at_ms
      → text_leb best.location.id p.location.id ≡ true
      → NotBehind best p

one_list :
    (xs : List String) (k s : String)
    → contains xs k ≡ false
    → contains xs s ≡ true
    → str_eq k s ≡ false
one_list xs k s out among = elim (Bool-cases (str_eq k s)) [
  | inr e ↦ e
  | inl e ↦ let same = ap (contains xs) ((eq_iff k s).0 e) in cc
]

-- A place whose root cannot be read is not reachable.
barred_unreachable : (p : Place) → is_barred p ≡ true → is_reachable p ≡ false
barred_unreachable p h =
    let barred = "needs_permission" ∷ "offline_volume" ∷ "unavailable" ∷ "error" ∷ [] in
    let ready = one_list barred "ready" p.root.state refl h in
    let connected = one_list barred "connected" p.root.state refl h in
    let scanning = one_list barred "scanning" p.root.state refl h in
    rw (ready, connected, scanning) refl

-- The first key, of what it tests.
abbrev rank : (is_reachable is_barred : Bool) → ℕ
rank reachable barred = if reachable then 0 else if barred then 2 else 1

rank_lt :
    (r b r' b' : Bool)
    → rank r b < rank r' b'
    → ((r ≡ true) × (r' ≡ false)) ⊎ ((b ≡ false) × (b' ≡ true))
rank_lt true b true b' h = absurd (omega (arith, h))
rank_lt true b false b' h = inl (refl, refl)
rank_lt false b true b' h = absurd (ground (arith, h))
rank_lt false false false b' h = inr (refl, ground (arith, h))
rank_lt false true false b' h = absurd (ground (arith, h))

rank_eq :
    (r b r' b' : Bool)
    → (b ≡ true → r ≡ false)
    → (b' ≡ true → r' ≡ false)
    → rank r b ≡ rank r' b'
    → (r ≡ r') × (b ≡ b')
rank_eq r b r' b' f g h = (ground (arith, h), ground (arith, f, g, h))

rank_before : (best p : Place) → root_rank best < root_rank p → NotBehind best p
rank_before best p h =
    elim (rank_lt (is_reachable best) (is_barred best) (is_reachable p) (is_barred p) h) [
      | inl (reachable, other) ↦ NotBehind.only_reachable reachable other
      | inr (free, barred) ↦ NotBehind.not_barred free barred
    ]

rank_same : (best p : Place) → root_rank best ≡ root_rank p → SameReach best p
rank_same best p h =
    let (reachable, barred) =
      rank_eq (is_reachable best) (is_barred best) (is_reachable p) (is_barred p)
        (barred_unreachable best) (barred_unreachable p) h in
    record { reachable = reachable; barred = barred }

-- The keys of a row that is not before another.
key_order :
    (a b c : ℕ) (s : String) (a' b' c' : ℕ) (t : String)
    → key_before a b c s a' b' c' t ≡ false
    → (a' < a)
      ⊎ ((a' ≡ a) × ((b' < b) ⊎ ((b' ≡ b) × ((c' < c) ⊎ ((c' ≡ c) × (text_leb t s ≡ true))))))
unfolding key_before
key_order a b c s a' b' c' t h = elim (Bool-cases (a == a')) [
  | inr e ↦ inl (ground (arith, e, h))
  | inl e ↦ inr (
    ground (arith, e),
    elim (Bool-cases (b == b')) [
      | inr f ↦ inl (ground (arith, e, f, h))
      | inl f ↦ inr (
        ground (arith, f),
        elim (Bool-cases (c == c')) [
          | inr g ↦ inl (ground (arith, e, f, g, h))
          | inl g ↦ inr (ground (arith, g), ground (arith, e, f, g, h))
        ],
      )
    ],
  )
]

abbrev present_rank : (is_present : Bool) → ℕ
present_rank present = if present then 0 else 1

present_lt :
    (present other : Bool)
    → present_rank present < present_rank other
    → (present ≡ true) × (other ≡ false)
present_lt present other h = (ground (arith, h), ground (arith, h))

present_eq : (present other : Bool) → present_rank present ≡ present_rank other → present ≡ other
present_eq present other h = ground (arith, h)

precedes-NotBehind : (best p : Place) → precedes p best ≡ false → NotBehind best p
unfolding precedes
precedes-NotBehind best p h =
    elim (key_order (root_rank p) (location_rank p) p.location.created_at_ms p.location.id
      (root_rank best) (location_rank best) best.location.created_at_ms best.location.id h) [
        | inl lower ↦ rank_before best p lower
        | inr (e, inl lower) ↦
            let (there, gone) = present_lt (is_present best) (is_present p) lower in
            NotBehind.only_present (rank_same best p e) there gone
        | inr (e, inr (f, inl earlier)) ↦
            NotBehind.older (rank_same best p e) (present_eq (is_present best) (is_present p) f)
              earlier
        | inr (e, inr (f, inr (g, least))) ↦
            NotBehind.by_id (rank_same best p e) (present_eq (is_present best) (is_present p) f) g
              least
      ]

-- Where an asset has a place in the tables, a place is preferred, which is a place of the asset
-- in the tables too and is not behind the other in the order of the statement: reachable places
-- come first and those in a root that cannot be read last, then those that are present, then the
-- older ones, then the lesser identifiers.
pub preferred_place-first :
    (db : Db) (asset_id : String) (p : Place)
    → IsPlace db asset_id p
    → (best : Place) × (preferred_place db asset_id ≡ some best)
      × IsPlace db asset_id best
      × NotBehind best p
unfolding preferred_place
preferred_place-first db asset_id p h =
    let among = IsPlace-places db asset_id p h in
    elim (Option-cases (first_ranked (places db asset_id))) [
      | inl e ↦
          absurd (Memᴰ.not-nil (subst (Memᴰ p) (first_ranked-none (places db asset_id) e) among))
      | inr (best, e) ↦ (
        best,
        e,
        places-IsPlace db asset_id best (first_ranked-among (places db asset_id) best e),
        precedes-NotBehind best p (
            any-Memᴰ (λ q. precedes q best) (first_ranked-first (places db asset_id) best e) among),
      )
    ]
