-- ===== src/Editorial/Located/Ranked.antt =====
-- The first row by the order of the places in asset_detail, crates/reference-core/src/editorial.rs.
use mathlib.Core.List.{Memᴰ}
use reference_library.Common.{
  sym, ℕ, ◌≡◌, refl, subst, String, true, false, none, some, List, [], ◌∷◌, any, any-false, arith,
  Bool-cases, Option-cases, inl, inr,
}
use reference_library.Common.Order.{text_leb_refl, text_leb_trans, text_leb_total}
use reference_library.Editorial.Located.{
  Place, key_before, precedes, first_ranked, root_rank, location_rank,
}

key_before_irrefl : (a b c : ℕ) (s : String) → key_before a b c s a b c s ≡ false
unfolding key_before
key_before_irrefl a b c s = ground (arith, text_leb_refl s)

key_before_asym :
    (a b c : ℕ) (s : String) (a' b' c' : ℕ) (t : String)
    → key_before a b c s a' b' c' t ≡ true
    → key_before a' b' c' t a b c s ≡ false
unfolding key_before
key_before_asym a b c s a' b' c' t h = ground (arith, h, text_leb_total t s)

key_before_not_trans :
    (a b c : ℕ) (s : String) (a' b' c' : ℕ) (t : String) (a'' b'' c'' : ℕ) (u : String)
    → key_before a b c s a' b' c' t ≡ false
    → key_before a' b' c' t a'' b'' c'' u ≡ false
    → key_before a b c s a'' b'' c'' u ≡ false
unfolding key_before
key_before_not_trans a b c s a' b' c' t a'' b'' c'' u h k =
    ground (arith, h, k, text_leb_trans u t s)

pub first_ranked-none : (ps : List Place) → first_ranked ps ≡ none → ps ≡ []
unfolding first_ranked
first_ranked-none [] h = refl
first_ranked-none (p ∷ ps) h = elim (Option-cases (first_ranked ps)) [
  | inl e ↦ ground (arith, e, h)
  | inr (best, e) ↦ ground (arith, e, h)
]

precedes_irrefl : (p : Place) → precedes p p ≡ false
unfolding precedes
precedes_irrefl p =
    key_before_irrefl (root_rank p) (location_rank p) p.location.created_at_ms p.location.id

precedes_asym : (p q : Place) → precedes p q ≡ true → precedes q p ≡ false
unfolding precedes
precedes_asym p q h =
    key_before_asym (root_rank p) (location_rank p) p.location.created_at_ms p.location.id
      (root_rank q) (location_rank q) q.location.created_at_ms q.location.id h

precedes_not_trans :
    (p q r : Place) → precedes p q ≡ false → precedes q r ≡ false → precedes p r ≡ false
unfolding precedes
precedes_not_trans p q r h k =
    key_before_not_trans (root_rank p) (location_rank p) p.location.created_at_ms p.location.id
      (root_rank q) (location_rank q) q.location.created_at_ms q.location.id (root_rank r)
      (location_rank r) r.location.created_at_ms r.location.id h k

-- What stands before `best` in a longer list.
none_before :
    (p best : Place) (ps : List Place)
    → precedes p best ≡ false
    → any (λ q. precedes q best) ps ≡ false
    → any (λ q. precedes q best) (p ∷ ps) ≡ false
none_before p best ps h k = ground (arith, h, k)

pub first_ranked-first :
    (ps : List Place) (best : Place)
    → first_ranked ps ≡ some best
    → any (λ p. precedes p best) ps ≡ false
unfolding first_ranked
first_ranked-first [] best h = refl
first_ranked-first (p ∷ ps) best h = elim (Option-cases (first_ranked ps)) [
  | inl e ↦
      let same : p ≡ best = ground (arith, e, h) in
      subst (λ x. any (λ q. precedes q x) (p ∷ ps) ≡ false) same
        (none_before p p ps (precedes_irrefl p) (rw (first_ranked-none ps e) refl))
  | inr (b, e) ↦ elim (Bool-cases (precedes b p)) [
    | inl earlier ↦
        let same : b ≡ best = ground (arith, e, earlier, h) in
        subst (λ x. any (λ q. precedes q x) (p ∷ ps) ≡ false) same
          (none_before p b ps (precedes_asym b p earlier) (first_ranked-first ps b e))
    | inr later ↦
        let same : p ≡ best = ground (arith, e, later, h) in
        let rest = first_ranked-first ps b e in
        subst (λ x. any (λ q. precedes q x) (p ∷ ps) ≡ false) same
          (none_before p p ps (precedes_irrefl p) (
            any-false (λ q. precedes q b) (λ q. precedes q b) (λ q. precedes q p) ps rest rest
              (λ q h1 h2. precedes_not_trans q b p h1 later)))
  ]
]

pub first_ranked-among :
    (ps : List Place) (best : Place) → first_ranked ps ≡ some best → Memᴰ best ps
unfolding first_ranked
first_ranked-among [] best h = cc
first_ranked-among (p ∷ ps) best h = elim (Option-cases (first_ranked ps)) [
  | inl e ↦ let same : p ≡ best = ground (arith, e, h) in Memᴰ.head (sym same)
  | inr (b, e) ↦ elim (Bool-cases (precedes b p)) [
    | inl earlier ↦
        let same : b ≡ best = ground (arith, e, earlier, h) in
        Memᴰ.tail (first_ranked-among ps best (rw (sym same) e))
    | inr later ↦ let same : p ≡ best = ground (arith, e, later, h) in Memᴰ.head (sym same)
  ]
]
