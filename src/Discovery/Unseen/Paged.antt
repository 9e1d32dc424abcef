-- ===== src/Discovery/Unseen/Paged.antt =====
-- The end of the loop of mark_unseen, crates/reference-core/src/discovery.rs.
use reference_library.Common.{
  ℕ, zero, suc, subst, ◌+◌, ◌≤◌, ◌<◌, ◌≡◌, refl, sym, ap, ◌∙◌, inl, inr, String, Bool, true, false,
  List, [], ◌∷◌, any, keep_if, length, take, map, All, All-take, str_eq, eq_iff, eq_refl, not, ◌&&◌,
  same_bytes, Bool-cases, List-cases, length-keep_if-le, arith,
}
use reference_library.Common.Order.{text_leb, text_leb_refl, text_leb_total, text_leb_trans}
use reference_library.Common.Sort.{sort_by, any-sort_by, All-sort_by}
use reference_library.Database.{Db, LocationRow, count_where, bump_revision}
use reference_library.Discovery.Marks.{ScanPlan}
use reference_library.Discovery.Kept.{map-update_where}
use reference_library.Discovery.Unseen.{
  is_unseen, unresolved, mark_row, mark_page, mark_pages, mark_unseen,
}

module _ {A : Type 0} where
  All-keep_if : (p : A → Bool) (xs : List A) → All (λ x. p x ≡ true) (keep_if p xs)
  All-keep_if p [] = tt
  All-keep_if p (x ∷ xs) = elim (Bool-cases (p x)) [
    | inl e ↦ rw e (e, All-keep_if p xs)
    | inr e ↦ rw e (All-keep_if p xs)
  ]

  any-take : (p : A → Bool) (n : ℕ) (xs : List A) → any p (take n xs) ≡ true → any p xs ≡ true
  any-take p zero xs h = cc
  any-take p (suc n) [] h = cc
  any-take p (suc n) (x ∷ xs) h = ground (arith, h, any-take p n xs)

  any-keep_if-true : (p q : A → Bool) (xs : List A) → any q (keep_if p xs) ≡ true → any q xs ≡ true
  any-keep_if-true p q [] h = h
  any-keep_if-true p q (x ∷ xs) h = ground (arith, h, any-keep_if-true p q xs)

  count_where-le :
      (p q : A → Bool)
      → ((x : A) → p x ≡ true → q x ≡ true)
      → (xs : List A) → count_where p xs ≤ count_where q xs
  count_where-le p q f [] = omega arith
  count_where-le p q f (x ∷ xs) = ground (arith, f x, count_where-le p q f xs)

  -- A narrower test that refuses an item counts fewer.
  count_where-lt :
      (p q : A → Bool)
      → ((x : A) → p x ≡ true → q x ≡ true)
      → (xs : List A) → any (λ x. q x && not (p x)) xs ≡ true
      → count_where p xs + 1 ≤ count_where q xs
  count_where-lt p q f [] h = cc
  count_where-lt p q f (x ∷ xs) h =
      ground (arith, h, f x, count_where-le p q f xs, count_where-lt p q f xs)

count_where-map :
    {A B : Type 0} (f : A → B) (p : B → Bool) (xs : List A)
    → count_where p (map f xs) ≡ count_where (λ x. p (f x)) xs
count_where-map f p [] = refl
count_where-map f p (x ∷ xs) = ground (arith, count_where-map f p xs)

-- What the statement tests of a location.
abbrev key : LocationRow → String × (String × List ℕ)
key l = (l.id, (l.root_id, l.relative_path))

-- The identifier of the last row of a page.
abbrev last_id : String → List LocationRow → String
last_id after_id [] = after_id
last_id after_id (row ∷ rows) = last_id row.id rows

any_last :
    (q : LocationRow → Bool) (row : LocationRow) (rows : List LocationRow)
    → All (λ l. q l ≡ true) (row ∷ rows)
    → any (λ l. q l && str_eq l.id (last_id row.id rows)) (row ∷ rows) ≡ true
any_last q row [] h = ground (arith, h.0, eq_refl row.id)
any_last q row (next ∷ rows) h = ground (arith, any_last q next rows h.1)

module _ (plan : ScanPlan) (states : List (List ℕ × String)) (directories : List (List ℕ)) where
  mark_page-last :
      (timestamp : ℕ) (rows : List LocationRow) (at : String × Db)
      → (mark_page plan states directories timestamp rows at).0 ≡ last_id at.0 rows
  unfolding mark_page
  mark_page-last timestamp [] at = refl
  mark_page-last timestamp (row ∷ rows) at =
      mark_page-last timestamp rows (row.id, mark_row plan states directories timestamp row at.1)

  mark_row-key :
      (timestamp : ℕ) (row : LocationRow) (db : Db)
      → map key (mark_row plan states directories timestamp row db).locations ≡ map key db.locations
  unfolding mark_row
  mark_row-key timestamp row db = map-update_where key _ _ (λ l. refl) db.locations

  mark_page-key :
      (timestamp : ℕ) (rows : List LocationRow) (at : String × Db)
      → map key (mark_page plan states directories timestamp rows at).1.locations
        ≡ map key at.1.locations
  unfolding mark_page
  mark_page-key timestamp [] at = refl
  mark_page-key timestamp (row ∷ rows) at =
      mark_page-key timestamp rows (row.id, mark_row plan states directories timestamp row at.1)
      ∙ mark_row-key timestamp row at.1

  module _ (seen : List (List ℕ)) where
    -- An unseen location behind the identifier.
    abbrev waits : String → LocationRow → Bool
    waits after_id l = is_unseen plan states directories seen l && not (text_leb l.id after_id)

    abbrev key_waits : String → String × (String × List ℕ) → Bool
    key_waits after_id (id, (root_id, path)) =
        (str_eq root_id plan.root_id && not (any (same_bytes path) seen))
        && not (text_leb id after_id)

    count_where-waits :
        (after_id : String) (locations others : List LocationRow)
        → map key locations ≡ map key others
        → count_where (waits after_id) locations ≡ count_where (waits after_id) others
    count_where-waits after_id locations others same =
        sym (count_where-map key (key_waits after_id) locations)
        ∙ ap (count_where (key_waits after_id)) same
        ∙ count_where-map key (key_waits after_id) others

    page_waits :
        (at : String × Db)
        → All (λ l. waits at.0 l ≡ true) (unresolved plan states directories seen at.0 at.1)
    unfolding unresolved
    page_waits at =
        All-take _ 256 _ (All-sort_by (λ l. l.id) _ _ (All-keep_if (waits at.0) at.1.locations))

    any-unresolved :
        (at : String × Db) (p : LocationRow → Bool)
        → any p (unresolved plan states directories seen at.0 at.1) ≡ true
        → any p at.1.locations ≡ true
    unfolding unresolved
    any-unresolved at p h =
        let kept = keep_if (waits at.0) at.1.locations in
        any-keep_if-true (waits at.0) p at.1.locations
          (sym (any-sort_by (λ l. l.id) p kept) ∙ any-take p 256 (sort_by (λ l. l.id) kept) h)

    any-behind :
        (last : String) (q : LocationRow → Bool) (xs : List LocationRow)
        → any (λ l. q l && str_eq l.id last) xs ≡ true
        → any (λ l. q l && not (waits last l)) xs ≡ true
    any-behind last q [] h = h
    any-behind last q (l ∷ xs) h = elim (Bool-cases (str_eq l.id last)) [
      | inl e ↦
          let le = ap (λ t. text_leb t last) ((eq_iff l.id last).0 e) ∙ text_leb_refl last in
          ground (arith, h, le, any-behind last q xs)
      | inr e ↦ ground (arith, h, e, any-behind last q xs)
    ]

    waits-before :
        (after_id last : String)
        → text_leb last after_id ≡ false
        → (l : LocationRow) → waits last l ≡ true
        → waits after_id l ≡ true
    waits-before after_id last later l h = elim (Bool-cases (text_leb l.id after_id)) [
      | inl e ↦
          let le = text_leb_trans l.id after_id last e (text_leb_total last after_id later) in
          ground (arith, h, le, e)
      | inr e ↦ ground (arith, h, e)
    ]

    last_later :
        (after_id : String) (row : LocationRow) (rows : List LocationRow)
        → All (λ l. waits after_id l ≡ true) (row ∷ rows)
        → text_leb (last_id row.id rows) after_id ≡ false
    last_later after_id row [] h = ground (arith, h.0)
    last_later after_id row (next ∷ rows) h = last_later after_id next rows h.1

    -- A page that is not empty leaves fewer unseen locations behind its last row.
    fewer :
        (timestamp : ℕ) (at : String × Db) (row : LocationRow) (rows : List LocationRow)
        → unresolved plan states directories seen at.0 at.1 ≡ row ∷ rows
        → count_where
              (waits (mark_page plan states directories timestamp (row ∷ rows) at).0)
              (mark_page plan states directories timestamp (row ∷ rows) at).1.locations
            + 1
          ≤ count_where (waits at.0) at.1.locations
    fewer timestamp at row rows e =
        let last = last_id row.id rows in
        let page = subst (All (λ l. waits at.0 l ≡ true)) e (page_waits at) in
        let found =
          any-unresolved at (λ l. waits at.0 l && str_eq l.id last)
            (ap (any (λ l. waits at.0 l && str_eq l.id last)) e
              ∙ any_last (waits at.0) row rows page) in
        let drop =
          count_where-lt (waits last) (waits at.0)
            (waits-before at.0 last (last_later at.0 row rows page)) at.1.locations
            (any-behind last (waits at.0) at.1.locations found) in
        let same =
          count_where-waits last
            (mark_page plan states directories timestamp (row ∷ rows) at).1.locations at.1.locations
            (mark_page-key timestamp (row ∷ rows) at) in
        rw (mark_page-last timestamp (row ∷ rows) at, same) drop

    more_fuel :
        (timestamp : ℕ) (fuel : ℕ) (at : String × Db)
        → count_where (waits at.0) at.1.locations < fuel
        → mark_pages plan states directories seen timestamp (suc fuel) at
          ≡ mark_pages plan states directories seen timestamp fuel at
    unfolding mark_pages
    more_fuel timestamp zero at h = absurd (omega (arith, h))
    more_fuel timestamp (suc fuel) at h =
        elim (List-cases (unresolved plan states directories seen at.0 at.1)) [
          | inl e ↦ rw (mark_pages, e) refl
          | inr (row, rows, e) ↦
              rw (mark_pages, e)
                (more_fuel timestamp fuel
                  (mark_page plan states directories timestamp (row ∷ rows) at)
                  (omega (arith, h, fewer timestamp at row rows e)))
        ]

    enough_fuel :
        (timestamp : ℕ) (more fuel : ℕ) (at : String × Db)
        → count_where (waits at.0) at.1.locations < fuel
        → mark_pages plan states directories seen timestamp (more + fuel) at
          ≡ mark_pages plan states directories seen timestamp fuel at
    enough_fuel timestamp zero fuel at h = let h0 : zero + fuel ≡ fuel = omega arith in rw h0 refl
    enough_fuel timestamp (suc more) fuel at h =
        let next : suc more + fuel ≡ suc (more + fuel) = omega arith in
        rw next (
          more_fuel timestamp (more + fuel) at (omega (arith, h))
          ∙ enough_fuel timestamp more fuel at h)

    -- Marking what a scan has not seen leaves the same tables with any larger number of pages
    -- than the locations and one more, so that its loop has come to the empty page.
    pub mark_unseen-exhausted :
        (timestamp : ℕ) (db : Db) (more : ℕ)
        → mark_unseen plan states directories seen timestamp db
          ≡ bump_revision timestamp (
              mark_pages plan states directories seen timestamp
                (more + (length db.locations + 1))
                ("", db))
    unfolding mark_unseen
    mark_unseen-exhausted timestamp db more = ap (bump_revision timestamp) (
        sym (
          enough_fuel timestamp more (length db.locations + 1) ("", db)
            (omega (arith, length-keep_if-le (waits "") db.locations))))
