-- ===== src/Editorial/Collections/Rows.antt =====
-- On the collection rows under the statements of crates/reference-core/src/editorial.rs.
use reference_library.Common.{
  ℕ, ◌+◌, ◌++◌, ◌≤◌, ◌≡◌, refl, String, Bool, true, false, ◌&&◌, some, List, [], ◌∷◌, str_eq,
  eq_iff, ◌==◌, any, keep_if, length, Apart, any-false, arith, Bool-cases, inl, inr,
}
use reference_library.Common.Text.{eq_ignore_ascii_case, eq_ignore_ascii_case_sym}
use reference_library.Database.{CollectionRow, update_where}
use reference_library.Editorial.Collections.{conflicts, is_collection, rename_row}

abbrev pub same_id : CollectionRow → CollectionRow → Bool
same_id c d = str_eq c.id d.id

-- One Library, one name: equal up to the case of ASCII letters.
abbrev pub same_name : CollectionRow → CollectionRow → Bool
same_name c d = str_eq c.library_id d.library_id && eq_ignore_ascii_case c.name d.name

any-update_where {ℓ} :
    {A : Type ℓ} (p : A → Bool) (f : A → A) (q s : A → Bool) (xs : List A)
    → any q xs ≡ false
    → any s xs ≡ false
    → ((x : A) → s x ≡ false → p x ≡ true → q (f x) ≡ false)
    → any q (update_where p f xs) ≡ false
any-update_where p f q s [] h k g = refl
any-update_where p f q s (x ∷ xs) h k g = ground (arith, g x, any-update_where p f q s xs)

-- An update where no row satisfies the condition changes nothing.
update_where_none {ℓ} :
    {A : Type ℓ} (p : A → Bool) (f : A → A) (xs : List A)
    → any p xs ≡ false
    → update_where p f xs ≡ xs
update_where_none p f [] h = refl
update_where_none p f (x ∷ xs) h = ground (arith, update_where_none p f xs)

module _ (library_id collection_id : String) (expected : ℕ) (name : String) (timestamp : ℕ) where
  abbrev pub renames : CollectionRow → Bool
  renames c = is_collection library_id collection_id c && c.revision == expected

  abbrev pub renamed : List CollectionRow → List CollectionRow
  renamed = update_where renames (rename_row name timestamp)

  pub renamed-same_id : (cs : List CollectionRow) → Apart same_id cs → Apart same_id (renamed cs)
  unfolding rename_row
  renamed-same_id [] a = tt
  renamed-same_id (c ∷ cs) a = elim (Bool-cases (renames c)) [
    | inl hit ↦ rw hit (
      any-update_where renames (rename_row name timestamp) (same_id c) (same_id c) cs a.0 a.0
          (λ d h k. h),
      renamed-same_id cs a.1,
    )
    | inr miss ↦ rw miss (
      any-update_where renames (rename_row name timestamp) (same_id c) (same_id c) cs a.0 a.0
          (λ d h k. h),
      renamed-same_id cs a.1,
    )
  ]

  pub renamed-same_name :
      (cs : List CollectionRow)
      → any (conflicts library_id (some collection_id) name) cs ≡ false
      → Apart same_id cs
      → Apart same_name cs
      → Apart same_name (renamed cs)
  unfolding rename_row
  renamed-same_name [] free ids names = tt
  renamed-same_name (c ∷ cs) free ids names = elim (Bool-cases (renames c)) [
    | inl hit ↦
        let rest : any renames cs ≡ false =
          any-false (same_id c) (same_id c) renames cs ids.0 ids.0 (λ d h k.
            ground
              (arith, eq_iff c.id d.id, eq_iff c.id collection_id, eq_iff d.id collection_id)) in
        rw (hit, update_where_none renames (rename_row name timestamp) cs rest)
          (
            any-false (same_id c) (conflicts library_id (some collection_id) name)
                (same_name (rename_row name timestamp c)) cs ids.0 (ground arith)
                (λ d h k. ground (
                  arith,
                  eq_iff c.id d.id,
                  eq_iff c.id collection_id,
                  eq_iff d.id collection_id,
                  eq_iff c.library_id d.library_id,
                  eq_iff c.library_id library_id,
                  eq_iff d.library_id library_id,
                  eq_ignore_ascii_case_sym name d.name,
                )),
            names.1,
          )
    | inr miss ↦ rw miss (
      any-update_where renames (rename_row name timestamp) (same_name c) (same_id c) cs names.0
          ids.0
          (λ d h k. ground (
            arith,
            free,
            eq_iff c.id d.id,
            eq_iff c.id collection_id,
            eq_iff d.id collection_id,
            eq_iff c.library_id d.library_id,
            eq_iff c.library_id library_id,
            eq_iff d.library_id library_id,
          )),
      renamed-same_name cs (ground arith) ids.1 names.1,
    )
  ]

-- Rows that a deletion leaves are pairwise as they were.
any-keep_if {ℓ} :
    {A : Type ℓ} (p q : A → Bool) (xs : List A) → any q xs ≡ false → any q (keep_if p xs) ≡ false
any-keep_if p q [] h = refl
any-keep_if p q (x ∷ xs) h = ground (arith, any-keep_if p q xs)

pub keep_if-Apart {ℓ} :
    {A : Type ℓ} (p : A → Bool) (r : A → A → Bool) (xs : List A)
    → Apart r xs
    → Apart r (keep_if p xs)
keep_if-Apart p r [] a = tt
keep_if-Apart p r (x ∷ xs) a = elim (Bool-cases (p x)) [
  | inl e ↦ rw e (any-keep_if p (r x) xs a.0, keep_if-Apart p r xs a.1)
  | inr e ↦ rw e (keep_if-Apart p r xs a.1)
]

-- The number of rows in a Library.
abbrev pub in_library : String → CollectionRow → Bool
in_library library_id c = str_eq c.library_id library_id

pub count-keep_if-le :
    (p q : CollectionRow → Bool) (cs : List CollectionRow)
    → length (keep_if q (keep_if p cs)) ≤ length (keep_if q cs)
count-keep_if-le p q [] = omega arith
count-keep_if-le p q (c ∷ cs) = ground (arith, count-keep_if-le p q cs)

pub count-renamed :
    (library_id collection_id : String) (expected : ℕ) (name : String) (timestamp : ℕ)
    (library : String) (cs : List CollectionRow)
    → length
        (keep_if (in_library library) (renamed library_id collection_id expected name timestamp cs))
      ≡ length (keep_if (in_library library) cs)
unfolding rename_row
count-renamed library_id collection_id expected name timestamp library [] = refl
count-renamed library_id collection_id expected name timestamp library (c ∷ cs) =
    ground (arith, count-renamed library_id collection_id expected name timestamp library cs)

pub count-append :
    (q : CollectionRow → Bool) (cs ds : List CollectionRow)
    → length (keep_if q (cs ++ ds)) ≡ length (keep_if q cs) + length (keep_if q ds)
count-append q [] ds = omega arith
count-append q (c ∷ cs) ds = ground (arith, count-append q cs ds)
