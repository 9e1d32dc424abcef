-- ===== src/Editorial/Search/Like.antt =====
-- What the pattern of a search finds: query_assets and escape_like of
-- crates/reference-core/src/editorial.rs. SQLite's LIKE and lower are parameters.
use Prim.Native.Char.{Char, code}
use Prim.Native.String.{[] as empty, ◌∷◌ as char_first, ◌++◌ as ◌<>◌}
use text.Mathlib.TextLemmas.{nil-append, cons-append}
use reference_library.Common.{
  ◌≡◌, refl, ap, ◌∙◌, String, Bool, true, false, ◌&&◌, ◌||◌, ◌==◌, Bool-cases, inl, inr, arith, not,
  if◌then◌else◌,
}
use reference_library.Common.Text.{has_char}
use reference_library.Editorial.Search.{escape_char, escape_like, search_pattern}

-- A character that means itself in a pattern of `LIKE … ESCAPE '\'`.
abbrev pub is_plain : Char → Bool
is_plain c = not (code c == b'\\' || (code c == b'%' || code c == b'_'))

-- What SQLite documents of `LIKE … ESCAPE '\'` on texts without NUL, whose characters are compared
-- by `same`, and of `lower`, which changes nothing that LIKE distinguishes.
pub record LikeLaws (same : Char → Char → Bool) (like : (pattern text : String) → Bool)
    (lower : String → String) : Type 0 where
  pub both_end : like empty empty ≡ true
  pub pattern_end :
      (d : Char) (text : String) → (code d == 0) ≡ false → like empty (char_first d text) ≡ false
  pub escaped_end :
      (c : Char) (p : String)
      → (code c == 0) ≡ false
      → like (char_first "\\" (char_first c p)) empty ≡ false
  pub escaped :
      (c d : Char) (p text : String)
      → (code c == 0) ≡ false
      → (code d == 0) ≡ false
      → like (char_first "\\" (char_first c p)) (char_first d text) ≡ same c d && like p text
  pub percent_end : (p : String) → like (char_first "%" p) empty ≡ like p empty
  pub percent :
      (d : Char) (p text : String)
      → (code d == 0) ≡ false
      → like (char_first "%" p) (char_first d text)
        ≡ like p (char_first d text) || like (char_first "%" p) text
  pub plain_end :
      (c : Char) (p : String)
      → (code c == 0) ≡ false
      → is_plain c ≡ true
      → like (char_first c p) empty ≡ false
  pub plain :
      (c d : Char) (p text : String)
      → (code c == 0) ≡ false
      → (code d == 0) ≡ false
      → is_plain c ≡ true
      → like (char_first c p) (char_first d text) ≡ same c d && like p text
  pub lowered : (p text : String) → like (lower p) (lower text) ≡ like p text

module _ (same : Char → Char → Bool) where
  abbrev pub starts_with : (search text : String) → Bool
  starts_with empty text = true
  starts_with (char_first c s) empty = false
  starts_with (char_first c s) (char_first d text) =
      let rest = starts_with s text in same c d && rest

  -- The search text begins somewhere in the text.
  abbrev pub occurs_in : (search text : String) → Bool
  occurs_in search empty = starts_with search empty
  occurs_in search (char_first d text) =
      let rest = occurs_in search text in starts_with search (char_first d text) || rest

-- A search text with its characters escaped, in front of the last wildcard.
abbrev quoted : String → String
quoted empty = char_first "%" empty
quoted (char_first c s) =
    let rest = quoted s in
    if is_plain c then char_first c rest else char_first "\\" (char_first c rest)

escape_like-plain :
    (c : Char) (s : String)
    → is_plain c ≡ true
    → escape_like (char_first c s) ≡ char_first c (escape_like s)
unfolding escape_like escape_char
escape_like-plain c s h = ground (arith, h)

escape_like-special :
    (c : Char) (s : String)
    → is_plain c ≡ false
    → escape_like (char_first c s) ≡ char_first "\\" (char_first c (escape_like s))
unfolding escape_like escape_char
escape_like-special c s h = ground (arith, h)

escape_like-quoted : (s : String) → escape_like s <> "%" ≡ quoted s
unfolding escape_like escape_char
escape_like-quoted empty = refl
escape_like-quoted (char_first c s) = elim (Bool-cases (is_plain c)) [
  | inl e ↦ rw e (
      ap (λ t. t <> "%") (escape_like-plain c s e)
      ∙ cons-append c (escape_like s) "%"
      ∙ ap (char_first c) (escape_like-quoted s))
  | inr e ↦ rw e (
      ap (λ t. t <> "%") (escape_like-special c s e)
      ∙ cons-append "\\" (char_first c (escape_like s)) "%"
      ∙ ap (char_first "\\")
          (cons-append c (escape_like s) "%" ∙ ap (char_first c) (escape_like-quoted s)))
]

search_pattern-quoted : (s : String) → search_pattern s ≡ char_first "%" (quoted s)
unfolding search_pattern
search_pattern-quoted s =
    ap (λ t. "%" <> t) (escape_like-quoted s)
    ∙ cons-append "%" empty (quoted s)
    ∙ ap (char_first "%") (nil-append (quoted s))

has_char-first :
    (c : Char) (s : String)
    → has_char 0 (char_first c s) ≡ false
    → ((code c == 0) ≡ false) × (has_char 0 s ≡ false)
has_char-first c s h = (ground (arith, h), ground (arith, h))

module _ (same : Char → Char → Bool) (like : (pattern text : String) → Bool)
    (lower : String → String) (laws : LikeLaws same like lower) where
  like-any : (text : String) → has_char 0 text ≡ false → like (char_first "%" empty) text ≡ true
  like-any empty h = laws.percent_end empty ∙ laws.both_end
  like-any (char_first d text) h =
      let (head, later) = has_char-first d text h in
      laws.percent d empty text head
      ∙ ap (λ b. b || like (char_first "%" empty) text) (laws.pattern_end d text head)
      ∙ like-any text later

  like-quoted :
      (s text : String)
      → has_char 0 s ≡ false
      → has_char 0 text ≡ false
      → like (quoted s) text ≡ starts_with same s text
  like-quoted empty text g h = like-any text h
  like-quoted (char_first c s) empty g h =
      let (first, rest) = has_char-first c s g in
      elim (Bool-cases (is_plain c)) [
        | inl e ↦ rw e (laws.plain_end c (quoted s) first e)
        | inr e ↦ rw e (laws.escaped_end c (quoted s) first)
      ]
  like-quoted (char_first c s) (char_first d text) g h =
      let (first, rest) = has_char-first c s g in
      let (head, later) = has_char-first d text h in
      let behind = ap (λ r. same c d && r) (like-quoted s text rest later) in
      elim (Bool-cases (is_plain c)) [
        | inl e ↦ rw e (laws.plain c d (quoted s) text first head e ∙ behind)
        | inr e ↦ rw e (laws.escaped c d (quoted s) text first head ∙ behind)
      ]

  like-percent :
      (s text : String)
      → has_char 0 s ≡ false
      → has_char 0 text ≡ false
      → like (char_first "%" (quoted s)) text ≡ occurs_in same s text
  like-percent s empty g h = laws.percent_end (quoted s) ∙ like-quoted s empty g h
  like-percent s (char_first d text) g h =
      let (head, later) = has_char-first d text h in
      laws.percent d (quoted s) text head
      ∙ ap (λ b. b || like (char_first "%" (quoted s)) text) (like-quoted s (char_first d text) g h)
      ∙ ap (λ b. starts_with same s (char_first d text) || b) (like-percent s text g later)

  -- Where LIKE and lower do what SQLite documents and neither text has a NUL, a lowered text is
  -- LIKE the lowered pattern of a search exactly where the search text, its wildcards taken
  -- literally, begins somewhere in the text, characters being compared as LIKE compares them.
  pub search_pattern-occurs_in :
      (search text : String)
      → has_char 0 search ≡ false
      → has_char 0 text ≡ false
      → like (lower (search_pattern search)) (lower text) ≡ occurs_in same search text
  search_pattern-occurs_in search text g h =
      laws.lowered (search_pattern search) text
      ∙ ap (λ p. like p text) (search_pattern-quoted search)
      ∙ like-percent search text g h
