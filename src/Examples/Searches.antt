-- ===== src/Examples/Searches.antt =====
-- A LIKE and a lower that fold ASCII letters, and a search with wildcards in its text.
use Prim.Native.Nat.{Ordering, compare}
use Prim.Native.Char.{Char, char, code, IsScalar}
use Prim.Native.String.{[] as empty, ◌∷◌ as char_first}
use reference_library.Common.{
  ℕ, ◌+◌, ◌≡◌, refl, ap, ◌∙◌, String, Bool, true, false, ◌&&◌, ◌||◌, ◌⊎◌, ◌==◌, leb, if◌then◌else◌,
  Bool-cases, inl, inr, arith,
}
use reference_library.Common.Text.{is_empty, lower_code}
use reference_library.Editorial.Search.{search_pattern}
use reference_library.Editorial.Search.Like.{
  LikeLaws, is_plain, occurs_in, search_pattern-occurs_in,
}

abbrev same : Char → Char → Bool
same c d = lower_code (code c) == lower_code (code d)

-- What `%` does before the rest of a pattern.
abbrev anywhere : (rest : String → Bool) → String → Bool
anywhere rest empty = rest empty
anywhere rest (char_first d text) =
    let later = anywhere rest text in rest (char_first d text) || later

abbrev one_of : (matches : Char → Bool) → (rest : String → Bool) → String → Bool
one_of matches rest empty = false
one_of matches rest (char_first d text) = matches d && rest text

-- The pattern, behind an escape or not.
abbrev like_from : Bool → (pattern text : String) → Bool
like_from true empty = λ text. false
like_from true (char_first c p) = one_of (same c) (like_from false p)
like_from false empty = is_empty
like_from false (char_first c p) =
    let escaped = like_from true p in
    let rest = like_from false p in
    if code c == b'\\'
    then escaped
    else if code c == b'%'
    then anywhere rest
    else if code c == b'_'
    then one_of (λ d. true) rest
    else one_of (same c) rest

abbrev like : (pattern text : String) → Bool
like = like_from false

abbrev is_upper : ℕ → Bool
is_upper n = leb b'A' n && leb n b'Z'

IsScalar-letter : (n : ℕ) → is_upper n ≡ true → IsScalar (n + 32)
IsScalar-letter n h =
    let below : compare (n + 32) 55296 ≡ Ordering.lt = ground (arith, h) in rw below tt

abbrev lower_if : (c : Char) → (is_upper (code c) ≡ true) ⊎ (is_upper (code c) ≡ false) → Char
lower_if c (inl e) = char (code c + 32) (IsScalar-letter (code c) e)
lower_if c (inr e) = c

abbrev lower_char : Char → Char
lower_char c = lower_if c (Bool-cases (is_upper (code c)))

abbrev lower : String → String
lower empty = empty
lower (char_first c s) = char_first (lower_char c) (lower s)

code-lower_if :
    (c : Char) (d : (is_upper (code c) ≡ true) ⊎ (is_upper (code c) ≡ false))
    → code (lower_if c d) ≡ lower_code (code c)
unfolding lower_code
code-lower_if c (inl e) = rw e refl
code-lower_if c (inr e) = rw e refl

code-lower_char : (c : Char) → code (lower_char c) ≡ lower_code (code c)
code-lower_char c = code-lower_if c (Bool-cases (is_upper (code c)))

lower_code_twice : (n : ℕ) → lower_code (lower_code n) ≡ lower_code n
unfolding lower_code
lower_code_twice n = ground arith

same_lower : (c d : Char) → same (lower_char c) (lower_char d) ≡ same c d
same_lower c d =
    rw (code-lower_char c, code-lower_char d, lower_code_twice (code c), lower_code_twice (code d))
      refl

-- A code that no letter becomes or is.
lower_code_other :
    (k n : ℕ)
    → (leb b'A' k && leb k b'Z') ≡ false
    → (leb b'a' k && leb k b'z') ≡ false
    → (lower_code n == k) ≡ (n == k)
unfolding lower_code
lower_code_other k n f g = ground (arith, f, g)

anywhere-lower :
    (f g : String → Bool)
    → ((t : String) → f (lower t) ≡ g t)
    → (t : String) → anywhere f (lower t) ≡ anywhere g t
anywhere-lower f g h empty = h empty
anywhere-lower f g h (char_first d t) = rw (h (char_first d t), anywhere-lower f g h t) refl

one_of-lower :
    (m n : Char → Bool) (f g : String → Bool)
    → ((d : Char) → m (lower_char d) ≡ n d)
    → ((t : String) → f (lower t) ≡ g t)
    → (t : String) → one_of m f (lower t) ≡ one_of n g t
one_of-lower m n f g k h empty = refl
one_of-lower m n f g k h (char_first d t) = rw (k d, h t) refl

like_from-lower :
    (escaped : Bool) (p t : String) → like_from escaped (lower p) (lower t) ≡ like_from escaped p t
like_from-lower true empty t = refl
like_from-lower true (char_first c p) t =
    one_of-lower (same (lower_char c)) (same c) (like_from false (lower p)) (like_from false p)
      (same_lower c) (like_from-lower false p) t
like_from-lower false empty empty = refl
like_from-lower false empty (char_first d t) = refl
like_from-lower false (char_first c p) t =
    let backslash =
      ap (λ n. n == b'\\') (code-lower_char c) ∙ lower_code_other b'\\' (code c) refl refl in
    let percent =
      ap (λ n. n == b'%') (code-lower_char c) ∙ lower_code_other b'%' (code c) refl refl in
    let underscore =
      ap (λ n. n == b'_') (code-lower_char c) ∙ lower_code_other b'_' (code c) refl refl in
    elim (Bool-cases (code c == b'\\')) [
      | inl e ↦ rw (backslash, e) (like_from-lower true p t)
      | inr e ↦ elim (Bool-cases (code c == b'%')) [
        | inl f ↦
            rw (backslash, e, percent, f)
              (anywhere-lower (like_from false (lower p)) (like_from false p)
                (like_from-lower false p) t)
        | inr f ↦ elim (Bool-cases (code c == b'_')) [
          | inl g ↦
              rw (backslash, e, percent, f, underscore, g)
                (one_of-lower (λ d. true) (λ d. true) (like_from false (lower p))
                  (like_from false p) (λ d. refl) (like_from-lower false p) t)
          | inr g ↦
              rw (backslash, e, percent, f, underscore, g)
                (one_of-lower (same (lower_char c)) (same c) (like_from false (lower p))
                  (like_from false p) (same_lower c) (like_from-lower false p) t)
        ]
      ]
    ]

like_plain :
    (c : Char) (p : String) → is_plain c ≡ true → like (char_first c p) ≡ one_of (same c) (like p)
like_plain c p h =
    let backslash : (code c == b'\\') ≡ false = ground (arith, h) in
    let percent : (code c == b'%') ≡ false = ground (arith, h) in
    let underscore : (code c == b'_') ≡ false = ground (arith, h) in
    rw (backslash, percent, underscore) refl

laws : LikeLaws same like lower
laws = record {
  both_end = refl;
  pattern_end = λ d text n. refl;
  escaped_end = λ c p n. refl;
  escaped = λ c d p text n m. refl;
  percent_end = λ p. refl;
  percent = λ d p text n. refl;
  plain_end = λ c p n h. ap (λ m. m empty) (like_plain c p h);
  plain = λ c d p text n k h. ap (λ m. m (char_first d text)) (like_plain c p h);
  lowered = like_from-lower false;
}

search_pattern-occurs_in_example :
    like (lower (search_pattern "50%_\\Elm")) (lower "at 50%_\\eLM.png")
    ≡ occurs_in same "50%_\\Elm" "at 50%_\\eLM.png"
search_pattern-occurs_in_example =
    search_pattern-occurs_in same like lower laws "50%_\\Elm" "at 50%_\\eLM.png" refl refl
