-- ===== src/Common/Text.antt =====
-- What the crates use of Rust's `str`: characters, trimming, ASCII case.
use Prim.Native.Nat.{ℕ, suc, ◌+◌, ◌≤◌}
use Prim.Native.Char.{code}
use Prim.Native.String.{String, [], ◌∷◌}
use mathlib.Core.Path.{◌≡◌, refl}
use mathlib.Core.Bool.{Bool, true, false, ◌&&◌, ◌||◌}
use native.Mathlib.Omega.{arith}
use reference_library.Common.Tests.{leb, ◌==◌, if◌then◌else◌}

-- `chars().count()`
abbrev pub char_count : String → ℕ
char_count [] = 0
char_count (c ∷ s) = suc (char_count s)

-- `is_empty()`
abbrev pub is_empty : String → Bool
is_empty [] = true
is_empty (c ∷ s) = false

-- `contains(c)` for one character, given by its code point.
abbrev pub has_char : ℕ → String → Bool
has_char k [] = false
has_char k (c ∷ s) = code c == k || has_char k s

-- `contains("..")`
abbrev pub has_dot_dot : String → Bool
has_dot_dot [] = false
has_dot_dot (c ∷ []) = false
has_dot_dot (c ∷ (d ∷ s)) = (code c == b'.' && code d == b'.') || has_dot_dot (d ∷ s)

-- `char::is_whitespace`: the code points with the Unicode property White_Space.
unfoldable pub is_whitespace : ℕ → Bool
is_whitespace c =
    (leb 9 c && leb c 13)
    || c == 0x20
    || c == 0x85
    || c == 0xa0
    || c == 0x1680
    || (leb 0x2000 c && leb c 0x200a)
    || c == 0x2028
    || c == 0x2029
    || c == 0x202f
    || c == 0x205f
    || c == 0x3000

unfoldable pub trim_start : String → String
trim_start [] = []
trim_start (c ∷ s) = if is_whitespace (code c) then trim_start s else c ∷ s

unfoldable pub trim_end : String → String
trim_end [] = []
trim_end (c ∷ s) =
    let rest = trim_end s in if is_whitespace (code c) && is_empty rest then [] else c ∷ rest

unfoldable pub trim : String → String
unfolding trim_start trim_end is_whitespace
trim s = trim_end (trim_start s)

-- `char::to_ascii_lowercase`, on code points.
unfoldable pub lower_code : ℕ → ℕ
lower_code c = if leb b'A' c && leb c b'Z' then c + 32 else c

-- `eq_ignore_ascii_case`; also SQLite's `lower(a) = lower(b)`, which folds ASCII letters only.
unfoldable pub eq_ignore_ascii_case : String → String → Bool
unfolding lower_code
eq_ignore_ascii_case [] [] = true
eq_ignore_ascii_case [] (d ∷ t) = false
eq_ignore_ascii_case (c ∷ s) [] = false
eq_ignore_ascii_case (c ∷ s) (d ∷ t) =
    lower_code (code c) == lower_code (code d) && eq_ignore_ascii_case s t

trim_end_le : (s : String) → char_count (trim_end s) ≤ char_count s
unfolding trim_end
trim_end_le [] = omega arith
trim_end_le (c ∷ s) = ground (arith, trim_end_le s)

trim_start_le : (s : String) → char_count (trim_start s) ≤ char_count s
unfolding trim_start
trim_start_le [] = omega arith
trim_start_le (c ∷ s) = ground (arith, trim_start_le s)

pub char_count-trim-le : (s : String) → char_count (trim s) ≤ char_count s
unfolding trim
char_count-trim-le s = omega (arith, trim_end_le (trim_start s), trim_start_le s)

has_char-trim_end : (k : ℕ) (s : String) → has_char k s ≡ false → has_char k (trim_end s) ≡ false
unfolding trim_end
has_char-trim_end k [] h = refl
has_char-trim_end k (c ∷ s) h = ground (arith, has_char-trim_end k s)

has_char-trim_start :
    (k : ℕ) (s : String) → has_char k s ≡ false → has_char k (trim_start s) ≡ false
unfolding trim_start
has_char-trim_start k [] h = refl
has_char-trim_start k (c ∷ s) h = ground (arith, has_char-trim_start k s)

pub has_char-trim : (k : ℕ) (s : String) → has_char k s ≡ false → has_char k (trim s) ≡ false
unfolding trim
has_char-trim k s h = has_char-trim_end k (trim_start s) (has_char-trim_start k s h)

trim_end_idem : (s : String) → trim_end (trim_end s) ≡ trim_end s
unfolding trim_end
trim_end_idem [] = refl
trim_end_idem (c ∷ s) = ground (arith, trim_end_idem s)

trim_start-trim : (s : String) → trim_start (trim s) ≡ trim s
unfolding trim
trim_start-trim [] = refl
trim_start-trim (c ∷ s) = ground (arith, trim_start-trim s)

-- Trimming twice is trimming once.
pub trim_idem : (s : String) → trim (trim s) ≡ trim s
unfolding trim
trim_idem s = rw (trim_start-trim s) (trim_end_idem (trim_start s))

pub eq_ignore_ascii_case_refl : (s : String) → eq_ignore_ascii_case s s ≡ true
unfolding eq_ignore_ascii_case
eq_ignore_ascii_case_refl [] = refl
eq_ignore_ascii_case_refl (c ∷ s) = ground (arith, eq_ignore_ascii_case_refl s)

pub eq_ignore_ascii_case_sym : (s t : String) → eq_ignore_ascii_case s t ≡ eq_ignore_ascii_case t s
unfolding eq_ignore_ascii_case
eq_ignore_ascii_case_sym [] [] = refl
eq_ignore_ascii_case_sym [] (d ∷ t) = refl
eq_ignore_ascii_case_sym (c ∷ s) [] = refl
eq_ignore_ascii_case_sym (c ∷ s) (d ∷ t) = ground (arith, eq_ignore_ascii_case_sym s t)

pub eq_ignore_ascii_case_trans :
    (s t u : String)
    → eq_ignore_ascii_case s t ≡ true
    → eq_ignore_ascii_case t u ≡ true
    → eq_ignore_ascii_case s u ≡ true
unfolding eq_ignore_ascii_case
eq_ignore_ascii_case_trans [] [] u h k = k
eq_ignore_ascii_case_trans [] (d ∷ t) u h k = cc
eq_ignore_ascii_case_trans (c ∷ s) [] u h k = cc
eq_ignore_ascii_case_trans (c ∷ s) (d ∷ t) [] h k = cc
eq_ignore_ascii_case_trans (c ∷ s) (d ∷ t) (e ∷ u) h k =
    ground (arith, eq_ignore_ascii_case_trans s t u)

trims : trim " a\tb \n" ≡ "a\tb"
unfolding trim
trims = refl
