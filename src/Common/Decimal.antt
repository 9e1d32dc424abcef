-- ===== src/Common/Decimal.antt =====
-- `u64::to_string` and the decimal `str::parse::<u64>`.
use Prim.Native.Nat.{ℕ, zero, suc, ◌+◌, ◌-◌, ◌*◌, ◌/◌, ◌%◌, ◌^◌, ◌<◌, ◌≤◌}
use Prim.Native.Char.{Char, code}
use Prim.Native.String.{String, [], ◌∷◌}
use mathlib.Core.Path.{◌≡◌, refl, ◌∙◌, ap}
use mathlib.Core.Bool.{Bool, true, false, ◌&&◌}
use mathlib.Core.Option.{Option, none, some, some-injective}
use native.Mathlib.Omega.{arith}
use text.Mathlib.TextEquality.{Char-path}
use mathlib.Core.Logic.{inl, inr, ◌≢◌}
use reference_library.Common.Text.{is_empty}
use reference_library.Common.Tests.{
  ltb, leb, ◌==◌, ltb→lt, le→leb, if◌then◌else◌, Bool-cases, &&_both,
}

abbrev pub max_u64 : ℕ
max_u64 = 2 ^ 64 - 1

unfoldable pub digit_char : ℕ → Char
digit_char zero = "0"
digit_char (suc zero) = "1"
digit_char (suc (suc zero)) = "2"
digit_char (suc (suc (suc zero))) = "3"
digit_char (suc (suc (suc (suc zero)))) = "4"
digit_char (suc (suc (suc (suc (suc zero))))) = "5"
digit_char (suc (suc (suc (suc (suc (suc zero)))))) = "6"
digit_char (suc (suc (suc (suc (suc (suc (suc zero))))))) = "7"
digit_char (suc (suc (suc (suc (suc (suc (suc (suc zero)))))))) = "8"
digit_char _ = "9"

-- Digits from the last to the first; `none` never happens with fuel above the number.
decimal_loop : ℕ → ℕ → String → String
decimal_loop zero n out = out
decimal_loop (suc fuel) n out =
    let rest = decimal_loop fuel (n / 10) (digit_char (n % 10) ∷ out) in
    if ltb n 10 then digit_char n ∷ out else rest

-- `n.to_string()`
unfoldable pub decimal : ℕ → String
unfolding decimal_loop digit_char
decimal n = decimal_loop (suc n) n []

-- `is_ascii_digit`
abbrev pub is_digit : ℕ → Bool
is_digit c = leb b'0' c && leb c b'9'

-- The digits' value in `u64`, `none` on overflow; the caller has tested that there are only digits.
unfoldable pub parse_loop : ℕ → String → Option ℕ
parse_loop acc [] = some acc
parse_loop acc (c ∷ s) =
    let value = acc * 10 + (code c - b'0') in
    let rest = parse_loop value s in if leb value max_u64 then rest else none

-- Every byte is an ASCII digit.
abbrev pub all_digits : String → Bool
all_digits [] = true
all_digits (c ∷ s) = is_digit (code c) && all_digits s

code-digit_char : (n : ℕ) → n < 10 → code (digit_char n) ≡ b'0' + n
unfolding digit_char
code-digit_char zero h = refl
code-digit_char (suc zero) h = refl
code-digit_char (suc (suc zero)) h = refl
code-digit_char (suc (suc (suc zero))) h = refl
code-digit_char (suc (suc (suc (suc zero)))) h = refl
code-digit_char (suc (suc (suc (suc (suc zero))))) h = refl
code-digit_char (suc (suc (suc (suc (suc (suc zero)))))) h = refl
code-digit_char (suc (suc (suc (suc (suc (suc (suc zero))))))) h = refl
code-digit_char (suc (suc (suc (suc (suc (suc (suc (suc zero)))))))) h = refl
code-digit_char (suc (suc (suc (suc (suc (suc (suc (suc (suc zero))))))))) h = refl
code-digit_char (suc (suc (suc (suc (suc (suc (suc (suc (suc (suc n)))))))))) h =
    absurd (omega arith)

is_digit_bounds : (c : ℕ) → is_digit c ≡ true → (b'0' ≤ c) × (c ≤ b'9')
is_digit_bounds c h = ground arith

digit_char-code : (c : Char) → is_digit (code c) ≡ true → digit_char (code c - b'0') ≡ c
digit_char-code c h =
    Char-path _ c (omega (arith, is_digit_bounds (code c) h, code-digit_char (code c - b'0')))

parse_loop_step :
    (acc v : ℕ) (c : Char) (s : String)
    → acc * 10 + (code c - b'0') ≡ v
    → v ≤ max_u64
    → parse_loop acc (c ∷ s) ≡ parse_loop v s
unfolding parse_loop
parse_loop_step acc v c s e fits = rw (e, le→leb v max_u64 fits) refl

parse_loop_digit :
    (acc d v : ℕ) (s : String)
    → d < 10
    → acc * 10 + d ≡ v
    → v ≤ max_u64
    → parse_loop acc (digit_char d ∷ s) ≡ parse_loop v s
parse_loop_digit acc d v s h e fits =
    parse_loop_step acc v (digit_char d) s (omega (arith, code-digit_char d h)) fits

-- Any fuel above the number gives the same digits.
decimal_loop_fuel :
    (f g n : ℕ) (out : String) → n < f → n < g → decimal_loop f n out ≡ decimal_loop g n out
unfolding decimal_loop
decimal_loop_fuel zero g n out h k = elim h [ ]
decimal_loop_fuel (suc f) zero n out h k = elim k [ ]
decimal_loop_fuel (suc f) (suc g) n out h k =
    ground (arith, decimal_loop_fuel f g (n / 10) (digit_char (n % 10) ∷ out))

abbrev decimal_from : ℕ → String → String
decimal_from n out = decimal_loop (suc n) n out

decimal_from_small : (n : ℕ) (out : String) → n < 10 → decimal_from n out ≡ digit_char n ∷ out
unfolding decimal_loop
decimal_from_small n out h = ground arith

decimal_from_large :
    (n : ℕ) (out : String)
    → 10 ≤ n
    → decimal_from n out ≡ decimal_from (n / 10) (digit_char (n % 10) ∷ out)
unfolding decimal_loop
decimal_from_large n out h =
    ground (arith, decimal_loop_fuel n (suc (n / 10)) (n / 10) (digit_char (n % 10) ∷ out))

parse_loop-decimal_loop :
    (f n : ℕ) (out : String)
    → n < f
    → n ≤ max_u64
    → parse_loop 0 (decimal_loop f n out) ≡ parse_loop n out
unfolding decimal_loop
parse_loop-decimal_loop zero n out h fits = elim h [ ]
parse_loop-decimal_loop (suc f) n out h fits = elim (Bool-cases (ltb n 10)) [
  | inl small ↦
      rw (decimal_loop, small) (parse_loop_digit 0 n n out (ltb→lt n 10 small) (omega arith) fits)
  | inr large ↦
      rw (decimal_loop, large)
        (parse_loop-decimal_loop f (n / 10) (digit_char (n % 10) ∷ out) (ground arith) (omega arith)
          ∙ parse_loop_digit (n / 10) (n % 10) n out (omega arith) (omega arith) fits)
]

-- Reading back what was written.
pub parse_loop-decimal : (n : ℕ) → n ≤ max_u64 → parse_loop 0 (decimal n) ≡ some n
unfolding decimal parse_loop
parse_loop-decimal n fits = parse_loop-decimal_loop (suc n) n [] (omega arith) fits

digit_bound : (c : Char) → is_digit (code c) ≡ true → code c - b'0' < 10
digit_bound c h = omega (arith, is_digit_bounds (code c) h)

-- A digit read after others is the last digit of the number that they stand for.
decimal_from_shift :
    (acc : ℕ) (c : Char) (s : String)
    → 0 < acc
    → is_digit (code c) ≡ true
    → decimal_from (acc * 10 + (code c - b'0')) s ≡ decimal_from acc (c ∷ s)
decimal_from_shift acc c s pos h =
    let d = code c - b'0' in
    let value = acc * 10 + d in
    let small : d < 10 = digit_bound c h in
    let quotient : value / 10 ≡ acc = omega arith in
    let remainder : value % 10 ≡ d = omega arith in
    decimal_from_large value s (omega arith) ∙ rw (quotient, remainder, digit_char-code c h) refl

parse_loop_inv :
    (acc n : ℕ) (c : Char) (s : String)
    → parse_loop acc (c ∷ s) ≡ some n
    → parse_loop (acc * 10 + (code c - b'0')) s ≡ some n
unfolding parse_loop
parse_loop_inv acc n c s e = ground arith

decimal_from-parse_loop :
    (acc n : ℕ) (s : String)
    → 0 < acc
    → all_digits s ≡ true
    → parse_loop acc s ≡ some n
    → decimal_from n [] ≡ decimal_from acc s
unfolding parse_loop
decimal_from-parse_loop acc n [] pos h e =
    cc (ap (λ (m : ℕ). decimal_from m []) (some-injective acc n e))
decimal_from-parse_loop acc n (c ∷ s) pos h e =
    let (first, others) = &&_both (is_digit (code c)) (all_digits s) h in
    decimal_from-parse_loop (acc * 10 + (code c - b'0')) n s (omega arith) others
      (parse_loop_inv acc n c s e)
    ∙ decimal_from_shift acc c s pos first

-- Writing back what was read: digits with no leading zero are the only spelling of their number.
pub decimal-parse_loop :
    (n : ℕ) (c : Char) (s : String)
    → all_digits (c ∷ s) ≡ true
    → code c ≢ b'0'
    → parse_loop 0 (c ∷ s) ≡ some n
    → decimal n ≡ c ∷ s
unfolding decimal
decimal-parse_loop n c s h nonzero e =
    let (first, others) = &&_both (is_digit (code c)) (all_digits s) h in
    let d = code c - b'0' in
    let pos : 0 < d = omega (arith, is_digit_bounds (code c) first) in
    let same : 0 * 10 + d ≡ d = omega arith in
    decimal_from-parse_loop (0 * 10 + d) n s (omega arith) others (parse_loop_inv 0 n c s e)
    ∙ ap (λ (m : ℕ). decimal_from m s) same
    ∙ decimal_from_small d s (digit_bound c first)
    ∙ rw (digit_char-code c first) refl

parse_loop_bound :
    (acc n : ℕ) (s : String) → acc ≤ max_u64 → parse_loop acc s ≡ some n → n ≤ max_u64
unfolding parse_loop
parse_loop_bound acc n [] h e = omega (arith, some-injective acc n e)
parse_loop_bound acc n (c ∷ s) h e =
    ground (arith, parse_loop_bound (acc * 10 + (code c - b'0')) n s)

pub parse_loop-le-max_u64 : (n : ℕ) (s : String) → parse_loop 0 s ≡ some n → n ≤ max_u64
parse_loop-le-max_u64 n s e = parse_loop_bound 0 n s (omega arith) e

is_digit-digit_char : (d : ℕ) → d < 10 → is_digit (code (digit_char d)) ≡ true
is_digit-digit_char d h = rw (code-digit_char d h) (ground arith)

decimal_loop-all_digits :
    (f n : ℕ) (out : String) → all_digits out ≡ true → all_digits (decimal_loop f n out) ≡ true
unfolding decimal_loop
decimal_loop-all_digits zero n out h = h
decimal_loop-all_digits (suc f) n out h =
    let written = is_digit-digit_char (n % 10) (omega arith) in
    let rest =
      decimal_loop-all_digits f (n / 10) (digit_char (n % 10) ∷ out) (rw (written, h) refl) in
    elim (Bool-cases (ltb n 10)) [
      | inl small ↦ rw small (rw (is_digit-digit_char n (ltb→lt n 10 small), h) refl)
      | inr large ↦ rw large rest
    ]

-- What is written consists of digits.
pub decimal-all_digits : (n : ℕ) → all_digits (decimal n) ≡ true
unfolding decimal
decimal-all_digits n = decimal_loop-all_digits (suc n) n [] refl

-- `starts_with('0')`
abbrev pub leading_zero : String → Bool
leading_zero [] = false
leading_zero (c ∷ s) = code c == b'0'

digit_char-nonzero : (d : ℕ) → 0 < d → d < 10 → (code (digit_char d) == b'0') ≡ false
digit_char-nonzero d pos h = rw (code-digit_char d h) (ground arith)

decimal_loop-leading_zero :
    (f n : ℕ) (out : String)
    → 0 < n
    → n < f
    → (leading_zero (decimal_loop f n out) ≡ false) × (is_empty (decimal_loop f n out) ≡ false)
unfolding decimal_loop
decimal_loop-leading_zero zero n out pos h = elim h [ ]
decimal_loop-leading_zero (suc f) n out pos h = elim (Bool-cases (ltb n 10)) [
  | inl small ↦ rw small (digit_char-nonzero n pos (ltb→lt n 10 small), refl)
  | inr large ↦
      let many : 10 ≤ n = ground arith in
      rw large (
        decimal_loop-leading_zero f (n / 10) (digit_char (n % 10) ∷ out) (omega arith)
          (omega arith))
]

-- A positive number is written with a digit in front that is not zero.
pub decimal-leading_zero :
    (n : ℕ) → 0 < n → (leading_zero (decimal n) ≡ false) × (is_empty (decimal n) ≡ false)
unfolding decimal
decimal-leading_zero n pos = decimal_loop-leading_zero (suc n) n [] pos (omega arith)

shown : decimal 120 ≡ "120"
unfolding decimal
shown = refl
