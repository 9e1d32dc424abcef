-- ===== src/Canonical/Cursor.antt =====
-- The cursor of a canonical page: `decode_cursor` and `encode_cursor` of
-- crates/reference-core/src/canonical.rs.
use Prim.Native.String.{[] as empty, ◌∷◌ as char_first}
use reference_library.Common.{
  ℕ, zero, suc, ◌≤◌, ◌≡◌, refl, sym, String, Bool, true, not, Option, none, some, ◌&&◌, ◌||◌,
  str_eq, eq_iff, if◌then◌else◌, arith, Bool-cases, Option-cases, inl, inr,
}
use reference_library.Common.Text.{is_empty}
use reference_library.Common.Decimal.{
  max_u64, decimal, parse_loop, all_digits, leading_zero, parse_loop-decimal, decimal-parse_loop,
  decimal-all_digits, decimal-leading_zero,
}
use reference_library.Errors.{query_invalid}
use reference_library.Fallible.{Result, ok, err, ok_or}

-- The guard of the second arm.
abbrev pub is_canonical : String → Bool
is_canonical value =
    not (is_empty value) && all_digits value && (str_eq value "0" || not (leading_zero value))

unfoldable pub decode_cursor : Option String → Result ℕ
unfolding parse_loop
decode_cursor none = ok 0
decode_cursor (some value) =
    if is_canonical value
    then ok_or (parse_loop 0 value) (query_invalid "canonical cursor is malformed")
    else err (query_invalid "canonical cursor is malformed")

unfoldable pub encode_cursor : ℕ → String
unfolding decimal
encode_cursor offset = decimal offset

zero-is_canonical : is_canonical (decimal zero) ≡ true
unfolding decimal
zero-is_canonical = refl

decimal-is_canonical : (n : ℕ) → is_canonical (decimal n) ≡ true
decimal-is_canonical zero = zero-is_canonical
decimal-is_canonical (suc n) =
    let (plain, filled) = decimal-leading_zero (suc n) (omega arith) in
    ground (arith, plain, filled, decimal-all_digits (suc n))

zero_spelling : (m : ℕ) → parse_loop 0 "0" ≡ some m → decimal m ≡ "0"
unfolding parse_loop decimal
zero_spelling m parsed = let same : 0 ≡ m = ground (arith, parsed) in rw (sym same) refl

canonical_spelling :
    (value : String) (m : ℕ)
    → is_canonical value ≡ true
    → parse_loop 0 value ≡ some m
    → decimal m ≡ value
canonical_spelling empty m good parsed = ground (arith, good)
canonical_spelling (char_first c s) m good parsed =
    elim (Bool-cases (str_eq (char_first c s) "0")) [
      | inl e ↦
          let same = (eq_iff (char_first c s) "0").0 e in
          rw same (zero_spelling m (rw same at parsed))
      | inr e ↦ decimal-parse_loop m c s (ground (arith, good)) (ground (arith, good, e)) parsed
    ]

-- The cursor that is written for a 64-bit offset is read back as the offset.
pub decode_cursor-encode_cursor :
    (n : ℕ) → n ≤ max_u64 → decode_cursor (some (encode_cursor n)) ≡ ok n
unfolding decode_cursor encode_cursor
decode_cursor-encode_cursor n h = rw (decimal-is_canonical n, parse_loop-decimal n h) refl

-- A cursor that is accepted is spelled as the cursor that is written for its offset.
encode_cursor-decode_cursor :
    (value : String) (n : ℕ) → decode_cursor (some value) ≡ ok n → encode_cursor n ≡ value
unfolding decode_cursor encode_cursor
encode_cursor-decode_cursor value n h = elim (Bool-cases (is_canonical value)) [
  | inr bad ↦ ground (arith, bad, h)
  | inl good ↦ elim (Option-cases (parse_loop 0 value)) [
    | inl overflow ↦ ground (arith, good, overflow, h)
    | inr (m, parsed) ↦
        let same : m ≡ n = ground (arith, good, parsed, h) in
        rw (sym same) (canonical_spelling value m good parsed)
  ]
]
