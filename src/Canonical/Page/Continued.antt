-- ===== src/Canonical/Page/Continued.antt =====
-- How the cursor of page_from_snapshot, crates/reference-core/src/canonical.rs, goes on.
use reference_library.Common.{
  ℕ, ◌≤◌, ◌<◌, ◌≡◌, String, Option, none, some, inl, inr, List, length, ltb, Bool-cases, arith,
}
use reference_library.Common.Decimal.{max_u64}
use reference_library.Fallible.{Result, ok}
use reference_library.Canonical.Cursor.{decode_cursor, encode_cursor, decode_cursor-encode_cursor}
use reference_library.Canonical.Page.{cursor_at}

-- What the cursor of a page says of the rows behind the page.
pub data Continues {Record : Type 0} (reached : ℕ) (rows : List (Result Record))
    : Option String → Type 0 where
  at_end : length rows ≤ reached → Continues reached rows none
  more_left :
      (next : String)
      → reached < length rows
      → decode_cursor (some next) ≡ ok reached
      → Continues reached rows (some next)

pub cursor_at-Continues :
    {Record : Type 0} (reached : ℕ) (rows : List (Result Record))
    → length rows ≤ max_u64
    → Continues reached rows (cursor_at reached (length rows))
cursor_at-Continues reached rows in_u64 = elim (Bool-cases (ltb reached (length rows))) [
  | inl more ↦ rw more (
      more_left (encode_cursor reached) (ground (arith, more))
        (decode_cursor-encode_cursor reached (ground (arith, more, in_u64))))
  | inr over ↦ rw over (at_end (ground (arith, over)))
]
