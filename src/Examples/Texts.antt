-- ===== src/Examples/Texts.antt =====
-- Texts that a client sends.
use reference_library.Common.{
  ℕ, ◌≡◌, ◌≤◌, ◌<◌, ◌↔◌, refl, Bool, true, false, String, Option, none, some, List, [], ◌∷◌, All,
  arith,
}
use reference_library.Errors.{io, IoKind, to_protocol_error}
use reference_library.Errors.Public.{without_private_text, to_protocol_error-without_private_text}
use reference_library.Fallible.{ok}
use reference_library.Protocol.Patch.{AssetQuery}
use reference_library.Protocol.States.{AssetSort}
use reference_library.Editorial.Tokens.{normalize_tokens}
use reference_library.Editorial.Tokens.Loop.{Represented}
use reference_library.Editorial.Tokens.Normal.{IsNormal, normalize_tokens-IsNormal}
use reference_library.Canonical.Cursor.{decode_cursor, encode_cursor, decode_cursor-encode_cursor}
use reference_library.Discovery.Media.{media, classify_media}
use reference_library.Discovery.Media.Consistent.{IsConsistent, classify_media-IsConsistent}

abbrev as_it_is : String → String
as_it_is s = s

normalize_tokens-IsNormal_example :
    IsNormal as_it_is ("blue" ∷ "red" ∷ [])
    × All (Represented ("blue" ∷ "red" ∷ [])) ("red" ∷ " RED" ∷ "blue" ∷ [])
unfolding normalize_tokens reference_library.Common.Text.trim
    reference_library.Common.Text.eq_ignore_ascii_case
normalize_tokens-IsNormal_example =
    normalize_tokens-IsNormal as_it_is ("red" ∷ " RED" ∷ "blue" ∷ []) ("blue" ∷ "red" ∷ []) refl

abbrev query : AssetQuery
query = record {
  search = some "elm";
  review_states = [];
  availability = [];
  collection_id = none;
  root_id = none;
  categories = "a" ∷ [];
  extensions = [];
  media_families = [];
  tags = "red" ∷ [];
  used_in = [];
  sort = AssetSort.created_ascending;
}

decode_cursor-encode_cursor_example : decode_cursor (some (encode_cursor 120)) ≡ ok 120
decode_cursor-encode_cursor_example = decode_cursor-encode_cursor 120 (omega arith)

classify_media-IsConsistent_example :
    IsConsistent (media "image/gif" "animation" "image" false false)
unfolding classify_media
classify_media-IsConsistent_example =
    classify_media-IsConsistent (b'G' ∷ b'I' ∷ b'F' ∷ b'8' ∷ b'9' ∷ b'a' ∷ []) (some "png")
      (media "image/gif" "animation" "image" false false) refl

to_protocol_error-without_private_text_example :
    to_protocol_error (without_private_text (io IoKind.not_found "/home/x/y: gone"))
    ≡ to_protocol_error (io IoKind.not_found "/home/x/y: gone")
to_protocol_error-without_private_text_example =
    to_protocol_error-without_private_text (io IoKind.not_found "/home/x/y: gone")
