-- ===== src/Server/Reply.antt =====
-- What is written for a frame: `write_server_frame`, `valid_request_id`. The text of an I/O or codec
-- error, `to_string`, is a parameter, as is the codec.
pub mod Correlated
use Prim.Native.Char.{code}
use Prim.Native.String.{[] as empty, ◌∷◌ as char_first}
use reference_library.Common.{
  ℕ, ◌+◌, String, Bool, true, false, not, Option, List, ◌&&◌, ◌||◌, leb, ltb, ◌==◌, if◌then◌else◌,
}
use reference_library.Common.Text.{is_empty}
use reference_library.Protocol.Limits.{protocol_version, max_request_id_bytes}
use reference_library.Protocol.Results.{ProtocolError}
use reference_library.Protocol.Frame.{ServerFrame, response, error, event}
use reference_library.Protocol.Wire.{
  Written, bytes, refused, FrameError, frame_too_large, unexpected_eof, invalid_json, write_frame,
}

-- `char::len_utf8`
abbrev pub utf8_length : ℕ → ℕ
utf8_length c = if ltb c 0x80 then 1 else if ltb c 0x800 then 2 else if ltb c 0x10000 then 3 else 4

-- `str::len`, in bytes.
abbrev pub byte_length : String → ℕ
byte_length empty = 0
byte_length (char_first c s) = utf8_length (code c) + byte_length s

abbrev pub is_ascii_alphanumeric : ℕ → Bool
is_ascii_alphanumeric c =
    (leb b'0' c && leb c b'9') || (leb b'A' c && leb c b'Z') || (leb b'a' c && leb c b'z')

-- `bytes().all(…)`: every byte of a character outside ASCII is refused, as the character is here.
abbrev pub all_plain : String → Bool
all_plain empty = true
all_plain (char_first c s) =
    (is_ascii_alphanumeric (code c)
      || code c == b'-'
      || code c == b'_'
      || code c == b':'
      || code c == b'.')
    && all_plain s

unfoldable pub valid_request_id : String → Bool
valid_request_id value =
    not (is_empty value) && leb (byte_length value) max_request_id_bytes && all_plain value

module _ {Value Record : Type 0} where
  -- The request that a frame answers; an event answers none.
  abbrev pub reply_id : ServerFrame Value Record → String
  reply_id (response version request_id result) = request_id
  reply_id (error version request_id e) = request_id
  reply_id (event version sequence e) = "oversized-event"

  abbrev pub too_large : ServerFrame Value Record → ServerFrame Value Record
  too_large frame = error protocol_version (reply_id frame) (record {
    code = "ProtocolResultTooLarge";
    message = "Core result exceeded the bounded protocol frame";
    retryable = false;
  })

  unfoldable pub write_server_frame :
      (ServerFrame Value Record → Option (List ℕ)) → ServerFrame Value Record → Written
  write_server_frame encode frame =
      let fallback = write_frame encode (too_large frame) in
      elim (write_frame encode frame) [
        | bytes out ↦ bytes out
        | refused e ↦ elim e [
          | frame_too_large actual maximum ↦ fallback
          | unexpected_eof ↦ refused unexpected_eof
          | invalid_json ↦ refused invalid_json
        ]
      ]
