-- ===== src/Protocol/Wire.antt =====
-- `read_frame` and `write_frame` of crates/reference-protocol/src/lib.rs. A reader is the list of
-- the bytes that are still to come; the JSON codec is another crate's, a parameter.
pub mod RoundTrip
use reference_library.Common.{
  ℕ, zero, suc, ◌+◌, ◌*◌, ◌/◌, ◌%◌, ◌^◌, Option, none, some, List, [], ◌∷◌, ◌++◌, length, ltb,
  if◌then◌else◌,
}
use reference_library.Protocol.Limits.{max_frame_bytes}

pub data FrameError : Type 0 where
  unexpected_eof : FrameError
  frame_too_large : (actual : ℕ) → (maximum : ℕ) → FrameError
  invalid_json : FrameError

-- What a call gives back: a value, the end of the stream, or an error.
pub data Read (T : Type 0) : Type 0 where
  frame : T → (rest : List ℕ) → Read T
  end_of_stream : Read T
  failed : FrameError → Read T

pub data Written : Type 0 where
  bytes : List ℕ → Written
  refused : FrameError → Written

-- `u32::to_be_bytes`
abbrev pub to_be_bytes : ℕ → List ℕ
to_be_bytes n = (n / 2 ^ 24 % 256) ∷ (n / 2 ^ 16 % 256) ∷ (n / 2 ^ 8 % 256) ∷ (n % 256) ∷ []

-- `u32::from_be_bytes`
abbrev pub from_be_bytes : ℕ → ℕ → ℕ → ℕ → ℕ
from_be_bytes a b c d = ((a * 256 + b) * 256 + c) * 256 + d

-- `read_exact` for `n` bytes: the bytes and what follows, or `none` if the stream ends before.
abbrev pub read_exact : ℕ → List ℕ → Option (List ℕ × List ℕ)
read_exact zero s = some ([], s)
read_exact (suc n) [] = none
read_exact (suc n) (x ∷ s) = elim (read_exact n s) [
  | none ↦ none
  | some (got, rest) ↦ some (x ∷ got, rest)
]

module _ {T : Type 0} (decode : List ℕ → Option T) where
  decode_payload : Option (List ℕ × List ℕ) → Read T
  decode_payload none = failed unexpected_eof
  decode_payload (some (payload, rest)) = elim (decode payload) [
    | none ↦ failed invalid_json
    | some v ↦ frame v rest
  ]

  read_payload : ℕ → List ℕ → Read T
  unfolding decode_payload
  read_payload n s =
      if ltb max_frame_bytes n
      then failed (frame_too_large n max_frame_bytes)
      else decode_payload (read_exact n s)

  -- The header is read by `read_exact` too: a stream that ends inside it ends the conversation.
  unfoldable pub read_frame : List ℕ → Read T
  unfolding read_payload
  read_frame (a ∷ b ∷ c ∷ d ∷ s) = read_payload (from_be_bytes a b c d) s
  read_frame _ = end_of_stream

module _ {T : Type 0} (encode : T → Option (List ℕ)) where
  unfoldable pub write_frame : T → Written
  write_frame v = elim (encode v) [
    | none ↦ refused invalid_json
    | some payload ↦
        if ltb max_frame_bytes (length payload)
        then refused (frame_too_large (length payload) max_frame_bytes)
        else bytes (to_be_bytes (length payload) ++ payload)
  ]
