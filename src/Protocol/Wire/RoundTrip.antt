-- ===== src/Protocol/Wire/RoundTrip.antt =====
-- On read_frame and write_frame of crates/reference-protocol/src/lib.rs.
use reference_library.Common.{
  ℕ, ◌/◌, ◌%◌, ◌^◌, ◌≢◌, ◌≡◌, refl, ◌≤◌, ◌<◌, Option, none, some, List, [], ◌∷◌, ◌++◌, length, ltb,
  arith, Bool-cases, Option-cases, false, inl, inr, lt→ltb,
}
use reference_library.Protocol.Limits.{max_frame_bytes}
use reference_library.Protocol.Wire.{
  frame, failed, frame_too_large, bytes, read_exact, decode_payload, read_frame, write_frame,
  to_be_bytes, from_be_bytes,
}

read_exact-append : (xs rest : List ℕ) → read_exact (length xs) (xs ++ rest) ≡ some (xs, rest)
read_exact-append [] rest = refl
read_exact-append (x ∷ xs) rest = rw (read_exact-append xs rest) refl

module _ {T : Type 0} (decode : List ℕ → Option T) where
  read_frame-payload :
      (n : ℕ) (v : T) (payload rest : List ℕ)
      → length payload ≡ n
      → n ≤ max_frame_bytes
      → decode payload ≡ some v
      → read_frame decode (to_be_bytes n ++ (payload ++ rest)) ≡ frame v rest
  unfolding read_frame
  read_frame-payload n v payload rest e small codec =
      let back : from_be_bytes (n / 2 ^ 24 % 256) (n / 2 ^ 16 % 256) (n / 2 ^ 8 % 256) (n % 256)
          ≡ n =
        omega arith in
      let fits : ltb max_frame_bytes n ≡ false = ground arith in
      rw (back, fits, ← e, read_exact-append payload rest) (rw (codec, decode_payload) refl)

  -- A header that announces more than the frame limit is refused at once, whatever follows it.
  read_frame_oversized :
      (a b c d : ℕ) (rest : List ℕ)
      → max_frame_bytes < from_be_bytes a b c d
      → read_frame decode (a ∷ b ∷ c ∷ d ∷ rest)
        ≡ failed (frame_too_large (from_be_bytes a b c d) max_frame_bytes)
  unfolding read_frame
  read_frame_oversized a b c d rest large = rw (lt→ltb _ _ large) refl

module _ {T : Type 0} (encode : T → Option (List ℕ)) where
  -- What has been written is the length and the payload, within the frame limit.
  write_frame_inv :
      (v : T) (out payload : List ℕ)
      → encode v ≡ some payload
      → write_frame encode v ≡ bytes out
      → (length payload ≤ max_frame_bytes) × (out ≡ to_be_bytes (length payload) ++ payload)
  unfolding write_frame
  write_frame_inv v out payload e written =
      let step = rw (e, write_frame) at written in
      elim (Bool-cases (ltb max_frame_bytes (length payload))) [
        | inl large ↦ cc (rw large at step)
        | inr small ↦ (ground arith, cc (rw small at step))
      ]

  write_frame-none : (v : T) (out : List ℕ) → encode v ≡ none → write_frame encode v ≢ bytes out
  unfolding write_frame
  write_frame-none v out e written = cc (rw (e, write_frame) at written)

module _ {T : Type 0} (encode : T → Option (List ℕ)) (decode : List ℕ → Option T) where
  -- Where the codec decodes what it made of the value, a frame that is written is read back as
  -- the value, and the reader is left at what follows it.
  pub read_frame-write_frame :
      (v : T) (out rest : List ℕ)
      → ((payload : List ℕ) → encode v ≡ some payload → decode payload ≡ some v)
      → write_frame encode v ≡ bytes out
      → read_frame decode (out ++ rest) ≡ frame v rest
  read_frame-write_frame v out rest codec written = elim (Option-cases (encode v)) [
    | inl e ↦ absurd (write_frame-none encode v out e written)
    | inr (payload, e) ↦
        let (small, form) = write_frame_inv encode v out payload e written in
        rw form
          (read_frame-payload decode (length payload) v payload rest refl small (codec payload e))
  ]
