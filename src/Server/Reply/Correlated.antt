-- ===== src/Server/Reply/Correlated.antt =====
-- On write_server_frame of crates/reference-core/src/server.rs.
use reference_library.Common.{ℕ, ◌≡◌, refl, ◌⊎◌, inl, inr, Option, some, List, ◌++◌, arith}
use reference_library.Protocol.Frame.{ServerFrame}
use reference_library.Protocol.Wire.{
  Written, bytes, refused, FrameError, frame_too_large, unexpected_eof, invalid_json, write_frame,
  read_frame, frame,
}
use reference_library.Protocol.Wire.RoundTrip.{read_frame-write_frame}
use reference_library.Server.Reply.{reply_id, too_large, write_server_frame}

module _ {Value Record : Type 0} (encode : ServerFrame Value Record → Option (List ℕ))
    (decode : List ℕ → Option (ServerFrame Value Record)) where
  Written-cases :
      (w : Written) → ((out : List ℕ) × (w ≡ bytes out)) ⊎ ((e : FrameError) × (w ≡ refused e))
  Written-cases (bytes out) = inl (out, refl)
  Written-cases (refused e) = inr (e, refl)

  sent_instead :
      (v : ServerFrame Value Record) (e : FrameError) (out : List ℕ)
      → write_frame encode v ≡ refused e
      → write_server_frame encode v ≡ bytes out
      → write_frame encode (too_large v) ≡ bytes out
  unfolding write_server_frame
  sent_instead v (frame_too_large a m) out k h = ground (arith, k, h)
  sent_instead v unexpected_eof out k h = ground (arith, k, h)
  sent_instead v invalid_json out k h = ground (arith, k, h)

  -- Where the codec decodes what it made of the frame and of the error that stands for it, a
  -- frame that the server writes is read back as one of the two, and either way as an answer to
  -- the same request.
  pub write_server_frame-reply_id :
      (v : ServerFrame Value Record) (out rest : List ℕ)
      → ((payload : List ℕ) → encode v ≡ some payload → decode payload ≡ some v)
      → ((payload : List ℕ)
          → encode (too_large v) ≡ some payload
          → decode payload ≡ some (too_large v))
      → write_server_frame encode v ≡ bytes out
      → (read : ServerFrame Value Record) × (read_frame decode (out ++ rest) ≡ frame read rest)
        × (reply_id read ≡ reply_id v)
        × ((read ≡ v) ⊎ (read ≡ too_large v))
  unfolding write_server_frame
  write_server_frame-reply_id v out rest codec fallback h =
      elim (Written-cases (write_frame encode v)) [
        | inl (direct, k) ↦
            let same : write_frame encode v ≡ bytes out = ground (arith, k, h) in
            (v, read_frame-write_frame encode decode v out rest codec same, refl, inl refl)
        | inr (e, k) ↦ (
          too_large v,
          read_frame-write_frame encode decode (too_large v) out rest fallback
              (sent_instead v e out k h),
          refl,
          inr refl,
        )
      ]
