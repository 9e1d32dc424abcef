-- ===== src/Examples/Messages.antt =====
-- Frames on the wire, and the engine at work.
use reference_library.Common.{ℕ, zero, ◌≡◌, refl, sym, ◌⊎◌, Option, none, some, List, [], ◌∷◌, ◌++◌}
use reference_library.Fallible.{ok}
use reference_library.Protocol.States.{ResourceProfile}
use reference_library.Protocol.Event.{core_needs_restart, job_updated}
use reference_library.Protocol.Frame.{ServerFrame, CommandResult, response, error, event}
use reference_library.Protocol.Wire.{frame, read_frame, write_frame}
use reference_library.Protocol.Wire.RoundTrip.{read_frame-write_frame}
use reference_library.Server.Reply.{reply_id, too_large, write_server_frame}
use reference_library.Server.Reply.Correlated.{write_server_frame-reply_id}
use reference_library.Server.Engine.{
  SessionCalls, CommandEngine, new_engine, drain_events, start_resource_authorization,
}
use reference_library.Server.Engine.Inflight.{Reachable, Step, IsAccounted, Reachable-IsAccounted}
use reference_library.Server.Engine.Sequence.{numbered, drain_events-numbered}

-- A codec for small numbers.
abbrev encode_number : ℕ → Option (List ℕ)
encode_number n = some (n ∷ [])

abbrev decode_number : List ℕ → Option ℕ
decode_number (n ∷ []) = some n
decode_number _ = none

number_codec : (payload : List ℕ) → encode_number 5 ≡ some payload → decode_number payload ≡ some 5
number_codec [] h = cc
number_codec (n ∷ []) h = cc
number_codec (n ∷ m ∷ payload) h = cc

read_frame-write_frame_example :
    read_frame decode_number ((0 ∷ 0 ∷ 0 ∷ 1 ∷ 5 ∷ []) ++ (9 ∷ [])) ≡ frame 5 (9 ∷ [])
unfolding write_frame
read_frame-write_frame_example =
    read_frame-write_frame encode_number decode_number 5 (0 ∷ 0 ∷ 0 ∷ 1 ∷ 5 ∷ []) (9 ∷ [])
      number_codec refl

-- A codec for one answer and the error that may stand for it.
abbrev bye : ServerFrame Unit Unit
bye = response 1 "r1" CommandResult.shutdown

abbrev encode_frame : ServerFrame Unit Unit → Option (List ℕ)
encode_frame (response version request_id result) = some (0 ∷ [])
encode_frame (error version request_id e) = some (1 ∷ [])
encode_frame (event version sequence e) = none

abbrev decode_frame : List ℕ → Option (ServerFrame Unit Unit)
decode_frame (zero ∷ []) = some bye
decode_frame _ = some (too_large bye)

bye_codec : (payload : List ℕ) → encode_frame bye ≡ some payload → decode_frame payload ≡ some bye
bye_codec payload h = let same : (0 ∷ []) ≡ payload = cc in rw (sym same) refl

too_large_codec :
    (payload : List ℕ)
    → encode_frame (too_large bye) ≡ some payload
    → decode_frame payload ≡ some (too_large bye)
too_large_codec payload h = let same : (1 ∷ []) ≡ payload = cc in rw (sym same) refl

write_server_frame-reply_id_example :
    (read : ServerFrame Unit Unit) × (read_frame decode_frame ((0 ∷ 0 ∷ 0 ∷ 1 ∷ 0 ∷ []) ++ [])
      ≡ frame read [])
    × (reply_id read ≡ "r1")
    × ((read ≡ bye) ⊎ (read ≡ too_large bye))
unfolding write_server_frame write_frame
write_server_frame-reply_id_example =
    write_server_frame-reply_id encode_frame decode_frame bye (0 ∷ 0 ∷ 0 ∷ 1 ∷ 0 ∷ []) [] bye_codec
      too_large_codec refl

drain_events-numbered_example :
    ((drain_events {S = Unit} {Value = Unit} {Record = Unit}
        (job_updated "j" "running" ∷ core_needs_restart "x" ∷ [])
        new_engine).0
      ≡ numbered 0 (job_updated "j" "running" ∷ core_needs_restart "x" ∷ []))
    × ((drain_events {S = Unit} {Value = Unit} {Record = Unit}
          (job_updated "j" "running" ∷ core_needs_restart "x" ∷ [])
          new_engine).1.event_sequence
        ≡ 2)
unfolding new_engine
drain_events-numbered_example =
    drain_events-numbered {S = Unit} {Value = Unit} {Record = Unit}
      (job_updated "j" "running" ∷ core_needs_restart "x" ∷ []) new_engine

abbrev calls : SessionCalls Unit
calls = record {
  start_resource = λ s asset_id profile. (ok "j1", s);
  fail_resource_job = λ s job_id cause. (ok tt, s);
}

-- One session is open, and a resource is asked for.
abbrev opened : CommandEngine Unit
opened = record new_engine { sessions = ("s1", tt) ∷ []; jobs = []; events = [] }

Reachable-IsAccounted_example :
    IsAccounted (start_resource_authorization calls opened "r1" "s1" "a1" ResourceProfile.preview).1
Reachable-IsAccounted_example =
    Reachable-IsAccounted calls Unit Unit
      (start_resource_authorization calls opened "r1" "s1" "a1" ResourceProfile.preview).1
      (Reachable.goes_on
        (Reachable.goes_on Reachable.starts (Step.executes new_engine (("s1", tt) ∷ []) [] []))
        (Step.authorizes opened "r1" "s1" "a1" ResourceProfile.preview))
