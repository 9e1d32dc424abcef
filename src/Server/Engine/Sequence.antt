-- ===== src/Server/Engine/Sequence.antt =====
-- On event_sequence of CommandEngine, crates/reference-core/src/server.rs.
use reference_library.Common.{ℕ, ◌+◌, ◌≡◌, refl, ap, List, [], ◌∷◌, length, arith}
use reference_library.Protocol.Limits.{protocol_version}
use reference_library.Protocol.Event.{Event}
use reference_library.Protocol.Frame.{ServerFrame, event}
use reference_library.Server.Engine.{CommandEngine, drain_events, next_event_frame}

-- Events numbered one by one behind a number.
abbrev pub numbered : {Value Record : Type 0} → ℕ → List Event → List (ServerFrame Value Record)
numbered n [] = []
numbered n (sent ∷ events) = event protocol_version (n + 1) sent ∷ numbered (n + 1) events

-- Draining a queue of events numbers them one by one, in their order and without a gap, behind
-- the number of the last event.
pub drain_events-numbered :
    {S Value Record : Type 0} (events : List Event) (e : CommandEngine S)
    → ((drain_events {Value = Value} {Record = Record} events e).0
        ≡ numbered e.event_sequence events)
      × ((drain_events {Value = Value} {Record = Record} events e).1.event_sequence
          ≡ e.event_sequence + length events)
unfolding drain_events next_event_frame
drain_events-numbered [] e = (refl, omega arith)
drain_events-numbered {S = S} {Value = Value} {Record = Record} (sent ∷ events) e =
    let rest =
      drain_events-numbered {S = S} {Value = Value} {Record = Record} events
        (next_event_frame {Value = Value} {Record = Record} (record e { events = events })
          sent).1 in
    (
      ap (λ frames. event protocol_version (e.event_sequence + 1) sent ∷ frames) rest.0,
      omega (arith, rest.1),
    )
