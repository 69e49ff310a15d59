-- ===== src/Network/Connection/Events.antt =====
-- The handlers of a connection's operations, with the handshake, and what happens to it.
use securepath.Base.{ℕ, zero, suc, ◌+◌, List, [], ◌∷◌, Option, none, some, get_elem?}
use securepath.Network.Handshake.{EndpointRole, client, server, Wire, Context}
use securepath.Network.Handshake.Negotiation.{
  Handshake, handshake, ExporterFunction, start, handle_packet,
}
use securepath.Network.Connection.{
  ErrorCode, Operation, Outcome, Connection, max_handshake_frame_size, pend, disconnect_with,
  on_resolve, on_connect, on_starting_tls, do_send, advance_handshake, on_data_frame, on_write,
  on_data_write, on_timeout, send, on_posted_close, close, close_later, resolving, connecting_to,
  starting_tls, tls_handshaking, reading_handshake, writing_handshake, reading_data, timing,
  posted_send, posted_remove, writing_data, refused_data, refused_handshake, invalid_data,
  posted_close,
}

abbrev pub without_at : ℕ → List Operation → List Operation
without_at n [] = []
without_at zero (op ∷ ops) = ops
without_at (suc n) (op ∷ ops) = op ∷ without_at n ops

-- What happens to a connection: a pending operation completes, or the program calls it.
pub data Event : Type 0 where
  completes : ℕ → Outcome → Event
  sends : List ℕ → Event
  closes : Event
  closes_later : Option ErrorCode → Event

module _ (c : Context) (w : Wire) (exporter : ExporterFunction) where
  unfoldable pub start_handshake : EndpointRole → List ℕ → Connection → Connection
  unfolding advance_handshake
  start_handshake client random s =
      advance_handshake (start c w (handshake client) s.handshake_data random) s
  start_handshake server random s =
      pend reading_handshake (record s { handshake = some (handshake server) })

  unfoldable pub on_tls_handshake : Option ErrorCode → List ℕ → Connection → Connection
  unfolding start_handshake
  on_tls_handshake (some e) random s = disconnect_with (some e) s
  on_tls_handshake none random s =
      start_handshake s.role random (record s { reader_limit = some max_handshake_frame_size })

  -- There is a handshake whenever one of its frames is awaited.
  unfoldable pub step_handshake : Option Handshake → List ℕ → List ℕ → Connection → Connection
  unfolding advance_handshake
  step_handshake none random frame s = s
  step_handshake (some h) random frame s =
      advance_handshake (handle_packet c w exporter h random frame) s

  unfoldable pub on_handshake_frame : Outcome → Option ErrorCode → Connection → Connection
  unfolding step_handshake
  on_handshake_frame o (some e) s = disconnect_with (some e) s
  on_handshake_frame o none s = step_handshake s.handshake o.random o.frame s

  unfoldable pub handler : Operation → Outcome → Connection → Connection
  unfolding on_tls_handshake on_handshake_frame
  handler (resolving address) o s = on_resolve address o.ec s
  handler (connecting_to address) o s = on_connect o.ec s
  handler starting_tls o s = on_starting_tls s
  handler tls_handshaking o s = on_tls_handshake o.ec o.random s
  handler reading_handshake o s = on_handshake_frame o o.ec s
  handler writing_handshake o s = on_write o.ec s
  handler reading_data o s = on_data_frame o.ec o.frame s
  handler (writing_data size) o s = on_data_write size o.ec s
  handler refused_handshake o s = on_write (some invalid_data) s
  handler (refused_data size) o s = on_data_write size (some invalid_data) s
  handler timing o s = on_timeout o.ec s
  handler posted_send o s = do_send s
  handler posted_remove o s = record s { removals = s.removals + 1 }
  handler (posted_close e) o s = on_posted_close e s

  unfoldable pub complete_with : Option Operation → ℕ → Outcome → Connection → Connection
  unfolding handler
  complete_with none i o s = s
  complete_with (some op) i o s = handler op o (record s { pending = without_at i s.pending })

  unfoldable pub step : Event → Connection → Connection
  unfolding complete_with
  step (completes i o) s = complete_with (get_elem? s.pending i) i o s
  step (sends octets) s = send octets s
  step closes s = close s
  step (closes_later e) s = close_later e s

  unfoldable pub run : List Event → Connection → Connection
  run [] s = s
  run (e ∷ es) s = run es (step e s)
