-- ===== src/Network/Connection/BringUp.antt =====
-- The steps that bring a connection up, one at a time, to the handshake that succeeds.
use securepath.Base.{
  ℕ, ◌≡◌, refl, inl, inr, Bool, true, false, leb, length, List, [], ◌∷◌, ◌++◌, Option, none, some,
  arith, either_branch,
}
use securepath.Network.Handshake.{
  EndpointRole, client, server, HandshakeOpState, in_progress, succeeded, error, HandshakeResult,
  Wire, Context,
}
use securepath.Network.Handshake.Negotiation.{
  Concrete, Handshake, handshake, ExporterFunction, remote_public_key, derive_binding, start,
  handle_packet,
}
use securepath.Network.Handshake.Reached.{Reached, waiting, started, received}
use securepath.Network.Handshake.Authenticated.{IsAuthenticated, handle_packet-IsAuthenticated}
use securepath.Network.Connection.{
  ErrorCode, handshake_failed, on_connected, connecting_to, tls_handshaking, reading_handshake,
  writing_handshake, refused_handshake, write_packet, Outcome, Connection, connected, is_aborted,
  max_frame_size, max_handshake_frame_size, pend, notify, disconnect_with, unless_aborted,
  on_resolve, start_tls, on_connect, on_starting_tls, receive_data, become_connected, send_packet,
  advance, packet_of, advance_handshake,
}
use securepath.Network.Connection.Events.{
  start_handshake, on_tls_handshake, step_handshake, on_handshake_frame,
}
use securepath.Network.Connection.Stage.{
  IsReached, Before, After, Stage, pend-Before, weaken, drop-Before, notify-After,
  receive_data-After, do_send-After,
}

module _ (c : Context) (w : Wire) (exporter : ExporterFunction) where
  abbrev pub B : ℕ → Connection → Type 0
  B = Before c w exporter

  abbrev pub A : Connection → Type 0
  A = After c w exporter

  unless_aborted-B : (e : ErrorCode) (s : Connection) → B 0 s → B 1 (unless_aborted e s)
  unfolding unless_aborted
  unless_aborted-B e s b =
      either_branch (B 1) (is_aborted e) (λ _. weaken c w exporter s b)
        (λ _.
          weaken c w exporter (disconnect_with (some e) s)
            (drop-Before c w exporter 0 (some e) s b))

  dropped : (e : Option ErrorCode) (s : Connection) → B 0 s → B 1 (disconnect_with e s)
  dropped e s b = weaken c w exporter (disconnect_with e s) (drop-Before c w exporter 0 e s b)

  -- A driving operation has left the list, so that the next may join it.
  pub on_resolve-B :
      (address : List ℕ) (ec : Option ErrorCode) (s : Connection)
      → B 0 s
      → B 1 (on_resolve address ec s)
  unfolding on_resolve
  on_resolve-B address none s b =
      either_branch (B 1) s.has_client
        (λ _. pend-Before c w exporter 0 (connecting_to address) s refl b) (λ _. dropped none s b)
  on_resolve-B address (some e) s b = unless_aborted-B e s b

  pub on_connect-B : (ec : Option ErrorCode) (s : Connection) → B 0 s → B 1 (on_connect ec s)
  unfolding on_connect start_tls
  on_connect-B none s b =
      either_branch (B 1) s.has_client
        (λ _. pend-Before c w exporter 0 tls_handshaking (record s { role = client }) refl b)
        (λ _. dropped none s b)
  on_connect-B (some e) s b = unless_aborted-B e s b

  pub on_starting_tls-B : (s : Connection) → B 0 s → B 1 (on_starting_tls s)
  unfolding on_starting_tls start_tls
  on_starting_tls-B s b =
      either_branch (B 1) s.has_client
        (λ _. pend-Before c w exporter 0 tls_handshaking (record s { role = server }) refl b)
        (λ _. weaken c w exporter s b)

  write_packet-B :
      (fits : Bool) (packet : List ℕ) (s : Connection) → B 0 s → B 0 (write_packet fits packet s)
  unfolding write_packet
  write_packet-B true packet s b =
      pend-Before c w exporter 0 writing_handshake
        (record s { handshake_sent = s.handshake_sent ++ packet ∷ [] }) refl b
  write_packet-B false packet s b = pend-Before c w exporter 0 refused_handshake s refl b

  send_packet-B : (packet : List ℕ) (s : Connection) → B 0 s → B 0 (send_packet packet s)
  unfolding send_packet
  send_packet-B [] s b = b
  send_packet-B (o ∷ os) s b = write_packet-B (leb (length (o ∷ os)) max_frame_size) (o ∷ os) s b

  with_handshake :
      (h : Handshake) (s : Connection)
      → Reached c w exporter h
      → B 0 s
      → B 0 (record s { handshake = some h })
  with_handshake h s reached b = record {
    few = b.few;
    no_data = b.no_data;
    not_up = b.not_up;
    unheard = b.unheard;
    reached = reached;
    small = b.small;
  }

  -- What makes a connection trusted.
  abbrev Proves : Handshake → Type 0
  Proves h =
      (x : Concrete) × (h.concrete ≡ some x) × IsAuthenticated c (derive_binding exporter h) x

  become_connected-A :
      (h : Handshake) (s : Connection)
      → s.handshake ≡ some h
      → Proves h
      → B 0 s
      → A (become_connected h s)
  unfolding become_connected
  become_connected-A h s kept (x, concrete, authenticated) b =
      let up : Connection = record s {
        remote_key = remote_public_key h;
        state = connected;
        is_connected = true;
        reader_limit = some max_frame_size;
      } in
      let after : A up = record {
        idle = let f = b.few in omega arith;
        trusted = record {
          h = h;
          kept = kept;
          x = x;
          concrete = concrete;
          authenticated = authenticated;
          reported = refl;
        };
      } in
      do_send-After c w exporter (receive_data (notify on_connected up)) (
        receive_data-After c w exporter (notify on_connected up)
          (notify-After c w exporter on_connected up after))

  write_packet-handshake :
      (fits : Bool) (packet : List ℕ) (s : Connection)
      → (write_packet fits packet s).handshake ≡ s.handshake
  unfolding write_packet pend
  write_packet-handshake true packet s = refl
  write_packet-handshake false packet s = refl

  send_packet-handshake :
      (packet : List ℕ) (s : Connection) → (send_packet packet s).handshake ≡ s.handshake
  unfolding send_packet
  send_packet-handshake [] s = refl
  send_packet-handshake (o ∷ os) s =
      write_packet-handshake (leb (length (o ∷ os)) max_frame_size) (o ∷ os) s

  advance-Stage :
      (r : HandshakeOpState) (h : Handshake) (s : Connection)
      → s.handshake ≡ some h
      → (r ≡ succeeded → Proves h)
      → B 0 s
      → Stage c w exporter (advance r h s)
  unfolding advance
  advance-Stage error h s kept proves b = inl (dropped (some handshake_failed) s b)
  advance-Stage succeeded h s kept proves b = inr (become_connected-A h s kept (proves refl) b)
  advance-Stage in_progress h s kept proves b =
      inl (pend-Before c w exporter 0 reading_handshake s refl b)

  advance_handshake-Stage :
      (done : HandshakeResult × Handshake) (s : Connection)
      → Reached c w exporter done.1
      → (done.0.state ≡ succeeded → Proves done.1)
      → B 0 s
      → Stage c w exporter (advance_handshake done s)
  unfolding advance_handshake
  advance_handshake-Stage done s reached proves b =
      let with_it : Connection = record s { handshake = some done.1 } in
      advance-Stage done.0.state done.1 (send_packet (packet_of done.0) with_it)
        (send_packet-handshake (packet_of done.0) with_it) proves
        (send_packet-B (packet_of done.0) with_it (with_handshake done.1 s reached b))

  start_handshake-Stage :
      (r : EndpointRole) (random : List ℕ) (s : Connection)
      → B 0 s
      → Stage c w exporter (start_handshake c w exporter r random s)
  unfolding start_handshake start
  start_handshake-Stage client random s b =
      advance_handshake-Stage (start c w (handshake client) s.handshake_data random) s
        (started client s.handshake_data random) (λ r. absurd (ground (arith, r))) b
  start_handshake-Stage server random s b = inl (
      pend-Before c w exporter 0 reading_handshake
        (record s { handshake = some (handshake server) }) refl
        (with_handshake (handshake server) s (waiting server) b))

  pub on_tls_handshake-Stage :
      (ec : Option ErrorCode) (random : List ℕ) (s : Connection)
      → B 0 s
      → Stage c w exporter (on_tls_handshake c w exporter ec random s)
  unfolding on_tls_handshake
  on_tls_handshake-Stage (some e) random s b = inl (dropped (some e) s b)
  on_tls_handshake-Stage none random s b =
      start_handshake-Stage s.role random
        (record s { reader_limit = some max_handshake_frame_size })
        (record {
          few = b.few;
          no_data = b.no_data;
          not_up = b.not_up;
          unheard = b.unheard;
          reached = b.reached;
          small = omega arith;
        })

  step_handshake-Stage :
      (o : Option Handshake) (random frame : List ℕ) (s : Connection)
      → IsReached c w exporter o
      → B 0 s
      → Stage c w exporter (step_handshake c w exporter o random frame s)
  unfolding step_handshake
  step_handshake-Stage none random frame s reached b = inl (weaken c w exporter s b)
  step_handshake-Stage (some h) random frame s reached b =
      advance_handshake-Stage (handle_packet c w exporter h random frame) s
        (received reached random frame)
        (handle_packet-IsAuthenticated c w exporter random frame reached) b

  pub on_handshake_frame-Stage :
      (o : Outcome) (ec : Option ErrorCode) (s : Connection)
      → B 0 s
      → Stage c w exporter (on_handshake_frame c w exporter o ec s)
  unfolding on_handshake_frame
  on_handshake_frame-Stage o (some e) s b = inl (dropped (some e) s b)
  on_handshake_frame-Stage o none s b =
      step_handshake-Stage s.handshake o.random o.frame s b.reached b
