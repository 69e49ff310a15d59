-- ===== src/Network/Connection.antt =====
-- securepath/network/encryption/detail/encrypted_connection_impl.cpp: a connection as a state with the
-- asynchronous operations that are pending; each of them completes once, in any order, with any
-- outcome. What the client is told and what goes to the stream is part of the state, oldest first for
-- the stream and newest first for the client.
pub mod Events
pub mod Follows
pub mod Quiet
pub mod Handled
pub mod Stage
pub mod BringUp
pub mod Trusted
mod Tests
use securepath.Base.{
  ℕ, zero, suc, ◌+◌, Bool, true, false, ◌&&◌, ◌||◌, not, List, [], ◌∷◌, ◌++◌, Option, none, some,
  length, leb, ◌==◌, if◌then◌else◌, get_elem?,
}
use securepath.Crypto.Keys.{PublicKey}
use securepath.Network.Handshake.{
  EndpointRole, client, server, HandshakeOpState, in_progress, succeeded, error, HandshakeResult,
  failed, HandshakeData, Wire, Context,
}
use securepath.Network.Handshake.Negotiation.{
  Handshake, handshake, ExporterFunction, remote_public_key, start, handle_packet,
}

pub data ConnectionState : Type 0 where
  not_connected connecting connected : ConnectionState

pub data ErrorCode : Type 0 where
  operation_aborted handshake_failed timed_out invalid_data : ErrorCode
  other_error : ℕ → ErrorCode

-- The callbacks of encrypted_connection; `none` is no error.
pub data Notification : Type 0 where
  on_connected : Notification
  on_sent : ℕ → Notification
  on_received : List ℕ → Notification
  on_disconnected : Option ErrorCode → Notification

-- What is on the strand or under way: a handler bound to it, named for the operation it waits for. The
-- refused ones are posted with the error, for a payload that was not written.
pub data Operation : Type 0 where
  resolving connecting_to : List ℕ → Operation
  starting_tls tls_handshaking reading_handshake writing_handshake : Operation
  reading_data timing posted_send posted_remove : Operation
  refused_handshake : Operation
  writing_data refused_data : ℕ → Operation
  posted_close : Option ErrorCode → Operation

-- What an operation gives: an error or none, a frame, and the octets that a step draws.
pub record Outcome : Type 0 where
  pub ec : Option ErrorCode
  pub frame : List ℕ
  pub random : List ℕ

-- `reader_limit` is the frame size of `reader_`, where there is one.
pub record Connection : Type 0 where
  pub has_client : Bool
  pub has_server : Bool
  pub role : EndpointRole
  pub handshake_data : HandshakeData
  pub handshake : Option Handshake
  pub reader_limit : Option ℕ
  pub remote_key : Option PublicKey
  pub out_queue : List (List ℕ)
  pub state : ConnectionState
  pub is_connected : Bool
  pub is_closed : Bool
  pub writing : Bool
  pub disconnected : Bool
  pub pending : List Operation
  pub told : List Notification
  pub sent : List (List ℕ)
  pub handshake_sent : List (List ℕ)
  pub removals : ℕ

unfoldable pub encrypted_connection_impl : Bool → HandshakeData → Connection
encrypted_connection_impl has_server d = record {
  has_client = true;
  has_server = has_server;
  role = client;
  handshake_data = d;
  handshake = none;
  reader_limit = none;
  remote_key = none;
  out_queue = [];
  state = not_connected;
  is_connected = false;
  is_closed = false;
  writing = false;
  disconnected = false;
  pending = [];
  told = [];
  sent = [];
  handshake_sent = [];
  removals = 0;
}

abbrev pub max_frame_size : ℕ
max_frame_size = 16777216

abbrev pub max_handshake_frame_size : ℕ
max_handshake_frame_size = 262144

unfoldable pub pend : Operation → Connection → Connection
pend op s = record s { pending = s.pending ++ op ∷ [] }

-- notify_connected, notify_sent and notify_received.
unfoldable pub notify : Notification → Connection → Connection
notify n s = if s.has_client then record s { told = n ∷ s.told } else s

-- The client is let go, its server forgets it.
unfoldable pub tell_off : Option ErrorCode → Connection → Connection
tell_off e s =
    if s.has_client
    then record s {
      has_client = false;
      told = on_disconnected e ∷ s.told;
      has_server = false;
      removals = if s.has_server then s.removals + 1 else s.removals;
    }
    else s

unfoldable pub disconnect_with : Option ErrorCode → Connection → Connection
unfolding tell_off
disconnect_with e s =
    if s.disconnected
    then s
    else record (tell_off e (record s { disconnected = true; is_connected = false })) {
      is_closed = true;
      state = not_connected;
    }

unfoldable pub connect : List ℕ → Connection → Option Connection
unfolding pend
connect address s = connect_in s.state
  where
    connect_in : ConnectionState → Option Connection
    connect_in not_connected = some (
        pend timing (
          pend (resolving address) (record s {
            state = connecting;
            handshake_data = record s.handshake_data { network_address = address };
          })))
    connect_in connecting = none
    connect_in connected = none

abbrev pub is_aborted : ErrorCode → Bool
is_aborted operation_aborted = true
is_aborted e = false

unfoldable pub unless_aborted : ErrorCode → Connection → Connection
unless_aborted e s = if is_aborted e then s else disconnect_with (some e) s

unfoldable pub on_resolve : List ℕ → Option ErrorCode → Connection → Connection
unfolding unless_aborted
on_resolve address none s =
    if s.has_client then pend (connecting_to address) s else disconnect_with none s
on_resolve address (some e) s = unless_aborted e s

unfoldable pub start_tls : EndpointRole → Connection → Connection
start_tls r s = pend tls_handshaking (record s { role = r })

unfoldable pub on_connect : Option ErrorCode → Connection → Connection
unfolding start_tls unless_aborted
on_connect none s = if s.has_client then start_tls client s else disconnect_with none s
on_connect (some e) s = unless_aborted e s

unfoldable pub start_server_handshake : Connection → Connection
start_server_handshake s = pend starting_tls (pend timing (record s { state = connecting }))

unfoldable pub on_starting_tls : Connection → Connection
unfolding start_tls
on_starting_tls s = if s.has_client then start_tls server s else s

unfoldable pub receive_data : Connection → Connection
receive_data s = if s.is_connected && s.has_client then pend reading_data s else s

-- async_send_frame for a message, and whether its size is one that it writes.
unfoldable pub send_payload : Bool → List ℕ → Connection → Connection
send_payload true payload s =
    pend (writing_data (length payload)) (record s { sent = s.sent ++ payload ∷ [] })
send_payload false payload s = pend (refused_data (length payload)) s

unfoldable pub send_front : List (List ℕ) → Connection → Connection
unfolding send_payload
send_front [] s = s
send_front (payload ∷ queue) s =
    send_payload (leb (length payload) max_frame_size) payload
      (record s { writing = true; out_queue = queue })

unfoldable pub do_send : Connection → Connection
unfolding send_front
do_send s = if s.writing || not s.is_connected then s else send_front s.out_queue s

unfoldable pub become_connected : Handshake → Connection → Connection
unfolding receive_data do_send notify
become_connected h s = do_send (
    receive_data (
      notify on_connected (record s {
        remote_key = remote_public_key h;
        state = connected;
        is_connected = true;
        reader_limit = some max_frame_size;
      })))

-- async_send_frame for a packet of the handshake.
unfoldable pub write_packet : Bool → List ℕ → Connection → Connection
write_packet true packet s =
    pend writing_handshake (record s { handshake_sent = s.handshake_sent ++ packet ∷ [] })
write_packet false packet s = pend refused_handshake s

unfoldable pub send_packet : List ℕ → Connection → Connection
unfolding write_packet
send_packet [] s = s
send_packet (b ∷ bs) s = write_packet (leb (length (b ∷ bs)) max_frame_size) (b ∷ bs) s

unfoldable pub advance : HandshakeOpState → Handshake → Connection → Connection
unfolding become_connected
advance error h s = disconnect_with (some handshake_failed) s
advance succeeded h s = become_connected h s
advance in_progress h s = pend reading_handshake s

-- An error sends nothing.
unfoldable pub packet_of : HandshakeResult → List ℕ
packet_of r = packet_in r.state
  where
    packet_in : HandshakeOpState → List ℕ
    packet_in error = []
    packet_in succeeded = r.packet
    packet_in in_progress = r.packet

unfoldable pub advance_handshake : HandshakeResult × Handshake → Connection → Connection
unfolding advance send_packet packet_of
advance_handshake done s =
    advance done.0.state done.1
      (send_packet (packet_of done.0) (record s { handshake = some done.1 }))

unfoldable pub on_data_frame : Option ErrorCode → List ℕ → Connection → Connection
on_data_frame (some e) frame s = disconnect_with (some e) s
on_data_frame none frame s = receive_data (notify (on_received frame) s)

unfoldable pub on_write : Option ErrorCode → Connection → Connection
on_write (some e) s = disconnect_with (some e) s
on_write none s = s

unfoldable pub on_data_write : ℕ → Option ErrorCode → Connection → Connection
on_data_write size (some e) s = disconnect_with (some e) (record s { writing = false })
on_data_write size none s = do_send (notify (on_sent size) (record s { writing = false }))

abbrev pub is_up : ConnectionState → Bool
is_up connected = true
is_up connecting = false
is_up not_connected = false

unfoldable pub on_timeout : Option ErrorCode → Connection → Connection
on_timeout (some e) s = s
on_timeout none s = if is_up s.state then s else disconnect_with (some timed_out) s

unfoldable pub send : List ℕ → Connection → Connection
send octets s =
    let queued : Connection = record s { out_queue = s.out_queue ++ octets ∷ [] } in
    if s.is_connected then pend posted_send queued else queued

unfoldable pub on_posted_close : Option ErrorCode → Connection → Connection
on_posted_close e s = if s.is_closed then s else disconnect_with e (record s { is_closed = true })

unfoldable pub do_close : Connection → Connection
do_close s =
    let freed : Connection =
      if s.has_server && s.has_client
      then pend posted_remove (record s { has_server = false })
      else s in
    disconnect_with none (record freed { has_client = false })

unfoldable pub close : Connection → Connection
unfolding do_close
close s = if s.is_closed then s else do_close (record s { is_closed = true })

unfoldable pub close_later : Option ErrorCode → Connection → Connection
close_later e s = pend (posted_close e) s
