-- ===== src/Network/Handshake/Negotiation.antt =====
-- securepath/network/encryption/handshake/handshake.cpp: the exchange of hellos, the channel binding
-- and the steps of the handshake that they choose. A random id is an argument of the step that
-- draws it; the exporter is the TLS stream's, of a label, a context and a length.
use securepath.Base.{
  ℕ, Bool, true, false, ◌&&◌, List, [], ◌∷◌, ◌++◌, Option, none, some, length, ◌==◌, if◌then◌else◌,
}
use securepath.Crypto.Keys.{PublicKey}
use securepath.Network.Handshake.{
  EndpointRole, client, server, HandshakeOpState, in_progress, succeeded, error, HandshakeBinding,
  HandshakeResult, failed, sends, HandshakeData, handshake_data, current_version, ClientHello,
  ServerHello, Wire, Registered, client_pk_only, server_pk_only, pk_by_role, client_ss_only,
  server_ss_only, Context, find_handshake,
}
use securepath.Network.Handshake.PkHandshake.{
  ClientPkHandshake, ServerPkHandshake, client_pk_packet, server_pk_start, server_pk_packet,
}
use securepath.Network.Handshake.SharedSecret.{
  SsHandshake, client_ss_start, client_ss_packet, server_ss_start, server_ss_packet,
}

pub data Concrete : Type 0 where
  client_pk : ClientPkHandshake → Concrete
  server_pk : ServerPkHandshake → Concrete
  client_ss server_ss : SsHandshake → Concrete

unfoldable pub pk_handshake_of : HandshakeData → EndpointRole → Concrete
pk_handshake_of d client =
    client_pk (record { data_ = d; server_verified = false; remote_key = none })
pk_handshake_of d server = server_pk (record { binding = d.binding; remote_key = none })

unfoldable pub construct : Context → HandshakeData → Registered → Concrete
unfolding pk_handshake_of
construct c d client_pk_only = pk_handshake_of d client
construct c d server_pk_only = pk_handshake_of d server
construct c d pk_by_role = pk_handshake_of d d.role
construct c d client_ss_only =
    client_ss (record { secret_id = c.shared_secret_id; binding = d.binding })
construct c d server_ss_only =
    server_ss (record { secret_id = c.shared_secret_id; binding = d.binding })

unfoldable pub concrete_start : Context → Wire → Concrete → HandshakeResult
concrete_start c w (client_pk h) = failed
concrete_start c w (server_pk h) = server_pk_start c w h
concrete_start c w (client_ss h) = client_ss_start c w h
concrete_start c w (server_ss h) = server_ss_start h

unfoldable pub concrete_packet : Context → Wire → Concrete → List ℕ → HandshakeResult × Concrete
concrete_packet c w (client_pk h) packet =
    let done = client_pk_packet c w h packet in (done.0, client_pk done.1)
concrete_packet c w (server_pk h) packet =
    let done = server_pk_packet c w h packet in (done.0, server_pk done.1)
concrete_packet c w (client_ss h) packet = (client_ss_packet c w h packet, client_ss h)
concrete_packet c w (server_ss h) packet = (server_ss_packet c w h packet, server_ss h)

unfoldable pub concrete_key : Concrete → Option PublicKey
concrete_key (client_pk h) = h.remote_key
concrete_key (server_pk h) = h.remote_key
concrete_key (client_ss h) = none
concrete_key (server_ss h) = none

pub record Handshake : Type 0 where
  pub role : EndpointRole
  pub requested : HandshakeData
  pub client_id : List ℕ
  pub server_id : List ℕ
  pub client_hello_sent : Bool
  pub concrete : Option Concrete

abbrev pub handshake : EndpointRole → Handshake
handshake r = record {
  role = r;
  requested = handshake_data 0;
  client_id = [];
  server_id = [];
  client_hello_sent = false;
  concrete = none;
}

abbrev pub is_error : HandshakeOpState → Bool
is_error in_progress = false
is_error succeeded = false
is_error error = true

-- "EXPORTER-securepath-auth"
abbrev pub binding_label : List ℕ
binding_label =
    69 ∷ 88 ∷ 80 ∷ 79 ∷ 82 ∷ 84 ∷ 69 ∷ 82 ∷ 45 ∷ 115 ∷ 101 ∷ 99 ∷ 117 ∷ 114 ∷ 101 ∷ 112 ∷ 97 ∷ 116
    ∷ 104 ∷ 45 ∷ 97 ∷ 117 ∷ 116 ∷ 104 ∷ []

abbrev pub client_role_byte : ℕ
client_role_byte = 1

abbrev pub server_role_byte : ℕ
server_role_byte = 2

abbrev pub binding_size : ℕ
binding_size = 32

unfoldable pub binding_context : ℕ → List ℕ → List ℕ → List ℕ
binding_context role_byte client_id server_id = role_byte ∷ (client_id ++ server_id)

abbrev pub local_role_byte : EndpointRole → ℕ
local_role_byte client = client_role_byte
local_role_byte server = server_role_byte

abbrev pub remote_role_byte : EndpointRole → ℕ
remote_role_byte client = server_role_byte
remote_role_byte server = client_role_byte

abbrev pub ExporterFunction : Type 0
ExporterFunction = List ℕ → List ℕ → ℕ → List ℕ

abbrev pub key_of : Option Concrete → Option PublicKey
key_of none = none
key_of (some x) = concrete_key x

unfoldable pub remote_public_key : Handshake → Option PublicKey
unfolding concrete_key
remote_public_key h = key_of h.concrete

unfoldable pub start :
    Context → Wire → Handshake → HandshakeData → List ℕ → HandshakeResult × Handshake
start c w h d random = (
  sends (
      w.client_hello.write (record {
        version = current_version;
        suite = c.suite;
        handshake_request = d.tag;
        client_id = random;
      })),
  record h { requested = d; client_hello_sent = true; client_id = random },
)

unfoldable pub derive_binding : ExporterFunction → Handshake → HandshakeBinding
derive_binding exporter h = record {
  local =
      exporter binding_label (binding_context (local_role_byte h.role) h.client_id h.server_id)
        binding_size;
  remote =
      exporter binding_label (binding_context (remote_role_byte h.role) h.client_id h.server_id)
        binding_size;
}

module _ (c : Context) (w : Wire) (exporter : ExporterFunction) where
  -- The data for the concrete handshake.
  unfoldable pub bound : Handshake → Handshake
  bound h = record h {
    requested = record h.requested { binding = derive_binding exporter h; role = h.role };
  }

  unfoldable pub installed : Handshake → Option Registered → Option Concrete × Handshake
  installed h none = (none, h)
  installed h (some r) =
      let x = construct c h.requested r in (some x, record h { concrete = some x })

  -- `none` where the tag is not offered, which throws.
  unfoldable pub make_concrete : Handshake → Option Concrete × Handshake
  unfolding installed bound
  make_concrete h = installed (bound h) (find_handshake h.requested.tag c.handshakes)

  unfoldable pub server_hello_of : ClientHello → List ℕ → HandshakeResult → HandshakeResult
  server_hello_of hello random first =
      if is_error first.state
      then failed
      else sends (
          w.server_hello.write (record {
            version = current_version;
            suite = c.suite;
            handshake_response = hello.handshake_request;
            server_id = random;
            server_auth = first.packet;
          }))

  -- The server's own first message rides along with its hello.
  unfoldable pub reply_to_hello :
      ClientHello → List ℕ → Option Concrete × Handshake → HandshakeResult × Handshake
  unfolding server_hello_of
  reply_to_hello hello random (none, h) = (failed, h)
  reply_to_hello hello random (some x, h) = (server_hello_of hello random (concrete_start c w x), h)

  unfoldable pub client_hello_matches : ClientHello → Bool
  client_hello_matches hello = hello.version == current_version && hello.suite == c.suite

  unfoldable pub on_client_hello :
      Handshake → List ℕ → Option ClientHello → HandshakeResult × Handshake
  unfolding reply_to_hello client_hello_matches
  on_client_hello h random none = (failed, h)
  on_client_hello h random (some hello) =
      if client_hello_matches hello
      then reply_to_hello hello random (
          make_concrete (record h {
            client_id = hello.client_id;
            server_id = random;
            requested = handshake_data hello.handshake_request;
          }))
      else (failed, h)

  unfoldable pub handle_client_hello : Handshake → List ℕ → List ℕ → HandshakeResult × Handshake
  unfolding on_client_hello
  handle_client_hello h random packet = on_client_hello h random (w.client_hello.read packet)

  -- The concrete handshake's step replaces it in the handshake.
  unfoldable pub concrete_step : Handshake → Concrete → List ℕ → HandshakeResult × Handshake
  concrete_step h x packet =
      let done = concrete_packet c w x packet in (done.0, record h { concrete = some done.1 })

  -- The server has spoken first where its hello carries an authentication.
  unfoldable pub begin : List ℕ → Option Concrete × Handshake → HandshakeResult × Handshake
  unfolding concrete_step
  begin auth (none, h) = (failed, h)
  begin auth (some x, h) =
      if length auth == 0 then (concrete_start c w x, h) else concrete_step h x auth

  unfoldable pub server_hello_matches : Handshake → ServerHello → Bool
  server_hello_matches h hello =
      hello.version == current_version
      && (hello.handshake_response == h.requested.tag && hello.suite == c.suite)

  unfoldable pub on_server_hello : Handshake → Option ServerHello → HandshakeResult × Handshake
  unfolding begin server_hello_matches
  on_server_hello h none = (failed, h)
  on_server_hello h (some hello) =
      if server_hello_matches h hello
      then begin hello.server_auth (make_concrete (record h { server_id = hello.server_id }))
      else (failed, h)

  unfoldable pub handle_server_hello : Handshake → List ℕ → HandshakeResult × Handshake
  unfolding on_server_hello
  handle_server_hello h packet = on_server_hello h (w.server_hello.read packet)

  unfoldable pub packet_to_concrete :
      Handshake → Option Concrete → List ℕ → List ℕ → HandshakeResult × Handshake
  unfolding handle_client_hello concrete_step
  packet_to_concrete h none random packet = handle_client_hello h random packet
  packet_to_concrete h (some x) random packet = concrete_step h x packet

  unfoldable pub handle_packet : Handshake → List ℕ → List ℕ → HandshakeResult × Handshake
  unfolding packet_to_concrete handle_server_hello
  handle_packet h random packet =
      if h.client_hello_sent
      then handle_server_hello (record h { client_hello_sent = false }) packet
      else packet_to_concrete h h.concrete random packet
