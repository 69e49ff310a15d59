-- ===== src/Network/Handshake/Exchange.antt =====
-- An exchange between two ends, and what each of them signs in it.
use securepath.Base.{ℕ, ◌≡◌, true, false, List, [], ◌∷◌, ◌++◌, Option, none, some, ok}
use securepath.Crypto.Keys.{PublicKey}
use securepath.Network.Handshake.{
  client, server, HandshakeBinding, HandshakeResult, HandshakeData, AuthCredentials, Wire, Context,
}
use securepath.Network.Handshake.PkHandshake.{verify_credentials}
use securepath.Network.Handshake.Negotiation.{
  Handshake, handshake, binding_label, client_role_byte, server_role_byte, binding_size,
  ExporterFunction, start, handle_packet,
}

-- The packets of an exchange in turn: hello, hello with the server's authentication, the client's
-- authentication, acknowledgement; `client_id` and `server_id` are what the ends draw.
pub record Exchange : Type 0 where
  pub client_sent : HandshakeResult × Handshake
  pub server_replied : HandshakeResult × Handshake
  pub client_replied : HandshakeResult × Handshake
  pub server_done : HandshakeResult × Handshake
  pub client_done : HandshakeResult × Handshake

module _ (cc sc : Context) (w : Wire) (exporter : ExporterFunction) where
  abbrev pub exchange : HandshakeData → List ℕ → List ℕ → Exchange
  exchange d client_id server_id =
      let c₁ = start cc w (handshake client) d client_id in
      let s₁ = handle_packet sc w exporter (handshake server) server_id c₁.0.packet in
      let c₂ = handle_packet cc w exporter c₁.1 [] s₁.0.packet in
      let s₂ = handle_packet sc w exporter s₁.1 [] c₂.0.packet in
      record {
        client_sent = c₁;
        server_replied = s₁;
        client_replied = c₂;
        server_done = s₂;
        client_done = handle_packet cc w exporter c₂.1 [] s₂.0.packet;
      }

module _ (exporter : ExporterFunction) (client_id server_id : List ℕ) where
  -- What either end signs.
  abbrev pub signed_by : ℕ → List ℕ
  signed_by role_byte = exporter binding_label (role_byte ∷ (client_id ++ server_id)) binding_size

  abbrev pub client_binding : HandshakeBinding
  client_binding = record {
    local = signed_by client_role_byte;
    remote = signed_by server_role_byte;
  }

  abbrev pub server_binding : HandshakeBinding
  server_binding = record {
    local = signed_by server_role_byte;
    remote = signed_by client_role_byte;
  }

-- The server takes this authentication of a client.
abbrev pub Takes : Context → HandshakeBinding → Option AuthCredentials → Type 0
Takes c b none = c.authenticate_remote ≡ false
Takes c b (some creds) = verify_credentials c creds b none ≡ ok true

-- The key that comes with it.
abbrev pub key_in : Option AuthCredentials → Option PublicKey
key_in none = none
key_in (some creds) = some creds.key
