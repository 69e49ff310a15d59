-- ===== src/Network/Handshake/Tests.antt =====
-- An exchange between two ends that hold the same certified key, on a wire for one conversation.
use securepath.Base.{
  ℕ, ◌≡◌, ◌≢◌, refl, ap, sym, ◌∙◌, true, false, List, [], ◌∷◌, none, some, arith, ok,
}
use securepath.Crypto.Keys.{PublicKey, Signature}
use securepath.Crypto.Keys
use securepath.Crypto.Chain
use securepath.Crypto.Chain.Restricted
use securepath.Crypto.Chain.Tests.{trusting, payload, key, root_key, empty_store, chain}
use securepath.Network.Handshake.{
  client, succeeded, HandshakeResult, sends, HandshakeData, handshake_data, public_key_tag,
  current_version, AuthCredentials, Auth, Wire, Context, enable_client_pk_handshake,
  enable_server_pk_handshake, add_handshake,
}
use securepath.Network.Handshake.PkHandshake.{
  ClientPkHandshake, make_auth, verify_credentials, chain_is_authentic, holds_binding, restriction,
}
use securepath.Network.Handshake.Negotiation.{
  Concrete, client_pk, derive_binding, ExporterFunction, remote_public_key, Handshake,
}
use securepath.Network.Handshake.Guarded.{IsVerifiedKey}
use securepath.Network.Handshake.Reached.{Reached, started, received}
use securepath.Network.Handshake.Authenticated.{
  IsAuthenticated, IsPeer, handle_packet-IsAuthenticated, handle_packet-discloses,
  remote_public_key-IsVerified,
}
use securepath.Network.Handshake.Exchange.{Exchange, exchange, client_binding, server_binding}
use securepath.Network.Handshake.Agreement.{client_replied-is, IsCarried, exchange-succeeds}

abbrev pub client_id : List ℕ
client_id = 17 ∷ []

abbrev pub server_id : List ℕ
server_id = 23 ∷ []

-- An exporter that tells every context from the others.
abbrev pub exporter : ExporterFunction
exporter label context size = size ∷ context

abbrev sig : Signature
sig = record { issuer = 2 ∷ []; octets = 9 ∷ [] }

abbrev pub creds : AuthCredentials
creds = record { key = key 2 (100 ∷ 2 ∷ []); chain = chain; sig = sig }

abbrev auth : Auth
auth = record { creds = some creds }

abbrev pub wire : Wire
wire = record {
  client_hello = record {
    write = λ h. h.handshake_request ∷ h.client_id;
    read = λ o. some (record {
      version = current_version;
      suite = 1;
      handshake_request = public_key_tag;
      client_id = client_id;
    });
  };
  server_hello = record {
    write = λ h. h.handshake_response ∷ h.server_id;
    read = λ o. some (record {
      version = current_version;
      suite = 1;
      handshake_response = public_key_tag;
      server_id = server_id;
      server_auth = 7 ∷ [];
    });
  };
  handshake_ack = record {
    write = λ m. m.version ∷ [];
    read = λ o. some (record { version = current_version });
  };
  auth = record { write = λ m. 7 ∷ []; read = λ o. some auth };
  auth_ss = record { write = λ m. m.mac; read = λ o. some (record { secret_id = []; mac = o }) };
}

abbrev base : Context
base = record {
  algorithms = trusting;
  payload = payload;
  find_root_key = root_key;
  find_certificate = empty_store;
  my_key = some (key 2 (100 ∷ 2 ∷ []));
  sign = λ octets. ok sig;
  my_certificate_chain = some chain;
  authenticate_remote = true;
  shared_secret_id = [];
  find_secret = λ id. none;
  mac = λ secret octets. octets;
  verify_mac = λ secret octets mac. true;
  suite = 1;
  handshakes = [];
}

abbrev pub request : HandshakeData
request = handshake_data public_key_tag

accepted_by_client :
    verify_credentials
      (enable_client_pk_handshake base)
      creds
      (client_binding exporter client_id server_id)
      (restriction request)
    ≡ ok true
unfolding verify_credentials chain_is_authentic holds_binding Restricted.subject
    Restricted.is_authentic_within Restricted.allows Restricted.subject_restrictions
    Chain.is_authentic Chain.is_valid Chain.check_chain Chain.check_chain_element Chain.checked
    Chain.check_link Chain.check_link_certificate Chain.check_link_data Chain.extract
    Chain.is_revoked_in_store Keys.same Keys.references_certificate Keys.revoked_by
    Keys.is_subset_of Keys.certificate_id Keys.key_verify_me Keys.certificate_verify_me
    Keys.is_revoked Keys.certificate_is_authentic enable_client_pk_handshake add_handshake
accepted_by_client = refl

accepted_by_server :
    verify_credentials
      (enable_server_pk_handshake base)
      creds
      (server_binding exporter client_id server_id)
      none
    ≡ ok true
unfolding verify_credentials chain_is_authentic holds_binding Restricted.subject Chain.is_authentic
    Chain.is_valid Chain.check_chain Chain.check_chain_element Chain.checked Chain.check_link
    Chain.check_link_certificate Chain.check_link_data Chain.extract Chain.is_revoked_in_store
    Keys.same Keys.references_certificate Keys.revoked_by Keys.is_subset_of Keys.certificate_id
    Keys.key_verify_me Keys.certificate_verify_me Keys.is_revoked Keys.certificate_is_authentic
    enable_server_pk_handshake add_handshake
accepted_by_server = refl

carried : IsCarried base base wire exporter request client_id server_id creds auth
carried = record {
  hello_read = refl;
  reply_read = refl;
  server_auth_read = refl;
  server_auth_written = λ e. absurd (ground (arith, e));
  client_auth_read = refl;
  ack_read = refl;
}

abbrev pub client_context : Context
client_context = enable_client_pk_handshake base

abbrev pub server_context : Context
server_context = enable_server_pk_handshake base

abbrev run : Exchange
run = exchange client_context server_context wire exporter request client_id server_id

exchanged :
    (run.server_done.0.state ≡ succeeded)
    × (run.client_done.0.state ≡ succeeded)
    × (remote_public_key run.client_done.1 ≡ some creds.key)
    × (remote_public_key run.server_done.1 ≡ some creds.key)
unfolding make_auth enable_client_pk_handshake enable_server_pk_handshake add_handshake
exchanged =
    exchange-succeeds base base wire exporter request client_id server_id creds auth carried refl
      refl refl accepted_by_client refl accepted_by_server

exchange-succeeds_example :
    (run.server_done.0.state ≡ succeeded)
    × (run.client_done.0.state ≡ succeeded)
    × (remote_public_key run.client_done.1 ≡ some creds.key)
    × (remote_public_key run.server_done.1 ≡ some creds.key)
unfolding make_auth enable_client_pk_handshake enable_server_pk_handshake add_handshake
exchange-succeeds_example =
    exchange-succeeds base base wire exporter request client_id server_id creds auth carried refl
      refl refl accepted_by_client refl accepted_by_server

client-Reached : Reached client_context wire exporter run.client_replied.1
client-Reached = received (started client request client_id) [] run.server_replied.0.packet

handle_packet-IsAuthenticated_example :
    (x : Concrete) × (run.client_done.1.concrete ≡ some x)
    × IsAuthenticated client_context (derive_binding exporter run.client_done.1) x
handle_packet-IsAuthenticated_example =
    handle_packet-IsAuthenticated client_context wire exporter [] run.server_done.0.packet
      client-Reached exchanged.1

remote_public_key-IsVerified_example :
    IsPeer client_context wire exporter creds.key (derive_binding exporter run.client_done.1)
remote_public_key-IsVerified_example =
    remote_public_key-IsVerified client_context wire exporter creds.key
      (received client-Reached [] run.server_done.0.packet) exchanged.2

abbrev client_state : ClientPkHandshake
client_state = record {
  data_ = record request { binding = client_binding exporter client_id server_id };
  server_verified = true;
  remote_key = some creds.key;
}

abbrev client_knows : Handshake
client_knows = record {
  role = client;
  requested = record request { binding = client_binding exporter client_id server_id };
  client_id = client_id;
  server_id = server_id;
  client_hello_sent = false;
  concrete = some (client_pk client_state);
}

replied_as : run.client_replied ≡ (sends (7 ∷ []), client_knows)
unfolding make_auth enable_client_pk_handshake enable_server_pk_handshake add_handshake
replied_as =
    client_replied-is base base wire exporter request client_id server_id creds auth carried refl
      refl refl refl accepted_by_client refl

replied : run.client_replied.1.concrete ≡ some (client_pk client_state)
unfolding make_auth enable_client_pk_handshake enable_server_pk_handshake add_handshake
replied = ap (λ (t : HandshakeResult × Handshake). t.1.concrete) replied_as

sent : run.client_replied.0.packet ≢ []
unfolding enable_client_pk_handshake enable_server_pk_handshake add_handshake
sent e =
    absurd
      (ground (arith, sym (ap (λ (t : HandshakeResult × Handshake). t.0.packet) replied_as) ∙ e))

handle_packet-discloses_example :
    IsVerifiedKey client_context client_state.remote_key
      (derive_binding exporter run.client_replied.1)
      (restriction run.client_replied.1.requested)
handle_packet-discloses_example =
    handle_packet-discloses client_context wire exporter [] run.server_replied.0.packet client_state
      (started client request client_id) replied sent
