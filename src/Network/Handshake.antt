-- ===== src/Network/Handshake.antt =====
-- securepath/network/encryption/handshake (handshake_base.hpp, handshake.hpp and protocol.hpp) and
-- securepath/network/encryption/context.cpp: what both ends of a handshake share. The modules
-- below it are the variants and their negotiation.
pub mod PkHandshake
pub mod SharedSecret
pub mod Negotiation
pub mod Verified
pub mod Guarded
pub mod Run
pub mod Reached
pub mod Authenticated
pub mod Exchange
pub mod Agreement
pub mod Tests
use securepath.Base.{
  ℕ, ◌≡◌, ◌≢◌, Bool, true, false, List, [], ◌∷◌, Option, none, some, ◌==◌, if◌then◌else◌, Result,
  ok, err,
}
use securepath.Crypto.Keys.{Algorithms, PublicKey, Certificate, KeyCertificateData, Signature}
use securepath.Crypto.Chain.{Error, not_deserialised, CertificateChain}

pub data EndpointRole : Type 0 where
  client server : EndpointRole

pub data HandshakeOpState : Type 0 where
  in_progress succeeded error : HandshakeOpState

pub record HandshakeBinding : Type 0 where
  pub local : List ℕ
  pub remote : List ℕ

pub record HandshakeResult : Type 0 where
  pub state : HandshakeOpState
  pub packet : List ℕ

abbrev pub failed : HandshakeResult
failed = record { state = error; packet = [] }

abbrev pub sends : List ℕ → HandshakeResult
sends packet = record { state = in_progress; packet = packet }

abbrev pub succeeds : List ℕ → HandshakeResult
succeeds packet = record { state = succeeded; packet = packet }

-- The end of `try`: any exception is the result `error`.
abbrev pub caught : Result Error HandshakeResult → HandshakeResult
caught (ok r) = r
caught (err e) = failed

-- handshake_data; its `std::any` is the host restriction of pk_handshake_client_data, where it is one.
pub record HandshakeData : Type 0 where
  pub tag : ℕ
  pub require_host_restriction : Option Bool
  pub network_address : List ℕ
  pub binding : HandshakeBinding
  pub role : EndpointRole

abbrev pub no_binding : HandshakeBinding
no_binding = record { local = []; remote = [] }

-- handshake_data{tag}
abbrev pub handshake_data : ℕ → HandshakeData
handshake_data tag = record {
  tag = tag;
  require_host_restriction = none;
  network_address = [];
  binding = no_binding;
  role = client;
}

abbrev pub public_key_tag : ℕ
public_key_tag = 2

abbrev pub shared_secret_tag : ℕ
shared_secret_tag = 4

abbrev pub current_version : ℕ
current_version = 2

abbrev pub hello_id_size : ℕ
hello_id_size = 16

pub record ClientHello : Type 0 where
  pub version : ℕ
  pub suite : ℕ
  pub handshake_request : ℕ
  pub client_id : List ℕ

pub record ServerHello : Type 0 where
  pub version : ℕ
  pub suite : ℕ
  pub handshake_response : ℕ
  pub server_id : List ℕ
  pub server_auth : List ℕ

pub record HandshakeAck : Type 0 where
  pub version : ℕ

pub record AuthCredentials : Type 0 where
  pub key : PublicKey
  pub chain : CertificateChain
  pub sig : Signature

pub record Auth : Type 0 where
  pub creds : Option AuthCredentials

pub record AuthSs : Type 0 where
  pub secret_id : List ℕ
  pub mac : List ℕ

-- asn_der_serialise and asn_der_deserialise of one type; `none` where the latter throws.
pub record Codec (A : Type 0) : Type 0 where
  pub write : A → List ℕ
  pub read : List ℕ → Option A

pub record Wire : Type 0 where
  pub client_hello : Codec ClientHello
  pub server_hello : Codec ServerHello
  pub handshake_ack : Codec HandshakeAck
  pub auth : Codec Auth
  pub auth_ss : Codec AuthSs

-- What is written is read back.
abbrev pub IsReadBack : {A : Type 0} → Codec A → A → Type 0
IsReadBack codec x = codec.read (codec.write x) ≡ some x

-- A message that cannot be read throws.
abbrev pub present : {A : Type 0} → Option A → Result Error A
present none = err not_deserialised
present (some x) = ok x

abbrev pub deserialise : {A : Type 0} → Codec A → List ℕ → Result Error A
deserialise c packet = present (c.read packet)

-- The constructors that enable_client_pk_handshake, enable_server_pk_handshake,
-- enable_pk_handshake, enable_client_ss_handshake and enable_server_ss_handshake register.
pub data Registered : Type 0 where
  client_pk_only server_pk_only pk_by_role client_ss_only server_ss_only : Registered

-- The crypto accesses of context, its registry (the newest entry of a tag counts), and what they
-- need: `sign` is the own key's under "sp-tls-auth", `mac` and `verify_mac` are HMAC-SHA3-512.
pub record Context : Type 0 where
  pub algorithms : Algorithms
  pub payload : List ℕ → Option KeyCertificateData
  pub find_root_key : List ℕ → Option PublicKey
  pub find_certificate : List ℕ → Option Certificate
  pub my_key : Option PublicKey
  pub sign : List ℕ → Result Error Signature
  pub my_certificate_chain : Option CertificateChain
  pub authenticate_remote : Bool
  pub shared_secret_id : List ℕ
  pub find_secret : List ℕ → Option (List ℕ)
  pub mac : List ℕ → List ℕ → List ℕ
  pub verify_mac : List ℕ → List ℕ → List ℕ → Bool
  pub suite : ℕ
  pub handshakes : List (ℕ × Registered)

unfoldable pub add_handshake : Context → ℕ → Registered → Context
add_handshake c tag r = record c { handshakes = (tag, r) ∷ c.handshakes }

unfoldable pub enable_client_pk_handshake : Context → Context
enable_client_pk_handshake c = add_handshake c public_key_tag client_pk_only

unfoldable pub enable_server_pk_handshake : Context → Context
enable_server_pk_handshake c = add_handshake c public_key_tag server_pk_only

unfoldable pub enable_pk_handshake : Context → Context
enable_pk_handshake c = add_handshake c public_key_tag pk_by_role

unfoldable pub enable_client_ss_handshake : Context → Context
enable_client_ss_handshake c = add_handshake c shared_secret_tag client_ss_only

unfoldable pub enable_server_ss_handshake : Context → Context
enable_server_ss_handshake c = add_handshake c shared_secret_tag server_ss_only

unfoldable pub find_handshake : ℕ → List (ℕ × Registered) → Option Registered
find_handshake tag [] = none
find_handshake tag ((t, r) ∷ rest) =
    let older = find_handshake tag rest in if t == tag then some r else older
