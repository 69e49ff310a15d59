-- ===== src/Network/Handshake/PkHandshake.antt =====
-- securepath/network/encryption/handshake/pk_handshake.cpp: the public-key handshake of each side.
use securepath.Base.{
  ℕ, Bool, true, false, ◌&&◌, List, [], Option, none, some, ◌==◌, if◌then◌else◌, Result, ok, err,
  ◌>>=◌,
}
use securepath.Crypto.Keys.{PublicKey, sp_tls_auth, same}
use securepath.Crypto.Chain.{Error, invalid_data, CertificateChain, is_authentic}
use securepath.Crypto.Chain.Restricted.{subject, is_authentic_within}
use securepath.Network.Handshake.{
  HandshakeBinding, HandshakeResult, failed, sends, succeeds, caught, HandshakeData,
  current_version, HandshakeAck, AuthCredentials, Auth, Wire, deserialise, Context,
}

made_auth :
    Context
    → HandshakeBinding
    → Bool
    → Option PublicKey
    → Option CertificateChain
    → Result Error Auth
made_auth c b required (some key) (some chain) = do
  sig ← c.sign b.local
  ok (record { creds = some (record { key = key; chain = chain; sig = sig }) })
made_auth c b true none chain = err invalid_data
made_auth c b true (some key) none = err invalid_data
made_auth c b false none chain = ok (record { creds = none })
made_auth c b false (some key) none = ok (record { creds = none })

unfoldable pub make_auth : Context → HandshakeBinding → Bool → Result Error Auth
unfolding made_auth
make_auth c b required = made_auth c b required c.my_key c.my_certificate_chain

unfoldable pub chain_is_authentic : Context → CertificateChain → Option (List ℕ) → Result Error Bool
chain_is_authentic c chain none =
    is_authentic c.algorithms c.payload c.find_root_key c.find_certificate chain
chain_is_authentic c chain (some rest) =
    is_authentic_within c.algorithms c.payload c.find_root_key c.find_certificate chain rest

-- The key is the chain's subject, and signed the binding of the other side.
unfoldable pub holds_binding : Context → AuthCredentials → HandshakeBinding → Result Error Bool
holds_binding c creds b = do
  last ← subject c.algorithms c.payload creds.chain
  ok (
      same last.id creds.key.id
      && c.algorithms.verify creds.key.material (sp_tls_auth b.remote) creds.sig.octets)

unfoldable pub verify_credentials :
    Context → AuthCredentials → HandshakeBinding → Option (List ℕ) → Result Error Bool
unfolding chain_is_authentic holds_binding
verify_credentials c creds b rest = do
  authentic ← chain_is_authentic c creds.chain rest
  if authentic then holds_binding c creds b else ok false

pub record ClientPkHandshake : Type 0 where
  pub data_ : HandshakeData
  pub server_verified : Bool
  pub remote_key : Option PublicKey

pub record ServerPkHandshake : Type 0 where
  pub binding : HandshakeBinding
  pub remote_key : Option PublicKey

-- The host name that the server's certificate must allow: by default it must.
abbrev pub asked : Option Bool → List ℕ → Option (List ℕ)
asked none address = some address
asked (some true) address = some address
asked (some false) address = none

abbrev pub restriction : HandshakeData → Option (List ℕ)
restriction d = asked d.require_host_restriction d.network_address

-- The client's reply once the server is verified: its own credentials, where it has them.
unfoldable pub disclose : Context → Wire → HandshakeBinding → HandshakeResult
disclose c w b = caught do reply ← make_auth c b false; ok (sends (w.auth.write reply))

unfoldable pub judge_server :
    Context
    → Wire
    → ClientPkHandshake
    → AuthCredentials
    → Result Error Bool
    → HandshakeResult × ClientPkHandshake
judge_server c w h creds (ok true) =
    (disclose c w h.data_.binding, record h { server_verified = true; remote_key = some creds.key })
judge_server c w h creds (ok false) = (failed, h)
judge_server c w h creds (err e) = (failed, h)

unfoldable pub on_server_creds :
    Context
    → Wire
    → ClientPkHandshake
    → Option AuthCredentials
    → HandshakeResult × ClientPkHandshake
unfolding judge_server
on_server_creds c w h none = (failed, h)
on_server_creds c w h (some creds) =
    judge_server c w h creds (verify_credentials c creds h.data_.binding (restriction h.data_))

unfoldable pub verify_server_and_reply :
    Context → Wire → ClientPkHandshake → Result Error Auth → HandshakeResult × ClientPkHandshake
unfolding on_server_creds
verify_server_and_reply c w h (err e) = (failed, h)
verify_server_and_reply c w h (ok m) = on_server_creds c w h m.creds

unfoldable pub on_ack : Result Error HandshakeAck → HandshakeResult
on_ack (err e) = failed
on_ack (ok ack) = if ack.version == current_version then succeeds [] else failed

unfoldable pub client_pk_packet :
    Context → Wire → ClientPkHandshake → List ℕ → HandshakeResult × ClientPkHandshake
unfolding verify_server_and_reply on_ack
client_pk_packet c w h packet =
    if h.server_verified
    then (on_ack (deserialise w.handshake_ack packet), h)
    else verify_server_and_reply c w h (deserialise w.auth packet)

unfoldable pub server_pk_start : Context → Wire → ServerPkHandshake → HandshakeResult
server_pk_start c w h = caught do m ← make_auth c h.binding true; ok (sends (w.auth.write m))

abbrev pub acknowledged : Wire → HandshakeResult
acknowledged w = succeeds (w.handshake_ack.write (record { version = current_version }))

unfoldable pub judge_client :
    Wire
    → ServerPkHandshake
    → AuthCredentials
    → Result Error Bool
    → HandshakeResult × ServerPkHandshake
judge_client w h creds (ok true) = (acknowledged w, record h { remote_key = some creds.key })
judge_client w h creds (ok false) = (failed, h)
judge_client w h creds (err e) = (failed, h)

unfoldable pub on_client_creds :
    Context
    → Wire
    → ServerPkHandshake
    → Option AuthCredentials
    → HandshakeResult × ServerPkHandshake
unfolding judge_client
on_client_creds c w h none = if c.authenticate_remote then (failed, h) else (acknowledged w, h)
on_client_creds c w h (some creds) =
    judge_client w h creds (verify_credentials c creds h.binding none)

unfoldable pub on_client_auth :
    Context → Wire → ServerPkHandshake → Result Error Auth → HandshakeResult × ServerPkHandshake
unfolding on_client_creds
on_client_auth c w h (err e) = (failed, h)
on_client_auth c w h (ok m) = on_client_creds c w h m.creds

unfoldable pub server_pk_packet :
    Context → Wire → ServerPkHandshake → List ℕ → HandshakeResult × ServerPkHandshake
unfolding on_client_auth
server_pk_packet c w h packet = on_client_auth c w h (deserialise w.auth packet)
