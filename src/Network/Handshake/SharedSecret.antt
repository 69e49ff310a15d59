-- ===== src/Network/Handshake/SharedSecret.antt =====
-- securepath/network/encryption/handshake/ss_handshake.cpp: the shared-secret handshake of each side.
use securepath.Base.{
  ℕ, Bool, false, ◌&&◌, List, [], Option, none, some, if◌then◌else◌, Result, ok, err, ◌>>=◌,
}
use securepath.Crypto.Keys.{same}
use securepath.Crypto.Chain.{Error}
use securepath.Network.Handshake.{
  HandshakeBinding, HandshakeResult, failed, sends, succeeds, caught, AuthSs, Wire, present,
  deserialise, Context,
}

unfoldable pub make_auth_ss : Context → Wire → List ℕ → HandshakeBinding → Result Error (List ℕ)
make_auth_ss c w secret_id b = do
  secret ← present (c.find_secret secret_id)
  ok (w.auth_ss.write (record { secret_id = secret_id; mac = c.mac secret b.local }))

unfoldable pub mac_is_valid : Context → AuthSs → HandshakeBinding → Option (List ℕ) → Bool
mac_is_valid c m b none = false
mac_is_valid c m b (some secret) = c.verify_mac secret b.remote m.mac

unfoldable pub verify_auth_ss : Context → AuthSs → HandshakeBinding → Bool
unfolding mac_is_valid
verify_auth_ss c m b = mac_is_valid c m b (c.find_secret m.secret_id)

pub record SsHandshake : Type 0 where
  pub secret_id : List ℕ
  pub binding : HandshakeBinding

unfoldable pub client_ss_start : Context → Wire → SsHandshake → HandshakeResult
client_ss_start c w h = caught do packet ← make_auth_ss c w h.secret_id h.binding; ok (sends packet)

unfoldable pub on_server_mac : Context → SsHandshake → Result Error AuthSs → HandshakeResult
on_server_mac c h (err e) = failed
on_server_mac c h (ok m) =
    if same m.secret_id h.secret_id && verify_auth_ss c m h.binding then succeeds [] else failed

unfoldable pub client_ss_packet : Context → Wire → SsHandshake → List ℕ → HandshakeResult
unfolding on_server_mac
client_ss_packet c w h packet = on_server_mac c h (deserialise w.auth_ss packet)

-- The client speaks first.
unfoldable pub server_ss_start : SsHandshake → HandshakeResult
server_ss_start h = sends []

unfoldable pub answer_client : Context → Wire → SsHandshake → AuthSs → HandshakeResult
answer_client c w h m =
    caught do packet ← make_auth_ss c w m.secret_id h.binding; ok (succeeds packet)

unfoldable pub on_client_mac : Context → Wire → SsHandshake → Result Error AuthSs → HandshakeResult
on_client_mac c w h (err e) = failed
on_client_mac c w h (ok m) = if verify_auth_ss c m h.binding then answer_client c w h m else failed

unfoldable pub server_ss_packet : Context → Wire → SsHandshake → List ℕ → HandshakeResult
unfolding on_client_mac
server_ss_packet c w h packet = on_client_mac c w h (deserialise w.auth_ss packet)
