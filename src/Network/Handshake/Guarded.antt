-- ===== src/Network/Handshake/Guarded.antt =====
-- In every state that a handshake reaches the peer's key is one that was verified for its channel.
use securepath.Base.{
  ℕ, ◌≡◌, refl, ◌⊎◌, inl, inr, Bool, true, false, ◌&&◌, List, Option, none, some, arith, Result, ok,
  err, either_branch,
}
use securepath.Crypto.Keys.{PublicKey, same, same_lem}
use securepath.Crypto.Chain.{Error}
use securepath.Network.Handshake.{
  HandshakeBinding, HandshakeResult, failed, AuthCredentials, Auth, AuthSs, Wire, deserialise,
  Context,
}
use securepath.Network.Handshake.PkHandshake.{
  ClientPkHandshake, ServerPkHandshake, restriction, verify_credentials, judge_server,
  on_server_creds, verify_server_and_reply, client_pk_packet, judge_client, on_client_creds,
  on_client_auth, server_pk_packet,
}
use securepath.Network.Handshake.SharedSecret.{
  SsHandshake, verify_auth_ss, mac_is_valid, on_server_mac, client_ss_packet, on_client_mac,
  server_ss_packet,
}
use securepath.Network.Handshake.Verified.{both, IsVerified, verify_credentials-IsVerified}

module _ (c : Context) where
  -- A key that came with verified credentials.
  abbrev pub IsVerifiedKey : Option PublicKey → HandshakeBinding → Option (List ℕ) → Type 0
  IsVerifiedKey key b rest =
      (creds : AuthCredentials) × (key ≡ some creds.key) × IsVerified c creds b rest

  abbrev pub KnowsServer : ClientPkHandshake → Type 0
  KnowsServer h = IsVerifiedKey h.remote_key h.data_.binding (restriction h.data_)

  abbrev pub KnowsClient : ServerPkHandshake → Type 0
  KnowsClient h = IsVerifiedKey h.remote_key h.binding none

  -- A mac of the other side's binding under a secret that both know.
  pub record IsMac (m : AuthSs) (b : HandshakeBinding) : Type 0 where
    pub secret : List ℕ
    pub shared : c.find_secret m.secret_id ≡ some secret
    pub valid : c.verify_mac secret b.remote m.mac ≡ true

  -- The client keeps a key only with the server verified.
  abbrev pub KnownOrUnverified : ClientPkHandshake → Type 0
  KnownOrUnverified h = ((h.server_verified ≡ false) × (h.remote_key ≡ none)) ⊎ KnowsServer h

  abbrev pub ClientOutcome : HandshakeResult × ClientPkHandshake → ClientPkHandshake → Type 0
  ClientOutcome done h =
      ((done.0 ≡ failed) ⊎ KnowsServer done.1) × (done.1.data_ ≡ h.data_) × KnownOrUnverified done.1

  module _ (w : Wire) where
    stays_failed : (h : ClientPkHandshake) → KnownOrUnverified h → ClientOutcome (failed, h) h
    stays_failed h guard = (inl refl, refl, guard)

    judge_server-outcome :
        (h : ClientPkHandshake) (creds : AuthCredentials) (v : Result Error Bool)
        → verify_credentials c creds h.data_.binding (restriction h.data_) ≡ v
        → KnownOrUnverified h
        → ClientOutcome (judge_server c w h creds v) h
    unfolding judge_server
    judge_server-outcome h creds (err e) said guard = stays_failed h guard
    judge_server-outcome h creds (ok false) said guard = stays_failed h guard
    judge_server-outcome h creds (ok true) said guard =
        let known =
          verify_credentials-IsVerified c creds h.data_.binding (restriction h.data_) said in
        (inr (creds, refl, known), refl, inr (creds, refl, known))

    on_server_creds-outcome :
        (h : ClientPkHandshake) (m : Option AuthCredentials)
        → KnownOrUnverified h
        → ClientOutcome (on_server_creds c w h m) h
    unfolding on_server_creds
    on_server_creds-outcome h none guard = stays_failed h guard
    on_server_creds-outcome h (some creds) guard = judge_server-outcome h creds _ refl guard

    verify_server_and_reply-outcome :
        (h : ClientPkHandshake) (m : Result Error Auth)
        → KnownOrUnverified h
        → ClientOutcome (verify_server_and_reply c w h m) h
    unfolding verify_server_and_reply
    verify_server_and_reply-outcome h (err e) guard = stays_failed h guard
    verify_server_and_reply-outcome h (ok m) guard = on_server_creds-outcome h m.creds guard

    known_if :
        (h : ClientPkHandshake) → h.server_verified ≡ true → KnownOrUnverified h → KnowsServer h
    known_if h verified (inl (unverified, empty)) = absurd (ground (arith, verified, unverified))
    known_if h verified (inr known) = known

    pub client_pk_packet-outcome :
        (h : ClientPkHandshake) (packet : List ℕ)
        → KnownOrUnverified h
        → ClientOutcome (client_pk_packet c w h packet) h
    unfolding client_pk_packet
    client_pk_packet-outcome h packet guard =
        either_branch (λ done. ClientOutcome done h) h.server_verified
          (λ verified. (inr (known_if h verified guard), refl, guard))
          (λ new. verify_server_and_reply-outcome h (deserialise w.auth packet) guard)

  -- The other side's mac was checked.
  abbrev pub KnowsSecret : SsHandshake → Type 0
  KnowsSecret h = (m : AuthSs) × IsMac m h.binding

  -- For the client, under the id that it chose.
  abbrev pub KnowsOwnSecret : SsHandshake → Type 0
  KnowsOwnSecret h = (m : AuthSs) × (m.secret_id ≡ h.secret_id) × IsMac m h.binding

  -- The server's end: on success it knows the client, where it must.
  abbrev pub KnownOrNone : ServerPkHandshake → Type 0
  KnownOrNone h = (h.remote_key ≡ none) ⊎ KnowsClient h

  abbrev pub HasAccepted : ServerPkHandshake → Type 0
  HasAccepted h = KnowsClient h ⊎ ((h.remote_key ≡ none) × (c.authenticate_remote ≡ false))

  abbrev pub ServerOutcome : HandshakeResult × ServerPkHandshake → ServerPkHandshake → Type 0
  ServerOutcome done h =
      ((done.0 ≡ failed) ⊎ HasAccepted done.1) × (done.1.binding ≡ h.binding) × KnownOrNone done.1

  module _ (w : Wire) where
    judge_client-outcome :
        (h : ServerPkHandshake) (creds : AuthCredentials) (v : Result Error Bool)
        → verify_credentials c creds h.binding none ≡ v
        → KnownOrNone h
        → ServerOutcome (judge_client w h creds v) h
    unfolding judge_client
    judge_client-outcome h creds (err e) said known = (inl refl, refl, known)
    judge_client-outcome h creds (ok false) said known = (inl refl, refl, known)
    judge_client-outcome h creds (ok true) said known =
        let checked = verify_credentials-IsVerified c creds h.binding none said in
        (inr (inl (creds, refl, checked)), refl, inr (creds, refl, checked))

    accepted_without :
        (h : ServerPkHandshake) → c.authenticate_remote ≡ false → KnownOrNone h → HasAccepted h
    accepted_without h off (inl empty) = inr (empty, off)
    accepted_without h off (inr known) = inl known

    on_client_creds-outcome :
        (h : ServerPkHandshake) (m : Option AuthCredentials)
        → KnownOrNone h
        → ServerOutcome (on_client_creds c w h m) h
    unfolding on_client_creds
    on_client_creds-outcome h none known =
        either_branch (λ done. ServerOutcome done h) c.authenticate_remote
          (λ must. (inl refl, refl, known))
          (λ off. (inr (accepted_without h off known), refl, known))
    on_client_creds-outcome h (some creds) known = judge_client-outcome h creds _ refl known

    pub server_pk_packet-outcome :
        (h : ServerPkHandshake) (packet : List ℕ)
        → KnownOrNone h
        → ServerOutcome (server_pk_packet c w h packet) h
    unfolding server_pk_packet on_client_auth
    server_pk_packet-outcome h packet known = answered (deserialise w.auth packet)
      where
        answered : (m : Result Error Auth) → ServerOutcome (on_client_auth c w h m) h
        answered (err e) = (inl refl, refl, known)
        answered (ok m) = on_client_creds-outcome h m.creds known

    mac_is_valid-IsMac :
        (m : AuthSs) (b : HandshakeBinding) (found : Option (List ℕ))
        → c.find_secret m.secret_id ≡ found
        → mac_is_valid c m b found ≡ true
        → IsMac m b
    unfolding mac_is_valid
    mac_is_valid-IsMac m b none e h = absurd (ground (arith, h))
    mac_is_valid-IsMac m b (some s) e h = record { secret = s; shared = e; valid = h }

    verify_auth_ss-IsMac :
        (m : AuthSs) (b : HandshakeBinding) → verify_auth_ss c m b ≡ true → IsMac m b
    unfolding verify_auth_ss
    verify_auth_ss-IsMac m b h = mac_is_valid-IsMac m b _ refl h

    pub client_ss_packet-outcome :
        (h : SsHandshake) (packet : List ℕ)
        → (client_ss_packet c w h packet ≡ failed) ⊎ KnowsOwnSecret h
    unfolding client_ss_packet on_server_mac
    client_ss_packet-outcome h packet = answered (deserialise w.auth_ss packet)
      where
        answered : (m : Result Error AuthSs) → (on_server_mac c h m ≡ failed) ⊎ KnowsOwnSecret h
        answered (err e) = inl refl
        answered (ok m) =
            either_branch (λ done. (done ≡ failed) ⊎ KnowsOwnSecret h)
              (same m.secret_id h.secret_id && verify_auth_ss c m h.binding)
              (λ so.
                let (named, valid) = both _ _ so in
                inr (m, same_lem _ _ named, verify_auth_ss-IsMac m h.binding valid))
              (λ _. inl refl)

    pub server_ss_packet-outcome :
        (h : SsHandshake) (packet : List ℕ)
        → (server_ss_packet c w h packet ≡ failed) ⊎ KnowsSecret h
    unfolding server_ss_packet on_client_mac
    server_ss_packet-outcome h packet = answered (deserialise w.auth_ss packet)
      where
        answered : (m : Result Error AuthSs) → (on_client_mac c w h m ≡ failed) ⊎ KnowsSecret h
        answered (err e) = inl refl
        answered (ok m) =
            either_branch (λ done. (done ≡ failed) ⊎ KnowsSecret h) (verify_auth_ss c m h.binding)
              (λ valid. inr (m, verify_auth_ss-IsMac m h.binding valid)) (λ _. inl refl)
