-- ===== src/Network/Handshake/Authenticated.antt =====
-- What either end may rely on when its handshake succeeds, and what the client tells whom.
use securepath.Base.{
  ℕ, ◌≡◌, ◌≢◌, refl, ap, sym, ◌∙◌, ◌⊎◌, inl, inr, List, [], Option, none, some, arith, subst, false,
  true,
}
use securepath.Crypto.Keys.{PublicKey}
use securepath.Network.Handshake.{
  succeeded, HandshakeBinding, HandshakeResult, HandshakeData, failed, AuthCredentials, Wire,
  Context,
}
use securepath.Network.Handshake.PkHandshake.{ClientPkHandshake, restriction}
use securepath.Network.Handshake.Negotiation.{
  Concrete, client_pk, server_pk, client_ss, server_ss, concrete_key, key_of, Handshake,
  ExporterFunction, remote_public_key, derive_binding, handle_packet,
}
use securepath.Network.Handshake.Verified.{IsVerified}
use securepath.Network.Handshake.Guarded.{IsVerifiedKey}
use securepath.Network.Handshake.Run.{IsRun, RunsOrFails, not_succeeded}
use securepath.Network.Handshake.Reached.{Reached, handle_packet-Stepped, Reached-IsReady}

abbrev key_or : PublicKey → Option PublicKey → PublicKey
key_or k none = k
key_or k (some x) = x

module _ (c : Context) where
  -- The peer of an end that has the binding `b`: in the public-key variant its key came with
  -- credentials that were verified against the other side's binding, and may be missing at a server
  -- that does not ask for it; in the shared-secret variant it sent a mac of that binding.
  abbrev pub IsAuthenticated : HandshakeBinding → Concrete → Type 0
  IsAuthenticated b (client_pk h) = IsVerifiedKey c h.remote_key b (restriction h.data_)
  IsAuthenticated b (server_pk h) =
      IsVerifiedKey c h.remote_key b none
      ⊎ ((h.remote_key ≡ none) × (c.authenticate_remote ≡ false))
  IsAuthenticated b (client_ss h) =
      (secret : List ℕ) × (mac : List ℕ) × (c.find_secret h.secret_id ≡ some secret)
      × (c.verify_mac secret b.remote mac ≡ true)
  IsAuthenticated b (server_ss h) =
      (id : List ℕ) × (secret : List ℕ) × (mac : List ℕ) × (c.find_secret id ≡ some secret)
      × (c.verify_mac secret b.remote mac ≡ true)

  known_unless_failed : {K : Type 0} (r : HandshakeResult) → (r ≡ failed) ⊎ K → r ≢ failed → K
  known_unless_failed r (inl bad) good = absurd (good bad)
  known_unless_failed r (inr known) good = known

  module _ (w : Wire) (exporter : ExporterFunction) where
    binding_of_client :
        (r : HandshakeResult) (h : Handshake) (p : ClientPkHandshake)
        → IsRun c w exporter r h (client_pk p)
        → p.data_.binding ≡ derive_binding exporter h
    binding_of_client r h p run = ap (λ (d : HandshakeData). d.binding) run.fits ∙ run.channel

    run-KnowsServer :
        (r : HandshakeResult) (h : Handshake) (p : ClientPkHandshake)
        → IsRun c w exporter r h (client_pk p)
        → r ≢ failed
        → IsVerifiedKey c p.remote_key (derive_binding exporter h) (restriction p.data_)
    run-KnowsServer r h p run good =
        subst (λ b. IsVerifiedKey c p.remote_key b (restriction p.data_))
          (binding_of_client r h p run) (known_unless_failed r run.checked good)

    has_failed : {r : HandshakeResult} → r.state ≡ succeeded → r ≢ failed
    has_failed {r} s bad =
        not_succeeded c w exporter (sym (ap (λ (t : HandshakeResult). t.state) bad) ∙ s)

    run-IsAuthenticated :
        (r : HandshakeResult) (h : Handshake) (x : Concrete)
        → r.state ≡ succeeded
        → IsRun c w exporter r h x
        → IsAuthenticated (derive_binding exporter h) x
    run-IsAuthenticated r h (client_pk p) s run = run-KnowsServer r h p run (has_failed s)
    run-IsAuthenticated r h (server_pk p) s run =
        subst
          (λ b.
            IsVerifiedKey c p.remote_key b none
            ⊎ ((p.remote_key ≡ none) × (c.authenticate_remote ≡ false)))
          (run.fits ∙ run.channel) (run.checked s)
    run-IsAuthenticated r h (client_ss p) s run =
        let (m, own, valid) = run.checked s in
        (
          valid.secret,
          m.mac,
          ap c.find_secret (sym own) ∙ valid.shared,
          ap (λ (b : HandshakeBinding). c.verify_mac valid.secret b.remote m.mac)
                (sym (run.fits ∙ run.channel))
              ∙ valid.valid,
        )
    run-IsAuthenticated r h (server_ss p) s run =
        let (m, valid) = run.checked s in
        (
          m.secret_id,
          valid.secret,
          m.mac,
          valid.shared,
          ap (λ (b : HandshakeBinding). c.verify_mac valid.secret b.remote m.mac)
                (sym (run.fits ∙ run.channel))
              ∙ valid.valid,
        )

    abbrev AuthenticatedIn : Handshake → Option Concrete → Type 0
    AuthenticatedIn h o =
        (x : Concrete) × (o ≡ some x) × IsAuthenticated (derive_binding exporter h) x

    succeeded_with :
        (r : HandshakeResult) (h : Handshake) (o : Option Concrete)
        → r.state ≡ succeeded
        → RunsOrFails c w exporter r h o
        → AuthenticatedIn h o
    succeeded_with r h none s bad = absurd (has_failed s bad)
    succeeded_with r h (some x) s run = (x, refl, run-IsAuthenticated r h x s run)

    -- Whatever packets came: where a handshake says that it succeeded, its peer is authenticated for
    -- the binding that the TLS exporter gives for the other role and the ids of both hellos.
    pub handle_packet-IsAuthenticated :
        {h : Handshake} (random packet : List ℕ)
        → Reached c w exporter h
        → (handle_packet c w exporter h random packet).0.state ≡ succeeded
        → (x : Concrete) × ((handle_packet c w exporter h random packet).1.concrete ≡ some x)
          × IsAuthenticated
              (derive_binding exporter (handle_packet c w exporter h random packet).1)
              x
    handle_packet-IsAuthenticated {h} random packet reached s =
        let done = handle_packet c w exporter h random packet in
        succeeded_with done.0 done.1 done.1.concrete s (
          handle_packet-Stepped c w exporter h random packet (Reached-IsReady c w exporter reached))

    client-IsRun :
        (r : HandshakeResult) (h : Handshake) (o : Option Concrete) (p : ClientPkHandshake)
        → o ≡ some (client_pk p)
        → RunsOrFails c w exporter r h o
        → IsRun c w exporter r h (client_pk p)
    client-IsRun r h o p e run = subst (RunsOrFails c w exporter r h) e run

    -- The client of the public-key variant sends a packet in answer to one, its own credentials among
    -- them, only when it has verified the server for this channel and for the host that it asked for.
    pub handle_packet-discloses :
        {h : Handshake} (random packet : List ℕ) (p : ClientPkHandshake)
        → Reached c w exporter h
        → (handle_packet c w exporter h random packet).1.concrete ≡ some (client_pk p)
        → (handle_packet c w exporter h random packet).0.packet ≢ []
        → IsVerifiedKey c p.remote_key
            (derive_binding exporter (handle_packet c w exporter h random packet).1)
            (restriction (handle_packet c w exporter h random packet).1.requested)
    handle_packet-discloses {h} random packet p reached e sent =
        let done = handle_packet c w exporter h random packet in
        let run = client-IsRun done.0 done.1 done.1.concrete p e (
          handle_packet-Stepped c w exporter h random packet
            (Reached-IsReady c w exporter reached)) in
        subst (λ d. IsVerifiedKey c p.remote_key (derive_binding exporter done.1) (restriction d))
          run.fits
          (run-KnowsServer done.0 done.1 p run
            (λ bad. sent (ap (λ (t : HandshakeResult). t.packet) bad)))

    -- A verified key, with or without a host.
    abbrev pub IsPeer : PublicKey → HandshakeBinding → Type 0
    IsPeer key b =
        (creds : AuthCredentials) × (rest : Option (List ℕ)) × (key ≡ creds.key)
        × IsVerified c creds b rest

    key_known :
        (key : PublicKey) (b : HandshakeBinding) (rest : Option (List ℕ)) (o : Option PublicKey)
        → o ≡ some key
        → IsVerifiedKey c o b rest
        → IsPeer key b
    key_known key b rest o e (creds, is, known) = (creds, rest, ap (key_or key) (sym e ∙ is), known)

    no_key : {K : Type 0} (key : PublicKey) (o : Option PublicKey) → o ≡ some key → o ≡ none → K
    no_key key o e empty = absurd (ground (arith, sym e ∙ empty))

    key_of_run :
        (r : HandshakeResult) (h : Handshake) (x : Concrete) (key : PublicKey)
        → IsRun c w exporter r h x
        → concrete_key x ≡ some key
        → IsPeer key (derive_binding exporter h)
    unfolding concrete_key
    key_of_run r h (client_pk p) key run e = elim run.guarded [
      | inl g ↦ no_key key p.remote_key e g.1
      | inr known ↦
          subst (IsPeer key) (binding_of_client r h p run)
            (key_known key p.data_.binding (restriction p.data_) p.remote_key e known)
    ]
    key_of_run r h (server_pk p) key run e = elim run.guarded [
      | inl empty ↦ no_key key p.remote_key e empty
      | inr known ↦
          subst (IsPeer key) (run.fits ∙ run.channel)
            (key_known key p.binding none p.remote_key e known)
    ]
    key_of_run r h (client_ss p) key run e = absurd (ground (arith, e))
    key_of_run r h (server_ss p) key run e = absurd (ground (arith, e))

    key_of_state :
        (h : Handshake) (o : Option Concrete) (key : PublicKey)
        → RunsOrFails c w exporter failed h o
        → key_of o ≡ some key
        → IsPeer key (derive_binding exporter h)
    key_of_state h none key run e = absurd (ground (arith, e))
    key_of_state h (some x) key run e = key_of_run failed h x key run e

    -- In every state that a handshake reaches, the key that it reports of its peer came with
    -- credentials that were verified for this channel.
    pub remote_public_key-IsVerified :
        {h : Handshake} (key : PublicKey)
        → Reached c w exporter h
        → remote_public_key h ≡ some key
        → IsPeer key (derive_binding exporter h)
    unfolding remote_public_key
    remote_public_key-IsVerified {h} key reached e =
        key_of_state h h.concrete key (Reached-IsReady c w exporter reached) e
