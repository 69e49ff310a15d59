-- ===== src/Network/Handshake/Run.antt =====
-- What a concrete handshake knows of its peer in a run, and that each of its steps keeps it.
use securepath.Base.{
  ℕ, ◌≡◌, refl, ap, sym, ◌∙◌, ◌⊎◌, inl, inr, false, List, Option, none, some, arith, Result, ok,
  err, ◌>>=◌,
}
use securepath.Crypto.Chain.{Error}
use securepath.Network.Handshake.{
  EndpointRole, client, server, succeeded, HandshakeResult, failed, sends, caught, HandshakeData,
  Wire, Registered, client_pk_only, server_pk_only, pk_by_role, client_ss_only, server_ss_only,
  Context,
}
use securepath.Network.Handshake.PkHandshake.{server_pk_start}
use securepath.Network.Handshake.SharedSecret.{client_ss_start, server_ss_start}
use securepath.Network.Handshake.Negotiation.{
  Concrete, client_pk, server_pk, client_ss, server_ss, pk_handshake_of, construct, concrete_start,
  concrete_packet, Handshake, ExporterFunction, derive_binding, concrete_step,
}
use securepath.Network.Handshake.Guarded.{
  KnowsServer, KnownOrUnverified, KnownOrNone, HasAccepted, KnowsSecret, KnowsOwnSecret,
  client_pk_packet-outcome, server_pk_packet-outcome, client_ss_packet-outcome,
  server_ss_packet-outcome,
}

module _ (c : Context) where
  -- A remote key is only kept with the credentials that it was verified by.
  abbrev pub IsGuarded : Concrete → Type 0
  IsGuarded (client_pk h) = KnownOrUnverified c h
  IsGuarded (server_pk h) = KnownOrNone c h
  IsGuarded (client_ss h) = Unit {0}
  IsGuarded (server_ss h) = Unit {0}

  -- The concrete handshake has the binding that this channel and these hellos give.
  abbrev pub IsFor : HandshakeData → Concrete → Type 0
  IsFor d (client_pk h) = h.data_ ≡ d
  IsFor d (server_pk h) = h.binding ≡ d.binding
  IsFor d (client_ss h) = h.binding ≡ d.binding
  IsFor d (server_ss h) = h.binding ≡ d.binding

  -- What each variant has checked of its peer. The client's public-key handshake has checked it
  -- before it sends anything, the others before they succeed.
  abbrev pub Outcome : HandshakeResult → Concrete → Type 0
  Outcome r (client_pk h) = (r ≡ failed) ⊎ KnowsServer c h
  Outcome r (server_pk h) = r.state ≡ succeeded → HasAccepted c h
  Outcome r (client_ss h) = r.state ≡ succeeded → KnowsOwnSecret c h
  Outcome r (server_ss h) = r.state ≡ succeeded → KnowsSecret c h

  module _ (w : Wire) (exporter : ExporterFunction) where
    -- A concrete handshake, once there is one, and a result that it gave.
    pub record IsRun (r : HandshakeResult) (h : Handshake) (x : Concrete) : Type 0 where
      pub no_hello : h.client_hello_sent ≡ false
      pub own_role : h.requested.role ≡ h.role
      pub channel : h.requested.binding ≡ derive_binding exporter h
      pub fits : IsFor h.requested x
      pub guarded : IsGuarded x
      pub checked : Outcome r x

    abbrev pub RunsOrFails : HandshakeResult → Handshake → Option Concrete → Type 0
    RunsOrFails r h none = r ≡ failed
    RunsOrFails r h (some x) = IsRun r h x

    abbrev pub Stepped : HandshakeResult × Handshake → Type 0
    Stepped done = RunsOrFails done.0 done.1 done.1.concrete

    -- What is kept between packets: nothing before there is a concrete handshake.
    abbrev pub IsReady : Handshake → Type 0
    IsReady h = RunsOrFails failed h h.concrete

    pub not_succeeded : {A : Type 0} → failed.state ≡ succeeded → A
    not_succeeded h = absurd (ground (arith, h))

    pub failed-Outcome : (x : Concrete) → Outcome failed x
    failed-Outcome (client_pk h) = inl refl
    failed-Outcome (server_pk h) = not_succeeded
    failed-Outcome (client_ss h) = not_succeeded
    failed-Outcome (server_ss h) = not_succeeded

    sends_only :
        {A B : Type 0} (m : Result Error A) (f : A → List ℕ)
        → (caught (m >>= λ v. ok (sends (f v)))).state ≡ succeeded
        → B
    sends_only (ok v) f h = absurd (ground (arith, h))
    sends_only (err e) f h = absurd (ground (arith, h))

    pub concrete_start-Outcome : (x : Concrete) → Outcome (concrete_start c w x) x
    unfolding concrete_start server_pk_start client_ss_start server_ss_start
    concrete_start-Outcome (client_pk h) = inl refl
    concrete_start-Outcome (server_pk h) = sends_only _ _
    concrete_start-Outcome (client_ss h) = sends_only _ _
    concrete_start-Outcome (server_ss h) = λ s. absurd (ground (arith, s))

    pk_handshake_of-fresh :
        (d : HandshakeData) (r : EndpointRole)
        → IsFor d (pk_handshake_of d r) × IsGuarded (pk_handshake_of d r)
    unfolding pk_handshake_of
    pk_handshake_of-fresh d client = (refl, inl (refl, refl))
    pk_handshake_of-fresh d server = (refl, inl refl)

    pub construct-fresh :
        (d : HandshakeData) (r : Registered)
        → IsFor d (construct c d r) × IsGuarded (construct c d r)
    unfolding construct
    construct-fresh d client_pk_only = pk_handshake_of-fresh d client
    construct-fresh d server_pk_only = pk_handshake_of-fresh d server
    construct-fresh d pk_by_role = pk_handshake_of-fresh d d.role
    construct-fresh d client_ss_only = (refl, tt)
    construct-fresh d server_ss_only = (refl, tt)

    -- A step of the concrete handshake keeps what it is for and what it knows.
    abbrev Kept : HandshakeData → HandshakeResult × Concrete → Type 0
    Kept d done = IsFor d done.1 × IsGuarded done.1 × Outcome done.0 done.1

    unless_failed : {K : Type 0} (r : HandshakeResult) → (r ≡ failed) ⊎ K → r.state ≡ succeeded → K
    unless_failed r (inl bad) s =
        not_succeeded (sym (ap (λ (t : HandshakeResult). t.state) bad) ∙ s)
    unless_failed r (inr known) s = known

    concrete_packet-Kept :
        (d : HandshakeData) (x : Concrete) (packet : List ℕ)
        → IsFor d x
        → IsGuarded x
        → Kept d (concrete_packet c w x packet)
    unfolding concrete_packet
    concrete_packet-Kept d (client_pk h) packet fits guarded =
        let (known, same, guarded') = client_pk_packet-outcome c w h packet guarded in
        (same ∙ fits, guarded', known)
    concrete_packet-Kept d (server_pk h) packet fits guarded =
        let (known, same, guarded') = server_pk_packet-outcome c w h packet guarded in
        (same ∙ fits, guarded', unless_failed _ known)
    concrete_packet-Kept d (client_ss h) packet fits guarded =
        (fits, tt, unless_failed _ (client_ss_packet-outcome c w h packet))
    concrete_packet-Kept d (server_ss h) packet fits guarded =
        (fits, tt, unless_failed _ (server_ss_packet-outcome c w h packet))

    pub concrete_step-Stepped :
        (r : HandshakeResult) (h : Handshake) (x : Concrete) (packet : List ℕ)
        → IsRun r h x
        → Stepped (concrete_step c w exporter h x packet)
    unfolding concrete_step derive_binding
    concrete_step-Stepped r h x packet run =
        let (fits, guarded, checked) =
          concrete_packet-Kept h.requested x packet run.fits run.guarded in
        record {
          no_hello = run.no_hello;
          own_role = run.own_role;
          channel = run.channel;
          fits = fits;
          guarded = guarded;
          checked = checked;
        }
