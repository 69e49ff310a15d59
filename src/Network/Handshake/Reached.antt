-- ===== src/Network/Handshake/Reached.antt =====
-- The states that a handshake reaches, whatever packets come.
use securepath.Base.{
  ℕ, ◌≡◌, refl, sym, inl, true, false, List, Option, none, some, arith, length, ◌==◌, either_branch,
  subst,
}
use securepath.Network.Handshake.{
  EndpointRole, succeeded, HandshakeResult, failed, HandshakeData, ClientHello, ServerHello, Wire,
  Registered, Context, find_handshake,
}
use securepath.Network.Handshake.Negotiation.{
  Concrete, client_pk, server_pk, client_ss, server_ss, construct, concrete_start, Handshake,
  handshake, ExporterFunction, start, derive_binding, bound, installed, make_concrete,
  server_hello_of, reply_to_hello, on_client_hello, handle_client_hello, client_hello_matches,
  server_hello_matches, is_error, begin, on_server_hello, handle_server_hello, packet_to_concrete,
  handle_packet,
}
use securepath.Network.Handshake.Run.{
  IsRun, RunsOrFails, Stepped, IsReady, Outcome, not_succeeded, failed-Outcome,
  concrete_start-Outcome, construct-fresh, concrete_step-Stepped,
}

-- The states of a handshake, from the end that waits for a hello and from the one that sends it.
pub data Reached (c : Context) (w : Wire) (exporter : ExporterFunction) : Handshake → Type 0 where
  waiting : (r : EndpointRole) → Reached c w exporter (handshake r)
  started :
      (r : EndpointRole) (d : HandshakeData) (random : List ℕ)
      → Reached c w exporter (start c w (handshake r) d random).1
  received :
      {h : Handshake}
      → Reached c w exporter h
      → (random packet : List ℕ)
      → Reached c w exporter (handle_packet c w exporter h random packet).1

module _ (c : Context) (w : Wire) (exporter : ExporterFunction) where
  -- The concrete handshake that is made, or none, and then the one before it stays.
  abbrev Made : Option Concrete × Handshake → Type 0
  Made (none, h) = h.concrete ≡ none
  Made (some x, h) = (h.concrete ≡ some x) × IsRun c w exporter (concrete_start c w x) h x

  make_concrete-Made :
      (h : Handshake)
      → h.client_hello_sent ≡ false
      → h.concrete ≡ none
      → Made (make_concrete c w exporter h)
  unfolding make_concrete bound derive_binding
  make_concrete-Made h sent empty = made (find_handshake h.requested.tag c.handshakes)
    where
      made : (o : Option Registered) → Made (installed c w exporter (bound c w exporter h) o)
      made none = empty
      made (some r) =
          let d = (bound c w exporter h).requested in
          let (fits, guarded) = construct-fresh c w exporter d r in
          (
            refl,
            record {
              no_hello = sent;
              own_role = refl;
              channel = refl;
              fits = fits;
              guarded = guarded;
              checked = concrete_start-Outcome c w exporter (construct c d r);
            },
          )

  rerun :
      (r r' : HandshakeResult) (h : Handshake) (x : Concrete)
      → IsRun c w exporter r h x
      → Outcome c r' x
      → IsRun c w exporter r' h x
  rerun r r' h x run checked = record {
    no_hello = run.no_hello;
    own_role = run.own_role;
    channel = run.channel;
    fits = run.fits;
    guarded = run.guarded;
    checked = checked;
  }

  hello_only :
      {B : Type 0} (hello : ClientHello) (random : List ℕ) (first : HandshakeResult)
      → (server_hello_of c w exporter hello random first).state ≡ succeeded
      → B
  unfolding server_hello_of
  hello_only {B} hello random first =
      either_branch (λ (r : HandshakeResult). r.state ≡ succeeded → B) (is_error first.state)
        (λ _. not_succeeded c w exporter) (λ _ s. absurd (ground (arith, s)))

  server_hello_of-Outcome :
      (hello : ClientHello) (random : List ℕ) (x : Concrete)
      → Outcome c (server_hello_of c w exporter hello random (concrete_start c w x)) x
  unfolding server_hello_of concrete_start
  server_hello_of-Outcome hello random (client_pk h) = inl refl
  server_hello_of-Outcome hello random (server_pk h) = hello_only hello random _
  server_hello_of-Outcome hello random (client_ss h) = hello_only hello random _
  server_hello_of-Outcome hello random (server_ss h) = hello_only hello random _

  run_at :
      (r : HandshakeResult) (h : Handshake) (o : Option Concrete)
      → h.concrete ≡ o
      → RunsOrFails c w exporter r h o
      → RunsOrFails c w exporter r h h.concrete
  run_at r h o e run = subst (RunsOrFails c w exporter r h) (sym e) run

  reply_to_hello-Stepped :
      (hello : ClientHello) (random : List ℕ) (made : Option Concrete × Handshake)
      → Made made
      → Stepped c w exporter (reply_to_hello c w exporter hello random made)
  unfolding reply_to_hello
  reply_to_hello-Stepped hello random (none, h) empty = run_at failed h none empty refl
  reply_to_hello-Stepped hello random (some x, h) (at, run) =
      run_at _ h (some x) at (rerun _ _ h x run (server_hello_of-Outcome hello random x))

  on_client_hello-Stepped :
      (h : Handshake) (random : List ℕ) (m : Option ClientHello)
      → h.client_hello_sent ≡ false
      → h.concrete ≡ none
      → Stepped c w exporter (on_client_hello c w exporter h random m)
  unfolding on_client_hello
  on_client_hello-Stepped h random none sent empty = run_at failed h none empty refl
  on_client_hello-Stepped h random (some hello) sent empty =
      either_branch (Stepped c w exporter) (client_hello_matches c w exporter hello)
        (λ _. reply_to_hello-Stepped hello random _ (make_concrete-Made _ sent empty))
        (λ _. run_at failed h none empty refl)

  begin-Stepped :
      (auth : List ℕ) (made : Option Concrete × Handshake)
      → Made made
      → Stepped c w exporter (begin c w exporter auth made)
  unfolding begin
  begin-Stepped auth (none, h) empty = run_at failed h none empty refl
  begin-Stepped auth (some x, h) (at, run) =
      either_branch (Stepped c w exporter) (length auth == 0) (λ _. run_at _ h (some x) at run)
        (λ _. concrete_step-Stepped c w exporter _ h x auth run)

  on_server_hello-Stepped :
      (h : Handshake) (m : Option ServerHello)
      → h.client_hello_sent ≡ false
      → h.concrete ≡ none
      → Stepped c w exporter (on_server_hello c w exporter h m)
  unfolding on_server_hello
  on_server_hello-Stepped h none sent empty = run_at failed h none empty refl
  on_server_hello-Stepped h (some hello) sent empty =
      either_branch (Stepped c w exporter) (server_hello_matches c w exporter h hello)
        (λ _. begin-Stepped hello.server_auth _ (make_concrete-Made _ sent empty))
        (λ _. run_at failed h none empty refl)

  packet_to_concrete-Stepped :
      (h : Handshake) (o : Option Concrete) (random packet : List ℕ)
      → h.client_hello_sent ≡ false
      → h.concrete ≡ o
      → RunsOrFails c w exporter failed h o
      → Stepped c w exporter (packet_to_concrete c w exporter h o random packet)
  unfolding packet_to_concrete handle_client_hello
  packet_to_concrete-Stepped h none random packet sent at ready =
      on_client_hello-Stepped h random (w.client_hello.read packet) sent at
  packet_to_concrete-Stepped h (some x) random packet sent at run =
      concrete_step-Stepped c w exporter failed h x packet run

  not_yet :
      (h : Handshake) (o : Option Concrete)
      → h.client_hello_sent ≡ true
      → RunsOrFails c w exporter failed h o
      → o ≡ none
  not_yet h none sent ready = refl
  not_yet h (some x) sent run = absurd (ground (arith, sent, run.no_hello))

  -- A step from a state between packets.
  pub handle_packet-Stepped :
      (h : Handshake) (random packet : List ℕ)
      → IsReady c w exporter h
      → Stepped c w exporter (handle_packet c w exporter h random packet)
  unfolding handle_packet handle_server_hello
  handle_packet-Stepped h random packet ready =
      either_branch (Stepped c w exporter) h.client_hello_sent
        (λ sent.
          on_server_hello-Stepped (record h { client_hello_sent = false })
            (w.server_hello.read packet) refl (not_yet h h.concrete sent ready))
        (λ sent. packet_to_concrete-Stepped h h.concrete random packet sent refl ready)

  settled :
      (r : HandshakeResult) (h : Handshake) (o : Option Concrete)
      → RunsOrFails c w exporter r h o
      → RunsOrFails c w exporter failed h o
  settled r h none run = refl
  settled r h (some x) run = rerun r failed h x run (failed-Outcome c w exporter x)

  pub Reached-IsReady : {h : Handshake} → Reached c w exporter h → IsReady c w exporter h
  unfolding start
  Reached-IsReady (waiting r) = refl
  Reached-IsReady (started r d random) = refl
  Reached-IsReady (received {h} before random packet) =
      let done = handle_packet c w exporter h random packet in
      settled done.0 done.1 done.1.concrete
        (handle_packet-Stepped h random packet (Reached-IsReady before))
