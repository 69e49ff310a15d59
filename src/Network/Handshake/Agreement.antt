-- ===== src/Network/Handshake/Agreement.antt =====
-- The whole exchange of the public-key variant between two ends of one channel.
use securepath.Base.{
  ℕ, ◌≡◌, ◌≢◌, refl, ap, sym, ◌∙◌, true, false, List, [], ◌∷◌, Option, none, some, arith, length,
  ◌==◌, ==_iff, ok,
}
use securepath.Crypto.Keys.{PublicKey}
use securepath.Network.Handshake.{
  client, server, succeeded, HandshakeResult, sends, succeeds, HandshakeData, handshake_data,
  public_key_tag, current_version, ClientHello, ServerHello, AuthCredentials, Auth, Wire,
  IsReadBack, Context, add_handshake, enable_client_pk_handshake, enable_server_pk_handshake,
  find_handshake,
}
use securepath.Network.Handshake.PkHandshake.{
  make_auth, verify_credentials, restriction, client_pk_packet, verify_server_and_reply,
  on_server_creds, judge_server, disclose, on_ack, server_pk_start, server_pk_packet,
  on_client_auth, on_client_creds, judge_client, acknowledged,
}
use securepath.Network.Handshake.Negotiation.{
  client_pk, server_pk, pk_handshake_of, construct, concrete_start, concrete_packet, concrete_key,
  Handshake, handshake, binding_context, ExporterFunction, remote_public_key, start, derive_binding,
  bound, installed, make_concrete, server_hello_of, reply_to_hello, client_hello_matches,
  on_client_hello, handle_client_hello, concrete_step, begin, server_hello_matches, on_server_hello,
  handle_server_hello, packet_to_concrete, handle_packet,
}
use securepath.Network.Handshake.Exchange.{
  Exchange, exchange, client_binding, server_binding, Takes, key_in,
}

module _ (c₀ s₀ : Context) (w : Wire) (exporter : ExporterFunction) (d : HandshakeData)
    (client_id server_id : List ℕ) where
  abbrev cc : Context
  cc = enable_client_pk_handshake c₀

  abbrev sc : Context
  sc = enable_server_pk_handshake s₀

  abbrev hello : ClientHello
  hello = record {
    version = current_version;
    suite = c₀.suite;
    handshake_request = public_key_tag;
    client_id = client_id;
  }

  abbrev server_state : Option PublicKey → Handshake
  server_state key = record {
    role = server;
    requested = record (handshake_data public_key_tag) {
      binding = server_binding exporter client_id server_id;
      role = server;
    };
    client_id = client_id;
    server_id = server_id;
    client_hello_sent = false;
    concrete = some (
        server_pk
          (record { binding = server_binding exporter client_id server_id; remote_key = key }));
  }

  abbrev reply_of : Auth → ServerHello
  reply_of m = record {
    version = current_version;
    suite = s₀.suite;
    handshake_response = public_key_tag;
    server_id = server_id;
    server_auth = w.auth.write m;
  }

  server_replies :
      (m : Auth)
      → IsReadBack w.client_hello hello
      → (s₀.suite == c₀.suite) ≡ true
      → (c₀.suite == s₀.suite) ≡ true
      → make_auth sc (server_binding exporter client_id server_id) true ≡ ok m
      → handle_packet sc w exporter (handshake server) server_id (w.client_hello.write hello)
        ≡ (sends (w.server_hello.write (reply_of m)), server_state none)
  unfolding handle_packet packet_to_concrete handle_client_hello on_client_hello
      client_hello_matches reply_to_hello make_concrete installed bound derive_binding
      binding_context find_handshake add_handshake enable_server_pk_handshake construct
      pk_handshake_of concrete_start server_pk_start server_hello_of
  server_replies m read e e' made = rw (read, e', made) refl

  abbrev client_waits : Handshake
  client_waits = (start cc w (handshake client) d client_id).1

  abbrev bound_data : HandshakeData
  bound_data = record d { binding = client_binding exporter client_id server_id; role = client }

  abbrev client_state : AuthCredentials → Handshake
  client_state creds = record {
    role = client;
    requested = bound_data;
    client_id = client_id;
    server_id = server_id;
    client_hello_sent = false;
    concrete = some (
        client_pk
          (record { data_ = bound_data; server_verified = true; remote_key = some creds.key }));
  }

  nonempty : (xs : List ℕ) → xs ≢ [] → (length xs == 0) ≡ false
  nonempty [] h = absurd (h refl)
  nonempty (x ∷ xs) h = ground arith

  client_replies :
      (creds : AuthCredentials) (m : Auth)
      → IsReadBack w.server_hello (reply_of (record { creds = some creds }))
      → IsReadBack w.auth (record { creds = some creds })
      → w.auth.write (record { creds = some creds }) ≢ []
      → (s₀.suite == c₀.suite) ≡ true
      → d.tag ≡ public_key_tag
      → verify_credentials cc creds (client_binding exporter client_id server_id) (restriction d)
        ≡ ok true
      → make_auth cc (client_binding exporter client_id server_id) false ≡ ok m
      → handle_packet cc w exporter client_waits []
          (w.server_hello.write (reply_of (record { creds = some creds })))
        ≡ (sends (w.auth.write m), client_state creds)
  unfolding start handle_packet handle_server_hello on_server_hello server_hello_matches begin
      concrete_step concrete_packet client_pk_packet verify_server_and_reply on_server_creds
      judge_server disclose make_concrete installed bound derive_binding binding_context
      find_handshake add_handshake enable_client_pk_handshake construct pk_handshake_of
  client_replies creds m read auth_read written e tagged checked made =
      let msg : Auth = record { creds = some creds } in
      let spoken = nonempty (w.auth.write msg) (written) in
      rw (read, tagged, e, spoken, auth_read, checked, made) refl

  server_accepts :
      (m : Auth) (o : Option AuthCredentials)
      → IsReadBack w.auth m
      → m.creds ≡ o
      → Takes sc (server_binding exporter client_id server_id) o
      → handle_packet sc w exporter (server_state none) [] (w.auth.write m)
        ≡ (acknowledged w, server_state (key_in o))
  unfolding handle_packet packet_to_concrete concrete_step concrete_packet server_pk_packet
      on_client_auth on_client_creds judge_client add_handshake enable_server_pk_handshake
  server_accepts m none read e off = rw (read, e, off) refl
  server_accepts m (some creds) read e checked = rw (read, e, checked) refl

  client_connects :
      (creds : AuthCredentials)
      → IsReadBack w.handshake_ack (record { version = current_version })
      → handle_packet cc w exporter (client_state creds) [] (acknowledged w).packet
        ≡ (succeeds [], client_state creds)
  unfolding handle_packet packet_to_concrete concrete_step concrete_packet client_pk_packet on_ack
  client_connects creds read = rw (read) refl

  abbrev run : Exchange
  run = exchange cc sc w exporter d client_id server_id

  first_reply :
      (m : Auth)
      → IsReadBack w.client_hello hello
      → d.tag ≡ public_key_tag
      → (s₀.suite == c₀.suite) ≡ true
      → (c₀.suite == s₀.suite) ≡ true
      → make_auth sc (server_binding exporter client_id server_id) true ≡ ok m
      → run.server_replied ≡ (sends (w.server_hello.write (reply_of m)), server_state none)
  unfolding start enable_client_pk_handshake add_handshake
  first_reply m read tagged e e' made =
      ap
        (λ n.
          handle_packet sc w exporter (handshake server) server_id
            (w.client_hello.write (record hello { handshake_request = n })))
        tagged
      ∙ server_replies m read e e' made

  -- The messages of the exchange, each read as it was written.
  pub record IsCarried (creds : AuthCredentials) (m : Auth) : Type 0 where
    pub hello_read : IsReadBack w.client_hello hello
    pub reply_read : IsReadBack w.server_hello (reply_of (record { creds = some creds }))
    pub server_auth_read : IsReadBack w.auth (record { creds = some creds })
    pub server_auth_written : w.auth.write (record { creds = some creds }) ≢ []
    pub client_auth_read : IsReadBack w.auth m
    pub ack_read : IsReadBack w.handshake_ack (record { version = current_version })

  -- What the client says, and what it then knows.
  pub client_replied-is :
      (creds : AuthCredentials) (m : Auth)
      → IsCarried creds m
      → (s₀.suite == c₀.suite) ≡ true
      → (c₀.suite == s₀.suite) ≡ true
      → d.tag ≡ public_key_tag
      → make_auth sc (server_binding exporter client_id server_id) true
        ≡ ok (record { creds = some creds })
      → verify_credentials cc creds (client_binding exporter client_id server_id) (restriction d)
        ≡ ok true
      → make_auth cc (client_binding exporter client_id server_id) false ≡ ok m
      → run.client_replied ≡ (sends (w.auth.write m), client_state creds)
  client_replied-is creds m carried e e' tagged own accepted answer =
      ap
        (λ (t : HandshakeResult × Handshake).
          handle_packet cc w exporter client_waits [] t.0.packet)
        (first_reply (record { creds = some creds }) carried.hello_read tagged e e' own)
      ∙ client_replies creds m carried.reply_read carried.server_auth_read
          carried.server_auth_written e tagged accepted answer

  -- Two ends of one suite, a client and a server of the public-key variant on one channel, come to
  -- agree: both succeed and know the other's key, where the server has credentials that the client
  -- accepts, and the server takes the client's, or needs none.
  pub exchange-succeeds :
      (creds : AuthCredentials) (m : Auth)
      → IsCarried creds m
      → c₀.suite ≡ s₀.suite
      → d.tag ≡ public_key_tag
      → make_auth sc (server_binding exporter client_id server_id) true
        ≡ ok (record { creds = some creds })
      → verify_credentials cc creds (client_binding exporter client_id server_id) (restriction d)
        ≡ ok true
      → make_auth cc (client_binding exporter client_id server_id) false ≡ ok m
      → Takes sc (server_binding exporter client_id server_id) m.creds
      → (run.server_done.0.state ≡ succeeded)
        × (run.client_done.0.state ≡ succeeded)
        × (remote_public_key run.client_done.1 ≡ some creds.key)
        × (remote_public_key run.server_done.1 ≡ key_in m.creds)
  unfolding start remote_public_key concrete_key enable_client_pk_handshake add_handshake
  exchange-succeeds creds m carried suite tagged own accepted answer taken =
      let e : (s₀.suite == c₀.suite) ≡ true = (==_iff _ _).1 (sym suite) in
      let e' : (c₀.suite == s₀.suite) ≡ true = (==_iff _ _).1 suite in
      let server_auth : Auth = record { creds = some creds } in
      let s₁ = first_reply server_auth carried.hello_read tagged e e' own in
      let c₂ = client_replied-is creds m carried e e' tagged own accepted answer in
      let s₂ =
        ap
          (λ (t : HandshakeResult × Handshake).
            handle_packet sc w exporter t.1 [] run.client_replied.0.packet)
          s₁
        ∙ ap
            (λ (t : HandshakeResult × Handshake).
              handle_packet sc w exporter (server_state none) [] t.0.packet)
            c₂
        ∙ server_accepts m m.creds carried.client_auth_read refl taken in
      let c₃ =
        ap
          (λ (t : HandshakeResult × Handshake).
            handle_packet cc w exporter t.1 [] run.server_done.0.packet)
          c₂
        ∙ ap
            (λ (t : HandshakeResult × Handshake).
              handle_packet cc w exporter (client_state creds) [] t.0.packet)
            s₂
        ∙ client_connects creds carried.ack_read in
      (
        ap (λ (t : HandshakeResult × Handshake). t.0.state) s₂,
        ap (λ (t : HandshakeResult × Handshake). t.0.state) c₃,
        ap (λ (t : HandshakeResult × Handshake). remote_public_key t.1) c₃,
        ap (λ (t : HandshakeResult × Handshake). remote_public_key t.1) s₂,
      )
