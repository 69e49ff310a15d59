-- ===== src/Network/Connection/Trusted.antt =====
-- Data moves only once the peer is authenticated.
use securepath.Base.{
  ℕ, ◌+◌, ◌-◌, ◌≤◌, ◌≡◌, refl, ap, ◌⊎◌, inl, inr, Bool, true, false, List, [], ◌∷◌, ◌++◌, Option,
  none, some, arith, either_branch, get_elem?, subst,
}
use securepath.Network.Handshake.{HandshakeData, Wire, Context}
use securepath.Network.Handshake.Negotiation.{ExporterFunction}
use securepath.Network.Connection.{
  ErrorCode, timed_out, encrypted_connection_impl, connect, start_server_handshake, on_sent,
  on_received, Operation, resolving, connecting_to, starting_tls, tls_handshaking,
  reading_handshake, writing_handshake, reading_data, timing, posted_send, posted_remove,
  writing_data, refused_data, refused_handshake, invalid_data, posted_close, Outcome, Connection,
  is_up, pend, notify, disconnect_with, do_send, on_data_frame, on_write, on_data_write, on_timeout,
  send, on_posted_close, close, close_later,
}
use securepath.Network.Connection.Events.{
  handler, complete_with, without_at, Event, completes, sends, closes, closes_later, step, run,
}
use securepath.Network.Connection.Stage.{
  drives, carries, total, total-without_at, IsBefore, Before, IsTrusted, After, Stage, pend-Before,
  pend-After, drop-Before, drop-After, notify-After, receive_data-After, do_send-After,
  do_send-Before, do_close-Stage,
}
use securepath.Network.Connection.BringUp.{
  on_resolve-B, on_connect-B, on_starting_tls-B, on_tls_handshake-Stage, on_handshake_frame-Stage,
}

-- A connection as `connect` or `start_server_handshake` leaves a fresh one.
abbrev pub Opened : Connection → Type 0
Opened s =
    ((b : Bool) × (d : HandshakeData) × (address : List ℕ) × (connect address
          (encrypted_connection_impl b d)
        ≡ some s))
    ⊎ ((b : Bool) × (d : HandshakeData) × (start_server_handshake (encrypted_connection_impl b d)
          ≡ s))

some_same : {s t : Connection} → ◌≡◌ {A = Option Connection} (some s) (some t) → s ≡ t
some_same {s} e = ap (connection_or s) e
  where
    connection_or : Connection → Option Connection → Connection
    connection_or d none = d
    connection_or d (some x) = x

module _ (c : Context) (w : Wire) (exporter : ExporterFunction) where
  abbrev B : ℕ → Connection → Type 0
  B = Before c w exporter

  abbrev A : Connection → Type 0
  A = After c w exporter

  on_write-Stage :
      (ec : Option ErrorCode) (s : Connection)
      → Stage c w exporter s
      → Stage c w exporter (on_write ec s)
  unfolding on_write
  on_write-Stage none s stage = stage
  on_write-Stage (some e) s (inl b) = inl (drop-Before c w exporter 1 (some e) s b)
  on_write-Stage (some e) s (inr a) = inr (drop-After c w exporter (some e) s a)

  drop-Stage :
      (e : Option ErrorCode) (s : Connection)
      → Stage c w exporter s
      → Stage c w exporter (disconnect_with e s)
  drop-Stage e s (inl b) = inl (drop-Before c w exporter 1 e s b)
  drop-Stage e s (inr a) = inr (drop-After c w exporter e s a)

  on_timeout-Stage :
      (ec : Option ErrorCode) (s : Connection)
      → Stage c w exporter s
      → Stage c w exporter (on_timeout ec s)
  unfolding on_timeout
  on_timeout-Stage (some e) s stage = stage
  on_timeout-Stage none s stage =
      either_branch (Stage c w exporter) (is_up s.state) (λ _. stage)
        (λ _. drop-Stage (some timed_out) s stage)

  do_send-Stage : (s : Connection) → Stage c w exporter s → Stage c w exporter (do_send s)
  do_send-Stage s (inl b) = inl (do_send-Before c w exporter 1 s b)
  do_send-Stage s (inr a) = inr (do_send-After c w exporter s a)

  on_posted_close-Stage :
      (e : Option ErrorCode) (s : Connection)
      → Stage c w exporter s
      → Stage c w exporter (on_posted_close e s)
  unfolding on_posted_close
  on_posted_close-Stage e s stage =
      either_branch (Stage c w exporter) s.is_closed (λ _. stage)
        (λ _. drop-Stage e (record s { is_closed = true }) stage)

  on_data_frame-A :
      (ec : Option ErrorCode) (frame : List ℕ) (s : Connection) → A s → A (on_data_frame ec frame s)
  unfolding on_data_frame
  on_data_frame-A (some e) frame s a = drop-After c w exporter (some e) s a
  on_data_frame-A none frame s a =
      receive_data-After c w exporter (notify (on_received frame) s)
        (notify-After c w exporter (on_received frame) s a)

  on_data_write-A :
      (size : ℕ) (ec : Option ErrorCode) (s : Connection) → A s → A (on_data_write size ec s)
  unfolding on_data_write
  on_data_write-A size (some e) s a =
      drop-After c w exporter (some e) (record s { writing = false }) a
  on_data_write-A size none s a =
      let free : Connection = record s { writing = false } in
      do_send-After c w exporter (notify (on_sent size) free)
        (notify-After c w exporter (on_sent size) free a)

  -- What is left of a stage for the handler of an operation that was taken off the list.
  abbrev LeftFor : Operation → Connection → Type 0
  LeftFor op s = (B (1 - drives op) s × (carries op ≡ 0)) ⊎ (A s × (drives op ≡ 0))

  left-LeftFor :
      (s : Connection) (ops : List Operation) (op : Operation)
      → total drives s.pending ≡ drives op + total drives ops
      → total carries s.pending ≡ carries op + total carries ops
      → Stage c w exporter s
      → LeftFor op (record s { pending = ops })
  left-LeftFor s ops op d k (inl b) =
      let f = b.few in
      let z = b.no_data in
      inl (
        record {
          few = omega arith;
          no_data = omega arith;
          not_up = b.not_up;
          unheard = b.unheard;
          reached = b.reached;
          small = b.small;
        },
        omega arith,
      )
  left-LeftFor s ops op d k (inr a) =
      let z = a.idle in inr (record { idle = omega arith; trusted = a.trusted }, omega arith)

  driver_left : (op : Operation) (s : Connection) → drives op ≡ 1 → LeftFor op s → B 0 s
  driver_left op s one (inl (b, k)) = subst (λ n. B (1 - n) s) one b
  driver_left op s one (inr (a, d)) = absurd (omega arith)

  carrier_left : (op : Operation) (s : Connection) → carries op ≡ 1 → LeftFor op s → A s
  carrier_left op s one (inl (b, k)) = absurd (omega arith)
  carrier_left op s one (inr (a, d)) = a

  other_left :
      (op : Operation) (s : Connection) → drives op ≡ 0 → LeftFor op s → Stage c w exporter s
  other_left op s idle (inl (b, k)) = inl (subst (λ n. B (1 - n) s) idle b)
  other_left op s idle (inr (a, d)) = inr a

  handler-Stage :
      (op : Operation) (o : Outcome) (s : Connection)
      → LeftFor op s
      → Stage c w exporter (handler c w exporter op o s)
  unfolding handler
  handler-Stage (resolving address) o s l =
      inl (on_resolve-B c w exporter address o.ec s (driver_left (resolving address) s refl l))
  handler-Stage (connecting_to address) o s l =
      inl (on_connect-B c w exporter o.ec s (driver_left (connecting_to address) s refl l))
  handler-Stage starting_tls o s l =
      inl (on_starting_tls-B c w exporter s (driver_left starting_tls s refl l))
  handler-Stage tls_handshaking o s l =
      on_tls_handshake-Stage c w exporter o.ec o.random s (driver_left tls_handshaking s refl l)
  handler-Stage reading_handshake o s l =
      on_handshake_frame-Stage c w exporter o o.ec s (driver_left reading_handshake s refl l)
  handler-Stage writing_handshake o s l =
      on_write-Stage o.ec s (other_left writing_handshake s refl l)
  handler-Stage reading_data o s l =
      inr (on_data_frame-A o.ec o.frame s (carrier_left reading_data s refl l))
  handler-Stage (writing_data size) o s l =
      inr (on_data_write-A size o.ec s (carrier_left (writing_data size) s refl l))
  handler-Stage refused_handshake o s l =
      on_write-Stage (some invalid_data) s (other_left refused_handshake s refl l)
  handler-Stage (refused_data size) o s l =
      inr (on_data_write-A size (some invalid_data) s (carrier_left (refused_data size) s refl l))
  handler-Stage timing o s l = on_timeout-Stage o.ec s (other_left timing s refl l)
  handler-Stage posted_send o s l = do_send-Stage s (other_left posted_send s refl l)
  handler-Stage posted_remove o s l = other_left posted_remove s refl l
  handler-Stage (posted_close e) o s l =
      on_posted_close-Stage e s (other_left (posted_close e) s refl l)

  complete_with-Stage :
      (op : Option Operation) (i : ℕ) (o : Outcome) (s : Connection)
      → get_elem? s.pending i ≡ op
      → Stage c w exporter s
      → Stage c w exporter (complete_with c w exporter op i o s)
  unfolding complete_with
  complete_with-Stage none i o s at stage = stage
  complete_with-Stage (some op) i o s at stage =
      let ops = without_at i s.pending in
      handler-Stage op o (record s { pending = ops })
        (left-LeftFor s ops op (total-without_at drives s.pending i op at)
          (total-without_at carries s.pending i op at) stage)

  send-Stage :
      (octets : List ℕ) (s : Connection) → Stage c w exporter s → Stage c w exporter (send octets s)
  unfolding send
  send-Stage octets s stage =
      let queued : Connection = record s { out_queue = s.out_queue ++ octets ∷ [] } in
      either_branch (Stage c w exporter) s.is_connected (λ _. posted_too queued stage) (λ _. stage)
    where
      posted_too : (t : Connection) → Stage c w exporter t → Stage c w exporter (pend posted_send t)
      posted_too t (inl b) = inl (pend-Before c w exporter 1 posted_send t refl b)
      posted_too t (inr a) = inr (pend-After c w exporter posted_send t refl a)

  step-Stage :
      (e : Event) (s : Connection)
      → Stage c w exporter s
      → Stage c w exporter (step c w exporter e s)
  unfolding step close close_later
  step-Stage (completes i o) s stage = complete_with-Stage (get_elem? s.pending i) i o s refl stage
  step-Stage (sends octets) s stage = send-Stage octets s stage
  step-Stage closes s stage =
      either_branch (Stage c w exporter) s.is_closed (λ _. stage)
        (λ _. do_close-Stage c w exporter (record s { is_closed = true }) stage)
  step-Stage (closes_later e) s (inl b) = inl (pend-Before c w exporter 1 (posted_close e) s refl b)
  step-Stage (closes_later e) s (inr a) = inr (pend-After c w exporter (posted_close e) s refl a)

  run-Stage :
      (es : List Event) (s : Connection)
      → Stage c w exporter s
      → Stage c w exporter (run c w exporter es s)
  unfolding run
  run-Stage [] s stage = stage
  run-Stage (e ∷ es) s stage = run-Stage es (step c w exporter e s) (step-Stage e s stage)

  fresh :
      (pending : List Operation)
      → total drives pending ≤ 1
      → total carries pending ≡ 0
      → IsBefore c w exporter 1 pending false [] none none
  fresh pending few no_data = record {
    few = few;
    no_data = no_data;
    not_up = refl;
    unheard = tt;
    reached = tt;
    small = tt;
  }

  Opened-Stage : (s : Connection) → Opened s → Stage c w exporter s
  unfolding connect start_server_handshake encrypted_connection_impl pend
  Opened-Stage s (inl (b, d, address, e)) = inl (
      subst (B 1) (some_same e)
        (fresh (resolving address ∷ timing ∷ []) (omega arith) (omega arith)))
  Opened-Stage s (inr (b, d, e)) =
      inl (subst (B 1) e (fresh (timing ∷ starting_tls ∷ []) (omega arith) (omega arith)))

  -- Until its peer is authenticated a connection that was opened is not up, nothing of its messages is
  -- under way, the client has heard of nothing but the end, and frames are within
  -- max_handshake_frame_size; then it reports the key of the peer that its handshake authenticated. This
  -- is so in whatever order the operations complete and whatever the program calls.
  pub run-trusted :
      (es : List Event) (s : Connection) → Opened s → Stage c w exporter (run c w exporter es s)
  run-trusted es s o = run-Stage es s (Opened-Stage s o)

  -- Whenever a connection that was opened is up, its peer was authenticated by the handshake that it
  -- keeps, for the binding of the channel.
  pub run-connected :
      (es : List Event) (s : Connection)
      → Opened s
      → (run c w exporter es s).is_connected ≡ true
      → IsTrusted c w exporter (run c w exporter es s).handshake (run c w exporter es s).remote_key
  run-connected es s o up = at_stage (run-trusted es s o)
    where
      at_stage :
          Stage c w exporter (run c w exporter es s)
          → IsTrusted c w exporter
              (run c w exporter es s).handshake
              (run c w exporter es s).remote_key
      at_stage (inl b) = absurd (ground (arith, up, b.not_up))
      at_stage (inr a) = a.trusted
