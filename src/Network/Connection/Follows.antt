-- ===== src/Network/Connection/Follows.antt =====
-- What every handler of a connection keeps: the order of the messages, and that the client hears
-- nothing after it was told of the end.
use securepath.Base.{
  ℕ, ◌≡◌, refl, ap, sym, ◌∙◌, Bool, true, false, ◌&&◌, ◌||◌, not, List, [], ◌∷◌, ◌++◌, Option, some,
  All, arith, append_assoc, leb, length, if◌then◌else◌, Bool-cases, inl, inr, either_branch, subst,
}
use securepath.Network.Handshake.{HandshakeOpState, in_progress, succeeded, error, HandshakeResult}
use securepath.Network.Handshake.Negotiation.{remote_public_key, Handshake}
use securepath.Network.Connection.{
  ErrorCode, handshake_failed, Notification, on_connected, on_sent, on_received, on_disconnected,
  Connection, connected, max_frame_size, pend, notify, tell_off, disconnect_with, receive_data,
  send_payload, write_packet, send_front, do_send, become_connected, send_packet, advance,
  packet_of, advance_handshake,
}

abbrev pub IsNoEnd : Notification → Type 0
IsNoEnd on_connected = Unit {0}
IsNoEnd (on_sent n) = Unit {0}
IsNoEnd (on_received octets) = Unit {0}
IsNoEnd (on_disconnected e) = ⊥

-- The end is the last that was told, if it was.
abbrev pub EndsOnce : List Notification → Type 0
EndsOnce [] = Unit {0}
EndsOnce (n ∷ before) = All IsNoEnd before

abbrev pub IsQuietAt : Bool → List Notification → Type 0
IsQuietAt true told = All IsNoEnd told
IsQuietAt false told = EndsOnce told

abbrev pub IsQuiet : Connection → Type 0
IsQuiet s = IsQuietAt s.has_client s.told

-- Those that a frame can carry.
unfoldable pub fitting : List (List ℕ) → List (List ℕ)
fitting [] = []
fitting (p ∷ ps) = let rest = fitting ps in if leb (length p) max_frame_size then p ∷ rest else rest

pub fitting-append : (ps qs : List (List ℕ)) → fitting (ps ++ qs) ≡ fitting ps ++ fitting qs
unfolding fitting
fitting-append [] qs = refl
fitting-append (p ∷ ps) qs = elim (Bool-cases (leb (length p) max_frame_size)) [
  | inl fits ↦ rw fits (ap (λ t. p ∷ t) (fitting-append ps qs))
  | inr large ↦ rw large (fitting-append ps qs)
]

-- The messages that were written to the stream, in order, and those that wait and a frame can carry.
abbrev pub messages : Connection → List (List ℕ)
messages s = s.sent ++ fitting s.out_queue

-- From `s` to `t` no message that a frame can carry is lost, doubled or moved, and the client stays undisturbed: after the end,
-- and once it is let go.
pub record Follows (s t : Connection) : Type 0 where
  pub order : messages t ≡ messages s
  pub quiet : IsQuiet s → IsQuiet t
  pub silent : s.has_client ≡ false → (t.told ≡ s.told) × (t.has_client ≡ false)

abbrev pub stays : (s : Connection) → Follows s s
stays s = record { order = refl; quiet = λ q. q; silent = λ e. (refl, e) }

pub then_on : {s t u : Connection} → Follows s t → Follows t u → Follows s u
then_on f g = record {
  order = g.order ∙ f.order;
  quiet = λ q. g.quiet (f.quiet q);
  silent = λ e.
      let (same, gone) = f.silent e in let (same', gone') = g.silent gone in (same' ∙ same, gone');
}

pub ended : (told : List Notification) → All IsNoEnd told → EndsOnce told
ended [] q = tt
ended (n ∷ told) q = q.1

pub quiet_as : (b : Bool) (s : Connection) → s.has_client ≡ b → IsQuiet s → IsQuietAt b s.told
quiet_as b s e q = subst (λ t. IsQuietAt t s.told) e q

pub notify-Follows : (n : Notification) (s : Connection) → IsNoEnd n → Follows s (notify n s)
unfolding notify
notify-Follows n s live =
    either_branch (Follows s) s.has_client
      (λ e. record {
        order = refl;
        quiet = λ q. subst (λ t. IsQuietAt t (n ∷ s.told)) (sym e) (live, quiet_as true s e q);
        silent = λ gone. absurd (ground (arith, e, gone));
      })
      (λ e. stays s)

tell_off-Follows : (e : Option ErrorCode) (s : Connection) → Follows s (tell_off e s)
unfolding tell_off
tell_off-Follows e s =
    either_branch (Follows s) s.has_client
      (λ here. record {
        order = refl;
        quiet = quiet_as true s here;
        silent = λ gone. absurd (ground (arith, here, gone));
      })
      (λ _. stays s)

pub disconnect_with-Follows :
    (e : Option ErrorCode) (s : Connection) → Follows s (disconnect_with e s)
unfolding disconnect_with
disconnect_with-Follows e s =
    either_branch (Follows s) s.disconnected (λ _. stays s)
      (λ _.
        let f = tell_off-Follows e (record s { disconnected = true; is_connected = false }) in
        record { order = f.order; quiet = f.quiet; silent = f.silent })

send_payload-Follows :
    (fits : Bool) (payload : List ℕ) (rest : List (List ℕ)) (s : Connection)
    → leb (length payload) max_frame_size ≡ fits
    → s.out_queue ≡ payload ∷ rest
    → Follows s (send_payload fits payload (record s { writing = true; out_queue = rest }))
unfolding send_payload pend fitting
send_payload-Follows true payload rest s fits e = record {
  order = append_assoc s.sent (payload ∷ []) (fitting rest) ∙ rw (e, fits) refl;
  quiet = λ q. q;
  silent = λ e. (refl, e);
}
send_payload-Follows false payload rest s large e = record {
  order = rw (e, large) refl;
  quiet = λ q. q;
  silent = λ e. (refl, e);
}

send_front-Follows :
    (q : List (List ℕ)) (s : Connection) → s.out_queue ≡ q → Follows s (send_front q s)
unfolding send_front
send_front-Follows [] s e = stays s
send_front-Follows (payload ∷ rest) s e =
    send_payload-Follows (leb (length payload) max_frame_size) payload rest s refl e

pub do_send-Follows : (s : Connection) → Follows s (do_send s)
unfolding do_send
do_send-Follows s =
    either_branch (Follows s) (s.writing || not s.is_connected) (λ _. stays s)
      (λ _. send_front-Follows s.out_queue s refl)

pub receive_data-Follows : (s : Connection) → Follows s (receive_data s)
unfolding receive_data pend
receive_data-Follows s =
    either_branch (Follows s) (s.is_connected && s.has_client)
      (λ _. record { order = refl; quiet = λ q. q; silent = λ e. (refl, e) }) (λ _. stays s)

become_connected-Follows : (h : Handshake) (s : Connection) → Follows s (become_connected h s)
unfolding become_connected
become_connected-Follows h s =
    let up : Connection = record s {
      remote_key = remote_public_key h;
      state = connected;
      is_connected = true;
      reader_limit = some max_frame_size;
    } in
    let heard = notify-Follows on_connected up tt in
    let all = then_on heard (
      then_on (receive_data-Follows (notify on_connected up))
        (do_send-Follows (receive_data (notify on_connected up)))) in
    record { order = all.order; quiet = all.quiet; silent = all.silent }

advance-Follows :
    (r : HandshakeOpState) (h : Handshake) (s : Connection) → Follows s (advance r h s)
unfolding advance pend
advance-Follows error h s = disconnect_with-Follows (some handshake_failed) s
advance-Follows succeeded h s = become_connected-Follows h s
advance-Follows in_progress h s = record { order = refl; quiet = λ q. q; silent = λ e. (refl, e) }

write_packet-Follows :
    (fits : Bool) (packet : List ℕ) (s : Connection) → Follows s (write_packet fits packet s)
unfolding write_packet pend
write_packet-Follows true packet s = record {
  order = refl;
  quiet = λ q. q;
  silent = λ e. (refl, e);
}
write_packet-Follows false packet s = record {
  order = refl;
  quiet = λ q. q;
  silent = λ e. (refl, e);
}

send_packet-Follows : (packet : List ℕ) (s : Connection) → Follows s (send_packet packet s)
unfolding send_packet
send_packet-Follows [] s = stays s
send_packet-Follows (b ∷ bs) s =
    write_packet-Follows (leb (length (b ∷ bs)) max_frame_size) (b ∷ bs) s

pub advance_handshake-Follows :
    (done : HandshakeResult × Handshake) (s : Connection) → Follows s (advance_handshake done s)
unfolding advance_handshake
advance_handshake-Follows done s =
    let with_it : Connection = record s { handshake = some done.1 } in
    let all =
      then_on (send_packet-Follows (packet_of done.0) with_it)
        (advance-Follows done.0.state done.1 (send_packet (packet_of done.0) with_it)) in
    record { order = all.order; quiet = all.quiet; silent = all.silent }
