-- ===== src/Network/Connection/Handled.antt =====
-- Each handler of a connection follows.
use securepath.Base.{ℕ, ◌≡◌, refl, Bool, true, false, ◌&&◌, List, Option, none, some, either_branch}
use securepath.Network.Handshake.{EndpointRole, client, server, Wire, Context}
use securepath.Network.Handshake.Negotiation.{
  Handshake, handshake, ExporterFunction, start, handle_packet,
}
use securepath.Network.Connection.{
  ErrorCode, timed_out, on_sent, on_received, Operation, resolving, connecting_to, starting_tls,
  tls_handshaking, reading_handshake, writing_handshake, reading_data, timing, posted_send,
  posted_remove, writing_data, refused_data, refused_handshake, invalid_data, posted_close, Outcome,
  Connection, is_aborted, is_up, max_handshake_frame_size, pend, notify, disconnect_with,
  unless_aborted, on_resolve, start_tls, on_connect, on_starting_tls, on_data_frame, on_write,
  on_data_write, on_timeout, on_posted_close, do_close, close,
}
use securepath.Network.Connection.Events.{
  start_handshake, on_tls_handshake, step_handshake, on_handshake_frame, handler, complete_with,
  without_at,
}
use securepath.Network.Connection.Follows.{
  EndsOnce, IsQuietAt, Follows, stays, then_on, ended, notify-Follows, disconnect_with-Follows,
  do_send-Follows, receive_data-Follows, advance_handshake-Follows,
}

unless_aborted-Follows : (e : ErrorCode) (s : Connection) → Follows s (unless_aborted e s)
unfolding unless_aborted
unless_aborted-Follows e s =
    either_branch (Follows s) (is_aborted e) (λ _. stays s)
      (λ _. disconnect_with-Follows (some e) s)

on_resolve-Follows :
    (address : List ℕ) (ec : Option ErrorCode) (s : Connection)
    → Follows s (on_resolve address ec s)
unfolding on_resolve pend
on_resolve-Follows address none s =
    either_branch (Follows s) s.has_client
      (λ _. record { order = refl; quiet = λ q. q; silent = λ e. (refl, e) })
      (λ _. disconnect_with-Follows none s)
on_resolve-Follows address (some e) s = unless_aborted-Follows e s

on_connect-Follows : (ec : Option ErrorCode) (s : Connection) → Follows s (on_connect ec s)
unfolding on_connect start_tls pend
on_connect-Follows none s =
    either_branch (Follows s) s.has_client
      (λ _. record { order = refl; quiet = λ q. q; silent = λ e. (refl, e) })
      (λ _. disconnect_with-Follows none s)
on_connect-Follows (some e) s = unless_aborted-Follows e s

on_starting_tls-Follows : (s : Connection) → Follows s (on_starting_tls s)
unfolding on_starting_tls start_tls pend
on_starting_tls-Follows s =
    either_branch (Follows s) s.has_client
      (λ _. record { order = refl; quiet = λ q. q; silent = λ e. (refl, e) }) (λ _. stays s)

on_data_frame-Follows :
    (ec : Option ErrorCode) (frame : List ℕ) (s : Connection) → Follows s (on_data_frame ec frame s)
unfolding on_data_frame
on_data_frame-Follows (some e) frame s = disconnect_with-Follows (some e) s
on_data_frame-Follows none frame s =
    then_on (notify-Follows (on_received frame) s tt)
      (receive_data-Follows (notify (on_received frame) s))

on_write-Follows : (ec : Option ErrorCode) (s : Connection) → Follows s (on_write ec s)
unfolding on_write
on_write-Follows (some e) s = disconnect_with-Follows (some e) s
on_write-Follows none s = stays s

on_data_write-Follows :
    (size : ℕ) (ec : Option ErrorCode) (s : Connection) → Follows s (on_data_write size ec s)
unfolding on_data_write
on_data_write-Follows size (some e) s =
    let f = disconnect_with-Follows (some e) (record s { writing = false }) in
    record { order = f.order; quiet = f.quiet; silent = f.silent }
on_data_write-Follows size none s =
    let free : Connection = record s { writing = false } in
    let f =
      then_on (notify-Follows (on_sent size) free tt)
        (do_send-Follows (notify (on_sent size) free)) in
    record { order = f.order; quiet = f.quiet; silent = f.silent }

on_timeout-Follows : (ec : Option ErrorCode) (s : Connection) → Follows s (on_timeout ec s)
unfolding on_timeout
on_timeout-Follows (some e) s = stays s
on_timeout-Follows none s =
    either_branch (Follows s) (is_up s.state) (λ _. stays s)
      (λ _. disconnect_with-Follows (some timed_out) s)

on_posted_close-Follows : (e : Option ErrorCode) (s : Connection) → Follows s (on_posted_close e s)
unfolding on_posted_close
on_posted_close-Follows e s =
    either_branch (Follows s) s.is_closed (λ _. stays s)
      (λ _.
        let f = disconnect_with-Follows e (record s { is_closed = true }) in
        record { order = f.order; quiet = f.quiet; silent = f.silent })

-- The client is let go without a word.
drop_client-Follows : (s : Connection) → Follows s (record s { has_client = false })
drop_client-Follows s = record {
  order = refl;
  quiet = quietly s.has_client;
  silent = λ e. (refl, refl);
}
  where
    quietly : (b : Bool) → IsQuietAt b s.told → EndsOnce s.told
    quietly true q = ended s.told q
    quietly false q = q

do_close-Follows : (s : Connection) → Follows s (do_close s)
unfolding do_close pend
do_close-Follows s =
    either_branch (λ freed. Follows s (disconnect_with none (record freed { has_client = false })))
      (s.has_server && s.has_client)
      (λ _.
        let freed : Connection = pend posted_remove (record s { has_server = false }) in
        let f =
          then_on (drop_client-Follows freed)
            (disconnect_with-Follows none (record freed { has_client = false })) in
        record { order = f.order; quiet = f.quiet; silent = f.silent })
      (λ _.
        then_on (drop_client-Follows s)
          (disconnect_with-Follows none (record s { has_client = false })))

-- Closing lets the client go before the rest.
pub do_close-silent :
    (s : Connection) → ((do_close s).told ≡ s.told) × ((do_close s).has_client ≡ false)
unfolding do_close pend
do_close-silent s =
    either_branch
      (λ (freed : Connection).
        ((disconnect_with none (record freed { has_client = false })).told ≡ s.told)
        × ((disconnect_with none (record freed { has_client = false })).has_client ≡ false))
      (s.has_server && s.has_client)
      (λ _.
        (disconnect_with-Follows none
            (record (pend posted_remove (record s { has_server = false })) {
              has_client = false;
            })).silent
          refl)
      (λ _. (disconnect_with-Follows none (record s { has_client = false })).silent refl)

pub close-Follows : (s : Connection) → Follows s (close s)
unfolding close
close-Follows s =
    either_branch (Follows s) s.is_closed (λ _. stays s)
      (λ _.
        let f = do_close-Follows (record s { is_closed = true }) in
        record { order = f.order; quiet = f.quiet; silent = f.silent })

module _ (c : Context) (w : Wire) (exporter : ExporterFunction) where
  start_handshake-Follows :
      (r : EndpointRole) (random : List ℕ) (s : Connection)
      → Follows s (start_handshake c w exporter r random s)
  unfolding start_handshake pend
  start_handshake-Follows client random s =
      advance_handshake-Follows (start c w (handshake client) s.handshake_data random) s
  start_handshake-Follows server random s = record {
    order = refl;
    quiet = λ q. q;
    silent = λ e. (refl, e);
  }

  on_tls_handshake-Follows :
      (ec : Option ErrorCode) (random : List ℕ) (s : Connection)
      → Follows s (on_tls_handshake c w exporter ec random s)
  unfolding on_tls_handshake
  on_tls_handshake-Follows (some e) random s = disconnect_with-Follows (some e) s
  on_tls_handshake-Follows none random s =
      let f =
        start_handshake-Follows s.role random
          (record s { reader_limit = some max_handshake_frame_size }) in
      record { order = f.order; quiet = f.quiet; silent = f.silent }

  step_handshake-Follows :
      (o : Option Handshake) (random frame : List ℕ) (s : Connection)
      → Follows s (step_handshake c w exporter o random frame s)
  unfolding step_handshake
  step_handshake-Follows none random frame s = stays s
  step_handshake-Follows (some h) random frame s =
      advance_handshake-Follows (handle_packet c w exporter h random frame) s

  on_handshake_frame-Follows :
      (o : Outcome) (ec : Option ErrorCode) (s : Connection)
      → Follows s (on_handshake_frame c w exporter o ec s)
  unfolding on_handshake_frame
  on_handshake_frame-Follows o (some e) s = disconnect_with-Follows (some e) s
  on_handshake_frame-Follows o none s = step_handshake-Follows s.handshake o.random o.frame s

  handler-Follows :
      (op : Operation) (o : Outcome) (s : Connection) → Follows s (handler c w exporter op o s)
  unfolding handler
  handler-Follows (resolving address) o s = on_resolve-Follows address o.ec s
  handler-Follows (connecting_to address) o s = on_connect-Follows o.ec s
  handler-Follows starting_tls o s = on_starting_tls-Follows s
  handler-Follows tls_handshaking o s = on_tls_handshake-Follows o.ec o.random s
  handler-Follows reading_handshake o s = on_handshake_frame-Follows o o.ec s
  handler-Follows writing_handshake o s = on_write-Follows o.ec s
  handler-Follows reading_data o s = on_data_frame-Follows o.ec o.frame s
  handler-Follows (writing_data size) o s = on_data_write-Follows size o.ec s
  handler-Follows refused_handshake o s = on_write-Follows (some invalid_data) s
  handler-Follows (refused_data size) o s = on_data_write-Follows size (some invalid_data) s
  handler-Follows timing o s = on_timeout-Follows o.ec s
  handler-Follows posted_send o s = do_send-Follows s
  handler-Follows posted_remove o s = record {
    order = refl;
    quiet = λ q. q;
    silent = λ e. (refl, e);
  }
  handler-Follows (posted_close e) o s = on_posted_close-Follows e s

  pub complete_with-Follows :
      (op : Option Operation) (i : ℕ) (o : Outcome) (s : Connection)
      → Follows s (complete_with c w exporter op i o s)
  unfolding complete_with
  complete_with-Follows none i o s = stays s
  complete_with-Follows (some op) i o s =
      let f = handler-Follows op o (record s { pending = without_at i s.pending }) in
      record { order = f.order; quiet = f.quiet; silent = f.silent }
