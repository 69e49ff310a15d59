-- ===== src/Network/Connection/Quiet.antt =====
-- Runs of a connection: the order of its messages and what the client hears.
use securepath.Base.{
  ℕ, ◌≡◌, refl, ap, sym, ◌∙◌, Bool, true, false, List, [], ◌∷◌, ◌++◌, arith, append-nil,
  append_assoc, either_branch, get_elem?,
}
use securepath.Network.Handshake.{Wire, Context}
use securepath.Network.Handshake.Negotiation.{ExporterFunction}
use securepath.Network.Connection.{Notification, Connection, pend, send, close, close_later}
use securepath.Network.Connection.Events.{Event, completes, sends, closes, closes_later, step, run}
use securepath.Network.Connection.Follows.{
  IsQuiet, EndsOnce, IsQuietAt, fitting, fitting-append, messages, Follows, stays, ended,
}
use securepath.Network.Connection.Handled.{complete_with-Follows, close-Follows, do_close-silent}

-- What the program asks to send.
abbrev pub asked : List Event → List (List ℕ)
asked [] = []
asked (completes i o ∷ es) = asked es
asked (sends octets ∷ es) = octets ∷ asked es
asked (closes ∷ es) = asked es
asked (closes_later e ∷ es) = asked es

-- An event other than a send leaves the messages, a send adds one at the end.
abbrev After : Event → Connection → Connection → Type 0
After (sends octets) s t = Follows (record s { out_queue = s.out_queue ++ octets ∷ [] }) t
After (completes i o) s t = Follows s t
After closes s t = Follows s t
After (closes_later e) s t = Follows s t

send-After : (octets : List ℕ) (s : Connection) → After (sends octets) s (send octets s)
unfolding send pend
send-After octets s =
    let queued : Connection = record s { out_queue = s.out_queue ++ octets ∷ [] } in
    either_branch (Follows queued) s.is_connected
      (λ _. record { order = refl; quiet = λ q. q; silent = λ e. (refl, e) }) (λ _. stays queued)

module _ (c : Context) (w : Wire) (exporter : ExporterFunction) where
  step-After : (e : Event) (s : Connection) → After e s (step c w exporter e s)
  unfolding step close_later pend
  step-After (completes i o) s = complete_with-Follows c w exporter (get_elem? s.pending i) i o s
  step-After (sends octets) s = send-After octets s
  step-After closes s = close-Follows s
  step-After (closes_later e) s = record { order = refl; quiet = λ q. q; silent = λ e. (refl, e) }

  step-messages :
      (e : Event) (s : Connection)
      → messages (step c w exporter e s) ≡ messages s ++ fitting (asked (e ∷ []))
  unfolding fitting
  step-messages (completes i o) s =
      (step-After (completes i o) s).order ∙ sym (append-nil (messages s))
  step-messages (sends octets) s =
      (step-After (sends octets) s).order
      ∙ ap (λ t. s.sent ++ t) (fitting-append s.out_queue (octets ∷ []))
      ∙ sym (append_assoc s.sent (fitting s.out_queue) (fitting (octets ∷ [])))
  step-messages closes s = (step-After closes s).order ∙ sym (append-nil (messages s))
  step-messages (closes_later e) s =
      (step-After (closes_later e) s).order ∙ sym (append-nil (messages s))

  step-IsQuiet : (e : Event) (s : Connection) → IsQuiet s → IsQuiet (step c w exporter e s)
  step-IsQuiet (completes i o) s q = (step-After (completes i o) s).quiet q
  step-IsQuiet (sends octets) s q = (step-After (sends octets) s).quiet q
  step-IsQuiet closes s q = (step-After closes s).quiet q
  step-IsQuiet (closes_later e) s q = (step-After (closes_later e) s).quiet q

  step-silent :
      (e : Event) (s : Connection)
      → s.has_client ≡ false
      → ((step c w exporter e s).told ≡ s.told) × ((step c w exporter e s).has_client ≡ false)
  step-silent (completes i o) s gone = (step-After (completes i o) s).silent gone
  step-silent (sends octets) s gone = (step-After (sends octets) s).silent gone
  step-silent closes s gone = (step-After closes s).silent gone
  step-silent (closes_later e) s gone = (step-After (closes_later e) s).silent gone

  asked-cons : (e : Event) (es : List Event) → asked (e ∷ es) ≡ asked (e ∷ []) ++ asked es
  asked-cons (completes i o) es = refl
  asked-cons (sends octets) es = refl
  asked-cons closes es = refl
  asked-cons (closes_later e) es = refl

  -- Whatever happens, in whatever order the operations complete: the messages written to the stream and
  -- after them those that wait are what was there and then what the program asked to send, in order,
  -- none lost and none doubled, where those above the frame size, which are refused, are left out.
  pub run-messages :
      (es : List Event) (s : Connection)
      → messages (run c w exporter es s) ≡ messages s ++ fitting (asked es)
  unfolding run fitting
  run-messages [] s = sym (append-nil (messages s))
  run-messages (e ∷ es) s =
      run-messages es (step c w exporter e s)
      ∙ ap (λ t. t ++ fitting (asked es)) (step-messages e s)
      ∙ append_assoc (messages s) (fitting (asked (e ∷ []))) (fitting (asked es))
      ∙ ap (λ t. messages s ++ t)
          (sym (fitting-append (asked (e ∷ [])) (asked es)) ∙ ap fitting (sym (asked-cons e es)))

  pub run-IsQuiet : (es : List Event) (s : Connection) → IsQuiet s → IsQuiet (run c w exporter es s)
  unfolding run
  run-IsQuiet [] s q = q
  run-IsQuiet (e ∷ es) s q = run-IsQuiet es (step c w exporter e s) (step-IsQuiet e s q)

  once : (b : Bool) (told : List Notification) → IsQuietAt b told → EndsOnce told
  once true told q = ended told q
  once false told q = q

  -- The client is told of the end at most once, and hears nothing after it, whatever happens to a
  -- connection whose client has not been told of it yet.
  pub run-EndsOnce :
      (es : List Event) (s : Connection) → IsQuiet s → EndsOnce (run c w exporter es s).told
  run-EndsOnce es s q =
      let t = run c w exporter es s in once t.has_client t.told (run-IsQuiet es s q)

  run-silent :
      (es : List Event) (s : Connection)
      → s.has_client ≡ false
      → (run c w exporter es s).told ≡ s.told
  unfolding run
  run-silent [] s gone = refl
  run-silent (e ∷ es) s gone =
      let (same, gone') = step-silent e s gone in run-silent es (step c w exporter e s) gone' ∙ same

  close-silent :
      (s : Connection)
      → s.is_closed ≡ false
      → ((close s).told ≡ s.told) × ((close s).has_client ≡ false)
  unfolding close
  close-silent s open_ =
      either_branch (λ (t : Connection). (t.told ≡ s.told) × (t.has_client ≡ false)) s.is_closed
        (λ shut. absurd (ground (arith, open_, shut)))
        (λ _. do_close-silent (record s { is_closed = true }))

  -- Once `close` was called, where the connection was not closed before, the client hears nothing more,
  -- not even of the end, whatever still completes.
  pub run-close :
      (es : List Event) (s : Connection)
      → s.is_closed ≡ false
      → (run c w exporter (closes ∷ es) s).told ≡ s.told
  unfolding run step
  run-close es s open_ =
      let (same, gone) = close-silent s open_ in run-silent es (close s) gone ∙ same
