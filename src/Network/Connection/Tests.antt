-- ===== src/Network/Connection/Tests.antt =====
-- Connections on the exchange of the handshake's tests.
use securepath.Base.{◌≡◌, refl, true, false, List, [], ◌∷◌, none, inr}
use securepath.Network.Handshake.Tests.{wire, exporter, client_context, request}
use securepath.Network.Connection.{
  Outcome, Connection, encrypted_connection_impl, start_server_handshake,
}
use securepath.Network.Connection.Events.{Event, completes, sends, closes, run as run_events}
use securepath.Network.Connection.Follows.{IsQuiet, EndsOnce, fitting, messages}
use securepath.Network.Connection.Quiet.{run-messages, run-EndsOnce, run-close}
use securepath.Network.Connection.Stage.{Stage}
use securepath.Network.Connection.Trusted.{Opened, run-trusted}

abbrev fresh : Connection
fresh = encrypted_connection_impl true request

abbrev nothing : Outcome
nothing = record { ec = none; frame = []; random = [] }

abbrev events : List Event
events = sends (1 ∷ []) ∷ completes 0 nothing ∷ sends (2 ∷ []) ∷ closes ∷ completes 1 nothing ∷ []

run-messages_example :
    messages (run_events client_context wire exporter events fresh) ≡ (1 ∷ []) ∷ (2 ∷ []) ∷ []
unfolding encrypted_connection_impl fitting
run-messages_example = run-messages client_context wire exporter events fresh

fresh-IsQuiet : IsQuiet fresh
unfolding encrypted_connection_impl
fresh-IsQuiet = tt

run-EndsOnce_example : EndsOnce (run_events client_context wire exporter events fresh).told
run-EndsOnce_example = run-EndsOnce client_context wire exporter events fresh fresh-IsQuiet

fresh_open : fresh.is_closed ≡ false
unfolding encrypted_connection_impl
fresh_open = refl

run-close_example :
    (run_events client_context wire exporter (closes ∷ events) fresh).told ≡ fresh.told
run-close_example = run-close client_context wire exporter events fresh fresh_open

accepted : Opened (start_server_handshake fresh)
accepted = inr (true, request, refl)

run-trusted_example :
    Stage client_context wire exporter
      (run_events client_context wire exporter events (start_server_handshake fresh))
run-trusted_example =
    run-trusted client_context wire exporter events (start_server_handshake fresh) accepted
