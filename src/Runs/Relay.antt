-- ===== src/Runs/Relay.antt =====
-- A connection that forwards, at concrete inputs.
use uologin.Prelude.{◌≡◌, refl, inl, inr, true, false, some, List, [], ◌∷◌, ◌++◌, arith}
use uologin.Runs.{platform}
use uologin.Runs.Life.{read_event, dialling, let_in, served}
use uologin.Splice.{moved_in, moved_out, receive_from, send_to}
use uologin.Splice.Fifo.{content}
use uologin.Connection.{Connection, Effect, ready, to_client, to_server, give_back}
use uologin.Connection.Gate.{to_servers}
use uologin.Connection.Server.{ServerCalls, on_socket_connect_success}
use uologin.Connection.Transfer.{Calls, transfer}
use uologin.Connection.Ready.{on_outgoing_ready}
use uologin.Server.{connect_success, outgoing_ready}
use uologin.Server.Served.{IsDue}
use uologin.Server.Relay.{Relays, here, relays, to_clients}
use uologin.Server.Stream.{Relays-stream}

-- The server is there, and has the login packets.
abbrev playing : Connection platform
playing = record dialling {
  connect_pending = false;
  outgoing = record { defined = true; read = true; write = false };
  incoming = record { defined = true; read = true; write = false };
  state = ready;
}

-- The server sends two bytes, and the client takes one.
abbrev passing_calls : Calls
passing_calls = record {
  write_near = moved_out 0;
  stock = some [];
  read_near = moved_in (1 ∷ 2 ∷ []);
  write_far = moved_out 1;
}

abbrev server_calls : ServerCalls
server_calls = record { cmd = []; length_field = []; discarded = []; send_ok = true }

abbrev passed : Connection platform
passed = record playing {
  incoming = record { defined = true; read = true; write = true };
  outgoing = record { defined = true; read = false; write = false };
  splice_out_in = record { pipe = some (2 ∷ []); size = 1; received_bytes = 2; sent_bytes = 1 };
}

abbrev one_passed : List (Effect platform)
one_passed = to_server [] ∷ to_client (1 ∷ []) ∷ give_back [] ∷ []

due : IsDue platform {i = let_in} playing (outgoing_ready read_event server_calls passing_calls)
unfolding receive_from
due = (
  refl,
  ((λ h. refl), λ h. cc),
  inr (inl refl),
  λ e. record {
    near_out = omega arith;
    stock = refl;
    near_in = omega arith;
    far_out = λ d h. ground arith;
  },
)

relayed : Relays platform false playing [] (1 ∷ 2 ∷ []) one_passed passed
unfolding on_outgoing_ready transfer receive_from send_to
relayed = relays {i = let_in} here (outgoing_ready read_event server_calls passing_calls) due refl

Relays-stream_example :
    (passed.state ≡ ready)
    × ([] ≡ to_servers platform one_passed ++ content passed.splice_in_out)
    × (1 ∷ 2 ∷ [] ≡ to_clients platform one_passed ++ content passed.splice_out_in)
unfolding on_socket_connect_success
Relays-stream_example =
    Relays-stream platform {d = playing} {i = let_in} served (λ h. cc) (connect_success true) refl
      refl refl relayed
