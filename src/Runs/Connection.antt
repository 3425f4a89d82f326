-- ===== src/Runs/Connection.antt =====
-- One connection at concrete inputs.
use uologin.Prelude.{
  ℕ, ◌≡◌, ◌⊎◌, refl, true, false, some, none, List, [], ◌∷◌, ◌++◌, length, replicate, get_elem?,
}
use uologin.Runs.{platform, v4, Socket}
use uologin.Runs.Config.{config_with}
use uologin.Runs.Database.{good_file, one_password}
use uologin.Runs.Admission.{fresh_instance}
use uologin.Database.{Job, queued, accepted_now, check_credentials}
use uologin.Accounting.{account}
use uologin.Splice.{moved_in, moved_out, receive_from, send_to, empty, failed_out, eagain, reuse}
use uologin.Wire.{
  expected_packets, extract_string, is_valid_username, byte_at, slice, sizeof_play_server,
}
use uologin.Wire.Command
use uologin.Config.{GameServerConfig}
use uologin.Instance.{Instance}
use uologin.Connection.{
  Connection, Effect, initial, server_list, ready, connecting, State, alive, start_job,
  start_connect, to_server, to_client, give_back, crashed, assertion,
}
use uologin.Connection
use uologin.Connection.Login.{LoginCalls, process_login, receive_play_server, on_check_credentials}
use uologin.Connection.Server.{ServerCalls}
use uologin.Connection.Transfer.{Ready, Calls, transfer}
use uologin.Connection.Ready.{on_incoming_ready, on_outgoing_ready}
use uologin.Connection.Phases.{
  process_login_cases, receive_play_server_cases, on_check_credentials-Rejects, Rejects,
  early_data_asserts,
}
use uologin.Connection.Stall.{Forwarding, here, server_ready, Forwarding-stalls}

abbrev login_packets : List ℕ
login_packets = 0xef ∷ replicate 20 7 ++ 0x80 ∷ 97 ∷ replicate 29 0 ++ 97 ∷ replicate 29 0 ++ 0 ∷ []

abbrev reading : Socket
reading = record { defined = true; read = true; write = false }

abbrev silent : Socket
silent = record { defined = true; read = false; write = false }

-- A connection in a state.
abbrev in_state : State → Connection platform
in_state s = record {
  id = 1;
  remote_address = v4 3;
  per_client = none;
  incoming = reading;
  outgoing = reading;
  splice_in_out = empty;
  splice_out_in = empty;
  outgoing_address = none;
  connect_pending = false;
  timeout = true;
  cancel_ptr = none;
  initial_packets = login_packets;
  initial_packets_fill = 83;
  state = s;
  play_server_wanted = false;
}

abbrev the_job : Job
the_job = record { username = 97 ∷ []; password = 97 ∷ []; canceled = false }

abbrev starts_job : List (Effect platform)
starts_job = start_job the_job ∷ []

abbrev connects_to : ℕ → List (Effect platform)
connects_to n = start_connect (v4 n) ∷ []

abbrev login_calls : LoginCalls
login_calls = record { received = some (0xa0 ∷ 0 ∷ 1 ∷ []); send_ok = true; files = good_file 4 }

abbrev loaded : Instance platform
loaded = record fresh_instance {
  database = record {
    db = some one_password;
    last_mtime = 4;
    last_reload_error = none;
    auto_reload = true;
  };
}

abbrev checking : Connection platform
checking = record (in_state Connection.check_credentials) { cancel_ptr = some the_job }

process_login_cases_example :
    let packets = expected_packets login_packets in
    let username = extract_string packets.login.credentials.username in
    let password = extract_string packets.login.credentials.password in
    let check = (check_credentials username password login_calls.files fresh_instance.database).1 in
    (packets.seed.cmd ≡ Command.seed)
    × (packets.login.cmd ≡ Command.account_login)
    × (is_valid_username platform username ≡ true)
    × (((job : Job) × (check ≡ queued job)
          × (starts_job ≡ start_job job ∷ [])
          × (some the_job ≡ some job)
          × (Connection.check_credentials ≡ Connection.check_credentials))
        ⊎ (check ≡ accepted_now))
unfolding process_login check_credentials expected_packets extract_string is_valid_username
process_login_cases_example =
    process_login_cases platform login_calls fresh_instance loaded (in_state initial) checking
      starts_job refl

-- The second server of the list is at the address 8.
abbrev with_list : Instance platform
with_list = record fresh_instance {
  config =
      config_with (v4 9) (
        record { name = 97 ∷ []; address = v4 7 } ∷ record { name = 98 ∷ []; address = v4 8 } ∷ []);
}

abbrev chosen : Connection platform
chosen = record (in_state connecting) {
  incoming = silent;
  timeout = false;
  outgoing_address = some (v4 8);
  connect_pending = true;
  play_server_wanted = true;
}

receive_play_server_cases_example :
    (packet : List ℕ) × (server : GameServerConfig platform) × (login_calls.received ≡ some packet)
    × (length packet ≡ sizeof_play_server)
    × (byte_at packet 0 ≡ Command.play_server)
    × (get_elem? with_list.config.server_list (platform.from_be16 (slice 1 2 packet)) ≡ some server)
    × (connects_to 8 ≡ start_connect server.address ∷ [])
    × (connecting ≡ connecting)
    × (true ≡ true)
    × (false ≡ false)
unfolding receive_play_server
receive_play_server_cases_example =
    receive_play_server_cases platform login_calls with_list with_list (in_state server_list) chosen
      (connects_to 8) refl

on_check_credentials-Rejects_example : Rejects platform fresh_instance (
    on_check_credentials platform false true fresh_instance (in_state Connection.check_credentials))
on_check_credentials-Rejects_example =
    on_check_credentials-Rejects platform true fresh_instance
      (in_state Connection.check_credentials) refl

abbrev read_event : Ready
read_event = record { dead = false; read = true; write = false }

-- Two bytes come from the client, and the server takes none.
abbrev blocked_calls : Calls
blocked_calls = record {
  write_near = moved_out 0;
  stock = some [];
  read_near = moved_in (1 ∷ 2 ∷ []);
  write_far = failed_out eagain;
}

abbrev connecting_now : Connection platform
connecting_now = record (in_state connecting) {
  outgoing_address = some (v4 9);
  connect_pending = true;
}

abbrev accepted_login : Instance platform
accepted_login = record fresh_instance {
  metrics = record fresh_instance.metrics { accepted_logins = 1 };
}

early_data_asserts_example :
    (connecting_now.incoming.read ≡ true)
    × (on_incoming_ready platform read_event login_calls blocked_calls accepted_login connecting_now
        ≡ crashed assertion)
unfolding on_check_credentials account
early_data_asserts_example =
    early_data_asserts platform true fresh_instance accepted_login accepted_login
      (in_state Connection.check_credentials) connecting_now (connects_to 9) read_event login_calls
      blocked_calls refl refl refl

abbrev forwarding : Connection platform
forwarding = record (in_state ready) { incoming = silent }

-- The server sends two bytes, and the client takes both.
abbrev passing_calls : Calls
passing_calls = record {
  write_near = moved_out 0;
  stock = some [];
  read_near = moved_in (1 ∷ 2 ∷ []);
  write_far = moved_out 2;
}

abbrev passed : Connection platform
passed = record forwarding {
  splice_out_in = record { pipe = none; size = 0; received_bytes = 2; sent_bytes = 2 };
}

abbrev passed_instance : Instance platform
passed_instance = record fresh_instance {
  metrics = record fresh_instance.metrics { server_bytes = 2 };
}

abbrev two_passed : List (Effect platform)
two_passed =
    to_server []
    ∷ to_client (1 ∷ 2 ∷ [])
    ∷ give_back (record { action = reuse; leftover = [] } ∷ [])
    ∷ []

abbrev server_calls : ServerCalls
server_calls = record { cmd = []; length_field = []; discarded = []; send_ok = true }

one_forwarded : Forwarding platform forwarding passed
unfolding on_outgoing_ready transfer receive_from send_to
one_forwarded =
    server_ready read_event server_calls passing_calls fresh_instance passed_instance two_passed
      here refl

Forwarding-stalls_example :
    ((forwarding.incoming.read ≡ true) ⊎ (passed.incoming.read ≡ false))
    × ((forwarding.outgoing.read ≡ true) ⊎ (passed.outgoing.read ≡ false))
    × (passed.state ≡ ready)
Forwarding-stalls_example = Forwarding-stalls platform refl one_forwarded
