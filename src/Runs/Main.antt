-- ===== src/Runs/Main.antt =====
-- A process from its start on, at concrete inputs.
use uologin.Prelude.{◌≡◌, refl, inl, inr, true, false, not, none, some, List, [], ◌∷◌, All}
use uologin.Runs.{platform, v4, unset}
use uologin.Runs.Config.{Token, word, value, parsing, socket_config}
use uologin.Runs.Boot.{calls, instance_of, connections_after}
use uologin.Runs.Life.{login_packets, read_event, login_calls, no_calls}
use uologin.Database
use uologin.Database.{check_credentials}
use uologin.Accounting.{to_integer, update_token_bucket, get, find, account, check, is_empty}
use uologin.Wire.{expected_packets, extract_string, is_valid_username}
use uologin.Config.{load_config_file, parse_lines, parse_line, finish, default_config}
use uologin.Config.Servers.{servers_of, last_address}
use uologin.Instance.{Instance}
use uologin.Connection.{
  Connection, Outcome, alive, destroyed, crashed, assertion, new, start_connect, connecting,
}
use uologin.Connection.Gate.{dialled}
use uologin.Connection.Login.{process_login, receive_login_packets}
use uologin.Connection.Ready.{on_incoming_ready}
use uologin.Connection.Targets.{IsTarget, effects_of}
use uologin.Listener.{on_accept}
use uologin.Splice.{empty}
use uologin.Server.{Server, Handles, Step, Run, here, next, accepted, kept, incoming_ready}
use uologin.Server.Served.{IsAllowed, IsDue}
use uologin.Server.Safe.{IsCalm}
use uologin.Boot.{Started, parse_command_line, run, no_metrics}
use uologin.Boot.Main.{MainCalls, main, main-targets, main-crashes}
use Prim.Native.String.{String}

-- One server without a name.
abbrev one_line : List (List Token)
one_line = (word "game_server" ∷ value (9 ∷ []) ∷ []) ∷ []

abbrev main_calls : MainCalls platform parsing
main_calls = record { read_file = λ path. some one_line; runtime_directory = none; boot = calls }

abbrev command_line : List String
command_line = "uologin" ∷ []

abbrev outcome_instance : Outcome platform → Instance platform → Instance platform
outcome_instance (alive j d es) i = j
outcome_instance (destroyed j es) i = j
outcome_instance (crashed f) i = i

abbrev outcome_connections : Outcome platform → List (Connection platform)
outcome_connections (alive j d es) = d ∷ []
outcome_connections _ = []

abbrev begun : Instance platform
begun = record {
  config = record {
    prometheus_exporter = socket_config unset;
    listener = record (socket_config (v4 2593)) { listen = 1024; tcp_user_timeout = 20000 };
    knock_listener = record (socket_config unset) { listen = 0; tcp_no_delay = false };
    knock_nft_set = [];
    user_database = [];
    game_server = v4 9;
    server_list = [];
    auto_reload_user_database = false;
    send_remote_ip = false;
  };
  database = record { db = none; last_mtime = 0; last_reload_error = none; auto_reload = false };
  client_accounting = record {
    max_connections = 16;
    tarpit = true;
    clients = [];
    cleanup_timer = false;
  };
  require_knock = false;
  metrics = no_metrics;
  now = 1000;
}

abbrev started : Started platform
started = record {
  server = record { instance_ = begun; connections = []; delayed_connections = [] };
  has_exporter = false;
  knock_set = none;
}

started_so : main platform parsing command_line main_calls ≡ some started
unfolding main load_config_file parse_lines parse_line finish default_config parse_command_line run
    Database.new
started_so = refl

abbrev one_client : Server platform
one_client = record {
  instance_ = instance_of (on_accept platform 1 (v4 3) begun);
  connections = connections_after (on_accept platform 1 (v4 3) begun);
  delayed_connections = [];
}

one_accepted : Run platform started.server one_client
unfolding on_accept to_integer get find account update_token_bucket new check
one_accepted = next here (accepted 1 (v4 3) _ _ refl)

-- The connection after the login packets.
abbrev after_login : Outcome platform
after_login =
    on_incoming_ready platform read_event login_calls no_calls one_client.instance_
      (new platform 1 (v4 3) (some 3) begun).1

abbrev one_dialling : Server platform
one_dialling = record {
  instance_ = outcome_instance after_login begun;
  connections = outcome_connections after_login;
  delayed_connections = [];
}

main-targets_example :
    (path : String) × (lines : List (List Token)) × (parse_command_line command_line ≡ some path)
    × (some one_line ≡ some lines)
    × All
        (IsTarget platform
          (last_address platform parsing unset lines)
          (servers_of platform parsing lines))
        (dialled platform (effects_of after_login))
unfolding on_accept to_integer get find account update_token_bucket new check
main-targets_example =
    main-targets platform parsing command_line main_calls
      {c = (new platform 1 (v4 3) (some 3) begun).1} started_so one_accepted
      (incoming_ready read_event login_calls no_calls)

abbrev dialling : Connection platform
dialling = record {
  id = 1;
  remote_address = v4 3;
  per_client = some 3;
  incoming = record { defined = true; read = true; write = false };
  outgoing = record { defined = false; read = false; write = false };
  splice_in_out = empty;
  splice_out_in = empty;
  outgoing_address = some (v4 9);
  connect_pending = true;
  timeout = false;
  cancel_ptr = none;
  initial_packets = login_packets;
  initial_packets_fill = 83;
  state = connecting;
  play_server_wanted = false;
}

-- The login of the one client.
logged_in : Step platform one_client one_dialling
unfolding on_accept to_integer get find account update_token_bucket new check on_incoming_ready
    process_login check_credentials expected_packets extract_string is_valid_username
    receive_login_packets
logged_in =
    kept [] [] (new platform 1 (v4 3) (some 3) begun).1 dialling _ (start_connect (v4 9) ∷ [])
      (incoming_ready read_event login_calls no_calls)

calm : IsCalm platform (next one_accepted logged_in)
unfolding one_accepted logged_in new
calm = ((tt, tt), (((λ h. refl), λ h. cc), inr (inl refl), λ h. cc))

-- The client sends more while its server is dialled.
sent_early : Handles platform one_dialling.instance_ dialling (crashed assertion)
unfolding on_accept to_integer get find account update_token_bucket new check on_incoming_ready
    process_login check_credentials expected_packets extract_string is_valid_username
    receive_login_packets
sent_early = incoming_ready read_event login_calls no_calls

sent_early-IsDue : IsDue platform dialling sent_early
unfolding sent_early
sent_early-IsDue = (((λ h. refl), λ h. cc), inr (inl refl), λ h. cc)

main-crashes_example :
    (path : String) × (lines : List (List Token)) × (parse_command_line command_line ≡ some path)
    × (some one_line ≡ some lines)
    × IsAllowed platform
        (not (is_empty (servers_of platform parsing lines)))
        dialling
        sent_early
        assertion
unfolding on_accept to_integer get find account update_token_bucket new check on_incoming_ready
    process_login check_credentials expected_packets extract_string is_valid_username
    receive_login_packets
main-crashes_example =
    main-crashes platform parsing command_line main_calls [] [] dialling started_so
      (next one_accepted logged_in) calm refl sent_early sent_early-IsDue
