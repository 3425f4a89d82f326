-- ===== src/Runs/Life.antt =====
-- One connection from its construction on, at concrete inputs.
use uologin.Prelude.{
  ℕ, ◌≡◌, refl, inl, inr, true, false, none, some, List, [], ◌∷◌, ◌++◌, replicate,
}
use uologin.Runs.{platform, v4}
use uologin.Runs.Admission.{fresh_instance}
use uologin.Runs.Database.{good_file}
use uologin.Instance.{Instance}
use uologin.Database.{check_credentials}
use uologin.Accounting.{account}
use uologin.Wire.{expected_packets, extract_string, is_valid_username}
use uologin.Splice.{moved_in, moved_out, empty}
use uologin.Connection.{Connection, Effect, destroyed, initial, connecting, start_connect, new}
use uologin.Connection.Login.{LoginCalls, process_login, receive_login_packets}
use uologin.Connection.Transfer.{Ready, Calls}
use uologin.Connection.Ready.{on_incoming_ready}
use uologin.Connection.Protocol.{Trace}
use uologin.Connection.Gate.{Gated}
use uologin.Connection.Ready.{on_timeout}
use uologin.Server.{incoming_ready}
use uologin.Server.Life.{Life, born, goes_on, Life-Trace, Life-Gated}
use uologin.Server.Served.{Served, created, serves, is_waiting, Served-timeout}

abbrev pub login_packets : List ℕ
login_packets = 0xef ∷ replicate 20 7 ++ 0x80 ∷ 97 ∷ replicate 29 0 ++ 97 ∷ replicate 29 0 ++ 0 ∷ []

-- There is no user database.
abbrev open_house : Instance platform
open_house = record fresh_instance {
  database = record fresh_instance.database { auto_reload = false };
}

abbrev pub read_event : Ready
read_event = record { dead = false; read = true; write = false }

abbrev pub login_calls : LoginCalls
login_calls = record { received = some login_packets; send_ok = true; files = good_file 4 }

abbrev pub no_calls : Calls
no_calls = record {
  write_near = moved_out 0;
  stock = none;
  read_near = moved_in [];
  write_far = moved_out 0;
}

abbrev pub let_in : Instance platform
let_in = record open_house { metrics = record open_house.metrics { accepted_logins = 1 } }

abbrev pub dialling : Connection platform
dialling = record {
  id = 1;
  remote_address = v4 3;
  per_client = none;
  incoming = record { defined = true; read = true; write = false };
  outgoing = record { defined = false; read = false; write = false };
  splice_in_out = empty;
  splice_out_in = empty;
  outgoing_address = some (v4 9);
  connect_pending = true;
  timeout = false;
  cancel_ptr = none;
  initial_packets = login_packets;
  initial_packets_fill = 83;
  state = connecting;
  play_server_wanted = false;
}

logged_in : Life platform (start_connect (v4 9) ∷ []) (some dialling)
unfolding on_incoming_ready new process_login check_credentials expected_packets extract_string
    is_valid_username account receive_login_packets
logged_in =
    goes_on {i = open_house} (born 1 (v4 3) none fresh_instance)
      (incoming_ready read_event login_calls no_calls) ((λ h. refl), λ h. cc)

Life-Trace_example : Trace platform initial (start_connect (v4 9) ∷ []) (some connecting)
Life-Trace_example = Life-Trace platform logged_in

Life-Gated_example : Gated platform connecting (start_connect (v4 9) ∷ [])
Life-Gated_example = Life-Gated platform logged_in

pub served : Served platform false (start_connect (v4 9) ∷ []) dialling
unfolding on_incoming_ready new process_login check_credentials expected_packets extract_string
    is_valid_username account receive_login_packets
served =
    serves {i = open_house} (created 1 (v4 3) none fresh_instance)
      (incoming_ready read_event login_calls no_calls)
      (((λ h. refl), λ h. cc), inr (inl refl), λ h. cc) refl

Served-timeout_example :
    (platform.is_pending dialling.timeout ≡ is_waiting platform dialling.state)
    × (j : Instance platform) × (fs : List (Effect platform)) × (on_timeout platform let_in dialling
        ≡ destroyed j fs)
Served-timeout_example = Served-timeout platform dialling let_in served
