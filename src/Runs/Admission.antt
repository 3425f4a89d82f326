-- ===== src/Runs/Admission.antt =====
-- Clients that connect or knock, at concrete inputs.
use uologin.Prelude.{
  ℕ, ◌≡◌, ◌≢◌, refl, true, false, none, some, List, [], ◌∷◌, ◌++◌, arith, replicate, take, inl,
}
use uologin.Runs.{platform, v4, v6}
use uologin.Runs.Config.{config_with}
use uologin.Instance.{Instance}
use uologin.Database.{Files, stat_failed, maybe_auto_reload}
use uologin.Accounting.{to_integer}
use uologin.Connection.{new}
use uologin.Listener.{connected, on_accept}
use uologin.Listener.Admission.{Admitted, charged, on_accept-Admitted, equal_halves_admitted}
use uologin.Knock.{Request, terminated, on_check_credentials, on_udp_datagram}
use uologin.Wire.{parse_login, extract_string, is_valid_username}
use uologin.Knock.Requests.{
  Answers, on_check_credentials_lem, failed_reload_terminates, Ignores, on_udp_datagram-Ignores,
}

abbrev pub fresh_instance : Instance platform
fresh_instance = record {
  config = config_with (v4 9) [];
  database = record { db = none; last_mtime = 0; last_reload_error = none; auto_reload = true };
  client_accounting = record {
    max_connections = 2;
    tarpit = true;
    clients = [];
    cleanup_timer = false;
  };
  require_knock = true;
  metrics = record {
    client_connections = 0;
    server_connections = 0;
    client_connections_accepted = 0;
    server_connections_established = 0;
    server_connections_failed = 0;
    accepted_knocks = 0;
    rejected_knocks = 0;
    malformed_knocks = 0;
    missing_knocks = 0;
    accepted_logins = 0;
    rejected_logins = 0;
    malformed_logins = 0;
    delayed_connections = 0;
    client_bytes = 0;
    server_bytes = 0;
  };
  now = 1000;
}

abbrev peer_three : Request platform
peer_three = record { nft_set = some (115 ∷ []); address = v4 3 }

three_some : to_integer platform (v4 3) ≢ 0
unfolding to_integer
three_some h = omega arith

four_other : 4 ≢ to_integer platform (v4 3)
unfolding to_integer
four_other h = omega arith

on_accept-Admitted_example :
    Admitted platform 2
      (charged platform (v4 3) fresh_instance)
      (to_integer platform (v4 3))
      4
      fresh_instance
      (on_accept platform 1 (v4 3) fresh_instance)
on_accept-Admitted_example =
    on_accept-Admitted platform 1 (v4 3) 4 fresh_instance three_some four_other

equal_halves_admitted_example :
    let (j, c) = new platform 1 (v6 (replicate 8 32 ++ replicate 8 32)) none fresh_instance in
    (on_accept platform 1 (v6 (replicate 8 32 ++ replicate 8 32)) fresh_instance ≡ connected j c)
    × (c.per_client ≡ none)
equal_halves_admitted_example =
    equal_halves_admitted platform 1 (v6 (replicate 8 32 ++ replicate 8 32)) fresh_instance
      (replicate 8 32) refl refl refl refl refl

on_check_credentials_lem_example :
    Answers platform
      (to_integer platform (v4 3))
      4
      fresh_instance
      true
      (on_check_credentials platform peer_three true fresh_instance)
on_check_credentials_lem_example =
    on_check_credentials_lem platform peer_three true fresh_instance 4 three_some four_other

-- The instance after the knock.
abbrev knocked_instance : Instance platform
knocked_instance = record fresh_instance {
  metrics = record fresh_instance.metrics { accepted_knocks = 1 };
  client_accounting = record fresh_instance.client_accounting {
    clients =
        record {
          address = 3;
          connections = [];
          expires = 0;
          tarpit_until = 0;
          delay = 0;
          token_bucket = 10;
          knocked = true;
        }
        ∷ [];
  };
}

-- The user "a" with the password "b".
abbrev knock : List ℕ
knock = 0x80 ∷ 97 ∷ replicate 29 0 ++ 98 ∷ replicate 30 0

-- There is no file.
abbrev no_file : Files
no_file = record { stat = none; runtime_directory = true; copied = true; opened = none }

failed_reload_terminates_example :
    on_udp_datagram platform no_file none knock (v4 3) fresh_instance ≡ terminated
unfolding parse_login extract_string is_valid_username maybe_auto_reload
failed_reload_terminates_example =
    failed_reload_terminates platform no_file none knock (v4 3) fresh_instance stat_failed
      three_some refl refl refl refl refl

-- A knock without its last byte.
on_udp_datagram-Ignores_example :
    Ignores platform
      (to_integer platform (v4 3))
      4
      fresh_instance
      (on_udp_datagram platform no_file none (take 61 knock) (v4 3) fresh_instance)
on_udp_datagram-Ignores_example =
    on_udp_datagram-Ignores platform no_file none (take 61 knock) (v4 3) fresh_instance 4 three_some
      four_other (inl (λ h. omega arith))
