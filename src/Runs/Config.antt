-- ===== src/Runs/Config.antt =====
-- A configuration at concrete inputs.
use uologin.Prelude.{ℕ, zero, ◌≡◌, refl, Bool, true, false, Option, none, some, List, [], ◌∷◌}
use uologin.Runs.{platform, TestAddress, unset, v4, v6}
use uologin.Config.{
  Config, GameServerConfig, SocketConfig, Parsing, load_config_file, parse_lines, parse_line,
  finish, default_config,
}
use uologin.Config.Servers.{servers_of, last_address, load_config_file_servers}
use Prim.Native.String.{String}

abbrev pub socket_config : TestAddress → SocketConfig platform
socket_config address = record {
  bind_address = address;
  listen = 16;
  tcp_defer_accept = 10;
  tcp_user_timeout = 0;
  mode = 438;
  tcp_no_delay = true;
}

abbrev pub config_with : TestAddress → List (GameServerConfig platform) → Config platform
config_with game_server server_list = record {
  prometheus_exporter = socket_config unset;
  listener = socket_config (v4 2593);
  knock_listener = socket_config unset;
  knock_nft_set = [];
  user_database = [];
  game_server = game_server;
  server_list = server_list;
  auto_reload_user_database = false;
  send_remote_ip = true;
}

-- A line is a list of words, numbers and values.
pub data Token : Type 0 where
  word : String → Token
  number : ℕ → Token
  value : List ℕ → Token

abbrev take_word : List Token → Option (String × List Token)
take_word (word w ∷ line) = some (w, line)
take_word _ = none

abbrev take_number : List Token → Option (ℕ × List Token)
take_number (number n ∷ line) = some (n, line)
take_number _ = none

abbrev take_bool : List Token → Option (Bool × List Token)
take_bool (number zero ∷ line) = some (false, line)
take_bool (number n ∷ line) = some (true, line)
take_bool _ = none

abbrev take_value : List Token → Option (List ℕ × List Token)
take_value (value v ∷ line) = some (v, line)
take_value _ = none

abbrev last_value : List Token → Option (List ℕ)
last_value (value v ∷ []) = some v
last_value _ = none

abbrev no_token : List Token → Bool
no_token [] = true
no_token _ = false

-- A host is its number.
abbrev pub resolve_test : List ℕ → ℕ → Option TestAddress
resolve_test [] port = none
resolve_test (n ∷ ns) port = some (v4 n)

pub resolve_test-some :
    (v : List ℕ) (port : ℕ) (a : TestAddress)
    → resolve_test v port ≡ some a
    → platform.is_null a ≡ false
resolve_test-some [] port a h = cc
resolve_test-some (n ∷ ns) port unset h = cc
resolve_test-some (n ∷ ns) port (v4 k) h = refl
resolve_test-some (n ∷ ns) port (v6 b) h = refl

abbrev pub parsing : Parsing platform
parsing = record {
  Line = List Token;
  expect_word = take_word;
  next_positive_integer = take_number;
  next_bool = take_bool;
  expect_value = take_value;
  expect_value_and_end = last_value;
  is_end = no_token;
  no_address = unset;
  default_socket = record (socket_config unset) { listen = 0; tcp_no_delay = false };
  local_address = λ path. v4 1;
  ipv4 = v4;
  resolve = resolve_test;
  parse_socket_address = resolve_test;
  fixup = λ s. s;
  no_address_lem = refl;
  default_socket_lem = refl;
  resolve_some = resolve_test-some;
}

-- A server without a name after one with a name.
abbrev two_lines : List (List Token)
two_lines =
    (word "game_server" ∷ value (7 ∷ []) ∷ value (97 ∷ []) ∷ [])
    ∷ (word "game_server" ∷ value (9 ∷ []) ∷ [])
    ∷ []

abbrev loaded_config : Config platform
loaded_config = record {
  prometheus_exporter = socket_config unset;
  listener = record (socket_config (v4 2593)) { listen = 1024; tcp_user_timeout = 20000 };
  knock_listener = record (socket_config unset) { listen = 0; tcp_no_delay = false };
  knock_nft_set = [];
  user_database = [];
  game_server = v4 9;
  server_list = record { name = 97 ∷ []; address = v4 7 } ∷ [];
  auto_reload_user_database = false;
  send_remote_ip = false;
}

load_config_file_servers_example :
    (loaded_config.server_list ≡ servers_of platform parsing two_lines)
    × (loaded_config.game_server ≡ last_address platform parsing unset two_lines)
    × (platform.is_null loaded_config.game_server ≡ false)
unfolding load_config_file parse_lines parse_line finish default_config
load_config_file_servers_example =
    load_config_file_servers platform parsing none two_lines loaded_config refl
