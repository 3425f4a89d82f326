-- ===== src/Config.antt =====
-- The configuration: src/Config.hxx and src/Config.cxx. The parser of the words of a line and the
-- resolver are libcommon's, and arguments here.
pub mod Servers
use uologin.Prelude.{
  ℕ, ◌%◌, ◌^◌, ◌≡◌, Bool, true, false, Option, none, some, List, [], ◌∷◌, ◌++◌, if◌then◌else◌,
}
use uologin.External.{Platform}
use Prim.Native.String.{String}
use text.Mathlib.Text.{◌==◌}

pub record GameServerConfig (P : Platform) : Type 0 where
  pub name : List ℕ
  pub address : P.Address

-- The settings of net/SocketConfig.hxx that the program makes.
pub record SocketConfig (P : Platform) : Type 0 where
  pub bind_address : P.Address
  pub listen : ℕ
  pub tcp_defer_accept : ℕ
  pub tcp_user_timeout : ℕ
  pub mode : ℕ
  pub tcp_no_delay : Bool

pub record Config (P : Platform) : Type 0 where
  pub prometheus_exporter : SocketConfig P
  pub listener : SocketConfig P
  pub knock_listener : SocketConfig P
  pub knock_nft_set : List ℕ
  pub user_database : List ℕ
  pub game_server : P.Address
  pub server_list : List (GameServerConfig P)
  pub auto_reload_user_database : Bool
  pub send_remote_ip : Bool

-- io/config/FileLineParser.hxx (`none` is LineParser::Error), net/IPv4Address.hxx, net/Resolver.hxx,
-- net/Parser.hxx, net/SocketConfig.hxx. What Resolve() gives is an address.
pub record Parsing (P : Platform) : Type 1 where
  pub Line : Type 0
  pub expect_word : Line → Option (String × Line)
  pub next_positive_integer : Line → Option (ℕ × Line)
  pub next_bool : Line → Option (Bool × Line)
  pub expect_value : Line → Option (List ℕ × Line)
  pub expect_value_and_end : Line → Option (List ℕ)
  pub is_end : Line → Bool
  pub no_address : P.Address
  pub default_socket : SocketConfig P
  pub local_address : List ℕ → P.Address
  pub ipv4 : ℕ → P.Address
  pub resolve : List ℕ → ℕ → Option P.Address
  pub parse_socket_address : List ℕ → ℕ → Option P.Address
  pub fixup : SocketConfig P → SocketConfig P
  pub no_address_lem : P.is_null no_address ≡ true
  pub default_socket_lem : P.is_null default_socket.bind_address ≡ true
  pub resolve_some :
      (v : List ℕ) (port : ℕ) (a : P.Address) → resolve v port ≡ some a → P.is_null a ≡ false

pub data Error : Type 0 where
  bad_line unknown_option unresolved no_game_server : Error

pub data Result (A : Type 0) : Type 0 where
  ok : A → Result A
  err : Error → Result A

infixl 5 ◌>>=◌
abbrev pub ◌>>=◌ : {A B : Type 0} → Result A → (A → Result B) → Result B
ok a >>= f = f a
err e >>= f = err e

abbrev pub or_throw : {A : Type 0} → Error → Option A → Result A
or_throw e none = err e
or_throw e (some a) = ok a

-- The conversion of a number to `uint16_t`.
abbrev pub u16 : ℕ → ℕ
u16 n = n % 2 ^ 16

-- "/prometheus-exporter.socket"
abbrev exporter_socket : List ℕ
exporter_socket =
    b'/' ∷ b'p' ∷ b'r' ∷ b'o' ∷ b'm' ∷ b'e' ∷ b't' ∷ b'h' ∷ b'e' ∷ b'u' ∷ b's' ∷ b'-' ∷ b'e' ∷ b'x'
    ∷ b'p' ∷ b'o' ∷ b'r' ∷ b't' ∷ b'e' ∷ b'r' ∷ b'.' ∷ b's' ∷ b'o' ∷ b'c' ∷ b'k' ∷ b'e' ∷ b't' ∷ []

module _ (P : Platform) (L : Parsing P) where
  open L use {
    Line, expect_word, next_positive_integer, next_bool, expect_value, expect_value_and_end, is_end,
    no_address, default_socket, local_address, ipv4, resolve, parse_socket_address, fixup,
  }

  -- The default values, with getenv("RUNTIME_DIRECTORY").
  unfoldable pub default_config : Option (List ℕ) → Config P
  default_config runtime_directory = record {
    prometheus_exporter = record default_socket {
      bind_address = elim runtime_directory [
        | none ↦ default_socket.bind_address
        | some path ↦ local_address (path ++ exporter_socket)
      ];
      listen = 16;
      tcp_defer_accept = 10;
      mode = 438;
      tcp_no_delay = true;
    };
    listener = record default_socket {
      listen = 1024;
      tcp_defer_accept = 10;
      tcp_user_timeout = 20000;
      tcp_no_delay = true;
    };
    knock_listener = default_socket;
    knock_nft_set = [];
    user_database = [];
    game_server = no_address;
    server_list = [];
    auto_reload_user_database = false;
    send_remote_ip = false;
  }

  expect_end : Line → Result (Unit {0})
  expect_end line = if is_end line then ok tt else err bad_line

  next_port : Line → Result ℕ
  unfolding expect_end
  next_port line = do
    (n, rest) ← or_throw bad_line (next_positive_integer line)
    _ ← expect_end rest
    ok (u16 n)

  flag : Line → Result Bool
  unfolding expect_end
  flag line = do (b, rest) ← or_throw bad_line (next_bool line); _ ← expect_end rest; ok b

  value_and_end : Line → Result (List ℕ)
  value_and_end line = or_throw bad_line (expect_value_and_end line)

  -- The constructor of `GameServerConfig` takes a view of the address, so `game_server` keeps it.
  add_server : Config P → Line → Result (Config P)
  unfolding value_and_end
  add_server c line = if is_end line then ok c else do
    name ← value_and_end line
    ok (record c {
      server_list = c.server_list ++ record { name = name; address = c.game_server } ∷ [];
    })

  unfoldable pub game_server : Config P → Line → Result (Config P)
  unfolding add_server
  game_server c line = do
    (value, rest) ← or_throw bad_line (expect_value line)
    address ← or_throw unresolved (resolve value 2593)
    add_server (record c { game_server = address }) rest

  exporter : Config P → Line → Result (Config P)
  unfolding value_and_end
  exporter c line = do
    value ← value_and_end line
    address ← or_throw unresolved (parse_socket_address value 5476)
    ok (record c { prometheus_exporter = record c.prometheus_exporter { bind_address = address } })

  port : Config P → Line → Result (Config P)
  unfolding next_port
  port c line = do
    n ← next_port line
    ok (record c { listener = record c.listener { bind_address = ipv4 n } })

  knock_port : Config P → Line → Result (Config P)
  unfolding next_port
  knock_port c line = do
    n ← next_port line
    ok (record c { knock_listener = record c.knock_listener { bind_address = ipv4 n } })

  nft_set : Config P → Line → Result (Config P)
  unfolding value_and_end
  nft_set c line = do value ← value_and_end line; ok (record c { knock_nft_set = value })

  database : Config P → Line → Result (Config P)
  unfolding value_and_end
  database c line = do value ← value_and_end line; ok (record c { user_database = value })

  auto_reload : Config P → Line → Result (Config P)
  unfolding flag
  auto_reload c line = do b ← flag line; ok (record c { auto_reload_user_database = b })

  remote_ip : Config P → Line → Result (Config P)
  unfolding flag
  remote_ip c line = do b ← flag line; ok (record c { send_remote_ip = b })

  unfoldable pub option : Config P → String → Line → Result (Config P)
  unfolding port knock_port nft_set database auto_reload remote_ip game_server exporter
  option c word line =
      if word == "port"
      then port c line
      else if word == "knock_port"
      then knock_port c line
      else if word == "knock_nft_set"
      then nft_set c line
      else if word == "user_database"
      then database c line
      else if word == "auto_reload_user_database"
      then auto_reload c line
      else if word == "game_server"
      then game_server c line
      else if word == "send_remote_ip"
      then remote_ip c line
      else if word == "prometheus_exporter"
      then exporter c line
      else err unknown_option

  unfoldable pub parse_line : Config P → Line → Result (Config P)
  unfolding option
  parse_line c line = do (word, rest) ← or_throw bad_line (expect_word line); option c word rest

  unfoldable pub finish : Config P → Result (Config P)
  finish c =
      let listener =
        if P.is_null c.listener.bind_address
        then record c.listener { bind_address = ipv4 2593 }
        else c.listener in
      if P.is_null c.game_server
      then err no_game_server
      else ok (record c { listener = fixup listener; knock_listener = fixup c.knock_listener })

  unfoldable pub parse_lines : Config P → List Line → Result (Config P)
  parse_lines c [] = finish c
  parse_lines c (l ∷ ls) = do c' ← parse_line c l; parse_lines c' ls

  -- `LoadConfigFile`: the lines of the file that are no comments.
  unfoldable pub load_config_file : Option (List ℕ) → List Line → Result (Config P)
  load_config_file runtime_directory lines = parse_lines (default_config runtime_directory) lines
