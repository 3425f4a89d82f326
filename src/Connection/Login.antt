-- ===== src/Connection/Login.antt =====
-- The login phase of src/Connection.cxx: `ReceiveLoginPackets`, `OnCheckCredentials`,
-- `SendServerList` and `ReceivePlayServer`.
use uologin.Prelude.{
  ℕ, ◌+◌, ◌-◌, ◌%◌, take, ◌&&◌, Bool, true, false, not, ◌||◌, Option, none, some, List, [], ◌∷◌,
  ◌++◌, length, map, if◌then◌else◌, ◌==◌, ltb, get_elem?,
}
use uologin.External.{Platform}
use uologin.Accounting.{minute, is_empty}
use uologin.Database.{Database, Files, Check, check_thrown, accepted_now, queued}
use uologin.Database
use uologin.Wire.{
  expected_packets, extract_string, is_valid_username, account_login_reject, server_list_packet,
  slice, byte_at, sizeof_initial_packets, sizeof_play_server,
}
use uologin.Wire.Command
use uologin.Config.{GameServerConfig}
use uologin.Instance.{Instance, inc, charge}
use uologin.Connection.{
  State, initial, check_credentials, server_list, connecting, Connection, to_client,
  shutdown_client, start_job, start_connect, Outcome, alive, emit, check_that, destroy,
}

-- What the system calls answer: the bytes of ReadNoWait (`none` is an error, no bytes the end of the
-- stream), whether Send succeeded, and what a reload of the database meets.
pub record LoginCalls : Type 0 where
  pub received : Option (List ℕ)
  pub send_ok : Bool
  pub files : Files

abbrev pub is_check_credentials : State → Bool
is_check_credentials check_credentials = true
is_check_credentials _ = false

abbrev pub is_initial : State → Bool
is_initial initial = true
is_initial _ = false

abbrev pub is_server_list : State → Bool
is_server_list server_list = true
is_server_list _ = false

-- An answer of ReadNoWait to a request with a buffer for `n` bytes: it is never longer than that.
unfoldable pub read_no_wait : ℕ → Option (List ℕ) → Option (List ℕ)
read_no_wait n none = none
read_no_wait n (some bytes) = some (take n bytes)

module _ {P : Platform} where
  -- `initial_packets_fill == initial_packets.size()`
  abbrev pub is_complete : Connection P → Bool
  is_complete c = c.initial_packets_fill == sizeof_initial_packets

module _ (P : Platform) where
  open P use {schedule_read, cancel_only_read, schedule, cancel, from_be16}

  -- `if (SendAccountLoginReject()) incoming.GetSocket().ShutdownWrite(); Destroy();`
  unfoldable pub reject : Bool → Instance P → Connection P → Outcome P
  reject send_ok i c =
      emit (to_client (account_login_reject P) ∷ (if send_ok then shutdown_client ∷ [] else []))
        (destroy P i c)

  unfoldable pub start_connecting : P.Address → Instance P → Connection P → Outcome P
  start_connecting address i c =
      alive i (record c { outgoing_address = some address; connect_pending = true })
        (start_connect address ∷ [])

  names : List (GameServerConfig P) → List (List ℕ)
  names = map (λ s. s.name)

  unfoldable pub send_server_list : Bool → Instance P → Connection P → Outcome P
  unfolding names
  send_server_list send_ok i c = check_that (is_complete c && not (is_empty i.config.server_list)) (
      emit (to_client (server_list_packet P (names i.config.server_list)) ∷ []) (
        if send_ok
        then alive i
            (record c {
              state = server_list;
              incoming = schedule_read c.incoming;
              timeout = schedule minute c.timeout;
            })
            []
        else destroy P i c))

  unfoldable pub accept_login : Bool → Instance P → Connection P → Outcome P
  unfolding send_server_list start_connecting
  accept_login send_ok i c =
      if is_empty i.config.server_list
      then start_connecting i.config.game_server i
          (record c { state = connecting; incoming = schedule_read c.incoming })
      else send_server_list send_ok i c

  unfoldable pub on_check_credentials : Bool → Bool → Instance P → Connection P → Outcome P
  unfolding reject accept_login
  on_check_credentials result send_ok i c =
      let c' = record c { cancel_ptr = none } in
      check_that (is_check_credentials c.state) (
        if result
        then (let i' = charge 1 c.per_client i in
            accept_login send_ok
              (record i' {
                metrics = record i'.metrics { accepted_logins = inc i'.metrics.accepted_logins };
              })
              c')
        else reject send_ok
            (charge 5 c.per_client (record i {
              metrics = record i.metrics { rejected_logins = inc i.metrics.rejected_logins };
            }))
            c')

  malformed : ℕ → Connection P → Instance P → Instance P
  malformed size c i = charge size c.per_client (record i {
    metrics = record i.metrics { malformed_logins = inc i.metrics.malformed_logins };
  })

  -- The call of `Database::CheckCredentials` in its `try` block.
  unfoldable pub after_check : Bool → Connection P → Instance P → Check → Outcome P
  unfolding on_check_credentials reject
  after_check send_ok c i (check_thrown e) = reject send_ok (charge 2 c.per_client i) c
  after_check send_ok c i accepted_now = on_check_credentials true send_ok i c
  after_check send_ok c i (queued j) = alive i (record c { cancel_ptr = some j }) (start_job j ∷ [])

  -- The two packets are complete.
  unfoldable pub process_login : LoginCalls → Instance P → Connection P → Outcome P
  unfolding malformed after_check reject
  process_login k i c =
      let packets = expected_packets c.initial_packets in
      let username = extract_string packets.login.credentials.username in
      let password = extract_string packets.login.credentials.password in
      if not (packets.seed.cmd == Command.seed) || not (packets.login.cmd == Command.account_login)
      then destroy P (malformed 10 c i) c
      else if is_valid_username P username
      then (let (database, check) =
            Database.check_credentials username password k.files i.database in
          after_check k.send_ok (record c { state = check_credentials })
            (record i { database = database }) check)
      else reject k.send_ok (malformed 8 c i) c

  unfoldable pub append_received : LoginCalls → Instance P → Connection P → List ℕ → Outcome P
  unfolding process_login
  append_received k i c bytes =
      let fill = (c.initial_packets_fill + length bytes) % 256 in
      let c' = record c {
        initial_packets = c.initial_packets ++ bytes;
        initial_packets_fill = fill;
      } in
      if ltb fill sizeof_initial_packets
      then alive i c' []
      else process_login k i
          (record c' { incoming = cancel_only_read c.incoming; timeout = cancel c.timeout })

  unfoldable pub received_login :
      LoginCalls → Instance P → Connection P → Option (List ℕ) → Outcome P
  unfolding append_received
  received_login k i c none = destroy P i c
  received_login k i c (some []) = destroy P i c
  received_login k i c (some (b ∷ bs)) = append_received k i c (b ∷ bs)

  unfoldable pub receive_login_packets : LoginCalls → Instance P → Connection P → Outcome P
  unfolding received_login read_no_wait
  receive_login_packets k i c =
      check_that (is_initial c.state && ltb c.initial_packets_fill sizeof_initial_packets) (
        received_login k i c
          (read_no_wait (sizeof_initial_packets - c.initial_packets_fill) k.received))

  unfoldable pub choose_server : Instance P → Connection P → Option (GameServerConfig P) → Outcome P
  unfolding start_connecting
  choose_server i c none = destroy P i c
  choose_server i c (some server) = start_connecting server.address i (record c {
    incoming = cancel_only_read c.incoming;
    timeout = cancel c.timeout;
    state = connecting;
    play_server_wanted = true;
  })

  -- The index is in range exactly if `server_list` has an element at it.
  unfoldable pub received_play_server : Instance P → Connection P → Option (List ℕ) → Outcome P
  unfolding choose_server
  received_play_server i c none = destroy P i c
  received_play_server i c (some packet) =
      if length packet == sizeof_play_server
      then (if byte_at packet 0 == Command.play_server
          then choose_server i c (get_elem? i.config.server_list (from_be16 (slice 1 2 packet)))
          else destroy P i c)
      else destroy P i c

  unfoldable pub receive_play_server : LoginCalls → Instance P → Connection P → Outcome P
  unfolding received_play_server
  receive_play_server k i c =
      check_that (is_server_list c.state && not (is_empty i.config.server_list) && is_complete c)
        (received_play_server i c k.received)
