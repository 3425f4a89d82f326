-- ===== src/Connection/Server.antt =====
-- The game server's side of src/Connection.cxx: `ReceiveServerList` with `Discard`,
-- `SendInitialPackets`, `OnSocketConnectSuccess` and `OnSocketConnectError`.
use uologin.Prelude.{
  ℕ, zero, suc, ◌-◌, Bool, true, false, Option, none, some, List, [], ◌∷◌, length, if◌then◌else◌,
  ◌==◌, ltb, ◌||◌, ◌&&◌, not,
}
use uologin.External.{Platform}
use uologin.Wire.{initial_vectors, concat, play_server_zero, byte_at, sizeof_server_list}
use uologin.Wire.Command
use uologin.Connection.Login.{is_complete}
use uologin.Instance.{Instance, inc}
use uologin.Connection.{
  State, connecting, send_play_server, ready, Connection, to_server, Outcome, alive, emit,
  check_that, destroy,
}

abbrev pub is_connecting : State → Bool
is_connecting connecting = true
is_connecting _ = false

-- The loop of `Discard`: the answers of ReadNoWait to requests of at most 1024 bytes, until `n` bytes
-- are gone. `none`, or no bytes, ends it with `false`, and so does a list of answers that is at its
-- end: the next answer is an error.
pub discard : List (Option ℕ) → ℕ → Bool
discard answers zero = true
discard [] (suc n) = false
discard (none ∷ answers) (suc n) = false
discard (some zero ∷ answers) (suc n) = false
discard (some (suc k) ∷ answers) (suc n) = discard answers (suc n - suc k)

-- What the system calls answer: the command byte, the length field, the reads of `Discard`, and
-- whether Send succeeded.
pub record ServerCalls : Type 0 where
  pub cmd : List ℕ
  pub length_field : List ℕ
  pub discarded : List (Option ℕ)
  pub send_ok : Bool

module _ (P : Platform) where
  open P use {schedule_read, open_socket, host_to_string, from_be16}

  unfoldable pub receive_server_list : ServerCalls → Instance P → Connection P → Outcome P
  unfolding discard
  receive_server_list k i c =
      let size = from_be16 k.length_field in
      if not (length k.cmd == 1) || not (byte_at k.cmd 0 == Command.server_list)
      then destroy P i c
      else if not (length k.length_field == 2) || ltb size sizeof_server_list
      then destroy P i c
      else if not (discard k.discarded (size - 3))
      then destroy P i c
      else if k.send_ok
      then alive i (record c { incoming = schedule_read c.incoming; state = ready })
          (to_server (play_server_zero P) ∷ [])
      else emit (to_server (play_server_zero P) ∷ []) (destroy P i c)

  -- The bytes that `SendInitialPackets` writes to the socket.
  unfoldable pub initial_bytes : Instance P → Connection P → List ℕ
  initial_bytes i c = concat (
      initial_vectors P i.config.send_remote_ip (host_to_string c.remote_address) c.initial_packets)

  -- `sent` is whether Send returned more than 0.
  unfoldable pub on_socket_connect_success : Bool → Instance P → Connection P → Outcome P
  unfolding initial_bytes
  on_socket_connect_success sent i c =
      let c' = record c { connect_pending = false } in
      let metrics = record i.metrics {
        server_connections = inc i.metrics.server_connections;
        server_connections_established = inc i.metrics.server_connections_established;
      } in
      let c'' = record c' { outgoing = schedule_read (open_socket c.outgoing) } in
      check_that (is_connecting c.state && is_complete c) (
        emit (to_server (initial_bytes i c) ∷ []) (
          if sent
          then alive (record i { metrics = metrics })
              (if c.play_server_wanted
                then record c'' { state = send_play_server }
                else record c'' { incoming = schedule_read c.incoming; state = ready })
              []
          else destroy P i c'))

  unfoldable pub on_socket_connect_error : Instance P → Connection P → Outcome P
  on_socket_connect_error i c =
      let metrics = record i.metrics {
        server_connections_failed = inc i.metrics.server_connections_failed;
      } in
      check_that (is_connecting c.state)
        (destroy P (record i { metrics = metrics }) (record c { connect_pending = false }))
