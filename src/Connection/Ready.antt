-- ===== src/Connection/Ready.antt =====
-- The event handlers of src/Connection.cxx: `OnIncomingReady`, `OnOutgoingReady` and `OnTimeout`.
use uologin.Prelude.{ℕ, ◌+◌, not, ◌&&◌, [], ◌∷◌, if◌then◌else◌, u64}
use uologin.External.{Platform}
use uologin.Instance.{Instance, charge}
use uologin.Connection.Transfer.{Pair, Ready, Calls, Transfer, going, closing, fault, transfer}
use uologin.Connection.Login.{LoginCalls, is_initial, receive_login_packets, receive_play_server}
use uologin.Connection.Server.{ServerCalls, receive_server_list}
use uologin.Connection.{
  State, initial, server_list, send_play_server, ready, Connection, to_client, to_server,
  shutdown_client, shutdown_server, give_back, Outcome, alive, crashed, emit, check_that, destroy,
  assertion,
}

module _ (P : Platform) where
  abbrev pub client_side : Connection P → Pair P
  client_side c = record {
    near = c.incoming;
    far = c.outgoing;
    near_far = c.splice_in_out;
    far_near = c.splice_out_in;
  }

  abbrev pub with_client_side : Connection P → Pair P → Connection P
  with_client_side c p = record c {
    incoming = p.near;
    outgoing = p.far;
    splice_in_out = p.near_far;
    splice_out_in = p.far_near;
  }

  abbrev pub server_side : Connection P → Pair P
  server_side c = record {
    near = c.outgoing;
    far = c.incoming;
    near_far = c.splice_out_in;
    far_near = c.splice_in_out;
  }

  abbrev pub with_server_side : Connection P → Pair P → Connection P
  with_server_side c p = record c {
    incoming = p.far;
    outgoing = p.near;
    splice_in_out = p.far_near;
    splice_out_in = p.near_far;
  }

  -- `instance.metrics.client_bytes += …` and `instance.metrics.server_bytes += …`
  abbrev count_client : ℕ → Instance P → Instance P
  count_client n i = record i {
    metrics = record i.metrics { client_bytes = u64 (i.metrics.client_bytes + n) };
  }

  abbrev count_server : ℕ → Instance P → Instance P
  count_server n i = record i {
    metrics = record i.metrics { server_bytes = u64 (i.metrics.server_bytes + n) };
  }

  unfoldable pub finish_incoming : Instance P → Connection P → Transfer P → Outcome P
  finish_incoming i c (going p t) =
      alive (count_client t.counted i) (with_client_side c p)
        (to_client t.to_near ∷ to_server t.to_far ∷ give_back t.puts ∷ [])
  finish_incoming i c (closing p t) =
      emit
        (to_client t.to_near
          ∷ to_server t.to_far
          ∷ give_back t.puts
          ∷ (if t.shut_far then shutdown_server ∷ [] else []))
        (destroy P (count_client t.counted i) (with_client_side c p))
  finish_incoming i c (fault f) = crashed f

  unfoldable pub finish_outgoing : Instance P → Connection P → Transfer P → Outcome P
  finish_outgoing i c (going p t) =
      alive (count_server t.counted i) (with_server_side c p)
        (to_server t.to_near ∷ to_client t.to_far ∷ give_back t.puts ∷ [])
  finish_outgoing i c (closing p t) =
      emit
        (to_server t.to_near
          ∷ to_client t.to_far
          ∷ give_back t.puts
          ∷ (if t.shut_far then shutdown_client ∷ [] else []))
        (destroy P (count_server t.counted i) (with_server_side c p))
  finish_outgoing i c (fault f) = crashed f

  unfoldable pub incoming_by_state :
      Ready → LoginCalls → Calls → Instance P → Connection P → State → Outcome P
  unfolding finish_incoming
  incoming_by_state ev l k i c initial = check_that ev.read (receive_login_packets P l i c)
  incoming_by_state ev l k i c server_list = check_that ev.read (receive_play_server P l i c)
  incoming_by_state ev l k i c _ = finish_incoming i c (transfer P ev k (client_side c))

  unfoldable pub on_incoming_ready :
      Ready → LoginCalls → Calls → Instance P → Connection P → Outcome P
  unfolding incoming_by_state
  on_incoming_ready ev l k i c =
      if ev.dead
      then destroy P (if is_initial c.state then charge 4 c.per_client i else i) c
      else check_that (not c.connect_pending) (incoming_by_state ev l k i c c.state)

  unfoldable pub outgoing_by_state :
      Ready → ServerCalls → Calls → Instance P → Connection P → State → Outcome P
  unfolding finish_outgoing
  outgoing_by_state ev s k i c send_play_server = receive_server_list P s i c
  outgoing_by_state ev s k i c ready = finish_outgoing i c (transfer P ev k (server_side c))
  outgoing_by_state ev s k i c _ = crashed assertion

  unfoldable pub on_outgoing_ready :
      Ready → ServerCalls → Calls → Instance P → Connection P → Outcome P
  unfolding outgoing_by_state
  on_outgoing_ready ev s k i c = check_that (P.is_defined c.incoming && not c.connect_pending) (
      if ev.dead
      then destroy P (charge 5 c.per_client i) c
      else outgoing_by_state ev s k i c c.state)

  unfoldable pub on_timeout : Instance P → Connection P → Outcome P
  on_timeout i c = destroy P (charge 7 c.per_client i) c
