-- ===== src/Connection/Gauges.antt =====
-- The gauges `client_connections` and `server_connections` under each handler.
use uologin.Prelude.{
  ℕ, ◌+◌, ◌-◌, ◌%◌, ◌≡◌, ◌∙◌, sym, Option, none, some, [], ◌∷◌, ◌++◌, length, ltb, Bool-cases, inl,
  inr, Bool, true, false, List, arith, refl, if◌then◌else◌,
}
use uologin.External.{Platform}
use uologin.Wire.{sizeof_initial_packets}
use uologin.Instance.{Instance, charge}
use uologin.Connection.{State, initial, server_list, send_play_server, ready, Connection, destroy}
use uologin.Connection.Transfer.{Transfer, going, closing, fault, Ready, Calls}
use uologin.Connection.Sockets.{Keeps, SameDefined, transfer-SameDefined}
use uologin.Connection.Ready.{
  client_side, server_side, finish_incoming, finish_outgoing, on_incoming_ready, on_outgoing_ready,
  on_timeout, incoming_by_state, outgoing_by_state,
}
use uologin.Connection.Login.{
  is_initial, read_no_wait, LoginCalls, receive_play_server, process_login, receive_login_packets,
  received_login, append_received, on_check_credentials,
}
use uologin.Connection.Server.{
  ServerCalls, receive_server_list, on_socket_connect_success, on_socket_connect_error,
}
use uologin.Connection.Counts.{
  Counts, IsUnopened, destroy-Counts, moved-same, Counts-Alike, check_that-Counts, charge-Counts,
  branch-Counts,
}

module _ (P : Platform) where
  open P use {is_defined}

  pub on_check_credentials-Counts :
      (result send_ok : Bool) (i : Instance P) (c : Connection P)
      → Counts P i c (on_check_credentials P result send_ok i c)
  unfolding on_check_credentials destroy
  on_check_credentials-Counts false send_ok i c = ground arith
  on_check_credentials-Counts true send_ok i c =
      ground (arith, moved-same P (is_defined c.outgoing) i.metrics.server_connections)

  receive_play_server-Counts :
      (k : LoginCalls) (i : Instance P) (c : Connection P)
      → c.state ≡ server_list
      → Counts P i c (receive_play_server P k i c)
  unfolding receive_play_server destroy
  receive_play_server-Counts k i c =
      ground (arith, moved-same P (is_defined c.outgoing) i.metrics.server_connections)

  process_login-Counts :
      (k : LoginCalls) (i : Instance P) (c : Connection P)
      → c.state ≡ initial
      → Counts P i c (process_login P k i c)
  unfolding process_login destroy
  process_login-Counts k i c st =
      ground (arith, moved-same P (is_defined c.outgoing) i.metrics.server_connections)

  receive_server_list-Counts :
      (k : ServerCalls) (i : Instance P) (c : Connection P)
      → Counts P i c (receive_server_list P k i c)
  unfolding receive_server_list destroy
  receive_server_list-Counts k i c =
      ground (arith, moved-same P (is_defined c.outgoing) i.metrics.server_connections)

  append_received-Counts :
      (k : LoginCalls) (i : Instance P) (c : Connection P) (bs : List ℕ)
      → c.state ≡ initial
      → Counts P i c (append_received P k i c bs)
  unfolding append_received
  append_received-Counts k i c bs st =
      let complete = record c {
        initial_packets = c.initial_packets ++ bs;
        initial_packets_fill = (c.initial_packets_fill + length bs) % 256;
        incoming = P.cancel_only_read c.incoming;
        timeout = P.cancel c.timeout;
      } in
      elim (Bool-cases (ltb ((c.initial_packets_fill + length bs) % 256) sizeof_initial_packets)) [
        | inl e ↦
            rw (e, append_received) (refl, sym (moved-same P (is_defined c.outgoing) _), λ u. u)
        | inr e ↦
            rw (e, append_received)
              (Counts-Alike P i i c complete _
                (record { clients = refl; servers = refl; outgoing = refl; state = refl })
                (process_login-Counts k i complete st))
      ]

  received_login-Counts :
      (k : LoginCalls) (i : Instance P) (c : Connection P) (r : Option (List ℕ))
      → c.state ≡ initial
      → Counts P i c (received_login P k i c r)
  unfolding received_login
  received_login-Counts k i c none st = destroy-Counts P i c
  received_login-Counts k i c (some []) st = destroy-Counts P i c
  received_login-Counts k i c (some (b ∷ bs)) st = append_received-Counts k i c (b ∷ bs) st

  receive_login_packets-Counts :
      (k : LoginCalls) (i : Instance P) (c : Connection P)
      → c.state ≡ initial
      → Counts P i c (receive_login_packets P k i c)
  unfolding receive_login_packets
  receive_login_packets-Counts k i c st = check_that-Counts P _ i c _ (
      received_login-Counts k i c
        (read_no_wait (sizeof_initial_packets - c.initial_packets_fill) k.received) st)

  finish_incoming-Counts :
      (i : Instance P) (c : Connection P) (x : Transfer P)
      → Keeps P (SameDefined P) (client_side P c) x
      → Counts P i c (finish_incoming P i c x)
  unfolding finish_incoming destroy
  finish_incoming-Counts i c (going p t) h = (
    refl,
    sym (rw h.1 (moved-same P (is_defined c.outgoing) i.metrics.server_connections)),
    λ u b. h.1 ∙ u b,
  )
  finish_incoming-Counts i c (closing p t) h = ground (arith, h.1)
  finish_incoming-Counts i c (fault f) h = tt

  finish_outgoing-Counts :
      (i : Instance P) (c : Connection P) (x : Transfer P)
      → Keeps P (SameDefined P) (server_side P c) x
      → Counts P i c (finish_outgoing P i c x)
  unfolding finish_outgoing destroy
  finish_outgoing-Counts i c (going p t) h = (
    refl,
    sym (rw h.0 (moved-same P (is_defined c.outgoing) i.metrics.server_connections)),
    λ u b. h.0 ∙ u b,
  )
  finish_outgoing-Counts i c (closing p t) h = ground (arith, h.0)
  finish_outgoing-Counts i c (fault f) h = tt

  incoming_by_state-Counts :
      (ev : Ready) (l : LoginCalls) (k : Calls) (i : Instance P) (c : Connection P) (s : State)
      → c.state ≡ s
      → Counts P i c (incoming_by_state P ev l k i c s)
  unfolding incoming_by_state
  incoming_by_state-Counts ev l k i c initial e =
      check_that-Counts P ev.read i c _ (receive_login_packets-Counts l i c e)
  incoming_by_state-Counts ev l k i c server_list e =
      check_that-Counts P ev.read i c _ (receive_play_server-Counts l i c e)
  incoming_by_state-Counts ev l k i c _ e =
      finish_incoming-Counts i c _ (transfer-SameDefined P ev k (client_side P c))

  dead-Counts :
      (b : Bool) (i : Instance P) (c : Connection P)
      → Counts P i c (destroy P (if b then charge 4 c.per_client i else i) c)
  dead-Counts true i c = charge-Counts P 4 i c
  dead-Counts false i c = destroy-Counts P i c

  pub on_incoming_ready-Counts :
      (ev : Ready) (l : LoginCalls) (k : Calls) (i : Instance P) (c : Connection P)
      → Counts P i c (on_incoming_ready P ev l k i c)
  unfolding on_incoming_ready
  on_incoming_ready-Counts ev l k i c =
      branch-Counts P ev.dead i c _ _ (dead-Counts (is_initial c.state) i c)
        (check_that-Counts P _ i c _ (incoming_by_state-Counts ev l k i c c.state refl))

  outgoing_by_state-Counts :
      (ev : Ready) (s : ServerCalls) (k : Calls) (i : Instance P) (c : Connection P) (st : State)
      → Counts P i c (outgoing_by_state P ev s k i c st)
  unfolding outgoing_by_state
  outgoing_by_state-Counts ev s k i c send_play_server = receive_server_list-Counts s i c
  outgoing_by_state-Counts ev s k i c ready =
      finish_outgoing-Counts i c _ (transfer-SameDefined P ev k (server_side P c))
  outgoing_by_state-Counts ev s k i c _ = tt

  pub on_outgoing_ready-Counts :
      (ev : Ready) (s : ServerCalls) (k : Calls) (i : Instance P) (c : Connection P)
      → Counts P i c (on_outgoing_ready P ev s k i c)
  unfolding on_outgoing_ready
  on_outgoing_ready-Counts ev s k i c = check_that-Counts P _ i c _ (
      branch-Counts P ev.dead i c _ _ (charge-Counts P 5 i c)
        (outgoing_by_state-Counts ev s k i c c.state))

  pub on_timeout-Counts : (i : Instance P) (c : Connection P) → Counts P i c (on_timeout P i c)
  unfolding on_timeout
  on_timeout-Counts i c = charge-Counts P 7 i c

  pub on_socket_connect_error-Counts :
      (i : Instance P) (c : Connection P) → Counts P i c (on_socket_connect_error P i c)
  unfolding on_socket_connect_error destroy
  on_socket_connect_error-Counts i c = ground arith

  -- A connect attempt is made only while `outgoing` is not open.
  pub on_socket_connect_success-Counts :
      (sent : Bool) (i : Instance P) (c : Connection P)
      → IsUnopened P c
      → Counts P i c (on_socket_connect_success P sent i c)
  unfolding on_socket_connect_success destroy
  on_socket_connect_success-Counts sent i c h =
      ground (arith, P.schedule_read_defined (P.open_socket c.outgoing), P.open_defined c.outgoing)
