-- ===== src/Connection/Ends.antt =====
-- What a handler of a connection does to the accounting of its client.
use uologin.Prelude.{ℕ, ◌≡◌, Bool, true, false, Option, none, some, List, [], ◌∷◌, if◌then◌else◌}
use uologin.External.{Platform}
use uologin.Accounting.{AccountingMap, account}
use uologin.Accounting.Ids.{
  Leaves, Leaves-trans, account-Leaves, Detaches, detach_connection-Detaches, Detaches-after,
}
use uologin.Config.{GameServerConfig}
use uologin.Database.{Check, check_thrown, accepted_now, queued}
use uologin.Instance.{Instance, charge}
use uologin.Connection.{
  State, Fault, initial, server_list, send_play_server, ready, Connection, Effect, Outcome, alive,
  destroyed, crashed, emit, check_that, destroy,
}
use uologin.Connection.Login.{
  is_initial, LoginCalls, reject, accept_login, on_check_credentials, after_check, process_login,
  received_login, receive_login_packets, choose_server, received_play_server, receive_play_server,
}
use uologin.Connection.Server.{
  ServerCalls, receive_server_list, on_socket_connect_success, on_socket_connect_error,
}
use uologin.Connection.Transfer.{Ready, Calls, Transfer, going, closing, fault}
use uologin.Connection.Ready.{
  finish_incoming, finish_outgoing, incoming_by_state, outgoing_by_state, on_incoming_ready,
  on_outgoing_ready, on_timeout,
}

module _ (P : Platform) (m : AccountingMap P) (p : Option ℕ) (n : ℕ) where
  -- On the way from the map `m`, of a connection `n` of the client `p`.
  abbrev pub Fits : Instance P → Connection P → Type 0
  Fits i c = Leaves P m i.client_accounting × (c.id ≡ n) × (c.per_client ≡ p)

  pub data Ends : Outcome P → Type 0 where
    goes_on :
        {j : Instance P} {d : Connection P} {es : List (Effect P)} → Fits j d → Ends (alive j d es)
    leaves :
        {j : Instance P} {es : List (Effect P)}
        → Detaches P p n m j.client_accounting
        → Ends (destroyed j es)
    crashes : {f : Fault} → Ends (crashed f)

  emit-Ends : (es : List (Effect P)) (o : Outcome P) → Ends o → Ends (emit es o)
  emit-Ends es (alive j d fs) (goes_on h) = goes_on h
  emit-Ends es (destroyed j fs) (leaves h) = leaves h
  emit-Ends es (crashed f) crashes = crashes

  check_that-Ends : (b : Bool) (o : Outcome P) → Ends o → Ends (check_that b o)
  check_that-Ends true o h = h
  check_that-Ends false o h = crashes

  branch-Ends : (b : Bool) (o o' : Outcome P) → Ends o → Ends o' → Ends (if b then o else o')
  branch-Ends true o o' h h' = h
  branch-Ends false o o' h h' = h'

  pub destroy-Ends : (i : Instance P) (c : Connection P) → Fits i c → Ends (destroy P i c)
  unfolding destroy
  destroy-Ends i c (l, e, f) = leaves (
      Detaches-after P p n m i.client_accounting _ l
        (rw (e, f) (detach_connection-Detaches P i.now p n i.client_accounting l.distinct)))

  charge-Leaves :
      (now size : ℕ) (q : Option ℕ) (k : AccountingMap P)
      → Leaves P m k
      → Leaves P m (account P now size q k)
  charge-Leaves now size q k l = Leaves-trans P m k _ l (account-Leaves P now size q k l.distinct)

  choice-Fits :
      (b : Bool) (i : Instance P) (c d : Connection P)
      → Fits i c
      → Fits i d
      → Fits i (if b then c else d)
  choice-Fits true i c d h h' = h
  choice-Fits false i c d h h' = h'

  ruleset ends = (
    goes_on, crashes, emit-Ends, check_that-Ends, branch-Ends, destroy-Ends, charge-Leaves,
    choice-Fits,
  )

  reject-Ends : (b : Bool) (i : Instance P) (c : Connection P) → Fits i c → Ends (reject P b i c)
  unfolding reject
  reject-Ends b i c h = search (ends, h)

  accept_login-Ends :
      (b : Bool) (i : Instance P) (c : Connection P) → Fits i c → Ends (accept_login P b i c)
  unfolding accept_login
  accept_login-Ends b i c h = search (ends, h)

  pub on_check_credentials-Ends :
      (result b : Bool) (i : Instance P) (c : Connection P)
      → Fits i c
      → Ends (on_check_credentials P result b i c)
  unfolding on_check_credentials
  on_check_credentials-Ends true b i c h = search (ends, accept_login-Ends, h)
  on_check_credentials-Ends false b i c h = search (ends, reject-Ends, h)

  after_check-Ends :
      (b : Bool) (c : Connection P) (i : Instance P) (k : Check)
      → Fits i c
      → Ends (after_check P b c i k)
  unfolding after_check
  after_check-Ends b c i (check_thrown e) h = search (ends, reject-Ends, h)
  after_check-Ends b c i accepted_now h = on_check_credentials-Ends true b i c h
  after_check-Ends b c i (queued j) h = goes_on h

  process_login-Ends :
      (k : LoginCalls) (i : Instance P) (c : Connection P) → Fits i c → Ends (process_login P k i c)
  unfolding process_login
  process_login-Ends k i c h = search (ends, reject-Ends, after_check-Ends, h)

  received_login-Ends :
      (k : LoginCalls) (i : Instance P) (c : Connection P) (r : Option (List ℕ))
      → Fits i c
      → Ends (received_login P k i c r)
  unfolding received_login
  received_login-Ends k i c none h = destroy-Ends i c h
  received_login-Ends k i c (some []) h = destroy-Ends i c h
  received_login-Ends k i c (some (b ∷ bs)) h = search (ends, process_login-Ends, h)

  choose_server-Ends :
      (i : Instance P) (c : Connection P) (o : Option (GameServerConfig P))
      → Fits i c
      → Ends (choose_server P i c o)
  unfolding choose_server
  choose_server-Ends i c none h = destroy-Ends i c h
  choose_server-Ends i c (some s) h = goes_on h

  received_play_server-Ends :
      (i : Instance P) (c : Connection P) (o : Option (List ℕ))
      → Fits i c
      → Ends (received_play_server P i c o)
  unfolding received_play_server
  received_play_server-Ends i c none h = destroy-Ends i c h
  received_play_server-Ends i c (some b) h = search (ends, choose_server-Ends, h)

  receive_server_list-Ends :
      (k : ServerCalls) (i : Instance P) (c : Connection P)
      → Fits i c
      → Ends (receive_server_list P k i c)
  unfolding receive_server_list
  receive_server_list-Ends k i c h = search (ends, h)

  finish_incoming-Ends :
      (i : Instance P) (c : Connection P) (x : Transfer P)
      → Fits i c
      → Ends (finish_incoming P i c x)
  unfolding finish_incoming
  finish_incoming-Ends i c (going q t) h = goes_on h
  finish_incoming-Ends i c (closing q t) h = search (ends, h)
  finish_incoming-Ends i c (fault f) h = crashes

  finish_outgoing-Ends :
      (i : Instance P) (c : Connection P) (x : Transfer P)
      → Fits i c
      → Ends (finish_outgoing P i c x)
  unfolding finish_outgoing
  finish_outgoing-Ends i c (going q t) h = goes_on h
  finish_outgoing-Ends i c (closing q t) h = search (ends, h)
  finish_outgoing-Ends i c (fault f) h = crashes

  incoming_by_state-Ends :
      (ev : Ready) (l : LoginCalls) (k : Calls) (i : Instance P) (c : Connection P) (s : State)
      → Fits i c
      → Ends (incoming_by_state P ev l k i c s)
  unfolding incoming_by_state receive_login_packets receive_play_server
  incoming_by_state-Ends ev l k i c initial h = search (ends, received_login-Ends, h)
  incoming_by_state-Ends ev l k i c server_list h = search (ends, received_play_server-Ends, h)
  incoming_by_state-Ends ev l k i c _ h = finish_incoming-Ends i c _ h

  pub on_incoming_ready-Ends :
      (ev : Ready) (l : LoginCalls) (k : Calls) (i : Instance P) (c : Connection P)
      → Fits i c
      → Ends (on_incoming_ready P ev l k i c)
  unfolding on_incoming_ready
  on_incoming_ready-Ends ev l k i c h =
      search (ends, dead (is_initial c.state), incoming_by_state-Ends ev l k i c c.state h)
    where
      dead : (b : Bool) → Ends (destroy P (if b then charge 4 c.per_client i else i) c)
      dead true = search (ends, h)
      dead false = destroy-Ends i c h

  outgoing_by_state-Ends :
      (ev : Ready) (s : ServerCalls) (k : Calls) (i : Instance P) (c : Connection P) (st : State)
      → Fits i c
      → Ends (outgoing_by_state P ev s k i c st)
  unfolding outgoing_by_state
  outgoing_by_state-Ends ev s k i c send_play_server h = receive_server_list-Ends s i c h
  outgoing_by_state-Ends ev s k i c ready h = finish_outgoing-Ends i c _ h
  outgoing_by_state-Ends ev s k i c _ h = crashes

  pub on_outgoing_ready-Ends :
      (ev : Ready) (s : ServerCalls) (k : Calls) (i : Instance P) (c : Connection P)
      → Fits i c
      → Ends (on_outgoing_ready P ev s k i c)
  unfolding on_outgoing_ready
  on_outgoing_ready-Ends ev s k i c h = search (ends, outgoing_by_state-Ends, h)

  pub on_timeout-Ends : (i : Instance P) (c : Connection P) → Fits i c → Ends (on_timeout P i c)
  unfolding on_timeout
  on_timeout-Ends i c h = search (ends, h)

  pub on_socket_connect_error-Ends :
      (i : Instance P) (c : Connection P) → Fits i c → Ends (on_socket_connect_error P i c)
  unfolding on_socket_connect_error
  on_socket_connect_error-Ends i c h = search (ends, h)

  pub on_socket_connect_success-Ends :
      (sent : Bool) (i : Instance P) (c : Connection P)
      → Fits i c
      → Ends (on_socket_connect_success P sent i c)
  unfolding on_socket_connect_success
  on_socket_connect_success-Ends sent i c h = search (ends, h)
