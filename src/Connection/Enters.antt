-- ===== src/Connection/Enters.antt =====
-- A connection starts to forward with nothing in its pipes.
use uologin.Prelude.{
  ℕ, ◌≡◌, ◌≢◌, refl, Bool, true, false, Option, none, some, List, [], ◌∷◌, if◌then◌else◌,
}
use uologin.External.{Platform}
use uologin.Config.{GameServerConfig}
use uologin.Database.{Check, check_thrown, accepted_now, queued}
use uologin.Splice.{empty}
use uologin.Instance.{Instance, charge}
use uologin.Connection.{
  State, Fault, initial, server_list, send_play_server, ready, Connection, Effect, Outcome, alive,
  destroyed, crashed, emit, check_that, destroy,
}
use uologin.Connection.Login.{
  is_initial, LoginCalls, reject, accept_login, on_check_credentials, after_check, process_login,
  received_login, receive_login_packets, choose_server, received_play_server, receive_play_server,
}
use uologin.Connection.Server.{
  ServerCalls, receive_server_list, on_socket_connect_success, on_socket_connect_error,
}
use uologin.Connection.Transfer.{Ready, Calls, Transfer, going, closing, fault}
use uologin.Connection.Ready.{
  finish_incoming, incoming_by_state, outgoing_by_state, on_incoming_ready, on_outgoing_ready,
  on_timeout,
}

module _ (P : Platform) where
  abbrev pub Hollow : Connection P → Type 0
  Hollow c = (c.splice_in_out ≡ empty) × (c.splice_out_in ≡ empty)

  pub data Enters : Outcome P → Type 0 where
    goes_on :
        {j : Instance P} {d : Connection P} {es : List (Effect P)}
        → (d.state ≡ ready → Hollow d)
        → Enters (alive j d es)
    leaves : {j : Instance P} {es : List (Effect P)} → Enters (destroyed j es)
    crashes : {f : Fault} → Enters (crashed f)

  keeps :
      {j : Instance P} {d : Connection P} {es : List (Effect P)} → Hollow d → Enters (alive j d es)
  keeps h = goes_on (λ e. h)

  emit-Enters : (es : List (Effect P)) (o : Outcome P) → Enters o → Enters (emit es o)
  emit-Enters es (alive j d fs) (goes_on h) = goes_on h
  emit-Enters es (destroyed j fs) leaves = leaves
  emit-Enters es (crashed f) crashes = crashes

  check_that-Enters : (b : Bool) (o : Outcome P) → Enters o → Enters (check_that b o)
  check_that-Enters true o h = h
  check_that-Enters false o h = crashes

  branch-Enters :
      (b : Bool) (o o' : Outcome P) → Enters o → Enters o' → Enters (if b then o else o')
  branch-Enters true o o' h h' = h
  branch-Enters false o o' h h' = h'

  destroy-Enters : (i : Instance P) (c : Connection P) → Enters (destroy P i c)
  unfolding destroy
  destroy-Enters i c = leaves

  choice-Hollow :
      (b : Bool) (c d : Connection P) → Hollow c → Hollow d → Hollow (if b then c else d)
  choice-Hollow true c d h h' = h
  choice-Hollow false c d h h' = h'

  ruleset enters =
      (keeps, crashes, emit-Enters, check_that-Enters, branch-Enters, destroy-Enters, choice-Hollow)

  reject-Enters :
      (b : Bool) (i : Instance P) (c : Connection P) → Hollow c → Enters (reject P b i c)
  unfolding reject
  reject-Enters b i c h = search enters

  accept_login-Enters :
      (b : Bool) (i : Instance P) (c : Connection P) → Hollow c → Enters (accept_login P b i c)
  unfolding accept_login
  accept_login-Enters b i c h = search (enters, h)

  pub on_check_credentials-Enters :
      (result b : Bool) (i : Instance P) (c : Connection P)
      → Hollow c
      → Enters (on_check_credentials P result b i c)
  unfolding on_check_credentials
  on_check_credentials-Enters true b i c h = search (enters, accept_login-Enters, h)
  on_check_credentials-Enters false b i c h = search (enters, reject-Enters, h)

  after_check-Enters :
      (b : Bool) (c : Connection P) (i : Instance P) (k : Check)
      → Hollow c
      → Enters (after_check P b c i k)
  unfolding after_check
  after_check-Enters b c i (check_thrown e) h = search (enters, reject-Enters, h)
  after_check-Enters b c i accepted_now h = on_check_credentials-Enters true b i c h
  after_check-Enters b c i (queued j) h = keeps h

  process_login-Enters :
      (k : LoginCalls) (i : Instance P) (c : Connection P)
      → Hollow c
      → Enters (process_login P k i c)
  unfolding process_login
  process_login-Enters k i c h = search (enters, reject-Enters, after_check-Enters, h)

  received_login-Enters :
      (k : LoginCalls) (i : Instance P) (c : Connection P) (r : Option (List ℕ))
      → Hollow c
      → Enters (received_login P k i c r)
  unfolding received_login
  received_login-Enters k i c none h = destroy-Enters i c
  received_login-Enters k i c (some []) h = destroy-Enters i c
  received_login-Enters k i c (some (b ∷ bs)) h = search (enters, process_login-Enters, h)

  choose_server-Enters :
      (i : Instance P) (c : Connection P) (o : Option (GameServerConfig P))
      → Hollow c
      → Enters (choose_server P i c o)
  unfolding choose_server
  choose_server-Enters i c none h = destroy-Enters i c
  choose_server-Enters i c (some s) h = keeps h

  received_play_server-Enters :
      (i : Instance P) (c : Connection P) (o : Option (List ℕ))
      → Hollow c
      → Enters (received_play_server P i c o)
  unfolding received_play_server
  received_play_server-Enters i c none h = destroy-Enters i c
  received_play_server-Enters i c (some b) h = search (enters, choose_server-Enters, h)

  receive_server_list-Enters :
      (k : ServerCalls) (i : Instance P) (c : Connection P)
      → Hollow c
      → Enters (receive_server_list P k i c)
  unfolding receive_server_list
  receive_server_list-Enters k i c h = search (enters, h) depth 9

  finish_incoming-Enters :
      (i : Instance P) (c : Connection P) (x : Transfer P)
      → c.state ≢ ready
      → Enters (finish_incoming P i c x)
  unfolding finish_incoming
  finish_incoming-Enters i c (going q t) h = goes_on (λ e. absurd (h e))
  finish_incoming-Enters i c (closing q t) h = search enters
  finish_incoming-Enters i c (fault f) h = crashes

  incoming_by_state-Enters :
      (ev : Ready) (l : LoginCalls) (k : Calls) (i : Instance P) (c : Connection P) (s : State)
      → c.state ≢ ready
      → Hollow c
      → Enters (incoming_by_state P ev l k i c s)
  unfolding incoming_by_state receive_login_packets receive_play_server
  incoming_by_state-Enters ev l k i c initial n h = search (enters, received_login-Enters, h)
  incoming_by_state-Enters ev l k i c server_list n h =
      search (enters, received_play_server-Enters, h)
  incoming_by_state-Enters ev l k i c _ n h = finish_incoming-Enters i c _ n

  pub on_incoming_ready-Enters :
      (ev : Ready) (l : LoginCalls) (k : Calls) (i : Instance P) (c : Connection P)
      → c.state ≢ ready
      → Hollow c
      → Enters (on_incoming_ready P ev l k i c)
  unfolding on_incoming_ready
  on_incoming_ready-Enters ev l k i c n h =
      search (enters, dead (is_initial c.state), incoming_by_state-Enters ev l k i c c.state n h)
    where
      dead : (b : Bool) → Enters (destroy P (if b then charge 4 c.per_client i else i) c)
      dead true = search enters
      dead false = destroy-Enters i c

  outgoing_by_state-Enters :
      (ev : Ready) (s : ServerCalls) (k : Calls) (i : Instance P) (c : Connection P) (st : State)
      → st ≢ ready
      → Hollow c
      → Enters (outgoing_by_state P ev s k i c st)
  unfolding outgoing_by_state
  outgoing_by_state-Enters ev s k i c send_play_server n h = receive_server_list-Enters s i c h
  outgoing_by_state-Enters ev s k i c ready n h = absurd (n refl)
  outgoing_by_state-Enters ev s k i c _ n h = crashes

  pub on_outgoing_ready-Enters :
      (ev : Ready) (s : ServerCalls) (k : Calls) (i : Instance P) (c : Connection P)
      → c.state ≢ ready
      → Hollow c
      → Enters (on_outgoing_ready P ev s k i c)
  unfolding on_outgoing_ready
  on_outgoing_ready-Enters ev s k i c n h = search (enters, outgoing_by_state-Enters, h)

  pub on_timeout-Enters : (i : Instance P) (c : Connection P) → Hollow c → Enters (on_timeout P i c)
  unfolding on_timeout
  on_timeout-Enters i c h = search enters

  pub on_socket_connect_error-Enters :
      (i : Instance P) (c : Connection P) → Hollow c → Enters (on_socket_connect_error P i c)
  unfolding on_socket_connect_error
  on_socket_connect_error-Enters i c h = search enters

  pub on_socket_connect_success-Enters :
      (sent : Bool) (i : Instance P) (c : Connection P)
      → Hollow c
      → Enters (on_socket_connect_success P sent i c)
  unfolding on_socket_connect_success
  on_socket_connect_success-Enters sent i c h = search (enters, h)
