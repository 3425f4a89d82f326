-- ===== src/Connection/Targets.antt =====
-- Which addresses a connection dials: those of the configuration.
use uologin.Prelude.{
  ℕ, ◌≡◌, ◌∙◌, refl, sym, subst, ap, Bool, true, false, inl, inr, ◌⊎◌, Option, none, some, List, [],
  ◌∷◌, ◌++◌, All, get_elem?, if◌then◌else◌,
}
use uologin.External.{Platform}
use uologin.Config.{Config, GameServerConfig}
use uologin.Database.{Job, Check, check_thrown, accepted_now, queued}
use uologin.Splice.{Put}
use uologin.Wire.{slice, account_login_reject}
use uologin.Instance.{Instance, charge}
use uologin.Connection.{
  State, Fault, initial, server_list, connecting, send_play_server, ready, Connection, Effect,
  Outcome, alive, destroyed, crashed, give_back, to_client, to_server, shutdown_client,
  shutdown_server, emit, check_that, cancel_effects, destroy,
}
use uologin.Connection.Gate.{dialled, dialled-append}
use uologin.Accounting.{is_empty}
use uologin.Connection.Login.{
  is_initial, send_server_list, start_connecting, LoginCalls, reject, accept_login,
  on_check_credentials, after_check, process_login, received_login, receive_login_packets,
  choose_server, received_play_server, receive_play_server,
}
use uologin.Connection.Server.{
  ServerCalls, receive_server_list, on_socket_connect_success, on_socket_connect_error,
}
use uologin.Connection.Transfer.{Ready, Calls, Transfer, going, closing, fault}
use uologin.Connection.Ready.{
  finish_incoming, finish_outgoing, incoming_by_state, outgoing_by_state, on_incoming_ready,
  on_outgoing_ready, on_timeout,
}

-- An address that a configuration names: its last one, or one of its list.
abbrev pub IsTarget : (P : Platform) → P.Address → List (GameServerConfig P) → P.Address → Type 0
IsTarget P last listed a =
    (a ≡ last)
    ⊎ ((n : ℕ) × (s : GameServerConfig P) × (get_elem? listed n ≡ some s) × (a ≡ s.address))

abbrev pub effects_of : {P : Platform} → Outcome P → List (Effect P)
effects_of (alive j c es) = es
effects_of (destroyed j es) = es
effects_of (crashed f) = []

module _ (P : Platform) (g : Config P) where
  abbrev pub AllTargets : List (Effect P) → Type 0
  AllTargets es = All (IsTarget P g.game_server g.server_list) (dialled P es)

  abbrev pub IsConfigured : Instance P → Type 0
  IsConfigured i = i.config ≡ g

  pub data Aims : Outcome P → Type 0 where
    goes_on :
        {j : Instance P} {d : Connection P} {es : List (Effect P)}
        → IsConfigured j
        → AllTargets es
        → Aims (alive j d es)
    leaves :
        {j : Instance P} {es : List (Effect P)}
        → IsConfigured j
        → AllTargets es
        → Aims (destroyed j es)
    crashes : {f : Fault} → Aims (crashed f)

  nothing : (es : List (Effect P)) → dialled P es ≡ [] → AllTargets es
  nothing es e = subst (All (IsTarget P g.game_server g.server_list)) (sym e) tt

  after_none : (es fs : List (Effect P)) → dialled P es ≡ [] → AllTargets fs → AllTargets (es ++ fs)
  after_none es fs e h =
      subst (All (IsTarget P g.game_server g.server_list))
        (sym (dialled-append P es fs ∙ ap (λ x. x ++ dialled P fs) e)) h

  emit-Aims : (es : List (Effect P)) (o : Outcome P) → dialled P es ≡ [] → Aims o → Aims (emit es o)
  emit-Aims es (alive j d fs) e (goes_on h a) = goes_on h (after_none es fs e a)
  emit-Aims es (destroyed j fs) e (leaves h a) = leaves h (after_none es fs e a)
  emit-Aims es (crashed f) e crashes = crashes

  tell_client-Aims : (b : List ℕ) (o : Outcome P) → Aims o → Aims (emit (to_client b ∷ []) o)
  tell_client-Aims b o h = emit-Aims (to_client b ∷ []) o refl h

  tell_server-Aims : (b : List ℕ) (o : Outcome P) → Aims o → Aims (emit (to_server b ∷ []) o)
  tell_server-Aims b o h = emit-Aims (to_server b ∷ []) o refl h

  -- The shutdown() at the end of a forwarding.
  shut :
      (b : Bool) (e : Effect P)
      → dialled P (e ∷ []) ≡ []
      → dialled P (if b then e ∷ [] else []) ≡ []
  shut true e h = h
  shut false e h = refl

  check_that-Aims : (b : Bool) (o : Outcome P) → Aims o → Aims (check_that b o)
  check_that-Aims true o h = h
  check_that-Aims false o h = crashes

  branch-Aims : (b : Bool) (o o' : Outcome P) → Aims o → Aims o' → Aims (if b then o else o')
  branch-Aims true o o' h h' = h
  branch-Aims false o o' h h' = h'

  cancels : (o : Option Job) (b : List Put) → AllTargets (cancel_effects P o ++ give_back b ∷ [])
  unfolding cancel_effects
  cancels none b = tt
  cancels (some j) b = tt

  destroy-Aims : (i : Instance P) (c : Connection P) → IsConfigured i → Aims (destroy P i c)
  unfolding destroy
  destroy-Aims i c h = leaves h (cancels c.cancel_ptr _)

  -- Without an effect.
  stays : (i : Instance P) (c : Connection P) → IsConfigured i → Aims (alive i c [])
  stays i c h = goes_on h tt

  speaks :
      (b : List ℕ) (i : Instance P) (c : Connection P)
      → IsConfigured i
      → Aims (alive i c (to_server b ∷ []))
  speaks b i c h = goes_on h tt

  ruleset aims = (
    crashes, tell_client-Aims, tell_server-Aims, check_that-Aims, branch-Aims, destroy-Aims, stays,
    speaks,
  )

  reject-Aims :
      (b : Bool) (i : Instance P) (c : Connection P) → IsConfigured i → Aims (reject P b i c)
  unfolding reject
  reject-Aims b i c h =
      emit-Aims (to_client (account_login_reject P) ∷ (if b then shutdown_client ∷ [] else [])) _
        (shut b shutdown_client refl) (destroy-Aims i c h)

  send_server_list-Aims :
      (b : Bool) (i : Instance P) (c : Connection P)
      → IsConfigured i
      → Aims (send_server_list P b i c)
  unfolding send_server_list
  send_server_list-Aims b i c h = search (aims, h)

  start_connecting-Aims :
      (a : P.Address) (i : Instance P) (c : Connection P)
      → IsConfigured i
      → IsTarget P g.game_server g.server_list a
      → Aims (start_connecting P a i c)
  unfolding start_connecting
  start_connecting-Aims a i c h t = goes_on h (t, tt)

  accept_login-Aims :
      (b : Bool) (i : Instance P) (c : Connection P) → IsConfigured i → Aims (accept_login P b i c)
  unfolding accept_login
  accept_login-Aims b i c h =
      branch-Aims (is_empty i.config.server_list) _ _
        (start_connecting-Aims i.config.game_server i
          (record c { state = connecting; incoming = P.schedule_read c.incoming }) h
          (inl (ap (λ k. k.game_server) h)))
        (send_server_list-Aims b i c h)

  pub on_check_credentials-Aims :
      (result b : Bool) (i : Instance P) (c : Connection P)
      → IsConfigured i
      → Aims (on_check_credentials P result b i c)
  unfolding on_check_credentials
  on_check_credentials-Aims true b i c h = search (aims, accept_login-Aims, h)
  on_check_credentials-Aims false b i c h = search (aims, reject-Aims, h)

  after_check-Aims :
      (b : Bool) (c : Connection P) (i : Instance P) (k : Check)
      → IsConfigured i
      → Aims (after_check P b c i k)
  unfolding after_check
  after_check-Aims b c i (check_thrown e) h = search (aims, reject-Aims, h)
  after_check-Aims b c i accepted_now h = on_check_credentials-Aims true b i c h
  after_check-Aims b c i (queued j) h = goes_on h tt

  process_login-Aims :
      (k : LoginCalls) (i : Instance P) (c : Connection P)
      → IsConfigured i
      → Aims (process_login P k i c)
  unfolding process_login
  process_login-Aims k i c h = search (aims, reject-Aims, after_check-Aims, h)

  received_login-Aims :
      (k : LoginCalls) (i : Instance P) (c : Connection P) (r : Option (List ℕ))
      → IsConfigured i
      → Aims (received_login P k i c r)
  unfolding received_login
  received_login-Aims k i c none h = destroy-Aims i c h
  received_login-Aims k i c (some []) h = destroy-Aims i c h
  received_login-Aims k i c (some (b ∷ bs)) h = search (aims, process_login-Aims, h)

  choose_server-Aims :
      (i : Instance P) (c : Connection P) (n : ℕ) (o : Option (GameServerConfig P))
      → IsConfigured i
      → get_elem? i.config.server_list n ≡ o
      → Aims (choose_server P i c o)
  unfolding choose_server
  choose_server-Aims i c n none h e = destroy-Aims i c h
  choose_server-Aims i c n (some s) h e =
      start_connecting-Aims s.address i
        (record c {
          incoming = P.cancel_only_read c.incoming;
          timeout = P.cancel c.timeout;
          state = connecting;
          play_server_wanted = true;
        })
        h (inr (n, s, subst (λ k. get_elem? k.server_list n ≡ some s) h e, refl))

  received_play_server-Aims :
      (i : Instance P) (c : Connection P) (o : Option (List ℕ))
      → IsConfigured i
      → Aims (received_play_server P i c o)
  unfolding received_play_server
  received_play_server-Aims i c none h = destroy-Aims i c h
  received_play_server-Aims i c (some b) h =
      let n = P.from_be16 (slice 1 2 b) in
      search (aims, choose_server-Aims i c n (get_elem? i.config.server_list n) h refl, h)

  receive_server_list-Aims :
      (k : ServerCalls) (i : Instance P) (c : Connection P)
      → IsConfigured i
      → Aims (receive_server_list P k i c)
  unfolding receive_server_list
  receive_server_list-Aims k i c h = search (aims, h) depth 8

  finish_incoming-Aims :
      (i : Instance P) (c : Connection P) (x : Transfer P)
      → IsConfigured i
      → Aims (finish_incoming P i c x)
  unfolding finish_incoming
  finish_incoming-Aims i c (going q t) h = goes_on h tt
  finish_incoming-Aims i c (closing q t) h =
      emit-Aims
        (to_client t.to_near
          ∷ to_server t.to_far
          ∷ give_back t.puts
          ∷ (if t.shut_far then shutdown_server ∷ [] else []))
        _ (shut t.shut_far shutdown_server refl) (destroy-Aims _ _ h)
  finish_incoming-Aims i c (fault f) h = crashes

  finish_outgoing-Aims :
      (i : Instance P) (c : Connection P) (x : Transfer P)
      → IsConfigured i
      → Aims (finish_outgoing P i c x)
  unfolding finish_outgoing
  finish_outgoing-Aims i c (going q t) h = goes_on h tt
  finish_outgoing-Aims i c (closing q t) h =
      emit-Aims
        (to_server t.to_near
          ∷ to_client t.to_far
          ∷ give_back t.puts
          ∷ (if t.shut_far then shutdown_client ∷ [] else []))
        _ (shut t.shut_far shutdown_client refl) (destroy-Aims _ _ h)
  finish_outgoing-Aims i c (fault f) h = crashes

  incoming_by_state-Aims :
      (ev : Ready) (l : LoginCalls) (k : Calls) (i : Instance P) (c : Connection P) (s : State)
      → IsConfigured i
      → Aims (incoming_by_state P ev l k i c s)
  unfolding incoming_by_state receive_login_packets receive_play_server
  incoming_by_state-Aims ev l k i c initial h = search (aims, received_login-Aims, h)
  incoming_by_state-Aims ev l k i c server_list h = search (aims, received_play_server-Aims, h)
  incoming_by_state-Aims ev l k i c _ h = finish_incoming-Aims i c _ h

  pub on_incoming_ready-Aims :
      (ev : Ready) (l : LoginCalls) (k : Calls) (i : Instance P) (c : Connection P)
      → IsConfigured i
      → Aims (on_incoming_ready P ev l k i c)
  unfolding on_incoming_ready
  on_incoming_ready-Aims ev l k i c h =
      search (aims, dead (is_initial c.state), incoming_by_state-Aims ev l k i c c.state h)
    where
      dead : (b : Bool) → Aims (destroy P (if b then charge 4 c.per_client i else i) c)
      dead true = search (aims, h)
      dead false = destroy-Aims i c h

  outgoing_by_state-Aims :
      (ev : Ready) (s : ServerCalls) (k : Calls) (i : Instance P) (c : Connection P) (st : State)
      → IsConfigured i
      → Aims (outgoing_by_state P ev s k i c st)
  unfolding outgoing_by_state
  outgoing_by_state-Aims ev s k i c send_play_server h = receive_server_list-Aims s i c h
  outgoing_by_state-Aims ev s k i c ready h = finish_outgoing-Aims i c _ h
  outgoing_by_state-Aims ev s k i c _ h = crashes

  pub on_outgoing_ready-Aims :
      (ev : Ready) (s : ServerCalls) (k : Calls) (i : Instance P) (c : Connection P)
      → IsConfigured i
      → Aims (on_outgoing_ready P ev s k i c)
  unfolding on_outgoing_ready
  on_outgoing_ready-Aims ev s k i c h = search (aims, outgoing_by_state-Aims, h)

  pub on_timeout-Aims :
      (i : Instance P) (c : Connection P) → IsConfigured i → Aims (on_timeout P i c)
  unfolding on_timeout
  on_timeout-Aims i c h = search (aims, h)

  pub on_socket_connect_error-Aims :
      (i : Instance P) (c : Connection P) → IsConfigured i → Aims (on_socket_connect_error P i c)
  unfolding on_socket_connect_error
  on_socket_connect_error-Aims i c h = search (aims, h)

  pub on_socket_connect_success-Aims :
      (sent : Bool) (i : Instance P) (c : Connection P)
      → IsConfigured i
      → Aims (on_socket_connect_success P sent i c)
  unfolding on_socket_connect_success
  on_socket_connect_success-Aims sent i c h = search (aims, h)

  pub Aims-effects : (o : Outcome P) → Aims o → AllTargets (effects_of o)
  Aims-effects (alive j d es) (goes_on h a) = a
  Aims-effects (destroyed j es) (leaves h a) = a
  Aims-effects (crashed f) crashes = tt
