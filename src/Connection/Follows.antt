-- ===== src/Connection/Follows.antt =====
-- The handlers of src/Connection.cxx keep to the protocol.
use uologin.Prelude.{
  ℕ, ◌≡◌, ◌∙◌, refl, Bool, true, false, Option, none, some, List, [], ◌∷◌, ◌++◌, if◌then◌else◌,
  arith,
}
use uologin.Accounting.{is_empty}
use uologin.External.{Platform}
use uologin.Config.{GameServerConfig}
use uologin.Database.{Job, Check, check_thrown, accepted_now, queued}
use uologin.Splice.{Put}
use uologin.Wire.{account_login_reject}
use uologin.Instance.{Instance}
use uologin.Connection.{
  State, initial, check_credentials, server_list, connecting, send_play_server, ready, Connection,
  Effect, to_client, shutdown_client, give_back, Outcome, alive, destroyed, crashed, emit,
  check_that, destroy, cancel_effects, Fault,
}
use uologin.Connection.Protocol.{
  Protocol, waits, gone, rejects, asks, dials, offers, cannot_offer, chooses, IsAnonymous, Closing,
  no_job, with_job, neither, client_side,
}
use uologin.Connection.Login.{
  LoginCalls, reject, start_connecting, send_server_list, accept_login, on_check_credentials,
  after_check, process_login, append_received, received_login, choose_server, received_play_server,
}

module _ (P : Platform) where
  open P use {read_pending, write_pending}

  -- Which events of the client's socket can be delivered, and what is still to be sent to the game
  -- server, by the state of the connection.
  abbrev pub Rests : State → Connection P → Type 0
  Rests initial c = (c.play_server_wanted ≡ false) × (write_pending c.incoming ≡ false)
  Rests check_credentials c =
      (c.play_server_wanted ≡ false)
      × (write_pending c.incoming ≡ false)
      × (read_pending c.incoming ≡ false)
  Rests server_list c = write_pending c.incoming ≡ false
  Rests connecting c =
      (c.connect_pending ≡ true)
      × (write_pending c.incoming ≡ false)
      × (c.play_server_wanted ≡ true → read_pending c.incoming ≡ false)
  Rests send_play_server c = (write_pending c.incoming ≡ false) × (read_pending c.incoming ≡ false)
  Rests ready c = Unit {0}

  -- The outcome of a handler keeps to the protocol in the state `s`.
  pub data Follows (s : State) : Outcome P → Type 0 where
    lives :
        {j : Instance P} {d : Connection P} {es : List (Effect P)} (t : State)
        → d.state ≡ t
        → Protocol P s es (some t)
        → Rests t d
        → Follows s (alive j d es)
    dies :
        {j : Instance P} {es : List (Effect P)} → Protocol P s es none → Follows s (destroyed j es)
    fails : {f : Fault} → Follows s (crashed f)

  cancel_effects-Closing :
      (o : Option Job) (puts : List Put) → Closing P (cancel_effects P o ++ give_back puts ∷ [])
  unfolding cancel_effects
  cancel_effects-Closing none puts = no_job puts
  cancel_effects-Closing (some j) puts = with_job j puts

  pub destroy-Follows : (s : State) (i : Instance P) (c : Connection P) → Follows s (destroy P i c)
  unfolding destroy
  destroy-Follows s i c = dies (gone (cancel_effects-Closing c.cancel_ptr _))

  pub destroy_after :
      (s : State) (es : List (Effect P)) (i : Instance P) (c : Connection P)
      → ((fs : List (Effect P)) → Closing P fs → Protocol P s (es ++ fs) none)
      → Follows s (emit es (destroy P i c))
  unfolding destroy
  destroy_after s es i c f = dies (f _ (cancel_effects-Closing c.cancel_ptr _))

  pub check_that-Follows :
      (s : State) (b : Bool) (o : Outcome P) → Follows s o → Follows s (check_that b o)
  check_that-Follows s true o h = h
  check_that-Follows s false o h = fails

  pub branch-Follows :
      (s : State) (b : Bool) (o o' : Outcome P)
      → Follows s o
      → Follows s o'
      → Follows s (if b then o else o')
  branch-Follows s true o o' h h' = h
  branch-Follows s false o o' h h' = h'

  reject-Follows :
      (s : State) (b : Bool) (i : Instance P) (c : Connection P)
      → IsAnonymous s
      → Follows s (reject P b i c)
  unfolding reject
  reject-Follows s true i c a =
      destroy_after s (to_client (account_login_reject P) ∷ shutdown_client ∷ []) i c
        (λ fs h. rejects a client_side h)
  reject-Follows s false i c a =
      destroy_after s (to_client (account_login_reject P) ∷ []) i c (λ fs h. rejects a neither h)

  ruleset follows = (branch-Follows, check_that-Follows, destroy-Follows)

  -- The client is let in: its server is dialled, or it gets the list.
  accept_login-Follows :
      (s : State) (b : Bool) (i : Instance P) (c : Connection P)
      → IsAnonymous s
      → c.play_server_wanted ≡ false
      → write_pending c.incoming ≡ false
      → Follows s (accept_login P b i c)
  unfolding accept_login send_server_list start_connecting
  accept_login-Follows s b i c a wanted silent =
      branch-Follows s (is_empty i.config.server_list) _ _
        (lives connecting refl (dials i.config.game_server a) (
          refl,
          P.schedule_read_write c.incoming ∙ silent,
          (λ w. absurd (ground (arith, wanted, w))),
        ))
        (listed b)
    where
      listed : (t : Bool) → Follows s (send_server_list P t i c)
      listed true =
          check_that-Follows s _ _
            (lives server_list refl (offers _ a) (P.schedule_read_write c.incoming ∙ silent))
      listed false =
          check_that-Follows s _ _
            (destroy_after s (to_client _ ∷ []) i c (λ fs h. cannot_offer _ a h))

  pub on_check_credentials-Follows :
      (s : State) (result b : Bool) (i : Instance P) (c : Connection P)
      → IsAnonymous s
      → c.play_server_wanted ≡ false
      → write_pending c.incoming ≡ false
      → Follows s (on_check_credentials P result b i c)
  unfolding on_check_credentials
  on_check_credentials-Follows s true b i c a wanted silent =
      search (check_that-Follows, accept_login-Follows, a, wanted, silent)
  on_check_credentials-Follows s false b i c a wanted silent =
      search (check_that-Follows, reject-Follows, a)

  after_check-Follows :
      (b : Bool) (c : Connection P) (i : Instance P) (k : Check)
      → c.state ≡ check_credentials
      → Rests check_credentials c
      → Follows initial (after_check P b c i k)
  unfolding after_check
  after_check-Follows b c i (check_thrown e) s r = reject-Follows initial b _ c tt
  after_check-Follows b c i accepted_now s (wanted, silent, quiet) =
      on_check_credentials-Follows initial true b i c tt wanted silent
  after_check-Follows b c i (queued j) s r = lives check_credentials s (asks j) r

  process_login-Follows :
      (k : LoginCalls) (i : Instance P) (c : Connection P)
      → Rests check_credentials c
      → Follows initial (process_login P k i c)
  unfolding process_login
  process_login-Follows k i c r = search (follows, checked, turned_away)
    where
      checked :
          (b : Bool) (j : Instance P) (k : Check)
          → Follows initial (after_check P b (record c { state = check_credentials }) j k)
      checked b j k = after_check-Follows b _ j k refl r

      turned_away : (b : Bool) (j : Instance P) → Follows initial (reject P b j c)
      turned_away b j = reject-Follows initial b j c tt

  pub received_login-Follows :
      (k : LoginCalls) (i : Instance P) (c : Connection P) (o : Option (List ℕ))
      → c.state ≡ initial
      → Rests initial c
      → Follows initial (received_login P k i c o)
  unfolding received_login append_received
  received_login-Follows k i c none s r = destroy-Follows initial i c
  received_login-Follows k i c (some []) s r = destroy-Follows initial i c
  received_login-Follows k i c (some (b ∷ bs)) s (wanted, silent) =
      search (follows, going_on, complete)
    where
      going_on :
          (bytes : List ℕ) (n : ℕ)
          → Follows initial
              (alive i (record c { initial_packets = bytes; initial_packets_fill = n }) [])
      going_on bytes n = lives initial s waits (wanted, silent)

      complete :
          (bytes : List ℕ) (n : ℕ)
          → Follows initial (
              process_login P k i (record c {
                initial_packets = bytes;
                initial_packets_fill = n;
                incoming = P.cancel_only_read c.incoming;
                timeout = P.cancel c.timeout;
              }))
      complete bytes n =
          process_login-Follows k i _
            (wanted, P.cancel_read_write c.incoming ∙ silent, P.cancel_read_read c.incoming)

  choose_server-Follows :
      (i : Instance P) (c : Connection P) (o : Option (GameServerConfig P))
      → Rests server_list c
      → Follows server_list (choose_server P i c o)
  unfolding choose_server start_connecting
  choose_server-Follows i c none r = destroy-Follows server_list i c
  choose_server-Follows i c (some g) r =
      lives connecting refl (chooses g.address)
        (refl, P.cancel_read_write c.incoming ∙ r, (λ w. P.cancel_read_read c.incoming))

  pub received_play_server-Follows :
      (i : Instance P) (c : Connection P) (o : Option (List ℕ))
      → Rests server_list c
      → Follows server_list (received_play_server P i c o)
  unfolding received_play_server
  received_play_server-Follows i c none r = destroy-Follows server_list i c
  received_play_server-Follows i c (some packet) r = search (follows, choose_server-Follows, r)
