-- ===== src/Connection/Well.antt =====
-- The state of a connection in each of the six states, and outcomes that keep it.
pub mod Logins
use uologin.Prelude.{
  ℕ, ◌+◌, ◌-◌, ◌%◌, ◌≤◌, ◌≡◌, ◌∙◌, refl, ap, sym, not, ◌&&◌, arith, length-take, Bool, true, false,
  Option, none, some, List, [], ◌∷◌, length, if◌then◌else◌, ltb,
}
use uologin.Accounting.{is_empty}
use uologin.External.{Platform}
use uologin.Config.{GameServerConfig}
use uologin.Database.{Check, check_thrown, accepted_now, queued}
use uologin.Splice.{empty}
use uologin.Wire.{sizeof_initial_packets}
use uologin.Instance.{Instance}
use uologin.Connection.{
  State, Fault, initial, check_credentials, server_list, connecting, send_play_server, ready,
  Connection, Effect, start_connect, Outcome, alive, destroyed, crashed, emit, check_that, destroy,
}
use uologin.Connection.Steady.{Steady}
use uologin.Connection.Ready.{client_side}
use uologin.Connection.Login.{
  LoginCalls, is_check_credentials, is_complete, read_no_wait, reject, start_connecting,
  send_server_list, accept_login, on_check_credentials, after_check, process_login, append_received,
  received_login, choose_server, received_play_server,
}

module _ (P : Platform) (B : Type 0) where
  open P use {is_defined, is_pending, write_pending}

  -- Nothing was forwarded yet, and there is no socket to a server.
  abbrev pub Before : Connection P → Type 0
  Before c = (c.splice_in_out ≡ empty) × (c.splice_out_in ≡ empty) × (is_defined c.outgoing ≡ false)

  -- The login packets are complete.
  abbrev pub IsFull : Connection P → Type 0
  IsFull c = c.initial_packets_fill ≡ sizeof_initial_packets

  abbrev pub IsOpen : Connection P → Type 0
  IsOpen c = is_defined c.incoming ≡ true

  -- `B` is whether a list of servers is configured.
  abbrev pub Well : State → Connection P → Type 0
  Well initial c =
      Before c
      × (c.connect_pending ≡ false)
      × (c.cancel_ptr ≡ none)
      × (is_pending c.timeout ≡ true)
      × (ltb c.initial_packets_fill sizeof_initial_packets ≡ true)
      × IsOpen c
  Well check_credentials c =
      Before c × (c.connect_pending ≡ false) × (is_pending c.timeout ≡ false) × IsFull c × IsOpen c
  Well server_list c =
      Before c
      × (c.connect_pending ≡ false)
      × (c.cancel_ptr ≡ none)
      × (is_pending c.timeout ≡ true)
      × IsFull c
      × IsOpen c
      × B
  Well connecting c =
      Before c
      × (c.cancel_ptr ≡ none)
      × (is_pending c.timeout ≡ false)
      × (B → c.play_server_wanted ≡ true)
      × IsFull c
      × IsOpen c
  Well send_play_server c =
      (c.splice_in_out ≡ empty)
      × (c.splice_out_in ≡ empty)
      × (write_pending c.outgoing ≡ false)
      × (c.connect_pending ≡ false)
      × (c.cancel_ptr ≡ none)
      × (is_pending c.timeout ≡ false)
      × IsOpen c
  Well ready c =
      Steady P (client_side P c)
      × (c.connect_pending ≡ false)
      × (c.cancel_ptr ≡ none)
      × (is_pending c.timeout ≡ false)
      × IsOpen c

  abbrev pub IsListed : Instance P → Type 0
  IsListed i =
      (B → is_empty i.config.server_list ≡ false) × (is_empty i.config.server_list ≡ false → B)

  module _ (F : Fault → Type 0) where
    -- An outcome that keeps the connection well, or a fault that `F` allows.
    pub data Stays : Outcome P → Type 0 where
      lives :
          {j : Instance P} {d : Connection P} {es : List (Effect P)} (t : State)
          → d.state ≡ t
          → Well t d
          → Stays (alive j d es)
      dies : {j : Instance P} {es : List (Effect P)} → Stays (destroyed j es)
      fails : {f : Fault} → F f → Stays (crashed f)

    pub emit-Stays : (es : List (Effect P)) (o : Outcome P) → Stays o → Stays (emit es o)
    emit-Stays es (alive j d fs) (lives t e w) = lives t e w
    emit-Stays es (destroyed j fs) dies = dies
    emit-Stays es (crashed f) (fails x) = fails x

    pub destroy-Stays : (i : Instance P) (c : Connection P) → Stays (destroy P i c)
    unfolding destroy
    destroy-Stays i c = dies

    pub branch-Stays :
        (b : Bool) (o o' : Outcome P) → Stays o → Stays o' → Stays (if b then o else o')
    branch-Stays true o o' h h' = h
    branch-Stays false o o' h h' = h'

    pub tested-Stays :
        (b : Bool) (o o' : Outcome P)
        → (b ≡ true → Stays o)
        → (b ≡ false → Stays o')
        → Stays (if b then o else o')
    tested-Stays true o o' h h' = h refl
    tested-Stays false o o' h h' = h' refl

    -- An assertion that holds.
    pub passed : (b : Bool) (o : Outcome P) → b ≡ true → Stays o → Stays (check_that b o)
    passed true o e h = h
    passed false o e h = cc
