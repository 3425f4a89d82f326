-- ===== src/Server.antt =====
-- The whole server: the instance of src/Instance.cxx with the connections of its listener, and the
-- events that the event loop delivers, in any order.
pub mod Handlers
pub mod Gauges
pub mod Attached
pub mod Effects
pub mod Pointers
pub mod Promises
pub mod Life
pub mod Served
pub mod Targets
pub mod Safe
pub mod Relay
pub mod Stream
use uologin.Prelude.{ℕ, ◌≡◌, Bool, List, [], ◌∷◌, ◌++◌, Option, none, some}
use uologin.External.{Platform}
use uologin.Database.{Files}
use uologin.Accounting.{on_cleanup_timer}
use uologin.Instance.{Instance}
use uologin.Connection.{Connection, Effect, Outcome, alive, destroyed}
use uologin.Connection.Login.{LoginCalls, on_check_credentials}
use uologin.Connection.Server.{ServerCalls, on_socket_connect_success, on_socket_connect_error}
use uologin.Connection.Transfer.{Ready, Calls}
use uologin.Connection.Ready.{on_incoming_ready, on_outgoing_ready, on_timeout}
use uologin.Listener.{
  DelayedConnection, dropped, delayed, connected, on_accept, on_timer, on_socket_ready,
}
use uologin.Knock.{
  Request, Knocked, ignored, pending, answered, leaked, terminated, on_udp_datagram,
}
use uologin.Knock

pub record Server (P : Platform) : Type 0 where
  pub instance_ : Instance P
  pub connections : List (Connection P)
  pub delayed_connections : List (DelayedConnection P)

module _ (P : Platform) where
  -- What a handler of a connection may do.
  pub data Handles (i : Instance P) (c : Connection P) : Outcome P → Type 0 where
    incoming_ready :
        (ev : Ready) (l : LoginCalls) (k : Calls) → Handles i c (on_incoming_ready P ev l k i c)
    outgoing_ready :
        (ev : Ready) (s : ServerCalls) (k : Calls) → Handles i c (on_outgoing_ready P ev s k i c)
    credentials_checked :
        (result send_ok : Bool) → Handles i c (on_check_credentials P result send_ok i c)
    connect_success : (sent : Bool) → Handles i c (on_socket_connect_success P sent i c)
    connect_error : Handles i c (on_socket_connect_error P i c)
    timeout : Handles i c (on_timeout P i c)

  abbrev pub after_knock : Knocked P → Option (Instance P)
  after_knock (ignored i) = some i
  after_knock (pending i r j) = some i
  after_knock (answered i e) = some i
  after_knock (leaked i) = some i
  after_knock terminated = none

  -- An event that only changes the instance: a datagram, the answer to a knock, the cleanup timer, a
  -- client that leaves the tarpit, or the passing of time.
  pub data Changes (i : Instance P) : Instance P → Type 0 where
    datagram :
        (j : Instance P) (w : Files) (set : Option (List ℕ)) (payload : List ℕ) (a : P.Address)
        → after_knock (on_udp_datagram P w set payload a i) ≡ some j
        → Changes i j
    knock_answered :
        (j : Instance P) (r : Request P) (result : Bool)
        → after_knock (Knock.on_check_credentials P r result i) ≡ some j
        → Changes i j
    cleaned :
        Changes i (record i { client_accounting = on_cleanup_timer P i.now i.client_accounting })
    time_passed : (now : ℕ) → Changes i (record i { now = now })

  pub data Step : Server P → Server P → Type 0 where
    accepted_dropped :
        {i : Instance P} {cs : List (Connection P)} {ds : List (DelayedConnection P)} (id : ℕ)
        (a : P.Address) (j : Instance P)
        → on_accept P id a i ≡ dropped j
        → Step
            (record { instance_ = i; connections = cs; delayed_connections = ds })
            (record { instance_ = j; connections = cs; delayed_connections = ds })
    accepted_delayed :
        {i : Instance P} {cs : List (Connection P)} {ds : List (DelayedConnection P)} (id : ℕ)
        (a : P.Address) (j : Instance P) (d : DelayedConnection P)
        → on_accept P id a i ≡ delayed j d
        → Step
            (record { instance_ = i; connections = cs; delayed_connections = ds })
            (record { instance_ = j; connections = cs; delayed_connections = ds ++ d ∷ [] })
    accepted :
        {i : Instance P} {cs : List (Connection P)} {ds : List (DelayedConnection P)} (id : ℕ)
        (a : P.Address) (j : Instance P) (c : Connection P)
        → on_accept P id a i ≡ connected j c
        → Step
            (record { instance_ = i; connections = cs; delayed_connections = ds })
            (record { instance_ = j; connections = c ∷ cs; delayed_connections = ds })
    delay_over :
        {i : Instance P} {cs : List (Connection P)} (before after : List (DelayedConnection P))
        (d : DelayedConnection P) (id : ℕ)
        → Step
            (record { instance_ = i; connections = cs; delayed_connections = before ++ d ∷ after })
            (record {
              instance_ = (on_timer P id d i).0;
              connections = (on_timer P id d i).1 ∷ cs;
              delayed_connections = before ++ after;
            })
    delayed_left :
        {i : Instance P} {cs : List (Connection P)} (before after : List (DelayedConnection P))
        (d : DelayedConnection P)
        → Step
            (record { instance_ = i; connections = cs; delayed_connections = before ++ d ∷ after })
            (record {
              instance_ = on_socket_ready P d i;
              connections = cs;
              delayed_connections = before ++ after;
            })
    kept :
        {i : Instance P} {ds : List (DelayedConnection P)} (before after : List (Connection P))
        (c d : Connection P) (j : Instance P) (es : List (Effect P))
        → Handles i c (alive j d es)
        → Step
            (record { instance_ = i; connections = before ++ c ∷ after; delayed_connections = ds })
            (record { instance_ = j; connections = before ++ d ∷ after; delayed_connections = ds })
    closed :
        {i : Instance P} {ds : List (DelayedConnection P)} (before after : List (Connection P))
        (c : Connection P) (j : Instance P) (es : List (Effect P))
        → Handles i c (destroyed j es)
        → Step
            (record { instance_ = i; connections = before ++ c ∷ after; delayed_connections = ds })
            (record { instance_ = j; connections = before ++ after; delayed_connections = ds })
    changed :
        {i : Instance P} {cs : List (Connection P)} {ds : List (DelayedConnection P)}
        (j : Instance P)
        → Changes i j
        → Step
            (record { instance_ = i; connections = cs; delayed_connections = ds })
            (record { instance_ = j; connections = cs; delayed_connections = ds })

  pub data Run (s : Server P) : Server P → Type 0 where
    here : Run s s
    next : {t u : Server P} → Run s t → Step t u → Run s u
