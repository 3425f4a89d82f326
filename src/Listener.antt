-- ===== src/Listener.antt =====
-- Accepting a client: src/Listener.cxx and src/DelayedConnection.cxx. The number of a new object is
-- an argument.
pub mod Admission
pub mod Joins
use uologin.Prelude.{
  ℕ, Bool, true, false, not, ◌&&◌, Option, none, some, List, [], ◌∷◌, if◌then◌else◌, ltb,
}
use uologin.External.{Platform}
use uologin.Accounting.{PerClient, find, get, check, add_connection, detach_connection}
use uologin.Instance.{Instance, inc, charge}
use uologin.Connection.{Connection, new}

pub record DelayedConnection (P : Platform) : Type 0 where
  pub id : ℕ
  pub peer_address : P.Address
  pub per_client : Option ℕ
  pub timer : P.Timer
  pub socket : P.Socket

pub data Accepted (P : Platform) : Type 0 where
  dropped : Instance P → Accepted P
  delayed : Instance P → DelayedConnection P → Accepted P
  connected : Instance P → Connection P → Accepted P

module _ (P : Platform) where
  open P use {schedule, idle, open_socket, undefined}

  -- The constructor of `DelayedConnection`. It schedules READ_HANGUP alone.
  unfoldable new_delayed : ℕ → P.Address → ℕ → ℕ → Instance P → Instance P × DelayedConnection P
  new_delayed id address a delay i = (
    record i { client_accounting = add_connection P a id i.client_accounting },
    record {
      id = id;
      peer_address = address;
      per_client = some a;
      timer = schedule delay idle;
      socket = open_socket undefined;
    },
  )

  -- `Listener::AddConnection`.
  unfoldable pub add_client : ℕ → P.Address → Option ℕ → Instance P → Accepted P
  add_client id address per_client i = let (i', c) = new P id address per_client i in connected i' c

  -- The rest of `OnAccept` for a client with accounting.
  unfoldable pub admit : ℕ → P.Address → ℕ → Instance P → PerClient P → Accepted P
  unfolding new_delayed add_client
  admit id address a i c =
      if i.require_knock && not c.knocked
      then dropped (record i {
        metrics = record i.metrics { missing_knocks = inc i.metrics.missing_knocks };
      })
      else if check P i.client_accounting.max_connections c
      then (if ltb 0 c.delay
          then (let i' = record i {
            metrics = record i.metrics { delayed_connections = inc i.metrics.delayed_connections };
          } in
              let (i'', d) = new_delayed id address a c.delay i' in delayed i'' d)
          else add_client id address (some a) i)
      else dropped i

  -- The pointer that `Get` returned is followed.
  admit_found : ℕ → P.Address → ℕ → Instance P → Option (PerClient P) → Accepted P
  unfolding admit
  admit_found id address a i none = dropped i
  admit_found id address a i (some c) = admit id address a i c

  unfoldable admit_client : ℕ → P.Address → Instance P → Option ℕ → Accepted P
  unfolding admit_found add_client
  admit_client id address i none = add_client id address none i
  admit_client id address i (some a) =
      let i' = charge 1 (some a) i in
      admit_found id address a i' (find P a i'.client_accounting.clients)

  unfoldable pub on_accept : ℕ → P.Address → Instance P → Accepted P
  unfolding admit_client
  on_accept id address i =
      let (m, per_client) = get P address i.client_accounting in
      admit_client id address (record i { client_accounting = m }) per_client

  -- `DelayedConnection`: `Destroy()`, `OnTimer` with the number of the new connection, and
  -- `OnSocketReady`.
  unfoldable pub destroy_delayed : DelayedConnection P → Instance P → Instance P
  destroy_delayed d i = record i {
    client_accounting = detach_connection P i.now d.per_client d.id i.client_accounting;
  }

  unfoldable pub on_timer : ℕ → DelayedConnection P → Instance P → Instance P × Connection P
  unfolding destroy_delayed
  on_timer id d i =
      let (i', c) = new P id d.peer_address d.per_client i in (destroy_delayed d i', c)

  unfoldable pub on_socket_ready : DelayedConnection P → Instance P → Instance P
  unfolding destroy_delayed
  on_socket_ready d i = destroy_delayed d (charge 4 d.per_client i)
