-- ===== src/Connection.antt =====
-- One client connection: src/Connection.hxx and src/Connection.cxx. A handler takes the instance, the
-- connection and what the system calls answer, and gives an `Outcome`.
pub mod Transfer
pub mod Login
pub mod Server
pub mod Ready
pub mod Sockets
pub mod Steady
pub mod Flow
pub mod Well
pub mod Stall
pub mod Counts
pub mod Gauges
pub mod Phases
pub mod Ends
pub mod Enters
pub mod Protocol
pub mod Follows
pub mod Obeys
pub mod Sound
pub mod Answers
pub mod Gate
pub mod Targets
use uologin.Prelude.{
  ℕ, ◌+◌, ◌*◌, Bool, true, false, Option, none, some, List, [], ◌∷◌, ◌++◌, if◌then◌else◌,
}
use uologin.External.{Platform}
use uologin.Accounting.{add_connection, detach_connection, second}
use uologin.Database.{Job}
use uologin.Splice.{Splice, Put, empty, puts_at_end}
use uologin.Instance.{Instance, inc, dec}

pub data State : Type 0 where
  initial check_credentials server_list connecting send_play_server ready : State

pub record Connection (P : Platform) : Type 0 where
  pub id : ℕ
  pub remote_address : P.Address
  pub per_client : Option ℕ
  pub incoming : P.Socket
  pub outgoing : P.Socket
  pub splice_in_out : Splice
  pub splice_out_in : Splice
  pub outgoing_address : Option P.Address
  pub connect_pending : Bool
  pub timeout : P.Timer
  pub cancel_ptr : Option Job
  pub initial_packets : List ℕ
  pub initial_packets_fill : ℕ
  pub state : State
  pub play_server_wanted : Bool

-- A failed assertion, or an exception in a `noexcept` function: the process ends.
pub data Fault : Type 0 where
  assertion exception : Fault

-- What a handler does outside the program, in order.
pub data Effect (P : Platform) : Type 0 where
  to_client : List ℕ → Effect P
  to_server : List ℕ → Effect P
  shutdown_client : Effect P
  shutdown_server : Effect P
  give_back : List Put → Effect P
  start_job : Job → Effect P
  cancel_job : Job → Effect P
  start_connect : P.Address → Effect P

pub data Outcome (P : Platform) : Type 0 where
  alive : Instance P → Connection P → List (Effect P) → Outcome P
  destroyed : Instance P → List (Effect P) → Outcome P
  crashed : Fault → Outcome P

module _ {P : Platform} where
  abbrev pub emit : List (Effect P) → Outcome P → Outcome P
  emit es (alive i c es') = alive i c (es ++ es')
  emit es (destroyed i es') = destroyed i (es ++ es')
  emit es (crashed f) = crashed f

  -- An `assert`.
  abbrev pub check_that : Bool → Outcome P → Outcome P
  check_that true o = o
  check_that false o = crashed assertion

module _ (P : Platform) where
  open P use {undefined, open_socket, is_defined, schedule_read_and_hangup, idle, schedule}

  -- The constructor; `add_to_client` is `per_client->AddConnection(accounting)`.
  add_to_client : Option ℕ → ℕ → Instance P → Instance P
  add_to_client none id i = i
  add_to_client (some a) id i = record i {
    client_accounting = add_connection P a id i.client_accounting;
  }

  unfoldable pub new : ℕ → P.Address → Option ℕ → Instance P → Instance P × Connection P
  unfolding add_to_client
  new id address per_client i =
      let metrics = record i.metrics {
        client_connections = inc i.metrics.client_connections;
        client_connections_accepted = inc i.metrics.client_connections_accepted;
      } in
      (
        add_to_client per_client id (record i { metrics = metrics }),
        record {
          id = id;
          remote_address = address;
          per_client = per_client;
          incoming = schedule_read_and_hangup (open_socket undefined);
          outgoing = undefined;
          splice_in_out = empty;
          splice_out_in = empty;
          outgoing_address = none;
          connect_pending = false;
          timeout = schedule (5 * second) idle;
          cancel_ptr = none;
          initial_packets = [];
          initial_packets_fill = 0;
          state = initial;
          play_server_wanted = false;
        },
      )

  cancel_effects : Option Job → List (Effect P)
  cancel_effects none = []
  cancel_effects (some j) = cancel_job j ∷ []

  -- `delete this`: the destructor, and those of the members.
  unfoldable pub destroy : Instance P → Connection P → Outcome P
  unfolding cancel_effects
  destroy i c =
      let servers =
        if is_defined c.outgoing
        then dec i.metrics.server_connections
        else i.metrics.server_connections in
      let metrics = record i.metrics {
        server_connections = servers;
        client_connections = dec i.metrics.client_connections;
      } in
      let accounting = detach_connection P i.now c.per_client c.id i.client_accounting in
      destroyed (record i { metrics = metrics; client_accounting = accounting })
        (cancel_effects c.cancel_ptr
          ++ give_back (puts_at_end c.splice_out_in ++ puts_at_end c.splice_in_out) ∷ [])
