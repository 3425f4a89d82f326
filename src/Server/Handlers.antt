-- ===== src/Server/Handlers.antt =====
-- What an event does to the gauges of src/Instance.hxx.
use uologin.Prelude.{ℕ, ◌≡◌, refl, Bool, false, Option, none, some, List, arith}
use uologin.External.{Platform}
use uologin.Instance.{Instance, inc}
use uologin.Connection.{Connection, Outcome, new}
use uologin.Connection.Counts.{Counts, IsUnopened}
use uologin.Connection.Gauges.{
  on_incoming_ready-Counts, on_outgoing_ready-Counts, on_check_credentials-Counts,
  on_socket_connect_success-Counts, on_socket_connect_error-Counts, on_timeout-Counts,
}
use uologin.Listener.{
  Accepted, DelayedConnection, dropped, delayed, connected, on_accept, on_timer, on_socket_ready,
}
use uologin.Knock.{Request, on_udp_datagram}
use uologin.Knock
use uologin.Database.{Files}
use uologin.Server.{
  Handles, incoming_ready, outgoing_ready, credentials_checked, connect_success, connect_error,
  timeout, Changes, after_knock, datagram, knock_answered, cleaned, time_passed,
}

module _ (P : Platform) where
  open P use {is_defined}

  pub Handles-Counts :
      {i : Instance P} {c : Connection P} {o : Outcome P}
      → IsUnopened P c
      → Handles P i c o
      → Counts P i c o
  Handles-Counts {i} {c} u (incoming_ready ev l k) = on_incoming_ready-Counts P ev l k i c
  Handles-Counts {i} {c} u (outgoing_ready ev s k) = on_outgoing_ready-Counts P ev s k i c
  Handles-Counts {i} {c} u (credentials_checked result send_ok) =
      on_check_credentials-Counts P result send_ok i c
  Handles-Counts {i} {c} u (connect_success sent) = on_socket_connect_success-Counts P sent i c u
  Handles-Counts {i} {c} u connect_error = on_socket_connect_error-Counts P i c
  Handles-Counts {i} {c} u timeout = on_timeout-Counts P i c

  pub record Same (i j : Instance P) : Type 0 where
    pub clients : j.metrics.client_connections ≡ i.metrics.client_connections
    pub servers : j.metrics.server_connections ≡ i.metrics.server_connections

  -- A new connection is counted, and has no socket to a server.
  pub record Adds (i j : Instance P) (c : Connection P) : Type 0 where
    pub clients : j.metrics.client_connections ≡ inc i.metrics.client_connections
    pub servers : j.metrics.server_connections ≡ i.metrics.server_connections
    pub unopened : is_defined c.outgoing ≡ false

  abbrev pub Admits : Instance P → Accepted P → Type 0
  Admits i (dropped j) = Same i j
  Admits i (delayed j d) = Same i j
  Admits i (connected j c) = Adds i j c

  pub on_accept-Admits : (id : ℕ) (a : P.Address) (i : Instance P) → Admits i (on_accept P id a i)
  unfolding on_accept new
  on_accept-Admits id a i = ground (arith, P.undefined_lem)

  pub on_timer-Adds :
      (id : ℕ) (d : DelayedConnection P) (i : Instance P)
      → Adds i (on_timer P id d i).0 (on_timer P id d i).1
  unfolding on_timer new
  on_timer-Adds id d i = ground (arith, P.undefined_lem)

  pub on_socket_ready-Same :
      (d : DelayedConnection P) (i : Instance P) → Same i (on_socket_ready P d i)
  unfolding on_socket_ready
  on_socket_ready-Same d i = record { clients = refl; servers = refl }

  abbrev pub Keeps : Instance P → Option (Instance P) → Type 0
  Keeps i none = Unit {0}
  Keeps i (some j) = Same i j

  on_udp_datagram-Keeps :
      (w : Files) (set : Option (List ℕ)) (payload : List ℕ) (a : P.Address) (i : Instance P)
      → Keeps i (after_knock P (on_udp_datagram P w set payload a i))
  unfolding on_udp_datagram
  on_udp_datagram-Keeps w set payload a i = ground arith

  on_check_credentials-Keeps :
      (r : Request P) (result : Bool) (i : Instance P)
      → Keeps i (after_knock P (Knock.on_check_credentials P r result i))
  unfolding Knock.on_check_credentials
  on_check_credentials-Keeps r result i = ground arith

  Same-of-Keeps : {i j : Instance P} (o : Option (Instance P)) → Keeps i o → o ≡ some j → Same i j
  Same-of-Keeps none k e = cc
  Same-of-Keeps (some j) k e = ground (arith, k.clients, k.servers)

  pub Changes-Same : {i j : Instance P} → Changes P i j → Same i j
  Changes-Same {i} (datagram j w set payload a e) =
      Same-of-Keeps _ (on_udp_datagram-Keeps w set payload a i) e
  Changes-Same {i} (knock_answered j r result e) =
      Same-of-Keeps _ (on_check_credentials-Keeps r result i) e
  Changes-Same cleaned = record { clients = refl; servers = refl }
  Changes-Same (time_passed now) = record { clients = refl; servers = refl }
