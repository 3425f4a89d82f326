-- ===== src/Boot/Shutdown.antt =====
-- The start and the end of a server.
use uologin.Prelude.{◌≡◌, false, some, List, [], ◌∷◌, arith}
use uologin.External.{Platform}
use uologin.Config.{Config}
use uologin.Instance.{Instance}
use uologin.Connection.{Connection, destroy}
use uologin.Connection.Counts.{destroy-Counts}
use uologin.Listener.{DelayedConnection, destroy_delayed}
use uologin.Server.{Server}
use uologin.Server.Gauges.{IsCounted, closed-IsCounted}
use uologin.Boot.{BootCalls, Started, run, dispose, dispose_delayed, disposed, on_shutdown}

module _ (P : Platform) where
  -- A server that starts has its gauges right.
  pub run-IsCounted :
      (c : Config P) (k : BootCalls) (s : Started P) → run P c k ≡ some s → IsCounted P s.server
  unfolding run
  run-IsCounted c k s h =
      let none_yet : s.server.connections ≡ [] = ground arith in
      record { clients = ground arith; servers = ground arith; unopened = rw none_yet tt }

  dispose_delayed-IsCounted :
      (cs : List (Connection P)) (ds : List (DelayedConnection P)) (i : Instance P)
      → IsCounted P (record { instance_ = i; connections = cs; delayed_connections = [] })
      → IsCounted P (record {
        instance_ = dispose_delayed P ds i;
        connections = cs;
        delayed_connections = [];
      })
  unfolding dispose_delayed destroy_delayed
  dispose_delayed-IsCounted cs [] i v = v
  dispose_delayed-IsCounted cs (d ∷ ds) i v =
      dispose_delayed-IsCounted cs ds (destroy_delayed P d i)
        (record { clients = v.clients; servers = v.servers; unopened = v.unopened })

  dispose-IsCounted :
      (cs : List (Connection P)) (i : Instance P)
      → IsCounted P (record { instance_ = i; connections = cs; delayed_connections = [] })
      → IsCounted P
          (record { instance_ = (dispose P cs i).0; connections = []; delayed_connections = [] })
  unfolding dispose destroy
  dispose-IsCounted [] i v = v
  dispose-IsCounted (c ∷ cs) i v =
      dispose-IsCounted cs (disposed P i (destroy P i c)).0 (
        closed-IsCounted P i _ [] cs c [] v (disposed P i (destroy P i c)).1 (destroy-Counts P i c))

  -- After the shutdown both gauges are 0, as the destructor of `Instance` asserts, and no cleanup is
  -- scheduled any more, so that the event loop can end.
  pub on_shutdown_lem :
      (s : Server P)
      → IsCounted P s
      → let i = (on_shutdown P s).0.instance_ in
        (i.metrics.client_connections ≡ 0)
        × (i.metrics.server_connections ≡ 0)
        × (P.is_pending i.client_accounting.cleanup_timer ≡ false)
  unfolding on_shutdown
  on_shutdown_lem s v =
      let i = record s.instance_ { require_knock = false } in
      let w = dispose-IsCounted s.connections (dispose_delayed P s.delayed_connections i) (
        dispose_delayed-IsCounted s.connections s.delayed_connections i
          (record { clients = v.clients; servers = v.servers; unopened = v.unopened })) in
      (w.clients, w.servers, P.cancel_lem _)
