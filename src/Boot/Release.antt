-- ===== src/Boot/Release.antt =====
-- What is left after the shutdown of a server that has run.
use uologin.Prelude.{ℕ, ◌≡◌, refl, true, false, some, List, [], ◌∷◌, count, arith}
use uologin.External.{Platform}
use uologin.Accounting.Ids.{ids, Leaves-refl, detach_connection-Detaches}
use uologin.Config.{Config}
use uologin.Instance.{Instance}
use uologin.Connection.{Connection, destroy}
use uologin.Connection.Ends.{destroy-Ends}
use uologin.Listener.{DelayedConnection, destroy_delayed}
use uologin.Server.{Server, Run}
use uologin.Server.Attached.{Valid, Valid-detach, pointers}
use uologin.Server.Gauges.{Run-IsCounted}
use uologin.Server.Pointers.{closed-Valid}
use uologin.Server.Promises.{Run-IsAttached}
use uologin.Boot.{
  BootCalls, Started, run, dispose, dispose_delayed, disposed, destruct_instance, on_shutdown,
}
use uologin.Boot.Accounts.{run-IsAttached}
use uologin.Boot.Shutdown.{run-IsCounted, on_shutdown_lem}

module _ (P : Platform) where
  dispose_delayed-Valid :
      (z : ℕ) (cs : List (Connection P)) (ds : List (DelayedConnection P)) (i : Instance P)
      → Valid P z i.client_accounting (pointers P cs ds)
      → Valid P z (dispose_delayed P ds i).client_accounting (pointers P cs [])
  unfolding dispose_delayed destroy_delayed
  dispose_delayed-Valid z cs [] i v = v
  dispose_delayed-Valid z cs (d ∷ ds) i v = dispose_delayed-Valid z cs ds (destroy_delayed P d i) (
      Valid-detach P z _ _ _ _ v d.per_client d.id
        (detach_connection-Detaches P i.now d.per_client d.id i.client_accounting v.distinct)
        (λ a b. omega arith))

  dispose-Valid :
      (z : ℕ) (cs : List (Connection P)) (i : Instance P)
      → Valid P z i.client_accounting (pointers P cs [])
      → Valid P z (dispose P cs i).0.client_accounting (pointers P [] [])
  unfolding dispose destroy
  dispose-Valid z [] i v = v
  dispose-Valid z (c ∷ cs) i v = dispose-Valid z cs (disposed P i (destroy P i c)).0 (
      closed-Valid P z i [] cs c [] v (
        destroy-Ends P i.client_accounting c.per_client c.id i c
          (Leaves-refl P i.client_accounting v.distinct, refl, refl)))

  none_counted : (l : List ℕ) → ((b : ℕ) → count b l ≡ 0) → l ≡ []
  none_counted [] h = refl
  none_counted (x ∷ l) h = absurd (ground (arith, h x))

  asserts :
      (i : Instance P)
      → i.metrics.client_connections ≡ 0
      → i.metrics.server_connections ≡ 0
      → destruct_instance P i ≡ true
  unfolding destruct_instance
  asserts i e f = rw (e, f) refl

  -- After the shutdown of a server that `run` has started, whatever has happened before: both gauges
  -- are 0, the cleanup timer is not pending, no client has a connection left in its list, and the
  -- assertions of the destructor of `Instance` hold.
  pub Run-on_shutdown :
      (c : Config P) (k : BootCalls) (s : Started P) (t : Server P)
      → run P c k ≡ some s
      → Run P s.server t
      → let i = (on_shutdown P t).0.instance_ in
        (i.metrics.client_connections ≡ 0)
        × (i.metrics.server_connections ≡ 0)
        × (P.is_pending i.client_accounting.cleanup_timer ≡ false)
        × ((a : ℕ) → ids P a i.client_accounting ≡ [])
        × (destruct_instance P i ≡ true)
  unfolding on_shutdown
  Run-on_shutdown c k s t h r =
      let (clients, servers, timer) =
        on_shutdown_lem P t (Run-IsCounted P (run-IsCounted P c k s h) r) in
      let v = Run-IsAttached P (run-IsAttached P c k s h) r in
      let i = record t.instance_ { require_knock = false } in
      let w =
        dispose-Valid 16 t.connections (dispose_delayed P t.delayed_connections i)
          (dispose_delayed-Valid 16 t.connections t.delayed_connections i v) in
      (
        clients,
        servers,
        timer,
        (λ a. none_counted _ (w.attached a)),
        asserts (on_shutdown P t).0.instance_ clients servers,
      )
