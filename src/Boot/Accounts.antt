-- ===== src/Boot/Accounts.antt =====
-- The accounting of a server that starts.
use uologin.Prelude.{◌≡◌, refl, inr, some, [], arith}
use uologin.External.{Platform}
use uologin.Accounting.{find}
use uologin.Config.{Config}
use uologin.Boot.{BootCalls, Started, run}
use uologin.Server.Attached.{IsAttached}

module _ (P : Platform) where
  -- The limit that the constructor of `Instance` gives.
  pub run-IsAttached :
      (c : Config P) (k : BootCalls) (s : Started P) → run P c k ≡ some s → IsAttached P 16 s.server
  unfolding run find
  run-IsAttached c k s h =
      let no_clients : s.server.instance_.client_accounting.clients ≡ [] = ground arith in
      let no_connections : s.server.connections ≡ [] = ground arith in
      let no_delayed : s.server.delayed_connections ≡ [] = ground arith in
      record {
        limit = ground arith;
        distinct = rw no_clients tt;
        attached = λ a b. rw (no_clients, no_connections, no_delayed) refl;
        limited = λ a. rw no_clients (inr (omega arith));
      }
