-- ===== src/Listener/Joins.antt =====
-- What the listener does to the accounting of its clients.
use uologin.Prelude.{
  ℕ, ◌≡◌, ◌<◌, ◌⊎◌, refl, Bool, true, false, not, ◌&&◌, Option, none, some, arith, length,
  if◌then◌else◌, ltb,
}
use native.Mathlib.Decide.{ℕ_discrete}
use uologin.External.{Platform}
use uologin.Accounting.{
  PerClient, AccountingMap, find, get, to_integer, account, check, add_connection,
}
use uologin.Accounting.Clients.{Distinct, check_cases, find-account}
use uologin.Accounting.Keys.{or_new, get_lem, get_null}
use uologin.Accounting.Ids.{
  ids, Leaves, Leaves-trans, account-Leaves, get-Leaves, Attaches, Detaches,
  add_connection-Attaches, detach_connection-Detaches, Detaches-after, Attaches-after,
}
use uologin.Instance.{Instance, inc}
use uologin.Connection.{Connection, new}
use uologin.Listener.{
  DelayedConnection, Accepted, dropped, delayed, connected, on_accept, admit, admit_client,
  new_delayed, add_client, on_socket_ready, destroy_delayed,
}

module _ (P : Platform) where
  -- The client can have one connection more.
  abbrev pub Room : Option ℕ → AccountingMap P → Type 0
  Room none m = Unit {0}
  Room (some a) m = (m.max_connections ≡ 0) ⊎ (length (ids P a m) < m.max_connections)

  module _ (n : ℕ) (m : AccountingMap P) where
    pub data Joins : Accepted P → Type 0 where
      is_dropped : {j : Instance P} → Leaves P m j.client_accounting → Joins (dropped j)
      is_delayed :
          {j : Instance P} {d : DelayedConnection P}
          → Attaches P d.per_client n m j.client_accounting
          → d.id ≡ n
          → Room d.per_client m
          → Joins (delayed j d)
      is_connected :
          {j : Instance P} {c : Connection P}
          → Attaches P c.per_client n m j.client_accounting
          → c.id ≡ n
          → Room c.per_client m
          → Joins (connected j c)

    branch-Joins : (b : Bool) (o o' : Accepted P) → Joins o → Joins o' → Joins (if b then o else o')
    branch-Joins true o o' h h' = h
    branch-Joins false o o' h h' = h'

    checked-Joins :
        (b : Bool) (o o' : Accepted P)
        → (b ≡ true → Joins o)
        → Joins o'
        → Joins (if b then o else o')
    checked-Joins true o o' f h = f refl
    checked-Joins false o o' f h = h

    add_client-Joins :
        (a : P.Address) (x : ℕ) (i : Instance P)
        → Attaches P (some x) n m (add_connection P x n i.client_accounting)
        → Room (some x) m
        → Joins (add_client P n a (some x) i)
    unfolding add_client new
    add_client-Joins a x i t r = is_connected t refl r

    new_delayed-Joins :
        (a : P.Address) (x delay : ℕ) (i : Instance P)
        → Attaches P (some x) n m (add_connection P x n i.client_accounting)
        → Room (some x) m
        → Joins (let (j, d) = new_delayed P n a x delay i in delayed j d)
    unfolding new_delayed
    new_delayed-Joins a x delay i t r = is_delayed t refl r

    room :
        (x : ℕ) (k : AccountingMap P) (c : PerClient P)
        → Leaves P m k
        → find P x k.clients ≡ some c
        → check P k.max_connections c ≡ true
        → Room (some x) m
    room x k c l f e =
        let same : ids P x k ≡ c.connections = rw f in
        ground (arith, check_cases P k.max_connections c, l.same_limit, l.same_ids x, same)

    admit-Joins :
        (a : P.Address) (x : ℕ) (i : Instance P) (c : PerClient P)
        → Leaves P m i.client_accounting
        → find P x i.client_accounting.clients ≡ some c
        → Joins (admit P n a x i c)
    unfolding admit
    admit-Joins a x i c l f =
        let t =
          Attaches-after P (some x) n m i.client_accounting _ l
            (add_connection-Attaches P x n i.client_accounting c l.distinct f) in
        branch-Joins (i.require_knock && not c.knocked) _ _ (is_dropped l) (roomy t)
      where
        Roomy : Type 0
        Roomy = Joins (
            if check P i.client_accounting.max_connections c
            then (if ltb 0 c.delay
                then (let i' = record i {
                  metrics = record i.metrics {
                    delayed_connections = inc i.metrics.delayed_connections;
                  };
                } in
                    let (i'', d) = new_delayed P n a x c.delay i' in delayed i'' d)
                else add_client P n a (some x) i)
            else dropped i)

        roomy : Attaches P (some x) n m (add_connection P x n i.client_accounting) → Roomy
        roomy t =
            checked-Joins (check P i.client_accounting.max_connections c) _ _
              (λ e.
                let r = room x i.client_accounting c l f e in
                branch-Joins (ltb 0 c.delay) _ _
                  (new_delayed-Joins a x c.delay
                    (record i {
                      metrics = record i.metrics {
                        delayed_connections = inc i.metrics.delayed_connections;
                      };
                    })
                    t r)
                  (add_client-Joins a x i t r))
              (is_dropped l)

  -- A client without accounting joins nothing; any other one joins its own client.
  pub on_accept-Joins :
      (n : ℕ) (a : P.Address) (i : Instance P)
      → Distinct P i.client_accounting.clients
      → Joins n i.client_accounting (on_accept P n a i)
  unfolding on_accept admit_client add_client new
  on_accept-Joins n a i d = elim (ℕ_discrete (to_integer P a) 0) [
    | yes z ↦
        rw (get_null P a i.client_accounting z)
          (is_connected (record { same_ids = λ b. refl; same_limit = refl; distinct = d }) refl tt)
    | no z ↦
        let x = to_integer P a in
        let m = (get P a i.client_accounting).0 in
        let (e, f, _, _) = get_lem P a i.client_accounting z in
        let l = get-Leaves P a i.client_accounting d in
        let found =
          find-account P i.now 1 x m (or_new P x (find P x i.client_accounting.clients)) f in
        rw (e, found)
          (admit-Joins n i.client_accounting a x
            (record i { client_accounting = account P i.now 1 (some x) m }) _
            (Leaves-trans P i.client_accounting m _ l
              (account-Leaves P i.now 1 (some x) m l.distinct))
            found)
  ]

  -- A client that leaves the tarpit, by itself or to be connected.
  pub on_socket_ready-Detaches :
      (d : DelayedConnection P) (i : Instance P)
      → Distinct P i.client_accounting.clients
      → Detaches P d.per_client d.id i.client_accounting (on_socket_ready P d i).client_accounting
  unfolding on_socket_ready destroy_delayed
  on_socket_ready-Detaches d i distinct =
      let l = account-Leaves P i.now 4 d.per_client i.client_accounting distinct in
      Detaches-after P d.per_client d.id i.client_accounting _ _ l
        (detach_connection-Detaches P i.now d.per_client d.id _ l.distinct)
