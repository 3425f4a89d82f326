-- ===== src/Server/Pointers.antt =====
-- Every event keeps the pointers to the clients' accounting valid.
use uologin.Prelude.{
  count, ℕ, ◌+◌, ◌≡◌, ◌<◌, ap, refl, subst, Option, none, some, List, [], ◌∷◌, ◌++◌, arith,
}
use uologin.External.{Platform}
use uologin.Accounting.{AccountingMap, PerClient, find, add_connection}
use uologin.Accounting.Ids.{
  ids, ids_of, Leaves-refl, add_connection-Attaches, detach_connection-Detaches,
}
use uologin.Instance.{Instance}
use uologin.Connection.{Connection, alive, destroyed, Effect, new}
use uologin.Connection.Ends.{Ends, Fits, goes_on, leaves}
use uologin.Listener.{
  DelayedConnection, dropped, delayed, connected, on_accept, on_timer, destroy_delayed,
  on_socket_ready,
}
use uologin.Listener.Joins.{
  Joins, is_dropped, is_delayed, is_connected, on_accept-Joins, on_socket_ready-Detaches,
}
use uologin.Server.{
  Server, Step, accepted_dropped, accepted_delayed, accepted, delay_over, delayed_left, kept,
  closed, changed,
}
use uologin.Server.Effects.{Handles-Ends, Changes-Leaves}
use uologin.Server.Attached.{
  own, of_connections, of_delayed, pointers, Valid, Valid-leave, Valid-detach, Valid-attach,
  Valid-replace, IsAttached,
}

module _ (P : Platform) where
  of_connections-append :
      (a b : ℕ) (xs ys : List (Connection P))
      → of_connections P a b (xs ++ ys) ≡ of_connections P a b xs + of_connections P a b ys
  of_connections-append a b [] ys = omega arith
  of_connections-append a b (x ∷ xs) ys = omega (arith, of_connections-append a b xs ys)

  of_delayed-append :
      (a b : ℕ) (xs ys : List (DelayedConnection P))
      → of_delayed P a b (xs ++ ys) ≡ of_delayed P a b xs + of_delayed P a b ys
  of_delayed-append a b [] ys = omega arith
  of_delayed-append a b (x ∷ xs) ys = omega (arith, of_delayed-append a b xs ys)

  pub found :
      (o : Option (PerClient P)) (x n : ℕ) (m : AccountingMap P)
      → find P x m.clients ≡ o
      → 0 < count n (ids P x m)
      → (c : PerClient P) × (find P x m.clients ≡ some c) × (0 < count n c.connections)
  found none x n m e h = absurd (omega (arith, h, ap (λ o. count n (ids_of P o)) e))
  found (some c) x n m e h = (c, e, subst (λ o. 0 < count n (ids_of P o)) e h)

  -- A delayed connection that becomes a connection.
  module _ (z n : ℕ) (i : Instance P) (d : DelayedConnection P) (N N' : ℕ → ℕ → ℕ)
      (v : Valid P z i.client_accounting N) where
    timer_Valid :
        (p : Option ℕ)
        → d.per_client ≡ p
        → ((x : ℕ) → p ≡ some x → 0 < N x d.id)
        → ((a b : ℕ) → N' a b + own p d.id a b ≡ N a b + own p n a b)
        → Valid P z (on_timer P n d i).0.client_accounting N'
    unfolding on_timer new destroy_delayed
    timer_Valid none e held same = rw e (
        Valid-detach P z i.client_accounting _ N N' v none d.id
          (detach_connection-Detaches P i.now none d.id i.client_accounting v.distinct)
          (λ a b. omega (arith, same a b)))
    timer_Valid (some x) e held same =
        let m = i.client_accounting in
        let there : 0 < count d.id (ids P x m) = omega (arith, held x refl, v.attached x d.id) in
        let (c, f, _) = found (find P x m.clients) x d.id m refl there in
        let t = add_connection-Attaches P x n m c v.distinct f in
        rw e (
          Valid-replace P z m (add_connection P x n m) _ N N' x n d.id v t
            (detach_connection-Detaches P i.now (some x) d.id (add_connection P x n m) t.distinct)
            (held x refl) same)

  -- What an outcome of a handler means for the map, by the connection `c`.
  module _ (z : ℕ) (i : Instance P) (before after : List (Connection P)) (c : Connection P)
      (ds : List (DelayedConnection P))
      (v : Valid P z i.client_accounting (pointers P (before ++ c ∷ after) ds)) where
    start : Fits P i.client_accounting c.per_client c.id i c
    start = (Leaves-refl P i.client_accounting v.distinct, refl, refl)

    kept-Valid :
        {j : Instance P} {d : Connection P} {es : List (Effect P)}
        → Ends P i.client_accounting c.per_client c.id (alive j d es)
        → Valid P z j.client_accounting (pointers P (before ++ d ∷ after) ds)
    kept-Valid {j} {d} (goes_on (l, same_id, same_client)) =
        let w = Valid-leave P z _ _ _ (pointers P (before ++ c ∷ after) ds) v l in
        record {
          limit = w.limit;
          distinct = w.distinct;
          attached = λ a b. omega (
            arith,
            w.attached a b,
            of_connections-append a b before (c ∷ after),
            of_connections-append a b before (d ∷ after),
            ap (λ p. own p d.id a b) same_client,
            ap (λ n. own c.per_client n a b) same_id,
          );
          limited = w.limited;
        }

    pub closed-Valid :
        {j : Instance P} {es : List (Effect P)}
        → Ends P i.client_accounting c.per_client c.id (destroyed j es)
        → Valid P z j.client_accounting (pointers P (before ++ after) ds)
    closed-Valid (leaves l) = Valid-detach P z _ _ _ _ v c.per_client c.id l (λ a b. omega (
      arith,
      of_connections-append a b before (c ∷ after),
      of_connections-append a b before after,
    ))

  module _ (z id : ℕ) (a : P.Address) (i : Instance P) (cs : List (Connection P))
      (ds : List (DelayedConnection P)) (v : Valid P z i.client_accounting (pointers P cs ds)) where
    joins : Joins P id i.client_accounting (on_accept P id a i)
    joins = on_accept-Joins P id a i v.distinct

    dropped-Valid :
        {j : Instance P}
        → Joins P id i.client_accounting (dropped j)
        → Valid P z j.client_accounting (pointers P cs ds)
    dropped-Valid (is_dropped l) = Valid-leave P z _ _ _ (pointers P cs ds) v l

    delayed-Valid :
        {j : Instance P} {d : DelayedConnection P}
        → Joins P id i.client_accounting (delayed j d)
        → Valid P z j.client_accounting (pointers P cs (ds ++ d ∷ []))
    delayed-Valid {j} {d} (is_delayed t same r) =
        Valid-attach P z _ _ _ _ v d.per_client id t r (λ a b.
          omega (arith, of_delayed-append a b ds (d ∷ []), ap (λ n. own d.per_client n a b) same))

    connected-Valid :
        {j : Instance P} {c : Connection P}
        → Joins P id i.client_accounting (connected j c)
        → Valid P z j.client_accounting (pointers P (c ∷ cs) ds)
    connected-Valid {j} {c} (is_connected t same r) =
        Valid-attach P z _ _ _ _ v c.per_client id t r
          (λ a b. omega (arith, ap (λ n. own c.per_client n a b) same))

  own_self : (x n : ℕ) → own (some x) n x n ≡ 1
  own_self x n = ground arith

  module _ (z : ℕ) (i : Instance P) (cs : List (Connection P))
      (before after : List (DelayedConnection P)) (d : DelayedConnection P)
      (v : Valid P z i.client_accounting (pointers P cs (before ++ d ∷ after))) where
    without_d :
        (a b : ℕ)
        → pointers P cs (before ++ after) a b + own d.per_client d.id a b
          ≡ pointers P cs (before ++ d ∷ after) a b
    without_d a b =
        omega (arith, of_delayed-append a b before (d ∷ after), of_delayed-append a b before after)

    held : (x : ℕ) → d.per_client ≡ some x → 0 < pointers P cs (before ++ d ∷ after) x d.id
    held x e = omega (arith, without_d x d.id, ap (λ p. own p d.id x d.id) e, own_self x d.id)

    left-Valid :
        Valid P z (on_socket_ready P d i).client_accounting (pointers P cs (before ++ after))
    left-Valid =
        Valid-detach P z _ _ _ _ v d.per_client d.id (on_socket_ready-Detaches P d i v.distinct)
          without_d

  own-on_timer :
      (id : ℕ) (d : DelayedConnection P) (i : Instance P) (a b : ℕ)
      → own (on_timer P id d i).1.per_client (on_timer P id d i).1.id a b ≡ own d.per_client id a b
  unfolding on_timer new
  own-on_timer id d i a b = refl

  pub Step-IsAttached : {z : ℕ} {s t : Server P} → Step P s t → IsAttached P z s → IsAttached P z t
  Step-IsAttached {z} (accepted_dropped {i} {cs} {ds} id a j e) v =
      dropped-Valid z id a i cs ds v (subst (Joins P id _) e (joins z id a i cs ds v))
  Step-IsAttached {z} (accepted_delayed {i} {cs} {ds} id a j d e) v =
      delayed-Valid z id a i cs ds v (subst (Joins P id _) e (joins z id a i cs ds v))
  Step-IsAttached {z} (accepted {i} {cs} {ds} id a j c e) v =
      connected-Valid z id a i cs ds v (subst (Joins P id _) e (joins z id a i cs ds v))
  Step-IsAttached {z} (delayed_left {i} {cs} before after d) v = left-Valid z i cs before after d v
  Step-IsAttached {z} (kept {i} {ds} before after c d j es h) v =
      kept-Valid z i before after c ds v (Handles-Ends P _ _ _ (start z i before after c ds v) h)
  Step-IsAttached {z} (closed {i} {ds} before after c j es h) v =
      closed-Valid z i before after c ds v (Handles-Ends P _ _ _ (start z i before after c ds v) h)
  Step-IsAttached {z} (changed {i} {cs} {ds} j h) v =
      Valid-leave P z _ _ _ (pointers P cs ds) v
        (Changes-Leaves P (Leaves-refl P i.client_accounting v.distinct) h)
  Step-IsAttached {z} (delay_over {i} {cs} before after d id) v =
      timer_Valid z id i d _ _ v d.per_client refl (held z i cs before after d v)
        (λ a b. omega (arith, without_d z i cs before after d v a b, own-on_timer id d i a b))
