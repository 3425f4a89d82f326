-- ===== src/Server/Promises.antt =====
-- What the accounting promises of a running server, from its start on.
use uologin.Prelude.{
  count, count-append, ℕ, ◌+◌, ◌≡◌, ◌<◌, ◌≤◌, refl, ◌==◌, Option, none, some, List, [], ◌∷◌, ◌++◌,
  length, All, arith, if◌then◌else◌, length-append,
}
use uologin.External.{Platform}
use uologin.Accounting.{AccountingMap, PerClient, find, remove_id}
use uologin.Accounting.Ids.{ids}
use uologin.Config.{Config}
use uologin.Connection.{Connection}
use uologin.Listener.{DelayedConnection}
use uologin.Boot.{BootCalls, Started, run}
use uologin.Boot.Accounts.{run-IsAttached}
use uologin.Server.{Server, Run, here, next}
use uologin.Server.Attached.{
  own, of_connections, of_delayed, IsAttached, count-remove_id, length-remove_id,
}
use uologin.Server.Pointers.{Step-IsAttached, found}

module _ (P : Platform) where
  pub Run-IsAttached : {z : ℕ} {s t : Server P} → IsAttached P z s → Run P s t → IsAttached P z t
  Run-IsAttached v here = v
  Run-IsAttached v (next r h) = Step-IsAttached P h (Run-IsAttached v r)

  -- The numbers of the objects of one client.
  abbrev kept_for : ℕ → Option ℕ → ℕ → List ℕ
  kept_for a none n = []
  kept_for a (some x) n = if x == a then n ∷ [] else []

  abbrev pub connections_of : ℕ → List (Connection P) → List ℕ
  connections_of a [] = []
  connections_of a (c ∷ cs) = kept_for a c.per_client c.id ++ connections_of a cs

  abbrev pub delayed_of : ℕ → List (DelayedConnection P) → List ℕ
  delayed_of a [] = []
  delayed_of a (d ∷ ds) = kept_for a d.per_client d.id ++ delayed_of a ds

  count-kept_for : (a b : ℕ) (p : Option ℕ) (n : ℕ) → count b (kept_for a p n) ≡ own p n a b
  count-kept_for a b none n = refl
  count-kept_for a b (some x) n = ground arith

  count-connections_of :
      (a b : ℕ) (cs : List (Connection P)) → count b (connections_of a cs) ≡ of_connections P a b cs
  count-connections_of a b [] = refl
  count-connections_of a b (c ∷ cs) = omega (
    arith,
    count-append b (kept_for a c.per_client c.id) (connections_of a cs),
    count-kept_for a b c.per_client c.id,
    count-connections_of a b cs,
  )

  count-delayed_of :
      (a b : ℕ) (ds : List (DelayedConnection P)) → count b (delayed_of a ds) ≡ of_delayed P a b ds
  count-delayed_of a b [] = refl
  count-delayed_of a b (d ∷ ds) = omega (
    arith,
    count-append b (kept_for a d.per_client d.id) (delayed_of a ds),
    count-kept_for a b d.per_client d.id,
    count-delayed_of a b ds,
  )

  same_length : (l k : List ℕ) → ((b : ℕ) → count b l ≡ count b k) → length l ≡ length k
  same_length [] [] e = refl
  same_length [] (y ∷ k) e = absurd (ground (arith, e y))
  same_length (x ∷ l) k e =
      let there : 0 < count x k = ground (arith, e x) in
      let rest = same_length l (remove_id x k) (λ b. omega (arith, e b, count-remove_id x b k)) in
      omega (arith, rest, length-remove_id x k there)

  -- However the events of a server that `run` has started follow each other, no client that has
  -- accounting ever has more than 16 connections and delayed connections together.
  pub Run-limited :
      (c : Config P) (k : BootCalls) (s : Started P) (t : Server P)
      → run P c k ≡ some s
      → Run P s.server t
      → (a : ℕ)
      → length (connections_of a t.connections) + length (delayed_of a t.delayed_connections) ≤ 16
  Run-limited c k s t e r a =
      let v = Run-IsAttached (run-IsAttached P c k s e) r in
      let m = t.instance_.client_accounting in
      let all = connections_of a t.connections ++ delayed_of a t.delayed_connections in
      let same = same_length (ids P a m) all (λ b. omega (
        arith,
        v.attached a b,
        count-append b (connections_of a t.connections) (delayed_of a t.delayed_connections),
        count-connections_of a b t.connections,
        count-delayed_of a b t.delayed_connections,
      )) in
      ground (
        arith,
        same,
        v.limit,
        v.limited a,
        length-append (connections_of a t.connections) (delayed_of a t.delayed_connections),
      )

  -- The pointer finds a client, which knows the connection.
  abbrev pub Resolves : AccountingMap P → Option ℕ → ℕ → Type 0
  Resolves m none n = Unit {0}
  Resolves m (some x) n =
      (c : PerClient P) × (find P x m.clients ≡ some c) × (0 < count n c.connections)

  own_self : (x n : ℕ) → own (some x) n x n ≡ 1
  own_self x n = ground arith

  resolved :
      (m : AccountingMap P) (p : Option ℕ) (n : ℕ)
      → ((a b : ℕ) → own p n a b ≤ count b (ids P a m))
      → Resolves m p n
  resolved m none n h = tt
  resolved m (some x) n h =
      found P (find P x m.clients) x n m refl (omega (arith, h x n, own_self x n))

  connections_resolved :
      (m : AccountingMap P) (cs : List (Connection P))
      → ((a b : ℕ) → of_connections P a b cs ≤ count b (ids P a m))
      → All (λ c. Resolves m c.per_client c.id) cs
  connections_resolved m [] h = tt
  connections_resolved m (c ∷ cs) h = (
    resolved m c.per_client c.id (λ a b. omega (arith, h a b)),
    connections_resolved m cs (λ a b. omega (arith, h a b)),
  )

  delayed_resolved :
      (m : AccountingMap P) (ds : List (DelayedConnection P))
      → ((a b : ℕ) → of_delayed P a b ds ≤ count b (ids P a m))
      → All (λ d. Resolves m d.per_client d.id) ds
  delayed_resolved m [] h = tt
  delayed_resolved m (d ∷ ds) h = (
    resolved m d.per_client d.id (λ a b. omega (arith, h a b)),
    delayed_resolved m ds (λ a b. omega (arith, h a b)),
  )

  -- However the events of a server that `run` has started follow each other, the pointer of every
  -- connection and of every delayed connection to its accounting, where it has one, points to a
  -- client that is still in the map and whose list contains the connection: no cleanup takes away a
  -- client that is in use.
  pub Run-Resolves :
      (c : Config P) (k : BootCalls) (s : Started P) (t : Server P)
      → run P c k ≡ some s
      → Run P s.server t
      → All (λ c. Resolves t.instance_.client_accounting c.per_client c.id) t.connections
        × All (λ d. Resolves t.instance_.client_accounting d.per_client d.id) t.delayed_connections
  Run-Resolves c k s t e r =
      let v = Run-IsAttached (run-IsAttached P c k s e) r in
      let m = t.instance_.client_accounting in
      (
        connections_resolved m t.connections (λ a b. omega (arith, v.attached a b)),
        delayed_resolved m t.delayed_connections (λ a b. omega (arith, v.attached a b)),
      )
