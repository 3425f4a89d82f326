-- ===== src/Connection/Counts.antt =====
-- What a handler may do to the gauges `client_connections` and `server_connections`.
use uologin.Prelude.{ℕ, ◌≡◌, Bool, true, false, arith, refl, if◌then◌else◌}
use uologin.External.{Platform}
use uologin.Instance.{Instance, charge, inc, dec}
use uologin.Connection.{
  State, send_play_server, ready, check_that, Connection, Outcome, alive, destroyed, crashed,
  destroy,
}

module _ (P : Platform) where
  open P use {is_defined}

  abbrev pub moved : Bool → Bool → ℕ → ℕ
  moved true true n = n
  moved false false n = n
  moved false true n = inc n
  moved true false n = dec n

  abbrev pub before_open : State → Bool
  before_open send_play_server = false
  before_open ready = false
  before_open _ = true

  -- Before the connect attempt has succeeded there is no socket to a server.
  abbrev pub IsUnopened : Connection P → Type 0
  IsUnopened c = before_open c.state ≡ true → is_defined c.outgoing ≡ false

  -- The client gauge falls with the object, and the server gauge follows `outgoing.IsDefined()`.
  abbrev pub Counts : Instance P → Connection P → Outcome P → Type 0
  Counts i c (alive j d es) =
      (j.metrics.client_connections ≡ i.metrics.client_connections)
      × (j.metrics.server_connections
          ≡ moved (is_defined c.outgoing) (is_defined d.outgoing) i.metrics.server_connections)
      × (IsUnopened c → IsUnopened d)
  Counts i c (destroyed j es) =
      (j.metrics.client_connections ≡ dec i.metrics.client_connections)
      × (j.metrics.server_connections
          ≡ moved (is_defined c.outgoing) false i.metrics.server_connections)
  Counts i c (crashed f) = Unit {0}

  pub destroy-Counts : (i : Instance P) (c : Connection P) → Counts i c (destroy P i c)
  unfolding destroy
  destroy-Counts i c = ground arith

  pub moved-same : (b : Bool) (n : ℕ) → moved b b n ≡ n
  moved-same true n = refl
  moved-same false n = refl

  -- The gauges and `outgoing` have not changed on the way to `j` and `d`.
  pub record Alike (i j : Instance P) (c d : Connection P) : Type 0 where
    pub clients : j.metrics.client_connections ≡ i.metrics.client_connections
    pub servers : j.metrics.server_connections ≡ i.metrics.server_connections
    pub outgoing : is_defined d.outgoing ≡ is_defined c.outgoing
    pub state : d.state ≡ c.state

  pub Counts-Alike :
      (i j : Instance P) (c d : Connection P) (o : Outcome P)
      → Alike i j c d
      → Counts j d o
      → Counts i c o
  Counts-Alike i j c d (alive k e es) a h = rw (← a.clients, ← a.servers, ← a.outgoing, ← a.state) h
  Counts-Alike i j c d (destroyed k es) a h = rw (← a.clients, ← a.servers, ← a.outgoing) h
  Counts-Alike i j c d (crashed f) a h = tt

  pub check_that-Counts :
      (b : Bool) (i : Instance P) (c : Connection P) (o : Outcome P)
      → Counts i c o
      → Counts i c (check_that b o)
  check_that-Counts true i c o h = h
  check_that-Counts false i c o h = tt

  pub charge-Counts :
      (n : ℕ) (i : Instance P) (c : Connection P)
      → Counts i c (destroy P (charge n c.per_client i) c)
  unfolding destroy
  charge-Counts n i c = ground arith

  pub branch-Counts :
      (b : Bool) (i : Instance P) (c : Connection P) (o o' : Outcome P)
      → Counts i c o
      → Counts i c o'
      → Counts i c (if b then o else o')
  branch-Counts true i c o o' h h' = h
  branch-Counts false i c o o' h h' = h'
