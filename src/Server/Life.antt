-- ===== src/Server/Life.antt =====
-- The life of one connection, as the login protocol sees it.
use uologin.Prelude.{ℕ, ◌≡◌, refl, sym, subst, Option, none, some, List, [], ◌++◌}
use uologin.External.{Platform}
use uologin.Instance.{Instance}
use uologin.Connection.{State, initial, Connection, Effect, Outcome, alive, destroyed, new}
use uologin.Connection.Protocol.{Trace, start, then_}
use uologin.Connection.Gate.{Gated, Trace-Gated}
use uologin.Connection.Follows.{Rests, Follows, lives, dies}
use uologin.Connection.Obeys.{IsScheduled, on_incoming_ready-Follows, on_outgoing_ready-Follows}
use uologin.Connection.Answers.{
  credentials_checked-Follows, on_timeout-Follows, on_socket_connect_error-Follows,
  on_socket_connect_success-Follows,
}
use uologin.Server.{
  Handles, incoming_ready, outgoing_ready, credentials_checked, connect_success, connect_error,
  timeout,
}

module _ (P : Platform) where
  -- The event loop delivers only the flags of the client's socket that are scheduled.
  abbrev pub IsDelivered :
      {i : Instance P} (c : Connection P) {o : Outcome P} → Handles P i c o → Type 0
  IsDelivered c (incoming_ready ev l k) = IsScheduled P ev c.incoming
  IsDelivered c _ = Unit {0}

  -- What a connection has done, and the connection as long as it exists. The rest of the server may
  -- change the instance between two events.
  pub data Life : List (Effect P) → Option (Connection P) → Type 0 where
    born :
        (id : ℕ) (a : P.Address) (per_client : Option ℕ) (i : Instance P)
        → Life [] (some (new P id a per_client i).1)
    goes_on :
        {es fs : List (Effect P)} {c d : Connection P} {i j : Instance P}
        → Life es (some c)
        → (h : Handles P i c (alive j d fs)) → IsDelivered c h
        → Life (es ++ fs) (some d)
    over :
        {es fs : List (Effect P)} {c : Connection P} {i j : Instance P}
        → Life es (some c)
        → (h : Handles P i c (destroyed j fs)) → IsDelivered c h
        → Life (es ++ fs) none

  Handles-Follows :
      {i : Instance P} (c : Connection P) {o : Outcome P} (h : Handles P i c o)
      → IsDelivered c h
      → Rests P c.state c
      → Follows P c.state o
  Handles-Follows {i} c (incoming_ready ev l k) d r =
      on_incoming_ready-Follows P c.state ev l k i c refl r d
  Handles-Follows {i} c (outgoing_ready ev s k) d r =
      on_outgoing_ready-Follows P c.state ev s k i c refl
  Handles-Follows {i} c (credentials_checked result send_ok) d r =
      credentials_checked-Follows P c.state result send_ok i c refl r
  Handles-Follows {i} c (connect_success sent) d r =
      on_socket_connect_success-Follows P c.state sent i c refl r
  Handles-Follows {i} c connect_error d r = on_socket_connect_error-Follows P c.state i c
  Handles-Follows {i} c timeout d r = on_timeout-Follows P c.state i c

  abbrev state_of : Option (Connection P) → Option State
  state_of none = none
  state_of (some c) = some c.state

  abbrev RestsStill : Option (Connection P) → Type 0
  RestsStill none = Unit {0}
  RestsStill (some c) = Rests P c.state c

  new-Rests :
      (id : ℕ) (a : P.Address) (p : Option ℕ) (i : Instance P) → Rests P initial (new P id a p i).1
  unfolding new
  new-Rests id a p i = (refl, P.hangup_write _)

  new-initial :
      (id : ℕ) (a : P.Address) (p : Option ℕ) (i : Instance P) → (new P id a p i).1.state ≡ initial
  unfolding new
  new-initial id a p i = refl

  after :
      {s : State} {es fs : List (Effect P)} {j : Instance P} {d : Connection P}
      → Trace P initial es (some s)
      → Follows P s (alive j d fs)
      → Trace P initial (es ++ fs) (some d.state) × Rests P d.state d
  after {es} {fs} {d} t (lives u e p r) = (
    subst (λ x. Trace P initial (es ++ fs) (some x)) (sym e) (then_ t p),
    subst (λ x. Rests P x d) (sym e) r,
  )

  at_end :
      {s : State} {es fs : List (Effect P)} {j : Instance P}
      → Trace P initial es (some s)
      → Follows P s (destroyed j fs)
      → Trace P initial (es ++ fs) none
  at_end t (dies p) = then_ t p

  Life-keeps :
      {es : List (Effect P)} {o : Option (Connection P)}
      → Life es o
      → Trace P initial es (state_of o) × RestsStill o
  Life-keeps (born id a p i) =
      let e = new-initial id a p i in
      (
        subst (λ x. Trace P initial [] (some x)) (sym e) start,
        subst (λ x. Rests P x (new P id a p i).1) (sym e) (new-Rests id a p i),
      )
  Life-keeps (goes_on {c} l h d) = let (t, r) = Life-keeps l in after t (Handles-Follows c h d r)
  Life-keeps (over {c} l h d) =
      let (t, r) = Life-keeps l in (at_end t (Handles-Follows c h d r), tt)

  pub Life-Rests : {es : List (Effect P)} {c : Connection P} → Life es (some c) → Rests P c.state c
  Life-Rests l = (Life-keeps l).1

  -- The handlers implement the login protocol: whatever happens to a connection from its
  -- construction on, in any order, with events of the client's socket only as far as they are
  -- scheduled, as long as no assertion fails, all that it does outside the program is a run of the
  -- protocol machine from `initial`, which ends in the state of the connection, or in none exactly
  -- when the connection is destroyed.
  pub Life-Trace :
      {es : List (Effect P)} {o : Option (Connection P)}
      → Life es o
      → Trace P initial es (state_of o)
  Life-Trace l = (Life-keeps l).0

  -- Whatever happens to a connection from its construction on, with events of the client's socket
  -- only as far as they are scheduled and as long as it exists: in the states up to the choice of a
  -- server, `initial`, `check_credentials` and `server_list`, it has dialled no server and sent no
  -- byte to one; in `connecting` it has dialled exactly one and sent it nothing; in the states after
  -- that it has dialled exactly one.
  pub Life-Gated : {es : List (Effect P)} {c : Connection P} → Life es (some c) → Gated P c.state es
  Life-Gated l = Trace-Gated P (Life-Trace l)
