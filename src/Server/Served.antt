-- ===== src/Server/Served.antt =====
-- A connection to which the event loop delivers only what it waits for.
use uologin.Prelude.{
  ℕ, ◌≡◌, ◌≢◌, ◌⊎◌, inl, inr, refl, sym, subst, Bool, true, false, Option, none, some, List, [],
  ◌++◌, ◌∙◌, not, arith,
}
use uologin.External.{Platform}
use uologin.Accounting.{is_empty}
use uologin.Instance.{Instance}
use uologin.Connection.{
  State, Fault, assertion, exception, initial, check_credentials, server_list, connecting,
  send_play_server, ready, Connection, Effect, Outcome, alive, destroyed, crashed, new, destroy,
}
use uologin.Connection.Follows.{Rests}
use uologin.Connection.Obeys.{IsScheduled}
use uologin.Connection.Ready.{client_side, server_side, on_timeout}
use uologin.Connection.Steady.{Kernel, Stuck}
use uologin.Connection.Well.{IsListed, Well, Stays, lives, fails}
use uologin.Connection.Sound.{IsSome}
use uologin.Connection.Sound.Incoming.{on_incoming_ready-Stays}
use uologin.Connection.Sound.Outgoing.{on_outgoing_ready-Stays}
use uologin.Connection.Sound.Awaited.{
  credentials_checked-Stays, on_socket_connect_success-Stays, on_socket_connect_error-Stays,
  on_timeout-Stays,
}
use uologin.Server.{
  Handles, incoming_ready, outgoing_ready, credentials_checked, connect_success, connect_error,
  timeout,
}
use uologin.Server.Life.{Life, born, goes_on, IsDelivered, Life-Rests}

module _ (P : Platform) where
  open P use {is_pending, read_pending}

  -- What the event loop and the kernel keep to: an event of a socket has some flag, and those to read
  -- and to write only as far as they are scheduled; splice() moves no more than there is, a pipe
  -- holds less than 2 ^ 32 bytes and one from the stock is empty (`Kernel`); and an answer or a timeout
  -- comes only while one is waited for.
  abbrev pub IsDue : {i : Instance P} (c : Connection P) {o : Outcome P} → Handles P i c o → Type 0
  IsDue c (incoming_ready ev l k) =
      IsScheduled P ev c.incoming × IsSome ev × (c.state ≡ ready → Kernel P (client_side P c) k)
  IsDue c (outgoing_ready ev s k) =
      (P.is_defined c.outgoing ≡ true)
      × IsScheduled P ev c.outgoing
      × IsSome ev
      × (c.state ≡ ready → Kernel P (server_side P c) k)
  IsDue c (credentials_checked result send_ok) = c.cancel_ptr ≢ none
  IsDue c (connect_success sent) = c.connect_pending ≡ true
  IsDue c connect_error = c.connect_pending ≡ true
  IsDue c timeout = is_pending c.timeout ≡ true

  -- Whether a list of servers is configured.
  abbrev pub IsConfigured : Bool → Instance P → Type 0
  IsConfigured listed i = listed ≡ not (is_empty i.config.server_list)

  -- The history of a connection as long as it exists; `listed` is whether a list of servers is
  -- configured.
  pub data Served (listed : Bool) : List (Effect P) → Connection P → Type 0 where
    created :
        (id : ℕ) (a : P.Address) (per_client : Option ℕ) (i : Instance P)
        → Served listed [] (new P id a per_client i).1
    serves :
        {es fs : List (Effect P)} {c d : Connection P} {i j : Instance P}
        → Served listed es c
        → (h : Handles P i c (alive j d fs)) → IsDue c h
        → IsConfigured listed i
        → Served listed (es ++ fs) d

  IsDue-IsDelivered :
      {i : Instance P} (c : Connection P) {o : Outcome P} (h : Handles P i c o)
      → IsDue c h
      → IsDelivered P c h
  IsDue-IsDelivered c (incoming_ready ev l k) d = d.0
  IsDue-IsDelivered c (outgoing_ready ev s k) d = tt
  IsDue-IsDelivered c (credentials_checked result send_ok) d = tt
  IsDue-IsDelivered c (connect_success sent) d = tt
  IsDue-IsDelivered c connect_error d = tt
  IsDue-IsDelivered c timeout d = tt

  pub Served-Life :
      {listed : Bool} {es : List (Effect P)} {c : Connection P}
      → Served listed es c
      → Life P es (some c)
  Served-Life (created id a p i) = born id a p i
  Served-Life (serves {c} s h d l) = goes_on (Served-Life s) h (IsDue-IsDelivered c h d)

  IsConfigured-IsListed :
      (listed : Bool) (i : Instance P) → IsConfigured listed i → IsListed P (listed ≡ true) i
  IsConfigured-IsListed listed i e = ((λ x. ground (arith, e, x)), λ n. ground (arith, e, n))

  -- With a list of servers the connection does not read while its server is dialled.
  reads_early :
      (listed : Bool) (c : Connection P) (s : State)
      → c.state ≡ s
      → Rests P s c
      → Well P (listed ≡ true) s c
      → s ≡ connecting
      → read_pending c.incoming ≡ true
      → listed ≡ false
  reads_early false c s e r w h q = refl
  reads_early true c connecting e r w h q = cc (r.2 (w.3 refl))
  reads_early true c initial e r w h q = cc
  reads_early true c check_credentials e r w h q = cc
  reads_early true c server_list e r w h q = cc
  reads_early true c send_play_server e r w h q = cc
  reads_early true c ready e r w h q = cc

  -- A fault that a handler may run into, by the event. An exception: what a forwarding connection is
  -- to read has no pipe yet, and the stock has none to give. A failed assertion: no list of servers is
  -- configured, and the client sends while its server is being dialled.
  abbrev pub IsAllowed :
      Bool → {i : Instance P} (c : Connection P) {o : Outcome P} → Handles P i c o → Fault → Type 0
  IsAllowed listed c (incoming_ready ev l k) f =
      ((f ≡ exception) × (c.state ≡ ready) × Stuck P ev k (client_side P c))
      ⊎ ((f ≡ assertion)
          × (listed ≡ false)
          × (c.state ≡ connecting)
          × (ev.read ≡ true)
          × (read_pending c.incoming ≡ true))
  IsAllowed listed c (outgoing_ready ev s k) f =
      (f ≡ exception) × (c.state ≡ ready) × Stuck P ev k (server_side P c)
  IsAllowed listed c (credentials_checked result send_ok) f = ⊥
  IsAllowed listed c (connect_success sent) f = ⊥
  IsAllowed listed c connect_error f = ⊥
  IsAllowed listed c timeout f = ⊥

  module _ (listed : Bool) where
    Handles-Stays :
        {i : Instance P} (c : Connection P) {o : Outcome P} (h : Handles P i c o)
        → IsDue c h
        → Rests P c.state c
        → Well P (listed ≡ true) c.state c
        → IsConfigured listed i
        → Stays P (listed ≡ true) (IsAllowed listed c h) o
    Handles-Stays {i} c (incoming_ready ev l k) (d, some_, n) r w cfg =
        on_incoming_ready-Stays P (listed ≡ true)
          (IsAllowed listed {i = i} c (incoming_ready ev l k)) c.state ev l k i c refl r w
          (IsConfigured-IsListed listed i cfg) d some_ n
          (λ a e b q. inr (refl, reads_early listed c c.state refl r w e q, e, b, q))
          (λ a e x. inl (refl, e, x))
    Handles-Stays {i} c (outgoing_ready ev s k) (o, d, some_, n) r w cfg =
        on_outgoing_ready-Stays P (listed ≡ true)
          (IsAllowed listed {i = i} c (outgoing_ready ev s k)) c.state ev s k i c refl r w o d.1 n
          (λ a e x. (refl, e, x))
    Handles-Stays {i} c (credentials_checked result send_ok) d r w cfg =
        credentials_checked-Stays P (listed ≡ true) (λ f. ⊥) c.state result send_ok i c refl w d
          (IsConfigured-IsListed listed i cfg)
    Handles-Stays {i} c (connect_success sent) d r w cfg =
        on_socket_connect_success-Stays P (listed ≡ true) (λ f. ⊥) c.state sent i c refl r w d
    Handles-Stays {i} c connect_error d r w cfg =
        on_socket_connect_error-Stays P (listed ≡ true) (λ f. ⊥) c.state i c refl w d
    Handles-Stays {i} c timeout d r w cfg = on_timeout-Stays P (listed ≡ true) (λ f. ⊥) i c

  new-Well :
      (listed : Bool) (id : ℕ) (a : P.Address) (p : Option ℕ) (i : Instance P)
      → Well P (listed ≡ true) (new P id a p i).1.state (new P id a p i).1
  unfolding new
  new-Well listed id a p i = (
    (refl, refl, P.undefined_lem),
    refl,
    refl,
    P.schedule_lem _ P.idle,
    refl,
    P.hangup_defined _ ∙ P.open_defined _,
  )

  Stays-Well :
      (listed : Bool) (F : Fault → Type 0) {j : Instance P} {d : Connection P}
      {es : List (Effect P)}
      → Stays P (listed ≡ true) F (alive j d es)
      → Well P (listed ≡ true) d.state d
  Stays-Well listed F {d} (lives t e w) = subst (λ s. Well P (listed ≡ true) s d) (sym e) w

  pub Served-Well :
      {listed : Bool} {es : List (Effect P)} {c : Connection P}
      → Served listed es c
      → Well P (listed ≡ true) c.state c
  Served-Well {listed} (created id a p i) = new-Well listed id a p i
  Served-Well {listed} (serves {c} s h d l) =
      Stays-Well listed (IsAllowed listed c h)
        (Handles-Stays listed c h d (Life-Rests P (Served-Life s)) (Served-Well s) l)

  crash_allowed :
      (listed : Bool) {f : Fault} (F : Fault → Type 0) → Stays P (listed ≡ true) F (crashed f) → F f
  crash_allowed listed F (fails x) = x

  -- While the event loop and the kernel keep to `IsDue`, no assertion of any handler ever fails, and
  -- nothing is thrown out of one, with the two exceptions of `IsAllowed`.
  pub Served-crashes :
      {listed : Bool} {es : List (Effect P)} {i : Instance P} {f : Fault} (c : Connection P)
      → Served listed es c
      → (h : Handles P i c (crashed f)) → IsDue c h
      → IsConfigured listed i
      → IsAllowed listed c h f
  Served-crashes {listed} c s h d l =
      crash_allowed listed (IsAllowed listed c h)
        (Handles-Stays listed c h d (Life-Rests P (Served-Life s)) (Served-Well s) l)

  abbrev pub is_waiting : State → Bool
  is_waiting initial = true
  is_waiting server_list = true
  is_waiting _ = false

  timer_of :
      (listed : Bool) (s : State) (c : Connection P)
      → Well P (listed ≡ true) s c
      → is_pending c.timeout ≡ is_waiting s
  timer_of listed initial c w = w.3
  timer_of listed check_credentials c w = w.2
  timer_of listed server_list c w = w.3
  timer_of listed connecting c w = w.2
  timer_of listed send_play_server c w = w.5
  timer_of listed ready c w = w.3

  -- As long as the event loop and the kernel keep to `IsDue`, by which only that happens to a
  -- connection which it waits for: its timer runs exactly in the states in which it waits for the
  -- client, `initial` and `server_list`; and when it fires, the connection is destroyed.
  pub Served-timeout :
      {listed : Bool} {es : List (Effect P)} (c : Connection P) (i : Instance P)
      → Served listed es c
      → (is_pending c.timeout ≡ is_waiting c.state)
        × (j : Instance P) × (fs : List (Effect P)) × (on_timeout P i c ≡ destroyed j fs)
  unfolding on_timeout destroy
  Served-timeout {listed} c i s = (timer_of listed c.state c (Served-Well s), _, _, refl)
