-- ===== src/Server/Relay.antt =====
-- What a connection that forwards has received and sent.
use uologin.Prelude.{
  ℕ, ◌≡◌, ◌∙◌, refl, sym, ap, subst, Bool, true, false, not, List, [], ◌∷◌, ◌++◌, append_assoc,
  append-nil, if◌then◌else◌, ◌&&◌,
}
use uologin.External.{Platform}
use uologin.Instance.{Instance}
use uologin.Splice.Fifo.{content}
use uologin.Connection.{
  State, initial, check_credentials, server_list, connecting, send_play_server, ready, Connection,
  Effect, to_client, to_server, shutdown_client, shutdown_server, give_back, start_job, cancel_job,
  start_connect, Outcome, alive, check_that, destroy,
}
use uologin.Connection.Flow.{Moved, moves, transfer-Moved, read_if}
use uologin.Connection.Gate.{to_servers, to_servers-append}
use uologin.Connection.Login.{LoginCalls, is_check_credentials, is_complete, on_check_credentials}
use uologin.Connection.Server.{
  ServerCalls, is_connecting, on_socket_connect_success, on_socket_connect_error,
}
use uologin.Connection.Steady.{Steady, Kernel}
use uologin.Connection.Well.{Well}
use uologin.Connection.Transfer.{Ready, Calls, Transfer, going, closing, fault}
use uologin.Connection.Ready.{
  client_side, server_side, finish_incoming, finish_outgoing, incoming_by_state, outgoing_by_state,
  on_incoming_ready, on_outgoing_ready, on_timeout,
}
use uologin.Server.{
  Handles, incoming_ready, outgoing_ready, credentials_checked, connect_success, connect_error,
  timeout,
}
use uologin.Server.Served.{IsDue, IsConfigured, Served, serves, Served-Well}

module _ (P : Platform) where
  -- All bytes that go to the client.
  abbrev pub to_clients : List (Effect P) → List ℕ
  to_clients [] = []
  to_clients (to_client b ∷ es) = b ++ to_clients es
  to_clients (_ ∷ es) = to_clients es

  to_clients-append :
      (es fs : List (Effect P)) → to_clients (es ++ fs) ≡ to_clients es ++ to_clients fs
  to_clients-append [] fs = refl
  to_clients-append (to_client b ∷ es) fs =
      ap (λ x. b ++ x) (to_clients-append es fs)
      ∙ sym (append_assoc b (to_clients es) (to_clients fs))
  to_clients-append (to_server b ∷ es) fs = to_clients-append es fs
  to_clients-append (shutdown_client ∷ es) fs = to_clients-append es fs
  to_clients-append (shutdown_server ∷ es) fs = to_clients-append es fs
  to_clients-append (give_back b ∷ es) fs = to_clients-append es fs
  to_clients-append (start_job b ∷ es) fs = to_clients-append es fs
  to_clients-append (cancel_job b ∷ es) fs = to_clients-append es fs
  to_clients-append (start_connect b ∷ es) fs = to_clients-append es fs

  -- What a handler of a forwarding connection reads from the client, and from the server.
  abbrev pub from_client :
      {i : Instance P} {c : Connection P} {o : Outcome P} → Handles P i c o → List ℕ
  from_client (incoming_ready ev l k) = read_if P k ev.read
  from_client _ = []

  abbrev pub from_server :
      {i : Instance P} {c : Connection P} {o : Outcome P} → Handles P i c o → List ℕ
  from_server (outgoing_ready ev s k) = read_if P k ev.read
  from_server _ = []

  -- `a` and `b` are read, and nothing is lost.
  abbrev Passes : Connection P → List ℕ → List ℕ → Outcome P → Type 0
  Passes c a b (alive j d es) =
      (d.state ≡ ready)
      × (content c.splice_in_out ++ a ≡ to_servers P es ++ content d.splice_in_out)
      × (content c.splice_out_in ++ b ≡ to_clients es ++ content d.splice_out_in)
  Passes c a b _ = Unit {0}

  module _ (c : Connection P) (state : c.state ≡ ready) where
    finish_incoming-Passes :
        (i : Instance P) (a : List ℕ) (x : Transfer P)
        → Moved P (content c.splice_out_in) (content c.splice_in_out ++ a) x
        → Passes c a [] (finish_incoming P i c x)
    unfolding finish_incoming destroy
    finish_incoming-Passes i a (going q t) (moves e f) = (
      state,
      f ∙ ap (λ l. l ++ content q.near_far) (sym (append-nil t.to_far)),
      append-nil (content c.splice_out_in)
          ∙ e
          ∙ ap (λ l. l ++ content q.far_near) (sym (append-nil t.to_near)),
    )
    finish_incoming-Passes i a (closing q t) m = tt
    finish_incoming-Passes i a (fault f) m = tt

    finish_outgoing-Passes :
        (i : Instance P) (b : List ℕ) (x : Transfer P)
        → Moved P (content c.splice_in_out) (content c.splice_out_in ++ b) x
        → Passes c [] b (finish_outgoing P i c x)
    unfolding finish_outgoing destroy
    finish_outgoing-Passes i b (going q t) (moves e f) = (
      state,
      append-nil (content c.splice_in_out)
          ∙ e
          ∙ ap (λ l. l ++ content q.far_near) (sym (append-nil t.to_near)),
      f ∙ ap (λ l. l ++ content q.near_far) (sym (append-nil t.to_far)),
    )
    finish_outgoing-Passes i b (closing q t) m = tt
    finish_outgoing-Passes i b (fault f) m = tt

    checked :
        (a b : List ℕ) (t : Bool) (o : Outcome P) → Passes c a b o → Passes c a b (check_that t o)
    checked a b true o h = h
    checked a b false o h = tt

    unchecked :
        (a b : List ℕ) (t : Bool) (o : Outcome P) → t ≡ false → Passes c a b (check_that t o)
    unchecked a b false o e = tt
    unchecked a b true o e = cc

    module _ (s : Steady P (client_side P c)) where
      by_state_incoming :
          (ev : Ready) (l : LoginCalls) (k : Calls) (i : Instance P) (t : State)
          → c.state ≡ t
          → Kernel P (client_side P c) k
          → Passes c (read_if P k ev.read) [] (incoming_by_state P ev l k i c t)
      unfolding incoming_by_state
      by_state_incoming ev l k i ready e n =
          finish_incoming-Passes i (read_if P k ev.read) _
            (transfer-Moved P ev k (client_side P c) s n)
      by_state_incoming ev l k i initial e n = absurd cc
      by_state_incoming ev l k i check_credentials e n = absurd cc
      by_state_incoming ev l k i server_list e n = absurd cc
      by_state_incoming ev l k i connecting e n = absurd cc
      by_state_incoming ev l k i send_play_server e n = absurd cc

      by_state_outgoing :
          (ev : Ready) (l : ServerCalls) (k : Calls) (i : Instance P) (t : State)
          → c.state ≡ t
          → Kernel P (server_side P c) k
          → Passes c [] (read_if P k ev.read) (outgoing_by_state P ev l k i c t)
      unfolding outgoing_by_state
      by_state_outgoing ev l k i ready e n = finish_outgoing-Passes i (read_if P k ev.read) _ (
          transfer-Moved P ev k (server_side P c)
            (record { to_far = s.to_near; to_near = s.to_far }) n)
      by_state_outgoing ev l k i initial e n = absurd cc
      by_state_outgoing ev l k i check_credentials e n = absurd cc
      by_state_outgoing ev l k i server_list e n = absurd cc
      by_state_outgoing ev l k i connecting e n = absurd cc
      by_state_outgoing ev l k i send_play_server e n = absurd cc

      dead_or :
          (a b : List ℕ) (t : Bool) (i : Instance P) (o : Outcome P)
          → Passes c a b o
          → Passes c a b (if t then destroy P i c else o)
      unfolding destroy
      dead_or a b true i o h = tt
      dead_or a b false i o h = h

      Handles-Passes :
          {i : Instance P} {o : Outcome P} (h : Handles P i c o)
          → IsDue P c h
          → Passes c (from_client h) (from_server h) o
      unfolding on_incoming_ready on_outgoing_ready on_check_credentials on_socket_connect_success
          on_socket_connect_error on_timeout destroy
      Handles-Passes {i} (incoming_ready ev l k) d = dead_or (read_if P k ev.read) [] ev.dead _ _ (
          checked _ _ (not c.connect_pending) _
            (by_state_incoming ev l k i c.state refl (d.2 state)))
      Handles-Passes {i} (outgoing_ready ev l k) d =
          checked _ _ (P.is_defined c.incoming && not c.connect_pending) _ (
            dead_or [] (read_if P k ev.read) ev.dead _ _
              (by_state_outgoing ev l k i c.state refl (d.3 state)))
      Handles-Passes {i} (credentials_checked result send_ok) d =
          unchecked [] [] (is_check_credentials c.state) _ (ap is_check_credentials state)
      Handles-Passes {i} (connect_success sent) d =
          unchecked [] [] (is_connecting c.state && is_complete c) _
            (ap (λ s. is_connecting s && is_complete c) state)
      Handles-Passes {i} connect_error d =
          unchecked [] [] (is_connecting c.state) _ (ap is_connecting state)
      Handles-Passes {i} timeout d = tt

  -- What happens to a connection from `c` on, with all that was read from the client and from the
  -- server and all effects, as long as it exists.
  pub data Relays (listed : Bool) (c : Connection P)
      : List ℕ → List ℕ → List (Effect P) → Connection P → Type 0 where
    here : Relays listed c [] [] [] c
    relays :
        {a b : List ℕ} {es fs : List (Effect P)} {d e : Connection P} {i j : Instance P}
        → Relays listed c a b es d
        → (h : Handles P i d (alive j e fs)) → IsDue P d h
        → IsConfigured P listed i
        → Relays listed c (a ++ from_client h) (b ++ from_server h) (es ++ fs) e

  Relays-Served :
      {listed : Bool} {before : List (Effect P)} {c : Connection P} {a b : List ℕ}
      {es : List (Effect P)} {d : Connection P}
      → Served P listed before c
      → Relays listed c a b es d
      → Served P listed (before ++ es) d
  Relays-Served {listed} {before} {c} s here =
      subst (λ es. Served P listed es c) (sym (append-nil before)) s
  Relays-Served {listed} {before} s (relays {es} {fs} {e} r h due l) =
      subst (λ x. Served P listed x e) (append_assoc before es fs)
        (serves (Relays-Served s r) h due l)

  Served-Steady :
      {listed : Bool} {es : List (Effect P)} {c : Connection P}
      → Served P listed es c
      → c.state ≡ ready
      → Steady P (client_side P c)
  Served-Steady {listed} {c} s e = (subst (λ t. Well P (listed ≡ true) t c) e (Served-Well P s)).0

  -- One more round.
  chain :
      (x y z a a' e e' : List ℕ)
      → x ++ a ≡ e ++ y
      → y ++ a' ≡ e' ++ z
      → x ++ (a ++ a') ≡ (e ++ e') ++ z
  chain x y z a a' e e' p q =
      sym (append_assoc x a a')
      ∙ ap (λ l. l ++ a') p
      ∙ append_assoc e y a'
      ∙ ap (λ l. e ++ l) q
      ∙ sym (append_assoc e e' z)

  -- From the time on when a connection forwards, as long as it exists, while the event loop delivers
  -- only what it waits for, splice() moves no more than there is, a pipe holds less than 2 ^ 32 bytes
  -- and one from the stock is empty: it goes on to forward, and in
  -- both directions all that was read from one side is, in this order and with nothing lost or
  -- repeated, what was sent to the other side followed by what the pipe holds.
  pub Relays-carries :
      {listed : Bool} {before : List (Effect P)} {c : Connection P} {a b : List ℕ}
      {es : List (Effect P)} {d : Connection P}
      → Served P listed before c
      → c.state ≡ ready
      → Relays listed c a b es d
      → (d.state ≡ ready)
        × (content c.splice_in_out ++ a ≡ to_servers P es ++ content d.splice_in_out)
        × (content c.splice_out_in ++ b ≡ to_clients es ++ content d.splice_out_in)
  Relays-carries {c} s e here =
      (e, append-nil (content c.splice_in_out), append-nil (content c.splice_out_in))
  Relays-carries {c} s e (relays {a} {b} {es} {fs} {d} {e = f} r h due l) =
      let (ready_still, in_out, out_in) = Relays-carries s e r in
      let (ready_again, in_out', out_in') =
        Handles-Passes d ready_still (Served-Steady (Relays-Served s r) ready_still) h due in
      (
        ready_again,
        chain (content c.splice_in_out) (content d.splice_in_out) (content f.splice_in_out) a
              (from_client h) (to_servers P es) (to_servers P fs) in_out in_out'
            ∙ ap (λ l. l ++ content f.splice_in_out) (sym (to_servers-append P es fs)),
        chain (content c.splice_out_in) (content d.splice_out_in) (content f.splice_out_in) b
              (from_server h) (to_clients es) (to_clients fs) out_in out_in'
            ∙ ap (λ l. l ++ content f.splice_out_in) (sym (to_clients-append es fs)),
      )
