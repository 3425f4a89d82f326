-- ===== src/Connection/Obeys.antt =====
-- The handlers of the sockets' events keep to the protocol.
use uologin.Prelude.{
  ◌-◌, ◌≡◌, ◌∙◌, refl, sym, subst, Bool, true, false, not, List, [], ◌∷◌, ◌++◌, if◌then◌else◌,
}
use uologin.External.{Platform}
use uologin.Instance.{Instance}
use uologin.Wire.{play_server_zero, sizeof_initial_packets}
use uologin.Connection.{
  State, initial, check_credentials, server_list, connecting, send_play_server, ready, Connection,
  Effect, to_client, to_server, give_back, shutdown_client, shutdown_server, alive, emit,
  check_that, destroy,
}
use uologin.Connection.Protocol.{
  idles, plays, cannot_play, forwards, ends, Moves, Shuts, from_client, from_server, neither,
  client_side, server_side,
}
use uologin.Connection.Follows.{
  Rests, Follows, lives, fails, destroy-Follows, destroy_after, check_that-Follows, branch-Follows,
  received_login-Follows, received_play_server-Follows,
}
use uologin.Connection.Login.{LoginCalls, read_no_wait, receive_login_packets, receive_play_server}
use uologin.Connection.Server.{ServerCalls, receive_server_list}
use uologin.Connection.Transfer.{
  Ready, Calls, Transfer, Pair, going, closing, fault, transfer, no_traffic,
}
use uologin.Connection.Ready.{
  finish_incoming, finish_outgoing, incoming_by_state, outgoing_by_state, on_incoming_ready,
  on_outgoing_ready, on_timeout,
}
use uologin.Connection.Ready

module _ (P : Platform) where
  open P use {read_pending, write_pending}

  ruleset follows = (branch-Follows, check_that-Follows, destroy-Follows)

  -- The event loop delivers an event that is scheduled.
  abbrev pub IsScheduled : Ready → P.Socket → Type 0
  IsScheduled ev s =
      (ev.read ≡ true → read_pending s ≡ true) × (ev.write ≡ true → write_pending s ≡ true)

  not_delivered : (b s : Bool) → (b ≡ true → s ≡ true) → s ≡ false → b ≡ false
  not_delivered true s f h = sym (f refl) ∙ h
  not_delivered false s f h = refl

  pub transfer_nothing :
      (ev : Ready) (k : Calls) (p : Pair P)
      → ev.read ≡ false
      → ev.write ≡ false
      → transfer P ev k p ≡ going p (no_traffic P)
  unfolding transfer
  transfer_nothing ev k p r w = rw (w, r) refl

  -- Where nothing can be delivered, nothing is moved.
  idle-Follows :
      (s : State) (ev : Ready) (k : Calls) (i : Instance P) (c : Connection P)
      → c.state ≡ s
      → Rests P s c
      → IsScheduled ev c.incoming
      → read_pending c.incoming ≡ false
      → write_pending c.incoming ≡ false
      → Follows P s (finish_incoming P i c (transfer P ev k (Ready.client_side P c)))
  unfolding finish_incoming
  idle-Follows s ev k i c e rests (f, g) r w =
      rw
        (transfer_nothing ev k (Ready.client_side P c) (not_delivered _ _ f r)
          (not_delivered _ _ g w))
        (lives s e idles rests)

  ended :
      (i : Instance P) (c : Connection P) (es hs : List (Effect P))
      → Moves P es
      → Shuts P hs
      → Follows P ready (emit (es ++ hs) (destroy P i c))
  ended i c es hs m h = destroy_after P ready (es ++ hs) i c (λ fs cl. ends m h cl)

  shut_server : (b : Bool) → Shuts P (if b then shutdown_server ∷ [] else [])
  shut_server true = server_side
  shut_server false = neither

  shut_client : (b : Bool) → Shuts P (if b then shutdown_client ∷ [] else [])
  shut_client true = client_side
  shut_client false = neither

  finish_incoming-Follows :
      (i : Instance P) (c : Connection P) (x : Transfer P)
      → c.state ≡ ready
      → Follows P ready (finish_incoming P i c x)
  unfolding finish_incoming
  finish_incoming-Follows i c (going q t) e = lives ready e (forwards (from_client _ _ _)) tt
  finish_incoming-Follows i c (closing q t) e =
      ended _ _ (to_client t.to_near ∷ to_server t.to_far ∷ give_back t.puts ∷ []) _
        (from_client _ _ _) (shut_server t.shut_far)
  finish_incoming-Follows i c (fault f) e = fails

  finish_outgoing-Follows :
      (i : Instance P) (c : Connection P) (x : Transfer P)
      → c.state ≡ ready
      → Follows P ready (finish_outgoing P i c x)
  unfolding finish_outgoing
  finish_outgoing-Follows i c (going q t) e = lives ready e (forwards (from_server _ _ _)) tt
  finish_outgoing-Follows i c (closing q t) e =
      ended _ _ (to_server t.to_near ∷ to_client t.to_far ∷ give_back t.puts ∷ []) _
        (from_server _ _ _) (shut_client t.shut_far)
  finish_outgoing-Follows i c (fault f) e = fails

  incoming_by_state-Follows :
      (s : State) (ev : Ready) (l : LoginCalls) (k : Calls) (i : Instance P) (c : Connection P)
      → c.state ≡ s
      → Rests P s c
      → IsScheduled ev c.incoming
      → Follows P s (check_that (not c.connect_pending) (incoming_by_state P ev l k i c s))
  unfolding incoming_by_state receive_login_packets receive_play_server
  incoming_by_state-Follows initial ev l k i c e r d = search (
    follows,
    received_login-Follows P l i c
        (read_no_wait (sizeof_initial_packets - c.initial_packets_fill) l.received) e r,
  )
  incoming_by_state-Follows check_credentials ev l k i c e r d =
      search (follows, idle-Follows check_credentials ev k i c e r d r.2 r.1)
  incoming_by_state-Follows server_list ev l k i c e r d =
      search (follows, received_play_server-Follows P i c l.received r)
  incoming_by_state-Follows connecting ev l k i c e r d = rw r.0 fails
  incoming_by_state-Follows send_play_server ev l k i c e r d =
      search (follows, idle-Follows send_play_server ev k i c e r d r.1 r.0)
  incoming_by_state-Follows ready ev l k i c e r d = search (follows, finish_incoming-Follows, e)

  pub on_incoming_ready-Follows :
      (s : State) (ev : Ready) (l : LoginCalls) (k : Calls) (i : Instance P) (c : Connection P)
      → c.state ≡ s
      → Rests P s c
      → IsScheduled ev c.incoming
      → Follows P s (on_incoming_ready P ev l k i c)
  unfolding on_incoming_ready
  on_incoming_ready-Follows s ev l k i c e r d =
      let by_state : Follows P s
          (check_that (not c.connect_pending) (incoming_by_state P ev l k i c c.state)) =
        subst
          (λ t. Follows P s (check_that (not c.connect_pending) (incoming_by_state P ev l k i c t)))
          (sym e) (incoming_by_state-Follows s ev l k i c e r d) in
      search (follows, by_state)

  receive_server_list-Follows :
      (k : ServerCalls) (i : Instance P) (c : Connection P)
      → Follows P send_play_server (receive_server_list P k i c)
  unfolding receive_server_list
  receive_server_list-Follows k i c = search (follows, played, unplayed)
    where
      played : Follows P send_play_server (
          alive i
            (record c { incoming = P.schedule_read c.incoming; state = ready })
            (to_server (play_server_zero P) ∷ []))
      played = lives ready refl plays tt

      unplayed :
          Follows P send_play_server (emit (to_server (play_server_zero P) ∷ []) (destroy P i c))
      unplayed =
          destroy_after P send_play_server (to_server (play_server_zero P) ∷ []) i c
            (λ fs cl. cannot_play cl)

  outgoing_by_state-Follows :
      (s : State) (ev : Ready) (k : ServerCalls) (t : Calls) (i : Instance P) (c : Connection P)
      → c.state ≡ s
      → Follows P s (outgoing_by_state P ev k t i c s)
  unfolding outgoing_by_state
  outgoing_by_state-Follows send_play_server ev k t i c e = receive_server_list-Follows k i c
  outgoing_by_state-Follows ready ev k t i c e = finish_outgoing-Follows i c _ e
  outgoing_by_state-Follows initial ev k t i c e = fails
  outgoing_by_state-Follows check_credentials ev k t i c e = fails
  outgoing_by_state-Follows server_list ev k t i c e = fails
  outgoing_by_state-Follows connecting ev k t i c e = fails

  pub on_outgoing_ready-Follows :
      (s : State) (ev : Ready) (k : ServerCalls) (t : Calls) (i : Instance P) (c : Connection P)
      → c.state ≡ s
      → Follows P s (on_outgoing_ready P ev k t i c)
  unfolding on_outgoing_ready
  on_outgoing_ready-Follows s ev k t i c e =
      let by_state : Follows P s (outgoing_by_state P ev k t i c c.state) =
        subst (λ u. Follows P s (outgoing_by_state P ev k t i c u)) (sym e)
          (outgoing_by_state-Follows s ev k t i c e) in
      search (follows, by_state)
