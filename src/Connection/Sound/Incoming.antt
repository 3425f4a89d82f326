-- ===== src/Connection/Sound/Incoming.antt =====
-- An event of the client's socket keeps a connection well.
use uologin.Prelude.{◌-◌, ltb, ◌&&◌, ◌≡◌, ◌∙◌, refl, ap, sym, subst, true, false, not}
use uologin.External.{Platform}
use uologin.Instance.{Instance}
use uologin.Connection.{
  State, Fault, assertion, exception, initial, check_credentials, server_list, connecting,
  send_play_server, ready, Connection, check_that,
}
use uologin.Connection.Follows.{Rests}
use uologin.Connection.Obeys.{IsScheduled, transfer_nothing}
use uologin.Connection.Steady.{Stuck, Kernel, Settled, goes_on, ends, no_pipe, transfer-Settled}
use uologin.Connection.Well.{
  Well, IsListed, Stays, lives, fails, emit-Stays, destroy-Stays, branch-Stays, tested-Stays,
  passed,
}
use uologin.Connection.Well.Logins.{
  read_no_wait-Fits, received_login-Stays, received_play_server-Stays,
}
use uologin.Connection.Sockets.{Keeps, SameDefined, transfer-SameDefined}
use uologin.Wire.{sizeof_initial_packets}
use uologin.Accounting.{is_empty}
use uologin.Connection.Login.{
  is_initial, is_server_list, is_complete, read_no_wait, LoginCalls, receive_login_packets,
  receive_play_server,
}
use uologin.Connection.Transfer.{Ready, Calls, Transfer, going, closing, fault, transfer}
use uologin.Connection.Ready.{client_side, finish_incoming, incoming_by_state, on_incoming_ready}
use uologin.Connection.Sound.{IsSome, reads}

module _ (P : Platform) where
  open P use {read_pending, write_pending}

  module _ (B : Type 0) (F : Fault → Type 0) where
    ruleset stays = (emit-Stays, destroy-Stays, branch-Stays)

    finish_incoming-Stays :
        (N : Type 0) (i : Instance P) (c : Connection P) (x : Transfer P)
        → c.state ≡ ready
        → Well P B ready c
        → Settled P N x
        → Keeps P (SameDefined P) (client_side P c) x
        → (N → F exception)
        → Stays P B F (finish_incoming P i c x)
    unfolding finish_incoming
    finish_incoming-Stays N i c (going q t) e (s, p, n, d, o) (goes_on h) k thrown =
        lives ready e (h, p, n, d, k.0 ∙ o)
    finish_incoming-Stays N i c (closing q t) e w ends k thrown = search (stays)
    finish_incoming-Stays N i c (fault f) e w (no_pipe m) k thrown = fails (thrown m)

    idle-Stays :
        (s : State) (ev : Ready) (k : Calls) (i : Instance P) (c : Connection P)
        → c.state ≡ s
        → Well P B s c
        → ev.read ≡ false
        → ev.write ≡ false
        → Stays P B F (finish_incoming P i c (transfer P ev k (client_side P c)))
    unfolding finish_incoming
    idle-Stays s ev k i c e w r v = rw (transfer_nothing P ev k (client_side P c) r v) (lives s e w)

    incoming_by_state-Stays :
        (s : State) (ev : Ready) (l : LoginCalls) (k : Calls) (i : Instance P) (c : Connection P)
        → c.state ≡ s
        → Rests P s c
        → Well P B s c
        → IsListed P B i
        → IsScheduled P ev c.incoming
        → IsSome ev
        → ev.dead ≡ false
        → (s ≡ ready → Kernel P (client_side P c) k)
        → (s ≡ connecting → ev.read ≡ true → read_pending c.incoming ≡ true → F assertion)
        → (s ≡ ready → Stuck P ev k (client_side P c) → F exception)
        → Stays P B F (check_that (not c.connect_pending) (incoming_by_state P ev l k i c s))
    unfolding incoming_by_state receive_login_packets receive_play_server
    incoming_by_state-Stays initial ev l k i c e r w listed d some_ alive_ n early thrown =
        let (event, _) = reads P ev c.incoming alive_ some_ d r.1 in
        let known : (is_initial c.state && ltb c.initial_packets_fill sizeof_initial_packets)
            ≡ true =
          rw e w.4 in
        passed P B F _ _ (ap not w.1) (
          passed P B F _ _ event (
            passed P B F _ _ known (
              received_login-Stays P B F l i c
                (read_no_wait (sizeof_initial_packets - c.initial_packets_fill) l.received) e w
                listed (read_no_wait-Fits c.initial_packets_fill l.received w.4))))
    incoming_by_state-Stays check_credentials ev l k i c e r w listed d some_ alive_ n early
          thrown =
        let (_, reading) = reads P ev c.incoming alive_ some_ d r.1 in cc
    incoming_by_state-Stays server_list ev l k i c e r w listed d some_ alive_ n early thrown =
        let (event, _) = reads P ev c.incoming alive_ some_ d r in
        let nonempty = listed.0 w.6 in
        let known : (is_server_list c.state && not (is_empty i.config.server_list) && is_complete c)
            ≡ true =
          rw (e, nonempty, w.4) refl in
        passed P B F _ _ (ap not w.1) (
          passed P B F _ _ event
            (passed P B F _ _ known (received_play_server-Stays P B F i c l.received w)))
    incoming_by_state-Stays connecting ev l k i c e r w listed d some_ alive_ n early thrown =
        let (event, reading) = reads P ev c.incoming alive_ some_ d r.1 in
        rw r.0 (fails (early refl event reading))
    incoming_by_state-Stays send_play_server ev l k i c e r w listed d some_ alive_ n early thrown =
        let (_, reading) = reads P ev c.incoming alive_ some_ d r.0 in cc
    incoming_by_state-Stays ready ev l k i c e r w listed d some_ alive_ n early thrown =
        passed P B F _ _ (ap not w.1) (
          finish_incoming-Stays (Stuck P ev k (client_side P c)) i c _ e w
            (transfer-Settled P k ev (client_side P c) w.0 (n refl) d.1)
            (transfer-SameDefined P ev k (client_side P c)) (thrown refl))

    pub on_incoming_ready-Stays :
        (s : State) (ev : Ready) (l : LoginCalls) (k : Calls) (i : Instance P) (c : Connection P)
        → c.state ≡ s
        → Rests P s c
        → Well P B s c
        → IsListed P B i
        → IsScheduled P ev c.incoming
        → IsSome ev
        → (s ≡ ready → Kernel P (client_side P c) k)
        → (ev.dead ≡ false
            → s ≡ connecting
            → ev.read ≡ true
            → read_pending c.incoming ≡ true
            → F assertion)
        → (ev.dead ≡ false → s ≡ ready → Stuck P ev k (client_side P c) → F exception)
        → Stays P B F (on_incoming_ready P ev l k i c)
    unfolding on_incoming_ready
    on_incoming_ready-Stays s ev l k i c e r w listed d some_ n early thrown =
        tested-Stays P B F ev.dead _ _ (λ h. destroy-Stays P B F _ c)
          (λ h.
            subst
              (λ t.
                Stays P B F (check_that (not c.connect_pending) (incoming_by_state P ev l k i c t)))
              (sym e)
              (incoming_by_state-Stays s ev l k i c e r w listed d some_ h n (early h) (thrown h)))
