-- ===== src/Connection/Sound/Outgoing.antt =====
-- An event of the game server's socket keeps a connection well.
use uologin.Prelude.{◌&&◌, ◌≡◌, ◌∙◌, refl, sym, subst, true, false, not, List, arith}
use uologin.External.{Platform}
use uologin.Instance.{Instance}
use uologin.Connection.{
  State, Fault, exception, initial, check_credentials, server_list, connecting, send_play_server,
  ready, Connection, Effect, alive,
}
use uologin.Connection.Follows.{Rests}
use uologin.Connection.Steady.{Stuck, Kernel, Settled, goes_on, ends, no_pipe, transfer-Settled}
use uologin.Connection.Well.{
  Well, Stays, lives, fails, emit-Stays, destroy-Stays, branch-Stays, tested-Stays, passed,
}
use uologin.Connection.Sockets.{Keeps, SameDefined, transfer-SameDefined}
use uologin.Connection.Server.{ServerCalls, receive_server_list}
use uologin.Connection.Transfer.{Ready, Calls, Transfer, going, closing, fault}
use uologin.Connection.Ready.{server_side, finish_outgoing, outgoing_by_state, on_outgoing_ready}
use uologin.Connection.Sound.{Steady-mirrored, begins}

module _ (P : Platform) where
  open P use {read_pending, write_pending}

  module _ (B : Type 0) (F : Fault → Type 0) where
    ruleset stays = (emit-Stays, destroy-Stays, branch-Stays)

    finish_outgoing-Stays :
        (N : Type 0) (i : Instance P) (c : Connection P) (x : Transfer P)
        → c.state ≡ ready
        → Well P B ready c
        → Settled P N x
        → Keeps P (SameDefined P) (server_side P c) x
        → (N → F exception)
        → Stays P B F (finish_outgoing P i c x)
    unfolding finish_outgoing
    finish_outgoing-Stays N i c (going q t) e (s, p, n, d, o) (goes_on h) k thrown =
        lives ready e (record { to_far = h.to_near; to_near = h.to_far }, p, n, d, k.1 ∙ o)
    finish_outgoing-Stays N i c (closing q t) e w ends k thrown = search (stays)
    finish_outgoing-Stays N i c (fault f) e w (no_pipe m) k thrown = fails (thrown m)

    receive_server_list-Stays :
        (k : ServerCalls) (i : Instance P) (c : Connection P)
        → Rests P send_play_server c
        → Well P B send_play_server c
        → Stays P B F (receive_server_list P k i c)
    unfolding receive_server_list
    receive_server_list-Stays k i c r (a, b, v, p, n, t, o) = search (stays, played) depth 9
      where
        played :
            (es : List (Effect P))
            → Stays P B F
                (alive i (record c { incoming = P.schedule_read c.incoming; state = ready }) es)
        played es = lives ready refl (
          begins P (record c { incoming = P.schedule_read c.incoming; state = ready }) a b
              (P.schedule_read_write c.incoming ∙ r.0) v,
          p,
          n,
          t,
          P.schedule_read_defined c.incoming ∙ o,
        )

    outgoing_by_state-Stays :
        (s : State) (ev : Ready) (k : ServerCalls) (t : Calls) (i : Instance P) (c : Connection P)
        → c.state ≡ s
        → Rests P s c
        → Well P B s c
        → P.is_defined c.outgoing ≡ true
        → (ev.write ≡ true → write_pending c.outgoing ≡ true)
        → (s ≡ ready → Kernel P (server_side P c) t)
        → (s ≡ ready → Stuck P ev t (server_side P c) → F exception)
        → Stays P B F (outgoing_by_state P ev k t i c s)
    unfolding outgoing_by_state
    outgoing_by_state-Stays send_play_server ev k t i c e r w o d n thrown =
        receive_server_list-Stays k i c r w
    outgoing_by_state-Stays ready ev k t i c e r w o d n thrown =
        finish_outgoing-Stays (Stuck P ev t (server_side P c)) i c _ e w
          (transfer-Settled P t ev (server_side P c) (Steady-mirrored P c w.0) (n refl) d)
          (transfer-SameDefined P ev t (server_side P c)) (thrown refl)
    outgoing_by_state-Stays initial ev k t i c e r w o d n thrown = absurd (ground (arith, w.0.2))
    outgoing_by_state-Stays check_credentials ev k t i c e r w o d n thrown =
        absurd (ground (arith, w.0.2))
    outgoing_by_state-Stays server_list ev k t i c e r w o d n thrown =
        absurd (ground (arith, w.0.2))
    outgoing_by_state-Stays connecting ev k t i c e r w o d n thrown =
        absurd (ground (arith, w.0.2))

    pub on_outgoing_ready-Stays :
        (s : State) (ev : Ready) (k : ServerCalls) (t : Calls) (i : Instance P) (c : Connection P)
        → c.state ≡ s
        → Rests P s c
        → Well P B s c
        → P.is_defined c.outgoing ≡ true
        → (ev.write ≡ true → write_pending c.outgoing ≡ true)
        → (s ≡ ready → Kernel P (server_side P c) t)
        → (ev.dead ≡ false → s ≡ ready → Stuck P ev t (server_side P c) → F exception)
        → Stays P B F (on_outgoing_ready P ev k t i c)
    unfolding on_outgoing_ready
    on_outgoing_ready-Stays s ev k t i c e r w o d n thrown =
        let known : (P.is_defined c.incoming && not c.connect_pending) ≡ true = asserted s e w in
        passed P B F _ _ known (
          tested-Stays P B F ev.dead _ _ (λ h. destroy-Stays P B F _ c)
            (λ h.
              subst (λ u. Stays P B F (outgoing_by_state P ev k t i c u)) (sym e)
                (outgoing_by_state-Stays s ev k t i c e r w o d n (thrown h))))
      where
        asserted :
            (s : State)
            → c.state ≡ s
            → Well P B s c
            → (P.is_defined c.incoming && not c.connect_pending) ≡ true
        asserted send_play_server e w = rw (w.6, w.3) refl
        asserted ready e w = rw (w.4, w.1) refl
        asserted initial e w = absurd (ground (arith, w.0.2, o))
        asserted check_credentials e w = absurd (ground (arith, w.0.2, o))
        asserted server_list e w = absurd (ground (arith, w.0.2, o))
        asserted connecting e w = absurd (ground (arith, w.0.2, o))
