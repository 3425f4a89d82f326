-- ===== src/Connection/Sound/Awaited.antt =====
-- An answer that a connection waits for keeps it well: to a connect, to a check, or a timeout.
use uologin.Prelude.{
  ◌&&◌, ◌≡◌, ◌≢◌, ◌∙◌, refl, subst, Bool, true, false, none, List, arith, if◌then◌else◌, Bool-cases,
  inl, inr,
}
use uologin.External.{Platform}
use uologin.Instance.{Instance}
use uologin.Connection.{
  State, Fault, initial, check_credentials, server_list, connecting, send_play_server, ready,
  Connection, Effect, alive,
}
use uologin.Connection.Follows.{Rests}
use uologin.Connection.Well.{
  Well, IsListed, Stays, lives, emit-Stays, destroy-Stays, branch-Stays, passed,
}
use uologin.Connection.Well.Logins.{on_check_credentials-Stays}
use uologin.Connection.Login.{is_complete, on_check_credentials}
use uologin.Connection.Server.{is_connecting, on_socket_connect_success, on_socket_connect_error}
use uologin.Connection.Ready.{on_timeout}
use uologin.Connection.Sound.{begins}

module _ (P : Platform) where
  open P use {read_pending, write_pending}

  module _ (B : Type 0) (F : Fault → Type 0) where
    ruleset stays = (emit-Stays, destroy-Stays, branch-Stays)

    -- An answer to a connect or to a check comes only while one is waited for.
    awaited :
        (s : State) (c : Connection P) → Well P B s c → c.connect_pending ≡ true → s ≡ connecting
    awaited initial c w h = absurd (ground (arith, w.1))
    awaited check_credentials c w h = absurd (ground (arith, w.1))
    awaited server_list c w h = absurd (ground (arith, w.1))
    awaited connecting c w h = refl
    awaited send_play_server c w h = absurd (ground (arith, w.3))
    awaited ready c w h = absurd (ground (arith, w.1))

    checked :
        (s : State) (c : Connection P) → Well P B s c → c.cancel_ptr ≢ none → s ≡ check_credentials
    checked initial c w h = absurd (h w.2)
    checked check_credentials c w h = refl
    checked server_list c w h = absurd (h w.2)
    checked connecting c w h = absurd (h w.1)
    checked send_play_server c w h = absurd (h w.4)
    checked ready c w h = absurd (h w.2)

    pub credentials_checked-Stays :
        (s : State) (result sent : Bool) (i : Instance P) (c : Connection P)
        → c.state ≡ s
        → Well P B s c
        → c.cancel_ptr ≢ none
        → IsListed P B i
        → Stays P B F (on_check_credentials P result sent i c)
    credentials_checked-Stays s result sent i c e w h listed =
        let same = checked s c w h in
        on_check_credentials-Stays P B F result sent i c (e ∙ same)
          (subst (λ t. Well P B t c) same w) listed

    connected-Stays :
        (sent : Bool) (i : Instance P) (c : Connection P)
        → c.state ≡ connecting
        → Rests P connecting c
        → Well P B connecting c
        → Stays P B F (on_socket_connect_success P sent i c)
    unfolding on_socket_connect_success
    connected-Stays sent i c e (pending, w, q) ((a, b, o), n, t, _, full, defd) =
        search (passed, stays, known, turned)
      where
        known : (is_connecting c.state && is_complete c) ≡ true
        known = rw (e, full) refl

        opened : Connection P
        opened = record c {
          connect_pending = false;
          outgoing = P.schedule_read (P.open_socket c.outgoing);
        }

        no_write : write_pending opened.outgoing ≡ false
        no_write = P.schedule_read_write (P.open_socket c.outgoing) ∙ P.open_no_write c.outgoing

        turned :
            (j : Instance P) (es : List (Effect P))
            → Stays P B F (
                alive j
                  (if c.play_server_wanted
                    then record opened { state = send_play_server }
                    else record opened { incoming = P.schedule_read c.incoming; state = ready })
                  es)
        turned j es = elim (Bool-cases c.play_server_wanted) [
          | inl h ↦ rw h (lives send_play_server refl (a, b, no_write, refl, n, t, defd))
          | inr h ↦ rw h (
              lives ready refl (
                begins P (record opened { incoming = P.schedule_read c.incoming; state = ready }) a
                    b (P.schedule_read_write c.incoming ∙ w) no_write,
                refl,
                n,
                t,
                P.schedule_read_defined c.incoming ∙ defd,
              ))
        ]

    pub on_socket_connect_success-Stays :
        (s : State) (sent : Bool) (i : Instance P) (c : Connection P)
        → c.state ≡ s
        → Rests P s c
        → Well P B s c
        → c.connect_pending ≡ true
        → Stays P B F (on_socket_connect_success P sent i c)
    on_socket_connect_success-Stays s sent i c e r w h =
        let same = awaited s c w h in
        connected-Stays sent i c (e ∙ same) (subst (λ t. Rests P t c) same r)
          (subst (λ t. Well P B t c) same w)

    pub on_socket_connect_error-Stays :
        (s : State) (i : Instance P) (c : Connection P)
        → c.state ≡ s
        → Well P B s c
        → c.connect_pending ≡ true
        → Stays P B F (on_socket_connect_error P i c)
    unfolding on_socket_connect_error
    on_socket_connect_error-Stays s i c e w h =
        let same : c.state ≡ connecting = e ∙ awaited s c w h in
        let known : is_connecting c.state ≡ true = rw same refl in
        passed P B F _ _ known (destroy-Stays P B F _ _)

    pub on_timeout-Stays : (i : Instance P) (c : Connection P) → Stays P B F (on_timeout P i c)
    unfolding on_timeout
    on_timeout-Stays i c = search (stays)
