-- ===== src/Connection/Answers.antt =====
-- The handlers of a checked password, of a connect and of the timeout keep to the protocol.
use uologin.Prelude.{ℕ, ◌≡◌, refl, Bool, true, false, List, [], ◌∷◌, if◌then◌else◌}
use uologin.External.{Platform}
use uologin.Instance.{Instance}
use uologin.Connection.{
  State, initial, check_credentials, server_list, connecting, send_play_server, ready, Connection,
  to_server, alive, emit, destroy,
}
use uologin.Connection.Protocol.{hands_over, hands_over_first, cannot_hand_over}
use uologin.Connection.Follows.{
  Rests, Follows, lives, fails, destroy-Follows, destroy_after, check_that-Follows, branch-Follows,
  on_check_credentials-Follows,
}
use uologin.Connection.Login.{on_check_credentials}
use uologin.Connection.Server.{on_socket_connect_success, on_socket_connect_error}
use uologin.Connection.Ready.{on_timeout}

module _ (P : Platform) where
  open P use {read_pending, write_pending}

  ruleset follows = (branch-Follows, check_that-Follows, destroy-Follows)

  handed_over :
      (b : Bool) (j : Instance P) (d : Connection P) (packets : List ℕ)
      → write_pending d.incoming ≡ false
      → (b ≡ true → read_pending d.incoming ≡ false)
      → Follows P connecting (
          emit (to_server packets ∷ []) (
            alive j
              (if b
                then record d { state = send_play_server }
                else record d { incoming = P.schedule_read d.incoming; state = ready })
              []))
  handed_over true j d packets w r =
      lives send_play_server refl (hands_over_first packets) (w, r refl)
  handed_over false j d packets w r = lives ready refl (hands_over packets) tt

  pub on_socket_connect_success-Follows :
      (s : State) (sent : Bool) (i : Instance P) (c : Connection P)
      → c.state ≡ s
      → Rests P s c
      → Follows P s (on_socket_connect_success P sent i c)
  unfolding on_socket_connect_success
  on_socket_connect_success-Follows connecting true i c e (pending, w, r) =
      search (follows, connected)
    where
      opened : Connection P
      opened = record c {
        connect_pending = false;
        outgoing = P.schedule_read (P.open_socket c.outgoing);
      }

      connected :
          (j : Instance P) (packets : List ℕ)
          → Follows P connecting (
              emit (to_server packets ∷ []) (
                alive j
                  (if c.play_server_wanted
                    then record opened { state = send_play_server }
                    else record opened { incoming = P.schedule_read c.incoming; state = ready })
                  []))
      connected j packets = handed_over c.play_server_wanted j opened packets w r
  on_socket_connect_success-Follows connecting false i c e r = search (follows, not_connected)
    where
      not_connected :
          (j : Instance P) (d : Connection P) (packets : List ℕ)
          → Follows P connecting (emit (to_server packets ∷ []) (destroy P j d))
      not_connected j d packets =
          destroy_after P connecting (to_server packets ∷ []) j d
            (λ fs cl. cannot_hand_over packets cl)
  on_socket_connect_success-Follows initial sent i c e r = rw e fails
  on_socket_connect_success-Follows check_credentials sent i c e r = rw e fails
  on_socket_connect_success-Follows server_list sent i c e r = rw e fails
  on_socket_connect_success-Follows send_play_server sent i c e r = rw e fails
  on_socket_connect_success-Follows ready sent i c e r = rw e fails

  pub on_socket_connect_error-Follows :
      (s : State) (i : Instance P) (c : Connection P) → Follows P s (on_socket_connect_error P i c)
  unfolding on_socket_connect_error
  on_socket_connect_error-Follows s i c = search (follows)

  pub on_timeout-Follows :
      (s : State) (i : Instance P) (c : Connection P) → Follows P s (on_timeout P i c)
  unfolding on_timeout
  on_timeout-Follows s i c = search (follows)

  pub credentials_checked-Follows :
      (s : State) (result sent : Bool) (i : Instance P) (c : Connection P)
      → c.state ≡ s
      → Rests P s c
      → Follows P s (on_check_credentials P result sent i c)
  unfolding on_check_credentials
  credentials_checked-Follows check_credentials result sent i c e (wanted, w, r) =
      on_check_credentials-Follows P check_credentials result sent i c tt wanted w
  credentials_checked-Follows initial result sent i c e r = rw e fails
  credentials_checked-Follows server_list result sent i c e r = rw e fails
  credentials_checked-Follows connecting result sent i c e r = rw e fails
  credentials_checked-Follows send_play_server result sent i c e r = rw e fails
  credentials_checked-Follows ready result sent i c e r = rw e fails
