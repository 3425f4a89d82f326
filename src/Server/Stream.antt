-- ===== src/Server/Stream.antt =====
-- All that a connection forwards.
use uologin.Prelude.{◌≡◌, ◌≢◌, ◌∙◌, refl, sym, ap, Bool, true, List, ◌++◌, ℕ}
use uologin.External.{Platform}
use uologin.Instance.{Instance}
use uologin.Splice.Fifo.{content}
use uologin.Connection.{
  State, initial, check_credentials, server_list, connecting, send_play_server, ready, Connection,
  Effect, Outcome, alive,
}
use uologin.Connection.Enters.{
  Hollow, Enters, goes_on, on_incoming_ready-Enters, on_outgoing_ready-Enters,
  on_check_credentials-Enters, on_socket_connect_success-Enters, on_socket_connect_error-Enters,
  on_timeout-Enters,
}
use uologin.Connection.Gate.{to_servers}
use uologin.Connection.Well.{Well}
use uologin.Server.{
  Handles, incoming_ready, outgoing_ready, credentials_checked, connect_success, connect_error,
  timeout,
}
use uologin.Server.Relay.{Relays, Relays-carries, to_clients}
use uologin.Server.Served.{IsDue, IsConfigured, Served, serves, Served-Well}

module _ (P : Platform) where
  Handles-Enters :
      {i : Instance P} (c : Connection P) {o : Outcome P}
      → c.state ≢ ready
      → Hollow P c
      → Handles P i c o
      → Enters P o
  Handles-Enters {i} c n h (incoming_ready ev l k) = on_incoming_ready-Enters P ev l k i c n h
  Handles-Enters {i} c n h (outgoing_ready ev s k) = on_outgoing_ready-Enters P ev s k i c n h
  Handles-Enters {i} c n h (credentials_checked result send_ok) =
      on_check_credentials-Enters P result send_ok i c h
  Handles-Enters {i} c n h (connect_success sent) = on_socket_connect_success-Enters P sent i c h
  Handles-Enters {i} c n h connect_error = on_socket_connect_error-Enters P i c h
  Handles-Enters {i} c n h timeout = on_timeout-Enters P i c h

  Well-Hollow :
      (listed : Bool) (s : State) (c : Connection P)
      → s ≢ ready
      → Well P (listed ≡ true) s c
      → Hollow P c
  Well-Hollow listed initial c n w = (w.0.0, w.0.1)
  Well-Hollow listed check_credentials c n w = (w.0.0, w.0.1)
  Well-Hollow listed server_list c n w = (w.0.0, w.0.1)
  Well-Hollow listed connecting c n w = (w.0.0, w.0.1)
  Well-Hollow listed send_play_server c n w = (w.0, w.1)
  Well-Hollow listed ready c n w = absurd (n refl)

  entered :
      {j : Instance P} {d : Connection P} {es : List (Effect P)}
      → Enters P (alive j d es)
      → d.state ≡ ready
      → Hollow P d
  entered (goes_on h) e = h e

  -- From the handler on with which a connection starts to forward, as long as it exists, while the
  -- event loop delivers only what it waits for, splice() moves no more than there is, a pipe holds less
  -- than 2 ^ 32 bytes and one from the stock is empty: it goes on to forward, and in both directions
  -- all that was read from one side is, in this order and with nothing lost or repeated, what was sent
  -- to the other side followed by what the pipe holds.
  pub Relays-stream :
      {listed : Bool} {before es fs : List (Effect P)} {a b : List ℕ} {c d e : Connection P}
      {i j : Instance P}
      → Served P listed before c
      → c.state ≢ ready
      → (h : Handles P i c (alive j d fs)) → IsDue P c h
      → IsConfigured P listed i
      → d.state ≡ ready
      → Relays P listed d a b es e
      → (e.state ≡ ready)
        × (a ≡ to_servers P es ++ content e.splice_in_out)
        × (b ≡ to_clients P es ++ content e.splice_out_in)
  Relays-stream {listed} {a} {b} {c} {d} s n h due l at_once r =
      let hollow =
        entered (Handles-Enters c n (Well-Hollow listed c.state c n (Served-Well P s)) h) at_once in
      let (still, in_out, out_in) = Relays-carries P (serves s h due l) at_once r in
      (
        still,
        ap (λ x. content x ++ a) (sym hollow.0) ∙ in_out,
        ap (λ x. content x ++ b) (sym hollow.1) ∙ out_in,
      )
