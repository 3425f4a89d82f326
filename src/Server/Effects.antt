-- ===== src/Server/Effects.antt =====
-- What one event does to the accounting of the clients.
use uologin.Prelude.{ℕ, subst, Option, none, some}
use uologin.External.{Platform}
use uologin.Accounting.{AccountingMap}
use uologin.Accounting.Ids.{Leaves, on_cleanup_timer-Leaves}
use uologin.Instance.{Instance}
use uologin.Connection.{Connection, Outcome}
use uologin.Connection.Ends.{
  Ends, Fits, on_check_credentials-Ends, on_incoming_ready-Ends, on_outgoing_ready-Ends,
  on_timeout-Ends, on_socket_connect_error-Ends, on_socket_connect_success-Ends,
}
use uologin.Knock.{Knocked, ignored, pending, answered, leaked, terminated}
use uologin.Knock.Leaving.{
  Keeps, on_check_credentials-Keeps, on_udp_datagram-Keeps, after_ignored, after_pending,
  after_answered, after_leaked, after_terminated,
}
use uologin.Server.{
  Handles, incoming_ready, outgoing_ready, credentials_checked, connect_success, connect_error,
  timeout, Changes, after_knock, datagram, knock_answered, cleaned, time_passed,
}

module _ (P : Platform) where
  pub Handles-Ends :
      (m : AccountingMap P) (p : Option ℕ) (n : ℕ) {i : Instance P} {c : Connection P}
      {o : Outcome P}
      → Fits P m p n i c
      → Handles P i c o
      → Ends P m p n o
  Handles-Ends m p n {i} {c} h (incoming_ready ev l k) = on_incoming_ready-Ends P m p n ev l k i c h
  Handles-Ends m p n {i} {c} h (outgoing_ready ev s k) = on_outgoing_ready-Ends P m p n ev s k i c h
  Handles-Ends m p n {i} {c} h (credentials_checked result send_ok) =
      on_check_credentials-Ends P m p n result send_ok i c h
  Handles-Ends m p n {i} {c} h (connect_success sent) =
      on_socket_connect_success-Ends P m p n sent i c h
  Handles-Ends m p n {i} {c} h connect_error = on_socket_connect_error-Ends P m p n i c h
  Handles-Ends m p n {i} {c} h timeout = on_timeout-Ends P m p n i c h

  abbrev Stays : AccountingMap P → Option (Instance P) → Type 0
  Stays m none = Unit {0}
  Stays m (some j) = Leaves P m j.client_accounting

  Stays-after : (m : AccountingMap P) (k : Knocked P) → Keeps P m k → Stays m (after_knock P k)
  Stays-after m (ignored j) (after_ignored l) = l
  Stays-after m (pending j r k) (after_pending l) = l
  Stays-after m (answered j e) (after_answered l) = l
  Stays-after m (leaked j) (after_leaked l) = l
  Stays-after m terminated after_terminated = tt

  pub Changes-Leaves :
      {i j : Instance P}
      → Leaves P i.client_accounting i.client_accounting
      → Changes P i j
      → Leaves P i.client_accounting j.client_accounting
  Changes-Leaves {i} l (datagram j w set payload a e) =
      subst (Stays i.client_accounting) e
        (Stays-after _ _ (on_udp_datagram-Keeps P i.client_accounting w set payload a i l))
  Changes-Leaves {i} l (knock_answered j r result e) =
      subst (Stays i.client_accounting) e
        (Stays-after _ _ (on_check_credentials-Keeps P i.client_accounting r result i l))
  Changes-Leaves {i} l cleaned = on_cleanup_timer-Leaves P i.now i.client_accounting l.distinct
  Changes-Leaves l (time_passed now) = l
