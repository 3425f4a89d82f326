-- ===== src/Connection/Sound.antt =====
-- The events of the sockets keep a connection well: what the handlers share.
pub mod Incoming
pub mod Outgoing
pub mod Awaited
use uologin.Prelude.{
  ◌-◌, ltb, ◌&&◌, ◌≡◌, ◌≢◌, ◌⊎◌, ◌∙◌, refl, ap, sym, subst, Bool, true, false, not, none, List,
  arith, if◌then◌else◌, Bool-cases, inl, inr,
}
use uologin.External.{Platform}
use uologin.Instance.{Instance}
use uologin.Splice.{empty}
use uologin.Splice.Fifo.{empty-Carries}
use uologin.Connection.{
  State, Fault, assertion, exception, initial, check_credentials, server_list, connecting,
  send_play_server, ready, Connection, Effect, alive, check_that,
}
use uologin.Connection.Follows.{Rests}
use uologin.Connection.Obeys.{IsScheduled, transfer_nothing}
use uologin.Connection.Steady.{
  Stuck, Steady, Backs, Kernel, Settled, goes_on, ends, no_pipe, transfer-Settled,
}
use uologin.Connection.Sockets.{Keeps, SameDefined, transfer-SameDefined}
use uologin.Wire.{sizeof_initial_packets}
use uologin.Accounting.{is_empty}
use uologin.Connection.Login.{
  is_initial, is_server_list, is_complete, read_no_wait, LoginCalls, on_check_credentials,
  receive_login_packets, receive_play_server,
}
use uologin.Connection.Server.{
  ServerCalls, is_connecting, receive_server_list, on_socket_connect_success,
  on_socket_connect_error,
}
use uologin.Connection.Transfer.{Ready, Calls, Transfer, going, closing, fault, transfer}
use uologin.Connection.Ready.{
  client_side, server_side, finish_incoming, finish_outgoing, incoming_by_state, outgoing_by_state,
  on_incoming_ready, on_outgoing_ready, on_timeout,
}

-- The event loop reports something.
abbrev pub IsSome : Ready → Type 0
IsSome ev = (ev.dead ≡ true) ⊎ (ev.read ≡ true) ⊎ (ev.write ≡ true)

module _ (P : Platform) where
  open P use {read_pending, write_pending}

  -- An event of a socket that waits for nothing to write is one to read.
  pub reads :
      (ev : Ready) (s : P.Socket)
      → ev.dead ≡ false
      → IsSome ev
      → IsScheduled P ev s
      → write_pending s ≡ false
      → (ev.read ≡ true) × (read_pending s ≡ true)
  reads ev s d (inl h) (r, w) q = cc
  reads ev s d (inr (inl h)) (r, w) q = (h, r h)
  reads ev s d (inr (inr h)) (r, w) q = absurd (ground (arith, w h))

  pub Steady-mirrored : (c : Connection P) → Steady P (client_side P c) → Steady P (server_side P c)
  Steady-mirrored c s = record { to_far = s.to_near; to_near = s.to_far }

  Backs_nothing : (t : P.Socket) → write_pending t ≡ false → Backs P t empty
  Backs_nothing t w = record {
    valid = empty-Carries.0;
    waits = ((λ h. absurd (ground arith)), λ h. absurd (h refl));
  }

  -- A connection that begins to forward.
  pub begins :
      (c : Connection P)
      → c.splice_in_out ≡ empty
      → c.splice_out_in ≡ empty
      → write_pending c.incoming ≡ false
      → write_pending c.outgoing ≡ false
      → Steady P (client_side P c)
  begins c a b w v = record {
    to_far = subst (Backs P c.outgoing) (sym a) (Backs_nothing c.outgoing v);
    to_near = subst (Backs P c.incoming) (sym b) (Backs_nothing c.incoming w);
  }
