-- ===== src/Connection/Stall.antt =====
-- Reading, once stopped because the other side is slow, is never started again.
use uologin.Prelude.{Bool, inl, inr, refl, ◌≡◌, ◌∙◌, ◌++◌, some, true, false, arith, List, [], ◌⊎◌}
use uologin.External.{Platform}
use uologin.Splice.{partial, blocking, Sent, Received, ok, send_to, receive_from}
use uologin.Instance.{Instance}
use uologin.Connection.{ready, Connection, Effect, alive, destroy}
use uologin.Connection.Login.{LoginCalls}
use uologin.Connection.Server.{ServerCalls}
use uologin.Connection.Ready.{
  client_side, server_side, finish_incoming, finish_outgoing, on_incoming_ready, on_outgoing_ready,
}
use uologin.Connection.Sockets.{Keeps, transfer-Keeps}
use uologin.Connection.Transfer.{
  Pair, Ready, Calls, Transfer, going, closing, fault, transfer, Traffic,
}

module _ (P : Platform) where
  open P use {read_pending, cancel_read_read, cancel_write_read, schedule_write_read}

  -- A socket that does not read does not start to.
  abbrev pub Quiet : P.Socket → P.Socket → Type 0
  Quiet s t = read_pending s ≡ false → read_pending t ≡ false

  transfer-Quiet : (ev : Ready) (k : Calls) (p : Pair P) → Keeps P Quiet p (transfer P ev k p)
  transfer-Quiet =
      transfer-Keeps P Quiet (λ s h. h) (λ s t u f g h. g (f h)) (λ s h. cancel_read_read s)
        (λ s h. cancel_write_read s ∙ h) (λ s h. schedule_write_read s ∙ h)

  abbrev BothSilent : P.Socket → P.Socket → P.Socket → P.Socket → Type 0
  BothSilent a b a' b' =
      (read_pending a ≡ false → read_pending a' ≡ false)
      × (read_pending b ≡ false → read_pending b' ≡ false)

  finish_incoming_silent :
      (i j : Instance P) (c d : Connection P) (es : List (Effect P)) (x : Transfer P)
      → Keeps P Quiet (client_side P c) x
      → finish_incoming P i c x ≡ alive j d es
      → BothSilent c.incoming c.outgoing d.incoming d.outgoing × (d.state ≡ c.state)
  unfolding finish_incoming
  finish_incoming_silent i j c d es (going p t) r h = ground arith
  finish_incoming_silent i j c d es (closing p t) r h = absurd (unfold destroy in ground arith)
  finish_incoming_silent i j c d es (fault f) r h = absurd (ground arith)

  finish_outgoing_silent :
      (i j : Instance P) (c d : Connection P) (es : List (Effect P)) (x : Transfer P)
      → Keeps P Quiet (server_side P c) x
      → finish_outgoing P i c x ≡ alive j d es
      → BothSilent c.incoming c.outgoing d.incoming d.outgoing × (d.state ≡ c.state)
  unfolding finish_outgoing
  finish_outgoing_silent i j c d es (going p t) r h = ground arith
  finish_outgoing_silent i j c d es (closing p t) r h = absurd (unfold destroy in ground arith)
  finish_outgoing_silent i j c d es (fault f) r h = absurd (ground arith)

  on_incoming_ready-finish :
      (ev : Ready) (l : LoginCalls) (k : Calls) (i j : Instance P) (c d : Connection P)
      (es : List (Effect P))
      → c.state ≡ ready
      → on_incoming_ready P ev l k i c ≡ alive j d es
      → finish_incoming P i c (transfer P ev k (client_side P c)) ≡ alive j d es
  unfolding on_incoming_ready destroy
  on_incoming_ready-finish ev l k i j c d es s h = ground arith

  on_outgoing_ready-finish :
      (ev : Ready) (l : ServerCalls) (k : Calls) (i j : Instance P) (c d : Connection P)
      (es : List (Effect P))
      → c.state ≡ ready
      → on_outgoing_ready P ev l k i c ≡ alive j d es
      → finish_outgoing P i c (transfer P ev k (server_side P c)) ≡ alive j d es
  unfolding on_outgoing_ready destroy
  on_outgoing_ready-finish ev l k i j c d es s h = ground arith

  -- What can happen to a connection that forwards, as long as it lives.
  pub data Forwarding (c : Connection P) : Connection P → Type 0 where
    here : Forwarding c c
    client_ready :
        {d e : Connection P} (ev : Ready) (l : LoginCalls) (k : Calls) (i j : Instance P)
        (es : List (Effect P))
        → Forwarding c d
        → on_incoming_ready P ev l k i d ≡ alive j e es
        → Forwarding c e
    server_ready :
        {d e : Connection P} (ev : Ready) (s : ServerCalls) (k : Calls) (i j : Instance P)
        (es : List (Effect P))
        → Forwarding c d
        → on_outgoing_ready P ev s k i d ≡ alive j e es
        → Forwarding c e

  stays_silent :
      {c d : Connection P}
      → c.state ≡ ready
      → Forwarding c d
      → BothSilent c.incoming c.outgoing d.incoming d.outgoing × (d.state ≡ ready)
  stays_silent s here = (((λ h. h), (λ h. h)), s)
  stays_silent s (client_ready {d} {e} ev l k i j es f h) =
      let (quiet, still) = stays_silent s f in
      let (quiet', same) =
        finish_incoming_silent i j d e es _ (transfer-Quiet ev k (client_side P d))
          (on_incoming_ready-finish ev l k i j d e es still h) in
      (((λ p. quiet'.0 (quiet.0 p)), (λ p. quiet'.1 (quiet.1 p))), same ∙ still)
  stays_silent s (server_ready {d} {e} ev l k i j es f h) =
      let (quiet, still) = stays_silent s f in
      let (quiet', same) =
        finish_outgoing_silent i j d e es _ (transfer-Quiet ev k (server_side P d))
          (on_outgoing_ready-finish ev l k i j d e es still h) in
      (((λ p. quiet'.0 (quiet.0 p)), (λ p. quiet'.1 (quiet.1 p))), same ∙ still)

  not_again : (a b : Bool) → (a ≡ false → b ≡ false) → (a ≡ true) ⊎ (b ≡ false)
  not_again true b h = inl refl
  not_again false b h = inr (h refl)

  -- A forwarding connection that does not read from one of its sockets never reads from that socket
  -- again, whatever events of the sockets follow.
  pub Forwarding-stalls :
      {c d : Connection P}
      → c.state ≡ ready
      → Forwarding c d
      → ((read_pending c.incoming ≡ true) ⊎ (read_pending d.incoming ≡ false))
        × ((read_pending c.outgoing ≡ true) ⊎ (read_pending d.outgoing ≡ false))
        × (d.state ≡ ready)
  Forwarding-stalls {c} {d} s f =
      let (quiet, still) = stays_silent s f in
      (
        not_again (read_pending c.incoming) (read_pending d.incoming) quiet.0,
        not_again (read_pending c.outgoing) (read_pending d.outgoing) quiet.1,
        still,
      )

  -- When a ready socket gives bytes and the other one takes only a part of them, or nothing, the
  -- connection goes on and does not read from the ready socket any more. (The ready socket has
  -- nothing to write.)
  pub blocked_stops_reading :
      (ev : Ready) (k : Calls) (p : Pair P) (r : Received) (d : Sent)
      → ev.write ≡ false
      → ev.read ≡ true
      → receive_from (record p.near_far { received_bytes = 0 }) k.stock k.read_near ≡ some r
      → r.result ≡ ok
      → send_to r.splice k.write_far ≡ some d
      → (d.result ≡ partial) ⊎ (d.result ≡ blocking)
      → (q : Pair P) × (t : Traffic) × (transfer P ev k p ≡ going q t)
        × (read_pending q.near ≡ false)
  unfolding transfer
  blocked_stops_reading ev k p r d w e h o f b = (
    record p {
      near = P.cancel_only_read p.near;
      far = P.schedule_write p.far;
      near_far = d.splice;
    },
    record {
      to_near = [];
      to_far = d.bytes;
      puts = r.puts ++ d.puts;
      counted = r.splice.received_bytes;
      shut_far = false;
    },
    ground arith,
    cancel_read_read p.near,
  )
