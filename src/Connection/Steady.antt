-- ===== src/Connection/Steady.antt =====
-- Forwarding never fails an assertion: a socket waits to be written to exactly while its pipe holds
-- bytes.
use uologin.Prelude.{
  ◌+◌, ◌<◌, ◌≤◌, ◌≡◌, ◌≢◌, ◌↔◌, ◌∙◌, sym, refl, Bool, true, false, Option, none, some, ◌++◌, length,
  arith, Bool-cases, inl, inr,
}
use uologin.External.{Platform}
use uologin.Splice.{
  Splice, SendResult, sent, partial, blocking, send_error, Sent, Received, SpliceOut, ReceiveResult,
  ok, socket_blocking, socket_closed, pipe_full, error, receive_from,
}
use uologin.Splice.Fifo.{
  IsValid, content, bytes_in, count_out, pipe_capacity, send_to_lem, size_asserted_lem,
  receive_from-none,
}
use uologin.Splice.Backlog.{IsEmpty, Got, Left, receive_from-Got, send_to-Left}
use uologin.Connection.{exception}
use uologin.Connection.Transfer.{
  Pair, Ready, Calls, Transfer, going, closing, fault, transfer, Traffic, no_traffic, forward_far,
  after_read, transfer_read, transfer_rest, forward_near,
}

module _ (P : Platform) where
  open P use {write_pending, cancel_write_write, schedule_write_write, cancel_read_write}

  -- The socket `t` waits to be written to while the pipe to it holds bytes.
  pub record Backs (t : P.Socket) (s : Splice) : Type 0 where
    pub valid : IsValid s
    pub waits : (write_pending t ≡ true) ↔ (s.size ≢ 0)

  pub record Steady (p : Pair P) : Type 0 where
    pub to_far : Backs p.far p.near_far
    pub to_near : Backs p.near p.far_near

  -- The kernel moves no more out of a pipe than it holds, a pipe holds less than 2 ^ 32 bytes, and a
  -- pipe from the stock is empty.
  pub record Kernel (p : Pair P) (k : Calls) : Type 0 where
    pub near_out : count_out k.write_near ≤ p.far_near.size
    pub stock : IsEmpty k.stock
    pub near_in : length (content p.near_far) + length (bytes_in k.read_near) < pipe_capacity
    pub far_out :
        (d : Received)
        → receive_from (record p.near_far { received_bytes = 0 }) k.stock k.read_near ≡ some d
        → count_out k.write_far ≤ d.splice.size

  emptied : (t : P.Socket) (s : Splice) → IsValid s → s.size ≡ 0 → Backs (P.cancel_only_write t) s
  emptied t s v e = record {
    valid = v;
    waits = ((λ h. absurd (ground (arith, cancel_write_write t))), λ h. absurd (h e));
  }

  filled : (t : P.Socket) (s : Splice) → IsValid s → s.size ≢ 0 → Backs (P.schedule_write t) s
  filled t s v n = record { valid = v; waits = ((λ h. n), λ h. schedule_write_write t) }

  unread : (t : P.Socket) (s : Splice) → Backs t s → Backs (P.cancel_only_read t) s
  unread t s b = record {
    valid = b.valid;
    waits =
        ((λ h. b.waits.0 (sym (cancel_read_write t) ∙ h)), λ h. cancel_read_write t ∙ b.waits.1 h);
  }

  module _ (N : Type 0) where
    -- How forwarding can end: no assertion fails, and it throws only where `N` holds.
    pub data Settled : Transfer P → Type 0 where
      goes_on : {q : Pair P} {t : Traffic} → Steady q → Settled (going q t)
      ends : {q : Pair P} {t : Traffic} → Settled (closing q t)
      no_pipe : N → Settled (fault exception)

    forward_far-Settled :
        (p : Pair P) (t : Traffic) (d : Sent) (r : SendResult)
        → d.result ≡ r
        → IsValid d.splice
        → Left r d.splice
        → Backs p.near p.far_near
        → Settled (forward_far P p t d)
    unfolding forward_far
    forward_far-Settled p t d sent e v l b =
        rw (e, forward_far) (goes_on (record { to_far = emptied p.far d.splice v l; to_near = b }))
    forward_far-Settled p t d partial e v l b =
        rw (e, forward_far)
          (goes_on
            (record { to_far = filled p.far d.splice v l; to_near = unread p.near p.far_near b }))
    forward_far-Settled p t d blocking e v l b =
        rw (e, forward_far)
          (goes_on
            (record { to_far = filled p.far d.splice v l; to_near = unread p.near p.far_near b }))
    forward_far-Settled p t d send_error e v l b = rw (e, forward_far) ends

    -- After ReceiveFrom, by its result.
    after_read-Settled :
        (p : Pair P) (t : Traffic) (w : SpliceOut) (s : Splice) (r : ReceiveResult)
        → Backs p.far s
        → Backs p.near p.far_near
        → IsValid p.near_far
        → Got r s p.near_far
        → count_out w ≤ p.near_far.size
        → Settled (after_read P p t w r)
    unfolding after_read
    after_read-Settled p t w s ok f b v g fits =
        let (d, e, _, _, _) = send_to_lem p.near_far w v g fits in
        let (v', l) = send_to-Left p.near_far w d v fits e in
        rw (e, after_read)
          (forward_far-Settled p (record t { counted = p.near_far.received_bytes }) d d.result refl
            v' l b)
    after_read-Settled p t w s socket_blocking f b v g fits = goes_on (record {
      to_far = record { valid = v; waits = ((λ h. absurd (f.waits.0 h g.0)), λ h. absurd (h g.1)) };
      to_near = b;
    })
    after_read-Settled p t w s socket_closed f b v g fits = ends
    after_read-Settled p t w s pipe_full f b v g fits =
        rw (f.waits.1 g.0, after_read)
          (goes_on (record {
            to_far = record { valid = v; waits = ((λ h. g.1), λ h. f.waits.1 g.0) };
            to_near = unread p.near p.far_near b;
          }))
    after_read-Settled p t w s error f b v g fits = ends

    module _ (k : Calls) where
      transfer_read-Settled :
          (p : Pair P) (t : Traffic) (o : Option Received)
          → Steady p
          → IsEmpty k.stock
          → length (content p.near_far) + length (bytes_in k.read_near) < pipe_capacity
          → ((d : Received)
              → receive_from (record p.near_far { received_bytes = 0 }) k.stock k.read_near ≡ some d
              → count_out k.write_far ≤ d.splice.size)
          → (receive_from (record p.near_far { received_bytes = 0 }) k.stock k.read_near ≡ none → N)
          → receive_from (record p.near_far { received_bytes = 0 }) k.stock k.read_near ≡ o
          → Settled (transfer_read P p k t)
      unfolding transfer_read
      transfer_read-Settled p t none s clean fits out stuck e =
          let a = size_asserted_lem p.near_far p.near_far.pipe refl s.to_far.valid in
          rw (e, transfer_read, a) (no_pipe (stuck e))
      transfer_read-Settled p t (some d) s clean fits out stuck e =
          let from = record p.near_far { received_bytes = 0 } in
          let v : IsValid from = record {
            counted = s.to_far.valid.counted;
            bounded = s.to_far.valid.bounded;
          } in
          let (v', g) = receive_from-Got from k.stock k.read_near d v clean fits e in
          rw (e, transfer_read)
            (after_read-Settled (record p { near_far = d.splice })
              (record t { puts = t.puts ++ d.puts }) k.write_far from d.result
              (record { valid = v; waits = s.to_far.waits }) s.to_near v' g (out d e))

      transfer_rest-Settled :
          (b : Bool) (p : Pair P) (t : Traffic)
          → Steady p
          → IsEmpty k.stock
          → length (content p.near_far) + length (bytes_in k.read_near) < pipe_capacity
          → ((d : Received)
              → receive_from (record p.near_far { received_bytes = 0 }) k.stock k.read_near ≡ some d
              → count_out k.write_far ≤ d.splice.size)
          → (b ≡ true
              → receive_from (record p.near_far { received_bytes = 0 }) k.stock k.read_near ≡ none
              → N)
          → Settled (transfer_rest P b p k t)
      unfolding transfer_rest
      transfer_rest-Settled false p t s clean fits out stuck = goes_on s
      transfer_rest-Settled true p t s clean fits out stuck =
          transfer_read-Settled p t _ s clean fits out (stuck refl) refl

      forward_near-Settled :
          (ev : Ready) (p : Pair P) (t : Traffic) (d : Sent) (r : SendResult)
          → d.result ≡ r
          → IsValid d.splice
          → Left r d.splice
          → Steady p
          → Kernel p k
          → (ev.read ≡ true
              → receive_from (record p.near_far { received_bytes = 0 }) k.stock k.read_near ≡ none
              → N)
          → Settled (forward_near P ev p k t d)
      unfolding forward_near
      forward_near-Settled ev p t d sent e v l s n stuck =
          rw (e, forward_near)
            (transfer_rest-Settled ev.read _ _
              (record { to_far = s.to_far; to_near = emptied p.near d.splice v l }) n.stock
              n.near_in n.far_out stuck)
      forward_near-Settled ev p t d partial e v l s n stuck =
          rw (e, forward_near)
            (transfer_rest-Settled ev.read _ _
              (record {
                to_far = unread p.far p.near_far s.to_far;
                to_near = filled p.near d.splice v l;
              })
              n.stock n.near_in n.far_out stuck)
      forward_near-Settled ev p t d blocking e v l s n stuck =
          rw (e, forward_near)
            (transfer_rest-Settled ev.read _ _
              (record {
                to_far = unread p.far p.near_far s.to_far;
                to_near = filled p.near d.splice v l;
              })
              n.stock n.near_in n.far_out stuck)
      forward_near-Settled ev p t d send_error e v l s n stuck = rw (e, forward_near) ends

  -- There is no pipe for what is read, and the stock has none.
  abbrev pub Stuck : Ready → Calls → Pair P → Type 0
  Stuck ev k p = (ev.read ≡ true) × (p.near_far.pipe ≡ none) × (k.stock ≡ none)

  -- A round of forwarding, with an event to write only where that is scheduled.
  pub transfer-Settled :
      (k : Calls) (ev : Ready) (p : Pair P)
      → Steady p
      → Kernel p k
      → (ev.write ≡ true → write_pending p.near ≡ true)
      → Settled (Stuck ev k p) (transfer P ev k p)
  unfolding transfer
  transfer-Settled k ev p s n w = elim (Bool-cases ev.write) [
    | inr e ↦ rw e (
        transfer_rest-Settled (Stuck ev k p) k ev.read p (no_traffic P) s n.stock n.near_in
          n.far_out stuck)
    | inl e ↦
        let waiting = s.to_near.waits.0 (w e) in
        let (d, f, _, _, _) =
          send_to_lem p.far_near k.write_near s.to_near.valid waiting n.near_out in
        let (v, l) = send_to-Left p.far_near k.write_near d s.to_near.valid n.near_out f in
        rw (e, f)
          (forward_near-Settled (Stuck ev k p) k ev p (no_traffic P) d d.result refl v l s n stuck)
  ]
    where
      stuck :
          (ev.read ≡ true)
          → receive_from (record p.near_far { received_bytes = 0 }) k.stock k.read_near ≡ none
          → Stuck ev k p
      stuck r h =
          let v : IsValid (record p.near_far { received_bytes = 0 }) = record {
            counted = s.to_far.valid.counted;
            bounded = s.to_far.valid.bounded;
          } in
          let (a, b) =
            receive_from-none (record p.near_far { received_bytes = 0 }) p.near_far.pipe k.stock
              k.read_near refl v h in
          (r, a, b)
