-- ===== src/Connection/Sockets.antt =====
-- What a round of forwarding does to the two sockets: any relation that the three operations of
-- `DoSpliceSend` keep holds between each socket before and after.
use uologin.Prelude.{
  ◌≡◌, ◌∙◌, refl, ◌++◌, Option, none, some, inl, inr, Bool, true, false, Bool-cases, Option-cases,
}
use uologin.External.{Platform}
use uologin.Splice.{
  SendResult, sent, partial, blocking, send_error, Sent, Received, SpliceOut, ReceiveResult, ok,
  socket_blocking, socket_closed, pipe_full, error, send_to, receive_from,
}
use uologin.Connection.Transfer.{
  Pair, Ready, Calls, Transfer, going, closing, fault, transfer, Traffic, no_traffic, forward_far,
  after_read, transfer_read, transfer_rest, forward_near,
}

module _ (P : Platform) (R : P.Socket → P.Socket → Type 0) where
  abbrev pub Keeps : Pair P → Transfer P → Type 0
  Keeps p (going q t) = R p.near q.near × R p.far q.far
  Keeps p (closing q t) = R p.near q.near × R p.far q.far
  Keeps p (fault f) = Unit {0}

module _ (P : Platform) (R : P.Socket → P.Socket → Type 0) (R_refl : (s : P.Socket) → R s s)
    (R_trans : (s t u : P.Socket) → R s t → R t u → R s u)
    (cancel_read : (s : P.Socket) → R s (P.cancel_only_read s))
    (cancel_write : (s : P.Socket) → R s (P.cancel_only_write s))
    (schedule_write : (s : P.Socket) → R s (P.schedule_write s)) where
  forward_far-Keeps :
      (p : Pair P) (t : Traffic) (d : Sent) (r : SendResult)
      → d.result ≡ r
      → Keeps P R p (forward_far P p t d)
  unfolding forward_far
  forward_far-Keeps p t d sent e = rw (e, forward_far) (R_refl p.near, cancel_write p.far)
  forward_far-Keeps p t d partial e = rw (e, forward_far) (cancel_read p.near, schedule_write p.far)
  forward_far-Keeps p t d blocking e =
      rw (e, forward_far) (cancel_read p.near, schedule_write p.far)
  forward_far-Keeps p t d send_error e = rw (e, forward_far) (R_refl p.near, R_refl p.far)

  after_read-Keeps :
      (p : Pair P) (t : Traffic) (w : SpliceOut) (r : ReceiveResult)
      → Keeps P R p (after_read P p t w r)
  unfolding after_read
  after_read-Keeps p t w ok = elim (Option-cases (send_to p.near_far w)) [
    | inl e ↦ rw (e, after_read) tt
    | inr (d, e) ↦
        rw (e, after_read)
          (forward_far-Keeps p (record t { counted = p.near_far.received_bytes }) d d.result refl)
  ]
  after_read-Keeps p t w pipe_full = elim (Bool-cases (P.write_pending p.far)) [
    | inl e ↦ rw (e, after_read) (cancel_read p.near, R_refl p.far)
    | inr e ↦ rw (e, after_read) tt
  ]
  after_read-Keeps p t w socket_blocking = (R_refl p.near, R_refl p.far)
  after_read-Keeps p t w socket_closed = (R_refl p.near, R_refl p.far)
  after_read-Keeps p t w error = (R_refl p.near, R_refl p.far)

  transfer_read-Keeps :
      (p : Pair P) (k : Calls) (t : Traffic) (o : Option Received)
      → receive_from (record p.near_far { received_bytes = 0 }) k.stock k.read_near ≡ o
      → Keeps P R p (transfer_read P p k t)
  unfolding transfer_read
  transfer_read-Keeps p k t none e = rw (e, transfer_read) tt
  transfer_read-Keeps p k t (some d) e =
      rw (e, transfer_read)
        (after_read-Keeps (record p { near_far = d.splice }) (record t { puts = t.puts ++ d.puts })
          k.write_far d.result)

  transfer_rest-Keeps :
      (b : Bool) (p : Pair P) (k : Calls) (t : Traffic) → Keeps P R p (transfer_rest P b p k t)
  unfolding transfer_rest
  transfer_rest-Keeps false p k t = (R_refl p.near, R_refl p.far)
  transfer_rest-Keeps true p k t = transfer_read-Keeps p k t _ refl

  Keeps-trans :
      (p q : Pair P) (r : Transfer P)
      → Keeps P R q r
      → R p.near q.near
      → R p.far q.far
      → Keeps P R p r
  Keeps-trans p q (going r t) h n f = (R_trans _ _ _ n h.0, R_trans _ _ _ f h.1)
  Keeps-trans p q (closing r t) h n f = (R_trans _ _ _ n h.0, R_trans _ _ _ f h.1)
  Keeps-trans p q (fault x) h n f = tt

  abbrev stalled : Pair P → Sent → Pair P
  stalled p d = record p {
    near = P.schedule_write p.near;
    far = P.cancel_only_read p.far;
    far_near = d.splice;
  }

  forward_near-Keeps :
      (ev : Ready) (p : Pair P) (k : Calls) (t : Traffic) (d : Sent) (r : SendResult)
      → d.result ≡ r
      → Keeps P R p (forward_near P ev p k t d)
  unfolding forward_near
  forward_near-Keeps ev p k t d sent e =
      rw (e, forward_near)
        (Keeps-trans p (record p { far_near = d.splice; near = P.cancel_only_write p.near }) _
          (transfer_rest-Keeps ev.read _ k _) (cancel_write p.near) (R_refl p.far))
  forward_near-Keeps ev p k t d partial e =
      rw (e, forward_near)
        (Keeps-trans p (stalled p d) _ (transfer_rest-Keeps ev.read _ k _) (schedule_write p.near)
          (cancel_read p.far))
  forward_near-Keeps ev p k t d blocking e =
      rw (e, forward_near)
        (Keeps-trans p (stalled p d) _ (transfer_rest-Keeps ev.read _ k _) (schedule_write p.near)
          (cancel_read p.far))
  forward_near-Keeps ev p k t d send_error e = rw (e, forward_near) (R_refl p.near, R_refl p.far)

  pub transfer-Keeps : (ev : Ready) (k : Calls) (p : Pair P) → Keeps P R p (transfer P ev k p)
  unfolding transfer
  transfer-Keeps ev k p = elim (Bool-cases ev.write) [
    | inr e ↦ rw e (transfer_rest-Keeps ev.read p k (no_traffic P))
    | inl e ↦ elim (Option-cases (send_to p.far_near k.write_near)) [
      | inl f ↦ rw (e, f) tt
      | inr (d, f) ↦ rw (e, f) (forward_near-Keeps ev p k (no_traffic P) d d.result refl)
    ]
  ]

module _ (P : Platform) where
  abbrev pub SameDefined : P.Socket → P.Socket → Type 0
  SameDefined s t = P.is_defined t ≡ P.is_defined s

  pub transfer-SameDefined :
      (ev : Ready) (k : Calls) (p : Pair P) → Keeps P SameDefined p (transfer P ev k p)
  transfer-SameDefined =
      transfer-Keeps P SameDefined (λ s. refl) (λ s t u f g. g ∙ f) P.cancel_read_defined
        P.cancel_write_defined P.schedule_write_defined
