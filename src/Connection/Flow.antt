-- ===== src/Connection/Flow.antt =====
-- What a round of forwarding does with the bytes.
use uologin.Prelude.{
  ℕ, ◌+◌, ◌<◌, ◌≤◌, ◌≡◌, ◌∙◌, sym, refl, ap, Bool, true, false, Option, none, some, List, [], ◌++◌,
  length, append-nil, if◌then◌else◌,
}
use uologin.External.{Platform}
use uologin.Splice.{
  Splice, SpliceOut, Sent, Received, ReceiveResult, ok, socket_blocking, socket_closed, pipe_full,
  error, send_to, receive_from,
}
use uologin.Splice.Fifo.{
  bytes_in, count_out, content, pipe_capacity, IsValid, send_step, receive_step,
}
use uologin.Splice.Backlog.{IsEmpty, same_stock}
use uologin.Connection.{Fault, assertion}
use uologin.Connection.Transfer.{
  Pair, Ready, Calls, Traffic, Transfer, going, closing, fault, sockets_after, no_traffic,
  forward_far, after_read, transfer_read, transfer_rest, forward_near, transfer,
}
use uologin.Connection.Steady.{Steady, Kernel}

sends :
    (s : Splice) (r : SpliceOut) (d : Sent)
    → IsValid s
    → count_out r ≤ s.size
    → send_to s r ≡ some d
    → content s ≡ d.bytes ++ content d.splice
sends s r d v fits e = (send_step s (content s) [] r d (v, refl) fits e).0.1

receives :
    (s : Splice) (stock : Option (List ℕ)) (k : Calls) (d : Received)
    → IsValid s
    → IsEmpty stock
    → length (content s) + length (bytes_in k.read_near) < pipe_capacity
    → receive_from s stock k.read_near ≡ some d
    → IsValid d.splice × (content s ++ bytes_in k.read_near ≡ content d.splice)
receives s stock k d v clean fits e =
    (receive_step s (content s) [] k.read_near d (v, refl) fits
      (same_stock s stock k.read_near d clean e)).0

module _ (P : Platform) where
  -- The bytes `x` for the near socket, and `y` for the far one, in pipes or sent.
  pub data Moved (x y : List ℕ) : Transfer P → Type 0 where
    moves :
        {q : Pair P} {t : Traffic}
        → x ≡ t.to_near ++ content q.far_near
        → y ≡ t.to_far ++ content q.near_far
        → Moved x y (going q t)
    ends : {q : Pair P} {t : Traffic} → Moved x y (closing q t)
    fails : {f : Fault} → Moved x y (fault f)

  -- What is read, if there is an event to read.
  abbrev pub read_if : Calls → Bool → List ℕ
  read_if k true = bytes_in k.read_near
  read_if k false = []

  module _ (x y : List ℕ) where
    forward_far-Moved :
        (p : Pair P) (t : Traffic) (d : Sent)
        → x ≡ t.to_near ++ content p.far_near
        → y ≡ d.bytes ++ content d.splice
        → Moved x y (forward_far P p t d)
    unfolding forward_far
    forward_far-Moved p t d e f = by_sockets (sockets_after P d.result p.near p.far) refl
      where
        by_sockets :
            (o : Option (P.Socket × P.Socket))
            → sockets_after P d.result p.near p.far ≡ o
            → Moved x y (forward_far P p t d)
        by_sockets none q = rw (q, forward_far) ends
        by_sockets (some (near, far)) q = rw (q, forward_far) (moves e f)

    after_read-Moved :
        (p : Pair P) (t : Traffic) (w : SpliceOut) (r : ReceiveResult)
        → IsValid p.near_far
        → count_out w ≤ p.near_far.size
        → x ≡ t.to_near ++ content p.far_near
        → t.to_far ≡ []
        → y ≡ content p.near_far
        → Moved x y (after_read P p t w r)
    unfolding after_read
    after_read-Moved p t w ok v fits e n f = by_result (send_to p.near_far w) refl
      where
        by_result : (o : Option Sent) → send_to p.near_far w ≡ o → Moved x y (after_read P p t w ok)
        by_result none q = rw (q, after_read) fails
        by_result (some d) q =
            rw (q, after_read)
              (forward_far-Moved p (record t { counted = p.near_far.received_bytes }) d e
                (f ∙ sends p.near_far w d v fits q))
    after_read-Moved p t w socket_blocking v fits e n f =
        moves e (f ∙ ap (λ l. l ++ content p.near_far) (sym n))
    after_read-Moved p t w socket_closed v fits e n f = ends
    after_read-Moved p t w pipe_full v fits e n f =
        full (P.write_pending p.far) (moves e (f ∙ ap (λ l. l ++ content p.near_far) (sym n)))
      where
        full :
            {q : Pair P} {u : Traffic} (b : Bool)
            → Moved x y (going q u)
            → Moved x y (if b then going q u else fault assertion)
        full true m = m
        full false m = fails
    after_read-Moved p t w error v fits e n f = ends

  module _ (k : Calls) (x : List ℕ) where
    transfer_read-Moved :
        (p : Pair P) (t : Traffic) (o : Option Received)
        → IsValid p.near_far
        → IsEmpty k.stock
        → length (content p.near_far) + length (bytes_in k.read_near) < pipe_capacity
        → ((d : Received)
            → receive_from (record p.near_far { received_bytes = 0 }) k.stock k.read_near ≡ some d
            → count_out k.write_far ≤ d.splice.size)
        → x ≡ t.to_near ++ content p.far_near
        → t.to_far ≡ []
        → receive_from (record p.near_far { received_bytes = 0 }) k.stock k.read_near ≡ o
        → Moved x (content p.near_far ++ bytes_in k.read_near) (transfer_read P p k t)
    unfolding transfer_read
    transfer_read-Moved p t none v clean fits out e n q = rw (q, transfer_read) fails
    transfer_read-Moved p t (some d) v clean fits out e n q =
        let from = record p.near_far { received_bytes = 0 } in
        let v' : IsValid from = record { counted = v.counted; bounded = v.bounded } in
        let (w, same) = receives from k.stock k d v' clean fits q in
        rw (q, transfer_read)
          (after_read-Moved x (content p.near_far ++ bytes_in k.read_near)
            (record p { near_far = d.splice }) (record t { puts = t.puts ++ d.puts }) k.write_far
            d.result w (out d q) e n same)

    transfer_rest-Moved :
        (b : Bool) (p : Pair P) (t : Traffic)
        → IsValid p.near_far
        → IsEmpty k.stock
        → length (content p.near_far) + length (bytes_in k.read_near) < pipe_capacity
        → ((d : Received)
            → receive_from (record p.near_far { received_bytes = 0 }) k.stock k.read_near ≡ some d
            → count_out k.write_far ≤ d.splice.size)
        → x ≡ t.to_near ++ content p.far_near
        → t.to_far ≡ []
        → Moved x (content p.near_far ++ read_if k b) (transfer_rest P b p k t)
    unfolding transfer_rest
    transfer_rest-Moved false p t v clean fits out e n =
        moves e (append-nil (content p.near_far) ∙ ap (λ l. l ++ content p.near_far) (sym n))
    transfer_rest-Moved true p t v clean fits out e n =
        transfer_read-Moved p t _ v clean fits out e n refl

    forward_near-Moved :
        (ev : Ready) (p : Pair P) (t : Traffic) (d : Sent)
        → IsValid p.near_far
        → Kernel P p k
        → t.to_far ≡ []
        → x ≡ d.bytes ++ content d.splice
        → Moved x (content p.near_far ++ read_if k ev.read) (forward_near P ev p k t d)
    unfolding forward_near
    forward_near-Moved ev p t d v n e f = by_sockets (sockets_after P d.result p.far p.near) refl
      where
        by_sockets :
            (o : Option (P.Socket × P.Socket))
            → sockets_after P d.result p.far p.near ≡ o
            → Moved x (content p.near_far ++ read_if k ev.read) (forward_near P ev p k t d)
        by_sockets none q = rw (q, forward_near) ends
        by_sockets (some (far, near)) q =
            rw (q, forward_near)
              (transfer_rest-Moved ev.read
                (record p { near = near; far = far; far_near = d.splice })
                (record t { to_near = d.bytes; puts = d.puts }) v n.stock n.near_in n.far_out f e)

  -- A round of forwarding loses, repeats and reorders nothing.
  pub transfer-Moved :
      (ev : Ready) (k : Calls) (p : Pair P)
      → Steady P p
      → Kernel P p k
      → Moved (content p.far_near) (content p.near_far ++ read_if k ev.read) (transfer P ev k p)
  unfolding transfer
  transfer-Moved ev k p s n = by_event ev.write refl
    where
      by_send :
          (o : Option Sent)
          → send_to p.far_near k.write_near ≡ o
          → ev.write ≡ true
          → Moved (content p.far_near) (content p.near_far ++ read_if k ev.read) (transfer P ev k p)
      by_send none q e = rw (e, q, transfer) fails
      by_send (some d) q e =
          rw (e, q, transfer)
            (forward_near-Moved k (content p.far_near) ev p (no_traffic P) d s.to_far.valid n refl
              (sends p.far_near k.write_near d s.to_near.valid n.near_out q))

      by_event :
          (b : Bool)
          → ev.write ≡ b
          → Moved (content p.far_near) (content p.near_far ++ read_if k ev.read) (transfer P ev k p)
      by_event true e = by_send (send_to p.far_near k.write_near) refl e
      by_event false e =
          rw (e, transfer)
            (transfer_rest-Moved k (content p.far_near) ev.read p (no_traffic P) s.to_far.valid
              n.stock n.near_in n.far_out refl refl)
