-- ===== src/Splice/Backlog.antt =====
-- What the results of `ReceiveFrom` and `SendTo` say about the bytes that wait.
use uologin.Prelude.{
  ℕ, zero, suc, ◌+◌, ◌<◌, ◌≤◌, ◌≡◌, ◌≢◌, refl, sym, subst, ◌∙◌, ap, Option, none, some, List, [],
  ◌∷◌, length, arith,
}
use uologin.Splice.{
  Splice, SpliceIn, SpliceOut, moved_in, failed_in, moved_out, failed_out, eagain, other_errno,
  Received, Sent, ReceiveResult, SendResult, ok, socket_blocking, pipe_full, sent, partial,
  blocking, send_error, receive_from, send_to, get_pipe, after_splice_in, after_splice_out,
}
use uologin.Splice.Fifo.{
  bytes_in, count_out, content, IsValid, pipe_capacity, receive_step, send_step,
}

-- A pipe from the stock, if there is one, holds nothing.
abbrev pub IsEmpty : Option (List ℕ) → Type 0
IsEmpty none = Unit {0}
IsEmpty (some bytes) = bytes ≡ []

pub same_stock :
    (s : Splice) (stock : Option (List ℕ)) (r : SpliceIn) (d : Received)
    → IsEmpty stock
    → receive_from s stock r ≡ some d
    → receive_from s (some []) r ≡ some d
unfolding receive_from
same_stock s (some bytes) r d e h = ap (λ b. receive_from s (some b) r) (sym e) ∙ h
same_stock s none r d e h = piped s.pipe refl
  where
    piped : (o : Option (List ℕ)) → s.pipe ≡ o → receive_from s (some []) r ≡ some d
    piped none q = absurd (ground (arith, q))
    piped (some b) q = ground (arith, q)

abbrev pub Got : ReceiveResult → Splice → Splice → Type 0
Got ok s s' = s'.size ≢ 0
Got socket_blocking s s' = (s.size ≡ 0) × (s'.size ≡ 0)
Got pipe_full s s' = (s.size ≢ 0) × (s'.size ≢ 0)
Got _ s s' = Unit {0}

abbrev pub Left : SendResult → Splice → Type 0
Left sent s = s.size ≡ 0
Left partial s = s.size ≢ 0
Left blocking s = s.size ≢ 0
Left send_error s = Unit {0}

after_splice_in-Got :
    (s : Splice) (bytes : List ℕ) (r : SpliceIn)
    → s.size < pipe_capacity
    → s.size + length (bytes_in r) < pipe_capacity
    → Got (after_splice_in s bytes r).result s (after_splice_in s bytes r).splice
unfolding after_splice_in
after_splice_in-Got s bytes (moved_in (b ∷ bs)) h fits = omega arith
after_splice_in-Got s bytes (moved_in []) h fits = ground arith
after_splice_in-Got s bytes (failed_in eagain) h fits = ground arith
after_splice_in-Got s bytes (failed_in other_errno) h fits = tt

pub receive_from-Got :
    (s : Splice) (stock : Option (List ℕ)) (r : SpliceIn) (d : Received)
    → IsValid s
    → IsEmpty stock
    → length (content s) + length (bytes_in r) < pipe_capacity
    → receive_from s stock r ≡ some d
    → IsValid d.splice × Got d.result s d.splice
unfolding receive_from
receive_from-Got s stock r d v clean fits e =
    let (carries, _) =
      receive_step s (content s) [] r d (v, refl) fits (same_stock s stock r d clean e) in
    (carries.0, got (get_pipe s.pipe stock) refl)
  where
    got : (o : Option (List ℕ)) → get_pipe s.pipe stock ≡ o → Got d.result s d.splice
    got none q = absurd (ground (arith, q))
    got (some bytes) q =
        let same : after_splice_in s bytes r ≡ d = ground (arith, q) in
        subst (λ x. Got x.result s x.splice) same
          (after_splice_in-Got s bytes r v.bounded (omega (arith, v.counted)))

after_splice_out-Left :
    (s : Splice) (bytes : List ℕ) (r : SpliceOut)
    → s.size ≢ 0
    → Left (after_splice_out s bytes r).result (after_splice_out s bytes r).splice
unfolding after_splice_out
after_splice_out-Left s bytes (moved_out (suc n)) h = ground arith
after_splice_out-Left s bytes (moved_out zero) h = tt
after_splice_out-Left s bytes (failed_out eagain) h = h
after_splice_out-Left s bytes (failed_out other_errno) h = tt

pub send_to-Left :
    (s : Splice) (r : SpliceOut) (d : Sent)
    → IsValid s
    → count_out r ≤ s.size
    → send_to s r ≡ some d
    → IsValid d.splice × Left d.result d.splice
unfolding send_to
send_to-Left s r d v fits e =
    let (carries, _) = send_step s (content s) [] r d (v, refl) fits e in
    (carries.0, piped s.pipe refl)
  where
    piped : (o : Option (List ℕ)) → s.pipe ≡ o → Left d.result d.splice
    piped none q = absurd (ground (arith, q))
    piped (some bytes) q =
        let some_size : s.size ≢ 0 = ground (arith, q) in
        let same : after_splice_out s bytes r ≡ d = ground (arith, q) in
        subst (λ x. Left x.result x.splice) same (after_splice_out-Left s bytes r some_size)
