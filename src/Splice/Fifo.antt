-- ===== src/Splice/Fifo.antt =====
-- One direction of a connection: what leaves the pipe is what entered it, in order.
use uologin.Prelude.{
  ℕ, zero, suc, ◌+◌, ◌^◌, ◌≤◌, ◌<◌, ◌≡◌, ◌≢◌, refl, sym, ap, subst, ◌∙◌, Option, none, some, List,
  [], ◌∷◌, ◌++◌, length, All, arith, take, drop, append_assoc, append-nil, length-append,
  length-drop, take-append-drop, true, Bool-cases, inl, inr, ◌==◌, sub64,
}
use uologin.Splice.{
  Splice, SpliceIn, SpliceOut, Put, Received, Sent, moved_in, failed_in, moved_out, failed_out,
  reuse, eagain, other_errno, after_splice_in, after_splice_out, get_pipe, release_pipe, empty,
  receive_from, send_to, puts_at_end, size_asserted,
}

abbrev pub bytes_of : Option (List ℕ) → List ℕ
bytes_of none = []
bytes_of (some bs) = bs

abbrev pub content : Splice → List ℕ
content s = bytes_of s.pipe

abbrev pub bytes_in : SpliceIn → List ℕ
bytes_in (moved_in bs) = bs
bytes_in (failed_in e) = []

abbrev pub count_out : SpliceOut → ℕ
count_out (moved_out n) = n
count_out (failed_out e) = 0

-- The kernel's side: a pipe holds less than 2 ^ 32 bytes, and splice() moves no more bytes out of a
-- pipe than it holds.
abbrev pub pipe_capacity : ℕ
pipe_capacity = 2 ^ 32

pub record IsValid (s : Splice) : Type 0 where
  pub counted : s.size ≡ length (content s)
  pub bounded : s.size < pipe_capacity

abbrev pub IsClean : List Put → Type 0
IsClean = All (λ p. p.action ≡ reuse → p.leftover ≡ [])

empty_of_length : (bs : List ℕ) → length bs ≡ 0 → bs ≡ []
empty_of_length [] h = refl
empty_of_length (b ∷ bs) h = absurd (omega arith)

after_splice_in_lem :
    (s : Splice) (bytes : List ℕ) (r : SpliceIn)
    → s.size ≡ length bytes
    → length bytes + length (bytes_in r) < pipe_capacity
    → let d = after_splice_in s bytes r in
      IsValid d.splice × (content d.splice ≡ bytes ++ bytes_in r) × IsClean d.puts
unfolding after_splice_in
after_splice_in_lem s bytes (moved_in (b ∷ bs)) h fits = (
  record {
    counted = omega (arith, length-append bytes (b ∷ bs));
    bounded = omega (arith, length-append bytes (b ∷ bs));
  },
  refl,
  tt,
)
after_splice_in_lem s [] (moved_in []) h fits = ground arith
after_splice_in_lem s (b ∷ bytes) (moved_in []) h fits = ground (arith, append-nil bytes)
after_splice_in_lem s bytes (failed_in eagain) h fits = ground (arith, append-nil bytes)
after_splice_in_lem s bytes (failed_in other_errno) h fits = ground (arith, append-nil bytes)

receive_from_cases :
    (s : Splice) (pipe : Option (List ℕ)) (r : SpliceIn)
    → s.pipe ≡ pipe
    → size_asserted pipe s.size ≡ true
    → receive_from s (some []) r ≡ some (after_splice_in s (bytes_of pipe) r)
unfolding receive_from
receive_from_cases s none r e a = rw (e, a, get_pipe)
receive_from_cases s (some bs) r e a = rw (e, get_pipe)

-- The assertion of `ReceiveFrom` holds at a valid splice.
pub size_asserted_lem :
    (s : Splice) (pipe : Option (List ℕ))
    → s.pipe ≡ pipe
    → IsValid s
    → size_asserted pipe s.size ≡ true
unfolding size_asserted
size_asserted_lem s none e v =
    let c : s.size ≡ length (bytes_of none) = v.counted ∙ ap (λ p. length (bytes_of p)) e in
    ground (arith, c)
size_asserted_lem s (some bs) e v = refl

-- At a valid splice it throws only if there is no pipe and the stock has none.
pub receive_from-none :
    (s : Splice) (pipe stock : Option (List ℕ)) (r : SpliceIn)
    → s.pipe ≡ pipe
    → IsValid s
    → receive_from s stock r ≡ none
    → (s.pipe ≡ none) × (stock ≡ none)
unfolding receive_from
receive_from-none s pipe stock r e v h =
    let a = size_asserted_lem s pipe e v in split pipe stock e a h
  where
    split :
        (pipe t : Option (List ℕ))
        → s.pipe ≡ pipe
        → size_asserted pipe s.size ≡ true
        → receive_from s t r ≡ none
        → (s.pipe ≡ none) × (t ≡ none)
    split none none e a h = (e, refl)
    split none (some bs) e a h = absurd (ground (arith, e, a, h))
    split (some bs) t e a h = absurd (ground (arith, e, a, h))

module _ (s : Splice) (v : IsValid s) where
  -- With a valid splice, an empty pipe from the stock and less than 2 ^ 32 bytes in all,
  -- `ReceiveFrom` does not throw, and puts the bytes that the kernel moved behind those that wait.
  pub receive_from_lem :
      (r : SpliceIn)
      → length (content s) + length (bytes_in r) < pipe_capacity
      → (d : Received) × (receive_from s (some []) r ≡ some d)
        × IsValid d.splice
        × (content d.splice ≡ content s ++ bytes_in r)
        × IsClean d.puts
  receive_from_lem r fits =
      let (valid, order, clean) = after_splice_in_lem s (content s) r v.counted fits in
      (
        after_splice_in s (content s) r,
        receive_from_cases s s.pipe r refl (size_asserted_lem s s.pipe refl v),
        valid,
        order,
        clean,
      )

  sub64-length-drop :
      (n : ℕ) (bytes : List ℕ)
      → s.size ≡ length bytes
      → n ≤ length bytes
      → sub64 s.size n ≡ length (drop n bytes)
  sub64-length-drop n bytes h k = omega (arith, length-drop n bytes, v.bounded)

  after_splice_out_lem :
      (bytes : List ℕ) (r : SpliceOut)
      → s.pipe ≡ some bytes
      → s.size ≡ length bytes
      → count_out r ≤ length bytes
      → let d = after_splice_out s bytes r in
        IsValid d.splice × (d.bytes ++ content d.splice ≡ bytes) × IsClean d.puts
  unfolding after_splice_out
  after_splice_out_lem bytes (moved_out (suc n)) e h k =
      let left = sub64-length-drop (suc n) bytes h k in
      elim (Bool-cases (sub64 s.size (suc n) == 0)) [
        | inl over ↦
            let nothing = empty_of_length (drop (suc n) bytes) (ground (arith, left)) in
            rw over (
              record { counted = ground arith; bounded = ground arith },
              ap (◌++◌ (take (suc n) bytes)) (sym nothing) ∙ take-append-drop (suc n) bytes,
              ((λ _. nothing), tt),
            )
        | inr more ↦ rw more (
          record { counted = left; bounded = omega (arith, left, v.bounded) },
          take-append-drop (suc n) bytes,
          tt,
        )
      ]
  after_splice_out_lem bytes (moved_out zero) e h k = (v, ap bytes_of e, tt)
  after_splice_out_lem bytes (failed_out eagain) e h k = (v, ap bytes_of e, tt)
  after_splice_out_lem bytes (failed_out other_errno) e h k = (v, ap bytes_of e, tt)

send_to_cases :
    (s : Splice) (pipe : Option (List ℕ)) (r : SpliceOut)
    → s.pipe ≡ pipe
    → s.size ≢ 0
    → s.size ≡ length (bytes_of pipe)
    → (send_to s r ≡ some (after_splice_out s (bytes_of pipe) r)) × (pipe ≡ some (bytes_of pipe))
unfolding send_to
send_to_cases s none r e n h = absurd (n h)
send_to_cases s (some bs) r e n h = (rw (e, send_to) (ground arith), refl)

-- Where bytes wait in a valid splice, `SendTo` passes its assertions and sends the bytes that wait
-- longest, if the kernel moves no more than there are.
pub send_to_lem :
    (s : Splice) (r : SpliceOut)
    → IsValid s
    → s.size ≢ 0
    → count_out r ≤ s.size
    → (d : Sent) × (send_to s r ≡ some d)
      × IsValid d.splice
      × (d.bytes ++ content d.splice ≡ content s)
      × IsClean d.puts
send_to_lem s r v n fits =
    let (run, held) = send_to_cases s s.pipe r refl n v.counted in
    let (valid, order, clean) =
      after_splice_out_lem s v (content s) r held v.counted (omega (arith, v.counted)) in
    (after_splice_out s (content s) r, run, valid, order, clean)

-- Every history of one direction: what was received, what was sent and what the stock got back.
pub data Run : Splice → List ℕ → List ℕ → List Put → Type 0 where
  start : Run empty [] [] []
  receive :
      {s : Splice} {ins outs : List ℕ} {puts : List Put} {d : Received} (r : SpliceIn)
      → Run s ins outs puts
      → length (content s) + length (bytes_in r) < pipe_capacity
      → receive_from s (some []) r ≡ some d
      → Run d.splice (ins ++ bytes_in r) outs (puts ++ d.puts)
  send :
      {s : Splice} {ins outs : List ℕ} {puts : List Put} {d : Sent} (r : SpliceOut)
      → Run s ins outs puts
      → count_out r ≤ s.size
      → send_to s r ≡ some d
      → Run d.splice ins (outs ++ d.bytes) (puts ++ d.puts)

pub IsClean-append : (ps qs : List Put) → IsClean ps → IsClean qs → IsClean (ps ++ qs)
IsClean-append [] qs p q = q
IsClean-append (x ∷ ps) qs p q = (p.0, IsClean-append ps qs p.1 q)

some-eq : {A : Type 0} {x y : A} → some x ≡ some y → x ≡ y
some-eq h = cc

send_to_runs : (s : Splice) (r : SpliceOut) (d : Sent) → send_to s r ≡ some d → s.size ≢ 0
unfolding send_to
send_to_runs s r d h = ground arith

-- A valid splice in which what came in is what went out followed by what is in the pipe.
abbrev pub Carries : Splice → List ℕ → List ℕ → Type 0
Carries s ins outs = IsValid s × (ins ≡ outs ++ content s)

pub empty-Carries : Carries empty [] []
empty-Carries = (record { counted = refl; bounded = omega arith }, refl)

pub receive_step :
    (s : Splice) (ins outs : List ℕ) (r : SpliceIn) (d : Received)
    → Carries s ins outs
    → length (content s) + length (bytes_in r) < pipe_capacity
    → receive_from s (some []) r ≡ some d
    → Carries d.splice (ins ++ bytes_in r) outs × IsClean d.puts
receive_step s ins outs r d (v, order) fits e =
    let (d', e', v', order', clean) = receive_from_lem s v r fits in
    let same : d' ≡ d = some-eq (sym e' ∙ e) in
    (
      (
        subst (λ x. IsValid x.splice) same v',
        ap (λ l. l ++ bytes_in r) order
            ∙ append_assoc outs (content s) (bytes_in r)
            ∙ ap (◌++◌ outs) (sym order' ∙ ap (λ x. content x.splice) same),
      ),
      subst (λ x. IsClean x.puts) same clean,
    )

pub send_step :
    (s : Splice) (ins outs : List ℕ) (r : SpliceOut) (d : Sent)
    → Carries s ins outs
    → count_out r ≤ s.size
    → send_to s r ≡ some d
    → Carries d.splice ins (outs ++ d.bytes) × IsClean d.puts
send_step s ins outs r d (v, order) fits e =
    let (d', e', v', order', clean) = send_to_lem s r v (send_to_runs s r d e) fits in
    let same : d' ≡ d = some-eq (sym e' ∙ e) in
    (
      (
        subst (λ x. IsValid x.splice) same v',
        order
            ∙ ap (◌++◌ outs) (sym order' ∙ ap (λ x. x.bytes ++ content x.splice) same)
            ∙ sym (append_assoc outs d.bytes (content d.splice)),
      ),
      subst (λ x. IsClean x.puts) same clean,
    )

-- Nothing that passes through a pipe is lost, repeated or reordered: after any series of calls of
-- `ReceiveFrom` and `SendTo` what was received is what was sent followed by what the pipe holds.
-- And a pipe is given back for reuse only when it is empty. The kernel moves no more out of a pipe
-- than it holds, and a pipe holds less than 2 ^ 32 bytes.
pub Run-fifo :
    {s : Splice} {ins outs : List ℕ} {puts : List Put}
    → Run s ins outs puts
    → IsValid s × (ins ≡ outs ++ content s) × IsClean puts
Run-fifo start = (empty-Carries.0, refl, tt)
Run-fifo (receive {s} {ins} {outs} {puts} {d} r run fits e) =
    let (v, order, clean) = Run-fifo run in
    let (carries, clean') = receive_step s ins outs r d (v, order) fits e in
    (carries.0, carries.1, IsClean-append puts d.puts clean clean')
Run-fifo (send {s} {ins} {outs} {puts} {d} r run fits e) =
    let (v, order, clean) = Run-fifo run in
    let (carries, clean') = send_step s ins outs r d (v, order) fits e in
    (carries.0, carries.1, IsClean-append puts d.puts clean clean')

-- `~Splice` of a valid splice gives a pipe back for reuse only when it is empty.
pub puts_at_end-IsClean : (s : Splice) → IsValid s → IsClean (puts_at_end s)
unfolding puts_at_end
puts_at_end-IsClean s v = puts_of s.pipe v.counted
  where
    puts_of :
        (pipe : Option (List ℕ))
        → s.size ≡ length (bytes_of pipe)
        → IsClean (release_pipe pipe s.size)
    puts_of none h = tt
    puts_of (some bs) h = ((λ e. empty_of_length bs (ground arith)), tt)
