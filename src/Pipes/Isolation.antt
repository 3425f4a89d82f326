-- ===== src/Pipes/Isolation.antt =====
-- No byte gets from one connection into another through a pipe that is used again.
use uologin.Prelude.{
  ℕ, ◌≡◌, refl, sym, subst, ◌∙◌, ap, true, false, Option, List, [], ◌∷◌, ◌++◌, ◌==◌, Bool-cases,
  inl, inr, ==_iff,
}
use uologin.Splice.{Splice, Put, reuse, puts_at_end}
use uologin.Splice.Fifo.{
  content, IsValid, IsClean, receive_step, send_step, puts_at_end-IsClean, IsClean-append,
  empty-Carries,
}
use uologin.Splice.Backlog.{IsEmpty, same_stock}
use uologin.Pipes.{Supply, created, reused, create, Shared, start, receive, send, close}

IsClean-at :
    (before after : List Put) (p : Put)
    → IsClean (before ++ p ∷ after)
    → p.action ≡ reuse
    → p.leftover ≡ []
IsClean-at [] after p c = c.0
IsClean-at (x ∷ before) after p c = IsClean-at before after p c.1

Supply-IsEmpty : (puts : List Put) (o : Option (List ℕ)) → IsClean puts → Supply puts o → IsEmpty o
unfolding create
Supply-IsEmpty puts _ c (created false) = tt
Supply-IsEmpty puts _ c (created true) = refl
Supply-IsEmpty puts _ c (reused before after p e a _ _) =
    IsClean-at before after p (subst IsClean e c) a

-- In any history of all splices, where the stock gives a new pipe or one that was put back for
-- reuse, a pipe stays below its capacity, and splice() moves no more out of it than it holds: the
-- size of each splice is the number of bytes in its pipe, what came in through it is what went out
-- through it followed by what its pipe holds, and every pipe that was put back for reuse is empty. So
-- no byte of one connection gets into another one by a pipe that is used again.
pub Shared-isolated :
    {s : ℕ → Splice} {ins outs : ℕ → List ℕ} {puts : List Put} (n : ℕ)
    → Shared s ins outs puts
    → IsValid (s n) × (ins n ≡ outs n ++ content (s n)) × IsClean puts
Shared-isolated n start = (empty-Carries.0, refl, tt)
Shared-isolated n (receive {s} {ins} {outs} {puts} {d} {stock} k r run fits supply e) =
    let (v, order, clean) = Shared-isolated k run in
    let (v', order', _) = Shared-isolated n run in
    let e' = same_stock (s k) stock r d (Supply-IsEmpty puts stock clean supply) e in
    let (carries, clean') = receive_step (s k) (ins k) (outs k) r d (v, order) fits e' in
    let all = IsClean-append puts d.puts clean clean' in
    elim (Bool-cases (n == k)) [
      | inl q ↦
          let same = (==_iff n k).0 q in
          rw q (carries.0, carries.1 ∙ ap (λ m. outs m ++ content d.splice) (sym same), all)
      | inr q ↦ rw q (v', order', all)
    ]
Shared-isolated n (send {s} {ins} {outs} {puts} {d} k r run fits e) =
    let (v, order, clean) = Shared-isolated k run in
    let (v', order', _) = Shared-isolated n run in
    let (carries, clean') = send_step (s k) (ins k) (outs k) r d (v, order) fits e in
    let all = IsClean-append puts d.puts clean clean' in
    elim (Bool-cases (n == k)) [
      | inl q ↦ let same = (==_iff n k).0 q in rw q (carries.0, ap ins same ∙ carries.1, all)
      | inr q ↦ rw q (v', order', all)
    ]
Shared-isolated n (close {s} {ins} {outs} {puts} k run) =
    let (v, _, clean) = Shared-isolated k run in
    let (v', order', _) = Shared-isolated n run in
    let all = IsClean-append puts (puts_at_end (s k)) clean (puts_at_end-IsClean (s k) v) in
    elim (Bool-cases (n == k)) [
      | inl q ↦ rw q (empty-Carries.0, refl, all)
      | inr q ↦ rw q (v', order', all)
    ]
