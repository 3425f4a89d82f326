-- ===== src/Pipes.antt =====
-- src/PipeStock.cxx, and all splices of the server that share the stock. A stock item is the bytes
-- that its pipe holds.
pub mod Isolation
use uologin.Prelude.{
  ℕ, ◌+◌, ◌<◌, ◌≤◌, ◌≡◌, Bool, true, false, Option, none, some, List, [], ◌∷◌, ◌++◌, length,
  if◌then◌else◌, ◌==◌,
}
use uologin.Splice.{
  Splice, SpliceIn, SpliceOut, Put, reuse, Received, Sent, empty, receive_from, send_to,
  puts_at_end,
}
use uologin.Splice.Fifo.{bytes_in, count_out, content, pipe_capacity}

-- `PipeStock::Create`, given whether pipe() succeeds; `none` is its exception.
unfoldable pub create : Bool → Option (List ℕ)
create false = none
create true = some []

-- `PipeStockItem::Borrow` and `PipeStockItem::Release`.
abbrev pub borrow : List ℕ → Bool
borrow item = true

abbrev pub release : List ℕ → Bool
release item = true

-- What `GetNow` of stock/Stock.hxx can give, after some items were put back: a new item, or one that
-- was put back for reuse, if it agrees by `Release` and `Borrow`.
pub data Supply (puts : List Put) : Option (List ℕ) → Type 0 where
  created : (success : Bool) → Supply puts (create success)
  reused :
      (before after : List Put) (p : Put)
      → puts ≡ before ++ p ∷ after
      → p.action ≡ reuse
      → release p.leftover ≡ true
      → borrow p.leftover ≡ true
      → Supply puts (some p.leftover)

abbrev pub set {ℓ} : {A : Type ℓ} → ℕ → A → (ℕ → A) → ℕ → A
set k a f n = if n == k then a else f n

-- Every history of the splices of a server, each with a number: what came in and went out through
-- each, and what the stock got back from all of them. A closed splice's number is free for another.
pub data Shared : (ℕ → Splice) → (ℕ → List ℕ) → (ℕ → List ℕ) → List Put → Type 0 where
  start : Shared (λ _. empty) (λ _. []) (λ _. []) []
  receive :
      {s : ℕ → Splice} {ins outs : ℕ → List ℕ} {puts : List Put} {d : Received}
      {stock : Option (List ℕ)} (k : ℕ) (r : SpliceIn)
      → Shared s ins outs puts
      → length (content (s k)) + length (bytes_in r) < pipe_capacity
      → Supply puts stock
      → receive_from (s k) stock r ≡ some d
      → Shared (set k d.splice s) (set k (ins k ++ bytes_in r) ins) outs (puts ++ d.puts)
  send :
      {s : ℕ → Splice} {ins outs : ℕ → List ℕ} {puts : List Put} {d : Sent} (k : ℕ) (r : SpliceOut)
      → Shared s ins outs puts
      → count_out r ≤ (s k).size
      → send_to (s k) r ≡ some d
      → Shared (set k d.splice s) ins (set k (outs k ++ d.bytes) outs) (puts ++ d.puts)
  close :
      {s : ℕ → Splice} {ins outs : ℕ → List ℕ} {puts : List Put} (k : ℕ)
      → Shared s ins outs puts
      → Shared (set k empty s) (set k [] ins) (set k [] outs) (puts ++ puts_at_end (s k))
