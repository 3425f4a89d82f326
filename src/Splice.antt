-- ===== src/Splice.antt =====
-- src/Splice.hxx and src/Splice.cxx, with the pipes of src/PipeStock.hxx. A stock item is
-- represented by the bytes that its pipe holds: the kernel's pipe is first in, first out. What
-- splice(2) did is an argument of the function that calls it.
pub mod Fifo
pub mod Backlog
use uologin.Prelude.{
  ℕ, zero, suc, ◌+◌, ◌≡◌, Bool, true, false, Option, none, some, List, [], ◌∷◌, ◌++◌, length, take,
  drop, if◌then◌else◌, ◌==◌, u64, sub64,
}

pub data Errno : Type 0 where
  eagain other_errno : Errno

-- splice() from a socket into the pipe: the bytes that it moved, none of them at the end of the
-- stream.
pub data SpliceIn : Type 0 where
  moved_in : List ℕ → SpliceIn
  failed_in : Errno → SpliceIn

-- splice() from the pipe into a socket: how many bytes it moved.
pub data SpliceOut : Type 0 where
  moved_out : ℕ → SpliceOut
  failed_out : Errno → SpliceOut

pub data PutAction : Type 0 where
  reuse destroy : PutAction

-- A stock item that is given back: the action and what is left in the pipe.
pub record Put : Type 0 where
  pub action : PutAction
  pub leftover : List ℕ

pub data ReceiveResult : Type 0 where
  ok socket_blocking socket_closed pipe_full error : ReceiveResult

pub data SendResult : Type 0 where
  sent partial blocking send_error : SendResult

pub record Splice : Type 0 where
  pub pipe : Option (List ℕ)
  pub size : ℕ
  pub received_bytes : ℕ
  pub sent_bytes : ℕ

abbrev pub empty : Splice
empty = record { pipe = none; size = 0; received_bytes = 0; sent_bytes = 0 }

-- `~Splice`: what is given back to the stock.
release_pipe : Option (List ℕ) → ℕ → List Put
release_pipe none size = []
release_pipe (some bytes) size =
    record { action = if size == 0 then reuse else destroy; leftover = bytes } ∷ []

unfoldable pub puts_at_end : Splice → List Put
unfolding release_pipe
puts_at_end s = release_pipe s.pipe s.size

-- `stock.GetNow`, when there is no pipe yet. `none` is an exception: pipe() failed.
unfoldable pub get_pipe : Option (List ℕ) → Option (List ℕ) → Option (List ℕ)
get_pipe (some bytes) stock = some bytes
get_pipe none stock = stock

pub record Received : Type 0 where
  pub splice : Splice
  pub result : ReceiveResult
  pub puts : List Put

after_splice_in : Splice → List ℕ → SpliceIn → Received
after_splice_in s bytes (moved_in (b ∷ bs)) = record {
  splice = record s {
    pipe = some (bytes ++ b ∷ bs);
    size = u64 (s.size + length (b ∷ bs));
    received_bytes = u64 (s.received_bytes + length (b ∷ bs));
  };
  result = ok;
  puts = [];
}
after_splice_in s bytes (moved_in []) =
    if s.size == 0
    then record {
      splice = record s { pipe = none };
      result = socket_closed;
      puts = record { action = reuse; leftover = bytes } ∷ [];
    }
    else record { splice = record s { pipe = some bytes }; result = socket_closed; puts = [] }
after_splice_in s bytes (failed_in eagain) = record {
  splice = record s { pipe = some bytes };
  result = if s.size == 0 then socket_blocking else pipe_full;
  puts = [];
}
after_splice_in s bytes (failed_in other_errno) = record {
  splice = record s { pipe = some bytes };
  result = error;
  puts = [];
}

-- Whether the assertion of `ReceiveFrom` holds: without a pipe, `size == 0`.
unfoldable pub size_asserted : Option (List ℕ) → ℕ → Bool
size_asserted none size = size == 0
size_asserted (some bytes) size = true

-- `ReceiveFrom`; `none` is a failure of its assertion, or else the exception of `stock.GetNow`.
unfoldable pub receive_from : Splice → Option (List ℕ) → SpliceIn → Option Received
unfolding get_pipe after_splice_in size_asserted
receive_from s stock r =
    if size_asserted s.pipe s.size
    then elim (get_pipe s.pipe stock) [
      | none ↦ none
      | some bytes ↦ some (after_splice_in s bytes r)
    ]
    else none

pub record Sent : Type 0 where
  pub splice : Splice
  pub result : SendResult
  pub puts : List Put
  pub bytes : List ℕ

after_splice_out : Splice → List ℕ → SpliceOut → Sent
after_splice_out s bytes (moved_out (suc n)) =
    let size = sub64 s.size (suc n) in
    let sent_bytes = u64 (s.sent_bytes + suc n) in
    if size == 0
    then record {
      splice = record s { pipe = none; size = size; sent_bytes = sent_bytes };
      result = sent;
      puts = record { action = reuse; leftover = drop (suc n) bytes } ∷ [];
      bytes = take (suc n) bytes;
    }
    else record {
      splice = record s { pipe = some (drop (suc n) bytes); size = size; sent_bytes = sent_bytes };
      result = partial;
      puts = [];
      bytes = take (suc n) bytes;
    }
after_splice_out s bytes (moved_out zero) = record {
  splice = s;
  result = send_error;
  puts = [];
  bytes = [];
}
after_splice_out s bytes (failed_out eagain) = record {
  splice = s;
  result = blocking;
  puts = [];
  bytes = [];
}
after_splice_out s bytes (failed_out other_errno) = record {
  splice = s;
  result = send_error;
  puts = [];
  bytes = [];
}

-- `SendTo`; `none` is a failure of its assertions, `pipe != nullptr` and `size > 0`.
unfoldable pub send_to : Splice → SpliceOut → Option Sent
unfolding after_splice_out
send_to s r = elim s.pipe [
  | none ↦ none
  | some bytes ↦ if s.size == 0 then none else some (after_splice_out s bytes r)
]
