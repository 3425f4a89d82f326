-- ===== src/Connection/Transfer.antt =====
-- Forwarding between the two sockets of a connection. `OnIncomingReady` and `OnOutgoingReady` of
-- src/Connection.cxx are mirror images: `near` is the socket that is ready, `far` the other one.
use uologin.Prelude.{ℕ, Bool, true, false, Option, none, some, List, [], ◌++◌, if◌then◌else◌}
use uologin.External.{Platform}
use uologin.Splice.{
  Splice, SpliceIn, SpliceOut, Put, Sent, ReceiveResult, SendResult, sent, partial, blocking,
  send_error, ok, socket_blocking, socket_closed, pipe_full, error, receive_from, send_to,
  size_asserted,
}
use uologin.Connection.{Fault, assertion, exception}

pub record Pair (P : Platform) : Type 0 where
  pub near : P.Socket
  pub far : P.Socket
  pub near_far : Splice
  pub far_near : Splice

-- Which of the flags the event loop reports.
pub record Ready : Type 0 where
  pub dead : Bool
  pub read : Bool
  pub write : Bool

-- What the system calls answer, in the order of the calls: splice() to the near socket, the stock's
-- pipe, splice() from the near socket, splice() to the far socket.
pub record Calls : Type 0 where
  pub write_near : SpliceOut
  pub stock : Option (List ℕ)
  pub read_near : SpliceIn
  pub write_far : SpliceOut

-- What has gone to the sockets and back to the stock, and the bytes counted in the metrics.
pub record Traffic : Type 0 where
  pub to_near : List ℕ
  pub to_far : List ℕ
  pub puts : List Put
  pub counted : ℕ
  pub shut_far : Bool

pub data Transfer (P : Platform) : Type 0 where
  going : Pair P → Traffic → Transfer P
  closing : Pair P → Traffic → Transfer P
  fault : Fault → Transfer P

-- `DoSpliceSend`: the sockets after it, or `none` for `false`.
unfoldable pub sockets_after :
    (P : Platform) → SendResult → P.Socket → P.Socket → Option (P.Socket × P.Socket)
sockets_after P sent from to = some (from, P.cancel_only_write to)
sockets_after P partial from to = some (P.cancel_only_read from, P.schedule_write to)
sockets_after P blocking from to = some (P.cancel_only_read from, P.schedule_write to)
sockets_after P send_error from to = none

module _ (P : Platform) where
  open P use {Socket, write_pending, cancel_only_read}

  -- `DoSpliceSend(incoming, outgoing, splice_in_out)` after a successful read.
  unfoldable pub forward_far : Pair P → Traffic → Sent → Transfer P
  unfolding sockets_after
  forward_far p t d =
      let t' = record t { to_far = d.bytes; puts = t.puts ++ d.puts } in
      let p' = record p { near_far = d.splice } in
      elim (sockets_after P d.result p.near p.far) [
        | none ↦ closing p' t'
        | some (near, far) ↦ going (record p' { near = near; far = far }) t'
      ]

  unfoldable pub after_read : Pair P → Traffic → SpliceOut → ReceiveResult → Transfer P
  unfolding forward_far
  after_read p t r ok = elim (send_to p.near_far r) [
    | none ↦ fault assertion
    | some d ↦ forward_far p (record t { counted = p.near_far.received_bytes }) d
  ]
  after_read p t r socket_blocking = going p t
  after_read p t r socket_closed = closing p (record t { shut_far = true })
  after_read p t r pipe_full =
      if write_pending p.far
      then going (record p { near = cancel_only_read p.near }) t
      else fault assertion
  after_read p t r error = closing p t

  unfoldable pub transfer_read : Pair P → Calls → Traffic → Transfer P
  unfolding after_read
  transfer_read p k t =
      elim (receive_from (record p.near_far { received_bytes = 0 }) k.stock k.read_near) [
        | none ↦
            fault (if size_asserted p.near_far.pipe p.near_far.size then exception else assertion)
        | some d ↦
            after_read (record p { near_far = d.splice }) (record t { puts = t.puts ++ d.puts })
              k.write_far d.result
      ]

  -- `if (events & READ)`.
  unfoldable pub transfer_rest : Bool → Pair P → Calls → Traffic → Transfer P
  unfolding transfer_read
  transfer_rest true p k t = transfer_read p k t
  transfer_rest false p k t = going p t

  -- `DoSpliceSend(outgoing, incoming, splice_out_in)`, and on from there.
  unfoldable pub forward_near : Ready → Pair P → Calls → Traffic → Sent → Transfer P
  unfolding transfer_rest sockets_after
  forward_near ev p k t d =
      let t' = record t { to_near = d.bytes; puts = d.puts } in
      let p' = record p { far_near = d.splice } in
      elim (sockets_after P d.result p.far p.near) [
        | none ↦ closing p' t'
        | some (far, near) ↦ transfer_rest ev.read (record p' { near = near; far = far }) k t'
      ]

  abbrev pub no_traffic : Traffic
  no_traffic = record { to_near = []; to_far = []; puts = []; counted = 0; shut_far = false }

  unfoldable pub transfer : Ready → Calls → Pair P → Transfer P
  unfolding forward_near transfer_rest
  transfer ev k p =
      if ev.write
      then elim (send_to p.far_near k.write_near) [
        | none ↦ fault assertion
        | some d ↦ forward_near ev p k no_traffic d
      ]
      else transfer_rest ev.read p k no_traffic
