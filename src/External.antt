-- ===== src/External.antt =====
-- What the program takes from code that is not in the repository (the libcommon submodule, libsodium,
-- Berkeley DB): interfaces of operations with the documented laws that the proofs rely on.
use uologin.Prelude.{ℕ, ◌%◌, ◌≤◌, ◌≡◌, ◌≢◌, ◌↔◌, Bool, true, false, List, [], length, All}

-- util/PackedBigEndian.hxx: integers stored as big-endian bytes.
pub record Packing : Type 0 where
  pub be16 : ℕ → List ℕ
  pub be32 : ℕ → List ℕ
  pub from_be16 : List ℕ → ℕ
  pub length-be16 : (n : ℕ) → length (be16 n) ≡ 2
  pub length-be32 : (n : ℕ) → length (be32 n) ≡ 4
  pub from_be16-be16 : (n : ℕ) → from_be16 (be16 n) ≡ n % 65536

-- util/CharUtil.hxx and util/StringVerify.hxx.
pub record Text : Type 0 where
  pub is_printable_ascii : ℕ → Bool
  pub to_upper_ascii : ℕ → ℕ
  pub check_chars_non_empty : List ℕ → (ℕ → Bool) → Bool
  pub check_chars_non_empty_iff :
      (s : List ℕ) (p : ℕ → Bool)
      → (check_chars_non_empty s p ≡ true) ↔ ((s ≢ []) × All (λ c. p c ≡ true) s)
  pub not_printable_nul : is_printable_ascii 0 ≡ false

-- event/SocketEvent.hxx and the timer events: which events are scheduled.
pub record Events : Type 1 where
  pub Socket : Type 0
  pub undefined : Socket
  pub open_socket : Socket → Socket
  pub close : Socket → Socket
  pub is_defined : Socket → Bool
  pub read_pending : Socket → Bool
  pub write_pending : Socket → Bool
  pub schedule_read_and_hangup : Socket → Socket
  pub schedule_read : Socket → Socket
  pub schedule_write : Socket → Socket
  pub cancel_only_read : Socket → Socket
  pub cancel_only_write : Socket → Socket
  pub undefined_lem : is_defined undefined ≡ false
  pub open_defined : (s : Socket) → is_defined (open_socket s) ≡ true
  pub open_no_write : (s : Socket) → write_pending (open_socket s) ≡ false
  pub hangup_defined : (s : Socket) → is_defined (schedule_read_and_hangup s) ≡ is_defined s
  pub hangup_read : (s : Socket) → read_pending (schedule_read_and_hangup s) ≡ true
  pub hangup_write : (s : Socket) → write_pending (schedule_read_and_hangup s) ≡ false
  pub schedule_read_defined : (s : Socket) → is_defined (schedule_read s) ≡ is_defined s
  pub schedule_read_read : (s : Socket) → read_pending (schedule_read s) ≡ true
  pub schedule_read_write : (s : Socket) → write_pending (schedule_read s) ≡ write_pending s
  pub schedule_write_defined : (s : Socket) → is_defined (schedule_write s) ≡ is_defined s
  pub schedule_write_read : (s : Socket) → read_pending (schedule_write s) ≡ read_pending s
  pub schedule_write_write : (s : Socket) → write_pending (schedule_write s) ≡ true
  pub cancel_read_defined : (s : Socket) → is_defined (cancel_only_read s) ≡ is_defined s
  pub cancel_read_read : (s : Socket) → read_pending (cancel_only_read s) ≡ false
  pub cancel_read_write : (s : Socket) → write_pending (cancel_only_read s) ≡ write_pending s
  pub cancel_write_defined : (s : Socket) → is_defined (cancel_only_write s) ≡ is_defined s
  pub cancel_write_read : (s : Socket) → read_pending (cancel_only_write s) ≡ read_pending s
  pub cancel_write_write : (s : Socket) → write_pending (cancel_only_write s) ≡ false

-- event/FarTimerEvent.hxx and event/CoarseTimerEvent.hxx, durations in nanoseconds. `fired`
-- is a timer that the event loop has taken off its list to call its handler.
pub record Timers : Type 1 where
  pub Timer : Type 0
  pub idle : Timer
  pub schedule : ℕ → Timer → Timer
  pub cancel : Timer → Timer
  pub fired : Timer → Timer
  pub is_pending : Timer → Bool
  pub idle_lem : is_pending idle ≡ false
  pub schedule_lem : (d : ℕ) (t : Timer) → is_pending (schedule d t) ≡ true
  pub cancel_lem : (t : Timer) → is_pending (cancel t) ≡ false
  pub fired_lem : (t : Timer) → is_pending (fired t) ≡ false

-- util/TokenBucket.hxx and time/Cast.hxx: `update rate burst now size`.
pub record Buckets : Type 1 where
  pub Float : Type 0
  pub float : ℕ → Float
  pub lt_zero : Float → Bool
  pub to_float_seconds : ℕ → Float
  pub Bucket : Type 0
  pub fresh : Bucket
  pub update : Float → Float → Float → Float → Bucket → Float × Bucket

pub data Family : Type 0 where
  inet inet6 unspec : Family

-- net/SocketAddress.hxx and its casts, net/ToString.hxx.
pub record Addresses : Type 1 where
  pub Address : Type 0
  pub is_null : Address → Bool
  pub family : Address → Family
  pub v4_numeric_be : Address → ℕ
  pub is_v4_mapped : Address → Bool
  pub unmap_v4 : Address → Address
  pub v6_bytes : Address → List ℕ
  pub host_to_string : Address → List ℕ

-- What db->get() of Berkeley DB answers: the value, DB_NOTFOUND or another error.
pub data GetResult : Type 0 where
  found : List ℕ → GetResult
  not_found get_failed : GetResult

-- An open Berkeley DB handle: db->get() with a user buffer of `ulen` bytes, by key. A value that does
-- not fit the buffer is an error.
pub record Handle : Type 0 where
  pub db_get : ℕ → List ℕ → GetResult
  pub found-le :
      (ulen : ℕ) (key value : List ℕ) → db_get ulen key ≡ found value → length value ≤ ulen

-- crypto_pwhash_str_verify() of libsodium: the hash, then the password.
pub record Passwords : Type 0 where
  pub verify : List ℕ → List ℕ → Bool

-- Everything external together.
pub record Platform : Type 1 where
  pub packing : Packing
  pub open packing use *
  pub text : Text
  pub open text use *
  pub events : Events
  pub open events use *
  pub timers : Timers
  pub open timers use *
  pub buckets : Buckets
  pub open buckets use *
  pub addresses : Addresses
  pub open addresses use *
  pub passwords : Passwords
  pub open passwords use *
