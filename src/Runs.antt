-- ===== src/Runs.antt =====
-- A concrete platform, and the theorems at concrete inputs.
pub mod Config
pub mod Boot
pub mod Life
pub mod Main
pub mod Relay
pub mod Pipes
pub mod Nftables
pub mod Wire
pub mod Accounting
pub mod Database
pub mod Connection
pub mod Admission
pub mod Server
use uologin.Prelude.{
  ℕ, ◌+◌, ◌-◌, ◌*◌, ◌/◌, ◌%◌, ◌≡◌, ◌≢◌, ◌↔◌, refl, Bool, true, false, ◌&&◌, Option, none, some,
  List, [], ◌∷◌, All, length, arith, if◌then◌else◌, ◌==◌, ltb, leb,
}
use uologin.External.{
  Packing, Text, Events, Timers, Buckets, Addresses, Family, inet, inet6, unspec, Passwords,
  Platform,
}

abbrev read_be16 : List ℕ → ℕ
read_be16 (a ∷ b ∷ _) = a * 256 + b
read_be16 _ = 0

abbrev packing : Packing
packing = record {
  be16 = λ n. n / 256 % 256 ∷ n % 256 ∷ [];
  be32 = λ n. n / 16777216 % 256 ∷ n / 65536 % 256 ∷ n / 256 % 256 ∷ n % 256 ∷ [];
  from_be16 = read_be16;
  length-be16 = λ n. refl;
  length-be32 = λ n. refl;
  from_be16-be16 = λ n. omega arith;
}

abbrev all_chars : (ℕ → Bool) → List ℕ → Bool
all_chars p [] = true
all_chars p (c ∷ cs) = p c && all_chars p cs

all_chars_iff : (p : ℕ → Bool) (s : List ℕ) → (all_chars p s ≡ true) ↔ All (λ c. p c ≡ true) s
all_chars_iff p [] = ((λ _. tt), λ _. refl)
all_chars_iff p (c ∷ cs) =
    let (f, g) = all_chars_iff p cs in
    ((λ h. (ground arith, f (ground arith))), λ (a, b). ground (arith, a, g b))

abbrev non_empty : List ℕ → (ℕ → Bool) → Bool
non_empty [] p = false
non_empty (c ∷ cs) p = all_chars p (c ∷ cs)

pub non_empty_iff :
    (s : List ℕ) (p : ℕ → Bool) → (non_empty s p ≡ true) ↔ ((s ≢ []) × All (λ c. p c ≡ true) s)
non_empty_iff [] p = ((λ h. cc), λ (n, _). absurd (n refl))
non_empty_iff (c ∷ cs) p =
    let (f, g) = all_chars_iff p (c ∷ cs) in ((λ h. ((λ e. cc), f h)), λ (_, a). g a)

abbrev text : Text
text = record {
  is_printable_ascii = λ c. leb 32 c && ltb c 127;
  to_upper_ascii = λ c. if leb 97 c && leb c 122 then c - 32 else c;
  check_chars_non_empty = non_empty;
  check_chars_non_empty_iff = non_empty_iff;
  not_printable_nul = refl;
}

pub record Socket : Type 0 where
  pub defined : Bool
  pub read : Bool
  pub write : Bool

abbrev events : Events
events = record {
  Socket = Socket;
  undefined = record { defined = false; read = false; write = false };
  open_socket = λ s. record { defined = true; read = false; write = false };
  close = λ s. record { defined = false; read = false; write = false };
  is_defined = λ s. s.defined;
  read_pending = λ s. s.read;
  write_pending = λ s. s.write;
  schedule_read_and_hangup = λ s. record { defined = s.defined; read = true; write = false };
  schedule_read = λ s. record { defined = s.defined; read = true; write = s.write };
  schedule_write = λ s. record { defined = s.defined; read = s.read; write = true };
  cancel_only_read = λ s. record { defined = s.defined; read = false; write = s.write };
  cancel_only_write = λ s. record { defined = s.defined; read = s.read; write = false };
  undefined_lem = refl;
  open_defined = λ s. refl;
  open_no_write = λ s. refl;
  hangup_defined = λ s. refl;
  hangup_read = λ s. refl;
  hangup_write = λ s. refl;
  schedule_read_defined = λ s. refl;
  schedule_read_read = λ s. refl;
  schedule_read_write = λ s. refl;
  schedule_write_defined = λ s. refl;
  schedule_write_read = λ s. refl;
  schedule_write_write = λ s. refl;
  cancel_read_defined = λ s. refl;
  cancel_read_read = λ s. refl;
  cancel_read_write = λ s. refl;
  cancel_write_defined = λ s. refl;
  cancel_write_read = λ s. refl;
  cancel_write_write = λ s. refl;
}

abbrev timers : Timers
timers = record {
  Timer = Bool;
  idle = false;
  schedule = λ d t. true;
  cancel = λ t. false;
  fired = λ t. false;
  is_pending = λ t. t;
  idle_lem = refl;
  schedule_lem = λ d t. refl;
  cancel_lem = λ t. refl;
  fired_lem = λ t. refl;
}

-- Ten tokens that are never filled up; a number below zero is `none`.
abbrev take_tokens : Option ℕ → ℕ → Option ℕ × ℕ
take_tokens none tokens = (some tokens, tokens)
take_tokens (some size) tokens =
    if ltb tokens size then (none, tokens) else (some (tokens - size), tokens - size)

abbrev is_none : Option ℕ → Bool
is_none none = true
is_none (some n) = false

abbrev buckets : Buckets
buckets = record {
  Float = Option ℕ;
  float = some;
  lt_zero = is_none;
  to_float_seconds = some;
  Bucket = ℕ;
  fresh = 10;
  update = λ rate burst now size b. take_tokens size b;
}

pub data TestAddress : Type 0 where
  unset : TestAddress
  v4 : ℕ → TestAddress
  v6 : List ℕ → TestAddress

abbrev is_unset : TestAddress → Bool
is_unset unset = true
is_unset _ = false

abbrev family_of : TestAddress → Family
family_of unset = unspec
family_of (v4 n) = inet
family_of (v6 bytes) = inet6

abbrev number_of : TestAddress → ℕ
number_of (v4 n) = n
number_of _ = 0

abbrev bytes_of : TestAddress → List ℕ
bytes_of (v6 bytes) = bytes
bytes_of _ = []

abbrev host : TestAddress → List ℕ
host (v4 n) = 49 ∷ []
host (v6 bytes) = 58 ∷ 58 ∷ []
host unset = []

abbrev addresses : Addresses
addresses = record {
  Address = TestAddress;
  is_null = is_unset;
  family = family_of;
  v4_numeric_be = number_of;
  is_v4_mapped = λ a. false;
  unmap_v4 = λ a. a;
  v6_bytes = bytes_of;
  host_to_string = host;
}

-- A hash is the password itself.
abbrev same_bytes : List ℕ → List ℕ → Bool
same_bytes [] [] = true
same_bytes (a ∷ s) (b ∷ t) = a == b && same_bytes s t
same_bytes _ _ = false

abbrev pub platform : Platform
platform = record {
  packing = packing;
  text = text;
  events = events;
  timers = timers;
  buckets = buckets;
  addresses = addresses;
  passwords = record { verify = same_bytes };
}
