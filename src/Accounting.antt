-- ===== src/Accounting.antt =====
-- Per-client accounting: src/net/ClientAccounting.hxx, src/net/ClientAccounting.cxx and
-- src/net/AccountedClientConnection.cxx. Times and durations are nanoseconds of the steady clock. The
-- hash set is a list with the newest client in front; a pointer to a `PerClientAccounting` is the
-- client's address number, and an `AccountedClientConnection` is the number of the connection.
pub mod Clients
pub mod Delay
pub mod Keys
pub mod Halves
pub mod Ids
pub mod Cleanup
use uologin.Prelude.{
  ℕ, zero, suc, ◌+◌, ◌-◌, ◌*◌, ◌≡◌, Bool, true, false, Option, none, some, List, [], ◌∷◌, ◌++◌,
  length, take, drop, if◌then◌else◌, ◌==◌, ltb, u64, bit_or, bit_xor, ◌||◌,
}
use uologin.External.{Platform, inet, inet6, unspec}

-- `Read64`: `(value << 8) | src[i]` over the bytes.
pub read_loop : ℕ → List ℕ → ℕ
read_loop value [] = value
read_loop value (b ∷ bs) = read_loop (bit_or (u64 (value * 256)) b) bs

unfoldable pub read64 : List ℕ → ℕ
unfolding read_loop
read64 src = read_loop 0 (take 8 src)

abbrev pub second : ℕ
second = 1_000_000_000

abbrev pub minute : ℕ
minute = 60 * second

abbrev pub tarpit_for : ℕ
tarpit_for = minute

abbrev pub max_delay : ℕ
max_delay = minute

abbrev pub delay_step : ℕ
delay_step = 100_000_000

pub record PerClient (P : Platform) : Type 0 where
  pub address : ℕ
  pub connections : List ℕ
  pub expires : ℕ
  pub tarpit_until : ℕ
  pub delay : ℕ
  pub token_bucket : P.Bucket
  pub knocked : Bool

pub record AccountingMap (P : Platform) : Type 0 where
  pub max_connections : ℕ
  pub tarpit : Bool
  pub clients : List (PerClient P)
  pub cleanup_timer : P.Timer

abbrev pub is_empty {ℓ} : {A : Type ℓ} → List A → Bool
is_empty [] = true
is_empty (x ∷ xs) = false

unfoldable pub remove_id : ℕ → List ℕ → List ℕ
remove_id i [] = []
remove_id i (j ∷ js) = if j == i then js else j ∷ remove_id i js

module _ (P : Platform) where
  open P use {Address, is_null, family, v4_numeric_be, is_v4_mapped, unmap_v4, v6_bytes}
  open P use {float, lt_zero, to_float_seconds, update, fresh, schedule, fired, is_pending}

  unfoldable pub to_integer : Address → ℕ
  unfolding read64
  to_integer a = if is_null a then 0 else elim (family a) [
    | inet ↦ v4_numeric_be a
    | inet6 ↦
        if is_v4_mapped a
        then v4_numeric_be (unmap_v4 a)
        else bit_xor (read64 (v6_bytes a)) (read64 (drop 8 (v6_bytes a)))
    | unspec ↦ 0
  ]

  -- The constructor of `PerClientAccounting`.
  unfoldable pub new_client : ℕ → PerClient P
  new_client address = record {
    address = address;
    connections = [];
    expires = 0;
    tarpit_until = 0;
    delay = 0;
    token_bucket = fresh;
    knocked = false;
  }

  -- `PerClientAccounting::Check`.
  unfoldable pub check : ℕ → PerClient P → Bool
  check max_connections c = max_connections == 0 || ltb (length c.connections) max_connections

  -- `PerClientAccounting::UpdateTokenBucket` behind its computation of `available < 0`.
  unfoldable adjust_delay : ℕ → Bool → PerClient P → PerClient P
  adjust_delay now true c = record c {
    tarpit_until = now + tarpit_for;
    delay = if ltb c.delay max_delay then c.delay + delay_step else c.delay;
    knocked = false;
  }
  adjust_delay now false c =
      if ltb now c.tarpit_until
      then record c { delay = if ltb delay_step c.delay then c.delay - delay_step else c.delay }
      else record c { delay = 0 }

  unfoldable pub update_token_bucket : Bool → ℕ → ℕ → PerClient P → PerClient P
  unfolding adjust_delay
  update_token_bucket false now size c = c
  update_token_bucket true now size c =
      let (available, bucket) =
        update (float 1) (float 10) (to_float_seconds now) (float size) c.token_bucket in
      adjust_delay now (lt_zero available) (record c { token_bucket = bucket })

  unfoldable pub find : ℕ → List (PerClient P) → Option (PerClient P)
  find a [] = none
  find a (c ∷ cs) = if c.address == a then some c else find a cs

  -- A method call on the client at an address.
  pub modify : ℕ → (PerClient P → PerClient P) → List (PerClient P) → List (PerClient P)
  modify a f [] = []
  modify a f (c ∷ cs) = if c.address == a then f c ∷ cs else c ∷ modify a f cs

  -- `ClientAccountingMap::Get`: the map and the pointer.
  unfoldable pub get : Address → AccountingMap P → AccountingMap P × Option ℕ
  unfolding find new_client
  get a m =
      let address = to_integer a in
      if address == 0 then (m, none) else elim (find address m.clients) [
        | none ↦ (record m { clients = new_client address ∷ m.clients }, some address)
        | some c ↦ (m, some address)
      ]

  pub schedule_cleanup : AccountingMap P → AccountingMap P
  schedule_cleanup m =
      if is_pending m.cleanup_timer
      then m
      else record m { cleanup_timer = schedule minute m.cleanup_timer }

  -- The assertion is on the pointer of the object `i`, which its constructor passes here while that is
  -- null; the model has the pointer in the object only after this.
  pub add_connection : ℕ → ℕ → AccountingMap P → AccountingMap P
  unfolding modify
  add_connection a i m = record m {
    clients = modify a (λ c. record c { connections = c.connections ++ i ∷ [] }) m.clients;
  }

  abbrev pub detach : ℕ → ℕ → PerClient P → PerClient P
  detach now i c = record c { connections = remove_id i c.connections; expires = now + 5 * minute }

  has_no_connections : Option (PerClient P) → Bool
  has_no_connections none = false
  has_no_connections (some c) = is_empty c.connections

  -- The assertion is on the pointer of the object `i`, which is the `a` of the only call
  -- (`detach_connection`).
  pub remove_connection : ℕ → ℕ → ℕ → AccountingMap P → AccountingMap P
  unfolding modify remove_id find has_no_connections schedule_cleanup
  remove_connection now a i m =
      let clients = modify a (detach now i) m.clients in
      let m' = record m { clients = clients } in
      if has_no_connections (find a clients) then schedule_cleanup m' else m'

  -- The predicate of `OnCleanupTimer`, which may set `reschedule`, and the removal by it.
  sweep : ℕ → List (PerClient P) → List (PerClient P) × Bool
  sweep now [] = ([], false)
  sweep now (c ∷ cs) =
      let (kept, reschedule) = sweep now cs in
      if is_empty c.connections
      then (if ltb now c.expires then (c ∷ kept, true) else (kept, reschedule))
      else (c ∷ kept, reschedule)

  -- The event loop calls this when the timer has fired.
  pub on_cleanup_timer : ℕ → AccountingMap P → AccountingMap P
  unfolding sweep schedule_cleanup
  on_cleanup_timer now m =
      let (kept, reschedule) = sweep now m.clients in
      let m' = record m { clients = kept; cleanup_timer = fired m.cleanup_timer } in
      if reschedule then schedule_cleanup m' else m'

  -- `AccountedClientConnection::UpdateTokenBucket`; `none` is the null pointer.
  unfoldable pub account : ℕ → ℕ → Option ℕ → AccountingMap P → AccountingMap P
  unfolding modify update_token_bucket
  account now size none m = m
  account now size (some a) m = record m {
    clients = modify a (update_token_bucket m.tarpit now size) m.clients;
  }

  -- `~AccountedClientConnection`.
  pub detach_connection : ℕ → Option ℕ → ℕ → AccountingMap P → AccountingMap P
  unfolding remove_connection
  detach_connection now none i m = m
  detach_connection now (some a) i m = remove_connection now a i m

  unfoldable pub set_knocked : ℕ → AccountingMap P → AccountingMap P
  unfolding modify
  set_knocked a m = record m { clients = modify a (λ c. record c { knocked = true }) m.clients }
