-- ===== src/Knock.antt =====
-- Port knocking over UDP: src/KnockListener.cxx.
pub mod Requests
pub mod Leaving
use uologin.Prelude.{
  ℕ, Bool, true, false, not, ◌||◌, Option, none, some, List, [], ◌∷◌, length, if◌then◌else◌, ◌==◌,
}
use uologin.External.{Platform}
use uologin.Accounting.{get, set_knocked}
use uologin.Database.{Files, Job, Check, check_thrown, accepted_now, queued, check_credentials}
use uologin.Wire.{parse_login, extract_string, is_valid_username, sizeof_account_login}
use uologin.Wire.Command
use uologin.Instance.{Instance, inc, charge}

-- A request of a peer; with an nftables set, the set that its host is added to.
pub record Request (P : Platform) : Type 0 where
  pub nft_set : Option (List ℕ)
  pub address : P.Address

-- What became of a datagram or a request. `answered` deletes the request and may call
-- `NftAddElement` with the set and the host; `leaked` leaves the request allocated for ever.
pub data Knocked (P : Platform) : Type 0 where
  ignored : Instance P → Knocked P
  pending : Instance P → Request P → Job → Knocked P
  answered : Instance P → Option (List ℕ × List ℕ) → Knocked P
  leaked : Instance P → Knocked P
  terminated : Knocked P

module _ (P : Platform) where
  open P use {host_to_string}

  nft_element : Option (List ℕ) → List ℕ → Option (List ℕ × List ℕ)
  nft_element none ip = none
  nft_element (some set) [] = none
  nft_element (some set) (c ∷ cs) = some (set, c ∷ cs)

  unfoldable answer : Request P → Bool → Instance P → Option ℕ → Knocked P
  unfolding nft_element
  answer r result i none = leaked i
  answer r false i (some a) =
      let i' = charge 5 (some a) i in
      answered
        (record i' {
          metrics = record i'.metrics { rejected_knocks = inc i'.metrics.rejected_knocks };
        })
        none
  answer r true i (some a) =
      answered
        (record i {
          metrics = record i.metrics { accepted_knocks = inc i.metrics.accepted_knocks };
          client_accounting = set_knocked P a i.client_accounting;
        })
        (nft_element r.nft_set (host_to_string r.address))

  -- `Request::OnCheckCredentials`.
  unfoldable pub on_check_credentials : Request P → Bool → Instance P → Knocked P
  unfolding answer
  on_check_credentials r result i =
      let (m, accounting) = get P r.address i.client_accounting in
      answer r result (record i { client_accounting = m }) accounting

  -- The constructor of `Request`, which is `noexcept`.
  unfoldable start_request : Request P → Instance P → Check → Knocked P
  unfolding on_check_credentials
  start_request r i (check_thrown e) = terminated
  start_request r i accepted_now = on_check_credentials r true i
  start_request r i (queued j) = pending i r j

  unfoldable pub malformed : ℕ → ℕ → Instance P → Instance P
  malformed size a i =
      let i' = charge size (some a) i in
      record i' {
        metrics = record i'.metrics { malformed_knocks = inc i'.metrics.malformed_knocks };
      }

  unfoldable process_knock : Files → Request P → List ℕ → Instance P → ℕ → Knocked P
  unfolding start_request malformed
  process_knock w r payload i a =
      let packet = parse_login 0 payload in
      let username = extract_string packet.credentials.username in
      let password = extract_string packet.credentials.password in
      if not (length payload == sizeof_account_login) || not (packet.cmd == Command.account_login)
      then ignored (malformed 10 a i)
      else if is_valid_username P username
      then (let (database, check) = check_credentials username password w i.database in
          start_request r (record i { database = database }) check)
      else ignored (malformed 8 a i)

  unfoldable with_accounting : Files → Request P → List ℕ → Instance P → Option ℕ → Knocked P
  unfolding process_knock
  with_accounting w r payload i none = ignored i
  with_accounting w r payload i (some a) = process_knock w r payload i a

  unfoldable pub on_udp_datagram :
      Files → Option (List ℕ) → List ℕ → P.Address → Instance P → Knocked P
  unfolding with_accounting
  on_udp_datagram w nft_set payload address i =
      let (m, accounting) = get P address i.client_accounting in
      with_accounting w (record { nft_set = nft_set; address = address }) payload
        (record i { client_accounting = m }) accounting
