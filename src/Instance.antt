-- ===== src/Instance.antt =====
-- The state that the components share: `Instance` of src/Instance.hxx with its metrics. `now` is the
-- event loop's steady clock, and `require_knock` is whether there is a knock listener.
use uologin.Prelude.{ℕ, ◌+◌, Bool, u64, sub64}
use uologin.External.{Platform}
use uologin.Accounting.{AccountingMap, account}
use uologin.Config.{Config}
use uologin.Database.{Database}
use uologin.Prelude.{Option}

pub record Metrics : Type 0 where
  pub client_connections : ℕ
  pub server_connections : ℕ
  pub client_connections_accepted : ℕ
  pub server_connections_established : ℕ
  pub server_connections_failed : ℕ
  pub accepted_knocks : ℕ
  pub rejected_knocks : ℕ
  pub malformed_knocks : ℕ
  pub missing_knocks : ℕ
  pub accepted_logins : ℕ
  pub rejected_logins : ℕ
  pub malformed_logins : ℕ
  pub delayed_connections : ℕ
  pub client_bytes : ℕ
  pub server_bytes : ℕ

pub record Instance (P : Platform) : Type 0 where
  pub config : Config P
  pub database : Database
  pub client_accounting : AccountingMap P
  pub require_knock : Bool
  pub metrics : Metrics
  pub now : ℕ

-- `++counter` and `--counter` on 64-bit integers.
abbrev pub inc : ℕ → ℕ
inc n = u64 (n + 1)

abbrev pub dec : ℕ → ℕ
dec n = sub64 n 1

module _ {P : Platform} where
  -- `accounting.UpdateTokenBucket(size)`.
  abbrev pub charge : ℕ → Option ℕ → Instance P → Instance P
  charge size per_client i = record i {
    client_accounting = account P i.now size per_client i.client_accounting;
  }
