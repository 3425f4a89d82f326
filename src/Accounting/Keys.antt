-- ===== src/Accounting/Keys.antt =====
-- `ClientAccountingMap::Get`: one client for each address.
use uologin.Prelude.{ℕ, ◌≡◌, ◌≢◌, refl, Option, none, some, arith, Option-cases, inl, inr}
use uologin.External.{Platform}
use uologin.Accounting.{PerClient, AccountingMap, find, get, to_integer, new_client, account}
use uologin.Accounting.Clients.{Distinct}

module _ (P : Platform) where
  -- The client that `find` gives, or a new one.
  abbrev pub or_new : ℕ → Option (PerClient P) → PerClient P
  or_new a none = new_client P a
  or_new a (some c) = c

  -- An address with the number 0 has no accounting and leaves the map alone.
  pub get_null : (a : P.Address) (m : AccountingMap P) → to_integer P a ≡ 0 → get P a m ≡ (m, none)
  unfolding get
  get_null a m h = ground arith

  -- Any other address is given its client, which is made if it is missing; every other client stays,
  -- and asking again changes nothing.
  pub get_lem :
      (a : P.Address) (m : AccountingMap P)
      → to_integer P a ≢ 0
      → let m' = (get P a m).0 in
        ((get P a m).1 ≡ some (to_integer P a))
        × (find P (to_integer P a) m'.clients
            ≡ some (or_new (to_integer P a) (find P (to_integer P a) m.clients)))
        × ((b : ℕ) → b ≢ to_integer P a → find P b m'.clients ≡ find P b m.clients)
        × (get P a m' ≡ (m', some (to_integer P a)))
  unfolding get find
  get_lem a m h = elim (Option-cases (find P (to_integer P a) m.clients)) [
    | inl e ↦ ground (arith, e)
    | inr (c, e) ↦ ground (arith, e)
  ]

  -- `Get` keeps the addresses of the clients distinct and nonzero.
  pub get-Distinct :
      (a : P.Address) (m : AccountingMap P)
      → Distinct P m.clients
      → Distinct P (get P a m).0.clients
  unfolding get new_client
  get-Distinct a m d = ground arith

  -- Neither `Get` nor a charge changes the settings.
  pub get_settings :
      (a : P.Address) (m : AccountingMap P)
      → let m' = (get P a m).0 in (m'.tarpit ≡ m.tarpit) × (m'.max_connections ≡ m.max_connections)
  unfolding get
  get_settings a m = ground arith

  pub account_settings :
      (now size : ℕ) (p : Option ℕ) (m : AccountingMap P)
      → (account P now size p m).max_connections ≡ m.max_connections
  unfolding account
  account_settings now size none m = refl
  account_settings now size (some a) m = refl
