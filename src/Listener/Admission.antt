-- ===== src/Listener/Admission.antt =====
-- Who is let in: the knock, the limit of connections and the tarpit.
use uologin.Prelude.{
  ℕ, List, ◌++◌, false, ◌≡◌, ◌≢◌, ◌⊎◌, ◌<◌, ◌≤◌, refl, true, false, none, some, arith, length, ◌∙◌,
  ap, subst,
}
use uologin.External.{Platform, inet6}
use uologin.Accounting.{
  PerClient, AccountingMap, find, get, to_integer, update_token_bucket, account,
}
use uologin.Accounting.Clients.{
  find-account, find-account_other, find-add_connection, joined, check_cases,
}
use uologin.Accounting.Keys.{get_settings, account_settings, or_new, get_lem, get_null}
use uologin.Accounting.Halves.{to_integer-halves}
use uologin.Instance.{Instance, inc}
use uologin.Connection.{new}
use uologin.Listener.{
  Accepted, dropped, delayed, connected, on_accept, admit, admit_client, new_delayed, add_client,
}

module _ (P : Platform) where
  -- The client's accounting after the attempt to connect was charged to it.
  pub charged : P.Address → Instance P → PerClient P
  charged a i =
      update_token_bucket P i.client_accounting.tarpit i.now 1
        (or_new P (to_integer P a) (find P (to_integer P a) i.client_accounting.clients))

  -- The accounting after `OnAccept` has charged the client `x`: its client is `c`, and another client
  -- `b` is as before.
  abbrev pub Accounts : ℕ → ℕ → PerClient P → Instance P → Instance P → Type 0
  Accounts x b c i j =
      (find P x j.client_accounting.clients ≡ some c)
      × (find P b j.client_accounting.clients ≡ find P b i.client_accounting.clients)

  -- What `OnAccept` promises for a charged client `c` of the address number `x`, another address
  -- number `b`, and a limit of `n` connections.
  abbrev pub Admitted : ℕ → PerClient P → ℕ → ℕ → Instance P → Accepted P → Type 0
  Admitted n c x b i (dropped j) =
      Accounts x b c i j
      × (((i.require_knock ≡ true)
            × (c.knocked ≡ false)
            × (j.metrics.missing_knocks ≡ inc i.metrics.missing_knocks))
          ⊎ ((n ≢ 0) × (n ≤ length c.connections)))
  Admitted n c x b i (delayed j d) =
      Accounts x b (joined P d.id c) i j
      × ((i.require_knock ≡ false) ⊎ (c.knocked ≡ true))
      × ((n ≡ 0) ⊎ (length c.connections < n))
      × (0 < c.delay)
      × (d.per_client ≡ some x)
      × (j.metrics.delayed_connections ≡ inc i.metrics.delayed_connections)
  Admitted n c x b i (connected j d) =
      Accounts x b (joined P d.id c) i j
      × ((i.require_knock ≡ false) ⊎ (c.knocked ≡ true))
      × ((n ≡ 0) ⊎ (length c.connections < n))
      × (c.delay ≡ 0)
      × (d.per_client ≡ some x)

  -- `m` is the accounting after the charge.
  admit-Admitted :
      (id : ℕ) (a : P.Address) (x b : ℕ) (i : Instance P) (m : AccountingMap P) (c : PerClient P)
      → b ≢ x
      → find P x m.clients ≡ some c
      → find P b m.clients ≡ find P b i.client_accounting.clients
      → Admitted m.max_connections c x b i (admit P id a x (record i { client_accounting = m }) c)
  unfolding admit new_delayed add_client new
  admit-Admitted id a x b i m c n h o =
      let l = find-add_connection P id x b m c n h in
      let u = check_cases P m.max_connections c in ground (arith, u, l, h, o)

  charged_found :
      (a : P.Address) (i : Instance P)
      → to_integer P a ≢ 0
      → find P
          (to_integer P a)
          (account P i.now 1 (some (to_integer P a)) (get P a i.client_accounting).0).clients
        ≡ some (charged a i)
  unfolding charged
  charged_found a i h =
      find-account P i.now 1 (to_integer P a) (get P a i.client_accounting).0
        (or_new P (to_integer P a) (find P (to_integer P a) i.client_accounting.clients))
        (get_lem P a i.client_accounting h).1
      ∙ ap
          (λ t. some (
            update_token_bucket P t i.now 1
              (or_new P (to_integer P a) (find P (to_integer P a) i.client_accounting.clients))))
          (get_settings P a i.client_accounting).0

  -- A client with accounting is charged one token. It is dropped only when its knock is missing,
  -- which is counted, or when the limit of connections is reached; otherwise it has knocked if that
  -- is required, is below the limit, and is connected at once or, with a delay, delayed and
  -- counted. The accounting that is stored for it is the charged one, with the new object in its list
  -- unless it is dropped, and the accounting of every other client stays the same.
  pub on_accept-Admitted :
      (id : ℕ) (a : P.Address) (b : ℕ) (i : Instance P)
      → to_integer P a ≢ 0
      → b ≢ to_integer P a
      → Admitted i.client_accounting.max_connections
          (charged a i)
          (to_integer P a)
          b
          i
          (on_accept P id a i)
  unfolding on_accept admit_client
  on_accept-Admitted id a b i h n =
      let x = to_integer P a in
      let m = (get P a i.client_accounting).0 in
      let k = account P i.now 1 (some x) m in
      let (named, _, others, _) = get_lem P a i.client_accounting h in
      let limit : k.max_connections ≡ i.client_accounting.max_connections =
        account_settings P i.now 1 (some x) m ∙ (get_settings P a i.client_accounting).1 in
      rw (named, charged_found a i h)
        (subst
          (λ l.
            Admitted l (charged a i) x b i
              (admit P id a x (record i { client_accounting = k }) (charged a i)))
          limit
          (admit-Admitted id a x b i k (charged a i) n (charged_found a i h)
            (find-account_other P i.now 1 x b m n ∙ others b n)))

  -- A client without accounting is connected at once, whether it has knocked or not.
  pub no_accounting_admitted :
      (id : ℕ) (a : P.Address) (i : Instance P)
      → to_integer P a ≡ 0
      → let (j, c) = new P id a none i in
        (on_accept P id a i ≡ connected j c) × (c.per_client ≡ none)
  unfolding on_accept admit_client add_client new
  no_accounting_admitted id a i h = rw (get_null P a i.client_accounting h) (refl, refl)

  -- A peer with an IPv6 address whose two halves are equal is connected at once and without
  -- accounting, whether a knock is required or not.
  pub equal_halves_admitted :
      (id : ℕ) (a : P.Address) (i : Instance P) (half : List ℕ)
      → P.is_null a ≡ false
      → P.family a ≡ inet6
      → P.is_v4_mapped a ≡ false
      → P.v6_bytes a ≡ half ++ half
      → length half ≡ 8
      → let (j, c) = new P id a none i in
        (on_accept P id a i ≡ connected j c) × (c.per_client ≡ none)
  equal_halves_admitted id a i half n f m h l =
      no_accounting_admitted id a i (to_integer-halves P a half n f m h l)
