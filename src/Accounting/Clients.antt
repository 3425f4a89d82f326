-- ===== src/Accounting/Clients.antt =====
-- Looking a client up after a method call on one of them.
use uologin.Prelude.{
  ℕ, ◌≡◌, ◌≢◌, ◌<◌, ◌≤◌, ◌⊎◌, ◌==◌, length, refl, Bool, true, false, none, some, List, [], ◌∷◌,
  ◌++◌, arith, if◌then◌else◌, Bool-cases, inl, inr,
}
use uologin.External.{Platform}
use uologin.Accounting.{
  PerClient, AccountingMap, find, modify, update_token_bucket, account, check, set_knocked,
  add_connection,
}
use mathlib.Core.Option

module _ (P : Platform) where
  abbrev pub KeepsAddress : (PerClient P → PerClient P) → Type 0
  KeepsAddress f = (c : PerClient P) → (f c).address ≡ c.address

  pub find-modify :
      (a b : ℕ) (f : PerClient P → PerClient P) (cs : List (PerClient P))
      → KeepsAddress f
      → find P b (modify P a f cs) ≡ (if a == b then Option.map f (find P b cs) else find P b cs)
  unfolding find modify
  find-modify a b f [] k = ground arith
  find-modify a b f (c ∷ cs) k = ground (arith, k c, find-modify a b f cs k)

  pub update_token_bucket-address :
      (tarpit : Bool) (now size : ℕ) → KeepsAddress (update_token_bucket P tarpit now size)
  unfolding update_token_bucket
  update_token_bucket-address false now size c = refl
  update_token_bucket-address true now size c = ground arith

  -- No two clients have one address, and none has the address 0.
  abbrev pub Distinct : List (PerClient P) → Type 0
  Distinct [] = Unit {0}
  Distinct (c ∷ cs) = (c.address ≢ 0) × (find P c.address cs ≡ none) × Distinct cs

  pub find-modify-none :
      (a b : ℕ) (f : PerClient P → PerClient P) (cs : List (PerClient P))
      → KeepsAddress f
      → find P b cs ≡ none
      → find P b (modify P a f cs) ≡ none
  find-modify-none a b f cs k h = rw (find-modify a b f cs k, h) (ground arith)

  pub modify-Distinct :
      (a : ℕ) (f : PerClient P → PerClient P) (cs : List (PerClient P))
      → KeepsAddress f
      → Distinct cs
      → Distinct (modify P a f cs)
  unfolding modify
  modify-Distinct a f [] k d = tt
  modify-Distinct a f (c ∷ cs) k (nonzero, new, rest) = elim (Bool-cases (c.address == a)) [
    | inl e ↦ rw (e, k c) (nonzero, new, rest)
    | inr e ↦ rw e (nonzero, find-modify-none a c.address f cs k new, modify-Distinct a f cs k rest)
  ]

  pub find-address :
      (a : ℕ) (cs : List (PerClient P)) (c : PerClient P) → find P a cs ≡ some c → c.address ≡ a
  unfolding find
  find-address a [] c h = cc
  find-address a (x ∷ cs) c h = ground (arith, find-address a cs c)

  -- Charging a client changes that client, and no other.
  pub find-account :
      (now size a : ℕ) (m : AccountingMap P) (c : PerClient P)
      → find P a m.clients ≡ some c
      → find P a (account P now size (some a) m).clients
        ≡ some (update_token_bucket P m.tarpit now size c)
  unfolding account
  find-account now size a m c h =
      rw
        (
          find-modify a a (update_token_bucket P m.tarpit now size) m.clients
              (update_token_bucket-address m.tarpit now size),
          h,
        )
        (ground arith)

  pub check_cases :
      (n : ℕ) (c : PerClient P)
      → ((check P n c ≡ true) × ((n ≡ 0) ⊎ (length c.connections < n)))
        ⊎ ((check P n c ≡ false) × (n ≢ 0) × (n ≤ length c.connections))
  unfolding check
  check_cases n c = ground arith

  knock : PerClient P → PerClient P
  knock c = record c { knocked = true }

  pub find-set_knocked :
      (a : ℕ) (m : AccountingMap P) (c : PerClient P)
      → find P a m.clients ≡ some c
      → find P a (set_knocked P a m).clients ≡ some (record c { knocked = true })
  unfolding set_knocked knock
  find-set_knocked a m c h = rw (find-modify a a knock m.clients (λ c. refl), h) (ground arith)

  pub find-set_knocked_other :
      (a b : ℕ) (m : AccountingMap P)
      → b ≢ a
      → find P b (set_knocked P a m).clients ≡ find P b m.clients
  unfolding set_knocked knock
  find-set_knocked_other a b m h =
      rw (find-modify a b knock m.clients (λ c. refl)) (ground (arith, h))

  pub set_knocked-Distinct :
      (a : ℕ) (m : AccountingMap P) → Distinct m.clients → Distinct (set_knocked P a m).clients
  unfolding set_knocked knock
  set_knocked-Distinct a m d = modify-Distinct a knock m.clients (λ c. refl) d

  pub find-account_other :
      (now size a b : ℕ) (m : AccountingMap P)
      → b ≢ a
      → find P b (account P now size (some a) m).clients ≡ find P b m.clients
  unfolding account
  find-account_other now size a b m h =
      rw
        (find-modify a b (update_token_bucket P m.tarpit now size) m.clients
          (update_token_bucket-address m.tarpit now size))
        (ground (arith, h))

  -- The client with one more connection.
  abbrev pub joined : ℕ → PerClient P → PerClient P
  joined id c = record c { connections = c.connections ++ id ∷ [] }

  -- A new connection of the client `x` changes that client, and no other.
  pub find-add_connection :
      (id x b : ℕ) (m : AccountingMap P) (c : PerClient P)
      → b ≢ x
      → find P x m.clients ≡ some c
      → (find P x (add_connection P x id m).clients ≡ some (joined id c))
        × (find P b (add_connection P x id m).clients ≡ find P b m.clients)
  unfolding add_connection
  find-add_connection id x b m c n h = (
    rw (find-modify x x (joined id) m.clients (λ c. refl), h) (ground arith),
    rw (find-modify x b (joined id) m.clients (λ c. refl)) (ground (arith, n)),
  )
