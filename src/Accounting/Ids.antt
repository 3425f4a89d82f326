-- ===== src/Accounting/Ids.antt =====
-- The accounting as its clients see it: for every address, the numbers of its connections.
use uologin.Prelude.{
  ℕ, ◌≡◌, ◌∙◌, ap, sym, refl, Bool, true, false, Option, none, some, List, [], ◌∷◌, ◌++◌, arith,
  if◌then◌else◌, ◌==◌, ==_iff, ◌⊎◌, Bool-cases, inl, inr,
}
use uologin.External.{Platform}
use uologin.Accounting.{
  PerClient, AccountingMap, find, modify, get, new_client, account, set_knocked, add_connection,
  detach, detach_connection, remove_id, on_cleanup_timer, update_token_bucket,
}
use uologin.Accounting.Clients.{
  Distinct, find-modify, modify-Distinct, update_token_bucket-address, KeepsAddress,
  set_knocked-Distinct,
}
use uologin.Accounting.Cleanup.{
  find-on_cleanup_timer, on_cleanup_timer-Distinct, find-remove_connection,
  remove_connection-Distinct, only_if, survives, survives-false, remove_connection_limit,
}
use uologin.Accounting.Keys.{get-Distinct, get_settings}
use mathlib.Core.Option

-- What a connection with the number `i` of a client, or of none, adds and removes.
abbrev pub with_id : Option ℕ → ℕ → ℕ → List ℕ → List ℕ
with_id none i b l = l
with_id (some a) i b l = if a == b then l ++ i ∷ [] else l

abbrev pub without_id : Option ℕ → ℕ → ℕ → List ℕ → List ℕ
without_id none i b l = l
without_id (some a) i b l = if a == b then remove_id i l else l

module _ (P : Platform) where
  abbrev pub ids_of : Option (PerClient P) → List ℕ
  ids_of none = []
  ids_of (some c) = c.connections

  -- The connections of the client at an address; none where there is no client.
  abbrev pub ids : ℕ → AccountingMap P → List ℕ
  ids a m = ids_of (find P a m.clients)

  -- Between two maps no client has got or lost a connection.
  pub record Leaves (m m' : AccountingMap P) : Type 0 where
    pub same_ids : (a : ℕ) → ids a m' ≡ ids a m
    pub same_limit : m'.max_connections ≡ m.max_connections
    pub distinct : Distinct P m'.clients

  ids-modify :
      (a b : ℕ) (f : PerClient P → PerClient P) (cs : List (PerClient P))
      → KeepsAddress P f
      → ((c : PerClient P) → (f c).connections ≡ c.connections)
      → ids_of (find P b (modify P a f cs)) ≡ ids_of (find P b cs)
  ids-modify a b f cs k same = ap ids_of (find-modify P a b f cs k) ∙ mapped (a == b) (find P b cs)
    where
      mapped :
          (t : Bool) (o : Option (PerClient P))
          → ids_of (if t then Option.map f o else o) ≡ ids_of o
      mapped true none = refl
      mapped true (some c) = same c
      mapped false o = refl

  update_token_bucket-connections :
      (tarpit : Bool) (now size : ℕ) (c : PerClient P)
      → (update_token_bucket P tarpit now size c).connections ≡ c.connections
  unfolding update_token_bucket
  update_token_bucket-connections tarpit now size c = ground arith

  pub Leaves-refl : (m : AccountingMap P) → Distinct P m.clients → Leaves m m
  Leaves-refl m d = record { same_ids = λ a. refl; same_limit = refl; distinct = d }

  pub Leaves-trans : (m n k : AccountingMap P) → Leaves m n → Leaves n k → Leaves m k
  Leaves-trans m n k f g = record {
    same_ids = λ a. g.same_ids a ∙ f.same_ids a;
    same_limit = g.same_limit ∙ f.same_limit;
    distinct = g.distinct;
  }

  pub account-Leaves :
      (now size : ℕ) (p : Option ℕ) (m : AccountingMap P)
      → Distinct P m.clients
      → Leaves m (account P now size p m)
  unfolding account
  account-Leaves now size none m d = Leaves-refl m d
  account-Leaves now size (some a) m d =
      let f = update_token_bucket P m.tarpit now size in
      record {
        same_ids = λ b.
            ids-modify a b f m.clients (update_token_bucket-address P m.tarpit now size)
              (update_token_bucket-connections m.tarpit now size);
        same_limit = refl;
        distinct =
            modify-Distinct P a f m.clients (update_token_bucket-address P m.tarpit now size) d;
      }

  pub set_knocked-Leaves :
      (a : ℕ) (m : AccountingMap P) → Distinct P m.clients → Leaves m (set_knocked P a m)
  unfolding set_knocked
  set_knocked-Leaves a m d = record {
    same_ids = λ b. ids-modify a b _ m.clients (λ c. refl) (λ c. refl);
    same_limit = refl;
    distinct = set_knocked-Distinct P a m d;
  }

  pub get-Leaves :
      (a : P.Address) (m : AccountingMap P) → Distinct P m.clients → Leaves m (get P a m).0
  unfolding get find new_client
  get-Leaves a m d = record {
    same_ids = λ b. ground arith;
    same_limit = (get_settings P a m).1;
    distinct = get-Distinct P a m d;
  }

  pub on_cleanup_timer-Leaves :
      (now : ℕ) (m : AccountingMap P) → Distinct P m.clients → Leaves m (on_cleanup_timer P now m)
  unfolding on_cleanup_timer
  on_cleanup_timer-Leaves now m d = record {
    same_ids = λ b. ap ids_of (find-on_cleanup_timer P now b m d) ∙ kept (find P b m.clients);
    same_limit = ground arith;
    distinct = on_cleanup_timer-Distinct P now m d;
  }
    where
      kept : (o : Option (PerClient P)) → ids_of (only_if P (survives P now) o) ≡ ids_of o
      kept none = refl
      kept (some c) = elim (Bool-cases (survives P now c)) [
        | inl e ↦ rw e
        | inr e ↦ rw e (sym (survives-false P now c e))
      ]

  pub record Detaches (p : Option ℕ) (i : ℕ) (m m' : AccountingMap P) : Type 0 where
    pub same_ids : (b : ℕ) → ids b m' ≡ without_id p i b (ids b m)
    pub same_limit : m'.max_connections ≡ m.max_connections
    pub distinct : Distinct P m'.clients

  pub record Attaches (p : Option ℕ) (i : ℕ) (m m' : AccountingMap P) : Type 0 where
    pub same_ids : (b : ℕ) → ids b m' ≡ with_id p i b (ids b m)
    pub same_limit : m'.max_connections ≡ m.max_connections
    pub distinct : Distinct P m'.clients

  pub detach_connection-Detaches :
      (now : ℕ) (p : Option ℕ) (i : ℕ) (m : AccountingMap P)
      → Distinct P m.clients
      → Detaches p i m (detach_connection P now p i m)
  unfolding detach_connection remove_id
  detach_connection-Detaches now none i m d = record {
    same_ids = λ b. refl;
    same_limit = refl;
    distinct = d;
  }
  detach_connection-Detaches now (some a) i m d = record {
    same_ids =
        λ b. ap ids_of (find-remove_connection P now a b i m) ∙ found (a == b) (find P b m.clients);
    same_limit = remove_connection_limit P now a i m;
    distinct = remove_connection-Distinct P now a i m d;
  }
    where
      found :
          (t : Bool) (o : Option (PerClient P))
          → ids_of (if t then Option.map (detach P now i) o else o)
            ≡ (if t then remove_id i (ids_of o) else ids_of o)
      found true none = refl
      found true (some c) = refl
      found false o = refl

  pub add_connection-Attaches :
      (a i : ℕ) (m : AccountingMap P) (c : PerClient P)
      → Distinct P m.clients
      → find P a m.clients ≡ some c
      → Attaches (some a) i m (add_connection P a i m)
  unfolding add_connection
  add_connection-Attaches a i m c d f = record {
    same_ids =
        λ b. ap ids_of (find-modify P a b _ m.clients (λ c. refl)) ∙ added b (Bool-cases (a == b));
    same_limit = refl;
    distinct = modify-Distinct P a _ m.clients (λ c. refl) d;
  }
    where
      added :
          (b : ℕ)
          → ((a == b) ≡ true) ⊎ ((a == b) ≡ false)
          → ids_of (
              if a == b
              then Option.map
                  (λ (c : PerClient P). record c { connections = c.connections ++ i ∷ [] })
                  (find P b m.clients)
              else find P b m.clients)
            ≡ with_id (some a) i b (ids b m)
      added b (inl e) =
          let same = (==_iff a b).0 e in
          let g : find P b m.clients ≡ some c = ap (λ k. find P k m.clients) (sym same) ∙ f in
          rw (e, g) refl
      added b (inr e) = rw e refl

  pub Detaches-after :
      (p : Option ℕ) (n : ℕ) (m k l : AccountingMap P)
      → Leaves m k
      → Detaches p n k l
      → Detaches p n m l
  Detaches-after p n m k l f g = record {
    same_ids = λ b. g.same_ids b ∙ ap (without_id p n b) (f.same_ids b);
    same_limit = g.same_limit ∙ f.same_limit;
    distinct = g.distinct;
  }

  pub Attaches-after :
      (p : Option ℕ) (n : ℕ) (m k l : AccountingMap P)
      → Leaves m k
      → Attaches p n k l
      → Attaches p n m l
  Attaches-after p n m k l f g = record {
    same_ids = λ b. g.same_ids b ∙ ap (with_id p n b) (f.same_ids b);
    same_limit = g.same_limit ∙ f.same_limit;
    distinct = g.distinct;
  }
