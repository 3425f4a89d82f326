-- ===== src/Server/Attached.antt =====
-- Every pointer to a client's accounting is valid, and no client has too many connections.
use uologin.Prelude.{
  ℕ, ◌+◌, ◌-◌, ◌≡◌, ◌<◌, ◌≤◌, ◌⊎◌, inl, inr, ◌∙◌, ap, subst, Bool, true, false, Option, none, some,
  List, [], ◌∷◌, ◌++◌, length, arith, if◌then◌else◌, ◌==◌, ==_iff, length-append, count,
  count-append, Bool-cases,
}
use uologin.External.{Platform}
use uologin.Accounting.{AccountingMap, remove_id}
use uologin.Accounting.Clients.{Distinct}
use uologin.Accounting.Ids.{ids, Leaves, Detaches, Attaches, with_id, without_id}
use uologin.Connection.{Connection}
use uologin.Listener.{DelayedConnection}
use uologin.Listener.Joins.{Room}
use uologin.Server.{Server}

-- Whether an object with the number `n` of the client `p` is the `b` of the client `a`.
abbrev pub own : Option ℕ → ℕ → ℕ → ℕ → ℕ
own none n a b = 0
own (some x) n a b = if x == a then (if n == b then 1 else 0) else 0

count-with_id :
    (p : Option ℕ) (n a b : ℕ) (l : List ℕ) → count b (with_id p n a l) ≡ count b l + own p n a b
count-with_id none n a b l = omega arith
count-with_id (some x) n a b l = ground (arith, count-append b l (n ∷ []))

pub count-remove_id :
    (n b : ℕ) (l : List ℕ) → count b (remove_id n l) ≡ count b l - (if n == b then 1 else 0)
unfolding remove_id
count-remove_id n b [] = ground arith
count-remove_id n b (x ∷ l) = ground (arith, count-remove_id n b l)

count-without_id :
    (p : Option ℕ) (n a b : ℕ) (l : List ℕ) → count b (without_id p n a l) ≡ count b l - own p n a b
count-without_id none n a b l = omega arith
count-without_id (some x) n a b l = ground (arith, count-remove_id n b l)

pub length-remove_id : (n : ℕ) (l : List ℕ) → 0 < count n l → length (remove_id n l) + 1 ≡ length l
unfolding remove_id
length-remove_id n [] h = absurd (omega arith)
length-remove_id n (x ∷ l) h = ground (arith, length-remove_id n l)

length-remove_id_le : (n : ℕ) (l : List ℕ) → length (remove_id n l) ≤ length l
unfolding remove_id
length-remove_id_le n [] = omega arith
length-remove_id_le n (x ∷ l) = ground (arith, length-remove_id_le n l)

length-without_id : (p : Option ℕ) (n a : ℕ) (l : List ℕ) → length (without_id p n a l) ≤ length l
length-without_id none n a l = omega arith
length-without_id (some x) n a l = ground (arith, length-remove_id_le n l)

module _ (P : Platform) where
  abbrev pub of_connections : ℕ → ℕ → List (Connection P) → ℕ
  of_connections a b [] = 0
  of_connections a b (c ∷ cs) = own c.per_client c.id a b + of_connections a b cs

  abbrev pub of_delayed : ℕ → ℕ → List (DelayedConnection P) → ℕ
  of_delayed a b [] = 0
  of_delayed a b (d ∷ ds) = own d.per_client d.id a b + of_delayed a b ds

  -- With `N a b` pointers to the client `a` from objects with the number `b`, each client's list has
  -- exactly their numbers, and is no longer than the limit `l`; 0 is no limit.
  pub record Valid (l : ℕ) (m : AccountingMap P) (N : ℕ → ℕ → ℕ) : Type 0 where
    pub limit : m.max_connections ≡ l
    pub distinct : Distinct P m.clients
    pub attached : (a b : ℕ) → count b (ids P a m) ≡ N a b
    pub limited : (a : ℕ) → (m.max_connections ≡ 0) ⊎ (length (ids P a m) ≤ m.max_connections)

  module _ (k : ℕ) (m m' : AccountingMap P) (N N' : ℕ → ℕ → ℕ) (v : Valid k m N) where
    pub Valid-leave : Leaves P m m' → Valid k m' N
    Valid-leave l = record {
      limit = l.same_limit ∙ v.limit;
      distinct = l.distinct;
      attached = λ a b. ap (count b) (l.same_ids a) ∙ v.attached a b;
      limited = λ a. ground (arith, l.same_ids a, l.same_limit, v.limited a);
    }

    pub Valid-detach :
        (p : Option ℕ) (n : ℕ)
        → Detaches P p n m m'
        → ((a b : ℕ) → N' a b + own p n a b ≡ N a b)
        → Valid k m' N'
    Valid-detach p n d e = record {
      limit = d.same_limit ∙ v.limit;
      distinct = d.distinct;
      attached = λ a b. omega (
        arith,
        ap (count b) (d.same_ids a),
        count-without_id p n a b (ids P a m),
        v.attached a b,
        e a b,
      );
      limited = λ a. ground (
        arith,
        ap length (d.same_ids a),
        length-without_id p n a (ids P a m),
        d.same_limit,
        v.limited a,
      );
    }

    pub Valid-attach :
        (p : Option ℕ) (n : ℕ)
        → Attaches P p n m m'
        → Room P p m
        → ((a b : ℕ) → N' a b ≡ N a b + own p n a b)
        → Valid k m' N'
    Valid-attach p n d r e = record {
      limit = d.same_limit ∙ v.limit;
      distinct = d.distinct;
      attached = λ a b. omega (
        arith,
        ap (count b) (d.same_ids a),
        count-with_id p n a b (ids P a m),
        v.attached a b,
        e a b,
      );
      limited = λ a. below a p d r;
    }
      where
        below :
            (a : ℕ) (q : Option ℕ)
            → Attaches P q n m m'
            → Room P q m
            → (m'.max_connections ≡ 0) ⊎ (length (ids P a m') ≤ m'.max_connections)
        below a none d r = ground (arith, ap length (d.same_ids a), d.same_limit, v.limited a)
        below a (some x) d r = elim (Bool-cases (x == a)) [
          | inl e ↦
              let grown : length (ids P a m') ≡ length (ids P a m ++ n ∷ []) =
                ap length (d.same_ids a)
                ∙ ap (λ (t : Bool). length (if t then ids P a m ++ n ∷ [] else ids P a m)) e in
              let room : Room P (some a) m = subst (λ k. Room P (some k) m) ((==_iff x a).0 e) r in
              ground (arith, grown, length-append (ids P a m) (n ∷ []), d.same_limit, room)
          | inr e ↦
              let kept : length (ids P a m') ≡ length (ids P a m) =
                ap length (d.same_ids a)
                ∙ ap (λ (t : Bool). length (if t then ids P a m ++ n ∷ [] else ids P a m)) e in
              ground (arith, kept, d.same_limit, v.limited a)
        ]

  -- A connection takes the place of a delayed one of its client, which may be at its limit.
  pub Valid-replace :
      (z : ℕ) (m m' m'' : AccountingMap P) (N N' : ℕ → ℕ → ℕ) (x n k : ℕ)
      → Valid z m N
      → Attaches P (some x) n m m'
      → Detaches P (some x) k m' m''
      → 0 < N x k
      → ((a b : ℕ) → N' a b + own (some x) k a b ≡ N a b + own (some x) n a b)
      → Valid z m'' N'
  Valid-replace z m m' m'' N N' x n k v f g held e = record {
    limit = g.same_limit ∙ f.same_limit ∙ v.limit;
    distinct = g.distinct;
    attached = λ a b. omega (
      arith,
      ap (count b) (g.same_ids a),
      count-without_id (some x) k a b (ids P a m'),
      ap (count b) (f.same_ids a),
      count-with_id (some x) n a b (ids P a m),
      v.attached a b,
      e a b,
    );
    limited = λ a. below a (Bool-cases (x == a));
  }
    where
      below :
          (a : ℕ)
          → ((x == a) ≡ true) ⊎ ((x == a) ≡ false)
          → (m''.max_connections ≡ 0) ⊎ (length (ids P a m'') ≤ m''.max_connections)
      below a (inl q) =
          let l = ids P a m in
          let lost : length (ids P a m'') ≡ length (remove_id k (ids P a m')) =
            ap length (g.same_ids a)
            ∙ ap (λ (t : Bool). length (if t then remove_id k (ids P a m') else ids P a m')) q in
          let grown : ids P a m' ≡ l ++ n ∷ [] =
            f.same_ids a ∙ ap (λ (t : Bool). if t then l ++ n ∷ [] else l) q in
          let there : 0 < count k l =
            omega (arith, v.attached x k, held, ap (λ c. count k (ids P c m)) ((==_iff x a).0 q)) in
          ground (
            arith,
            lost,
            ap (λ y. length (remove_id k y)) grown,
            length-remove_id k (l ++ n ∷ []) (omega (arith, there, count-append k l (n ∷ []))),
            length-append l (n ∷ []),
            f.same_limit,
            g.same_limit,
            v.limited a,
          )
      below a (inr q) =
          let l = ids P a m in
          let kept : length (ids P a m'') ≡ length l =
            ap length (g.same_ids a)
            ∙ ap (λ (t : Bool). length (if t then remove_id k (ids P a m') else ids P a m')) q
            ∙ ap length (f.same_ids a)
            ∙ ap (λ (t : Bool). length (if t then l ++ n ∷ [] else l)) q in
          ground (arith, kept, f.same_limit, g.same_limit, v.limited a)

  abbrev pub pointers : List (Connection P) → List (DelayedConnection P) → ℕ → ℕ → ℕ
  pointers cs ds a b = of_connections a b cs + of_delayed a b ds

  abbrev pub IsAttached : ℕ → Server P → Type 0
  IsAttached l s =
      Valid l s.instance_.client_accounting (pointers s.connections s.delayed_connections)
