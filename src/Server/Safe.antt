-- ===== src/Server/Safe.antt =====
-- A server to which the event loop delivers only what its connections wait for.
use uologin.Prelude.{
  ℕ, ◌≡◌, ◌∙◌, sym, ap, subst, Bool, not, Option, List, [], ◌∷◌, ◌++◌, All, arith, refl,
}
use uologin.External.{Platform}
use uologin.Accounting.{is_empty}
use uologin.Instance.{Instance}
use uologin.Connection.{Fault, Connection, Effect, crashed, new}
use uologin.Listener.{Accepted, connected, on_accept, on_timer}
use uologin.Server.{
  Server, Handles, Step, accepted_dropped, accepted_delayed, accepted, delay_over, delayed_left,
  kept, closed, changed, Run, here, next,
}
use uologin.Server.Served.{IsDue, IsConfigured, Served, created, serves, IsAllowed, Served-crashes}
use uologin.Server.Targets.{Run-config}

module _ (P : Platform) where
  -- Each event of a run is one that its connection waits for.
  abbrev IsDueStep : {s t : Server P} → Step P s t → Type 0
  IsDueStep (kept before after c d j es h) = IsDue P c h
  IsDueStep (closed before after c j es h) = IsDue P c h
  IsDueStep _ = Unit {0}

  abbrev pub IsCalm : {s t : Server P} → Run P s t → Type 0
  IsCalm here = Unit {0}
  IsCalm (next r h) = IsCalm r × IsDueStep h

  -- Whether the configuration has a list of servers.
  abbrev pub has_list : Server P → Bool
  has_list s = not (is_empty s.instance_.config.server_list)

  abbrev HasHistory : Bool → Connection P → Type 0
  HasHistory listed c = (es : List (Effect P)) × Served P listed es c

  -- The constructor does not depend on the instance.
  abbrev IsNew : ℕ → P.Address → Instance P → Accepted P → Type 0
  IsNew id a i (connected j c) = c ≡ (new P id a c.per_client i).1
  IsNew id a i _ = Unit {0}

  on_accept-IsNew : (id : ℕ) (a : P.Address) (i : Instance P) → IsNew id a i (on_accept P id a i)
  unfolding on_accept new
  on_accept-IsNew id a i = ground arith

  module _ (listed : Bool) where
    AllServed-append :
        (xs ys : List (Connection P))
        → All (HasHistory listed) xs
        → All (HasHistory listed) ys
        → All (HasHistory listed) (xs ++ ys)
    AllServed-append [] ys p q = q
    AllServed-append (x ∷ xs) ys p q = (p.0, AllServed-append xs ys p.1 q)

    AllServed-split :
        (xs ys : List (Connection P))
        → All (HasHistory listed) (xs ++ ys)
        → All (HasHistory listed) xs × All (HasHistory listed) ys
    AllServed-split [] ys p = (tt, p)
    AllServed-split (x ∷ xs) ys p = let (q, r) = AllServed-split xs ys p.1 in ((p.0, q), r)

    new-HasHistory :
        (id : ℕ) (a : P.Address) (p : Option ℕ) (i : Instance P)
        → HasHistory listed (new P id a p i).1
    new-HasHistory id a p i = ([], created id a p i)

    Step-Served :
        {s t : Server P} (h : Step P s t)
        → IsDueStep h
        → IsConfigured P listed s.instance_
        → All (HasHistory listed) s.connections
        → All (HasHistory listed) t.connections
    unfolding on_timer
    Step-Served (accepted_dropped id a j e) d l v = v
    Step-Served (accepted_delayed id a j x e) d l v = v
    Step-Served (accepted {i} id a j c e) d l v =
        let same = subst (IsNew id a i) e (on_accept-IsNew id a i) in
        (subst (HasHistory listed) (sym same) (new-HasHistory id a c.per_client i), v)
    Step-Served (delay_over {i} before after x id) d l v =
        (new-HasHistory id x.peer_address x.per_client i, v)
    Step-Served (delayed_left before after x) d l v = v
    Step-Served (kept before after c x j es h) d l v =
        let (p, ((f, s), q)) = AllServed-split before (c ∷ after) v in
        AllServed-append before (x ∷ after) p ((f ++ es, serves s h d l), q)
    Step-Served (closed before after c j es h) d l v =
        let (p, (_, q)) = AllServed-split before (c ∷ after) v in AllServed-append before after p q
    Step-Served (changed j h) d l v = v

    pub Run-Served :
        {s t : Server P} (r : Run P s t)
        → IsCalm r
        → IsConfigured P listed s.instance_
        → All (HasHistory listed) s.connections
        → All (HasHistory listed) t.connections
    Run-Served here k l v = v
    Run-Served {s} (next {t} r h) (k, d) l v =
        Step-Served h d (l ∙ sym (ap (λ c. not (is_empty c.server_list)) (Run-config P r)))
          (Run-Served r k l v)

  -- In a server that started without a connection, and to whose connections the event loop delivers
  -- only what they wait for, no assertion of a handler of a connection ever fails, and nothing is
  -- thrown out of one, with the exceptions that `IsAllowed` lists for one connection.
  pub Run-crashes :
      {s t : Server P} (r : Run P s t) (before after : List (Connection P)) (c : Connection P)
      {f : Fault}
      → s.connections ≡ []
      → IsCalm r
      → t.connections ≡ before ++ c ∷ after
      → (h : Handles P t.instance_ c (crashed f)) → IsDue P c h
      → IsAllowed P (has_list s) c h f
  Run-crashes {s} r before after c none_yet k e h d =
      let listed = has_list s in
      let configured : IsConfigured P listed s.instance_ = refl in
      let all =
        Run-Served listed r k configured (subst (All (HasHistory listed)) (sym none_yet) tt) in
      let (_, ((es, served), _)) =
        AllServed-split listed before (c ∷ after) (subst (All (HasHistory listed)) e all) in
      Served-crashes P c served h d
        (configured ∙ sym (ap (λ x. not (is_empty x.server_list)) (Run-config P r)))
