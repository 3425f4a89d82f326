-- ===== src/Server/Gauges.antt =====
-- The gauges of src/Instance.hxx count the connections of the server.
use uologin.Prelude.{
  ℕ, ◌+◌, ◌≡◌, ◌∙◌, ap, sym, subst, Bool, true, false, List, [], ◌∷◌, ◌++◌, length, All, arith, u64,
  length-append,
}
use uologin.External.{Platform}
use uologin.Instance.{Instance}
use uologin.Connection.{Connection, Effect, alive, destroyed}
use uologin.Connection.Counts.{Counts, IsUnopened, moved}
use uologin.Listener.{DelayedConnection}
use uologin.Server.{
  Server, Step, accepted_dropped, accepted_delayed, accepted, delay_over, delayed_left, kept,
  closed, changed, Run, here, next,
}
use uologin.Server.Handlers.{
  Same, Adds, Admits, Handles-Counts, on_accept-Admits, on_timer-Adds, on_socket_ready-Same,
  Changes-Same,
}

abbrev one_if : Bool → ℕ
one_if true = 1
one_if false = 0

module _ (P : Platform) where
  open P use {is_defined}

  abbrev pub servers_of : List (Connection P) → ℕ
  servers_of [] = 0
  servers_of (c ∷ cs) = one_if (is_defined c.outgoing) + servers_of cs

  -- The gauges are the number of connections and of those with a socket to a server.
  pub record IsCounted (s : Server P) : Type 0 where
    pub clients : s.instance_.metrics.client_connections ≡ u64 (length s.connections)
    pub servers : s.instance_.metrics.server_connections ≡ u64 (servers_of s.connections)
    pub unopened : All (IsUnopened P) s.connections

  servers_of-append :
      (xs ys : List (Connection P)) → servers_of (xs ++ ys) ≡ servers_of xs + servers_of ys
  servers_of-append [] ys = omega arith
  servers_of-append (x ∷ xs) ys = omega (arith, servers_of-append xs ys)

  abbrev AllUnopened : List (Connection P) → Type 0
  AllUnopened = All (IsUnopened P)

  AllUnopened-append :
      (xs ys : List (Connection P)) → AllUnopened xs → AllUnopened ys → AllUnopened (xs ++ ys)
  AllUnopened-append [] ys p q = q
  AllUnopened-append (x ∷ xs) ys p q = (p.0, AllUnopened-append xs ys p.1 q)

  AllUnopened-split :
      (xs ys : List (Connection P)) → AllUnopened (xs ++ ys) → AllUnopened xs × AllUnopened ys
  AllUnopened-split [] ys p = (tt, p)
  AllUnopened-split (x ∷ xs) ys p = let (q, r) = AllUnopened-split xs ys p.1 in ((p.0, q), r)

  moved-count :
      (b b' : Bool) (m n k : ℕ)
      → n ≡ u64 (m + one_if b + k)
      → moved P b b' n ≡ u64 (m + one_if b' + k)
  moved-count true true m n k h = h
  moved-count false false m n k h = h
  moved-count true false m n k h = omega arith
  moved-count false true m n k h = omega arith

  pub IsCounted-change :
      {i j : Instance P} {cs : List (Connection P)} {ds es : List (DelayedConnection P)}
      → Same P i j
      → IsCounted (record { instance_ = i; connections = cs; delayed_connections = ds })
      → IsCounted (record { instance_ = j; connections = cs; delayed_connections = es })
  IsCounted-change same v = record {
    clients = same.clients ∙ v.clients;
    servers = same.servers ∙ v.servers;
    unopened = v.unopened;
  }

  IsCounted-add :
      {i j : Instance P} {c : Connection P} {cs : List (Connection P)}
      {ds es : List (DelayedConnection P)}
      → Adds P i j c
      → IsCounted (record { instance_ = i; connections = cs; delayed_connections = ds })
      → IsCounted (record { instance_ = j; connections = c ∷ cs; delayed_connections = es })
  IsCounted-add {i} {j} {c} {cs} adds v = record {
    clients = omega (arith, adds.clients, v.clients);
    servers = rw adds.unopened (omega (arith, adds.servers, v.servers));
    unopened = ((λ _. adds.unopened), v.unopened);
  }

  -- The counters around one connection of the list.
  clients_around :
      (before after : List (Connection P)) (c : Connection P)
      → length (before ++ c ∷ after) ≡ length (before ++ after) + 1
  clients_around before after c =
      omega (arith, length-append before (c ∷ after), length-append before after)

  servers_around :
      (before after : List (Connection P)) (c : Connection P)
      → servers_of (before ++ c ∷ after)
        ≡ servers_of before + one_if (is_defined c.outgoing) + servers_of after
  servers_around before after c = omega (arith, servers_of-append before (c ∷ after))

  module _ (i j : Instance P) (before after : List (Connection P)) (c : Connection P)
      (ds : List (DelayedConnection P))
      (v : IsCounted (record {
        instance_ = i;
        connections = before ++ c ∷ after;
        delayed_connections = ds;
      })) where
    unopened_parts : AllUnopened before × AllUnopened (c ∷ after)
    unopened_parts = AllUnopened-split before (c ∷ after) v.unopened

    servers_moved :
        (b : Bool)
        → moved P (is_defined c.outgoing) b i.metrics.server_connections
          ≡ u64 (servers_of before + one_if b + servers_of after)
    servers_moved b =
        moved-count (is_defined c.outgoing) b (servers_of before) _ (servers_of after)
          (v.servers ∙ ap u64 (servers_around before after c))

    kept-IsCounted :
        (d : Connection P) (es : List (Effect P))
        → Counts P i c (alive j d es)
        → IsCounted
            (record { instance_ = j; connections = before ++ d ∷ after; delayed_connections = ds })
    kept-IsCounted d es (clients, servers, opened) = record {
      clients =
          clients
          ∙ v.clients
          ∙ ap u64 (clients_around before after c ∙ sym (clients_around before after d));
      servers =
          servers
          ∙ servers_moved (is_defined d.outgoing)
          ∙ ap u64 (sym (servers_around before after d));
      unopened =
          AllUnopened-append before (d ∷ after) unopened_parts.0
            (opened unopened_parts.1.0, unopened_parts.1.1);
    }

    pub closed-IsCounted :
        (es : List (Effect P))
        → Counts P i c (destroyed j es)
        → IsCounted
            (record { instance_ = j; connections = before ++ after; delayed_connections = ds })
    closed-IsCounted es (clients, servers) = record {
      clients = omega (arith, clients, v.clients, clients_around before after c);
      servers = servers ∙ servers_moved false ∙ omega (arith, servers_of-append before after);
      unopened = AllUnopened-append before after unopened_parts.0 unopened_parts.1.1;
    }

  pub Step-IsCounted : {s t : Server P} → Step P s t → IsCounted s → IsCounted t
  Step-IsCounted (accepted_dropped {i} id a j e) v =
      IsCounted-change (subst (Admits P i) e (on_accept-Admits P id a i)) v
  Step-IsCounted (accepted_delayed {i} id a j d e) v =
      IsCounted-change (subst (Admits P i) e (on_accept-Admits P id a i)) v
  Step-IsCounted (accepted {i} id a j c e) v =
      IsCounted-add (subst (Admits P i) e (on_accept-Admits P id a i)) v
  Step-IsCounted (delay_over {i} before after d id) v = IsCounted-add (on_timer-Adds P id d i) v
  Step-IsCounted (delayed_left {i} before after d) v =
      IsCounted-change (on_socket_ready-Same P d i) v
  Step-IsCounted (kept {i} {ds} before after c d j es h) v =
      kept-IsCounted i j before after c ds v d es
        (Handles-Counts P (unopened_parts i j before after c ds v).1.0 h)
  Step-IsCounted (closed {i} {ds} before after c j es h) v =
      closed-IsCounted i j before after c ds v es
        (Handles-Counts P (unopened_parts i j before after c ds v).1.0 h)
  Step-IsCounted (changed j h) v = IsCounted-change (Changes-Same P h) v

  -- Whatever happens to a server that runs on, in any order: if its two gauges are the number of
  -- its connections and the number of those that have a socket to a game server (as 64-bit
  -- integers) at the start, and no connection whose connect is still to come has such a socket,
  -- this is so ever after.
  pub Run-IsCounted : {s t : Server P} → IsCounted s → Run P s t → IsCounted t
  Run-IsCounted v here = v
  Run-IsCounted v (next r h) = Step-IsCounted h (Run-IsCounted v r)
