-- ===== src/Connection/Gate.antt =====
-- What the login protocol lets through to a game server.
use uologin.Prelude.{
  ℕ, ◌≡◌, ◌∙◌, refl, ap, sym, some, List, [], ◌∷◌, ◌++◌, append_assoc, append-nil,
}
use uologin.External.{Platform}
use uologin.Connection.{
  State, initial, check_credentials, server_list, connecting, send_play_server, ready, Effect,
  to_client, to_server, shutdown_client, shutdown_server, give_back, start_job, cancel_job,
  start_connect,
}
use uologin.Connection.Protocol.{
  IsAnonymous, Protocol, Trace, start, then_, waits, idles, asks, dials, offers, chooses,
  hands_over, hands_over_first, plays, forwards, from_client, from_server,
}

module _ (P : Platform) where
  -- All bytes that go to a game server.
  abbrev pub to_servers : List (Effect P) → List ℕ
  to_servers [] = []
  to_servers (to_server b ∷ es) = b ++ to_servers es
  to_servers (_ ∷ es) = to_servers es

  -- The addresses of the servers that are dialled.
  abbrev pub dialled : List (Effect P) → List P.Address
  dialled [] = []
  dialled (start_connect a ∷ es) = a ∷ dialled es
  dialled (_ ∷ es) = dialled es

  -- Until the login is over nothing is dialled, then one server is; it gets nothing before the
  -- connection is there.
  abbrev pub Gated : State → List (Effect P) → Type 0
  Gated connecting es = (to_servers es ≡ []) × (a : P.Address) × (dialled es ≡ a ∷ [])
  Gated send_play_server es = (a : P.Address) × (dialled es ≡ a ∷ [])
  Gated ready es = (a : P.Address) × (dialled es ≡ a ∷ [])
  Gated _ es = (to_servers es ≡ []) × (dialled es ≡ [])

  pub to_servers-append :
      (es fs : List (Effect P)) → to_servers (es ++ fs) ≡ to_servers es ++ to_servers fs
  to_servers-append [] fs = refl
  to_servers-append (to_server b ∷ es) fs =
      ap (λ x. b ++ x) (to_servers-append es fs)
      ∙ sym (append_assoc b (to_servers es) (to_servers fs))
  to_servers-append (to_client b ∷ es) fs = to_servers-append es fs
  to_servers-append (shutdown_client ∷ es) fs = to_servers-append es fs
  to_servers-append (shutdown_server ∷ es) fs = to_servers-append es fs
  to_servers-append (give_back b ∷ es) fs = to_servers-append es fs
  to_servers-append (start_job b ∷ es) fs = to_servers-append es fs
  to_servers-append (cancel_job b ∷ es) fs = to_servers-append es fs
  to_servers-append (start_connect b ∷ es) fs = to_servers-append es fs

  pub dialled-append : (es fs : List (Effect P)) → dialled (es ++ fs) ≡ dialled es ++ dialled fs
  dialled-append [] fs = refl
  dialled-append (to_server b ∷ es) fs = dialled-append es fs
  dialled-append (to_client b ∷ es) fs = dialled-append es fs
  dialled-append (shutdown_client ∷ es) fs = dialled-append es fs
  dialled-append (shutdown_server ∷ es) fs = dialled-append es fs
  dialled-append (give_back b ∷ es) fs = dialled-append es fs
  dialled-append (start_job b ∷ es) fs = dialled-append es fs
  dialled-append (cancel_job b ∷ es) fs = dialled-append es fs
  dialled-append (start_connect b ∷ es) fs = ap (λ x. b ∷ x) (dialled-append es fs)

  -- Between two lists of effects of which the second dials nothing.
  still : (es fs : List (Effect P)) → dialled fs ≡ [] → dialled (es ++ fs) ≡ dialled es
  still es fs d = dialled-append es fs ∙ ap (λ x. dialled es ++ x) d ∙ append-nil (dialled es)

  quiet : (es fs : List (Effect P)) → to_servers fs ≡ [] → to_servers (es ++ fs) ≡ to_servers es
  quiet es fs d =
      to_servers-append es fs ∙ ap (λ x. to_servers es ++ x) d ∙ append-nil (to_servers es)

  unchanged :
      (s : State) (es fs : List (Effect P))
      → dialled fs ≡ []
      → to_servers fs ≡ []
      → Gated s es
      → Gated s (es ++ fs)
  unchanged initial es fs d t (p, q) = (quiet es fs t ∙ p, still es fs d ∙ q)
  unchanged check_credentials es fs d t (p, q) = (quiet es fs t ∙ p, still es fs d ∙ q)
  unchanged server_list es fs d t (p, q) = (quiet es fs t ∙ p, still es fs d ∙ q)
  unchanged connecting es fs d t (p, a, q) = (quiet es fs t ∙ p, a, still es fs d ∙ q)
  unchanged send_play_server es fs d t (a, q) = (a, still es fs d ∙ q)
  unchanged ready es fs d t (a, q) = (a, still es fs d ∙ q)

  -- A dialled server.
  dial :
      (es : List (Effect P)) (a : P.Address)
      → to_servers es ≡ []
      → dialled es ≡ []
      → Gated connecting (es ++ start_connect a ∷ [])
  dial es a p q = (
    quiet es (start_connect a ∷ []) refl ∙ p,
    a,
    dialled-append es (start_connect a ∷ []) ∙ ap (λ x. x ++ a ∷ []) q,
  )

  nothing_yet :
      (s : State) (es : List (Effect P))
      → IsAnonymous s
      → Gated s es
      → (to_servers es ≡ []) × (dialled es ≡ [])
  nothing_yet initial es h g = g
  nothing_yet check_credentials es h g = g
  nothing_yet server_list es h g = elim h [ ]
  nothing_yet connecting es h g = elim h [ ]
  nothing_yet send_play_server es h g = elim h [ ]
  nothing_yet ready es h g = elim h [ ]

  Protocol-Gated :
      {s t : State} {fs : List (Effect P)} (es : List (Effect P))
      → Protocol P s fs (some t)
      → Gated s es
      → Gated t (es ++ fs)
  Protocol-Gated {s} es waits g = unchanged s es [] refl refl g
  Protocol-Gated {s} es idles g =
      unchanged s es (to_client [] ∷ to_server [] ∷ give_back [] ∷ []) refl refl g
  Protocol-Gated es (asks j) g = unchanged initial es (start_job j ∷ []) refl refl g
  Protocol-Gated {s} es (dials a h) g = let (p, q) = nothing_yet s es h g in dial es a p q
  Protocol-Gated {s} es (offers b h) g =
      unchanged server_list es (to_client b ∷ []) refl refl (nothing_yet s es h g)
  Protocol-Gated es (chooses a) (p, q) = dial es a p q
  Protocol-Gated es (hands_over b) (p, a, q) = (a, still es (to_server b ∷ []) refl ∙ q)
  Protocol-Gated es (hands_over_first b) (p, a, q) = (a, still es (to_server b ∷ []) refl ∙ q)
  Protocol-Gated es plays (a, q) = (a, still es _ refl ∙ q)
  Protocol-Gated es (forwards (from_client a b puts)) (x, q) = (x, still es _ refl ∙ q)
  Protocol-Gated es (forwards (from_server a b puts)) (x, q) = (x, still es _ refl ∙ q)

  pub Trace-Gated : {t : State} {es : List (Effect P)} → Trace P initial es (some t) → Gated t es
  Trace-Gated start = (refl, refl)
  Trace-Gated (then_ {es} r p) = Protocol-Gated es p (Trace-Gated r)
