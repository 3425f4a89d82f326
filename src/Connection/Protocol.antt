-- ===== src/Connection/Protocol.antt =====
-- The login protocol as a machine of its own: what a connection may do outside the program in each
-- state, and to which state that leads. A reader of this file needs no other knowledge of
-- src/Connection.cxx than its six states.
use uologin.Prelude.{ℕ, Option, none, some, List, [], ◌∷◌, ◌++◌}
use uologin.External.{Platform}
use uologin.Database.{Job}
use uologin.Splice.{Put}
use uologin.Wire.{account_login_reject, play_server_zero}
use uologin.Connection.{
  State, initial, check_credentials, server_list, connecting, send_play_server, ready, Effect,
  to_client, to_server, shutdown_client, shutdown_server, give_back, start_job, cancel_job,
  start_connect,
}

-- The client has not logged in yet.
abbrev pub IsAnonymous : State → Type 0
IsAnonymous initial = Unit {0}
IsAnonymous check_credentials = Unit {0}
IsAnonymous _ = ⊥

module _ (P : Platform) where
  -- The last effects of a connection: a job that still runs is canceled, and pipes are given back.
  pub data Closing : List (Effect P) → Type 0 where
    no_job : (puts : List Put) → Closing (give_back puts ∷ [])
    with_job : (j : Job) (puts : List Put) → Closing (cancel_job j ∷ give_back puts ∷ [])

  -- Bytes that go both ways.
  pub data Moves : List (Effect P) → Type 0 where
    from_client :
        (a b : List ℕ) (puts : List Put) → Moves (to_client a ∷ to_server b ∷ give_back puts ∷ [])
    from_server :
        (a b : List ℕ) (puts : List Put) → Moves (to_server a ∷ to_client b ∷ give_back puts ∷ [])

  pub data Shuts : List (Effect P) → Type 0 where
    neither : Shuts []
    client_side : Shuts (shutdown_client ∷ [])
    server_side : Shuts (shutdown_server ∷ [])

  -- Without a next state the connection is gone.
  pub data Protocol : State → List (Effect P) → Option State → Type 0 where
    waits : {s : State} → Protocol s [] (some s)
    idles : {s : State} → Protocol s (to_client [] ∷ to_server [] ∷ give_back [] ∷ []) (some s)
    gone : {s : State} {fs : List (Effect P)} → Closing fs → Protocol s fs none
    rejects :
        {s : State} {hs fs : List (Effect P)}
        → IsAnonymous s
        → Shuts hs
        → Closing fs
        → Protocol s ((to_client (account_login_reject P) ∷ hs) ++ fs) none
    asks : (j : Job) → Protocol initial (start_job j ∷ []) (some check_credentials)
    dials :
        {s : State} (a : P.Address)
        → IsAnonymous s
        → Protocol s (start_connect a ∷ []) (some connecting)
    offers :
        {s : State} (packet : List ℕ)
        → IsAnonymous s
        → Protocol s (to_client packet ∷ []) (some server_list)
    cannot_offer :
        {s : State} {fs : List (Effect P)} (packet : List ℕ)
        → IsAnonymous s
        → Closing fs
        → Protocol s (to_client packet ∷ fs) none
    chooses : (a : P.Address) → Protocol server_list (start_connect a ∷ []) (some connecting)
    hands_over : (packets : List ℕ) → Protocol connecting (to_server packets ∷ []) (some ready)
    hands_over_first :
        (packets : List ℕ) → Protocol connecting (to_server packets ∷ []) (some send_play_server)
    cannot_hand_over :
        {fs : List (Effect P)} (packets : List ℕ)
        → Closing fs
        → Protocol connecting (to_server packets ∷ fs) none
    plays : Protocol send_play_server (to_server (play_server_zero P) ∷ []) (some ready)
    cannot_play :
        {fs : List (Effect P)}
        → Closing fs
        → Protocol send_play_server (to_server (play_server_zero P) ∷ fs) none
    forwards : {es : List (Effect P)} → Moves es → Protocol ready es (some ready)
    ends :
        {es hs fs : List (Effect P)}
        → Moves es
        → Shuts hs
        → Closing fs
        → Protocol ready ((es ++ hs) ++ fs) none

  -- A whole run of the machine, with its effects in order.
  pub data Trace (s : State) : List (Effect P) → Option State → Type 0 where
    start : Trace s [] (some s)
    then_ :
        {t : State} {o : Option State} {es fs : List (Effect P)}
        → Trace s es (some t)
        → Protocol t fs o
        → Trace s (es ++ fs) o
