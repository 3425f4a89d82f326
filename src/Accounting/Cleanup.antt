-- ===== src/Accounting/Cleanup.antt =====
-- The removal of clients: `RemoveConnection`, `ScheduleCleanup` and `OnCleanupTimer`.
use uologin.Prelude.{
  ℕ, ◌≡◌, ◌∙◌, sym, refl, Bool, true, false, Option, none, some, List, [], ◌∷◌, arith,
  if◌then◌else◌, ◌==◌, ltb, not, ◌||◌, ◌⊎◌, Bool-cases, inl, inr,
}
use uologin.External.{Platform}
use uologin.Accounting.{
  PerClient, AccountingMap, find, modify, is_empty, schedule_cleanup, remove_connection, sweep,
  on_cleanup_timer, minute, detach, new_client, has_no_connections,
}
use uologin.Accounting.Clients.{Distinct, find-modify, modify-Distinct}
use mathlib.Core.Option

module _ (P : Platform) where
  open P use {is_pending, schedule_lem, fired_lem}

  -- Whether a client outlives a cleanup: it has a connection, or has not expired.
  pub survives : ℕ → PerClient P → Bool
  survives now c = not (is_empty c.connections) || ltb now c.expires

  -- A client as `Get` makes it, knocked or not, does not outlive any cleanup.
  pub survives_fresh :
      (now a : ℕ) (k : Bool) → survives now (record (new_client P a) { knocked = k }) ≡ false
  unfolding survives new_client
  survives_fresh now a k = ground arith

  -- A client that is removed has no connection.
  pub survives-false : (now : ℕ) (c : PerClient P) → survives now c ≡ false → c.connections ≡ []
  unfolding survives
  survives-false now c h = idle c.connections (ground arith)
    where
      idle : (l : List ℕ) → is_empty l ≡ true → l ≡ []
      idle [] e = refl
      idle (x ∷ l) e = cc

  abbrev pub only_if : (PerClient P → Bool) → Option (PerClient P) → Option (PerClient P)
  only_if p none = none
  only_if p (some c) = if p c then some c else none

  find-sweep-none :
      (now a : ℕ) (cs : List (PerClient P))
      → find P a cs ≡ none
      → find P a (sweep P now cs).0 ≡ none
  unfolding sweep find
  find-sweep-none now a [] h = refl
  find-sweep-none now a (c ∷ cs) h = ground (arith, find-sweep-none now a cs)

  find-sweep :
      (now a : ℕ) (cs : List (PerClient P))
      → Distinct P cs
      → find P a (sweep P now cs).0 ≡ only_if (survives now) (find P a cs)
  unfolding sweep find survives
  find-sweep now a [] d = refl
  find-sweep now a (c ∷ cs) d =
      ground (arith, find-sweep now a cs d.2, find-sweep-none now c.address cs d.1)

  sweep-Distinct :
      (now : ℕ) (cs : List (PerClient P)) → Distinct P cs → Distinct P (sweep P now cs).0
  unfolding sweep
  sweep-Distinct now [] d = tt
  sweep-Distinct now (c ∷ cs) d =
      ground (arith, find-sweep-none now c.address cs d.1, sweep-Distinct now cs d.2)

  schedule_cleanup-clients : (m : AccountingMap P) → (schedule_cleanup P m).clients ≡ m.clients
  unfolding schedule_cleanup
  schedule_cleanup-clients m = ground arith

  pub schedule_cleanup-pending :
      (m : AccountingMap P) → is_pending (schedule_cleanup P m).cleanup_timer ≡ true
  unfolding schedule_cleanup
  schedule_cleanup-pending m = ground (arith, schedule_lem minute m.cleanup_timer)

  -- Where the addresses of the clients are distinct, a cleanup removes a client exactly when it has
  -- no connection and has expired: of every address it leaves the client as it was, or none.
  pub find-on_cleanup_timer :
      (now a : ℕ) (m : AccountingMap P)
      → Distinct P m.clients
      → find P a (on_cleanup_timer P now m).clients ≡ only_if (survives now) (find P a m.clients)
  unfolding on_cleanup_timer
  find-on_cleanup_timer now a m d = ground (
    arith,
    find-sweep now a m.clients d,
    schedule_cleanup-clients
        (record m { clients = (sweep P now m.clients).0; cleanup_timer = P.fired m.cleanup_timer }),
  )

  pub on_cleanup_timer-Distinct :
      (now : ℕ) (m : AccountingMap P)
      → Distinct P m.clients
      → Distinct P (on_cleanup_timer P now m).clients
  unfolding on_cleanup_timer
  on_cleanup_timer-Distinct now m d = elim (Bool-cases (sweep P now m.clients).1) [
    | inl e ↦ rw (e, schedule_cleanup-clients) (sweep-Distinct now m.clients d)
    | inr e ↦ rw e (sweep-Distinct now m.clients d)
  ]

  -- Whether some client has no connection.
  pub has_idle : List (PerClient P) → Bool
  has_idle [] = false
  has_idle (c ∷ cs) = is_empty c.connections || has_idle cs

  -- A client without connections waits for the cleanup timer.
  abbrev pub IsWatched : AccountingMap P → Type 0
  IsWatched m = (has_idle m.clients ≡ false) ⊎ (is_pending m.cleanup_timer ≡ true)

  -- The predicate sets `reschedule` exactly if it keeps a client without connections.
  has_idle-sweep :
      (now : ℕ) (cs : List (PerClient P)) → has_idle (sweep P now cs).0 ≡ (sweep P now cs).1
  unfolding sweep has_idle
  has_idle-sweep now [] = refl
  has_idle-sweep now (c ∷ cs) = ground (arith, has_idle-sweep now cs)

  -- After a run of the cleanup timer, the timer is pending exactly if a client without connections
  -- is left.
  pub on_cleanup_timer-pending :
      (now : ℕ) (m : AccountingMap P)
      → let m' = on_cleanup_timer P now m in is_pending m'.cleanup_timer ≡ has_idle m'.clients
  unfolding on_cleanup_timer
  on_cleanup_timer-pending now m = elim (Bool-cases (sweep P now m.clients).1) [
    | inl e ↦
        rw (e, schedule_cleanup-clients)
          (schedule_cleanup-pending _ ∙ sym (has_idle-sweep now m.clients ∙ e))
    | inr e ↦ rw e (fired_lem m.cleanup_timer ∙ sym (has_idle-sweep now m.clients ∙ e))
  ]

  has_idle-detach :
      (now a i : ℕ) (cs : List (PerClient P))
      → has_idle (modify P a (detach P now i) cs) ≡ true
      → (has_idle cs ≡ true)
        ⊎ (has_no_connections P (find P a (modify P a (detach P now i) cs)) ≡ true)
  unfolding has_idle modify find has_no_connections
  has_idle-detach now a i [] h = cc
  has_idle-detach now a i (c ∷ cs) h = ground (arith, has_idle-detach now a i cs)

  -- If the cleanup timer is scheduled whenever there is a client without connections, it is so
  -- after a connection is removed.
  pub remove_connection-IsWatched :
      (now a i : ℕ) (m : AccountingMap P) → IsWatched m → IsWatched (remove_connection P now a i m)
  unfolding remove_connection
  remove_connection-IsWatched now a i m w =
      elim (Bool-cases (has_no_connections P (find P a (modify P a (detach P now i) m.clients)))) [
        | inl e ↦ rw e (inr (schedule_cleanup-pending _))
        | inr e ↦ rw e (ground (arith, has_idle-detach now a i m.clients))
      ]

  -- After a connection is removed its client has that connection no more in its list and expires
  -- five minutes from now, and no other client has changed.
  pub find-remove_connection :
      (now a b i : ℕ) (m : AccountingMap P)
      → find P b (remove_connection P now a i m).clients
        ≡ (if a == b then Option.map (detach P now i) (find P b m.clients) else find P b m.clients)
  unfolding remove_connection
  find-remove_connection now a b i m =
      let found = find-modify P a b (detach P now i) m.clients (λ c. refl) in
      elim (Bool-cases (has_no_connections P (find P a (modify P a (detach P now i) m.clients)))) [
        | inl e ↦ rw (e, schedule_cleanup-clients) found
        | inr e ↦ rw e found
      ]

  pub remove_connection-Distinct :
      (now a i : ℕ) (m : AccountingMap P)
      → Distinct P m.clients
      → Distinct P (remove_connection P now a i m).clients
  unfolding remove_connection
  remove_connection-Distinct now a i m d =
      let kept = modify-Distinct P a (detach P now i) m.clients (λ c. refl) d in
      elim (Bool-cases (has_no_connections P (find P a (modify P a (detach P now i) m.clients)))) [
        | inl e ↦ rw (e, schedule_cleanup-clients) kept
        | inr e ↦ rw e kept
      ]

  pub remove_connection_limit :
      (now a i : ℕ) (m : AccountingMap P)
      → (remove_connection P now a i m).max_connections ≡ m.max_connections
  unfolding remove_connection
  remove_connection_limit now a i m = ground arith
