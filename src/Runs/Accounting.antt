-- ===== src/Runs/Accounting.antt =====
-- The accounting of clients at concrete inputs.
use uologin.Prelude.{◌+◌, ◌*◌, ◌≡◌, inr, refl, true, false, [], ◌∷◌, arith, min}
use uologin.Runs.{platform}
use uologin.Accounting.{
  PerClient, AccountingMap, find, update_token_bucket, on_cleanup_timer, remove_connection,
  delay_step, max_delay, second,
}
use uologin.Accounting.Clients.{Distinct}
use uologin.Accounting.Cleanup.{
  find-on_cleanup_timer, only_if, survives, IsWatched, on_cleanup_timer-pending, has_idle,
  remove_connection-IsWatched,
}
use uologin.Accounting.Delay.{IsPaced, is_over, updates, updates_over}

-- A client with one connection, over the limit with its next token.
abbrev busy : PerClient platform
busy = record {
  address = 5;
  connections = 1 ∷ [];
  expires = 0;
  tarpit_until = 3 * second;
  delay = 2 * delay_step;
  token_bucket = 0;
  knocked = true;
}

-- A client that left.
abbrev gone : PerClient platform
gone = record {
  address = 7;
  connections = [];
  expires = 9 * second;
  tarpit_until = 0;
  delay = 0;
  token_bucket = 10;
  knocked = false;
}

abbrev two_clients : AccountingMap platform
two_clients = record {
  max_connections = 2;
  tarpit = true;
  clients = busy ∷ gone ∷ [];
  cleanup_timer = true;
}

two_clients-Distinct : Distinct platform two_clients.clients
unfolding find
two_clients-Distinct = ((λ h. omega arith), refl, ((λ h. omega arith), refl, tt))

busy-IsPaced : IsPaced platform busy
busy-IsPaced = record { stepped = refl; capped = omega arith }

find-on_cleanup_timer_example :
    find platform 7 (on_cleanup_timer platform (10 * second) two_clients).clients
    ≡ only_if platform (survives platform (10 * second)) (find platform 7 two_clients.clients)
find-on_cleanup_timer_example =
    find-on_cleanup_timer platform (10 * second) 7 two_clients two_clients-Distinct

on_cleanup_timer-pending_example :
    let m' = on_cleanup_timer platform (4 * second) two_clients in
    m'.cleanup_timer ≡ has_idle platform m'.clients
on_cleanup_timer-pending_example = on_cleanup_timer-pending platform (4 * second) two_clients

remove_connection-IsWatched_example :
    IsWatched platform (remove_connection platform (4 * second) 5 1 two_clients)
remove_connection-IsWatched_example =
    remove_connection-IsWatched platform (4 * second) 5 1 two_clients (inr refl)

updates_over_example :
    (updates platform ((second, 5) ∷ (2 * second, 1) ∷ []) busy).delay
    ≡ min (2 * delay_step + 2 * delay_step) max_delay
unfolding update_token_bucket is_over
updates_over_example =
    updates_over platform ((second, 5) ∷ (2 * second, 1) ∷ []) busy busy-IsPaced (refl, (refl, tt))
