-- ===== src/Knock/Leaving.antt =====
-- A knock gives no client a connection and takes none away.
use uologin.Prelude.{
  ℕ, Bool, true, false, not, ◌||◌, Option, none, some, List, if◌then◌else◌, ◌==◌, length,
}
use uologin.External.{Platform}
use uologin.Accounting.{AccountingMap, get, account, set_knocked}
use uologin.Accounting.Ids.{Leaves, Leaves-trans, account-Leaves, get-Leaves, set_knocked-Leaves}
use uologin.Database.{Files, Job, Check, check_thrown, accepted_now, queued}
use uologin.Wire.{parse_login, extract_string, is_valid_username, sizeof_account_login}
use uologin.Wire.Command
use uologin.Instance.{Instance}
use uologin.Knock.{
  Request, Knocked, ignored, pending, answered, leaked, terminated, answer, on_check_credentials,
  start_request, malformed, process_knock, with_accounting, on_udp_datagram,
}

module _ (P : Platform) (m : AccountingMap P) where
  pub data Keeps : Knocked P → Type 0 where
    after_ignored : {j : Instance P} → Leaves P m j.client_accounting → Keeps (ignored j)
    after_pending :
        {j : Instance P} {r : Request P} {k : Job}
        → Leaves P m j.client_accounting
        → Keeps (pending j r k)
    after_answered :
        {j : Instance P} {e : Option (List ℕ × List ℕ)}
        → Leaves P m j.client_accounting
        → Keeps (answered j e)
    after_leaked : {j : Instance P} → Leaves P m j.client_accounting → Keeps (leaked j)
    after_terminated : Keeps terminated

  charge-Leaves :
      (now size : ℕ) (q : Option ℕ) (k : AccountingMap P)
      → Leaves P m k
      → Leaves P m (account P now size q k)
  charge-Leaves now size q k l = Leaves-trans P m k _ l (account-Leaves P now size q k l.distinct)

  mark-Leaves : (a : ℕ) (k : AccountingMap P) → Leaves P m k → Leaves P m (set_knocked P a k)
  mark-Leaves a k l = Leaves-trans P m k _ l (set_knocked-Leaves P a k l.distinct)

  found-Leaves : (a : P.Address) (k : AccountingMap P) → Leaves P m k → Leaves P m (get P a k).0
  found-Leaves a k l = Leaves-trans P m k _ l (get-Leaves P a k l.distinct)

  branch-Keeps : (b : Bool) (o o' : Knocked P) → Keeps o → Keeps o' → Keeps (if b then o else o')
  branch-Keeps true o o' h h' = h
  branch-Keeps false o o' h h' = h'

  answer-Keeps :
      (r : Request P) (result : Bool) (i : Instance P) (a : Option ℕ)
      → Leaves P m i.client_accounting
      → Keeps (answer P r result i a)
  unfolding answer
  answer-Keeps r result i none l = after_leaked l
  answer-Keeps r false i (some a) l = after_answered (charge-Leaves _ _ _ _ l)
  answer-Keeps r true i (some a) l = after_answered (mark-Leaves _ _ l)

  pub on_check_credentials-Keeps :
      (r : Request P) (result : Bool) (i : Instance P)
      → Leaves P m i.client_accounting
      → Keeps (on_check_credentials P r result i)
  unfolding on_check_credentials
  on_check_credentials-Keeps r result i l =
      answer-Keeps r result _ _ (found-Leaves r.address i.client_accounting l)

  start_request-Keeps :
      (r : Request P) (i : Instance P) (k : Check)
      → Leaves P m i.client_accounting
      → Keeps (start_request P r i k)
  unfolding start_request
  start_request-Keeps r i (check_thrown e) l = after_terminated
  start_request-Keeps r i accepted_now l = on_check_credentials-Keeps r true i l
  start_request-Keeps r i (queued j) l = after_pending l

  with_accounting-Keeps :
      (w : Files) (r : Request P) (payload : List ℕ) (i : Instance P) (a : Option ℕ)
      → Leaves P m i.client_accounting
      → Keeps (with_accounting P w r payload i a)
  unfolding with_accounting process_knock malformed
  with_accounting-Keeps w r payload i none l = after_ignored l
  with_accounting-Keeps w r payload i (some a) l =
      branch-Keeps
        (not (length payload == sizeof_account_login)
          || not ((parse_login 0 payload).cmd == Command.account_login))
        _ _ (after_ignored (charge-Leaves i.now 10 (some a) i.client_accounting l))
        (branch-Keeps
          (is_valid_username P (extract_string (parse_login 0 payload).credentials.username)) _ _
          (start_request-Keeps r _ _ l)
          (after_ignored (charge-Leaves i.now 8 (some a) i.client_accounting l)))

  pub on_udp_datagram-Keeps :
      (w : Files) (set : Option (List ℕ)) (payload : List ℕ) (a : P.Address) (i : Instance P)
      → Leaves P m i.client_accounting
      → Keeps (on_udp_datagram P w set payload a i)
  unfolding on_udp_datagram
  on_udp_datagram-Keeps w set payload a i l =
      with_accounting-Keeps w _ payload _ _ (found-Leaves a i.client_accounting l)
