-- ===== src/Database/Reload.antt =====
-- Reloading the database when its file changes.
use uologin.Prelude.{
  ◌||◌, ℕ, ◌≤◌, ◌≡◌, ◌≢◌, refl, Bool, true, false, Option, none, some, List, length, arith,
}
use uologin.External.{Platform, Handle}
use uologin.Database.{
  Database, Files, Stat, Error, Job, accepted_now, queued, check_thrown, maybe_auto_reload,
  check_credentials, check_password, new, username_size,
}

-- A reload that was tried and failed leaves no database, and is not tried again while the file has
-- the same time stamp: each call throws the same error.
pub failed_reload :
    (d : Database) (w v : Files) (st : Stat) (e : Error)
    → w.stat ≡ some st
    → v.stat ≡ some st
    → st.is_regular ≡ true
    → st.mtime ≢ d.last_mtime
    → (maybe_auto_reload d w).1 ≡ some e
    → let d' = (maybe_auto_reload d w).0 in (d'.db ≡ none) × (maybe_auto_reload d' v ≡ (d', some e))
unfolding maybe_auto_reload
failed_reload d w v st e s sv r n h = (ground arith, ground arith)

abbrev pub is_some {ℓ} : {A : Type ℓ} → Option A → Bool
is_some none = false
is_some (some a) = true

-- With `auto_reload`, once a file was seen there is a database or the error of its load.
pub record IsGuarded (d : Database) : Type 0 where
  pub reloads : d.auto_reload ≡ true
  pub loaded : d.last_mtime ≢ 0 → (is_some d.db || is_some d.last_reload_error) ≡ true

-- The file, where stat() finds one, is not dated to the epoch.
abbrev pub IsDated : Files → Type 0
IsDated w = (st : Stat) → w.stat ≡ some st → st.mtime ≢ 0

new-IsGuarded :
    (has_path : Bool) (opened : Option Handle) (d : Database)
    → new has_path true opened ≡ some d
    → IsGuarded d
unfolding new
new-IsGuarded true opened d h = ground arith
new-IsGuarded false opened d h = ground arith

check_credentials-IsGuarded :
    (username password : List ℕ) (w : Files) (d : Database)
    → IsGuarded d
    → IsGuarded (check_credentials username password w d).0
unfolding check_credentials
check_credentials-IsGuarded username password w d g = ground arith

guarded_check :
    (username password : List ℕ) (w : Files) (d : Database)
    → IsGuarded d
    → IsDated w
    → (check_credentials username password w d).1 ≢ accepted_now
unfolding check_credentials
guarded_check username password w d g dated h = dated_stat w.stat refl
  where
    dated_stat : (o : Option Stat) → w.stat ≡ o → ⊥
    dated_stat none e = ground arith
    dated_stat (some st) e = ground (arith, dated st e)

-- The databases that a server with `auto_reload` can have.
pub data Reachable : Database → Type 0 where
  fresh :
      {d : Database} (has_path : Bool) (opened : Option Handle)
      → new has_path true opened ≡ some d
      → Reachable d
  checked :
      {d : Database} (username password : List ℕ) (w : Files)
      → Reachable d
      → Reachable (check_credentials username password w d).0

Reachable-IsGuarded : {d : Database} → Reachable d → IsGuarded d
Reachable-IsGuarded (fresh {d} has_path opened h) = new-IsGuarded has_path opened d h
Reachable-IsGuarded (checked {d} username password w r) =
    check_credentials-IsGuarded username password w d (Reachable-IsGuarded r)

-- A server with `auto_reload` accepts no login without a look at a database, after any number of
-- checks that met any files, if the file is not dated to the epoch.
pub check_credentials_guards :
    (username password : List ℕ) (w : Files) (d : Database)
    → Reachable d
    → IsDated w
    → (check_credentials username password w d).1 ≢ accepted_now
check_credentials_guards username password w d r dated =
    guarded_check username password w d (Reachable-IsGuarded r) dated

-- A file that is dated to the epoch is never loaded: a new server with `auto_reload` accepts every
-- user with every password, whatever the file holds.
pub epoch_accepts_everyone :
    (has_path : Bool) (opened : Option Handle) (d : Database) (username password : List ℕ)
    (w : Files) (st : Stat)
    → new has_path true opened ≡ some d
    → w.stat ≡ some st
    → st.is_regular ≡ true
    → st.mtime ≡ 0
    → check_credentials username password w d ≡ (d, accepted_now)
unfolding new check_credentials
epoch_accepts_everyone true opened d username password w st h s r m = ground arith
epoch_accepts_everyone false opened d username password w st h s r m = ground arith

-- An exception of the reload is an exception of the check.
pub check_credentials_throws :
    (username password : List ℕ) (w : Files) (d : Database) (e : Error)
    → d.auto_reload ≡ true
    → (maybe_auto_reload d w).1 ≡ some e
    → (check_credentials username password w d).1 ≡ check_thrown e
unfolding check_credentials
check_credentials_throws username password w d e a h = ground arith

queued-username :
    (username password : List ℕ) (w : Files) (d : Database) (j : Job)
    → (check_credentials username password w d).1 ≡ queued j
    → j.username ≡ username
unfolding check_credentials
queued-username username password w d j h = ground arith

module _ (P : Platform) where
  check_password-none :
      (j : Job) → length j.username ≤ username_size → check_password P none j ≡ none
  unfolding check_password
  check_password-none j h = ground arith

  -- A job refers to the database's handle, not to the database of its time: if the file changes and
  -- its load fails while the job waits in the queue, the job ends the process.
  pub stale_job_crashes :
      (username password : List ℕ) (w v : Files) (d : Database) (j : Job) (st : Stat) (e : Error)
      → (check_credentials username password w d).1 ≡ queued j
      → length username ≤ username_size
      → v.stat ≡ some st
      → st.is_regular ≡ true
      → st.mtime ≢ (check_credentials username password w d).0.last_mtime
      → (maybe_auto_reload (check_credentials username password w d).0 v).1 ≡ some e
      → check_password P (maybe_auto_reload (check_credentials username password w d).0 v).0.db j
        ≡ none
  stale_job_crashes username password w v d j st e q l s r n f =
      let gone = (failed_reload (check_credentials username password w d).0 v v st e s s r n f).0 in
      rw gone (check_password-none j (rw (queued-username username password w d j q) l))
