-- ===== src/Database.antt =====
-- The user database: src/Database.hxx, src/Database.cxx, src/BerkeleyDB.hxx and src/BerkeleyDB.cxx.
-- What the file system, getenv() and the opening of the database answer is an argument.
pub mod Reload
pub mod Credentials
use uologin.Prelude.{
  ℕ, ◌≡◌, Bool, true, false, Option, none, some, List, [], ◌∷◌, length, map, if◌then◌else◌, ◌==◌,
  leb, ltb, ◌||◌,
}
use uologin.External.{Platform, Handle, GetResult, found, not_found, get_failed}
use uologin.Wire.{extract_string}

pub data Error : Type 0 where
  stat_failed not_regular no_runtime_directory copy_failed open_failed : Error

pub record Stat : Type 0 where
  pub is_regular : Bool
  pub mtime : ℕ

-- What a reload meets: stat(), getenv("RUNTIME_DIRECTORY"), the copy and BerkeleyDB{copy_path}.
pub record Files : Type 0 where
  pub stat : Option Stat
  pub runtime_directory : Bool
  pub copied : Bool
  pub opened : Option Handle

pub record Database : Type 0 where
  pub db : Option Handle
  pub last_mtime : ℕ
  pub last_reload_error : Option Error
  pub auto_reload : Bool

unfoldable open_plain : Bool → Bool → Option Handle → Option (Option Handle)
open_plain true false none = none
open_plain true false (some h) = some (some h)
open_plain _ _ opened = some none

-- The constructor: whether there is a path, `auto_reload`, and what opening the path gives. `none` is
-- the exception of BerkeleyDB{path}.
unfoldable pub new : Bool → Bool → Option Handle → Option Database
unfolding open_plain
new has_path auto_reload opened = elim (open_plain has_path auto_reload opened) [
  | none ↦ none
  | some db ↦
      some (record { db = db; last_mtime = 0; last_reload_error = none; auto_reload = auto_reload })
]

pub data Outcome (A : Type 0) : Type 0 where
  returned : A → Outcome A
  thrown : Error → Outcome A

-- `DoAutoReload`.
do_auto_reload : Files → Outcome Handle
do_auto_reload w =
    if w.runtime_directory
    then (if w.copied
        then elim w.opened [ none ↦ thrown open_failed | some h ↦ returned h ]
        else thrown copy_failed)
    else thrown no_runtime_directory

-- The `try` block of `MaybeAutoReload`, after `db` and `last_reload_error` were cleared.
finish_reload : Database → Outcome Handle → Database × Option Error
finish_reload d (returned h) = (record d { db = some h }, none)
finish_reload d (thrown e) = (record d { last_reload_error = some e }, some e)

reload_stat : Database → Files → Stat → Database × Option Error
unfolding do_auto_reload finish_reload
reload_stat d w st =
    if st.is_regular
    then (if st.mtime == d.last_mtime
        then (d, d.last_reload_error)
        else finish_reload (record d { last_mtime = st.mtime; db = none; last_reload_error = none })
            (do_auto_reload w))
    else (d, some not_regular)

-- `MaybeAutoReload`: the database after it, and the exception that it throws.
unfoldable pub maybe_auto_reload : Database → Files → Database × Option Error
unfolding reload_stat
maybe_auto_reload d w = elim w.stat [ none ↦ (d, some stat_failed) | some st ↦ reload_stat d w st ]

-- A `CheckCredentialsJob`. It refers to the database's `db`, which it reads when it runs.
pub record Job : Type 0 where
  pub username : List ℕ
  pub password : List ℕ
  pub canceled : Bool

-- How `CheckCredentials` ends: by an exception, by calling back at once with `true`, or with a job in
-- the queue and `cancel_ptr` set to it.
pub data Check : Type 0 where
  check_thrown : Error → Check
  accepted_now : Check
  queued : Job → Check

start_check : Database → List ℕ → List ℕ → Option Handle → Database × Check
start_check d username password none = (d, accepted_now)
start_check d username password (some h) =
    (d, queued (record { username = username; password = password; canceled = false }))

after_reload : List ℕ → List ℕ → Database → Option Error → Database × Check
unfolding start_check
after_reload username password d none = start_check d username password d.db
after_reload username password d (some e) = (d, check_thrown e)

unfoldable pub check_credentials : List ℕ → List ℕ → Files → Database → Database × Check
unfolding after_reload maybe_auto_reload
check_credentials username password w d =
    let (d', e) = if d.auto_reload then maybe_auto_reload d w else (d, none) in
    after_reload username password d' e

-- `Done`: the value of the callback, if it is called.
pub job_done : Job → Bool → Option Bool
job_done j result = if j.canceled then none else some result

-- `Cancel`: `none` is the job deleted at once, when the queue still had it.
unfoldable pub job_cancel : Job → Bool → Option Job
job_cancel j in_queue = if in_queue then none else some (record j { canceled = true })

abbrev pub username_size : ℕ
username_size = 30

-- crypto_pwhash_STRBYTES
abbrev pub value_size : ℕ
value_size = 128

module _ (P : Platform) where
  check_value : List ℕ → GetResult → Option Bool
  check_value password (found value) =
      let n = length value in
      if n == 0 || leb value_size n
      then some false
      else some (P.verify (extract_string value) password)
  check_value password not_found = some false
  check_value password get_failed = none

  -- `CheckPassword` with `BerkeleyDB::Get`, when the job runs and the database's `db` is the argument.
  -- `none` ends the process: the assertion of `Get`, or its exception in a `noexcept` function.
  pub check_password : Option Handle → Job → Option Bool
  unfolding check_value
  check_password db j = if ltb username_size (length j.username) then some false else elim db [
    | none ↦ none
    | some h ↦ check_value j.password (h.db_get value_size (map P.to_upper_ascii j.username))
  ]
