-- ===== src/Runs/Database.antt =====
-- The user database at concrete inputs.
use uologin.BerkeleyDb.{Uses, start, constructed, assigned, destructed, construct, move_assign}
use uologin.BerkeleyDb.Handles.{owned, Uses-balanced}
use uologin.Prelude.{
  count, ◌≤◌, ◌+◌, ℕ, ◌≤◌, ◌<◌, ◌≡◌, ◌≢◌, ◌↔◌, ◌∙◌, sym, ap, refl, true, false, none, some, List,
  [], ◌∷◌, length, take, arith, length-take, min,
}
use uologin.Runs.{platform}
use uologin.External.{Handle, found}
use uologin.Wire.{extract_string}
use uologin.Database.{
  Database, Files, Job, Stat, open_failed, accepted_now, check_credentials, check_password,
  maybe_auto_reload, username_size, value_size, new,
}
use uologin.Database.Credentials.{check_password_iff, check_password_caseless, key}
use uologin.Database.Reload.{
  Reachable, fresh, IsDated, failed_reload, check_credentials_guards, epoch_accepts_everyone,
  stale_job_crashes,
}

found-eq : (a b : List ℕ) → found a ≡ found b → a ≡ b
found-eq a b h = cc

-- Every user has the password "a".
pub one_password-le :
    (ulen : ℕ) (k value : List ℕ) → found (take ulen (97 ∷ [])) ≡ found value → length value ≤ ulen
one_password-le ulen k value e =
    let same : length value ≡ min ulen 1 =
      ap length (sym (found-eq (take ulen (97 ∷ [])) value e)) ∙ length-take ulen (97 ∷ []) in
    omega (arith, same)

abbrev pub one_password : Handle
one_password = record { db_get = λ ulen k. found (take ulen (97 ∷ [])); found-le = one_password-le }

abbrev ann : Job
ann = record { username = 97 ∷ 110 ∷ 110 ∷ []; password = 97 ∷ []; canceled = false }

abbrev big_ann : Job
big_ann = record { username = 65 ∷ 78 ∷ 78 ∷ []; password = 97 ∷ []; canceled = false }

abbrev pub dated : ℕ → Stat
dated t = record { is_regular = true; mtime = t }

abbrev pub good_file : ℕ → Files
good_file t = record {
  stat = some (dated t);
  runtime_directory = true;
  copied = true;
  opened = some one_password;
}

abbrev bad_file : ℕ → Files
bad_file t = record {
  stat = some (dated t);
  runtime_directory = true;
  copied = true;
  opened = none;
}

abbrev started : Database
started = record { db = none; last_mtime = 0; last_reload_error = none; auto_reload = true }

good_file-IsDated : IsDated (good_file 4)
good_file-IsDated st e = ground arith

started-Reachable : Reachable started
unfolding new
started-Reachable = fresh true none refl

check_password_iff_example : (check_password platform (some one_password) ann ≡ some true) ↔ (
    (length ann.username ≤ username_size)
    × (value : List ℕ) × (one_password.db_get value_size (key platform one_password ann)
        ≡ found value)
    × (0 < length value)
    × (length value < value_size)
    × (platform.verify (extract_string value) ann.password ≡ true))
check_password_iff_example = check_password_iff platform one_password ann

check_password_caseless_example :
    check_password platform (some one_password) ann
    ≡ check_password platform (some one_password) big_ann
check_password_caseless_example =
    check_password_caseless platform one_password ann big_ann refl refl

failed_reload_example :
    let d = (maybe_auto_reload started (bad_file 4)).0 in
    (d.db ≡ none) × (maybe_auto_reload d (good_file 4) ≡ (d, some open_failed))
unfolding maybe_auto_reload
failed_reload_example =
    failed_reload started (bad_file 4) (good_file 4) (dated 4) open_failed refl refl refl
      (λ h. omega arith) refl

check_credentials_guards_example :
    (check_credentials (97 ∷ []) (98 ∷ []) (good_file 4) started).1 ≢ accepted_now
check_credentials_guards_example =
    check_credentials_guards (97 ∷ []) (98 ∷ []) (good_file 4) started started-Reachable
      good_file-IsDated

epoch_accepts_everyone_example :
    check_credentials (97 ∷ []) (98 ∷ []) (good_file 0) started ≡ (started, accepted_now)
unfolding new
epoch_accepts_everyone_example =
    epoch_accepts_everyone true none started (97 ∷ []) (98 ∷ []) (good_file 0) (dated 0) refl refl
      refl refl

stale_job_crashes_example :
    check_password platform
      (maybe_auto_reload
        (check_credentials ann.username ann.password (good_file 4) started).0
        (bad_file 5)).0.db
      ann
    ≡ none
unfolding check_credentials maybe_auto_reload
stale_job_crashes_example =
    stale_job_crashes platform ann.username ann.password (good_file 4) (bad_file 5) started ann
      (dated 5) open_failed refl (omega arith) refl refl (λ h. omega arith) refl

-- A reload: a new object takes the place of the one in use, and the old handle is closed.
reloaded : Uses (some 8 ∷ []) (8 ∷ 7 ∷ []) (7 ∷ [])
unfolding construct move_assign
reloaded =
    destructed [] (some 8 ∷ []) (some 7) (
      assigned [] [] [] (some 8) (some 7) (constructed 8 true (constructed 7 true start refl) refl))

Uses-balanced_example :
    (count 7 (owned (some 8 ∷ [])) + count 7 (7 ∷ []) ≡ count 7 (8 ∷ 7 ∷ []))
    × (count 7 (8 ∷ 7 ∷ []) ≤ 1)
Uses-balanced_example = Uses-balanced 7 reloaded
