-- ===== src/Database/Credentials.antt =====
-- The password check and the life of its job.
use uologin.Prelude.{
  ℕ, ◌≤◌, ◌<◌, ◌≡◌, ◌↔◌, refl, sym, ap, ◌∙◌, length-map, Bool, true, false, none, some, List,
  length, map, arith,
}
use uologin.External.{Platform, Handle, GetResult, found, not_found, get_failed}
use uologin.Wire.{extract_string}
use uologin.Database.{Job, check_password, job_done, job_cancel, username_size, value_size}

-- A cancelled job that the queue did not have any more does not call back, whatever its result.
pub job_cancel_silences :
    (j : Job) (in_queue result : Bool) (k : Job)
    → job_cancel j in_queue ≡ some k
    → (in_queue ≡ false) × (job_done k result ≡ none)
unfolding job_cancel job_done
job_cancel_silences j in_queue result k h = ground arith

module _ (P : Platform) (h : Handle) where
  abbrev pub key : Job → List ℕ
  key j = map P.to_upper_ascii j.username

  -- The check accepts exactly those users whose name has at most 30 characters, and whose entry under
  -- the name in upper case is not empty, is shorter than the buffer, and is a hash of the password.
  pub check_password_iff :
      (j : Job)
      → (check_password P (some h) j ≡ some true) ↔ (
          (length j.username ≤ username_size)
          × (value : List ℕ) × (h.db_get value_size (key j) ≡ found value)
          × (0 < length value)
          × (length value < value_size)
          × (P.verify (extract_string value) j.password ≡ true))
  unfolding check_password
  check_password_iff j =
      (accepted (h.db_get value_size (key j)) refl, λ (l, v, e, n, s, p). ground arith)
    where
      accepted :
          (r : GetResult)
          → h.db_get value_size (key j) ≡ r
          → check_password P (some h) j ≡ some true
          → (length j.username ≤ username_size)
            × (value : List ℕ) × (h.db_get value_size (key j) ≡ found value)
            × (0 < length value)
            × (length value < value_size)
            × (P.verify (extract_string value) j.password ≡ true)
      accepted (found v) e p = (ground arith, v, e, ground arith, ground arith, ground arith)
      accepted not_found e p = absurd (ground arith)
      accepted get_failed e p = absurd (ground arith)

  -- Names that differ in case alone are one user: with the same password they get the same answer.
  pub check_password_caseless :
      (j k : Job)
      → key j ≡ key k
      → j.password ≡ k.password
      → check_password P (some h) j ≡ check_password P (some h) k
  unfolding check_password
  check_password_caseless j k e p =
      let same : length j.username ≡ length k.username =
        sym (length-map P.to_upper_ascii j.username)
        ∙ ap length e
        ∙ length-map P.to_upper_ascii k.username in
      rw (same, p, e)
