-- ===== src/BerkeleyDb.antt =====
-- The handle of a Berkeley DB file: src/BerkeleyDB.hxx and src/BerkeleyDB.cxx. A handle of libdb is a
-- number, `none` is the null pointer.
pub mod Handles
use uologin.Prelude.{
  ℕ, ◌≡◌, Bool, true, false, Option, none, some, List, [], ◌∷◌, ◌++◌, count, length,
}
use uologin.External.{GetResult, found, not_found, get_failed}

-- How a call ends.
pub data Called (A : Type 0) : Type 0 where
  done : A → Called A
  thrown : Called A
  asserted : Called A

-- `Create`, by what db_create() gives.
unfoldable pub create : Option ℕ → Option ℕ → Called (Option ℕ)
create (some h) answer = asserted
create none (some h) = done (some h)
create none none = thrown

-- `Open`, by whether db->open() succeeds, with the handles that it closes.
unfoldable pub open_path : Option ℕ → Bool → Called (Option ℕ) × List ℕ
open_path none success = (asserted, [])
open_path (some h) true = (done (some h), [])
open_path (some h) false = (thrown, h ∷ [])

opened : Called (Option ℕ) → Bool → Called (Option ℕ) × List ℕ
unfolding open_path
opened (done db) success = open_path db success
opened thrown success = (thrown, [])
opened asserted success = (asserted, [])

-- The constructor from a path. When it throws there is no object, and no destructor runs.
unfoldable pub construct : Option ℕ → Bool → Called (Option ℕ) × List ℕ
unfolding create opened
construct answer success = opened (create none answer) success

-- The destructor, with the handle that it closes.
abbrev pub destruct : Option ℕ → List ℕ
destruct none = []
destruct (some h) = h ∷ []

-- The constructor by a move: the new object, and the old one after it.
unfoldable pub move_construct : Option ℕ → Option ℕ × Option ℕ
move_construct src = (src, none)

-- The assignment by a move: this object and the other one after it.
unfoldable pub move_assign : Option ℕ → Option ℕ → Option ℕ × Option ℕ
move_assign db src = (src, db)

abbrev pub is_open : Option ℕ → Bool
is_open none = false
is_open (some h) = true

-- `Get`: the size of the value that db->get() puts into the buffer, 0 if there is none.
pub get : Option ℕ → GetResult → Called (ℕ × List ℕ)
get none answer = asserted
get (some h) (found value) = done (length value, value)
get (some h) not_found = done (0, [])
get (some h) get_failed = thrown

abbrev pub objects_of : Called (Option ℕ) → List (Option ℕ)
objects_of (done db) = db ∷ []
objects_of _ = []

-- Any use of objects of the class: the objects that exist, the handles that libdb has given, each of
-- them new, and those that were closed.
pub data Uses : List (Option ℕ) → List ℕ → List ℕ → Type 0 where
  start : Uses [] [] []
  default_constructed :
      {os : List (Option ℕ)} {given closed : List ℕ}
      → Uses os given closed
      → Uses (none ∷ os) given closed
  constructed :
      {os : List (Option ℕ)} {given closed : List ℕ} (h : ℕ) (success : Bool)
      → Uses os given closed
      → count h given ≡ 0
      → Uses
          (objects_of (construct (some h) success).0 ++ os)
          (h ∷ given)
          ((construct (some h) success).1 ++ closed)
  not_created :
      {os : List (Option ℕ)} {given closed : List ℕ} (success : Bool)
      → Uses os given closed
      → Uses
          (objects_of (construct none success).0 ++ os)
          given
          ((construct none success).1 ++ closed)
  moved :
      {given closed : List ℕ} (before after : List (Option ℕ)) (o : Option ℕ)
      → Uses (before ++ o ∷ after) given closed
      → Uses ((move_construct o).0 ∷ before ++ (move_construct o).1 ∷ after) given closed
  assigned :
      {given closed : List ℕ} (before between after : List (Option ℕ)) (o p : Option ℕ)
      → Uses (before ++ o ∷ (between ++ p ∷ after)) given closed
      → Uses (before ++ (move_assign o p).0 ∷ (between ++ (move_assign o p).1 ∷ after)) given closed
  destructed :
      {given closed : List ℕ} (before after : List (Option ℕ)) (o : Option ℕ)
      → Uses (before ++ o ∷ after) given closed
      → Uses (before ++ after) given (destruct o ++ closed)
