-- ===== src/Wire/Strings.antt =====
-- Fixed-size string fields: `UO::ExtractString`, `IsValidUsername` and the `name` of a server.
use uologin.Prelude.{
  ℕ, zero, suc, ◌-◌, ◌≡◌, ◌≢◌, ◌↔◌, inl, inr, refl, ap, List, [], ◌∷◌, ◌++◌, true, length, All,
  arith, take, replicate, length-append, length-replicate, length-take, Bool-cases, ◌==◌,
}
use uologin.External.{Platform}
use uologin.Wire.{extract_string, is_valid_username, fill_name}

abbrev pub NoNul : List ℕ → Type 0
NoNul = All (λ c. c ≢ 0)

-- The rest of a field behind a string: nothing, or a NUL byte and anything.
abbrev pub Terminated : List ℕ → Type 0
Terminated [] = Unit {0}
Terminated (c ∷ cs) = c ≡ 0

-- `ExtractString` splits every field into the longest NUL-free front and a rest that is empty or
-- begins with NUL.
pub extract_string_split :
    (s : List ℕ)
    → NoNul (extract_string s) × (rest : List ℕ) × (s ≡ extract_string s ++ rest) × Terminated rest
unfolding extract_string
extract_string_split [] = (tt, [], refl, tt)
extract_string_split (c ∷ cs) = elim (Bool-cases (c == 0)) [
  | inl e ↦ rw e (tt, c ∷ cs, refl, ground arith)
  | inr e ↦
      let (clean, rest, split, ended) = extract_string_split cs in
      rw e ((ground arith, clean), rest, ap (◌∷◌ c) split, ended)
]

pub extract_string-append :
    (s rest : List ℕ) → NoNul s → Terminated rest → extract_string (s ++ rest) ≡ s
unfolding extract_string
extract_string-append [] [] n t = refl
extract_string-append [] (c ∷ cs) n t = ground arith
extract_string-append (c ∷ cs) rest n t = ground (arith, extract_string-append cs rest n.1 t)

pub take-NoNul : (n : ℕ) (s : List ℕ) → NoNul s → NoNul (take n s)
take-NoNul zero s h = tt
take-NoNul (suc n) [] h = tt
take-NoNul (suc n) (c ∷ cs) h = (h.0, take-NoNul n cs h.1)

replicate-Terminated : (n : ℕ) → Terminated (replicate n 0)
replicate-Terminated zero = tt
replicate-Terminated (suc n) = refl

pub length-fill_name : (s : List ℕ) → length (fill_name s) ≡ 32
unfolding fill_name
length-fill_name s =
    let t = take 31 (extract_string s) in
    omega (
      arith,
      length-append t (replicate (32 - length t) 0),
      length-replicate (32 - length t) (zero),
      length-take 31 (extract_string s),
    )

-- A reader of the 32 bytes of a server's name gets the name back up to its first NUL, cut to 31
-- characters.
pub extract_string-fill_name :
    (s : List ℕ) → extract_string (fill_name s) ≡ take 31 (extract_string s)
unfolding fill_name
extract_string-fill_name s =
    extract_string-append (take 31 (extract_string s)) _
      (take-NoNul 31 (extract_string s) (extract_string_split s).0) (replicate-Terminated _)

-- A field holds a valid user name exactly when the characters before the first NUL byte are at least
-- one and all printable.
pub is_valid_username_iff :
    (P : Platform) (field : List ℕ)
    → (is_valid_username P (extract_string field) ≡ true) ↔ (
        (extract_string field ≢ [])
        × All (λ c. P.is_printable_ascii c ≡ true) (extract_string field))
unfolding is_valid_username
is_valid_username_iff P field =
    P.check_chars_non_empty_iff (extract_string field) P.is_printable_ascii
