-- ===== src/BerkeleyDb/Handles.antt =====
-- Every handle is closed once, by its last owner.
use uologin.Prelude.{
  ℕ, ◌+◌, ◌≡◌, ◌≤◌, refl, ◌∙◌, ap, true, false, Option, none, List, [], ◌∷◌, ◌++◌, count,
  count-append, arith,
}
use uologin.BerkeleyDb.{
  Uses, start, default_constructed, constructed, not_created, moved, assigned, destructed,
  construct, destruct, move_construct, move_assign,
}

-- The handles that the objects have.
abbrev pub owned : List (Option ℕ) → List ℕ
owned [] = []
owned (o ∷ os) = destruct o ++ owned os

owned-append :
    (b : ℕ) (xs ys : List (Option ℕ))
    → count b (owned (xs ++ ys)) ≡ count b (owned xs) + count b (owned ys)
owned-append b [] ys = omega arith
owned-append b (x ∷ xs) ys = omega (
  arith,
  owned-append b xs ys,
  count-append b (destruct x) (owned (xs ++ ys)),
  count-append b (destruct x) (owned xs),
)

owned_cons :
    (b : ℕ) (o : Option ℕ) (os : List (Option ℕ))
    → count b (owned (o ∷ os)) ≡ count b (destruct o) + count b (owned os)
owned_cons b o os = count-append b (destruct o) (owned os)

owned_swapped :
    (b : ℕ) (before between after : List (Option ℕ)) (o p : Option ℕ)
    → count b (owned (before ++ p ∷ (between ++ o ∷ after)))
      ≡ count b (owned (before ++ o ∷ (between ++ p ∷ after)))
owned_swapped b before between after o p = omega (
  arith,
  owned-append b before (o ∷ (between ++ p ∷ after)),
  owned-append b before (p ∷ (between ++ o ∷ after)),
  owned_cons b o (between ++ p ∷ after),
  owned_cons b p (between ++ o ∷ after),
  owned-append b between (p ∷ after),
  owned-append b between (o ∷ after),
  owned_cons b o after,
  owned_cons b p after,
)

-- However objects of the class are constructed, moved, assigned and destructed, with opening that
-- succeeds or not: a handle that libdb has given is either owned by exactly one object and not yet
-- closed, or owned by none and closed exactly once; and no other handle is owned or closed.
pub Uses-balanced :
    {os : List (Option ℕ)} {given closed : List ℕ} (b : ℕ)
    → Uses os given closed
    → (count b (owned os) + count b closed ≡ count b given) × (count b given ≤ 1)
unfolding construct move_construct move_assign
Uses-balanced b start = (refl, omega arith)
Uses-balanced b (default_constructed u) = Uses-balanced b u
Uses-balanced b (constructed h true u fresh) = ground (arith, Uses-balanced b u, fresh)
Uses-balanced b (constructed h false u fresh) = ground (arith, Uses-balanced b u, fresh)
Uses-balanced b (not_created success u) = Uses-balanced b u
Uses-balanced b (moved before after o u) =
    let (e, l) = Uses-balanced b u in
    (
      omega (
        arith,
        e,
        owned_cons b o (before ++ none ∷ after),
        owned-append b before (none ∷ after),
        owned-append b before (o ∷ after),
        owned_cons b o after,
      ),
      l,
    )
Uses-balanced b (assigned {closed} before between after o p u) =
    let (e, l) = Uses-balanced b u in
    (ap (λ n. n + count b closed) (owned_swapped b before between after o p) ∙ e, l)
Uses-balanced b (destructed {given} {closed} before after o u) =
    let (e, l) = Uses-balanced b u in
    (
      omega (
        arith,
        e,
        owned-append b before (o ∷ after),
        owned-append b before after,
        owned_cons b o after,
        count-append b (destruct o) closed,
      ),
      l,
    )
