-- ===== src/Wire/Command/Table/Unique.antt =====
-- The codes of src/uo/Command.hxx tell commands apart.
use uologin.Prelude.{◌≡◌, refl, sym, subst, some, inl, inr, ◌⊎◌, ◌<◌, ltb→lt}
use uologin.Wire.Command as Used
use uologin.Wire.Command.Table.{
  Command, code, walk_ack, resynchronize, account_login, account_login_reject, play_server,
  server_list, extended, seed,
}
use uologin.Wire.Command.Table.Rows.{commands, find, row}

-- The constants that the program uses are those of the enumeration.
constants :
    (Used.account_login ≡ code account_login)
    × (Used.account_login_reject ≡ code account_login_reject)
    × (Used.play_server ≡ code play_server)
    × (Used.server_list ≡ code server_list)
    × (Used.extended ≡ code extended)
    × (Used.seed ≡ code seed)
unfolding code
constants = (refl, refl, refl, refl, refl, refl)

one_byte :
    (c d : Command)
    → find (code c) commands ≡ some c
    → d ≡ resynchronize
    → code c ≡ code d
    → c ≡ walk_ack
unfolding code find
one_byte c d p q e =
    let r = subst (λ x. code c ≡ code x) q e in
    let w = subst (λ n. find n commands ≡ some c) r p in cc

-- The code of every command is a byte; and two commands with the same code are the same command, with one
-- exception: `walk_ack` and `resynchronize`.
pub code_unique :
    (c d : Command)
    → code c ≡ code d
    → (code c < 256)
      × ((c ≡ d) ⊎ ((c ≡ walk_ack) × (d ≡ resynchronize)) ⊎ ((c ≡ resynchronize) × (d ≡ walk_ack)))
code_unique c d same = (ltb→lt (code c) 256 (row c).0, told (row c).1 (row d).1 same)
  where
    told :
        (find (code c) commands ≡ some c) ⊎ (c ≡ resynchronize)
        → (find (code d) commands ≡ some d) ⊎ (d ≡ resynchronize)
        → code c ≡ code d
        → (c ≡ d) ⊎ ((c ≡ walk_ack) × (d ≡ resynchronize)) ⊎ ((c ≡ resynchronize) × (d ≡ walk_ack))
    told (inl p) (inl q) e = inl cc
    told (inl p) (inr q) e = inr (inl (one_byte c d p q e, q))
    told (inr p) (inl q) e = inr (inr (p, one_byte d c q p (sym e)))
    told (inr p) (inr q) e = inl cc
