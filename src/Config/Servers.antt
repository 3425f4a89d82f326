-- ===== src/Config/Servers.antt =====
-- Which game servers a configuration has.
use uologin.Prelude.{
  ℕ, ◌≡◌, ◌∙◌, ap, refl, subst, sym, Bool, true, false, Option, none, some, List, [], ◌∷◌, ◌++◌,
  arith, append_assoc, append-nil, if◌then◌else◌, Bool-cases, inl, inr,
}
use uologin.External.{Platform}
use uologin.Config.{
  Config, GameServerConfig, Parsing, Result, ok, err, parse_line, parse_lines, finish,
  load_config_file, default_config, option, game_server,
}
use Prim.Native.String.{String}
use text.Mathlib.Text.{◌==◌}
use text.Mathlib.TextEquality.{eq_iff}

differs :
    (w k : String) → (w == k) ≡ true → (k == "game_server") ≡ false → (w == "game_server") ≡ false
differs w k h e = rw ((eq_iff w k).0 h) e

module _ (P : Platform) (L : Parsing P) where
  open L use {Line, expect_word, expect_value, expect_value_and_end, is_end, resolve}

  -- What a `game_server` line says: the address, and the name if it has one.
  abbrev named : P.Address → Line → List (GameServerConfig P)
  named a rest = if is_end rest then [] else elim (expect_value_and_end rest) [
    | none ↦ []
    | some name ↦ record { name = name; address = a } ∷ []
  ]

  abbrev server_option : Bool → Line → Option (P.Address × List (GameServerConfig P))
  server_option false rest = none
  server_option true rest = elim (expect_value rest) [
    | none ↦ none
    | some (value, rest') ↦ elim (resolve value 2593) [
      | none ↦ none
      | some a ↦ some (a, named a rest')
    ]
  ]

  abbrev line_option : Option (String × Line) → Option (P.Address × List (GameServerConfig P))
  line_option none = none
  line_option (some (word, rest)) = server_option (word == "game_server") rest

  abbrev pub server_line : Line → Option (P.Address × List (GameServerConfig P))
  server_line line = line_option (expect_word line)

  abbrev line_servers : Option (P.Address × List (GameServerConfig P)) → List (GameServerConfig P)
  line_servers none = []
  line_servers (some (a, s)) = s

  abbrev line_address : Option (P.Address × List (GameServerConfig P)) → P.Address → P.Address
  line_address none b = b
  line_address (some (a, s)) b = a

  -- The named servers of the lines in their order, and the last address, or the one before.
  abbrev pub servers_of : List Line → List (GameServerConfig P)
  servers_of [] = []
  servers_of (l ∷ ls) = line_servers (server_line l) ++ servers_of ls

  abbrev pub last_address : P.Address → List Line → P.Address
  last_address a [] = a
  last_address a (l ∷ ls) = last_address (line_address (server_line l) a) ls

  -- What one line does to the servers.
  abbrev After : Config P → Config P → Option (P.Address × List (GameServerConfig P)) → Type 0
  After c d o =
      (d.server_list ≡ c.server_list ++ line_servers o)
      × (d.game_server ≡ line_address o c.game_server)

  game_server-After :
      (c d : Config P) (r : Line) → game_server P L c r ≡ ok d → After c d (server_option true r)
  unfolding game_server
  game_server-After c d r h = ground (arith, append-nil c.server_list)

  other-After :
      (c d : Config P) (w : String) (r : Line)
      → (w == "game_server") ≡ false
      → option P L c w r ≡ ok d
      → After c d none
  unfolding option
  other-After c d w r e h = ground (arith, append-nil c.server_list)

  option_game_server :
      (c : Config P) (r : Line) → option P L c "game_server" r ≡ game_server P L c r
  unfolding option
  option_game_server c r = refl

  option-After :
      (c d : Config P) (w : String) (r : Line)
      → option P L c w r ≡ ok d
      → After c d (server_option (w == "game_server") r)
  option-After c d w r h = elim (Bool-cases (w == "game_server")) [
    | inl e ↦ rw e (game_server-After c d r (renamed e))
    | inr e ↦ rw e (other-After c d w r e h)
  ]
    where
      renamed : (w == "game_server") ≡ true → game_server P L c r ≡ ok d
      renamed e =
          sym (option_game_server c r)
          ∙ ap (λ k. option P L c k r) (sym ((eq_iff w "game_server").0 e))
          ∙ h

  parse_line-After :
      (c d : Config P) (l : Line) → parse_line P L c l ≡ ok d → After c d (server_line l)
  unfolding parse_line
  parse_line-After c d l h = words (expect_word l) refl
    where
      words : (o : Option (String × Line)) → expect_word l ≡ o → After c d (server_line l)
      words none e = absurd (ground arith)
      words (some (w, r)) e =
          subst (λ o. After c d (line_option o)) (sym e) (option-After c d w r (ground arith))

  parse_lines_servers :
      (c d : Config P) (ls : List Line)
      → parse_lines P L c ls ≡ ok d
      → (d.server_list ≡ c.server_list ++ servers_of ls)
        × (d.game_server ≡ last_address c.game_server ls)
        × (P.is_null d.game_server ≡ false)
  unfolding parse_lines finish
  parse_lines_servers c d [] h = ground (arith, append-nil c.server_list)
  parse_lines_servers c d (l ∷ ls) h =
      parsed (λ c' q. parse_lines_servers c' d ls q) (parse_line P L c l) refl
    where
      Answer : Type 0
      Answer =
          (d.server_list ≡ c.server_list ++ servers_of (l ∷ ls))
          × (d.game_server ≡ last_address c.game_server (l ∷ ls))
          × (P.is_null d.game_server ≡ false)

      Rest : Type 0
      Rest =
          (c' : Config P)
          → parse_lines P L c' ls ≡ ok d
          → (d.server_list ≡ c'.server_list ++ servers_of ls)
            × (d.game_server ≡ last_address c'.game_server ls)
            × (P.is_null d.game_server ≡ false)

      parsed : Rest → (o : Result (Config P)) → parse_line P L c l ≡ o → Answer
      parsed ih (ok c') e =
          let (a, b) = parse_line-After c c' l e in
          let (x, y, z) = ih c' (ground arith) in
          (
            x
                ∙ ap (λ k. k ++ servers_of ls) a
                ∙ append_assoc c.server_list (line_servers (server_line l)) (servers_of ls),
            y ∙ ap (λ k. last_address k ls) b,
            z,
          )
      parsed ih (err x) e = absurd (ground arith)

  -- A configuration that is loaded has the named servers of the `game_server` lines, in their order,
  -- and the address of the last such line, with a name or not; and that is an address.
  pub load_config_file_servers :
      (runtime_directory : Option (List ℕ)) (ls : List Line) (d : Config P)
      → load_config_file P L runtime_directory ls ≡ ok d
      → (d.server_list ≡ servers_of ls)
        × (d.game_server ≡ last_address L.no_address ls)
        × (P.is_null d.game_server ≡ false)
  unfolding load_config_file default_config
  load_config_file_servers runtime_directory ls d h =
      parse_lines_servers (default_config P L runtime_directory) d ls h
