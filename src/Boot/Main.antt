-- ===== src/Boot/Main.antt =====
-- `main` of src/Main.cxx, and what a server that it has started dials.
use uologin.Prelude.{
  ℕ, ◌≡◌, ◌∙◌, refl, sym, subst, ap, not, Option, none, some, List, [], ◌∷◌, ◌++◌, All, arith,
}
use uologin.External.{Platform}
use uologin.Config.{Config, Parsing, Result, ok, err, load_config_file}
use uologin.Config.Servers.{servers_of, last_address, load_config_file_servers}
use uologin.Accounting.{is_empty}
use uologin.Connection.{Fault, Connection, Outcome, crashed}
use uologin.Connection.Gate.{dialled}
use uologin.Connection.Targets.{IsTarget, effects_of}
use uologin.Server.{Server, Handles, Run}
use uologin.Server.Served.{IsDue, IsAllowed}
use uologin.Server.Targets.{Run-targets}
use uologin.Server.Safe.{IsCalm, Run-crashes}
use uologin.Boot.{BootCalls, Started, parse_command_line, run}
use Prim.Native.String.{String}

module _ (P : Platform) (L : Parsing P) where
  open L use {Line, no_address}

  -- What the process meets: the lines of a file that are no comments, where it can be read, an
  -- environment variable, and what `Run` meets.
  pub record MainCalls : Type 0 where
    pub read_file : String → Option (List Line)
    pub runtime_directory : Option (List ℕ)
    pub boot : BootCalls

  abbrev run_loaded : Result (Config P) → BootCalls → Option (Started P)
  run_loaded (err e) k = none
  run_loaded (ok c) k = run P c k

  abbrev run_read : Option (List Line) → MainCalls → Option (Started P)
  run_read none k = none
  run_read (some lines) k = run_loaded (load_config_file P L k.runtime_directory lines) k.boot

  abbrev run_parsed : Option String → MainCalls → Option (Started P)
  run_parsed none k = none
  run_parsed (some path) k = run_read (k.read_file path) k

  -- `main` up to the event loop; `none` is an exception that it has printed, and EXIT_FAILURE.
  unfoldable pub main : List String → MainCalls → Option (Started P)
  main arguments k = run_parsed (parse_command_line arguments) k

  run-config :
      (c : Config P) (k : BootCalls) (s : Started P)
      → run P c k ≡ some s
      → s.server.instance_.config ≡ c
  unfolding run
  run-config c k s h = ground arith

  run-connections :
      (c : Config P) (k : BootCalls) (s : Started P)
      → run P c k ≡ some s
      → s.server.connections ≡ []
  unfolding run
  run-connections c k s h = ground arith

  -- A server that has been started, with the lines of its configuration.
  pub record IsStarted (arguments : List String) (k : MainCalls) (s : Started P) : Type 0 where
    pub path : String
    pub lines : List Line
    pub named : parse_command_line arguments ≡ some path
    pub read : k.read_file path ≡ some lines
    pub loaded : load_config_file P L k.runtime_directory lines ≡ ok s.server.instance_.config
    pub empty_yet : s.server.connections ≡ []

  main-IsStarted :
      (arguments : List String) (k : MainCalls) (s : Started P)
      → main arguments k ≡ some s
      → IsStarted arguments k s
  unfolding main
  main-IsStarted arguments k s h = with_path (parse_command_line arguments) refl h
    where
      with_config :
          (path : String) (lines : List Line)
          → parse_command_line arguments ≡ some path
          → k.read_file path ≡ some lines
          → (r : Result (Config P)) → load_config_file P L k.runtime_directory lines ≡ r
          → run_loaded r k.boot ≡ some s
          → IsStarted arguments k s
      with_config path lines p q (err e) l h = absurd cc
      with_config path lines p q (ok c) l h = record {
        path = path;
        lines = lines;
        named = p;
        read = q;
        loaded = l ∙ sym (ap ok (run-config c k.boot s h));
        empty_yet = run-connections c k.boot s h;
      }

      with_lines :
          (path : String)
          → parse_command_line arguments ≡ some path
          → (o : Option (List Line)) → k.read_file path ≡ o
          → run_read o k ≡ some s
          → IsStarted arguments k s
      with_lines path p none q h = absurd cc
      with_lines path p (some lines) q h = with_config path lines p q _ refl h

      with_path :
          (o : Option String)
          → parse_command_line arguments ≡ o
          → run_parsed o k ≡ some s
          → IsStarted arguments k s
      with_path none p h = absurd cc
      with_path (some path) p h = with_lines path p _ refl h

  -- From `main` on: if the process has started its server, then the file that the command line names
  -- could be read, and whatever happens to the server after that, every address that a handler of a
  -- connection dials is that of the last `game_server` line of this file, or that of a line which
  -- names its server.
  pub main-targets :
      (arguments : List String) (k : MainCalls) {s : Started P} {t : Server P} {c : Connection P}
      {o : Outcome P}
      → main arguments k ≡ some s
      → Run P s.server t
      → Handles P t.instance_ c o
      → (path : String) × (lines : List Line) × (parse_command_line arguments ≡ some path)
        × (k.read_file path ≡ some lines)
        × All
            (IsTarget P (last_address P L no_address lines) (servers_of P L lines))
            (dialled P (effects_of o))
  main-targets arguments k {s} {o} e r h =
      let m = main-IsStarted arguments k s e in
      let (listed, last, _) =
        load_config_file_servers P L k.runtime_directory m.lines s.server.instance_.config
          m.loaded in
      (
        m.path,
        m.lines,
        m.named,
        m.read,
        subst
            (λ (x : P.Address).
              All (IsTarget P x (servers_of P L m.lines)) (dialled P (effects_of o)))
            last
            (subst
              (λ y.
                All (IsTarget P s.server.instance_.config.game_server y) (dialled P (effects_of o)))
              listed (Run-targets P s.server.instance_.config refl r h)),
      )

  -- From `main` on: if the process has started its server, then, while the event loop delivers to
  -- its connections only what they wait for, splice() moves no more than there is, a pipe holds less
  -- than 2 ^ 32 bytes and one from the stock is empty, no handler of a connection fails an assertion
  -- of src/Connection.cxx or src/Splice.cxx, and nothing is thrown out of one, with two exceptions:
  -- what a forwarding connection is to read has no pipe yet, and the stock has none to give (an
  -- exception); and, where no line of the file that the command line names has a server with a name,
  -- the client sends while its server is being dialled (a failed assertion).
  pub main-crashes :
      (arguments : List String) (k : MainCalls) {s : Started P} {t : Server P}
      (before after : List (Connection P)) (c : Connection P) {f : Fault}
      → main arguments k ≡ some s
      → (r : Run P s.server t) → IsCalm P r
      → t.connections ≡ before ++ c ∷ after
      → (h : Handles P t.instance_ c (crashed f)) → IsDue P c h
      → (path : String) × (lines : List Line) × (parse_command_line arguments ≡ some path)
        × (k.read_file path ≡ some lines)
        × IsAllowed P (not (is_empty (servers_of P L lines))) c h f
  main-crashes arguments k {s} before after c {f} e r calm at h due =
      let m = main-IsStarted arguments k s e in
      let (listed, _, _) =
        load_config_file_servers P L k.runtime_directory m.lines s.server.instance_.config
          m.loaded in
      (
        m.path,
        m.lines,
        m.named,
        m.read,
        subst (λ y. IsAllowed P (not (is_empty y)) c h f) listed
            (Run-crashes P r before after c m.empty_yet calm at h due),
      )
