-- ===== src/Boot.antt =====
-- The life of the process: `Run` of src/Main.cxx, src/CommandLine.cxx, and the constructor,
-- `AddKnockListener` and `OnShutdown` of src/Instance.cxx.
pub mod Shutdown
pub mod Accounts
pub mod Release
pub mod Main
use uologin.Prelude.{
  ℕ, Bool, true, false, not, Option, none, some, List, [], ◌∷◌, ◌++◌, if◌then◌else◌, ◌==◌, ◌&&◌,
}
use uologin.External.{Platform, Handle}
use uologin.Accounting.{is_empty}
use uologin.Config.{Config}
use uologin.Database
use uologin.Instance.{Instance, Metrics}
use uologin.Connection.{Connection, Effect, Outcome, alive, destroyed, crashed, destroy}
use uologin.Listener.{DelayedConnection, destroy_delayed}
use uologin.Server.{Server}
use Prim.Native.String.{String}

-- `ParseCommandLine`: the path of the configuration; `none` is the exception with the usage.
unfoldable pub parse_command_line : List String → Option String
parse_command_line [] = some "/etc/uologin.conf"
parse_command_line (program ∷ []) = some "/etc/uologin.conf"
parse_command_line (program ∷ path ∷ []) = some path
parse_command_line (program ∷ path ∷ more ∷ rest) = none

abbrev pub no_metrics : Metrics
no_metrics = record {
  client_connections = 0;
  server_connections = 0;
  client_connections_accepted = 0;
  server_connections_established = 0;
  server_connections_failed = 0;
  accepted_knocks = 0;
  rejected_knocks = 0;
  malformed_knocks = 0;
  missing_knocks = 0;
  accepted_logins = 0;
  rejected_logins = 0;
  malformed_logins = 0;
  delayed_connections = 0;
  client_bytes = 0;
  server_bytes = 0;
}

-- What starting meets: opening the database, the time, and whether the sockets can be created.
pub record BootCalls : Type 0 where
  pub opened : Option Handle
  pub now : ℕ
  pub exporter_created : Bool
  pub listener_created : Bool
  pub knock_created : Bool

-- A running server, with the exporter and the nftables set of its knock listener.
pub record Started (P : Platform) : Type 0 where
  pub server : Server P
  pub has_exporter : Bool
  pub knock_set : Option (Option (List ℕ))

abbrev to_optional : List ℕ → Option (List ℕ)
to_optional [] = none
to_optional (c ∷ cs) = some (c ∷ cs)

module _ (P : Platform) where
  -- The constructor of `Instance`; `none` is an exception of the database's.
  pub new_instance : Config P → BootCalls → Option (Instance P)
  new_instance c k =
      elim (Database.new (not (is_empty c.user_database)) c.auto_reload_user_database k.opened) [
        | none ↦ none
        | some d ↦ some (record {
          config = c;
          database = d;
          client_accounting = record {
            max_connections = 16;
            tarpit = true;
            clients = [];
            cleanup_timer = P.idle;
          };
          require_knock = false;
          metrics = no_metrics;
          now = k.now;
        })
      ]

  abbrev pub add_knock_listener : Instance P → Instance P
  add_knock_listener i = record i { require_knock = true }

  -- A socket that is configured, created or not: `none` is the exception of `SocketConfig::Create`.
  socket : P.Address → Bool → Option Bool
  socket address created =
      if P.is_null address then some false else if created then some true else none

  with_listeners : Config P → Instance P → Bool → Bool → Started P
  with_listeners c i has_exporter has_knock = record {
    server = record {
      instance_ = if has_knock then add_knock_listener i else i;
      connections = [];
      delayed_connections = [];
    };
    has_exporter = has_exporter;
    knock_set = if has_knock then some (to_optional c.knock_nft_set) else none;
  }

  -- `Run` up to the event loop; `none` is an exception, and the process fails.
  unfoldable pub run : Config P → BootCalls → Option (Started P)
  unfolding new_instance socket with_listeners
  run c k = elim (new_instance c k) [
    | none ↦ none
    | some i ↦ elim (socket c.prometheus_exporter.bind_address k.exporter_created) [
      | none ↦ none
      | some has_exporter ↦
          if k.listener_created
          then elim (socket c.knock_listener.bind_address k.knock_created) [
            | none ↦ none
            | some has_knock ↦ some (with_listeners c i has_exporter has_knock)
          ]
          else none
    ]
  ]

  -- `~Instance`: whether its assertions hold. The listeners are gone already.
  unfoldable pub destruct_instance : Instance P → Bool
  destruct_instance i = (i.metrics.client_connections == 0) && (i.metrics.server_connections == 0)

  -- `DeleteDisposer` for both lists of the listener.
  pub dispose_delayed : List (DelayedConnection P) → Instance P → Instance P
  dispose_delayed [] i = i
  dispose_delayed (d ∷ ds) i = dispose_delayed ds (destroy_delayed P d i)

  abbrev pub disposed : Instance P → Outcome P → Instance P × List (Effect P)
  disposed i (alive j c es) = (j, es)
  disposed i (destroyed j es) = (j, es)
  disposed i (crashed f) = (i, [])

  pub dispose : List (Connection P) → Instance P → Instance P × List (Effect P)
  dispose [] i = (i, [])
  dispose (c ∷ cs) i =
      let (j, es) = disposed i (destroy P i c) in let (k, fs) = dispose cs j in (k, es ++ fs)

  -- `OnShutdown`: no more knocks, the destructor of the listener, and `ClientAccountingMap::Shutdown`.
  unfoldable pub on_shutdown : Server P → Server P × List (Effect P)
  unfolding dispose_delayed dispose
  on_shutdown s =
      let i =
        dispose_delayed s.delayed_connections (record s.instance_ { require_knock = false }) in
      let (j, es) = dispose s.connections i in
      let m = record j.client_accounting {
        cleanup_timer = P.cancel j.client_accounting.cleanup_timer;
      } in
      (
        record {
          instance_ = record j { client_accounting = m };
          connections = [];
          delayed_connections = [];
        },
        es,
      )
