-- ===== src/Runs/Boot.antt =====
-- A server that starts, at concrete inputs.
use uologin.Prelude.{
  ℕ, ◌≡◌, ◌≤◌, ◌+◌, refl, true, false, none, some, List, [], ◌∷◌, length, All, u64,
}
use uologin.Runs.{platform, v4}
use uologin.Runs.Config.{config_with}
use uologin.Instance.{Instance}
use uologin.Accounting.{to_integer, update_token_bucket, get, find, account, check}
use uologin.Database
use uologin.Connection.{Connection, new}
use uologin.Listener.{Accepted, dropped, delayed, connected, on_accept}
use uologin.Boot.{BootCalls, Started, run, destruct_instance, on_shutdown, no_metrics}
use uologin.Boot.Release.{Run-on_shutdown}
use uologin.Accounting.Ids.{ids}
use uologin.Server.{Server, Run, here, next, accepted}
use uologin.Server.Gauges.{servers_of}
use uologin.Exporter.{on_prometheus_exporter_request, values}
use uologin.Exporter.Values.{Run-exported}
use uologin.Server.Promises.{Run-limited, Run-Resolves, Resolves, connections_of, delayed_of}

abbrev pub calls : BootCalls
calls = record {
  opened = none;
  now = 1000;
  exporter_created = true;
  listener_created = true;
  knock_created = true;
}

abbrev begun : Instance platform
begun = record {
  config = config_with (v4 9) [];
  database = record { db = none; last_mtime = 0; last_reload_error = none; auto_reload = false };
  client_accounting = record {
    max_connections = 16;
    tarpit = true;
    clients = [];
    cleanup_timer = false;
  };
  require_knock = false;
  metrics = no_metrics;
  now = 1000;
}

abbrev started : Started platform
started = record {
  server = record { instance_ = begun; connections = []; delayed_connections = [] };
  has_exporter = false;
  knock_set = none;
}

started_so : run platform (config_with (v4 9) []) calls ≡ some started
unfolding run Database.new
started_so = refl

abbrev pub instance_of : Accepted platform → Instance platform
instance_of (dropped i) = i
instance_of (delayed i d) = i
instance_of (connected i c) = i

abbrev pub connections_after : Accepted platform → List (Connection platform)
connections_after (connected i c) = c ∷ []
connections_after _ = []

abbrev one_client : Server platform
one_client = record {
  instance_ = instance_of (on_accept platform 1 (v4 3) begun);
  connections = connections_after (on_accept platform 1 (v4 3) begun);
  delayed_connections = [];
}

one_accepted : Run platform started.server one_client
unfolding on_accept to_integer get find account update_token_bucket new check
one_accepted = next here (accepted 1 (v4 3) _ _ refl)

Run-limited_example :
    length (connections_of platform 3 one_client.connections)
      + length (delayed_of platform 3 one_client.delayed_connections)
    ≤ 16
Run-limited_example =
    Run-limited platform (config_with (v4 9) []) calls started one_client started_so one_accepted 3

Run-Resolves_example :
    let m = one_client.instance_.client_accounting in
    All (λ c. Resolves platform m c.per_client c.id) one_client.connections
    × All (λ d. Resolves platform m d.per_client d.id) one_client.delayed_connections
Run-Resolves_example =
    Run-Resolves platform (config_with (v4 9) []) calls started one_client started_so one_accepted

Run-on_shutdown_example :
    let i = (on_shutdown platform one_client).0.instance_ in
    (i.metrics.client_connections ≡ 0)
    × (i.metrics.server_connections ≡ 0)
    × (platform.is_pending i.client_accounting.cleanup_timer ≡ false)
    × ((a : ℕ) → ids platform a i.client_accounting ≡ [])
    × (destruct_instance platform i ≡ true)
Run-on_shutdown_example =
    Run-on_shutdown platform (config_with (v4 9) []) calls started one_client started_so
      one_accepted

Run-exported_example :
    let answer = on_prometheus_exporter_request one_client.instance_.metrics in
    (values "uologin_client_connections" answer ≡ u64 (length one_client.connections) ∷ [])
    × (values "uologin_server_connections" answer
        ≡ u64 (servers_of platform one_client.connections) ∷ [])
Run-exported_example =
    Run-exported platform (config_with (v4 9) []) calls started one_client started_so one_accepted
