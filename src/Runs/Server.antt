-- ===== src/Runs/Server.antt =====
-- A server at concrete inputs.
use uologin.Prelude.{refl, none, [], ◌∷◌}
use uologin.Runs.{platform, unset}
use uologin.Runs.Admission.{fresh_instance}
use uologin.Accounting.{to_integer}
use uologin.Connection.{new}
use uologin.Listener.Admission.{no_accounting_admitted}
use uologin.Server.{Server, Run, here, next, accepted}
use uologin.Server.Gauges.{IsCounted, Run-IsCounted}

abbrev idle_server : Server platform
idle_server = record { instance_ = fresh_instance; connections = []; delayed_connections = [] }

idle_server-IsCounted : IsCounted platform idle_server
idle_server-IsCounted = record { clients = refl; servers = refl; unopened = tt }

abbrev one_client : Server platform
one_client = record {
  instance_ = (new platform 1 unset none fresh_instance).0;
  connections = (new platform 1 unset none fresh_instance).1 ∷ [];
  delayed_connections = [];
}

one_accepted : Run platform idle_server one_client
unfolding to_integer
one_accepted = next here (
    accepted 1 unset (new platform 1 unset none fresh_instance).0
      (new platform 1 unset none fresh_instance).1
      (no_accounting_admitted platform 1 unset fresh_instance refl).0)

Run-IsCounted_example : IsCounted platform one_client
Run-IsCounted_example = Run-IsCounted platform idle_server-IsCounted one_accepted
