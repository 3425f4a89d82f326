-- ===== src/Exporter/Values.antt =====
-- Each metric is exported once, under its name and its kind.
use uologin.Prelude.{ℕ, ◌≡◌, refl, [], ◌∷◌, length, u64, ap, ◌∙◌, some}
use uologin.External.{Platform}
use uologin.Instance.{Metrics}
use uologin.Config.{Config}
use uologin.Boot.{BootCalls, Started, run}
use uologin.Boot.Shutdown.{run-IsCounted}
use uologin.Server.{Server, Run}
use uologin.Server.Gauges.{Run-IsCounted, servers_of}
use uologin.Exporter.{Kind, gauge, counter, on_prometheus_exporter_request, values, kinds}
use Prim.Native.String.{String}

-- The members of `Instance::metrics`.
pub data Metric : Type 0 where
  client_connections server_connections client_connections_accepted : Metric
  server_connections_established server_connections_failed accepted_knocks : Metric
  rejected_knocks missing_knocks malformed_knocks : Metric
  accepted_logins rejected_logins malformed_logins : Metric
  delayed_connections client_bytes server_bytes : Metric

abbrev pub name : Metric → String
name client_connections = "uologin_client_connections"
name server_connections = "uologin_server_connections"
name client_connections_accepted = "uologin_client_connections_accepted"
name server_connections_established = "uologin_server_connections_established"
name server_connections_failed = "uologin_server_connections_failed"
name accepted_knocks = "uologin_accepted_knocks"
name rejected_knocks = "uologin_rejected_knocks"
name missing_knocks = "uologin_missing_knocks"
name malformed_knocks = "uologin_malformed_knocks"
name accepted_logins = "uologin_accepted_logins"
name rejected_logins = "uologin_rejected_logins"
name malformed_logins = "uologin_malformed_logins"
name delayed_connections = "uologin_delayed_connections"
name client_bytes = "uologin_client_bytes"
name server_bytes = "uologin_server_bytes"

abbrev pub member : Metric → Metrics → ℕ
member client_connections m = m.client_connections
member server_connections m = m.server_connections
member client_connections_accepted m = m.client_connections_accepted
member server_connections_established m = m.server_connections_established
member server_connections_failed m = m.server_connections_failed
member accepted_knocks m = m.accepted_knocks
member rejected_knocks m = m.rejected_knocks
member missing_knocks m = m.missing_knocks
member malformed_knocks m = m.malformed_knocks
member accepted_logins m = m.accepted_logins
member rejected_logins m = m.rejected_logins
member malformed_logins m = m.malformed_logins
member delayed_connections m = m.delayed_connections
member client_bytes m = m.client_bytes
member server_bytes m = m.server_bytes

-- The two members that also go down.
abbrev pub kind_of : Metric → Kind
kind_of client_connections = gauge
kind_of server_connections = gauge
kind_of _ = counter

-- Whatever the metrics are, the answer has for each of them one line with its name, and that line has
-- its value; and one line that tells its kind, which is a gauge for the numbers of connections that
-- are open and a counter for all others.
pub on_prometheus_exporter_request-values :
    (k : Metric) (m : Metrics)
    → (values (name k) (on_prometheus_exporter_request m) ≡ member k m ∷ [])
      × (kinds (name k) (on_prometheus_exporter_request m) ≡ kind_of k ∷ [])
unfolding on_prometheus_exporter_request
on_prometheus_exporter_request-values client_connections m = (refl, refl)
on_prometheus_exporter_request-values server_connections m = (refl, refl)
on_prometheus_exporter_request-values client_connections_accepted m = (refl, refl)
on_prometheus_exporter_request-values server_connections_established m = (refl, refl)
on_prometheus_exporter_request-values server_connections_failed m = (refl, refl)
on_prometheus_exporter_request-values accepted_knocks m = (refl, refl)
on_prometheus_exporter_request-values rejected_knocks m = (refl, refl)
on_prometheus_exporter_request-values missing_knocks m = (refl, refl)
on_prometheus_exporter_request-values malformed_knocks m = (refl, refl)
on_prometheus_exporter_request-values accepted_logins m = (refl, refl)
on_prometheus_exporter_request-values rejected_logins m = (refl, refl)
on_prometheus_exporter_request-values malformed_logins m = (refl, refl)
on_prometheus_exporter_request-values delayed_connections m = (refl, refl)
on_prometheus_exporter_request-values client_bytes m = (refl, refl)
on_prometheus_exporter_request-values server_bytes m = (refl, refl)

-- Whatever happens to a server after `run` has started it, the answer tells under
-- "uologin_client_connections" and "uologin_server_connections" how many connections there are, and
-- how many of them have a socket to a game server (as 64-bit integers).
pub Run-exported :
    (P : Platform) (c : Config P) (k : BootCalls) (s : Started P) (t : Server P)
    → run P c k ≡ some s
    → Run P s.server t
    → let answer = on_prometheus_exporter_request t.instance_.metrics in
      (values "uologin_client_connections" answer ≡ u64 (length t.connections) ∷ [])
      × (values "uologin_server_connections" answer ≡ u64 (servers_of P t.connections) ∷ [])
Run-exported P c k s t h r =
    let v = Run-IsCounted P (run-IsCounted P c k s h) r in
    let m = t.instance_.metrics in
    (
      (on_prometheus_exporter_request-values client_connections m).0 ∙ ap (λ n. n ∷ []) v.clients,
      (on_prometheus_exporter_request-values server_connections m).0 ∙ ap (λ n. n ∷ []) v.servers,
    )
