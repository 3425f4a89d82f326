-- ===== src/Exporter.antt =====
-- What the server tells Prometheus: `OnPrometheusExporterRequest` of src/Instance.cxx.
pub mod Values
use uologin.Prelude.{ℕ, ◌≡◌, Bool, true, false, List, [], ◌∷◌, if◌then◌else◌}
use uologin.Instance.{Metrics}
use Prim.Native.String.{String}
use text.Mathlib.Text.{◌==◌}

pub data Kind : Type 0 where
  gauge counter : Kind

-- A line of the format string: a comment with the help or the kind of a metric, or its name followed
-- by the place of an argument.
pub data Piece : Type 0 where
  blank : Piece
  help : String → String → Piece
  kind : String → Kind → Piece
  sample : String → Piece

-- A line of the answer.
pub data Line : Type 0 where
  comment : Piece → Line
  value : String → ℕ → Line

template : List Piece
template =
    blank
    ∷ help "uologin_client_connections" "Current number of connections from clients"
    ∷ kind "uologin_client_connections" gauge
    ∷ blank
    ∷ help "uologin_server_connections" "Current number of connections to servers"
    ∷ kind "uologin_server_connections" gauge
    ∷ blank
    ∷ help "uologin_client_connections_accepted" "Counter for connections accepted from clients"
    ∷ kind "uologin_client_connections_accepted" counter
    ∷ blank
    ∷ help "uologin_server_connections_established" "Counter for connections established to servers"
    ∷ kind "uologin_server_connections_established" counter
    ∷ blank
    ∷ help "uologin_server_connections_failed" "Counter for failures to connect to servers"
    ∷ kind "uologin_server_connections_failed" counter
    ∷ blank
    ∷ help "uologin_accepted_knocks" "Counter for accepted UDP knocks"
    ∷ kind "uologin_accepted_knocks" counter
    ∷ blank
    ∷ help "uologin_rejected_knocks" "Counter for rejected UDP knocks"
    ∷ kind "uologin_rejected_knocks" counter
    ∷ blank
    ∷ help "uologin_missing_knocks" "Counter for TCP connections rejected due to missing UDP knock"
    ∷ kind "uologin_missing_knocks" counter
    ∷ blank
    ∷ help "uologin_malformed_knocks" "Counter for malformed UDP knock packets"
    ∷ kind "uologin_malformed_knocks" counter
    ∷ blank
    ∷ help "uologin_accepted_logins" "Counter for accepted logins"
    ∷ kind "uologin_accepted_logins" counter
    ∷ blank
    ∷ help "uologin_rejected_logins" "Counter for rejected logins"
    ∷ kind "uologin_rejected_logins" counter
    ∷ blank
    ∷ help "uologin_malformed_logins" "Counter for malformed logins"
    ∷ kind "uologin_malformed_logins" counter
    ∷ blank
    ∷ help "uologin_delayed_connections" "Counter for delayed connections"
    ∷ kind "uologin_delayed_connections" counter
    ∷ blank
    ∷ help "uologin_client_bytes" "Counter for bytes forwarded from clients to servers"
    ∷ kind "uologin_client_bytes" counter
    ∷ blank
    ∷ help "uologin_server_bytes" "Counter for bytes forwarded from servers to clients"
    ∷ kind "uologin_server_bytes" counter
    ∷ blank
    ∷ sample "uologin_client_connections"
    ∷ sample "uologin_server_connections"
    ∷ blank
    ∷ sample "uologin_client_connections_accepted"
    ∷ sample "uologin_server_connections_established"
    ∷ sample "uologin_server_connections_failed"
    ∷ blank
    ∷ sample "uologin_accepted_knocks"
    ∷ sample "uologin_rejected_knocks"
    ∷ sample "uologin_missing_knocks"
    ∷ sample "uologin_malformed_knocks"
    ∷ sample "uologin_accepted_logins"
    ∷ sample "uologin_rejected_logins"
    ∷ sample "uologin_malformed_logins"
    ∷ sample "uologin_delayed_connections"
    ∷ blank
    ∷ sample "uologin_client_bytes"
    ∷ sample "uologin_server_bytes"
    ∷ []

arguments : Metrics → List ℕ
arguments m =
    m.client_connections ∷ m.server_connections ∷ m.client_connections_accepted
    ∷ m.server_connections_established ∷ m.server_connections_failed ∷ m.accepted_knocks
    ∷ m.rejected_knocks ∷ m.missing_knocks ∷ m.malformed_knocks ∷ m.accepted_logins
    ∷ m.rejected_logins ∷ m.malformed_logins ∷ m.delayed_connections ∷ m.client_bytes
    ∷ m.server_bytes ∷ []

-- `fmt::format` puts the arguments at the places in their order. Without an argument it throws; then
-- the answer ends here.
abbrev format : List Piece → List ℕ → List Line
format [] args = []
format (sample name ∷ ps) [] = []
format (sample name ∷ ps) (n ∷ args) = value name n ∷ format ps args
format (blank ∷ ps) args = comment blank ∷ format ps args
format (help name text ∷ ps) args = comment (help name text) ∷ format ps args
format (kind name k ∷ ps) args = comment (kind name k) ∷ format ps args

pub on_prometheus_exporter_request : Metrics → List Line
unfolding template arguments
on_prometheus_exporter_request m = format template (arguments m)

-- What a reader of the answer finds under a name.
abbrev pub values : String → List Line → List ℕ
values name [] = []
values name (value n v ∷ ls) = if n == name then v ∷ values name ls else values name ls
values name (comment p ∷ ls) = values name ls

abbrev pub kinds : String → List Line → List Kind
kinds name [] = []
kinds name (comment (kind n k) ∷ ls) = if n == name then k ∷ kinds name ls else kinds name ls
kinds name (_ ∷ ls) = kinds name ls
