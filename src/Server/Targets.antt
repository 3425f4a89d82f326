-- ===== src/Server/Targets.antt =====
-- Which game servers the whole server dials.
use uologin.Prelude.{ℕ, ◌≡◌, ◌∙◌, refl, sym, ap, Bool, Option, none, some, List, All, arith}
use uologin.External.{Platform}
use uologin.Instance.{Instance}
use uologin.Connection.{Connection, Effect, Outcome, alive, destroyed, new}
use uologin.Connection.Gate.{dialled}
use uologin.Connection.Targets.{
  IsTarget, effects_of, IsConfigured, Aims, goes_on, leaves, Aims-effects, on_incoming_ready-Aims,
  on_outgoing_ready-Aims, on_check_credentials-Aims, on_socket_connect_success-Aims,
  on_socket_connect_error-Aims, on_timeout-Aims,
}
use uologin.Config.{Config}
use uologin.Listener.{
  Accepted, DelayedConnection, dropped, delayed, connected, on_accept, on_timer, on_socket_ready,
}
use uologin.Knock.{Request, on_udp_datagram}
use uologin.Knock
use uologin.Database.{Files}
use uologin.Server.{
  Server, Handles, incoming_ready, outgoing_ready, credentials_checked, connect_success,
  connect_error, timeout, Changes, after_knock, datagram, knock_answered, cleaned, time_passed,
  Step, accepted_dropped, accepted_delayed, accepted, delay_over, delayed_left, kept, closed,
  changed, Run, here, next,
}

module _ (P : Platform) where
  Handles-Aims :
      (g : Config P) {i : Instance P} {c : Connection P} {o : Outcome P}
      → IsConfigured P g i
      → Handles P i c o
      → Aims P g o
  Handles-Aims g {i} {c} h (incoming_ready ev l k) = on_incoming_ready-Aims P g ev l k i c h
  Handles-Aims g {i} {c} h (outgoing_ready ev s k) = on_outgoing_ready-Aims P g ev s k i c h
  Handles-Aims g {i} {c} h (credentials_checked result send_ok) =
      on_check_credentials-Aims P g result send_ok i c h
  Handles-Aims g {i} {c} h (connect_success sent) = on_socket_connect_success-Aims P g sent i c h
  Handles-Aims g {i} {c} h connect_error = on_socket_connect_error-Aims P g i c h
  Handles-Aims g {i} {c} h timeout = on_timeout-Aims P g i c h

  abbrev instance_of : Accepted P → Instance P
  instance_of (dropped j) = j
  instance_of (delayed j d) = j
  instance_of (connected j c) = j

  on_accept-config :
      (id : ℕ) (a : P.Address) (i : Instance P)
      → (instance_of (on_accept P id a i)).config ≡ i.config
  unfolding on_accept new
  on_accept-config id a i = ground arith

  on_timer-config :
      (id : ℕ) (d : DelayedConnection P) (i : Instance P) → (on_timer P id d i).0.config ≡ i.config
  unfolding on_timer new
  on_timer-config id d i = ground arith

  on_socket_ready-config :
      (d : DelayedConnection P) (i : Instance P) → (on_socket_ready P d i).config ≡ i.config
  unfolding on_socket_ready
  on_socket_ready-config d i = refl

  abbrev Keeps : Instance P → Option (Instance P) → Type 0
  Keeps i none = Unit {0}
  Keeps i (some j) = j.config ≡ i.config

  on_udp_datagram-Keeps :
      (w : Files) (set : Option (List ℕ)) (payload : List ℕ) (a : P.Address) (i : Instance P)
      → Keeps i (after_knock P (on_udp_datagram P w set payload a i))
  unfolding on_udp_datagram
  on_udp_datagram-Keeps w set payload a i = ground arith

  on_check_credentials-Keeps :
      (r : Request P) (result : Bool) (i : Instance P)
      → Keeps i (after_knock P (Knock.on_check_credentials P r result i))
  unfolding Knock.on_check_credentials
  on_check_credentials-Keeps r result i = ground arith

  kept_of :
      (i : Instance P) {j : Instance P} (o : Option (Instance P))
      → Keeps i o
      → o ≡ some j
      → j.config ≡ i.config
  kept_of i none k e = cc
  kept_of i (some j) k e = cc

  Changes-config : {i j : Instance P} → Changes P i j → j.config ≡ i.config
  Changes-config {i} (datagram j w set payload a e) =
      kept_of i _ (on_udp_datagram-Keeps w set payload a i) e
  Changes-config {i} (knock_answered j r result e) =
      kept_of i _ (on_check_credentials-Keeps r result i) e
  Changes-config cleaned = refl
  Changes-config (time_passed now) = refl

  alive_config :
      (g : Config P) {j : Instance P} {d : Connection P} {es : List (Effect P)}
      → Aims P g (alive j d es)
      → j.config ≡ g
  alive_config g (goes_on h a) = h

  destroyed_config :
      (g : Config P) {j : Instance P} {es : List (Effect P)}
      → Aims P g (destroyed j es)
      → j.config ≡ g
  destroyed_config g (leaves h a) = h

  Step-config : {s t : Server P} → Step P s t → t.instance_.config ≡ s.instance_.config
  Step-config (accepted_dropped {i} id a j e) =
      sym (ap (λ o. (instance_of o).config) e) ∙ on_accept-config id a i
  Step-config (accepted_delayed {i} id a j d e) =
      sym (ap (λ o. (instance_of o).config) e) ∙ on_accept-config id a i
  Step-config (accepted {i} id a j c e) =
      sym (ap (λ o. (instance_of o).config) e) ∙ on_accept-config id a i
  Step-config (delay_over {i} before after d id) = on_timer-config id d i
  Step-config (delayed_left {i} before after d) = on_socket_ready-config d i
  Step-config (kept {i} before after c d j es h) =
      alive_config i.config (Handles-Aims i.config refl h)
  Step-config (closed {i} before after c j es h) =
      destroyed_config i.config (Handles-Aims i.config refl h)
  Step-config (changed j h) = Changes-config h

  pub Run-config : {s t : Server P} → Run P s t → t.instance_.config ≡ s.instance_.config
  Run-config here = refl
  Run-config (next r h) = Step-config h ∙ Run-config r

  -- Whatever a handler of a connection dials after any run is an address that the configuration at the
  -- start of the run names.
  pub Run-targets :
      (g : Config P) {s t : Server P} {c : Connection P} {o : Outcome P}
      → s.instance_.config ≡ g
      → Run P s t
      → Handles P t.instance_ c o
      → All (IsTarget P g.game_server g.server_list) (dialled P (effects_of o))
  Run-targets g e r h = Aims-effects P g _ (Handles-Aims g (Run-config r ∙ e) h)
