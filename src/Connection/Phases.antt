-- ===== src/Connection/Phases.antt =====
-- What a client must do before a connection to a game server is made for it.
use uologin.Prelude.{
  ℕ, ◌≡◌, ◌⊎◌, inl, inr, refl, Bool, true, false, Option, none, some, List, [], ◌∷◌, arith, length,
  get_elem?,
}
use uologin.External.{Platform}
use uologin.Database.{Job, Check, queued, accepted_now, check_thrown}
use uologin.Database
use uologin.Wire.{
  ExpectedPackets, expected_packets, extract_string, is_valid_username, account_login_reject, slice,
  byte_at, sizeof_play_server,
}
use uologin.Wire.Command
use uologin.Config.{GameServerConfig}
use uologin.Instance.{Instance, inc}
use uologin.Connection.{
  check_credentials, connecting, Connection, Effect, to_client, start_job, start_connect, Outcome,
  alive, destroyed, crashed, destroy, assertion,
}
use uologin.Connection.Transfer.{Ready, Calls}
use uologin.Connection.Login.{LoginCalls, process_login, on_check_credentials, receive_play_server}
use uologin.Connection.Ready.{on_incoming_ready}

module _ (P : Platform) where
  open P use {read_pending, schedule_read_read, cancel_read_read, from_be16}

  -- No connect is started.
  abbrev pub IsQuiet : List (Effect P) → Type 0
  IsQuiet [] = Unit {0}
  IsQuiet (start_connect a ∷ es) = ⊥
  IsQuiet (_ ∷ es) = IsQuiet es

  abbrev pub Rejects : Instance P → Outcome P → Type 0
  Rejects i (destroyed j (to_client bytes ∷ es)) =
      (bytes ≡ Command.account_login_reject ∷ 3 ∷ [])
      × IsQuiet es
      × (j.metrics.rejected_logins ≡ inc i.metrics.rejected_logins)
  Rejects i _ = ⊥

  -- A wrong password ends a connection that waits for the check: the client is sent
  -- AccountLoginReject with the reason "bad password", the login is counted as rejected, and no
  -- connect to a game server is started.
  pub on_check_credentials-Rejects :
      (send_ok : Bool) (i : Instance P) (c : Connection P)
      → c.state ≡ check_credentials
      → Rejects i (on_check_credentials P false send_ok i c)
  unfolding on_check_credentials destroy account_login_reject
  on_check_credentials-Rejects send_ok i c s = ground arith

  -- Once the login packets are complete, the connection goes on only in one of two ways: a job checks
  -- the password of the user whose name and password are in the packets, and that name is valid; or
  -- the database needs no check.
  pub process_login_cases :
      (k : LoginCalls) (i j : Instance P) (c d : Connection P) (es : List (Effect P))
      → process_login P k i c ≡ alive j d es
      → let packets = expected_packets c.initial_packets in
        let username = extract_string packets.login.credentials.username in
        let password = extract_string packets.login.credentials.password in
        let check = (Database.check_credentials username password k.files i.database).1 in
        (packets.seed.cmd ≡ Command.seed)
        × (packets.login.cmd ≡ Command.account_login)
        × (is_valid_username P username ≡ true)
        × (((job : Job) × (check ≡ queued job)
              × (es ≡ start_job job ∷ [])
              × (d.cancel_ptr ≡ some job)
              × (d.state ≡ check_credentials))
            ⊎ (check ≡ accepted_now))
  unfolding process_login destroy
  process_login_cases k i j c d es h = (ground arith, ground arith, ground arith, checked _ refl)
    where
      packets : ExpectedPackets
      packets = expected_packets c.initial_packets

      check : Check
      check =
          (Database.check_credentials (extract_string packets.login.credentials.username)
            (extract_string packets.login.credentials.password) k.files i.database).1

      checked :
          (r : Check)
          → check ≡ r
          → ((job : Job) × (check ≡ queued job)
              × (es ≡ start_job job ∷ [])
              × (d.cancel_ptr ≡ some job)
              × (d.state ≡ check_credentials))
            ⊎ (check ≡ accepted_now)
      checked (queued job) e = inl (job, e, ground arith, ground arith, ground arith)
      checked accepted_now e = inr e
      checked (check_thrown x) e = absurd (ground arith)

  -- After PlayServer the connection goes on only to a server of the list: the packet has three
  -- bytes and names the server by its index, reading from the client is stopped, and a connect to
  -- the server's address is started.
  pub receive_play_server_cases :
      (k : LoginCalls) (i j : Instance P) (c d : Connection P) (es : List (Effect P))
      → receive_play_server P k i c ≡ alive j d es
      → (packet : List ℕ) × (server : GameServerConfig P) × (k.received ≡ some packet)
        × (length packet ≡ sizeof_play_server)
        × (byte_at packet 0 ≡ Command.play_server)
        × (get_elem? i.config.server_list (from_be16 (slice 1 2 packet)) ≡ some server)
        × (es ≡ start_connect server.address ∷ [])
        × (d.state ≡ connecting)
        × (d.play_server_wanted ≡ true)
        × (read_pending d.incoming ≡ false)
  unfolding receive_play_server destroy
  receive_play_server_cases k i j c d es h = received k.received refl
    where
      Answer : Type 0
      Answer =
          (packet : List ℕ) × (server : GameServerConfig P) × (k.received ≡ some packet)
          × (length packet ≡ sizeof_play_server)
          × (byte_at packet 0 ≡ Command.play_server)
          × (get_elem? i.config.server_list (from_be16 (slice 1 2 packet)) ≡ some server)
          × (es ≡ start_connect server.address ∷ [])
          × (d.state ≡ connecting)
          × (d.play_server_wanted ≡ true)
          × (read_pending d.incoming ≡ false)

      found :
          (packet : List ℕ) (o : Option (GameServerConfig P))
          → k.received ≡ some packet
          → get_elem? i.config.server_list (from_be16 (slice 1 2 packet)) ≡ o
          → Answer
      found packet none e f = absurd (ground arith)
      found packet (some server) e f = (
        packet,
        server,
        e,
        ground arith,
        ground arith,
        f,
        ground arith,
        ground arith,
        ground arith,
        ground (arith, cancel_read_read c.incoming),
      )

      received : (o : Option (List ℕ)) → k.received ≡ o → Answer
      received none e = absurd (ground arith)
      received (some packet) e = found packet _ e refl

  -- Without a server list, a connection that goes on after an accepted login reads from the client
  -- while the connect is under way: the assertion of `OnIncomingReady` fails at the next event that
  -- is no hang-up.
  pub early_data_asserts :
      (send_ok : Bool) (i i' j : Instance P) (c d : Connection P) (es : List (Effect P))
      (ev : Ready) (l : LoginCalls) (k : Calls)
      → i.config.server_list ≡ []
      → on_check_credentials P true send_ok i c ≡ alive j d es
      → ev.dead ≡ false
      → (read_pending d.incoming ≡ true) × (on_incoming_ready P ev l k i' d ≡ crashed assertion)
  unfolding on_check_credentials on_incoming_ready
  early_data_asserts send_ok i i' j c d es ev l k e h dead =
      (ground (arith, schedule_read_read c.incoming), ground arith)
