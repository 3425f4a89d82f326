-- ===== src/Connection/Well/Logins.antt =====
-- The login handlers keep a connection well.
use uologin.Prelude.{
  ℕ, ◌+◌, ◌-◌, ◌%◌, ◌≤◌, ◌≡◌, ◌∙◌, refl, ap, sym, not, ◌&&◌, arith, length-take, Bool, true, false,
  Option, none, some, List, [], ◌∷◌, length, ltb,
}
use uologin.Accounting.{is_empty}
use uologin.External.{Platform}
use uologin.Config.{GameServerConfig}
use uologin.Database.{Check, check_thrown, accepted_now, queued}
use uologin.Wire.{sizeof_initial_packets}
use uologin.Instance.{Instance}
use uologin.Connection.{
  Fault, initial, check_credentials, server_list, connecting, Connection, start_connect, alive,
}
use uologin.Connection.Login.{
  LoginCalls, is_check_credentials, is_complete, read_no_wait, reject, start_connecting,
  send_server_list, accept_login, on_check_credentials, after_check, process_login, append_received,
  received_login, choose_server, received_play_server,
}
use uologin.Connection.Well.{
  Well, IsListed, Stays, lives, emit-Stays, destroy-Stays, branch-Stays, tested-Stays, passed,
}

-- What was read fits into the space behind the first `fill` bytes.
abbrev pub Fits : ℕ → Option (List ℕ) → Type 0
Fits fill none = Unit {0}
Fits fill (some bytes) = fill + length bytes ≤ sizeof_initial_packets

pub read_no_wait-Fits :
    (fill : ℕ) (o : Option (List ℕ))
    → ltb fill sizeof_initial_packets ≡ true
    → Fits fill (read_no_wait (sizeof_initial_packets - fill) o)
unfolding read_no_wait
read_no_wait-Fits fill none h = tt
read_no_wait-Fits fill (some bytes) h =
    ground (arith, length-take (sizeof_initial_packets - fill) bytes)

module _ (P : Platform) (B : Type 0) where
  open P use {is_defined}

  module _ (F : Fault → Type 0) where
    ruleset stays = (emit-Stays, destroy-Stays, branch-Stays)

    reject-Stays : (b : Bool) (i : Instance P) (c : Connection P) → Stays P B F (reject P b i c)
    unfolding reject
    reject-Stays b i c = search (stays)

    accept_login-Stays :
        (b : Bool) (i : Instance P) (c : Connection P)
        → Well P B check_credentials c
        → c.cancel_ptr ≡ none
        → IsListed P B i
        → Stays P B F (accept_login P b i c)
    unfolding accept_login send_server_list start_connecting
    accept_login-Stays b i c (before, pending, timer, full, opened) n l =
        tested-Stays P B F (is_empty i.config.server_list) _ _ (λ e. dialled e i.config.game_server)
          (λ e. sent e b)
      where
        still_open : is_defined (P.schedule_read c.incoming) ≡ true
        still_open = P.schedule_read_defined c.incoming ∙ opened

        dialled :
            (is_empty i.config.server_list ≡ true)
            → (a : P.Address)
            → Stays P B F (
                alive i
                  (record c {
                    state = connecting;
                    incoming = P.schedule_read c.incoming;
                    outgoing_address = some a;
                    connect_pending = true;
                  })
                  (start_connect a ∷ []))
        dialled e a = lives connecting refl (before, n, timer, (λ x. cc (l.0 x)), full, still_open)

        listed :
            (is_empty i.config.server_list ≡ false)
            → (d : ℕ)
            → Stays P B F (
                alive i
                  (record c {
                    state = server_list;
                    incoming = P.schedule_read c.incoming;
                    timeout = P.schedule d c.timeout;
                  })
                  [])
        listed e d =
            lives server_list refl
              (before, pending, n, P.schedule_lem d c.timeout, full, still_open, l.1 e)

        asserted :
            (is_empty i.config.server_list ≡ false)
            → (is_complete c && not (is_empty i.config.server_list)) ≡ true
        asserted e = ground (arith, e, full)

        sent :
            (is_empty i.config.server_list ≡ false)
            → (b : Bool) → Stays P B F (send_server_list P b i c)
        sent e b = search (passed, asserted e, stays, listed e)

    pub on_check_credentials-Stays :
        (result b : Bool) (i : Instance P) (c : Connection P)
        → c.state ≡ check_credentials
        → Well P B check_credentials c
        → IsListed P B i
        → Stays P B F (on_check_credentials P result b i c)
    unfolding on_check_credentials
    on_check_credentials-Stays result b i c e w l = answered result
      where
        known : is_check_credentials c.state ≡ true
        known = rw e refl

        let_in :
            (j : Instance P)
            → j.config ≡ i.config
            → Stays P B F (accept_login P b j (record c { cancel_ptr = none }))
        let_in j same =
            accept_login-Stays b j (record c { cancel_ptr = none }) w refl
              (
                (λ x. ap (λ k. is_empty k.server_list) same ∙ l.0 x),
                (λ e. l.1 (ap (λ k. is_empty k.server_list) (sym same) ∙ e)),
              )

        answered : (result : Bool) → Stays P B F (on_check_credentials P result b i c)
        answered true = search (passed, known, let_in)
        answered false = search (passed, known, reject-Stays)

    after_check-Stays :
        (b : Bool) (c : Connection P) (i : Instance P) (k : Check)
        → c.state ≡ check_credentials
        → Well P B check_credentials c
        → IsListed P B i
        → Stays P B F (after_check P b c i k)
    unfolding after_check
    after_check-Stays b c i (check_thrown e) s w l = reject-Stays b _ c
    after_check-Stays b c i accepted_now s w l = on_check_credentials-Stays true b i c s w l
    after_check-Stays b c i (queued j) s w l = lives check_credentials s w

    process_login-Stays :
        (k : LoginCalls) (i : Instance P) (c : Connection P)
        → Well P B check_credentials c
        → IsListed P B i
        → Stays P B F (process_login P k i c)
    unfolding process_login
    process_login-Stays k i c w l = search (stays, reject-Stays, checked)
      where
        checked :
            (b : Bool) (j : Instance P) (k : Check)
            → j.config ≡ i.config
            → Stays P B F (after_check P b (record c { state = check_credentials }) j k)
        checked b j k same = after_check-Stays b _ j k refl w (
          (λ x. ap (λ m. is_empty m.server_list) same ∙ l.0 x),
          (λ e. l.1 (ap (λ m. is_empty m.server_list) (sym same) ∙ e)),
        )

    pub received_login-Stays :
        (k : LoginCalls) (i : Instance P) (c : Connection P) (o : Option (List ℕ))
        → c.state ≡ initial
        → Well P B initial c
        → IsListed P B i
        → Fits c.initial_packets_fill o
        → Stays P B F (received_login P k i c o)
    unfolding received_login append_received
    received_login-Stays k i c none s w l fits = destroy-Stays P B F i c
    received_login-Stays k i c (some []) s w l fits = destroy-Stays P B F i c
    received_login-Stays k i c (some (b ∷ bs)) s (before, pending, n, timer, fill, opened) l fits =
        tested-Stays P B F
          (ltb ((c.initial_packets_fill + length (b ∷ bs)) % 256) sizeof_initial_packets) _ _
          (λ e. lives initial s (before, pending, n, timer, e, opened))
          (λ e.
            process_login-Stays k i _
              (
                before,
                pending,
                P.cancel_lem c.timeout,
                ground (arith, e, fits),
                P.cancel_read_defined c.incoming ∙ opened,
              )
              l)

    choose_server-Stays :
        (i : Instance P) (c : Connection P) (o : Option (GameServerConfig P))
        → Well P B server_list c
        → Stays P B F (choose_server P i c o)
    unfolding choose_server start_connecting
    choose_server-Stays i c none w = destroy-Stays P B F i c
    choose_server-Stays i c (some g) (before, pending, n, timer, full, opened, _) =
        lives connecting refl (
          before,
          n,
          P.cancel_lem c.timeout,
          (λ x. refl),
          full,
          P.cancel_read_defined c.incoming ∙ opened,
        )

    pub received_play_server-Stays :
        (i : Instance P) (c : Connection P) (o : Option (List ℕ))
        → Well P B server_list c
        → Stays P B F (received_play_server P i c o)
    unfolding received_play_server
    received_play_server-Stays i c none w = destroy-Stays P B F i c
    received_play_server-Stays i c (some packet) w = search (stays, choose_server-Stays, w)
