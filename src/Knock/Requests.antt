-- ===== src/Knock/Requests.antt =====
-- What a knock does to the accounting of its sender.
use uologin.Prelude.{
  arith, ◌⊎◌, inl, inr, ℕ, ◌≡◌, ◌≢◌, refl, Bool, true, false, Option, none, some, List, length, ◌∙◌,
  ap,
}
use uologin.External.{Platform}
use uologin.Accounting.{PerClient, account, find, get, to_integer, update_token_bucket}
use uologin.Accounting.Clients.{
  find-account, find-set_knocked, find-set_knocked_other, find-account_other,
}
use uologin.Accounting.Keys.{get_settings, or_new, get_lem}
use uologin.Database.{Files, Error, maybe_auto_reload}
use uologin.Database.Reload.{check_credentials_throws}
use uologin.Wire.{parse_login, extract_string, is_valid_username, sizeof_account_login}
use uologin.Wire.Command
use uologin.Instance.{Instance, inc}
use uologin.Knock.{
  Request, Knocked, ignored, pending, answered, leaked, terminated, on_check_credentials,
  on_udp_datagram, answer, process_knock, malformed, with_accounting, start_request,
}

module _ (P : Platform) where
  -- The accounting of the peer `x`, as `Get` finds or makes it.
  abbrev pub peer : ℕ → Instance P → PerClient P
  peer x i = or_new P x (find P x i.client_accounting.clients)

  -- What the answer to a knock of the peer `x` does, with another peer `b`: `i` is the instance before it.
  abbrev pub Answers : ℕ → ℕ → Instance P → Bool → Knocked P → Type 0
  Answers x b i true (answered j e) =
      (j.metrics.accepted_knocks ≡ inc i.metrics.accepted_knocks)
      × (find P x j.client_accounting.clients ≡ some (record (peer x i) { knocked = true }))
      × (find P b j.client_accounting.clients ≡ find P b i.client_accounting.clients)
  Answers x b i false (answered j e) =
      (j.metrics.rejected_knocks ≡ inc i.metrics.rejected_knocks)
      × (e ≡ none)
      × (find P x j.client_accounting.clients
          ≡ some (update_token_bucket P i.client_accounting.tarpit i.now 5 (peer x i)))
      × (find P b j.client_accounting.clients ≡ find P b i.client_accounting.clients)
  Answers x b i result (ignored j) = ⊥
  Answers x b i result (pending j r k) = ⊥
  Answers x b i result (leaked j) = ⊥
  Answers x b i result terminated = ⊥

  -- The answer to a knock of a peer with accounting marks the peer as knocked, or charges it five
  -- tokens and adds no host to the nftables set; it is counted, and the accounting of every other
  -- peer stays the same.
  pub on_check_credentials_lem :
      (r : Request P) (result : Bool) (i : Instance P) (b : ℕ)
      → to_integer P r.address ≢ 0
      → b ≢ to_integer P r.address
      → Answers (to_integer P r.address) b i result (on_check_credentials P r result i)
  unfolding on_check_credentials answer
  on_check_credentials_lem r true i b h n =
      let (e, f, other, _) = get_lem P r.address i.client_accounting h in
      let x = to_integer P r.address in
      let m = (get P r.address i.client_accounting).0 in
      rw e (refl, find-set_knocked P x m (peer x i) f, find-set_knocked_other P x b m n ∙ other b n)
  on_check_credentials_lem r false i b h n =
      let (e, f, other, _) = get_lem P r.address i.client_accounting h in
      let x = to_integer P r.address in
      let m = (get P r.address i.client_accounting).0 in
      rw e (
        refl,
        refl,
        find-account P i.now 5 x m (peer x i) f
            ∙ ap (λ t. some (update_token_bucket P t i.now 5 (peer x i)))
                (get_settings P r.address i.client_accounting).0,
        find-account_other P i.now 5 x b m n ∙ other b n,
      )

  -- If the reload of the database fails, a well-formed knock of a peer with accounting ends the
  -- process: the constructor of `Request` may not throw.
  pub failed_reload_terminates :
      (w : Files) (set : Option (List ℕ)) (payload : List ℕ) (a : P.Address) (i : Instance P)
      (e : Error)
      → to_integer P a ≢ 0
      → length payload ≡ sizeof_account_login
      → (parse_login 0 payload).cmd ≡ Command.account_login
      → is_valid_username P (extract_string (parse_login 0 payload).credentials.username) ≡ true
      → i.database.auto_reload ≡ true
      → (maybe_auto_reload i.database w).1 ≡ some e
      → on_udp_datagram P w set payload a i ≡ terminated
  unfolding on_udp_datagram with_accounting process_knock start_request
  failed_reload_terminates w set payload a i e h l k v r f =
      let u = extract_string (parse_login 0 payload).credentials.username in
      let p = extract_string (parse_login 0 payload).credentials.password in
      rw
        (
          (get_lem P a i.client_accounting h).0,
          l,
          k,
          v,
          check_credentials_throws u p w i.database e r f,
        )
        refl

  abbrev pub Malformed : List ℕ → Type 0
  Malformed payload =
      (length payload ≢ sizeof_account_login)
      ⊎ ((parse_login 0 payload).cmd ≢ Command.account_login)
      ⊎ (is_valid_username P (extract_string (parse_login 0 payload).credentials.username) ≡ false)

  process_knock-Malformed :
      (w : Files) (r : Request P) (payload : List ℕ) (i : Instance P) (x : ℕ)
      → Malformed payload
      → (process_knock P w r payload i x ≡ ignored (malformed P 10 x i))
        ⊎ (process_knock P w r payload i x ≡ ignored (malformed P 8 x i))
  unfolding process_knock
  process_knock-Malformed w r payload i x m = ground arith

  -- What is left of a datagram of the peer `x` that is ignored, with another peer `b`.
  abbrev pub Ignores : ℕ → ℕ → Instance P → Knocked P → Type 0
  Ignores x b i (ignored j) =
      (j.metrics.malformed_knocks ≡ inc i.metrics.malformed_knocks)
      × (j.metrics.accepted_knocks ≡ i.metrics.accepted_knocks)
      × (j.database ≡ i.database)
      × ((find P x j.client_accounting.clients
            ≡ some (update_token_bucket P i.client_accounting.tarpit i.now 10 (peer x i)))
          ⊎ (find P x j.client_accounting.clients
              ≡ some (update_token_bucket P i.client_accounting.tarpit i.now 8 (peer x i))))
      × (find P b j.client_accounting.clients ≡ find P b i.client_accounting.clients)
  Ignores x b i (pending j r k) = ⊥
  Ignores x b i (answered j e) = ⊥
  Ignores x b i (leaked j) = ⊥
  Ignores x b i terminated = ⊥

  peer_charged :
      (a : P.Address) (i : Instance P) (n : ℕ)
      → to_integer P a ≢ 0
      → find P
          (to_integer P a)
          (account P i.now n (some (to_integer P a)) (get P a i.client_accounting).0).clients
        ≡ some (update_token_bucket P i.client_accounting.tarpit i.now n (peer (to_integer P a) i))
  peer_charged a i n h =
      find-account P i.now n (to_integer P a) (get P a i.client_accounting).0
        (peer (to_integer P a) i) (get_lem P a i.client_accounting h).1
      ∙ ap (λ t. some (update_token_bucket P t i.now n (peer (to_integer P a) i)))
          (get_settings P a i.client_accounting).0

  -- A datagram of a peer with accounting that has the wrong size or command, or no valid user name,
  -- is counted as malformed and charged to the peer with ten or eight tokens; it is no knock, the
  -- database is not asked, and the accounting of every other peer stays the same.
  pub on_udp_datagram-Ignores :
      (w : Files) (set : Option (List ℕ)) (payload : List ℕ) (a : P.Address) (i : Instance P)
      (b : ℕ)
      → to_integer P a ≢ 0
      → b ≢ to_integer P a
      → Malformed payload
      → Ignores (to_integer P a) b i (on_udp_datagram P w set payload a i)
  unfolding on_udp_datagram with_accounting malformed
  on_udp_datagram-Ignores w set payload a i b h n m =
      let (e, f, other, _) = get_lem P a i.client_accounting h in
      let x = to_integer P a in
      let c = (get P a i.client_accounting).0 in
      elim (process_knock-Malformed w (record { nft_set = set; address = a }) payload
        (record i { client_accounting = c }) x m) [
          | inl p ↦
              rw (e, p)
                (
                  refl,
                  refl,
                  refl,
                  inl (peer_charged a i 10 h),
                  find-account_other P i.now 10 x b c n ∙ other b n,
                )
          | inr p ↦
              rw (e, p)
                (
                  refl,
                  refl,
                  refl,
                  inr (peer_charged a i 8 h),
                  find-account_other P i.now 8 x b c n ∙ other b n,
                )
        ]
