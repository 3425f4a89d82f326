-- ===== src/Accounting/Delay.antt =====
-- The tarpit: how the delay of a client grows and falls.
use uologin.Prelude.{
  ℕ, ◌+◌, ◌*◌, ◌%◌, ◌≤◌, ◌<◌, ◌≡◌, refl, Bool, true, false, List, [], ◌∷◌, arith, min, length, ◌⊎◌,
  ◌⊎◌,
}
use uologin.External.{Platform}
use uologin.Accounting.{
  PerClient, new_client, update_token_bucket, delay_step, max_delay, tarpit_for,
}

module _ (P : Platform) where
  open P use {float, lt_zero, to_float_seconds, update}

  -- Whether the token bucket of a client goes below zero by an update.
  unfoldable pub is_over : ℕ → ℕ → PerClient P → Bool
  is_over now size c =
      lt_zero (update (float 1) (float 10) (to_float_seconds now) (float size) c.token_bucket).0

  -- The delay is a number of steps of 100 ms, and at most a minute.
  pub record IsPaced (c : PerClient P) : Type 0 where
    pub stepped : c.delay % delay_step ≡ 0
    pub capped : c.delay ≤ max_delay

  pub new_client-IsPaced : (a : ℕ) → IsPaced (new_client P a)
  unfolding new_client
  new_client-IsPaced a = record { stepped = refl; capped = omega arith }

  -- An update keeps the delay of a client a multiple of 100 ms, and at most a minute.
  pub update_token_bucket-IsPaced :
      (tarpit : Bool) (now size : ℕ) (c : PerClient P)
      → IsPaced c
      → IsPaced (update_token_bucket P tarpit now size c)
  unfolding update_token_bucket
  update_token_bucket-IsPaced false now size c v = v
  update_token_bucket-IsPaced true now size c v = ground arith

  -- Every branch of an update with the tarpit on. Over the limit, the client is kept in the tarpit
  -- for a minute from now, its delay grows by a step up to a minute, and its knock is forgotten.
  -- Within the limit, the delay falls by a step, but not to zero, while the client is in the tarpit,
  -- and is cleared after that; the knock and the end of the tarpit stay.
  pub update_token_bucket_cases :
      (now size : ℕ) (c : PerClient P)
      → let d = update_token_bucket P true now size c in
        ((is_over now size c ≡ true)
          × (d.tarpit_until ≡ now + tarpit_for)
          × (d.knocked ≡ false)
          × (((c.delay < max_delay) × (d.delay ≡ c.delay + delay_step))
              ⊎ ((max_delay ≤ c.delay) × (d.delay ≡ c.delay))))
        ⊎ ((is_over now size c ≡ false)
            × (d.tarpit_until ≡ c.tarpit_until)
            × (d.knocked ≡ c.knocked)
            × (((now < c.tarpit_until) × (delay_step < c.delay) × (d.delay + delay_step ≡ c.delay))
                ⊎ ((now < c.tarpit_until) × (c.delay ≤ delay_step) × (d.delay ≡ c.delay))
                ⊎ ((c.tarpit_until ≤ now) × (d.delay ≡ 0))))
  unfolding update_token_bucket is_over
  update_token_bucket_cases now size c = ground arith

  -- A series of updates, each a time and a size.
  pub updates : List (ℕ × ℕ) → PerClient P → PerClient P
  updates [] c = c
  updates ((now, size) ∷ es) c = updates es (update_token_bucket P true now size c)

  abbrev pub AllOver : List (ℕ × ℕ) → PerClient P → Type 0
  AllOver [] c = Unit {0}
  AllOver ((now, size) ∷ es) c =
      (is_over now size c ≡ true) × AllOver es (update_token_bucket P true now size c)

  over-delay :
      (now size : ℕ) (c : PerClient P)
      → IsPaced c
      → is_over now size c ≡ true
      → (update_token_bucket P true now size c).delay ≡ min (c.delay + delay_step) max_delay
  unfolding update_token_bucket is_over
  over-delay now size c v h = ground arith

  -- A client that is over the limit in `n` updates in a row is delayed by `n` steps more, up to a
  -- minute, if its delay was a multiple of 100 ms and at most a minute.
  pub updates_over :
      (es : List (ℕ × ℕ)) (c : PerClient P)
      → IsPaced c
      → AllOver es c
      → (updates es c).delay ≡ min (c.delay + length es * delay_step) max_delay
  unfolding updates
  updates_over [] c v h = omega (arith, v.capped)
  updates_over ((now, size) ∷ es) c v (over, rest) = omega (
    arith,
    over-delay now size c v over,
    updates_over es (update_token_bucket P true now size c)
        (update_token_bucket-IsPaced true now size c v) rest,
  )
