-- ===== src/Wire/Initial.antt =====
-- The first 83 bytes of a client, and what is sent of them to the game server.
use uologin.Prelude.{
  ℕ, zero, suc, ◌+◌, ◌≤◌, ◌<◌, ◌≡◌, ◌≢◌, refl, sym, ap, ◌∙◌, List, [], ◌∷◌, ◌++◌, Bool, true, false,
  length, arith, take, drop, take-append-drop, append_assoc, append-nil, take-append, drop-append,
  drop-drop, ◌⊎◌, length-append, length-drop, length-take,
}
use uologin.External.{Platform}
use uologin.Wire.{
  byte_at, slice, expected_packets, parse_seed, parse_login, seed_bytes, login_bytes, concat,
  initial_vectors, sizeof_extended, remote_ip_packet, remote_ip_prefix,
}
use uologin.Wire.Command

slice-append-drop :
    (o n : ℕ) (bs : List ℕ) {m : ℕ} → m ≡ o + n → slice o n bs ++ drop m bs ≡ drop o bs
slice-append-drop o n bs {m} e =
    ap (λ k. slice o n bs ++ drop k bs) e
    ∙ ap (◌++◌ (slice o n bs)) (sym (drop-drop o n bs))
    ∙ take-append-drop n (drop o bs)

byte_at-cons : (i : ℕ) (bs : List ℕ) → i < length bs → byte_at bs i ∷ drop (suc i) bs ≡ drop i bs
byte_at-cons i [] h = absurd (omega arith)
byte_at-cons zero (b ∷ bs) h = refl
byte_at-cons (suc i) (b ∷ bs) h = byte_at-cons i bs (omega arith)

drop_all : (n : ℕ) (bs : List ℕ) → length bs ≤ n → drop n bs ≡ []
drop_all zero [] h = refl
drop_all zero (b ∷ bs) h = absurd (omega arith)
drop_all (suc n) [] h = refl
drop_all (suc n) (b ∷ bs) h = drop_all n bs (omega arith)

last_byte : (bs : List ℕ) → length bs ≡ 83 → byte_at bs 82 ∷ [] ≡ drop 82 bs
last_byte bs h =
    ap (◌∷◌ (byte_at bs 82)) (sym (drop_all 83 bs (omega arith))) ∙ byte_at-cons 82 bs (omega arith)

seed_bytes-append-drop :
    (bs : List ℕ) → length bs ≡ 83 → seed_bytes (parse_seed bs) ++ drop 21 bs ≡ bs
unfolding seed_bytes parse_seed
seed_bytes-append-drop bs h = simp append_assoc (
    rw
      (
        slice-append-drop 17 4 bs refl,
        slice-append-drop 13 4 bs refl,
        slice-append-drop 9 4 bs refl,
        slice-append-drop 5 4 bs refl,
        slice-append-drop 1 4 bs refl,
      )
      (byte_at-cons 0 bs (omega arith)))

pub login_bytes-parse :
    (bs : List ℕ) → length bs ≡ 83 → login_bytes (parse_login 21 bs) ≡ drop 21 bs
unfolding login_bytes parse_login
login_bytes-parse bs h =
    rw (last_byte bs h, slice-append-drop 52 30 bs refl, slice-append-drop 22 30 bs refl)
      (byte_at-cons 21 bs (omega arith))

length-slice : (o n : ℕ) (bs : List ℕ) → o + n ≤ length bs → length (slice o n bs) ≡ n
length-slice o n bs h = omega (arith, length-take n (drop o bs), length-drop o bs)

length-seed_bytes : (bs : List ℕ) → length bs ≡ 83 → length (seed_bytes (parse_seed bs)) ≡ 21
unfolding seed_bytes parse_seed
length-seed_bytes bs h =
    rw (length-append, length-append, length-append, length-append)
      (omega (
        arith,
        length-slice 1 4 bs,
        length-slice 5 4 bs,
        length-slice 9 4 bs,
        length-slice 13 4 bs,
        length-slice 17 4 bs,
      ))

pub seed_bytes-parse : (bs : List ℕ) → length bs ≡ 83 → seed_bytes (parse_seed bs) ≡ take 21 bs
seed_bytes-parse bs h =
    sym (take-append (seed_bytes (parse_seed bs)) (drop 21 bs) (sym (length-seed_bytes bs h)))
    ∙ ap (take 21) (seed_bytes-append-drop bs h)

first_field : (a b text : List ℕ) → length a ≡ 2 → take 2 ((a ++ b) ++ text) ≡ a
first_field a b text h = ap (take 2) (append_assoc a b text) ∙ take-append a (b ++ text) (sym h)

behind_fields : (a b text : List ℕ) → length a ≡ 2 → length b ≡ 2 → drop 4 ((a ++ b) ++ text) ≡ text
behind_fields a b text h k = drop-append (a ++ b) text {n = 4} (omega (arith, length-append a b))

module _ (P : Platform) where
  open P use {be16, from_be16, length-be16, from_be16-be16}

  seed_part : (bs : List ℕ) → length bs ≡ 83 → seed_bytes (expected_packets bs).seed ≡ take 21 bs
  unfolding expected_packets
  seed_part bs h = seed_bytes-parse bs h

  login_part : (bs : List ℕ) → length bs ≡ 83 → login_bytes (expected_packets bs).login ≡ drop 21 bs
  unfolding expected_packets
  login_part bs h = login_bytes-parse bs h

  split_packets :
      (bs : List ℕ)
      → length bs ≡ 83
      → seed_bytes (expected_packets bs).seed ++ (login_bytes (expected_packets bs).login ++ [])
        ≡ bs
  split_packets bs h = rw (append-nil, seed_part bs h, login_part bs h) (take-append-drop 21 bs)

  -- With `send_remote_ip` off, or for a peer with no numeric host, the game server is sent the 83
  -- bytes of the client unchanged.
  pub initial_vectors_plain :
      (flag : Bool) (ip bs : List ℕ)
      → length bs ≡ 83
      → (flag ≡ false) ⊎ (ip ≡ [])
      → concat (initial_vectors P flag ip bs) ≡ bs
  unfolding initial_vectors
  initial_vectors_plain false ip bs h off = split_packets bs h
  initial_vectors_plain true [] bs h off = split_packets bs h
  initial_vectors_plain true (c ∷ cs) bs h off = absurd (ground arith)

  header : List ℕ → List ℕ
  unfolding remote_ip_packet
  header ip = concat (remote_ip_packet P ip)

  header_cmd : (ip : List ℕ) → byte_at (header ip) 0 ≡ Command.extended
  unfolding header
  header_cmd ip = refl

  header-length :
      (ip : List ℕ)
      → 15 + length ip < 65536
      → from_be16 (slice 1 2 (header ip)) ≡ length (header ip)
  unfolding header
  header-length ip fits =
      let text : List ℕ = (remote_ip_prefix ++ ip) ++ [] in
      let size : ℕ = sizeof_extended + length (remote_ip_prefix ++ ip) in
      ap from_be16 (first_field (be16 size) (be16 0x5a6a) text (length-be16 _))
      ∙ from_be16-be16 size
      ∙ omega (
        arith,
        length-append (be16 size ++ be16 0x5a6a) text,
        length-append (be16 size) (be16 0x5a6a),
        length-append ip [],
        length-be16 size,
        length-be16 0x5a6a,
      )

  header_text : (ip : List ℕ) → drop 5 (header ip) ≡ remote_ip_prefix ++ ip
  unfolding header
  header_text ip =
      behind_fields (be16 _) (be16 0x5a6a) _ (length-be16 _) (length-be16 _) ∙ append-nil _

  -- With `send_remote_ip` on and 83 bytes from the client, one Extended packet is put between its
  -- Seed packet and its AccountLogin packet, if the peer has a numeric host: its text is that host
  -- behind "REMOTE_IP=", and its length field is its length, which is to fit 16 bits.
  pub initial_vectors_remote_ip :
      (ip bs : List ℕ)
      → length bs ≡ 83
      → ip ≢ []
      → 15 + length ip < 65536
      → (header : List ℕ) × (concat (initial_vectors P true ip bs)
          ≡ take 21 bs ++ (header ++ drop 21 bs))
        × (byte_at header 0 ≡ Command.extended)
        × (P.from_be16 (slice 1 2 header) ≡ length header)
        × (drop 5 header ≡ remote_ip_prefix ++ ip)
  unfolding initial_vectors header
  initial_vectors_remote_ip [] bs h n fits = absurd (n refl)
  initial_vectors_remote_ip (c ∷ cs) bs h n fits =
      let ip : List ℕ = c ∷ cs in
      (
        header ip,
        rw (seed_part bs h, login_part bs h) (simp (append_assoc, append-nil)),
        header_cmd ip,
        header-length ip fits,
        header_text ip,
      )

  -- The vectors of `SendInitialPackets` fit into its array of five, with or without the Extended
  -- packet.
  pub length-initial_vectors :
      (flag : Bool) (ip bs : List ℕ) → length (initial_vectors P flag ip bs) ≤ 5
  unfolding initial_vectors remote_ip_packet
  length-initial_vectors flag [] bs = ground arith
  length-initial_vectors flag (c ∷ cs) bs = ground arith
