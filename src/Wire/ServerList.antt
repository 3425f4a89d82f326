-- ===== src/Wire/ServerList.antt =====
-- The ServerList packet as the client reads it.
use uologin.Prelude.{
  ℕ, zero, suc, ◌+◌, ◌*◌, ◌≤◌, ◌≡◌, ◌≢◌, refl, sym, ap, ◌∙◌, List, [], ◌∷◌, ◌++◌, length, arith,
  take, drop, length-append, take-append, drop-append, drop-drop,
}
use uologin.External.{Platform}
use uologin.Wire.{
  byte_at, slice, extract_string, fill_name, server_entries, server_list_packet, server_list_size,
}
use uologin.Wire.Strings.{length-fill_name, extract_string-fill_name}
use uologin.Wire.Command

module _ (P : Platform) where
  open P use {be16, be32, from_be16, length-be16, length-be32, from_be16-be16}

  -- A client's view: the index and the name of each of `n` entries of 40 bytes.
  pub read_entries : ℕ → List ℕ → List (ℕ × List ℕ)
  read_entries zero bs = []
  read_entries (suc n) bs =
      (from_be16 (take 2 bs), extract_string (slice 2 32 bs)) ∷ read_entries n (drop 40 bs)

  -- The names with their indices, each name cut to 31 characters.
  pub listing : ℕ → List (List ℕ) → List (ℕ × List ℕ)
  listing i [] = []
  listing i (name ∷ names) = (i, take 31 (extract_string name)) ∷ listing (suc i) names

  module _ (i : ℕ) (name rest : List ℕ) where
    entry : List ℕ
    entry = be16 i ++ (fill_name name ++ (0 ∷ 0 ∷ (be32 0xdeadbeef ++ rest)))

    entry_index : take 2 entry ≡ be16 i
    unfolding entry
    entry_index = take-append (be16 i) _ (sym (length-be16 i))

    after_index : drop 2 entry ≡ fill_name name ++ (0 ∷ 0 ∷ (be32 0xdeadbeef ++ rest))
    unfolding entry
    after_index = drop-append (be16 i) _ (sym (length-be16 i))

    entry_name : slice 2 32 entry ≡ fill_name name
    entry_name =
        ap (take 32) after_index ∙ take-append (fill_name name) _ (sym (length-fill_name name))

    entry_rest : drop 40 entry ≡ rest
    entry_rest =
        sym (drop-drop 2 38 entry)
        ∙ ap (drop 38) after_index
        ∙ sym (drop-drop 32 6 (fill_name name ++ (0 ∷ 0 ∷ (be32 0xdeadbeef ++ rest))))
        ∙ ap (drop 6) (drop-append (fill_name name) _ (sym (length-fill_name name)))
        ∙ drop-append (be32 0xdeadbeef) rest (sym (length-be32 0xdeadbeef))

    length-entry : length entry ≡ 40 + length rest
    unfolding entry
    length-entry = omega (
      arith,
      length-append (be16 i) (fill_name name ++ (0 ∷ 0 ∷ (be32 0xdeadbeef ++ rest))),
      length-append (fill_name name) (0 ∷ 0 ∷ (be32 0xdeadbeef ++ rest)),
      length-append (be32 0xdeadbeef) rest,
      length-be16 i,
      length-fill_name name,
      length-be32 0xdeadbeef,
    )

  length-server_entries :
      (i : ℕ) (names : List (List ℕ)) → length (server_entries P i names) ≡ length names * 40
  unfolding server_entries entry
  length-server_entries i [] = refl
  length-server_entries i (name ∷ names) =
      let rest = server_entries P (suc i) names in
      omega (arith, length-entry i name rest, length-server_entries (suc i) names)

  read-server_entries :
      (i : ℕ) (names : List (List ℕ))
      → i + length names ≤ 65536
      → read_entries (length names) (server_entries P i names) ≡ listing i names
  unfolding read_entries listing server_entries entry
  read-server_entries i [] h = refl
  read-server_entries i (name ∷ names) h =
      let rest = server_entries P (suc i) names in
      rw (entry_index i name rest, entry_name i name rest, entry_rest i name rest)
        (rw
          (
            from_be16-be16 i,
            extract_string-fill_name name,
            read-server_entries (suc i) names (omega arith),
          )
          (ap (λ k. (k, take 31 (extract_string name)) ∷ listing (suc i) names) (omega arith)))

  packet_header :
      (size count : ℕ) (entries : List ℕ)
      → let packet = Command.server_list ∷ (be16 size ++ (0x5d ∷ (be16 count ++ entries))) in
        (slice 1 2 packet ≡ be16 size) × (slice 4 2 packet ≡ be16 count) × (drop 6 packet ≡ entries)
  packet_header size count entries =
      let tail : List ℕ = be16 count ++ entries in
      let behind : drop 3 (be16 size ++ (0x5d ∷ tail)) ≡ tail =
        sym (drop-drop 2 1 (be16 size ++ (0x5d ∷ tail)))
        ∙ ap (drop 1) (drop-append (be16 size) (0x5d ∷ tail) (sym (length-be16 size))) in
      (
        take-append (be16 size) _ (sym (length-be16 size)),
        ap (take 2) behind ∙ take-append (be16 count) entries (sym (length-be16 count)),
        sym (drop-drop 3 2 (be16 size ++ (0x5d ∷ tail)))
            ∙ ap (drop 2) behind
            ∙ drop-append (be16 count) entries (sym (length-be16 count)),
      )

  -- A ServerList packet of at least one server has exactly the size that is allocated for it.
  pub length-server_list_packet :
      (names : List (List ℕ))
      → names ≢ []
      → length (server_list_packet P names) ≡ server_list_size P names
  unfolding server_list_packet
  length-server_list_packet [] h = absurd (h refl)
  length-server_list_packet (name ∷ names) h =
      let size : ℕ = server_list_size P (name ∷ names) in
      let entries : List ℕ = server_entries P 0 (name ∷ names) in
      omega (
        arith,
        length-append (be16 size) (0x5d ∷ (be16 (length (name ∷ names)) ++ entries)),
        length-append (be16 (length (name ∷ names))) entries,
        length-be16 size,
        length-be16 (length (name ∷ names)),
        length-server_entries 0 (name ∷ names),
      )

  -- A client that reads a ServerList packet of at least one and at most 1638 servers finds the
  -- length of the packet in its length field, the number of servers in its count field, and behind
  -- the header every server's index in the configuration with its name, cut to 31 characters.
  pub read-server_list_packet :
      (names : List (List ℕ))
      → names ≢ []
      → length names ≤ 1638
      → let packet = server_list_packet P names in
        (byte_at packet 0 ≡ Command.server_list)
        × (from_be16 (slice 1 2 packet) ≡ length packet)
        × (from_be16 (slice 4 2 packet) ≡ length names)
        × (read_entries (length names) (drop 6 packet) ≡ listing 0 names)
  read-server_list_packet names h few =
      let packet = server_list_packet P names in
      let (size, count, entries) = header_fields names in
      (
        unfold server_list_packet in refl,
        ap from_be16 size ∙ from_be16-be16 _ ∙ omega (arith, length-server_list_packet names h),
        ap from_be16 count ∙ from_be16-be16 _ ∙ omega arith,
        ap (read_entries (length names)) entries ∙ read-server_entries 0 names (omega arith),
      )
    where
      header_fields :
          (ns : List (List ℕ))
          → (slice 1 2 (server_list_packet P ns) ≡ be16 (server_list_size P ns))
            × (slice 4 2 (server_list_packet P ns) ≡ be16 (length ns))
            × (drop 6 (server_list_packet P ns) ≡ server_entries P 0 ns)
      header_fields ns = unfold server_list_packet in packet_header _ _ _
