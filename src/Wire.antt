-- ===== src/Wire.antt =====
-- The packets of the Ultima Online protocol as bytes: src/uo/Packets.hxx, the packet building in
-- src/Connection.cxx, src/uo/String.hxx and src/Validate.hxx. A byte is a number; a packed integer
-- is kept as the bytes that it occupies.
pub mod Command
pub mod Strings
pub mod Initial
pub mod ServerList
use uologin.Prelude.{
  ℕ, zero, suc, ◌+◌, ◌-◌, ◌*◌, List, [], ◌∷◌, ◌++◌, Bool, true, false, length, take, drop,
  replicate, if◌then◌else◌, ◌==◌,
}
use uologin.External.{Platform}
use Command

-- std::find(begin, end, '\0'), and the view up to there.
unfoldable pub extract_string : List ℕ → List ℕ
extract_string [] = []
extract_string (c ∷ cs) = if c == 0 then [] else c ∷ extract_string cs

unfoldable pub is_valid_username : Platform → List ℕ → Bool
is_valid_username P s = P.check_chars_non_empty s P.is_printable_ascii

pub record Credentials : Type 0 where
  pub username : List ℕ
  pub password : List ℕ

pub record AccountLogin : Type 0 where
  pub cmd : ℕ
  pub credentials : Credentials
  pub unknown1 : ℕ

pub record Seed : Type 0 where
  pub cmd : ℕ
  pub seed : List ℕ
  pub client_major : List ℕ
  pub client_minor : List ℕ
  pub client_revision : List ℕ
  pub client_patch : List ℕ

pub record ExpectedPackets : Type 0 where
  pub seed : Seed
  pub login : AccountLogin

-- A byte of an array; the model's value beyond the end is 0.
abbrev pub byte_at : List ℕ → ℕ → ℕ
byte_at [] i = 0
byte_at (b ∷ bs) zero = b
byte_at (b ∷ bs) (suc i) = byte_at bs i

abbrev pub slice : ℕ → ℕ → List ℕ → List ℕ
slice offset n bs = take n (drop offset bs)

-- `reinterpret_cast` of a byte array at an offset.
unfoldable pub parse_login : ℕ → List ℕ → AccountLogin
parse_login o bs = record {
  cmd = byte_at bs o;
  credentials = record { username = slice (o + 1) 30 bs; password = slice (o + 31) 30 bs };
  unknown1 = byte_at bs (o + 61);
}

unfoldable pub parse_seed : List ℕ → Seed
parse_seed bs = record {
  cmd = byte_at bs 0;
  seed = slice 1 4 bs;
  client_major = slice 5 4 bs;
  client_minor = slice 9 4 bs;
  client_revision = slice 13 4 bs;
  client_patch = slice 17 4 bs;
}

unfoldable pub expected_packets : List ℕ → ExpectedPackets
unfolding parse_login parse_seed
expected_packets bs = record { seed = parse_seed bs; login = parse_login 21 bs }

-- `ReferenceAsBytes`: the bytes of a packed struct.
pub seed_bytes : Seed → List ℕ
seed_bytes s =
    s.cmd
    ∷ (s.seed ++ (s.client_major ++ (s.client_minor ++ (s.client_revision ++ s.client_patch))))

pub login_bytes : AccountLogin → List ℕ
login_bytes p = p.cmd ∷ (p.credentials.username ++ (p.credentials.password ++ p.unknown1 ∷ []))

abbrev pub sizeof_initial_packets : ℕ
sizeof_initial_packets = 83

abbrev pub sizeof_account_login : ℕ
sizeof_account_login = 62

abbrev pub sizeof_server_info : ℕ
sizeof_server_info = 40

abbrev pub sizeof_server_list : ℕ
sizeof_server_list = 46

abbrev pub sizeof_play_server : ℕ
sizeof_play_server = 3

abbrev pub sizeof_extended : ℕ
sizeof_extended = 5

-- "REMOTE_IP="
abbrev pub remote_ip_prefix : List ℕ
remote_ip_prefix = b'R' ∷ b'E' ∷ b'M' ∷ b'O' ∷ b'T' ∷ b'E' ∷ b'_' ∷ b'I' ∷ b'P' ∷ b'=' ∷ []

abbrev pub concat : List (List ℕ) → List ℕ
concat [] = []
concat (v ∷ vs) = v ++ concat vs

-- A string that is copied into the 32 bytes of `name` by snprintf("%s"), over zeroed memory.
pub fill_name : List ℕ → List ℕ
unfolding extract_string
fill_name s = let t = take 31 (extract_string s) in t ++ replicate (32 - length t) 0

module _ (P : Platform) where
  open P use {be16, be32}

  unfoldable pub account_login_reject : List ℕ
  account_login_reject = Command.account_login_reject ∷ 3 ∷ []

  pub play_server_zero : List ℕ
  play_server_zero = Command.play_server ∷ be16 0

  pub server_entries : ℕ → List (List ℕ) → List ℕ
  unfolding fill_name
  server_entries i [] = []
  server_entries i (name ∷ names) =
      be16 i ++ (fill_name name ++ (0 ∷ 0 ∷ (be32 0xdeadbeef ++ server_entries (suc i) names)))

  -- `size` in `SendServerList`; the list is not empty there.
  abbrev pub server_list_size : List (List ℕ) → ℕ
  server_list_size names = sizeof_server_list + (length names - 1) * sizeof_server_info

  pub server_list_packet : List (List ℕ) → List ℕ
  server_list_packet names =
      Command.server_list
      ∷ (be16 (server_list_size names) ++ (0x5d ∷ (be16 (length names) ++ server_entries 0 names)))

  pub remote_ip_packet : List ℕ → List (List ℕ)
  remote_ip_packet remote_ip =
      let buffer = remote_ip_prefix ++ remote_ip in
      (Command.extended ∷ (be16 (sizeof_extended + length buffer) ++ be16 0x5a6a)) ∷ buffer ∷ []

  remote_ip_vectors : List ℕ → List (List ℕ)
  unfolding remote_ip_packet
  remote_ip_vectors [] = []
  remote_ip_vectors (c ∷ cs) = remote_ip_packet (c ∷ cs)

  -- The I/O vectors of `SendInitialPackets`.
  pub initial_vectors : Bool → List ℕ → List ℕ → List (List ℕ)
  unfolding remote_ip_vectors expected_packets
  initial_vectors send_remote_ip remote_ip initial_packets =
      let packets = expected_packets initial_packets in
      seed_bytes packets.seed
      ∷ ((if send_remote_ip then remote_ip_vectors remote_ip else [])
          ++ login_bytes packets.login ∷ [])
