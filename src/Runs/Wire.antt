-- ===== src/Runs/Wire.antt =====
-- The packets at concrete inputs.
use uologin.Prelude.{
  ℕ, ◌≡◌, ◌≢◌, ◌⊎◌, ◌<◌, inl, refl, true, false, List, [], ◌∷◌, ◌++◌, length, take, drop, replicate,
  arith,
}
use uologin.Runs.{platform}
use uologin.Wire.{server_list_packet, byte_at, slice, initial_vectors, concat, remote_ip_prefix}
use uologin.Wire.Command
use uologin.Wire.Command.Table.{code, walk_ack, resynchronize}
use uologin.Wire.Command.Table.Unique.{code_unique}
use uologin.Wire.ServerList.{read-server_list_packet, read_entries, listing}
use uologin.Wire.Initial.{initial_vectors_remote_ip, initial_vectors_plain}

-- "ab" and "c".
abbrev two_names : List (List ℕ)
two_names = (97 ∷ 98 ∷ []) ∷ (99 ∷ []) ∷ []

abbrev login_phase : List ℕ
login_phase = 0xef ∷ replicate 20 7 ++ 0x80 ∷ replicate 61 97

two_names_some : two_names ≢ []
two_names_some h = cc

read-server_list_packet_example :
    let packet = server_list_packet platform two_names in
    (byte_at packet 0 ≡ Command.server_list)
    × (platform.from_be16 (slice 1 2 packet) ≡ length packet)
    × (platform.from_be16 (slice 4 2 packet) ≡ length two_names)
    × (read_entries platform (length two_names) (drop 6 packet) ≡ listing platform 0 two_names)
read-server_list_packet_example =
    read-server_list_packet platform two_names two_names_some (omega arith)

initial_vectors_remote_ip_example :
    (header : List ℕ) × (concat (initial_vectors platform true (49 ∷ []) login_phase)
      ≡ take 21 login_phase ++ (header ++ drop 21 login_phase))
    × (byte_at header 0 ≡ Command.extended)
    × (platform.from_be16 (slice 1 2 header) ≡ length header)
    × (drop 5 header ≡ remote_ip_prefix ++ 49 ∷ [])
initial_vectors_remote_ip_example =
    initial_vectors_remote_ip platform (49 ∷ []) login_phase refl (λ h. cc) (omega arith)

initial_vectors_plain_example :
    concat (initial_vectors platform false (49 ∷ []) login_phase) ≡ login_phase
initial_vectors_plain_example =
    initial_vectors_plain platform false (49 ∷ []) login_phase refl (inl refl)

code_unique_example :
    (code walk_ack < 256)
    × ((walk_ack ≡ resynchronize)
        ⊎ ((walk_ack ≡ walk_ack) × (resynchronize ≡ resynchronize))
        ⊎ ((walk_ack ≡ resynchronize) × (resynchronize ≡ walk_ack)))
unfolding code
code_unique_example = code_unique walk_ack resynchronize refl
