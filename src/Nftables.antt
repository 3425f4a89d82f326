-- ===== src/Nftables.antt =====
-- src/Nftables.cxx: the command that adds a host to a set of nftables.
pub mod Loop
use uologin.Prelude.{ℕ, Bool, true, false, List, [], ◌∷◌, ◌++◌, if◌then◌else◌, ◌==◌}
use Prim.Native.String.{String}

-- What waitpid() answers: an error, the end of the child by its exit status or by a signal, or
-- another change of its state.
pub data Wait : Type 0 where
  wait_error : Wait
  exited : ℕ → Wait
  signaled : ℕ → Wait
  other_change : Wait

-- How `NftAddElement` ends: it returns, or throws. `waiting` is the loop with no more answers.
pub data NftResult : Type 0 where
  added : NftResult
  spawn_failed : NftResult
  wait_failed : NftResult
  died : ℕ → NftResult
  failed : ℕ → NftResult
  waiting : NftResult

abbrev pub argv : String → String → String → String → List String
argv family table set address =
    "nft" ∷ "add" ∷ "element" ∷ family ∷ table ∷ set ∷ "{" ∷ address ∷ "}" ∷ []

-- What follows the loop.
pub exit_status : ℕ → NftResult
exit_status n = if n == 0 then added else failed n

pub wait_loop : List Wait → NftResult
unfolding exit_status
wait_loop [] = waiting
wait_loop (wait_error ∷ ws) = wait_failed
wait_loop (signaled n ∷ ws) = died n
wait_loop (exited n ∷ ws) = exit_status n
wait_loop (other_change ∷ ws) = wait_loop ws

pub nft_add_element : Bool → List Wait → NftResult
unfolding wait_loop
nft_add_element false ws = spawn_failed
nft_add_element true ws = wait_loop ws
