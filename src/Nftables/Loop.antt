-- ===== src/Nftables/Loop.antt =====
-- The loop around waitpid().
use uologin.Prelude.{◌≡◌, ◌≢◌, ◌↔◌, refl, true, List, [], ◌∷◌, ◌++◌, arith}
use uologin.Nftables.{
  Wait, wait_error, exited, signaled, other_change, added, waiting, nft_add_element, exit_status,
}

-- Changes that do not end the loop.
abbrev pub AllOther : List Wait → Type 0
AllOther [] = Unit {0}
AllOther (other_change ∷ ws) = AllOther ws
AllOther (_ ∷ ws) = ⊥

-- The loop ends at the first answer that tells the end of the child or an error, whatever came
-- before and comes after; the host was added exactly if that answer is the exit status 0.
pub nft_add_element_ends :
    (before after : List Wait) (w : Wait)
    → AllOther before
    → w ≢ other_change
    → (nft_add_element true (before ++ w ∷ after) ≢ waiting)
      × ((nft_add_element true (before ++ w ∷ after) ≡ added) ↔ (w ≡ exited 0))
unfolding nft_add_element exit_status
nft_add_element_ends [] after wait_error o n = ((λ h. cc), ((λ h. cc), λ h. cc))
nft_add_element_ends [] after (exited k) o n = ground arith
nft_add_element_ends [] after (signaled k) o n = ((λ h. cc), ((λ h. cc), λ h. cc))
nft_add_element_ends [] after other_change o n = absurd (n refl)
nft_add_element_ends (other_change ∷ ws) after w o n = nft_add_element_ends ws after w o n
nft_add_element_ends (wait_error ∷ ws) after w o n = elim o [ ]
nft_add_element_ends (exited k ∷ ws) after w o n = elim o [ ]
nft_add_element_ends (signaled k ∷ ws) after w o n = elim o [ ]
