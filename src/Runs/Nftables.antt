-- ===== src/Runs/Nftables.antt =====
-- The nft command at concrete answers.
use uologin.Prelude.{◌≡◌, ◌≢◌, ◌↔◌, true, [], ◌∷◌}
use uologin.Nftables.{exited, signaled, other_change, nft_add_element, added, waiting}
use uologin.Nftables.Loop.{nft_add_element_ends}

-- The child was stopped once, and succeeds.
nft_add_element_ends_example :
    (nft_add_element true (other_change ∷ exited 0 ∷ signaled 9 ∷ []) ≢ waiting)
    × ((nft_add_element true (other_change ∷ exited 0 ∷ signaled 9 ∷ []) ≡ added)
        ↔ (exited 0 ≡ exited 0))
nft_add_element_ends_example =
    nft_add_element_ends (other_change ∷ []) (signaled 9 ∷ []) (exited 0) tt (λ h. cc)
