-- ===== src/Runs/Pipes.antt =====
-- Two splices of one stock at concrete answers.
use uologin.Prelude.{ℕ, ◌≡◌, refl, true, some, [], ◌∷◌, ◌++◌, arith}
use uologin.Splice.{Splice, Received, moved_in, receive_from, empty, ok}
use uologin.Splice.Fifo.{content, IsValid, IsClean}
use uologin.Pipes.{Shared, start, receive, set, created, create}
use uologin.Pipes.Isolation.{Shared-isolated}

abbrev filled : Splice
filled = record { pipe = some (1 ∷ 2 ∷ []); size = 2; received_bytes = 2; sent_bytes = 0 }

abbrev filling : Received
filling = record { splice = filled; result = ok; puts = [] }

abbrev splices : ℕ → Splice
splices = set 5 filled (λ _. empty)

two_bytes : Shared splices (set 5 (1 ∷ 2 ∷ []) (λ _. [])) (λ _. []) []
unfolding receive_from create
two_bytes = receive 5 (moved_in (1 ∷ 2 ∷ [])) start (omega arith) (created true) refl

Shared-isolated_example :
    IsValid (splices 5) × ((1 ∷ 2 ∷ []) ≡ [] ++ content (splices 5)) × IsClean []
Shared-isolated_example = Shared-isolated 5 two_bytes
