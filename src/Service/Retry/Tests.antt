-- ===== src/Service/Retry/Tests.antt =====
-- Retry rounds on concrete addresses and times.
use supgang.Base.{ℕ, ◌≡◌, ◌≤◌, ◌+◌, ◌%◌, refl, true, [], ◌∷◌, List, length, any, arith}
use supgang.Network.Address.{socket_new, v4, v6, SocketAddr, socket_eq}
use supgang.Service.Retry.{
  candidate_batch, rotated, picks, other_family, tail_of, aligned_retry_delay,
  max_dial_candidates_per_round,
}
use supgang.Service.Retry.Laws.{aligned_retry_delay-lands, candidate_batch-covers}

abbrev four : ℕ → SocketAddr
four a = socket_new (v4 a) 443

abbrev six : ℕ → SocketAddr
six a = socket_new (v6 a) 443

abbrev known : List SocketAddr
known = four 2 ∷ four 3 ∷ six 4 ∷ four 5 ∷ four 6 ∷ []

-- the other family is in the first batch, and the window starts over behind the tail's end
second_batch : candidate_batch (four 1 ∷ known) 1 ≡ four 1 ∷ six 4 ∷ four 5 ∷ four 6 ∷ []
unfolding candidate_batch rotated picks other_family tail_of
second_batch = refl

candidate_batch-covers_example :
    ((cycle : ℕ) → length (candidate_batch (four 1 ∷ known) cycle) ≤ max_dial_candidates_per_round)
    × ((cycle : ℕ) × (any (socket_eq (four 6)) (candidate_batch (four 1 ∷ known) cycle) ≡ true))
candidate_batch-covers_example = candidate_batch-covers (four 1) known (socket_eq (four 6)) refl

aligned_retry_delay-lands_example :
    (1 ≤ aligned_retry_delay 7 1234567 15000)
    × (aligned_retry_delay 7 1234567 15000 ≤ 15000)
    × ((1234567 + aligned_retry_delay 7 1234567 15000) % 15000 ≡ 7 % 15000)
aligned_retry_delay-lands_example =
    aligned_retry_delay-lands 7 1234567 15000 (omega arith) (omega arith)
