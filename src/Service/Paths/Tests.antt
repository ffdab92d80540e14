-- ===== src/Service/Paths/Tests.antt =====
-- Watches over concrete paths.
use supgang.Base.{ℕ, ◌*◌, ◌≡◌, refl, true, false, [], ◌∷◌, lookup, insert, arith}
use supgang.Network.Address.{socket_new, v4, SocketAddr}
use supgang.Service.Paths.{
  PathQualityWatch, Connection, observe, sample, due, note_all, sample_all, insert_bounded,
  wants_replacement, mark_attempt, backoff, materially_better,
}
use supgang.Service.Paths.Laws.{IsModest, with_paths, observe-IsModest, change-rests}

abbrev empty_watch : PathQualityWatch
empty_watch = record { paths = []; recent_admissions = []; capped = [] }

abbrev home : SocketAddr
home = socket_new (v4 3232235777) 443

abbrev slow : Connection
slow = record { stable_id = 1; rtt = 200000000; black_holes_detected = 3; remote_address = home }

abbrev slower : Connection
slower = record slow { rtt = 800000000 }

abbrev second : ℕ
second = 1000000000

abbrev before : PathQualityWatch
before = observe ((7, slow) ∷ []) 0 empty_watch

abbrev degraded : PathQualityWatch
degraded = observe ((7, slower) ∷ []) (5 * second) before

-- the path was bad for eight seconds
sustained :
    (wants_replacement degraded 7 (12 * second) ≡ false)
    × (wants_replacement degraded 7 (13 * second) ≡ true)
unfolding observe sample due note_all sample_all insert_bounded lookup insert
sustained = (refl, refl)

material : materially_better (1500 * second) (200 * second) ≡ true
material = refl

observe-IsModest_example : IsModest (observe ((7, slow) ∷ []) 0 empty_watch)
observe-IsModest_example =
    observe-IsModest ((7, slow) ∷ []) 0 empty_watch
      (record { recent = (tt, omega arith); holed = (tt, omega arith) })

change-rests_example :
    (wants_replacement
        (with_paths degraded (mark_attempt 7 (13 * second) degraded.paths))
        7
        (42 * second)
      ≡ false)
    × (wants_replacement
          (with_paths degraded (backoff 7 (13 * second) degraded.paths))
          7
          (72 * second)
        ≡ false)
change-rests_example =
    change-rests degraded 7 7 (13 * second) (42 * second) (72 * second) (omega arith) (omega arith)
