-- ===== src/Gateway/Ring/Tests.antt =====
-- Runs of the ring.
use aliyun_ahas.Common.{ℕ, ◌+◌, ◌<◌, ◌≤◌, ◌≡◌, refl, [], ◌∷◌, some, ok, get_elem?, arith}
use aliyun_ahas.Gateway.Ring.{Ring, max_index, next}
use aliyun_ahas.Gateway.Ring.Rounds.{after, round_visits_every_slot}
use aliyun_ahas.Gateway.Ring.Races.{enter, pass, calm, Reach, here, then, index_bounded}

abbrev three : Ring ℕ
three = record { values = 5 ∷ 6 ∷ 7 ∷ []; index = 4 }

round_visits_every_slot_example :
    (k : ℕ) × (v : ℕ) × (k < 3)
    × (get_elem? three.values 1 ≡ some v)
    × ((next (after k three)).0 ≡ ok v)
round_visits_every_slot_example = round_visits_every_slot three 1 (omega arith) (omega arith)

abbrev last_turn : Ring ℕ
last_turn = record { values = 5 ∷ 6 ∷ []; index = 9999 }

two_inside : Reach three.values (record { index = 2; added = 1; over = 0; ready = 1 })
two_inside =
    then
      (then (then here (enter calm))
        (pass (record { index = 1; added = 1; over = 0; ready = 0 }) 0 refl (omega arith)))
      (enter (record { index = 1; added = 0; over = 0; ready = 1 }))

index_bounded_example : 2 ≤ max_index + 1 + 0
index_bounded_example =
    index_bounded (record { index = 2; added = 1; over = 0; ready = 1 }) two_inside
