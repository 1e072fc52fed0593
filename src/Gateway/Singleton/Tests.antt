-- ===== src/Gateway/Singleton/Tests.antt =====
-- Two goroutines that both find no client.
use aliyun_ahas.Common.{none, ℕ, ◌+◌, length, ◌≤◌, some, [], ◌∷◌, All, ◌≡◌, refl}
use aliyun_ahas.Gateway.Singleton.Returns.{Runs, pending, calls_return}
use aliyun_ahas.Gateway.Singleton.{
  Instances, nobody, looking, missed, locked, found_locked, created, unlocked, Reach, here, then,
  one_instance,
}

abbrev both_done : Instances
both_done = record {
  instance_ptr = some 0;
  made = 1;
  holder = nobody;
  waiting = 0;
  returned = 0 ∷ 0 ∷ [];
}

both_run : Reach both_done
both_run =
    then
      (then
        (then
          (then (then (then (then here (missed _ refl)) (missed _ refl)) (locked _ 1 refl refl))
            (created _ refl refl))
          (unlocked _ 0 refl refl))
        (locked _ 0 refl refl))
      (found_locked _ 0 refl refl)

one_instance_example : (1 ≤ 1) × All (λ (i : ℕ). i ≡ 0) (0 ∷ 0 ∷ [])
one_instance_example = one_instance both_done both_run

-- Both have found nil, and one of them holds the lock.
abbrev one_inside : Instances
one_inside = record { instance_ptr = none; made = 0; holder = looking; waiting = 1; returned = [] }

one_inside_run : Reach one_inside
one_inside_run = then (then (then here (missed _ refl)) (missed _ refl)) (locked _ 1 refl refl)

calls_return_example :
    (t : Instances) × Runs one_inside t
    × (t.waiting ≡ 0)
    × (t.holder ≡ nobody)
    × (length t.returned ≡ 0 + pending one_inside)
    × All (λ (i : ℕ). i ≡ 0) t.returned
calls_return_example = calls_return one_inside one_inside_run
