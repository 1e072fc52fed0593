-- ===== src/Service/Tests.antt =====
-- Runs of a controller; the world counts starts and stops, and every start fails.
use aliyun_ahas.Common.{
  ℕ, ◌+◌, lit, Bool, true, false, none, some, List, [], ◌∷◌, ◌≡◌, refl, arith, if◌then◌else◌,
}
use aliyun_ahas.Service.{LifeCycle0, new_controller, run_calls}
use aliyun_ahas.Service.Lifecycle.{IsKept, hooks_alternate}

abbrev counting : LifeCycle0 (ℕ × ℕ)
counting = record {
  do_start = λ w. (some (lit "no port"), (w.0 + 1, w.1));
  do_stop = λ w. (none, (w.0, w.1 + 1));
}

-- As many starts as stops, and one more while the service runs.
abbrev Balanced : Bool → ℕ × ℕ → Type 0
Balanced b w = w.0 ≡ w.1 + (if b then 1 else 0)

counting-IsKept : IsKept counting Balanced
counting-IsKept = record { starting = λ w h. omega arith; stopping = λ w h. omega arith }

abbrev some_calls : List Bool
some_calls = true ∷ true ∷ false ∷ false ∷ true ∷ []

hooks_alternate_example :
    let (c, w) = run_calls counting some_calls new_controller (0, 0) in
    w.0 ≡ w.1 + (if c.is_started then 1 else 0)
hooks_alternate_example = hooks_alternate counting Balanced counting-IsKept some_calls (0, 0) refl
