-- ===== src/Service/Lifecycle.antt =====
-- Sequences of starts and stops (service/service.go).
use aliyun_ahas.Common.{
  Bool, Bool-cases, true, false, not, inl, inr, List, [], ◌∷◌, none, ◌≡◌, refl, arith,
}
use aliyun_ahas.Service.{
  Controller, LifeCycle0, new_controller, is_stopped, is_live, start, stop, act, run_calls,
}

-- The flag says what the context says.
abbrev pub Agrees : Controller → Type 0
Agrees c = c.is_started ≡ not (is_stopped c)

-- A condition on the flag and the world that the hooks keep: `do_start` may count on a service that
-- does not run, and `do_stop` on one that runs.
pub record IsKept {W : Type 0} (cycle : LifeCycle0 W) (p : Bool → W → Type 0) : Type 0 where
  pub starting : (w : W) → p false w → p true (cycle.do_start w).1
  pub stopping : (w : W) → p true w → p false (cycle.do_stop w).1

module _ {W : Type 0} (cycle : LifeCycle0 W) where
  start-Agrees : (c : Controller) (w : W) → Agrees c → Agrees (start cycle c w).1
  unfolding start is_stopped is_live
  start-Agrees c w h = ground arith

  stop-Agrees : (c : Controller) (w : W) → Agrees c → Agrees (stop cycle c w).1
  unfolding stop is_stopped is_live
  stop-Agrees c w h = ground arith

  act-Agrees : (b : Bool) (c : Controller) (w : W) → Agrees c → Agrees (act cycle b c w).1
  act-Agrees true c w h = start-Agrees c w h
  act-Agrees false c w h = stop-Agrees c w h

  act-IsKept :
      (p : Bool → W → Type 0)
      → IsKept cycle p
      → (b : Bool) (c : Controller) (w : W) → Agrees c
      → p c.is_started w
      → p (act cycle b c w).1.is_started (act cycle b c w).2
  unfolding start stop
  act-IsKept p kept true c w h q = elim (Bool-cases (is_stopped c)) [
    | inl off ↦ rw off (kept.starting w (rw (h, off) at q))
    | inr on ↦ rw on q
  ]
  act-IsKept p kept false c w h q = elim (Bool-cases (is_stopped c)) [
    | inl off ↦ rw off q
    | inr on ↦ rw on (kept.stopping w (rw (h, on) at q))
  ]

  calls-Agrees :
      (calls : List Bool) (c : Controller) (w : W) → Agrees c → Agrees (run_calls cycle calls c w).0
  unfolding run_calls
  calls-Agrees [] c w h = h
  calls-Agrees (b ∷ calls) c w h =
      let (e, c₁, w₁) = act cycle b c w in calls-Agrees calls c₁ w₁ (act-Agrees b c w h)

  calls-IsKept :
      (p : Bool → W → Type 0)
      → IsKept cycle p
      → (calls : List Bool) (c : Controller) (w : W) → Agrees c
      → p c.is_started w
      → p (run_calls cycle calls c w).0.is_started (run_calls cycle calls c w).1
  unfolding run_calls
  calls-IsKept p kept [] c w h q = q
  calls-IsKept p kept (b ∷ calls) c w h q =
      let (e, c₁, w₁) = act cycle b c w in
      calls-IsKept p kept calls c₁ w₁ (act-Agrees b c w h) (act-IsKept p kept b c w h q)

-- After any sequence of `Start` and `Stop` on a new controller, whether their hooks fail or not, the flag
-- `IsStarted` is the negation of `IsStopped`.
pub flag_agrees :
    {W : Type 0} (cycle : LifeCycle0 W) (calls : List Bool) (w : W)
    → let (c, w') = run_calls cycle calls new_controller w in c.is_started ≡ not (is_stopped c)
unfolding is_stopped is_live
flag_agrees cycle calls w = calls-Agrees cycle calls new_controller w refl

-- Let a condition on the flag `IsStarted` and the world hold at first, with no service started, and let
-- `do_start` bring it from not started to started and `do_stop` back. Then it holds after any sequence of
-- `Start` and `Stop` on a new controller: `do_start` only runs on a service that is stopped, and
-- `do_stop` on one that is started.
pub hooks_alternate :
    {W : Type 0} (cycle : LifeCycle0 W) (p : Bool → W → Type 0)
    → IsKept cycle p
    → (calls : List Bool) (w : W) → p false w
    → let (c, w') = run_calls cycle calls new_controller w in p c.is_started w'
unfolding is_stopped is_live
hooks_alternate cycle p kept calls w q = calls-IsKept cycle p kept calls new_controller w refl q

-- A second `Start` or `Stop` behind a first one runs no hook, gives no error and changes nothing, also
-- where the hook of the first one failed.
pub repeated_call_ignored :
    {W : Type 0} (cycle : LifeCycle0 W) (b : Bool) (c : Controller) (w : W)
    → let (e, c₁, w₁) = act cycle b c w in act cycle b c₁ w₁ ≡ (none, c₁, w₁)
unfolding start stop is_stopped is_live
repeated_call_ignored cycle true c w = ground arith
repeated_call_ignored cycle false c w = ground arith
