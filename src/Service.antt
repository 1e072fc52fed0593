-- ===== src/Service.antt =====
-- service/service.go: the controller that starts and stops a service once.
pub mod Lifecycle
mod Tests
use aliyun_ahas.Common.{Text, Bool, true, false, Option, none, some, List, [], ◌∷◌, if◌then◌else◌}

-- `Ctx`: nil before the first start, then a context that `Cancel` cancels.
pub data Context : Type 0 where
  nil : Context
  live : Context
  cancelled : Context

pub record Controller : Type 0 where
  pub ctx : Context
  pub is_started : Bool

-- `LifeCycle0`: what the service does when it starts and stops; the errors are its results.
pub record LifeCycle0 (W : Type 0) : Type 0 where
  pub do_start : W → Option Text × W
  pub do_stop : W → Option Text × W

-- `NewController`
abbrev pub new_controller : Controller
new_controller = record { ctx = nil; is_started = false }

is_live : Context → Bool
is_live nil = false
is_live live = true
is_live cancelled = false

-- `IsStopped`
unfoldable pub is_stopped : Controller → Bool
unfolding is_live
is_stopped c = if is_live c.ctx then false else true

module _ {W : Type 0} (cycle : LifeCycle0 W) where
  -- `Start`, which holds the lock from its first to its last line.
  unfoldable pub start : Controller → W → Option Text × Controller × W
  start c w =
      if is_stopped c
      then (let (e, w₁) = cycle.do_start w in (e, record { ctx = live; is_started = true }, w₁))
      else (none, c, w)

  -- `Stop`
  unfoldable pub stop : Controller → W → Option Text × Controller × W
  stop c w =
      if is_stopped c
      then (none, c, w)
      else let (e, w₁) = cycle.do_stop w in (e, record { ctx = cancelled; is_started = false }, w₁)

  -- A call of the one or of the other.
  abbrev pub act : Bool → Controller → W → Option Text × Controller × W
  act true c w = start c w
  act false c w = stop c w

  -- Calls in the order in which they take the lock: `true` for `Start`, `false` for `Stop`.
  pub run_calls : List Bool → Controller → W → Controller × W
  run_calls [] c w = (c, w)
  run_calls (b ∷ calls) c w = let (e, c₁, w₁) = act b c w in run_calls calls c₁ w₁
