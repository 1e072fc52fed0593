-- ===== src/Tools/Channel.antt =====
-- tools/channel.go, tools/uuid.go and tools/panic.go.
mod Tests
use aliyun_ahas.Common.{
  ℕ, zero, suc, Text, lit, List, [], ◌∷◌, ◌++◌, decimal, is_empty, Bool, true, false, Option, none,
  some, Result, ok, err, panic, diverge, ◌≡◌, refl, ap, arith,
}

-- A `chan struct{}`.
pub data Channel : Type 0 where
  nil_channel : Channel
  open_channel : Channel
  closed_channel : Channel

-- The builtin `close`.
close : Channel → Result Channel
close nil_channel = panic
close open_channel = ok closed_channel
close closed_channel = panic

-- The deferred function: a panic gives false and leaves the channel.
recovered : Channel → Result Channel → Bool × Channel
recovered before (ok ch) = (true, ch)
recovered before (err e) = (false, before)
recovered before panic = (false, before)
recovered before diverge = (false, before)

-- `SafeClose`
unfoldable pub safe_close : Channel → Bool × Channel
unfolding close recovered
safe_close ch = recovered ch (close ch)

-- What `n` calls on one channel give, in the order in which they close it, and the channel.
abbrev pub close_often : ℕ → Channel → List Bool × Channel
close_often zero ch = ([], ch)
close_often (suc n) ch =
    let (rest, ch') = close_often n (safe_close ch).1 in ((safe_close ch).0 ∷ rest, ch')

abbrev pub falses : ℕ → List Bool
falses zero = []
falses (suc n) = false ∷ falses n

close_closed : (n : ℕ) → close_often n closed_channel ≡ (falses n, closed_channel)
unfolding safe_close
close_closed zero = refl
close_closed (suc n) = ap (λ (r : List Bool × Channel). (false ∷ r.0, r.1)) (close_closed n)

-- Of any number of calls of `SafeClose` on an open channel, the first closes it and gives true, and all others give
-- false; none is a panic.
pub closes_once : (n : ℕ) → close_often (suc n) open_channel ≡ (true ∷ falses n, closed_channel)
unfolding safe_close
closes_once n = ap (λ (r : List Bool × Channel). (true ∷ r.0, r.1)) (close_closed n)

-- `GetUUID`, for the result of `uuid.NewV4` as a text and the time in milliseconds.
unfoldable pub get_uuid : Text × Option Text → ℕ → Text
get_uuid (rid, some e) now = lit "BAD_GENERATED_ID_" ++ decimal now
get_uuid (rid, none) now = rid

-- `PrintPanicStack` and `PrintPanicStackV2`, deferred: a panic ends there, and what else happens is left alone.
unfoldable pub print_panic_stack : Result (Unit {0}) → Result (Unit {0})
print_panic_stack (ok _) = ok tt
print_panic_stack (err e) = err e
print_panic_stack panic = ok tt
print_panic_stack diverge = diverge
