-- ===== src/Gateway/Sync/Safety.antt =====
-- What the invariant gives for the calls and the reader (gateway/sync.go, gateway/conn.go).
use aliyun_ahas.Common.{ℕ, [], ◌≡◌, ◌≢◌, refl, arith}
use aliyun_ahas.Gateway.Sync.{
  Flight, Call, deleted, ReaderAt, reading, found, sending, closing, telling, stopped, Action,
  register, receive, expire, unregister, finish, Outcome, blocked, fault, wait_step, reader_step,
  step, Reach,
}
use aliyun_ahas.Gateway.Sync.Invariant.{Inv, Reach-Inv}

abbrev IsSafe : Outcome → Type 0
IsSafe o = (o ≢ fault) × (o ≢ blocked)

module _ (s : Flight) (inv : Inv s) where
  reader_step-IsSafe : (a : Action) (r : ReaderAt) → s.reader ≡ r → IsSafe (reader_step s a r)
  unfolding reader_step
  reader_step-IsSafe a (sending c m) e = ground (arith, inv [] c)
  reader_step-IsSafe a (telling c v) e = ground (arith, inv [] c)
  reader_step-IsSafe a reading e = ground arith
  reader_step-IsSafe a (found id c m) e = ground arith
  reader_step-IsSafe a (closing v) e = ground arith
  reader_step-IsSafe a stopped e = ground arith

  wait_step-IsSafe : (c : ℕ) (a : Action) (k : Call) → s.call c ≡ k → IsSafe (wait_step s c a k)
  unfolding wait_step
  wait_step-IsSafe c a (deleted id m) e = ground (arith, inv [] c)
  wait_step-IsSafe c a _ e = ground arith

  step-IsSafe : (a : Action) → IsSafe (step s a)
  unfolding step
  step-IsSafe (register c id) = wait_step-IsSafe c (register c id) (s.call c) refl
  step-IsSafe (receive c) = wait_step-IsSafe c (receive c) (s.call c) refl
  step-IsSafe (expire c) = wait_step-IsSafe c (expire c) (s.call c) refl
  step-IsSafe (unregister c) = wait_step-IsSafe c (unregister c) (s.call c) refl
  step-IsSafe (finish c) = wait_step-IsSafe c (finish c) (s.call c) refl
  step-IsSafe a = reader_step-IsSafe a s.reader refl

-- In no interleaving of any number of calls with the reader does anybody send on a closed channel or
-- close one twice, which would panic, and the reader never blocks on a full channel.
pub interleavings_safe :
    (s : Flight) (a : Action) → Reach s → (step s a ≢ fault) × (step s a ≢ blocked)
interleavings_safe s a r = step-IsSafe s (Reach-Inv r) a
