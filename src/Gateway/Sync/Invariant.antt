-- ===== src/Gateway/Sync/Invariant.antt =====
-- What holds between two actions of the requests in flight (gateway/sync.go, gateway/conn.go).
use aliyun_ahas.Common.{
  ℕ, Text, text_eq, text_eq→eq, text_eq_self, text_eq_iff, Bool, true, false, not, ◌&&◌, Option,
  none, some, ◌≡◌, ◌⊎◌, ◌==◌, arith,
}
use aliyun_ahas.Gateway.Message.{AgwMessage}
use aliyun_ahas.Gateway.Sync.{
  Flight, Call, idle, waiting, received, timed_out, deleted, returned, ReaderAt, found, sending,
  closing, telling, stopped, Action, register, receive, expire, unregister, finish, load, delete,
  send, start_close, visit, tell, end_close, next, get_sync_id, is_visited, step, start, Reach,
  here, then,
}

-- The call has registered, and has taken no message.
abbrev pub live : Call → Bool
live (waiting id) = true
live (timed_out id) = true
live (returned id r) = true
live _ = false

-- The call may have an entry, under `id`.
abbrev pub holds : Call → Text → Bool
holds (waiting j) id = text_eq j id
holds (received j m) id = text_eq j id
holds (timed_out j) id = text_eq j id
holds _ id = false

abbrev pub is_returned : Call → Bool
is_returned (returned id r) = true
is_returned _ = false

-- `Range` has visited the key, or is over.
abbrev pub seen : ReaderAt → Text → Bool
seen (closing v) id = is_visited id v
seen (telling c v) id = is_visited id v
seen stopped id = true
seen _ id = false

-- The reader is about to send to the channel, or will be after one more step.
abbrev pub target : ReaderAt → ℕ → Bool
target (found id c' m) c = c' == c
target (sending c' m) c = c' == c
target (telling c' v) c = c' == c
target _ c = false

abbrev pub is_free : Option AgwMessage → Bool
is_free none = true
is_free (some m) = false

-- Nothing was ever sent to the channel, and it is open.
abbrev pub unused : Flight → ℕ → Bool
unused s c = is_free (s.buffer c) && not (s.closed c) && live (s.call c)

-- The keys under which a target of the reader may still have its entry.
abbrev pub key_allowed : ReaderAt → Text → Bool
key_allowed (found j c m) id = text_eq j id
key_allowed (sending c m) id = false
key_allowed (telling c v) id = is_visited id v
key_allowed _ id = true

pub record InvAt (s : Flight) (id : Text) (c : ℕ) : Type 0 where
  pub entry_held : s.entry id ≡ some c → holds (s.call c) id ≡ true
  pub entry_unused : s.entry id ≡ some c → (unused s c ≡ true) ⊎ (seen s.reader id ≡ true)
  pub target_unused : target s.reader c ≡ true → unused s c ≡ true
  pub target_key : target s.reader c ≡ true → s.entry id ≡ some c → key_allowed s.reader id ≡ true
  pub closed_returned : s.closed c ≡ true → is_returned (s.call c) ≡ true
  pub idle_fresh : s.call c ≡ idle → (s.buffer c ≡ none) × (s.closed c ≡ false)

abbrev pub Inv : Flight → Type 0
Inv s = (id : Text) (c : ℕ) → InvAt s id c

-- A call has one key.
holds_unique : (k : Call) (i j : Text) → holds k i ≡ true → holds k j ≡ true → text_eq i j ≡ true
holds_unique idle i j p q = cc
holds_unique (deleted k m) i j p q = cc
holds_unique (returned k r) i j p q = cc
holds_unique (waiting k) i j p q = cc (text_eq→eq k i p, text_eq→eq k j q, text_eq_self k)
holds_unique (timed_out k) i j p q = cc (text_eq→eq k i p, text_eq→eq k j q, text_eq_self k)
holds_unique (received k m) i j p q = cc (text_eq→eq k i p, text_eq→eq k j q, text_eq_self k)

start-Inv : Inv start
unfolding start
start-Inv id c = ground arith

module _ (s t : Flight) (inv : Inv s) (id : Text) (c : ℕ) where
  register-InvAt : (d : ℕ) (k : Text) → step s (register d k) ≡ next t → InvAt t id c
  unfolding step
  register-InvAt d k e = ground (arith, inv id c, inv id d, inv k d, text_eq_iff k id)

  receive-InvAt : (d : ℕ) → step s (receive d) ≡ next t → InvAt t id c
  unfolding step
  receive-InvAt d e = ground (arith, inv id c, inv id d)

  expire-InvAt : (d : ℕ) → step s (expire d) ≡ next t → InvAt t id c
  unfolding step
  expire-InvAt d e = ground (arith, inv id c, inv id d)

  unregister-InvAt : (d : ℕ) → step s (unregister d) ≡ next t → InvAt t id c
  unfolding step
  unregister-InvAt d e = ground (arith, inv id c, inv id d)

  finish-InvAt : (d : ℕ) → step s (finish d) ≡ next t → InvAt t id c
  unfolding step
  finish-InvAt d e = ground (arith, inv id c, inv id d)

  load-InvAt : (m : AgwMessage) → step s (load m) ≡ next t → InvAt t id c
  unfolding step
  load-InvAt m e =
      ground (arith, inv id c, inv (get_sync_id m) c, holds_unique (s.call c) (get_sync_id m) id)

  delete-InvAt : step s delete ≡ next t → InvAt t id c
  unfolding step
  delete-InvAt e = ground (arith, inv id c)

  send-InvAt : step s send ≡ next t → InvAt t id c
  unfolding step
  send-InvAt e = ground (arith, inv id c)

  start_close-InvAt : step s start_close ≡ next t → InvAt t id c
  unfolding step
  start_close-InvAt e = ground (arith, inv id c)

  visit-InvAt : (k : Text) → step s (visit k) ≡ next t → InvAt t id c
  unfolding step
  visit-InvAt k e = ground (arith, inv id c, inv k c, holds_unique (s.call c) k id)

  tell-InvAt : step s tell ≡ next t → InvAt t id c
  unfolding step
  tell-InvAt e = ground (arith, inv id c)

  end_close-InvAt : step s end_close ≡ next t → InvAt t id c
  unfolding step
  end_close-InvAt e = ground (arith, inv id c)

-- Every action keeps the invariant.
pub step-Inv : (s t : Flight) (a : Action) → Inv s → step s a ≡ next t → Inv t
step-Inv s t (register d k) inv e id c = register-InvAt s t inv id c d k e
step-Inv s t (receive d) inv e id c = receive-InvAt s t inv id c d e
step-Inv s t (expire d) inv e id c = expire-InvAt s t inv id c d e
step-Inv s t (unregister d) inv e id c = unregister-InvAt s t inv id c d e
step-Inv s t (finish d) inv e id c = finish-InvAt s t inv id c d e
step-Inv s t (load m) inv e id c = load-InvAt s t inv id c m e
step-Inv s t delete inv e id c = delete-InvAt s t inv id c e
step-Inv s t send inv e id c = send-InvAt s t inv id c e
step-Inv s t start_close inv e id c = start_close-InvAt s t inv id c e
step-Inv s t (visit k) inv e id c = visit-InvAt s t inv id c k e
step-Inv s t tell inv e id c = tell-InvAt s t inv id c e
step-Inv s t end_close inv e id c = end_close-InvAt s t inv id c e

pub Reach-Inv : {s : Flight} → Reach s → Inv s
Reach-Inv here = start-Inv
Reach-Inv (then {s} {t} a r e) = step-Inv s t a (Reach-Inv r) e
