-- ===== src/Gateway/Sync/Promised.antt =====
-- A call for which the reader has found a message (gateway/sync.go): what may happen to it, and how it ends.
use aliyun_ahas.Common.{
  ℕ, Text, List, [], ◌∷◌, Bool, true, not, Option, none, some, Result, All, subst, err, ◌≡◌, ◌==◌,
  refl, if◌then◌else◌, arith,
}
use aliyun_ahas.Gateway.Message.{AgwMessage}
use aliyun_ahas.Gateway.Sync.{
  Flight, Call, idle, waiting, received, timed_out, deleted, returned, ReaderAt, found, sending,
  telling, Action, register, receive, expire, unregister, finish, load, delete, send, start_close,
  visit, tell, end_close, Outcome, next, disabled, blocked, fault, conn_closed_msg,
  error_msg_request_timeout, wait_result, step,
}
use aliyun_ahas.Gateway.Sync.Invariant.{Inv, step-Inv}

-- A list of actions, one after the other.
unfoldable pub run : Flight → List Action → Outcome
run s [] = next s
run s (a ∷ rest) = elim (step s a) [
  | next t ↦ run t rest
  | disabled ↦ disabled
  | blocked ↦ blocked
  | fault ↦ fault
]

-- The message that the reader has for a channel, in `notify` or in `close`.
abbrev pub in_hand : ReaderAt → ℕ → Option AgwMessage
in_hand (found k d m) c = if d == c then some m else none
in_hand (sending d m) c = if d == c then some m else none
in_hand (telling d v) c = if d == c then some conn_closed_msg else none
in_hand _ c = none

abbrev pub coming : Option AgwMessage → Option AgwMessage → Option (Result AgwMessage)
coming (some m) hand = some (wait_result m)
coming none (some m) = some (wait_result m)
coming none none = none

-- What a call will return, so far as that is settled but for its timer: by the message in its channel or on the way
-- to it, by the one it has taken, by its timer that has run out, or since it has returned.
abbrev pub settled : Call → Option AgwMessage → Option AgwMessage → Option (Result AgwMessage)
settled idle buffer hand = none
settled (waiting id) buffer hand = coming buffer hand
settled (received id m) buffer hand = some (wait_result m)
settled (timed_out id) buffer hand = some (err error_msg_request_timeout)
settled (deleted id m) buffer hand = some (wait_result m)
settled (returned id r) buffer hand = some r

abbrev pub promised : Flight → ℕ → Option (Result AgwMessage)
promised s c = settled (s.call c) (s.buffer c) (in_hand s.reader c)

-- The action is not that the timer of the call runs out.
abbrev pub keeps_time : ℕ → Action → Bool
keeps_time c (expire d) = not (d == c)
keeps_time c _ = true

module _ (s t : Flight) (inv : Inv s) (c : ℕ) (r : Result AgwMessage)
    (p : promised s c ≡ some r) where
  register-promised : (d : ℕ) (k : Text) → step s (register d k) ≡ next t → promised t c ≡ some r
  unfolding step
  register-promised d k e = ground (arith, p)

  receive-promised : (d : ℕ) → step s (receive d) ≡ next t → promised t c ≡ some r
  unfolding step
  receive-promised d e = ground (arith, p)

  expire-promised :
      (d : ℕ) → not (d == c) ≡ true → step s (expire d) ≡ next t → promised t c ≡ some r
  unfolding step
  expire-promised d h e = ground (arith, p)

  unregister-promised : (d : ℕ) → step s (unregister d) ≡ next t → promised t c ≡ some r
  unfolding step
  unregister-promised d e = ground (arith, p)

  finish-promised : (d : ℕ) → step s (finish d) ≡ next t → promised t c ≡ some r
  unfolding step
  finish-promised d e = ground (arith, p)

  load-promised : (m : AgwMessage) → step s (load m) ≡ next t → promised t c ≡ some r
  unfolding step
  load-promised m e = ground (arith, p)

  delete-promised : step s delete ≡ next t → promised t c ≡ some r
  unfolding step
  delete-promised e = ground (arith, p)

  send-promised : step s send ≡ next t → promised t c ≡ some r
  unfolding step
  send-promised e = ground (arith, p)

  start_close-promised : step s start_close ≡ next t → promised t c ≡ some r
  unfolding step
  start_close-promised e = ground (arith, p)

  visit-promised : (k : Text) → step s (visit k) ≡ next t → promised t c ≡ some r
  unfolding step
  visit-promised k e = ground (arith, p, inv k c)

  tell-promised : step s tell ≡ next t → promised t c ≡ some r
  unfolding step
  tell-promised e = ground (arith, p)

  end_close-promised : step s end_close ≡ next t → promised t c ≡ some r
  unfolding step
  end_close-promised e = ground (arith, p)

step-promised :
    (s t : Flight) (a : Action) (c : ℕ) (r : Result AgwMessage)
    → Inv s
    → promised s c ≡ some r
    → keeps_time c a ≡ true
    → step s a ≡ next t
    → promised t c ≡ some r
step-promised s t (register d k) c r inv p h e = register-promised s t inv c r p d k e
step-promised s t (receive d) c r inv p h e = receive-promised s t inv c r p d e
step-promised s t (expire d) c r inv p h e = expire-promised s t inv c r p d h e
step-promised s t (unregister d) c r inv p h e = unregister-promised s t inv c r p d e
step-promised s t (finish d) c r inv p h e = finish-promised s t inv c r p d e
step-promised s t (load m) c r inv p h e = load-promised s t inv c r p m e
step-promised s t delete c r inv p h e = delete-promised s t inv c r p e
step-promised s t send c r inv p h e = send-promised s t inv c r p e
step-promised s t start_close c r inv p h e = start_close-promised s t inv c r p e
step-promised s t (visit k) c r inv p h e = visit-promised s t inv c r p k e
step-promised s t tell c r inv p h e = tell-promised s t inv c r p e
step-promised s t end_close c r inv p h e = end_close-promised s t inv c r p e

-- The first action of a run, and the rest.
pub run-cons :
    (s t : Flight) (a : Action) (rest : List Action)
    → run s (a ∷ rest) ≡ next t
    → (u : Flight) × (step s a ≡ next u) × (run u rest ≡ next t)
unfolding run
run-cons s t a rest e = first (step s a) refl e
  where
    first :
        (o : Outcome)
        → step s a ≡ o
        → ◌≡◌ {A = Outcome}
            (elim o [
              | next u ↦ run u rest
              | disabled ↦ disabled
              | blocked ↦ blocked
              | fault ↦ fault
            ])
            (next t)
        → (u : Flight) × (step s a ≡ next u) × (run u rest ≡ next t)
    first (next u) h e = (u, h, e)
    first disabled h e = absurd (ground arith)
    first blocked h e = absurd (ground arith)
    first fault h e = absurd (ground arith)

pub run-promised :
    (s t : Flight) (acts : List Action) (c : ℕ) (r : Result AgwMessage)
    → Inv s
    → promised s c ≡ some r
    → All (λ a. keeps_time c a ≡ true) acts
    → run s acts ≡ next t
    → Inv t × (promised t c ≡ some r)
run-promised s t [] c r inv p h e =
    let same : s ≡ t = unfold run in ground arith in
    subst (λ u. Inv u × (promised u c ≡ some r)) same (inv, p)
run-promised s t (a ∷ rest) c r inv p h e =
    let (u, stepped, further) = run-cons s t a rest e in
    run-promised u t rest c r (step-Inv s u a inv stepped)
      (step-promised s u a c r inv p h.0 stepped) h.1 further
