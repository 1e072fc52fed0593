-- ===== src/Gateway/Sync/Arrived.antt =====
-- The end of a call whose response has arrived (gateway/sync.go).
use aliyun_ahas.Common.{
  ℕ, Text, List, [], ◌∷◌, length, true, Bool-cases, Option, none, some, Result, err, All, ◌≡◌, ◌≤◌,
  ◌==◌, inl, inr, refl, ap, ◌∙◌, arith,
}
use aliyun_ahas.Gateway.Message.{AgwMessage}
use aliyun_ahas.Gateway.Sync.{
  Flight, Call, idle, waiting, received, timed_out, deleted, returned, ReaderAt, reading, found,
  sending, closing, telling, stopped, Action, receive, unregister, finish, load, delete, send, tell,
  Outcome, next, conn_closed_msg, get_sync_id, error_msg_request_timeout, wait_result, step, Reach,
}
use aliyun_ahas.Gateway.Sync.Invariant.{Inv, Reach-Inv, step-Inv}
use aliyun_ahas.Gateway.Sync.Promised.{
  run, in_hand, coming, settled, promised, keeps_time, run-cons, run-promised,
}

abbrev pub call_after : Outcome → ℕ → Option Call
call_after (next t) c = some (t.call c)
call_after _ c = none

-- Some actions, five at most, by which the call returns.
abbrev pub Ends : Flight → ℕ → Result AgwMessage → Type 0
Ends s c r =
    (bs : List Action) × (id : Text) × (length bs ≤ 5)
    × (call_after (run s bs) c ≡ some (returned id r))

module _ (s : Flight) (c : ℕ) (r : Result AgwMessage) (inv : Inv s) where
  returned-Ends :
      (id : Text) (q : Result AgwMessage) → s.call c ≡ returned id q → q ≡ r → Ends s c r
  unfolding run
  returned-Ends id q e same = ([], id, omega arith, ground (arith, e, same))

  timed_out-Ends :
      (id : Text) → s.call c ≡ timed_out id → err error_msg_request_timeout ≡ r → Ends s c r
  unfolding run step
  timed_out-Ends id e same = (unregister c ∷ [], id, omega arith, ground (arith, e, same))

  deleted-Ends :
      (id : Text) (m : AgwMessage) → s.call c ≡ deleted id m → wait_result m ≡ r → Ends s c r
  unfolding run step
  deleted-Ends id m e same = (finish c ∷ [], id, omega arith, ground (arith, inv id c))

  received-Ends :
      (id : Text) (m : AgwMessage) → s.call c ≡ received id m → wait_result m ≡ r → Ends s c r
  unfolding run step
  received-Ends id m e same =
      (unregister c ∷ finish c ∷ [], id, omega arith, ground (arith, inv id c))

  buffered-Ends :
      (id : Text) (m : AgwMessage)
      → s.call c ≡ waiting id
      → s.buffer c ≡ some m
      → wait_result m ≡ r
      → Ends s c r
  unfolding run step
  buffered-Ends id m e b same =
      (receive c ∷ unregister c ∷ finish c ∷ [], id, omega arith, ground (arith, inv id c))

  sending-Ends :
      (id : Text) (m : AgwMessage)
      → s.call c ≡ waiting id
      → s.reader ≡ sending c m
      → wait_result m ≡ r
      → Ends s c r
  unfolding run step
  sending-Ends id m e b same =
      (send ∷ receive c ∷ unregister c ∷ finish c ∷ [], id, omega arith, ground (arith, inv id c))

  found-Ends :
      (id k : Text) (m : AgwMessage)
      → s.call c ≡ waiting id
      → s.reader ≡ found k c m
      → wait_result m ≡ r
      → Ends s c r
  unfolding run step
  found-Ends id k m e b same = (
    delete ∷ send ∷ receive c ∷ unregister c ∷ finish c ∷ [],
    id,
    omega arith,
    ground (arith, inv id c),
  )

  telling-Ends :
      (id : Text) (v : List Text)
      → s.call c ≡ waiting id
      → s.reader ≡ telling c v
      → wait_result conn_closed_msg ≡ r
      → Ends s c r
  unfolding run step
  telling-Ends id v e b same =
      (tell ∷ receive c ∷ unregister c ∷ finish c ∷ [], id, omega arith, ground (arith, inv id c))

  none_coming :
      (id : Text)
      → s.call c ≡ waiting id
      → ◌≡◌ {A = Option (Result AgwMessage)} none (some r)
      → Ends s c r
  none_coming id e p = absurd (ground arith)

  waiting-Ends :
      (id : Text) (rd : ReaderAt)
      → s.call c ≡ waiting id
      → s.reader ≡ rd
      → coming none (in_hand rd c) ≡ some r
      → Ends s c r
  waiting-Ends id (found k d m) e b p = elim (Bool-cases (d == c)) [
    | inl same ↦
        let here : d ≡ c = ground (arith, same) in
        found-Ends id k m e (b ∙ ap (λ j. found k j m) here) (ground (arith, same, p))
    | inr other ↦ none_coming id e (ground (arith, other, p))
  ]
  waiting-Ends id (sending d m) e b p = elim (Bool-cases (d == c)) [
    | inl same ↦
        let here : d ≡ c = ground (arith, same) in
        sending-Ends id m e (b ∙ ap (λ j. sending j m) here) (ground (arith, same, p))
    | inr other ↦ none_coming id e (ground (arith, other, p))
  ]
  waiting-Ends id (telling d v) e b p = elim (Bool-cases (d == c)) [
    | inl same ↦
        let here : d ≡ c = ground (arith, same) in
        telling-Ends id v e (b ∙ ap (λ j. telling j v) here) (ground (arith, same, p))
    | inr other ↦ none_coming id e (ground (arith, other, p))
  ]
  waiting-Ends id reading e b p = none_coming id e p
  waiting-Ends id (closing v) e b p = none_coming id e p
  waiting-Ends id stopped e b p = none_coming id e p

  settled-Ends :
      (k : Call) (o : Option AgwMessage)
      → s.call c ≡ k
      → s.buffer c ≡ o
      → settled k o (in_hand s.reader c) ≡ some r
      → Ends s c r
  settled-Ends idle o e b p = absurd (ground arith)
  settled-Ends (waiting id) none e b p = waiting-Ends id s.reader e refl p
  settled-Ends (waiting id) (some m) e b p = buffered-Ends id m e b (ground (arith, p))
  settled-Ends (received id m) o e b p = received-Ends id m e (ground (arith, p))
  settled-Ends (timed_out id) o e b p = timed_out-Ends id e (ground (arith, p))
  settled-Ends (deleted id m) o e b p = deleted-Ends id m e (ground (arith, p))
  settled-Ends (returned id q) o e b p = returned-Ends id q e (ground (arith, p))

-- A message that is loaded for a call that waits settles the call.
load-promised :
    (s t : Flight) (c : ℕ) (id : Text) (m : AgwMessage)
    → Inv s
    → s.entry (get_sync_id m) ≡ some c
    → s.call c ≡ waiting id
    → step s (load m) ≡ next t
    → promised t c ≡ some (wait_result m)
unfolding step
load-promised s t c id m inv entry waits e = ground (arith, inv (get_sync_id m) c)

-- In every interleaving: if the reader gets a message for whose key a waiting call is registered, then whatever
-- other actions follow, so long as the timer of that call does not run out, the call returns the result for that
-- message (the message, or the error for a closed connection if it says so) and nothing else; and at any
-- point behind it at most five actions lead to its return, so that it is never stuck.
pub loaded_response_returned :
    (s t : Flight) (c : ℕ) (id : Text) (m : AgwMessage) (acts : List Action)
    → Reach s
    → s.entry (get_sync_id m) ≡ some c
    → s.call c ≡ waiting id
    → All (λ a. keeps_time c a ≡ true) acts
    → run s (load m ∷ acts) ≡ next t
    → ((j : Text) (q : Result AgwMessage) → t.call c ≡ returned j q → q ≡ wait_result m)
      × Ends t c (wait_result m)
loaded_response_returned s t c id m acts reached entry waits timely e =
    let inv = Reach-Inv reached in
    let (u, loaded, further) = run-cons s t (load m) acts e in
    let p = load-promised s u c id m inv entry waits loaded in
    let (inv', p') =
      run-promised u t acts c (wait_result m) (step-Inv s u (load m) inv loaded) p timely further in
    (
      λ j q returns. ground (arith, p', returns),
      settled-Ends t c (wait_result m) inv' (t.call c) (t.buffer c) refl refl p',
    )
