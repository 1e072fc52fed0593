-- ===== src/Gateway/Client/Calls.antt =====
-- The loop of `Call` (gateway/gateway.go).
use aliyun_ahas.Common.{
  Text, is_empty, true, false, ◌≡◌, Result, ok, err, panic, diverge, if◌then◌else◌, arith,
}
use aliyun_ahas.Gateway.Message.{AgwMessage}
use aliyun_ahas.Gateway.Client.{AgwClient, call, finish_call, retryable}

-- A second attempt is made after an error that the code tries again for, and only then.
unfoldable pub second_try :
    {S : Type 0} → (S → Result AgwMessage × S) → S → Result AgwMessage → Result AgwMessage × S
second_try try s (err e) = if retryable e then try s else (err e, s)
second_try try s (ok m) = (ok m, s)
second_try try s panic = (panic, s)
second_try try s diverge = (diverge, s)

-- `Call` on an initialised client with a request id makes one attempt, and a second one exactly if the
-- first failed by an error to try again for, in the state that the first left; its result is that of
-- the last attempt. It makes no third.
pub call_attempts :
    {S : Type 0} (try : S → Result AgwMessage × S) (c : AgwClient) (outer_req_id : Text) (s : S)
    → c.initialized ≡ true
    → is_empty outer_req_id ≡ false
    → let (r, s') = second_try try (try s).1 (try s).0 in
      call try c outer_req_id s ≡ (finish_call r, s')
unfolding call second_try
call_attempts try c outer_req_id s ready given = ground arith
