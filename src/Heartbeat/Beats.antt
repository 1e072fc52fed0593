-- ===== src/Heartbeat/Beats.antt =====
-- Heartbeats and pings (heartbeat/heartbeat.go, heartbeat/handler.go).
use aliyun_ahas.Common.{
  ℕ, zero, suc, Text, lit, map, List, [], ◌∷◌, Bool, false, none, some, Result, ok, err, panic,
  diverge, ◌≡◌, ◌≢◌, ◌∙◌, refl, ap,
}
use aliyun_ahas.Config.{HeartbeatConfig}
use aliyun_ahas.Meta.{Meta}
use aliyun_ahas.Tools.Auth.{Keys}
use aliyun_ahas.Transport.Response.{return_success, text, leaf}
use aliyun_ahas.Transport.Request.{Request, Uri, new_request}
use aliyun_ahas.Transport.Interceptor.{Codec}
use aliyun_ahas.Transport.Interceptor.Accepted.{IsAuthentic}
use aliyun_ahas.Transport.Handler.{Json, AgwRequestHandler, encode_response}
use aliyun_ahas.Transport.Handler.Admission.{authentic_request_handled}
use aliyun_ahas.Transport.Invoker.{Returned}
use aliyun_ahas.Transport.Start.{Transport, gateway_handler, topology_uri}
use aliyun_ahas.Transport.Start.Registered.{register_all, first_handler_stays}
use aliyun_ahas.Heartbeat.{
  ping, get_ping_handler, new_heartbeat, Beat, recorded, send_heartbeat, beat_and, run_ticks,
}

-- The call has a response that says success, and no error.
abbrev pub is_success : Result Returned → Bool
is_success (ok (some response, none)) = response.success
is_success (ok (some response, some e)) = false
is_success (ok (none, e)) = false
is_success (err e) = false
is_success panic = false
is_success diverge = false

-- The call ends, and gives a response or an error.
abbrev pub Answers : Result Returned → Type 0
Answers r = (r ≢ panic) × (r ≢ diverge) × (r ≢ ok (none, none))

module _ {W : Type 0} (m : W → Meta) (invoke : Uri → Request → W → Result Returned × W) where
  -- One call for a heartbeat: a new request to the heartbeat's handler of the topology.
  abbrev pub call : W → Result Returned × W
  call w = invoke (topology_uri (m w) (lit "heartbeat")) new_request w

  -- The world behind a number of such calls, one after the other.
  abbrev pub world : ℕ → W → W
  world zero w = w
  world (suc n) w = world n (call w).1

  -- Which of these calls were successes.
  abbrev pub successes : ℕ → W → List Bool
  successes zero w = []
  successes (suc n) w = is_success (call w).0 ∷ successes n (call w).1

  beat_and-answered :
      (r : Result Returned) (rest : List Beat × W) (w : W)
      → Answers r
      → beat_and m invoke (send_heartbeat r) rest w ≡ (recorded (is_success r) ∷ rest.0, rest.1)
  unfolding beat_and send_heartbeat
  beat_and-answered (ok (some response, none)) rest w h = refl
  beat_and-answered (ok (some response, some e)) rest w h = refl
  beat_and-answered (ok (none, none)) rest w h = absurd (h.2 refl)
  beat_and-answered (ok (none, some e)) rest w h = refl
  beat_and-answered (err e) rest w h = refl
  beat_and-answered panic rest w h = absurd (h.0 refl)
  beat_and-answered diverge rest w h = absurd (h.1 refl)

  -- Where every call of the transport ends and gives a response or an error, the goroutine outlives any number
  -- of received ticks: for each it makes one call for a heartbeat, in the world that the calls before it left, failed
  -- ones included, and counts as a success exactly those with no error whose response says success.
  pub every_tick_beats :
      (n : ℕ) (w : W)
      → ((uri : Uri) (r : Request) (w : W) → Answers (invoke uri r w).0)
      → run_ticks m invoke n w ≡ (map recorded (successes n w), world n w)
  unfolding run_ticks
  every_tick_beats zero w answers = refl
  every_tick_beats (suc n) w answers =
      let (r, w₁) = call w in
      let answered = answers (topology_uri (m w) (lit "heartbeat")) new_request w in
      beat_and-answered r (run_ticks m invoke n w₁) w₁ answered
      ∙ ap (λ (q : List Beat × W). (recorded (is_success r) ∷ q.0, q.1))
          (every_tick_beats n w₁ answers)

-- The gateway's ping, where it is authentic, is answered by a success, whatever handlers are registered after
-- the heartbeat was made on a transport that had no ping handler.
pub ping_answered :
    (json : Json) (c : Codec) (keys : Keys) (now : ℕ) (config : HeartbeatConfig) (trans : Transport)
    (more : List (Text × AgwRequestHandler)) (request : Text) (r : Request)
    → trans.handlers (lit "ping") ≡ none
    → json.unmarshal_request request ≡ ok r
    → IsAuthentic c keys r
    → (answer : Text → Result Text) × ((register_all json more
            (new_heartbeat json c keys now config trans).transport).registered
          (lit "ping")
        ≡ some answer)
      × (answer request ≡ encode_response json (ok (return_success (leaf (text (lit "success"))))))
unfolding new_heartbeat register_all
ping_answered json c keys now config trans more request r free decodes authentic =
    let handler = get_ping_handler c keys now in
    (
      gateway_handler json handler,
      (first_handler_stays json (lit "ping") handler more trans refl free).in_client,
      authentic_request_handled json c keys now ping request r decodes authentic,
    )
