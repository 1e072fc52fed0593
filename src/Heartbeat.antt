-- ===== src/Heartbeat.antt =====
-- heartbeat/heartbeat.go, heartbeat/handler.go: the ping handler and the goroutine that sends a heartbeat at
-- each tick. The ticker and the calls of the transport are parameters.
pub mod Beats
mod Tests
use aliyun_ahas.Common.{
  ℕ, zero, suc, ◌+◌, ◌*◌, ◌%◌, ◌^◌, Text, lit, List, [], ◌∷◌, Bool, true, false, Option, none, some,
  Result, ok, err, panic, diverge, ltb, ◌==◌, if◌then◌else◌,
}
use aliyun_ahas.Config.{HeartbeatConfig, or_default}
use aliyun_ahas.Meta.{Meta}
use aliyun_ahas.Tools.Auth.{Keys}
use aliyun_ahas.Transport.Response.{Response, return_success, text, leaf}
use aliyun_ahas.Transport.Request.{Request, Uri, new_request}
use aliyun_ahas.Transport.Interceptor.{Codec}
use aliyun_ahas.Transport.Handler.{Json, AgwRequestHandler, new_common_handler}
use aliyun_ahas.Transport.Invoker.{Returned}
use aliyun_ahas.Transport.Start.{Transport, register_handler, topology_uri}

abbrev pub default_period_ms : ℕ
default_period_ms = 5000

-- `Handle` of the ping handler.
abbrev pub ping : Request → Result Response
ping r = ok (return_success (leaf (text (lit "success"))))

-- `GetPingHandler`
abbrev pub get_ping_handler : Codec → Keys → ℕ → AgwRequestHandler
get_ping_handler c keys now = new_common_handler c keys now ping

-- `heartbeat`; the period is the 64 bits of a `time.Duration`.
pub record Heartbeat : Type 0 where
  pub period : ℕ
  pub transport : Transport

-- `New`
unfoldable pub new_heartbeat : Json → Codec → Keys → ℕ → HeartbeatConfig → Transport → Heartbeat
new_heartbeat json c keys now config trans = record {
  period = or_default config.period_ms default_period_ms * 1000000 % 2 ^ 64;
  transport = register_handler json (lit "ping") (get_ping_handler c keys now) trans;
}

-- Whether `time.NewTicker` takes the period: it panics on one that is not positive.
abbrev pub has_ticker : Heartbeat → Bool
has_ticker beat = if beat.period == 0 then false else ltb beat.period (2 ^ 63)

-- How a heartbeat came out: `record` was called for a success or a failure, which does nothing yet, or the goroutine
-- has ended by a panic that it printed, or is held up in the call.
pub data Beat : Type 0 where
  recorded : Bool → Beat
  died : Beat
  held : Beat

-- What `sendHeartbeat` makes of the result of `Invoke`; a nil response without an error is dereferenced.
unfoldable pub send_heartbeat : Result Returned → Beat
send_heartbeat (ok (response, some e)) = recorded false
send_heartbeat (ok (some response, none)) = recorded response.success
send_heartbeat (ok (none, none)) = died
send_heartbeat (err e) = recorded false
send_heartbeat panic = died
send_heartbeat diverge = held

module _ {W : Type 0} (m : W → Meta) (invoke : Uri → Request → W → Result Returned × W) where
  beat_and : Beat → List Beat × W → W → List Beat × W
  beat_and (recorded b) (beats, w') w = (recorded b ∷ beats, w')
  beat_and died rest w = (died ∷ [], w)
  beat_and held rest w = (held ∷ [], w)

  -- The goroutine of `Start`, for a number of ticks that it receives, with the calls of `record`; the ticker drops the
  -- ticks that come while a call runs, but for one. `m` is what meta gives at the time.
  pub run_ticks : ℕ → W → List Beat × W
  unfolding beat_and send_heartbeat
  run_ticks zero w = ([], w)
  run_ticks (suc n) w =
      let (r, w₁) = invoke (topology_uri (m w) (lit "heartbeat")) new_request w in
      let rest = run_ticks n w₁ in beat_and (send_heartbeat r) rest w₁
