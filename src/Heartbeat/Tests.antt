-- ===== src/Heartbeat/Tests.antt =====
-- Heartbeats over a transport that fails, and a ping.
use aliyun_ahas.Common.{ℕ, ◌+◌, Text, lit, [], ◌∷◌, false, none, some, Result, ok, ◌≡◌, refl, arith}
use aliyun_ahas.Meta.{Meta}
use aliyun_ahas.Transport.Response.{return_success, text, leaf}
use aliyun_ahas.Transport.Request.{Request, Uri}
use aliyun_ahas.Transport.Handler.{encode_response}
use aliyun_ahas.Transport.Invoker.{Returned}
use aliyun_ahas.Transport.Samples.{codec, keys, json, sent-IsAuthentic, sent}
use aliyun_ahas.Transport.Start.Samples.{public_meta, public_transport}
use aliyun_ahas.Transport.Start.Registered.{register_all}
use aliyun_ahas.Heartbeat.{new_heartbeat, get_ping_handler, recorded, run_ticks}
use aliyun_ahas.Heartbeat.Beats.{Answers, every_tick_beats, ping_answered}

abbrev always : ℕ → Meta
always w = public_meta

-- The world counts the calls; each gives an error.
abbrev failing : Uri → Request → ℕ → Result Returned × ℕ
failing uri r w = (ok (none, some (lit "no connection")), w + 1)

failing-Answers : (uri : Uri) (r : Request) (w : ℕ) → Answers (failing uri r w).0
failing-Answers uri r w = ((λ e. ground arith), (λ e. ground arith), (λ e. ground arith))

every_tick_beats_example :
    run_ticks always failing 3 0 ≡ (recorded false ∷ recorded false ∷ recorded false ∷ [], 3)
every_tick_beats_example = every_tick_beats always failing 3 0 failing-Answers

ping_answered_example :
    (answer : Text → Result Text) × ((register_all json
          ((lit "ping", get_ping_handler codec keys 1) ∷ [])
          (new_heartbeat json codec keys 0
            (record { period_ms = 0 })
            public_transport).transport).registered
        (lit "ping")
      ≡ some answer)
    × (answer (lit "{}") ≡ encode_response json (ok (return_success (leaf (text (lit "success"))))))
ping_answered_example =
    ping_answered json codec keys 0 (record { period_ms = 0 }) public_transport
      ((lit "ping", get_ping_handler codec keys 1) ∷ []) (lit "{}") sent refl refl sent-IsAuthentic
