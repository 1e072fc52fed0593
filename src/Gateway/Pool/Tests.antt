-- ===== src/Gateway/Pool/Tests.antt =====
-- Runs of the pool.
use aliyun_ahas.Common.{
  ℕ, ◌+◌, ◌≡◌, refl, Text, lit, [], ◌∷◌, true, none, some, Result, ok, err, ◌==◌, if◌then◌else◌,
  Option,
}
use aliyun_ahas.Gateway.Ring.{next}
use aliyun_ahas.Gateway.Pool.{AgwConn, ConnectionPool, Net, get, put_slot}
use aliyun_ahas.Gateway.Pool.Retry.{tls_retry_is_lost}

-- The world counts the attempts; the first TLS attempt fails.
abbrev first_fails : ℕ → Result ℕ × ℕ
first_fails w = if w == 0 then (err (lit "refused"), 1) else (ok w, w + 1)

abbrev quiet : Net ℕ
quiet = record {
  tls_conn = first_fails;
  check_cert = λ w. (none, w);
  dial = λ w. (ok w, w + 1);
  write = λ w c b. (none, w);
  await = λ w c m. (ok m, w);
  others = λ w slots. (slots, w);
}

abbrev eighth : AgwConn
eighth = record { conn_id = 1; socket = 8 }

-- Another goroutine connects slot 1 first.
abbrev busy : Net ℕ
busy = record quiet { others = λ w slots. (put_slot slots 1 (some eighth), w) }

abbrev empty_pool : ConnectionPool
empty_pool = record {
  ring = record { values = 0 ∷ 1 ∷ []; index = 0 };
  slots = λ id. none;
  size = 2;
}

tls_retry_is_lost_example :
    (◌≡◌ {A = Option Text} none none → (get quiet true empty_pool 0).0 ≡ err (lit "refused"))
    × ((x : Text) → none ≡ some x → (get quiet true empty_pool 0).0 ≡ err x)
    × ((get quiet true empty_pool 0).1.slots ≡ empty_pool.slots)
unfolding next
tls_retry_is_lost_example =
    tls_retry_is_lost quiet empty_pool 0 1 (lit "refused") refl refl refl refl
