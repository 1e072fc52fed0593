-- ===== src/Gateway/Pool.antt =====
-- gateway/conn.go: the connection pool and the writes on a connection. The network and the file of the
-- certificate are parameters: functions of the outside world `W`, which they take on.
pub mod Slots
pub mod Retry
mod Tests
use aliyun_ahas.Common.{
  ℕ, zero, suc, ◌+◌, Text, lit, Bool, true, false, Option, none, some, Result, ok, err, panic,
  diverge, ◌==◌, if◌then◌else◌,
}
use aliyun_ahas.Tools.Gzip.{Gzip}
use aliyun_ahas.Gateway.Message.{AgwMessage}
use aliyun_ahas.Gateway.Codec.{encode}
use aliyun_ahas.Gateway.Ring.{Ring, new_ring, add, next}

pub record AgwConn : Type 0 where
  pub conn_id : ℕ
  pub socket : ℕ

-- `slots` is the `sync.Map` of connections.
pub record ConnectionPool : Type 0 where
  pub ring : Ring ℕ
  pub slots : ℕ → Option AgwConn
  pub size : ℕ

-- What the pool uses of the outside: `tls_conn` is a call of `getTlsConn`, `check_cert` one of
-- `checkOrDownloadCert`, `dial` one of `net.DialTimeout`; a socket is a number. `write` is `Write` on a
-- connection, `await` is `wait` for the response. `others` is what the other goroutines do to the slots
-- before this one holds the lock.
pub record Net (W : Type 0) : Type 0 where
  pub tls_conn : W → Result ℕ × W
  pub check_cert : W → Option Text × W
  pub dial : W → Result ℕ × W
  pub write : W → AgwConn → Text → Option Text × W
  pub await : W → AgwConn → AgwMessage → Result AgwMessage × W
  pub others : W → (ℕ → Option AgwConn) → (ℕ → Option AgwConn) × W

add_slots : ℕ → ℕ → Ring ℕ → Ring ℕ
add_slots i zero r = r
add_slots i (suc n) r = add_slots (i + 1) n (add r (some i))

-- The pool that `getConnectionPoolInstance` makes for a positive size, and nil for 0.
unfoldable pub get_connection_pool_instance : ℕ → Option ConnectionPool
unfolding add_slots
get_connection_pool_instance zero = none
get_connection_pool_instance (suc n) =
    some (record { ring = add_slots 0 (suc n) new_ring; slots = λ id. none; size = suc n })

abbrev pub put_slot : (ℕ → Option AgwConn) → ℕ → Option AgwConn → ℕ → Option AgwConn
put_slot f id c j = if id == j then c else f j

module _ {W : Type 0} (net : Net W) where
  -- The second `getTlsConn`, whose result is given to an inner `err`: the outer one keeps the error of
  -- the first, and the connection is dropped.
  retry_tls : Text → W → Result ℕ × W
  retry_tls first w =
      let (e, w₁) = net.check_cert w in
      elim e [ some x ↦ (err x, w₁) | none ↦ let (r, w₂) = net.tls_conn w₁ in (err first, w₂) ]

  after_tls : Result ℕ → W → Result ℕ × W
  after_tls (ok socket) w = (ok socket, w)
  after_tls (err e) w = retry_tls e w
  after_tls panic w = (panic, w)
  after_tls diverge w = (diverge, w)

  pub connect : Bool → W → Result ℕ × W
  connect false w = net.dial w
  connect true w = let (r, w₁) = net.tls_conn w in after_tls r w₁

  -- A socket is put into its slot; an error leaves the slots alone.
  keep : ConnectionPool → ℕ → Result ℕ → W → Result AgwConn × ConnectionPool × W
  keep p id (ok socket) w =
      let c : AgwConn = record { conn_id = id; socket = socket } in
      (ok c, record p { slots = put_slot p.slots id (some c) }, w)
  keep p id (err e) w = (err e, p, w)
  keep p id panic w = (panic, p, w)
  keep p id diverge w = (diverge, p, w)

  -- The second look at the slot, under the lock.
  get_locked : Bool → ConnectionPool → ℕ → Option AgwConn → W → Result AgwConn × ConnectionPool × W
  get_locked tls p id (some c) w = (ok c, p, w)
  get_locked tls p id none w = let (r, w₁) = connect tls w in keep p id r w₁

  -- The first look, without the lock.
  get_unlocked :
      Bool → ConnectionPool → ℕ → Option AgwConn → W → Result AgwConn × ConnectionPool × W
  get_unlocked tls p id (some c) w = (ok c, p, w)
  get_unlocked tls p id none w =
      let (slots, w₁) = net.others w p.slots in
      get_locked tls (record p { slots = slots }) id (slots id) w₁

  get_at : Bool → ConnectionPool → Result ℕ → W → Result AgwConn × ConnectionPool × W
  get_at tls p (ok id) w = get_unlocked tls p id (p.slots id) w
  get_at tls p (err e) w = (err e, p, w)
  get_at tls p panic w = (panic, p, w)
  get_at tls p diverge w = (diverge, p, w)

  -- `get`, with the client's `TlsFlag`.
  unfoldable pub get : Bool → ConnectionPool → W → Result AgwConn × ConnectionPool × W
  unfolding connect after_tls retry_tls keep get_locked get_unlocked get_at
  get tls p w = let (r, ring) = next p.ring in get_at tls (record p { ring = ring }) r w

  -- `writeSync`
  unfoldable pub write_sync : Gzip → W → AgwConn → AgwMessage → Result AgwMessage × W
  write_sync gz w c msg =
      let (bytes, encoded) = encode gz msg in
      let (e, w₁) = net.write w c bytes in
      if encoded
      then elim e [ some x ↦ (err x, w₁) | none ↦ net.await w₁ c msg ]
      else (err (lit "encode wrong"), w)

  -- `write`
  unfoldable pub write_msg : Gzip → W → AgwConn → AgwMessage → Option Text × W
  write_msg gz w c msg =
      let (bytes, encoded) = encode gz msg in
      if encoded then net.write w c bytes else (some (lit "encode wrong"), w)

-- `remove`, by which `close` begins.
unfoldable pub remove : ConnectionPool → ℕ → ConnectionPool
remove p id = record p { slots = put_slot p.slots id none }
