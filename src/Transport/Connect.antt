-- ===== src/Transport/Connect.antt =====
-- `handleConnectResponse` of transport/transport.go. `SaveMetadataToFile` is called as a function of the
-- outside world `W`.
pub mod Identity
use aliyun_ahas.Common.{
  Text, lit, [], ◌∷◌, ◌++◌, Bool, true, false, not, Option, none, some, Result, ok, err, panic,
  diverge, if◌then◌else◌,
}
use aliyun_ahas.Meta
use aliyun_ahas.Meta.{Meta}
use aliyun_ahas.Transport.Response.{Response, Leaf, nil, text, other, Value, leaf, object}

-- `v == nil || v == ""`
is_blank : Leaf → Bool
is_blank nil = true
is_blank (text []) = true
is_blank (text (c ∷ s)) = false
is_blank other = false

module _ {W : Type 0} (save : Text → Text → W → Option Text × W) where
  saved : Option Text × W → Meta → Result (Unit {0}) × Meta × W
  saved (none, w) m = (ok tt, m, w)
  saved (some e, w) m = (err e, m, w)

  -- Each function goes on where a type assertion to string holds, and panics where it does not.
  save_keys : Leaf → Leaf → Meta → W → Result (Unit {0}) × Meta × W
  save_keys (text ak) (text sk) m w = saved (save ak sk w) m
  save_keys ak sk m w = (panic, m, w)

  set_cid : (Text → Leaf) → Leaf → Meta → W → Result (Unit {0}) × Meta × W
  set_cid v (text a) m w = save_keys (v (lit "ak")) (v (lit "sk")) (Meta.set_cid a m) w
  set_cid v _ m w = (panic, m, w)

  -- `SetTid` has returned, or waits for ever.
  tid_sent : (Text → Leaf) → Result (Unit {0}) × Meta → W → Result (Unit {0}) × Meta × W
  tid_sent v (ok _, m) w = set_cid v (v (lit "aid")) m w
  tid_sent v (err e, m) w = (err e, m, w)
  tid_sent v (panic, m) w = (panic, m, w)
  tid_sent v (diverge, m) w = (diverge, m, w)

  set_tid : (Text → Leaf) → Leaf → Meta → W → Result (Unit {0}) × Meta × W
  set_tid v (text t) m w = tid_sent v (Meta.set_tid t m) w
  set_tid v _ m w = (panic, m, w)

  set_uid : (Text → Leaf) → Leaf → Meta → W → Result (Unit {0}) × Meta × W
  set_uid v (text u) m w = set_tid v (v (lit "tid")) (Meta.set_uid u m) w
  set_uid v _ m w = (panic, m, w)

  with_result : Value → Meta → W → Result (Unit {0}) × Meta × W
  with_result (leaf x) m w = (err (lit "response is error"), m, w)
  with_result (object v) m w =
      if is_blank (v (lit "tid"))
      then (err (lit "tid is empty"), m, w)
      else if is_blank (v (lit "uid"))
      then (err (lit "uid is empty"), m, w)
      else set_uid v (v (lit "uid")) m w

  -- `handleConnectResponse`
  unfoldable pub handle_connect_response : Response → Meta → W → Result (Unit {0}) × Meta × W
  unfolding is_blank saved save_keys set_cid tid_sent set_tid set_uid with_result
  handle_connect_response r m w =
      if not r.success
      then (err (lit "connect server failed, " ++ r.error), m, w)
      else with_result r.result m w
