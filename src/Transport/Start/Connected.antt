-- ===== src/Transport/Start/Connected.antt =====
-- What `Start` sends and what it leaves (transport/transport.go).
use aliyun_ahas.Common.{
  Text, lit, is_empty, text_eq, Option, none, some, Result, ok, err, panic, diverge, ◌≡◌,
  if◌then◌else◌, arith,
}
use aliyun_ahas.Meta.{Meta}
use aliyun_ahas.Transport.Request.{at_key, add_header, add_param, new_request}
use aliyun_ahas.Transport.Handler.{Json}
use aliyun_ahas.Transport.Invoker.{Client, Returned, invoke}
use aliyun_ahas.Transport.Connect.Identity.{IsIdentified, handle_connect_response-IsIdentified}
use aliyun_ahas.Transport.Start.{App, connect_request, connected, start_transport, topology_uri}

-- The request that connects names the process by its VPC, address and process id, and the user; it carries
-- the license exactly where the user is not known.
pub connect_request_names :
    (app : App) (m : Meta)
    → let p = (connect_request app m).params in
      (at_key p (lit "vpcId") ≡ m.vpc_id)
      × (at_key p (lit "ip") ≡ m.ip)
      × (at_key p (lit "pid") ≡ m.pid)
      × (p (lit "ak") ≡ (if is_empty m.uid then some m.license else none))
      × (p (lit "uid") ≡ (if is_empty m.uid then none else some m.uid))
unfolding connect_request add_param add_header new_request text_eq
connect_request_names app m = ground arith

module _ {W : Type 0} (json : Json) (client : Client W)
    (save : Text → Text → W → Option Text × W) where
  connected-IsIdentified :
      (m : Meta) (r : Result Returned × W)
      → (connected json client save m r).0 ≡ ok tt
      → IsIdentified m (connected json client save m r).1
  unfolding connected
  connected-IsIdentified m (ok (some response, none), w) e =
      handle_connect_response-IsIdentified save response m w e
  connected-IsIdentified m (ok (none, none), w) e = absurd (ground arith)
  connected-IsIdentified m (ok (response, some x), w) e = absurd (ground arith)
  connected-IsIdentified m (err x, w) e = absurd (ground arith)
  connected-IsIdentified m (panic, w) e = absurd (ground arith)
  connected-IsIdentified m (diverge, w) e = absurd (ground arith)

  -- Where `Start` gives no error, the user and the tenant are known, and the tenant has been sent to whoever
  -- waits for it.
  pub start_transport-IsIdentified :
      (app : App) (request_id : Text) (m : Meta) (w : W)
      → (start_transport json client save app request_id m w).0 ≡ ok tt
      → IsIdentified m (start_transport json client save app request_id m w).1
  unfolding start_transport
  start_transport-IsIdentified app request_id m w e =
      connected-IsIdentified m
        (invoke json client none request_id (topology_uri m (lit "connect")) (connect_request app m)
          w)
        e
