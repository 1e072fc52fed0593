-- ===== src/Transport/Connect/Identity.antt =====
-- What the client is called after it connected (transport/transport.go).
use aliyun_ahas.Common.{
  ◌<◌, length, [], ◌∷◌, ◌++◌, Text, lit, is_empty, true, false, Option, ok, panic, ◌≡◌, arith,
}
use aliyun_ahas.Meta
use aliyun_ahas.Meta.{Meta}
use aliyun_ahas.Transport.Response.{Response, Leaf, nil, text, object}
use aliyun_ahas.Transport.Connect.{
  is_blank, saved, save_keys, set_cid, tid_sent, set_tid, set_uid, with_result,
  handle_connect_response,
}

-- A response by which the client has connected: its identity is not empty, and every field is a string.
pub record IsConnected (r : Response) (m : Meta) (v : Text → Leaf) : Type 0 where
  pub succeeded : r.success ≡ true
  pub has_fields : r.result ≡ object v
  pub has_uid : v (lit "uid") ≡ text m.uid
  pub has_tid : v (lit "tid") ≡ text m.tid
  pub has_aid : v (lit "aid") ≡ text m.cid
  pub uid_some : is_empty m.uid ≡ false
  pub tid_some : is_empty m.tid ≡ false

-- Where the result is an object and `handleConnectResponse` gives no error, the response was a success that names the user, the
-- tenant and the client by strings, the first two not empty, and the metadata are these.
pub handle_connect_response-IsConnected :
    {W : Type 0} (save : Text → Text → W → Option Text × W) (r : Response) (m : Meta) (w : W)
    (v : Text → Leaf)
    → r.result ≡ object v
    → (handle_connect_response save r m w).0 ≡ ok tt
    → IsConnected r (handle_connect_response save r m w).1 v
unfolding handle_connect_response with_result is_blank set_uid set_tid tid_sent set_cid save_keys
    saved Meta.set_tid
handle_connect_response-IsConnected save r m w v fields e = ground arith

-- A successful response that names the user and the tenant and has no client id makes the function panic, where
-- the channel of tenants has room, with the user and the tenant set and the tenant sent already.
pub missing_aid_panics :
    {W : Type 0} (save : Text → Text → W → Option Text × W) (r : Response) (m : Meta) (w : W)
    (v : Text → Leaf) (u t : Text)
    → length m.tid_chan < 5
    → r.success ≡ true
    → r.result ≡ object v
    → v (lit "uid") ≡ text u
    → v (lit "tid") ≡ text t
    → is_empty u ≡ false
    → is_empty t ≡ false
    → v (lit "aid") ≡ nil
    → handle_connect_response save r m w
      ≡ (panic, record m { uid = u; tid = t; tid_chan = m.tid_chan ++ (t ∷ []) }, w)
unfolding handle_connect_response with_result is_blank set_uid set_tid tid_sent set_cid Meta.set_tid
missing_aid_panics save r m w v u t room success fields user tenant p q missing = ground arith

-- Where `handleConnectResponse` gives no error, the channel of tenants has got the tenant, the one thing that
-- the data source waits for, and nothing else of the metadata but the user, the tenant and the client changed;
-- with the channel full it does not return.
pub connected_tid_sent :
    {W : Type 0} (save : Text → Text → W → Option Text × W) (r : Response) (m : Meta) (w : W)
    (v : Text → Leaf)
    → r.result ≡ object v
    → (handle_connect_response save r m w).0 ≡ ok tt
    → let m' = (handle_connect_response save r m w).1 in
      (m' ≡ record m {
        uid = m'.uid;
        tid = m'.tid;
        cid = m'.cid;
        tid_chan = m.tid_chan ++ (m'.tid ∷ []);
      })
      × (length m.tid_chan < 5)
unfolding handle_connect_response with_result is_blank set_uid set_tid tid_sent set_cid save_keys
    saved Meta.set_tid
connected_tid_sent save r m w v fields e = ground arith

-- After `handleConnectResponse` without an error, the user and the tenant are known, and the tenant is the last
-- that was sent into the channel; the region, the endpoint and the license are as before.
pub record IsIdentified (before after : Meta) : Type 0 where
  pub uid_known : is_empty after.uid ≡ false
  pub tid_known : is_empty after.tid ≡ false
  pub same_region : after.region_id ≡ before.region_id
  pub same_endpoint : after.ahas_endpoint ≡ before.ahas_endpoint
  pub same_license : after.license ≡ before.license
  pub sent : after.tid_chan ≡ before.tid_chan ++ (after.tid ∷ [])

pub handle_connect_response-IsIdentified :
    {W : Type 0} (save : Text → Text → W → Option Text × W) (r : Response) (m : Meta) (w : W)
    → (handle_connect_response save r m w).0 ≡ ok tt
    → IsIdentified m (handle_connect_response save r m w).1
unfolding handle_connect_response with_result is_blank set_uid set_tid tid_sent set_cid save_keys
    saved Meta.set_tid
handle_connect_response-IsIdentified save r m w e = ground arith
