-- ===== src/Gateway/Sync/Keys.antt =====
-- The keys of requests in flight (`getSyncId` of gateway/protocol.go).
use aliyun_ahas.Common.{Text, [], ◌∷◌, ◌++◌, lit, decimal, decimal-injective, ◌≡◌}
use aliyun_ahas.Gateway.Message.{AgwMessage}
use aliyun_ahas.Gateway.Sync.{get_sync_id}

append-cancel : (p s t : Text) → p ++ s ≡ p ++ t → s ≡ t
append-cancel [] s t e = e
append-cancel (x ∷ p) s t e = append-cancel p s t (cc)

-- Two messages of one client (the same VPC, address and process flag) that have one key have one
-- request number, so requests with different numbers never share an entry.
pub get_sync_id-injective :
    (m n : AgwMessage)
    → m.client_vpc_id ≡ n.client_vpc_id
    → m.client_ip ≡ n.client_ip
    → m.client_process_flag ≡ n.client_process_flag
    → get_sync_id m ≡ get_sync_id n
    → m.req_id ≡ n.req_id
unfolding get_sync_id
get_sync_id-injective m n vpc ip flag e =
    let same = rw (← vpc, ← ip, ← flag) at e in
    decimal-injective _ _ (
      append-cancel (lit "-") _ _ (
        append-cancel m.client_process_flag _ _ (
          append-cancel (lit "-") _ _ (
            append-cancel (decimal m.client_ip) _ _
              (append-cancel (lit "-") _ _ (append-cancel m.client_vpc_id _ _ same))))))
