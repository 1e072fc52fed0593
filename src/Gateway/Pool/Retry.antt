-- ===== src/Gateway/Pool/Retry.antt =====
-- The second attempt at a TLS connection (`get` of gateway/conn.go).
use aliyun_ahas.Common.{◌≡◌, inl, inr, Option-cases, Text, none, some, ok, err, true, arith, ℕ}
use aliyun_ahas.Gateway.Pool.{Net, ConnectionPool, get}
use aliyun_ahas.Gateway.Ring.{next}

-- Where the slot is empty and the first TLS attempt fails with `e`, `get` gives an error and leaves the
-- slots alone, even if the second attempt succeeds: it gives `e` if the certificate is there or is downloaded, and
-- the error of that if not.
pub tls_retry_is_lost :
    {W : Type 0} (net : Net W) (p : ConnectionPool) (w : W) (id : ℕ) (e : Text)
    → (next p.ring).0 ≡ ok id
    → p.slots id ≡ none
    → (net.others w p.slots).0 id ≡ none
    → (net.tls_conn (net.others w p.slots).1).0 ≡ err e
    → let cert = (net.check_cert (net.tls_conn (net.others w p.slots).1).1).0 in
      (cert ≡ none → (get net true p w).0 ≡ err e)
      × ((x : Text) → cert ≡ some x → (get net true p w).0 ≡ err x)
      × ((get net true p w).1.slots ≡ (net.others w p.slots).0)
unfolding get
tls_retry_is_lost net p w id e slot empty still_empty fails = (
  λ fine. ground (arith, slot, fine),
  λ x missing. ground (arith, slot, missing),
  elim (Option-cases (net.check_cert (net.tls_conn (net.others w p.slots).1).1).0) [
    | inl fine ↦ ground (arith, slot, fine)
    | inr (x, missing) ↦ ground (arith, slot, missing)
  ],
)
