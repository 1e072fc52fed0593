-- ===== src/Gateway/Tls/Tests.antt =====
-- Runs of the connections by TLS.
use aliyun_ahas.Common.{
  ℕ, ◌+◌, Text, lit, [], ◌∷◌, is_empty, not, true, none, ok, err, ◌≡◌, refl, if◌then◌else◌,
}
use aliyun_ahas.Gateway.Pool.{ConnectionPool, Net, get}
use aliyun_ahas.Gateway.Tls.{Tls, get_tls_conn, tls_net}
use aliyun_ahas.Gateway.Tls.Unchecked.{AcceptsAny, IsReadable, with_bytes, certificate_not_checked}

-- A server whose certificate is signed by "ours". The world counts the connections.
abbrev strict : Tls ℕ Text
strict = record {
  open_cert = λ w. (none, w);
  read_cert = λ w. ((lit "ours", none), w);
  append_certs = λ bytes. (bytes, not (is_empty bytes));
  dial_tls = λ seconds conf address w.
      if conf.insecure_skip_verify then (ok w, w + 1) else (err (lit "bad certificate"), w);
}

abbrev net : Net ℕ
net = record {
  tls_conn = λ w. (err [], w);
  check_cert = λ w. (none, w);
  dial = λ w. (ok w, w + 1);
  write = λ w c b. (none, w);
  await = λ w c m. (ok m, w);
  others = λ w slots. (slots, w);
}

abbrev empty_pool : ConnectionPool
empty_pool = record {
  ring = record { values = 0 ∷ 1 ∷ []; index = 0 };
  slots = λ id. none;
  size = 2;
}

connects : get_tls_conn strict (lit "10.0.0.1") 9528 4 ≡ (ok 4, 5)
unfolding get_tls_conn
connects = refl

needs_certificate :
    get_tls_conn (with_bytes strict (λ w. [])) (lit "10.0.0.1") 9528 4
    ≡ (err (lit "parse cert file failed"), 4)
unfolding get_tls_conn
needs_certificate = refl

strict-AcceptsAny : AcceptsAny strict
strict-AcceptsAny = record { accepts = λ seconds certs certs' address w. refl }

strict-IsReadable : IsReadable strict
strict-IsReadable = record { opens = λ w. refl; reads = λ w. refl; parses = λ w. refl }

certificate_not_checked_example :
    get
      (tls_net (with_bytes strict (λ w. lit "forged")) (lit "10.0.0.1") 9528 net)
      true
      empty_pool
      4
    ≡ get (tls_net strict (lit "10.0.0.1") 9528 net) true empty_pool 4
certificate_not_checked_example =
    certificate_not_checked strict (λ w. lit "forged") net (lit "10.0.0.1") 9528 empty_pool 4
      strict-AcceptsAny strict-IsReadable (λ v. refl)
