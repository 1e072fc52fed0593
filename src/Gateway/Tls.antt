-- ===== src/Gateway/Tls.antt =====
-- `getTlsConn` of gateway/conn.go, and the pool that connects by it. The file of the certificate and the packages
-- crypto/x509 and crypto/tls are parameters.
pub mod Unchecked
mod Tests
use aliyun_ahas.Common.{
  ℕ, Text, lit, ◌++◌, decimal, Bool, true, false, Option, none, some, Result, ok, err,
  if◌then◌else◌,
}
use aliyun_ahas.Gateway.Pool.{Net}

abbrev pub connect_timeout_sec : ℕ
connect_timeout_sec = 5

-- The fields of `tls.Config` that are set; `Certs` stands for `x509.CertPool`.
pub record TlsConfig (Certs : Type 0) : Type 0 where
  pub insecure_skip_verify : Bool
  pub root_cas : Certs

-- `open_cert`: the error of `os.OpenFile`; `read_cert`: the bytes and the error of `ioutil.ReadAll`;
-- `append_certs`: the new pool with the certificates of a text, and the result of `AppendCertsFromPEM`;
-- `dial_tls`: `tls.DialWithDialer` for a timeout in seconds and an address.
pub record Tls (W Certs : Type 0) : Type 0 where
  pub open_cert : W → Option Text × W
  pub read_cert : W → (Text × Option Text) × W
  pub append_certs : Text → Certs × Bool
  pub dial_tls : ℕ → TlsConfig Certs → Text → W → Result ℕ × W

module _ {W Certs : Type 0} (tls : Tls W Certs) (gateway_ip : Text) (gateway_port : ℕ) where
  dial_with : Certs × Bool → W → Result ℕ × W
  dial_with (certs, false) w = (err (lit "parse cert file failed"), w)
  dial_with (certs, true) w =
      tls.dial_tls connect_timeout_sec (record { insecure_skip_verify = true; root_cas = certs })
        (gateway_ip ++ (lit ":" ++ decimal gateway_port)) w

  with_cert : (Text × Option Text) × W → Result ℕ × W
  unfolding dial_with
  with_cert ((cert_bytes, some e), w) = (err (lit "read cert file failed, " ++ e), w)
  with_cert ((cert_bytes, none), w) = dial_with (tls.append_certs cert_bytes) w

  with_file : Option Text × W → Result ℕ × W
  unfolding with_cert
  with_file (some e, w) = (err (lit "open cert file failed, " ++ e), w)
  with_file (none, w) = with_cert (tls.read_cert w)

  -- `getTlsConn`
  unfoldable pub get_tls_conn : W → Result ℕ × W
  unfolding with_file
  get_tls_conn w = with_file (tls.open_cert w)

  -- The connections of the pool are made by it.
  abbrev pub tls_net : Net W → Net W
  tls_net net = record net { tls_conn = get_tls_conn }
