-- ===== src/Gateway/Tls/Unchecked.antt =====
-- What the certificate is good for (gateway/conn.go).
use mathlib.Core.Path.{fun_ext}
use aliyun_ahas.Common.{
  ℕ, Text, lit, ◌++◌, decimal, Bool, true, false, Option, none, some, Result, ok, ◌≡◌, refl, ap,
  sym, ◌∙◌, arith,
}
use aliyun_ahas.Gateway.Pool.{Net, ConnectionPool, get}
use aliyun_ahas.Gateway.Tls.{
  Tls, connect_timeout_sec, get_tls_conn, tls_net, with_file, with_cert, dial_with,
}

-- The documented behaviour of crypto/tls: with InsecureSkipVerify any certificate of the server is accepted.
pub record AcceptsAny {W Certs : Type 0} (tls : Tls W Certs) : Type 0 where
  pub accepts :
      (seconds : ℕ) (certs certs' : Certs) (address : Text) (w : W)
      → tls.dial_tls seconds (record { insecure_skip_verify = true; root_cas = certs }) address w
        ≡ tls.dial_tls seconds (record { insecure_skip_verify = true; root_cas = certs' }) address w

-- The file is there and holds a certificate, whatever it is.
pub record IsReadable {W Certs : Type 0} (tls : Tls W Certs) : Type 0 where
  pub opens : (w : W) → (tls.open_cert w).0 ≡ none
  pub reads : (w : W) → (tls.read_cert w).0.1 ≡ none
  pub parses : (w : W) → (tls.append_certs (tls.read_cert w).0.0).1 ≡ true

-- The same machine with another file, whose reading leaves the world in the same way.
abbrev pub with_bytes : {W Certs : Type 0} → Tls W Certs → (W → Text) → Tls W Certs
with_bytes tls other = record tls { read_cert = λ w. ((other w, none), (tls.read_cert w).1) }

module _ {W Certs : Type 0} (tls : Tls W Certs) (gateway_ip : Text) (gateway_port : ℕ) where
  with_file-none :
      (x : Option Text × W)
      → x.0 ≡ none
      → with_file tls gateway_ip gateway_port x
        ≡ with_cert tls gateway_ip gateway_port (tls.read_cert x.1)
  unfolding with_file
  with_file-none (some e, w) h = absurd (ground arith)
  with_file-none (none, w) h = refl

  with_cert-none :
      (x : (Text × Option Text) × W)
      → x.0.1 ≡ none
      → with_cert tls gateway_ip gateway_port x
        ≡ dial_with tls gateway_ip gateway_port (tls.append_certs x.0.0) x.1
  unfolding with_cert
  with_cert-none ((bytes, some e), w) h = absurd (ground arith)
  with_cert-none ((bytes, none), w) h = refl

  dial_with-true :
      (x : Certs × Bool) (w : W)
      → x.1 ≡ true
      → dial_with tls gateway_ip gateway_port x w
        ≡ tls.dial_tls connect_timeout_sec
            (record { insecure_skip_verify = true; root_cas = x.0 })
            (gateway_ip ++ (lit ":" ++ decimal gateway_port))
            w
  unfolding dial_with
  dial_with-true (certs, false) w h = absurd (ground arith)
  dial_with-true (certs, true) w h = refl

  dials :
      IsReadable tls
      → (w : W)
      → let x = tls.read_cert (tls.open_cert w).1 in
        get_tls_conn tls gateway_ip gateway_port w
        ≡ tls.dial_tls connect_timeout_sec
            (record { insecure_skip_verify = true; root_cas = (tls.append_certs x.0.0).0 })
            (gateway_ip ++ (lit ":" ++ decimal gateway_port))
            x.1
  unfolding get_tls_conn
  dials readable w =
      let x = tls.read_cert (tls.open_cert w).1 in
      with_file-none (tls.open_cert w) (readable.opens w)
      ∙ with_cert-none x (readable.reads (tls.open_cert w).1)
      ∙ dial_with-true (tls.append_certs x.0.0) x.1 (readable.parses (tls.open_cert w).1)

-- The pool connects by TLS in the same way whatever the certificate in the file is: with another one that parses,
-- every call of `get` gives the same connection, slots and world, since `getTlsConn` turns the verification off.
pub certificate_not_checked :
    {W Certs : Type 0} (tls : Tls W Certs) (other : W → Text) (net : Net W) (gateway_ip : Text)
    (gateway_port : ℕ) (p : ConnectionPool) (w : W)
    → AcceptsAny tls
    → IsReadable tls
    → ((v : W) → (tls.append_certs (other v)).1 ≡ true)
    → get (tls_net (with_bytes tls other) gateway_ip gateway_port net) true p w
      ≡ get (tls_net tls gateway_ip gateway_port net) true p w
certificate_not_checked {W} tls other net gateway_ip gateway_port p w any readable parses =
    let other_readable : IsReadable (with_bytes tls other) = record {
      opens = λ v. readable.opens v;
      reads = λ v. refl;
      parses = λ v. parses v;
    } in
    let same : get_tls_conn (with_bytes tls other) gateway_ip gateway_port
        ≡ get_tls_conn tls gateway_ip gateway_port =
      fun_ext λ v.
        dials (with_bytes tls other) gateway_ip gateway_port other_readable v
        ∙ any.accepts connect_timeout_sec (tls.append_certs (other (tls.open_cert v).1)).0
            (tls.append_certs (tls.read_cert (tls.open_cert v).1).0.0).0
            (gateway_ip ++ (lit ":" ++ decimal gateway_port)) (tls.read_cert (tls.open_cert v).1).1
        ∙ sym (dials tls gateway_ip gateway_port readable v) in
    ap (λ (f : W → Result ℕ × W). get (record net { tls_conn = f }) true p w) same

-- A connection by TLS is made only where the certificate's file opens, is read and parses.
pub connects_with_certificate :
    {W Certs : Type 0} (tls : Tls W Certs) (gateway_ip : Text) (gateway_port : ℕ) (w : W)
    (socket : ℕ)
    → (get_tls_conn tls gateway_ip gateway_port w).0 ≡ ok socket
    → let w₁ = (tls.open_cert w).1 in
      ((tls.open_cert w).0 ≡ none)
      × ((tls.read_cert w₁).0.1 ≡ none)
      × ((tls.append_certs (tls.read_cert w₁).0.0).1 ≡ true)
unfolding get_tls_conn with_file with_cert dial_with
connects_with_certificate tls gateway_ip gateway_port w socket h = ground arith
