-- ===== src/Meta/Interfaces/Addresses.antt =====
-- Which address the process takes for its own (meta/meta.go).
use aliyun_ahas.Common.{
  Text, lit, List, [], ◌∷◌, ◌++◌, Bool, true, false, none, some, Result, ok, err, panic, diverge,
  ◌≡◌, refl, sym, ap, ◌∙◌, if◌then◌else◌, arith,
}
use aliyun_ahas.Meta.Interfaces.{
  NetIp, Addr, ip_net, ip_addr, other_addr, Interface, usable, addr_loop, listed, skipped,
  interface_loop, resolve_private_ip,
}

module _ (net : NetIp) where
  -- The IPv4 address of one that is no loopback address.
  abbrev pub v4_candidate : net.Ip → List net.Ip
  v4_candidate ip = elim (net.is_loopback ip) [
    | true ↦ []
    | false ↦ elim (net.to4 ip) [ none ↦ [] | some short ↦ short ∷ [] ]
  ]

  -- The candidates among the addresses of one interface: those of the two kinds that carry an IP.
  abbrev pub addr_candidates : List (Addr net.Ip) → List net.Ip
  addr_candidates [] = []
  addr_candidates (ip_net (some ip) ∷ addrs) = v4_candidate ip ++ addr_candidates addrs
  addr_candidates (ip_addr (some ip) ∷ addrs) = v4_candidate ip ++ addr_candidates addrs
  addr_candidates (ip_net none ∷ addrs) = addr_candidates addrs
  addr_candidates (ip_addr none ∷ addrs) = addr_candidates addrs
  addr_candidates (other_addr ∷ addrs) = addr_candidates addrs

  -- The candidates of an interface: none unless it is up, no loopback interface, and its addresses are listed.
  abbrev pub of_interface : Bool → Bool → Result (List (Addr net.Ip)) → List net.Ip
  of_interface true false (ok addrs) = addr_candidates addrs
  of_interface true false (err e) = []
  of_interface true false panic = []
  of_interface true false diverge = []
  of_interface true true listing = []
  of_interface false is_loopback listing = []

  abbrev pub candidates : List (Interface net.Ip) → List net.Ip
  candidates [] = []
  candidates (i ∷ ifs) = of_interface i.up i.loopback i.addrs ++ candidates ifs

  abbrev pub first_or : Result Text → List net.Ip → Result Text
  first_or e [] = e
  first_or e (ip ∷ ips) = ok (net.string ip)

  first_or-append :
      (e : Result Text) (ips more : List net.Ip)
      → first_or e (ips ++ more) ≡ first_or (first_or e more) ips
  first_or-append e [] more = refl
  first_or-append e (ip ∷ ips) more = refl

  addr_loop-addr_candidates :
      (addrs : List (Addr net.Ip)) (rest : Result Text)
      → addr_loop net addrs rest ≡ first_or rest (addr_candidates addrs)
  unfolding addr_loop usable
  addr_loop-addr_candidates [] rest = refl
  addr_loop-addr_candidates (ip_net (some ip) ∷ addrs) rest =
      ground (arith, addr_loop-addr_candidates addrs rest)
  addr_loop-addr_candidates (ip_addr (some ip) ∷ addrs) rest =
      ground (arith, addr_loop-addr_candidates addrs rest)
  addr_loop-addr_candidates (ip_net none ∷ addrs) rest = addr_loop-addr_candidates addrs rest
  addr_loop-addr_candidates (ip_addr none ∷ addrs) rest = addr_loop-addr_candidates addrs rest
  addr_loop-addr_candidates (other_addr ∷ addrs) rest = addr_loop-addr_candidates addrs rest

  -- What the outer loop does with one interface, with `rest` for what the later ones give.
  interface-of_interface :
      (up is_loopback : Bool) (listing : Result (List (Addr net.Ip))) (rest : Result Text)
      → (if skipped net (record { up = up; loopback = is_loopback; addrs = listing })
          then rest
          else addr_loop net (listed net listing) rest)
        ≡ first_or rest (of_interface up is_loopback listing)
  unfolding addr_loop
  interface-of_interface true false (ok addrs) rest = addr_loop-addr_candidates addrs rest
  interface-of_interface true false (err e) rest = refl
  interface-of_interface true false panic rest = refl
  interface-of_interface true false diverge rest = refl
  interface-of_interface true true listing rest = refl
  interface-of_interface false is_loopback listing rest = refl

  interface_loop-candidates :
      (ifs : List (Interface net.Ip))
      → interface_loop net ifs ≡ first_or (err (lit "Cannot get host ip address")) (candidates ifs)
  unfolding interface_loop
  interface_loop-candidates [] = refl
  interface_loop-candidates (i ∷ ifs) =
      let failed = err (lit "Cannot get host ip address") in
      interface-of_interface i.up i.loopback i.addrs (interface_loop net ifs)
      ∙ ap (λ r. first_or r (of_interface i.up i.loopback i.addrs)) (interface_loop-candidates ifs)
      ∙ sym (first_or-append failed (of_interface i.up i.loopback i.addrs) (candidates ifs))

  -- `resolvePrivateIp` gives the first IPv4 address that is no loopback address, of the interfaces that are
  -- up and no loopback interface, in their order, passing over those whose addresses cannot be listed; and
  -- an error exactly where there is none.
  pub resolve_private_ip-candidates :
      (ifs : List (Interface net.Ip))
      → resolve_private_ip net (ok ifs)
        ≡ first_or (err (lit "Cannot get host ip address")) (candidates ifs)
  unfolding resolve_private_ip
  resolve_private_ip-candidates ifs = interface_loop-candidates ifs
