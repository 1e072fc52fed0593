-- ===== src/Meta/Interfaces.antt =====
-- meta/meta.go: `resolvePrivateIp`, over the interfaces of the machine.
pub mod Addresses
use aliyun_ahas.Common.{
  ℕ, Text, lit, is_empty, List, [], ◌∷◌, ◌++◌, length, Bool, true, false, not, ◌||◌, Option, none,
  some, Result, ok, err, panic, diverge, ltb, decimal, if◌then◌else◌,
}
use aliyun_ahas.Common.Actions.{Act, proceed, ◌>>=◌, ◌>>◌, done, fail}
use aliyun_ahas.Aliyun.{
  cn_public, get_ahas_proxy_endpoint, get_ahas_proxy_tls_endpoint, Http, VpcEcsMetadata,
  retrieve_vpc_metadata,
}

-- `net.IP` (none for nil), with its `IsLoopback`, `To4` and `String`.
pub record NetIp : Type 1 where
  pub Ip : Type 0
  pub is_loopback : Ip → Bool
  pub to4 : Ip → Option Ip
  pub string : Ip → Text

-- A `net.Addr`, by its dynamic type.
pub data Addr (I : Type 0) : Type 0 where
  ip_net : Option I → Addr I
  ip_addr : Option I → Addr I
  other_addr : Addr I

-- A `net.Interface`: two of its flags, and the result of `Addrs`.
pub record Interface (I : Type 0) : Type 0 where
  pub up : Bool
  pub loopback : Bool
  pub addrs : Result (List (Addr I))

abbrev pub ip_of : {I : Type 0} → Addr I → Option I
ip_of (ip_net ip) = ip
ip_of (ip_addr ip) = ip
ip_of other_addr = none

module _ (net : NetIp) where
  -- The IPv4 address for which the inner loop returns.
  pub usable : Option net.Ip → Option net.Ip
  usable none = none
  usable (some ip) = if net.is_loopback ip then none else net.to4 ip

  -- The inner loop, with `rest` for where it ends.
  addr_loop : List (Addr net.Ip) → Result Text → Result Text
  unfolding usable
  addr_loop [] rest = rest
  addr_loop (addr ∷ addrs) rest =
      let more = addr_loop addrs rest in
      elim (usable (ip_of addr)) [ none ↦ more | some ip ↦ ok (net.string ip) ]

  -- The addresses of an interface, none where they cannot be listed.
  abbrev pub listed : Result (List (Addr net.Ip)) → List (Addr net.Ip)
  listed (ok addrs) = addrs
  listed _ = []

  abbrev pub skipped : Interface net.Ip → Bool
  skipped i = not i.up || i.loopback

  interface_loop : List (Interface net.Ip) → Result Text
  unfolding addr_loop
  interface_loop [] = err (lit "Cannot get host ip address")
  interface_loop (i ∷ ifs) =
      let rest = interface_loop ifs in if skipped i then rest else addr_loop (listed i.addrs) rest

  -- `resolvePrivateIp`, with the result of `net.Interfaces`.
  pub resolve_private_ip : Result (List (Interface net.Ip)) → Result Text
  unfolding interface_loop
  resolve_private_ip (ok ifs) = interface_loop ifs
  resolve_private_ip (err e) = err e
  resolve_private_ip panic = panic
  resolve_private_ip diverge = diverge
