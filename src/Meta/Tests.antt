-- ===== src/Meta/Tests.antt =====
-- The metadata of a machine with a loopback interface and one that is up.
use aliyun_ahas.Common.{
  ℕ, Text, lit, text_eq, [], ◌∷◌, List, true, false, none, some, ok, err, ◌≡◌, if◌then◌else◌,
}
use aliyun_ahas.Aliyun.{get_failed}
use aliyun_ahas.Meta.{Machine}
use aliyun_ahas.Meta.Interfaces.{NetIp, ip_net, ip_addr, other_addr, Interface, resolve_private_ip}
use aliyun_ahas.Meta.Interfaces.Addresses.{candidates, first_or, resolve_private_ip-candidates}

-- The world counts the requests.
abbrev machine : Machine ℕ
machine = record {
  http = record { http_get = λ url w. (get_failed (lit "no route"), w); sleep = λ w. w };
  process_id = 7;
  os_hostname = ok (lit "host");
  private_ip = ok (lit "10.0.0.1");
}

-- An address is its text; that of the loopback interface is known, and one of version 6 has no short form.
abbrev addresses : NetIp
addresses = record {
  Ip = Text;
  is_loopback = λ ip. text_eq ip (lit "127.0.0.1");
  to4 = λ ip. if text_eq ip (lit "fe80::1") then none else some ip;
  string = λ ip. ip;
}

abbrev interfaces : List (Interface Text)
interfaces =
    record { up = true; loopback = true; addrs = ok (ip_net (some (lit "127.0.0.1")) ∷ []) }
    ∷ record { up = false; loopback = false; addrs = ok (ip_net (some (lit "10.0.0.9")) ∷ []) }
    ∷ record { up = true; loopback = false; addrs = err (lit "no list") }
    ∷ record {
      up = true;
      loopback = false;
      addrs =
          ok (other_addr ∷ ip_addr (some (lit "fe80::1")) ∷ ip_net (some (lit "10.0.0.1")) ∷ []);
    }
    ∷ []

resolve_private_ip-candidates_example :
    resolve_private_ip addresses (ok interfaces)
    ≡ first_or addresses (err (lit "Cannot get host ip address")) (candidates addresses interfaces)
resolve_private_ip-candidates_example = resolve_private_ip-candidates addresses interfaces
