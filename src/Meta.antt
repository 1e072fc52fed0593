-- ===== src/Meta.antt =====
-- meta/entity.go, meta/meta.go: what the process knows of itself. The machine (interfaces, process id,
-- host name, HTTP) is a parameter.
pub mod Interfaces
pub mod Initialised
mod Tests
use aliyun_ahas.Common.{
  ℕ, Text, lit, is_empty, List, [], ◌∷◌, ◌++◌, length, Bool, true, false, not, ◌||◌, Option, none,
  some, Result, ok, err, panic, diverge, ltb, decimal, if◌then◌else◌,
}
use aliyun_ahas.Common.Actions.{Act, proceed, ◌>>=◌, ◌>>◌, done, fail}
use aliyun_ahas.Aliyun.{
  cn_public, get_ahas_proxy_endpoint, get_ahas_proxy_tls_endpoint, Http, VpcEcsMetadata,
  retrieve_vpc_metadata,
}

-- `tid_chan` is what the channel holds.
pub record Meta : Type 0 where
  pub license : Text
  pub name_space : Text
  pub deploy_env : Text
  pub in_vpc : Bool
  pub region_id : Text
  pub vpc_id : Text
  pub ip : Text
  pub host_name : Text
  pub pid : Text
  pub cid : Text
  pub tid : Text
  pub instance_id : Text
  pub uid : Text
  pub version : Text
  pub ahas_endpoint : Text
  pub tid_chan : List Text
  pub debugging : Bool

abbrev pub current_sdk_version : Text
current_sdk_version = lit "1.0.3"

-- `metadata`, as the program starts.
abbrev pub metadata : Meta
metadata = record {
  license = [];
  name_space = [];
  deploy_env = [];
  in_vpc = false;
  region_id = [];
  vpc_id = [];
  ip = [];
  host_name = [];
  pid = [];
  cid = [];
  tid = [];
  instance_id = [];
  uid = [];
  version = current_sdk_version;
  ahas_endpoint = [];
  tid_chan = [];
  debugging = false;
}

-- `SetUid`, `SetCid`
abbrev pub set_uid : Text → Meta → Meta
set_uid uid m = record m { uid = uid }

abbrev pub set_cid : Text → Meta → Meta
set_cid cid m = record m { cid = cid }

-- `SetTid`: the tenant is set, and then sent into the channel of five; with the channel full and nobody who
-- receives, the send does not return.
unfoldable pub set_tid : Text → Meta → Result (Unit {0}) × Meta
set_tid tid m =
    if ltb (length m.tid_chan) 5
    then (ok tt, record m { tid = tid; tid_chan = m.tid_chan ++ (tid ∷ []) })
    else (diverge, record m { tid = tid })

-- What the machine gives: `process_id` is `os.Getpid`, `os_hostname` is `os.Hostname`, `private_ip` the
-- result of `resolvePrivateIp`.
pub record Machine (W : Type 0) : Type 0 where
  pub http : Http W
  pub process_id : ℕ
  pub os_hostname : Result Text
  pub private_ip : Result Text

-- `resolveHostName`
abbrev pub resolve_host_name : Result Text → Text
resolve_host_name (ok name) = name
resolve_host_name _ = []

-- The endpoint for the key of an environment and a region.
unfoldable pub endpoint_for : Bool → Text → Text → Option Text
endpoint_for secure env region =
    if secure
    then get_ahas_proxy_tls_endpoint (env ++ (lit "-" ++ region))
    else get_ahas_proxy_endpoint (env ++ (lit "-" ++ region))

module _ {W : Type 0} (machine : Machine W) where
  modify : (Meta → Meta) → Act (Meta × W) (Unit {0})
  modify f (m, w) = (ok tt, (f m, w))

  -- The branch for an empty license, for the result of `RetrieveVpcMetadata`.
  vpc_found : Result VpcEcsMetadata → Act (Meta × W) (Unit {0})
  unfolding modify
  vpc_found (ok vpc) s =
      if is_empty vpc.uid
      then (err (lit "cannot find AHAS license"), s)
      else modify
          (λ m. record m {
            region_id = vpc.region_id;
            in_vpc = true;
            vpc_id = vpc.vpc_id;
            ip = vpc.ip;
            host_name = vpc.host_name;
            pid = decimal machine.process_id;
            instance_id = vpc.instance_id;
            uid = vpc.uid;
          })
          s
  vpc_found (err e) s = (err (lit "cannot find AHAS license"), s)
  vpc_found panic s = (panic, s)
  vpc_found diverge s = (diverge, s)

  of_vpc : Act (Meta × W) (Unit {0})
  unfolding vpc_found
  of_vpc (m, w) = let (r, w₁) = retrieve_vpc_metadata machine.http w in vpc_found r (m, w₁)

  -- The branch for a license, for the result of `resolvePrivateIp`.
  ip_resolved : Text → Result Text → Act (Meta × W) (Unit {0})
  unfolding modify
  ip_resolved license (ok ip) s =
      modify
        (λ m. record m {
          region_id = cn_public;
          in_vpc = false;
          vpc_id = license;
          ip = ip;
          host_name = resolve_host_name machine.os_hostname;
          pid = decimal machine.process_id;
          instance_id = resolve_host_name machine.os_hostname;
          uid = [];
        })
        s
  ip_resolved license (err e) s =
      let (x, s₁) =
        modify (λ m. record m { region_id = cn_public; in_vpc = false; vpc_id = license }) s in
      (err (lit "cannot resolve private IP: " ++ e), s₁)
  ip_resolved license panic s = (panic, s)
  ip_resolved license diverge s = (diverge, s)

  endpoint_found : Text → Option Text → Act (Meta × W) (Unit {0})
  unfolding modify
  endpoint_found key none s =
      (err (lit "No available AHAS endpoint, env not supported: " ++ key), s)
  endpoint_found key (some endpoint) s =
      if is_empty endpoint
      then (err (lit "No available AHAS endpoint, env not supported: " ++ key), s)
      else modify (λ m. record m { ahas_endpoint = endpoint; version = current_sdk_version }) s

  set_endpoint : Bool → Text → Act (Meta × W) (Unit {0})
  unfolding endpoint_for endpoint_found
  set_endpoint secure env (m, w) =
      endpoint_found (env ++ (lit "-" ++ m.region_id)) (endpoint_for secure env m.region_id) (m, w)

  identify_machine : Text → Act (Meta × W) (Unit {0})
  unfolding of_vpc ip_resolved
  identify_machine license =
      if is_empty license then of_vpc else ip_resolved license machine.private_ip

  -- `InitMetadata`: the result, and what `metadata` is then.
  unfoldable pub init_metadata : Text → Text → Text → Bool → Act (Meta × W) (Unit {0})
  unfolding modify identify_machine set_endpoint
  init_metadata license name_space env secure = do
    modify (λ m. record m { license = license; name_space = name_space; deploy_env = env })
    identify_machine license
    set_endpoint secure env
