-- ===== src/Aliyun.antt =====
-- aliyun/aliyun.go: the endpoints, the metadata of the machine and the download. HTTP and files are
-- parameters: functions of the outside world `W`.
pub mod Endpoints
pub mod Retrieval
mod Tests
use aliyun_ahas.Common.{
  ℕ, Text, lit, is_empty, text_eq, List, [], ◌∷◌, ◌++◌, Bool, true, false, not, Option, none, some,
  Result, ok, err, panic, diverge, decimal, ◌==◌, if◌then◌else◌,
}
use aliyun_ahas.Common.Actions.{Act, proceed, ◌>>=◌, ◌>>◌, done, fail}
use aliyun_ahas.Service.{Context, nil, live, cancelled}

abbrev pub cn_public : Text
cn_public = lit "cn-public"

abbrev pub find : List (Text × Text) → Text → Option Text
find [] key = none
find ((k, v) ∷ rest) key = let later = find rest key in if text_eq k key then some v else later

-- `endpointMap`
abbrev pub endpoint_map : List (Text × Text)
endpoint_map =
    (lit "pre-cn-hangzhou", lit "pre.proxy.ahas.aliyun.com:9527")
    ∷ (lit "prod-cn-hangzhou", lit "proxy.ahas.cn-hangzhou.aliyuncs.com:9527")
    ∷ (lit "prod-cn-beijing", lit "proxy.ahas.cn-beijing.aliyuncs.com:9527")
    ∷ (lit "prod-cn-shenzhen", lit "proxy.ahas.cn-shenzhen.aliyuncs.com:9527")
    ∷ (lit "prod-cn-shanghai", lit "proxy.ahas.cn-shanghai.aliyuncs.com:9527")
    ∷ (lit "prod-cn-zhangjiakou", lit "proxy.ahas.cn-zhangjiakou.aliyuncs.com:9527")
    ∷ (lit "prod-cn-public", lit "ahas-proxy.aliyuncs.com:8848")
    ∷ []

-- `acmEndpointMap`
abbrev pub acm_endpoint_map : List (Text × Text)
acm_endpoint_map =
    (lit "cn-qingdao", lit "addr-qd-internal.edas.aliyun.com")
    ∷ (lit "cn-beijing", lit "addr-bj-internal.edas.aliyun.com")
    ∷ (lit "cn-hangzhou", lit "addr-hz-internal.edas.aliyun.com")
    ∷ (lit "cn-shanghai", lit "addr-sh-internal.edas.aliyun.com")
    ∷ (lit "cn-shenzhen", lit "addr-sz-internal.edas.aliyun.com")
    ∷ (lit "cn-zhangjiakou", lit "addr-cn-zhangjiakou-internal.edas.aliyun.com")
    ∷ (lit "cn-hongkong", lit "addr-hk-internal.edas.aliyuncs.com")
    ∷ (lit "ap-southeast-1", lit "addr-singapore-internal.edas.aliyun.com")
    ∷ (lit "cn-public", lit "acm.aliyun.com")
    ∷ []

-- `tlsEndpointMap`
abbrev pub tls_endpoint_map : List (Text × Text)
tls_endpoint_map =
    (lit "pre-cn-hangzhou", lit "pre.proxy.ahas.tls.aliyuncs.com:9528")
    ∷ (lit "prod-cn-hangzhou", lit "proxy.ahas.cn-hangzhou.tls.aliyuncs.com:9528")
    ∷ (lit "prod-cn-beijing", lit "proxy.ahas.cn-beijing.tls.aliyuncs.com:9528")
    ∷ (lit "prod-cn-shenzhen", lit "proxy.ahas.cn-shenzhen.tls.aliyuncs.com:9528")
    ∷ (lit "prod-cn-shanghai", lit "proxy.ahas.cn-shanghai.tls.aliyuncs.com:9528")
    ∷ (lit "prod-cn-zhangjiakou", lit "proxy.ahas.cn-zhangjiakou.tls.aliyuncs.com:9528")
    ∷ (lit "prod-cn-public", lit "proxy.ahas.cn-public.tls.aliyuncs.com:9528")
    ∷ []

-- `GetAhasProxyEndpoint`
unfoldable pub get_ahas_proxy_endpoint : Text → Option Text
get_ahas_proxy_endpoint key = find endpoint_map key

-- `GetAcmEndpoint`
unfoldable pub get_acm_endpoint : Text → Option Text
get_acm_endpoint key = find acm_endpoint_map key

-- `GetAhasProxyTlsEndpoint`
unfoldable pub get_ahas_proxy_tls_endpoint : Text → Option Text
get_ahas_proxy_tls_endpoint key = find tls_endpoint_map key

-- What a `Get` and the read of its body come to.
pub data Reply : Type 0 where
  get_failed : Text → Reply
  read_failed : Text → Reply
  replied : ℕ → Text → Reply

-- The text that `getRemoteMessage` takes from a reply.
unfoldable pub message_of : Reply → Text
message_of (get_failed e) = []
message_of (read_failed e) = []
message_of (replied status body) = if status == 200 then body else []

-- `VpcEcsMetadata`, whose `IsVpc` nothing sets.
pub record VpcEcsMetadata : Type 0 where
  pub vpc_id : Text
  pub ip : Text
  pub host_name : Text
  pub region_id : Text
  pub instance_id : Text
  pub uid : Text

abbrev pub ecs_vpc_url : Text
ecs_vpc_url = lit "http://100.100.100.200/latest/meta-data/"

-- `http_get` gets a url, `sleep` is `time.Sleep(time.Second)`.
pub record Http (W : Type 0) : Type 0 where
  pub http_get : Text → W → Reply × W
  pub sleep : W → W

module _ {W : Type 0} (http : Http W) where
  -- `getRemoteMessage`, for a name behind `EcsVpcUrl`.
  unfoldable pub get_remote_message : Text → Act W Text
  get_remote_message name w =
      let (reply, w₁) = http.http_get (ecs_vpc_url ++ name) w in (ok (message_of reply), w₁)

  -- `if value == "" { return nil, fmt.Errorf(e) }`
  unfoldable pub require : Text → Text → Act W (Unit {0})
  require value e w = if is_empty value then (err e, w) else (ok tt, w)

  -- The second `getVpcId`, a second after the first that gave nothing.
  unfoldable pub retry_vpc_id : Text → Act W Text
  retry_vpc_id first w =
      let again = get_remote_message (lit "vpc-id") (http.sleep w) in
      if is_empty first then again else (ok first, w)

  -- `RetrieveVpcMetadata`
  unfoldable pub retrieve_vpc_metadata : Act W VpcEcsMetadata
  unfolding retry_vpc_id require get_remote_message
  retrieve_vpc_metadata = do
    first ← get_remote_message (lit "vpc-id")
    vpc_id ← retry_vpc_id first
    require vpc_id (lit "get vpc id info failed")
    region_id ← get_remote_message (lit "region-id")
    require region_id (lit "failed to get regionId")
    ip ← get_remote_message (lit "private-ipv4")
    require ip (lit "get ecs ip info failed")
    host_name ← get_remote_message (lit "hostname")
    instance_id ← get_remote_message (lit "instance-id")
    require instance_id (lit "get ecs id info failed")
    uid ← get_remote_message (lit "owner-account-id")
    require uid (lit "get vpc uid info failed")
    done (record {
      vpc_id = vpc_id;
      ip = ip;
      host_name = host_name;
      region_id = region_id;
      instance_id = instance_id;
      uid = uid;
    })

-- `GetOssUrl`, with the bucket of `tools.Constant`.
unfoldable pub get_oss_url : Text → Text → Text → Bool → Text
get_oss_url bucket region original_file_path is_private =
    if is_private
    then lit "http://"
      ++ (bucket
          ++ (lit "-"
              ++ (region
                  ++ (lit ".oss-"
                      ++ (region ++ (lit "-internal.aliyuncs.com/" ++ original_file_path))))))
    else lit "http://"
      ++ (bucket ++ (lit "-cn-public.oss-cn-hangzhou.aliyuncs.com/" ++ original_file_path))

-- `os.Create`, `http.Get` with the status of the response, and `io.Copy` of its body into the file.
pub record Files (W : Type 0) : Type 0 where
  pub create : Text → Act W (Unit {0})
  pub get_status : Text → Act W ℕ
  pub copy_body : Act W (Unit {0})

module _ {W : Type 0} (files : Files W) where
  check_status : ℕ → Act W (Unit {0})
  check_status status w =
      if status == 200 then (ok tt, w) else (err (lit "response code: " ++ decimal status), w)

  download_file : Text → Text → Act W (Unit {0})
  unfolding check_status
  download_file dest url = do
    files.create dest
    status ← files.get_status url
    check_status status
    files.copy_body

  -- `Download`, with the context of `channel` (none before `GetInstance`), the bucket of `Constant`, and
  -- the arguments of `Download`. `Err` of a nil context panics.
  unfoldable pub download :
      Option Context → Option Text → Text → Text → Text → Bool → Act W (Unit {0})
  unfolding download_file
  download none bucket dest region path is_private w = (panic, w)
  download (some nil) bucket dest region path is_private w = (panic, w)
  download (some cancelled) bucket dest region path is_private w =
      (err (lit "aliyun channel disabled"), w)
  download (some live) none dest region path is_private w =
      proceed (files.create dest w) (λ _ w₁. (panic, w₁))
  download (some live) (some bucket) dest region path is_private w =
      download_file dest (get_oss_url bucket region path is_private) w
