-- ===== src/Meta/Initialised.antt =====
-- What `InitMetadata` leaves (meta/meta.go).
use aliyun_ahas.Common.{
  ℕ, Text, lit, is_empty, text_eq, text_eq→eq, text_eq_self, Bool-cases, [], ◌∷◌, ◌++◌, Bool, true,
  false, not, none, some, ok, ◌==◌, ◌≡◌, ◌↔◌, inl, inr, refl, sym, ap, ◌∙◌, if◌then◌else◌, arith,
}
use mathlib.Core.List.{append_cancel_right}
use aliyun_ahas.Aliyun.{cn_public, get_ahas_proxy_endpoint, get_ahas_proxy_tls_endpoint}
use aliyun_ahas.Meta.{
  Meta, Machine, modify, vpc_found, of_vpc, ip_resolved, endpoint_for, endpoint_found, set_endpoint,
  identify_machine, init_metadata,
}

last : Text → ℕ → ℕ
last [] d = d
last (c ∷ s) d = last s c

last-append : (s t : Text) (d : ℕ) → last (s ++ t) d ≡ last t (last s d)
unfolding last
last-append [] t d = refl
last-append (c ∷ s) t d = last-append s t c

-- A text that does not end in c is not one in front of "-cn-public".
other_end :
    (k env : Text) → (last k 0 == b'c') ≡ false → text_eq k (env ++ lit "-cn-public") ≡ false
unfolding last
other_end k env h = elim (Bool-cases (text_eq k (env ++ lit "-cn-public"))) [
  | inl same ↦
      let ends =
        ap (λ t. last t 0) (text_eq→eq k (env ++ lit "-cn-public") same)
        ∙ last-append env (lit "-cn-public") 0 in
      absurd (ground arith)
  | inr differs ↦ differs
]

-- For the public region there is an endpoint exactly if the environment is prod.
endpoint_at_public :
    (secure : Bool) (env : Text)
    → endpoint_for secure env cn_public ≡ (
        if text_eq (lit "prod-cn-public") (env ++ lit "-cn-public")
        then some (
            if secure
            then lit "proxy.ahas.cn-public.tls.aliyuncs.com:9528"
            else lit "ahas-proxy.aliyuncs.com:8848")
        else none)
unfolding endpoint_for get_ahas_proxy_tls_endpoint get_ahas_proxy_endpoint last
endpoint_at_public secure env =
    rw
      (
        other_end (lit "pre-cn-hangzhou") env refl,
        other_end (lit "prod-cn-hangzhou") env refl,
        other_end (lit "prod-cn-beijing") env refl,
        other_end (lit "prod-cn-shenzhen") env refl,
        other_end (lit "prod-cn-shanghai") env refl,
        other_end (lit "prod-cn-zhangjiakou") env refl,
      )
      (ground arith)

-- The key of prod and the public region has one reading.
prod_key_iff :
    (env : Text)
    → (text_eq (lit "prod-cn-public") (env ++ lit "-cn-public") ≡ true) ↔ (env ≡ lit "prod")
prod_key_iff env = (
  λ same. sym (
      append_cancel_right (lit "prod") env (lit "-cn-public")
        (text_eq→eq (lit "prod-cn-public") (env ++ lit "-cn-public") same)),
  λ e. rw e (text_eq_self (lit "prod-cn-public")),
)

module _ {W : Type 0} (machine : Machine W) where
  -- Where `InitMetadata` gives no error, the endpoint is the one of the table for the environment and the
  -- region, and the user is known exactly if there is no license; the channel of tenants is as before.
  pub init_metadata_ready :
      (license name_space env : Text) (secure : Bool) (m : Meta) (w : W)
      → (init_metadata machine license name_space env secure (m, w)).0 ≡ ok tt
      → let m' = (init_metadata machine license name_space env secure (m, w)).1.0 in
        (endpoint_for secure env m'.region_id ≡ some m'.ahas_endpoint)
        × (is_empty m'.uid ≡ not (is_empty license))
        × (m'.license ≡ license)
        × (m'.deploy_env ≡ env)
        × (m'.tid_chan ≡ m.tid_chan)
  unfolding init_metadata modify identify_machine of_vpc vpc_found ip_resolved set_endpoint
      endpoint_found
  init_metadata_ready license name_space env secure m w e = ground arith

  -- With a license and an address, `InitMetadata` gives no error exactly for the environment prod: for pre
  -- and test there is no endpoint in the public region that a license stands for.
  pub init_metadata_license_iff :
      (license name_space env ip : Text) (secure : Bool) (m : Meta) (w : W)
      → is_empty license ≡ false
      → machine.private_ip ≡ ok ip
      → ((init_metadata machine license name_space env secure (m, w)).0 ≡ ok tt)
        ↔ (env ≡ lit "prod")
  unfolding init_metadata modify identify_machine ip_resolved set_endpoint endpoint_found
  init_metadata_license_iff license name_space env ip secure m w licensed resolved =
      let here = endpoint_at_public secure env in
      let key = prod_key_iff env in (λ e. ground arith, λ e. ground arith)
