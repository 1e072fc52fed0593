-- ===== src/Aliyun/Endpoints.antt =====
-- The tables of endpoints (aliyun/aliyun.go).
use aliyun_ahas.Common.{
  Text, lit, text_eq, text_eq→eq, ◌++◌, true, false, none, some, Option-cases, inl, inr, ◌≡◌, ◌↔◌,
  refl, subst, Bool-cases, arith,
}
use aliyun_ahas.Aliyun.{get_ahas_proxy_endpoint, get_acm_endpoint, get_ahas_proxy_tls_endpoint}

-- The environment test has no endpoint in any region, with TLS or without.
pub test_env_unsupported :
    (region : Text)
    → (get_ahas_proxy_tls_endpoint (lit "test-" ++ region) ≡ none)
      × (get_ahas_proxy_endpoint (lit "test-" ++ region) ≡ none)
unfolding get_ahas_proxy_tls_endpoint get_ahas_proxy_endpoint text_eq
test_env_unsupported region = (refl, refl)

-- The two tables of the gateway have the same keys.
pub endpoint_tables_agree :
    (key : Text) → (get_ahas_proxy_tls_endpoint key ≡ none) ↔ (get_ahas_proxy_endpoint key ≡ none)
unfolding get_ahas_proxy_tls_endpoint get_ahas_proxy_endpoint
endpoint_tables_agree key = (λ e. ground arith, λ e. ground arith)

get_acm_endpoint-at :
    (region k acm : Text)
    → get_acm_endpoint k ≡ some acm
    → text_eq k region ≡ true
    → get_acm_endpoint region ≡ some acm
get_acm_endpoint-at region k acm e same =
    subst (λ r. get_acm_endpoint r ≡ some acm) (text_eq→eq k region same) e

other_region :
    (region k acm : Text)
    → get_acm_endpoint k ≡ some acm
    → get_acm_endpoint region ≡ none
    → text_eq k region ≡ false
other_region region k acm e missing = elim (Bool-cases (text_eq k region)) [
  | inl same ↦ let found = get_acm_endpoint-at region k acm e same in cc
  | inr differs ↦ differs
]

no_gateway :
    (region : Text)
    → get_acm_endpoint region ≡ none
    → get_ahas_proxy_tls_endpoint (lit "prod-" ++ region) ≡ none
unfolding get_ahas_proxy_tls_endpoint get_acm_endpoint text_eq
no_gateway region missing =
    rw
      (
        other_region region (lit "cn-hangzhou") _ refl missing,
        other_region region (lit "cn-beijing") _ refl missing,
        other_region region (lit "cn-shenzhen") _ refl missing,
        other_region region (lit "cn-shanghai") _ refl missing,
        other_region region (lit "cn-zhangjiakou") _ refl missing,
        other_region region (lit "cn-public") _ refl missing,
      )
      refl

-- Every region that has a gateway of the environment prod has an endpoint for its rules, too.
pub prod_region_has_acm :
    (region endpoint : Text)
    → get_ahas_proxy_tls_endpoint (lit "prod-" ++ region) ≡ some endpoint
    → (acm : Text) × (get_acm_endpoint region ≡ some acm)
prod_region_has_acm region endpoint e = elim (Option-cases (get_acm_endpoint region)) [
  | inl missing ↦ let none_here = no_gateway region missing in cc
  | inr found ↦ found
]
