-- ===== src/Aliyun/Tests.antt =====
-- Endpoints of concrete regions.
use aliyun_ahas.Common.{lit, text_eq, none, ◌≡◌, refl}
use aliyun_ahas.Aliyun.{get_acm_endpoint}

rules_of_region : get_acm_endpoint (lit "cn-nowhere") ≡ none
unfolding get_acm_endpoint text_eq
rules_of_region = refl
