-- ===== src/Tools/Constants.antt =====
-- tools/env.go: the constants of an environment. `Constant` points to one of the entries of `Repositories`, so
-- what is set through it is set there.
use aliyun_ahas.Common.{
  Text, lit, text_eq, [], ◌++◌, Bool, true, false, Option, none, some, ◌≡◌, if◌then◌else◌, arith,
}

pub record Constants : Type 0 where
  pub env : Text
  pub repository_name : Text
  pub repository_domain : Text
  pub os_agent_remote_path : Text
  pub bucket : Text

-- The keys of `Repositories`.
pub data Environment : Type 0 where
  pre_env : Environment
  test_env : Environment
  prod_env : Environment

-- `constant` says to which entry `Constant` points, with none for nil.
pub record Repositories : Type 0 where
  pub entry : Environment → Constants
  pub constant : Option Environment

abbrev pub first_entry : Environment → Constants
first_entry pre_env = record {
  env = lit "pre";
  repository_name = lit "ahas";
  repository_domain = [];
  os_agent_remote_path = lit "agent/pre";
  bucket = lit "ahas";
}
first_entry prod_env = record {
  env = lit "prod";
  repository_name = lit "ahascr";
  repository_domain = [];
  os_agent_remote_path = lit "agent/prod";
  bucket = lit "ahasoss";
}
first_entry test_env = record {
  env = lit "test";
  repository_name = lit "ahas";
  repository_domain = [];
  os_agent_remote_path = lit "agent/test";
  bucket = lit "ahas";
}

-- `Repositories` and `Constant`, as the program starts.
abbrev pub repositories : Repositories
repositories = record { entry = first_entry; constant = none }

abbrev pub same_env : Environment → Environment → Bool
same_env pre_env pre_env = true
same_env test_env test_env = true
same_env prod_env prod_env = true
same_env _ _ = false

-- `Repositories[environment]`, or that of prod for a key that is missing.
unfoldable pub environment_of : Text → Environment
environment_of environment =
    if text_eq environment (lit "pre")
    then pre_env
    else if text_eq environment (lit "test")
    then test_env
    else prod_env

-- `IsPublicEnv`
abbrev pub is_public_env : Text → Bool
is_public_env region_id = text_eq (lit "cn-public") region_id

unfoldable pub domain_of : Text → Text
domain_of region_id =
    if is_public_env region_id
    then lit "registry.cn-hangzhou.aliyuncs.com"
    else lit "registry-vpc." ++ (region_id ++ lit ".aliyuncs.com")

-- `InitConstant`
unfoldable pub init_constant : Text → Text → Repositories → Repositories
init_constant environment region_id r =
    let k = environment_of environment in
    record {
      entry = λ j.
          if same_env k j
          then record (r.entry j) { repository_domain = domain_of region_id }
          else r.entry j;
      constant = some k;
    }

-- What `Constant` points to.
abbrev pub current : Repositories → Option Constants
current r = elim r.constant [ none ↦ none | some k ↦ some (r.entry k) ]

-- After two calls of `InitConstant`, `Constant` is the entry of the second environment with the domain of the
-- second region; the entry of the first keeps the domain of the first region, where the two differ.
pub init_constant_twice :
    (env env' region region' : Text) (r : Repositories)
    → let r' = init_constant env' region' (init_constant env region r) in
      (current r'
        ≡ some (record (r.entry (environment_of env')) { repository_domain = domain_of region' }))
      × (r'.entry (environment_of env) ≡ (
          if same_env (environment_of env') (environment_of env)
          then record (r.entry (environment_of env)) { repository_domain = domain_of region' }
          else record (r.entry (environment_of env)) { repository_domain = domain_of region }))
unfolding init_constant
init_constant_twice env env' region region' r = ground arith
