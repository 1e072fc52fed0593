-- ===== src/Sentinel/Acm.antt =====
-- sentinel/datasource/acm.go: the listeners of the rules. The configuration client, json and the rule
-- managers of sentinel-golang are parameters.
pub mod Loading
pub mod Breaking
pub mod Listening
pub mod Registered
use aliyun_ahas.Common.{
  ℕ, Text, lit, ◌++◌, List, [], ◌∷◌, Bool, true, false, Option, none, some, Result, ok, err, panic,
  diverge, if◌then◌else◌,
}
use aliyun_ahas.Common.Actions.{Act, proceed, ◌>>=◌, ◌>>◌, done, fail}
use aliyun_ahas.Config.{DataSourceConfig}
use aliyun_ahas.Sentinel.Floats.{Floats}
use aliyun_ahas.Sentinel.Rules.{
  LegacyFlowRule, FlowRule, flow_to_go_rule, LegacySystemRule, SystemRule, system_to_go_rule,
  LegacyDegradeRule, BreakerRule, degrade_to_go_rule,
}
use aliyun_ahas.Sentinel.Rules.Hotspot.{LegacyParamFlowRule, HotspotRule, param_to_go_rule}

-- The end of a data id, behind its prefix.
abbrev id_tail : Text → Text → Text → Text
id_tail user_id name_space app_name = user_id ++ (lit "-" ++ (name_space ++ (lit "-" ++ app_name)))

unfoldable pub form_flow_rule_data_id : Text → Text → Text → Text
form_flow_rule_data_id user_id name_space app_name =
    lit "flow-rule-" ++ id_tail user_id name_space app_name

unfoldable pub form_system_rule_data_id : Text → Text → Text → Text
form_system_rule_data_id user_id name_space app_name =
    lit "system-rule-" ++ id_tail user_id name_space app_name

unfoldable pub form_circuit_breaking_rule_data_id : Text → Text → Text → Text
form_circuit_breaking_rule_data_id user_id name_space app_name =
    lit "degrade-rule-" ++ id_tail user_id name_space app_name

unfoldable pub form_param_flow_rule_data_id : Text → Text → Text → Text
form_param_flow_rule_data_id user_id name_space app_name =
    lit "param-flow-rule-" ++ id_tail user_id name_space app_name

-- `if rule != nil { arr = append(arr, rule) }`
abbrev append_rule : {B : Type 0} → List B → Option B → List B
append_rule arr none = arr
append_rule arr (some rule) = arr ++ (rule ∷ [])

-- A rule is converted, and the loop goes on with the array.
convert_next :
    {B : Type 0} → List B → Result (Option B) → (List B → Result (List B)) → Result (List B)
convert_next arr (ok rule) next = next (append_rule arr rule)
convert_next arr (err e) next = err e
convert_next arr panic next = panic
convert_next arr diverge next = diverge

-- The loop that converts the rules, with the array so far. A nil among the rules is dereferenced.
convert_loop : {A B : Type 0} → (A → Result (Option B)) → List B → List (Option A) → Result (List B)
unfolding convert_next
convert_loop to_go_rule arr [] = ok arr
convert_loop to_go_rule arr (none ∷ rs) = panic
convert_loop to_go_rule arr (some r ∷ rs) =
    convert_next arr (to_go_rule r) (λ arr'. convert_loop to_go_rule arr' rs)

load_converted :
    {W B : Type 0} → (List B → W → Option Text × W) → Result (List B) → W → Result (Unit {0}) × W
load_converted load (ok arr) w = let (e, w₁) = load arr w in (ok tt, w₁)
load_converted load (err e) w = (ok tt, w)
load_converted load panic w = (panic, w)
load_converted load diverge w = (diverge, w)

-- The body that the four `on…RuleChange` share, for what `json.Unmarshal` gives: a parse error and an
-- error of the rule manager are logged, and nothing else.
pub on_rules :
    {W A B : Type 0}
    → (A → Result (Option B))
    → (List B → W → Option Text × W)
    → Result (List (Option A))
    → W
    → Result (Unit {0}) × W
unfolding convert_loop load_converted
on_rules to_go_rule load (ok rs) w = load_converted load (convert_loop to_go_rule [] rs) w
on_rules to_go_rule load (err e) w = (ok tt, w)
on_rules to_go_rule load panic w = (panic, w)
on_rules to_go_rule load diverge w = (diverge, w)

-- The rule managers, and `json.Unmarshal` into each kind of rules.
pub record RuleManagers (F W : Type 0) : Type 0 where
  pub parse_flow : Text → Result (List (Option (LegacyFlowRule F)))
  pub parse_system : Text → Result (List (Option (LegacySystemRule F)))
  pub parse_degrade : Text → Result (List (Option (LegacyDegradeRule F)))
  pub parse_param : Text → Result (List (Option (LegacyParamFlowRule F)))
  pub load_flow : List (FlowRule F) → W → Option Text × W
  pub load_system : List (SystemRule F) → W → Option Text × W
  pub load_breaker : List (BreakerRule F) → W → Option Text × W
  pub load_hotspot : List (HotspotRule F) → W → Option Text × W

module _ (fl : Floats) {W : Type 0} (rm : RuleManagers fl.Float W) where
  unfoldable pub on_flow_rule_change : Text → W → Result (Unit {0}) × W
  on_flow_rule_change text w =
      on_rules (λ r. ok (some (flow_to_go_rule r))) rm.load_flow (rm.parse_flow text) w

  unfoldable pub on_system_rule_change : Text → W → Result (Unit {0}) × W
  on_system_rule_change text w =
      on_rules (λ r. ok (some (system_to_go_rule fl r))) rm.load_system (rm.parse_system text) w

  unfoldable pub on_circuit_breaking_rule_change : Text → W → Result (Unit {0}) × W
  on_circuit_breaking_rule_change text w =
      on_rules (λ r. ok (degrade_to_go_rule fl r)) rm.load_breaker (rm.parse_degrade text) w

  unfoldable pub on_param_flow_rule_change : Text → W → Result (Unit {0}) × W
  on_param_flow_rule_change text w =
      on_rules (param_to_go_rule fl) rm.load_hotspot (rm.parse_param text) w

-- Which function a listener calls.
pub data OnChange : Type 0 where
  flow_change : OnChange
  system_change : OnChange
  breaking_change : OnChange
  param_change : OnChange

-- The client: `tid_arrives` says whether the tenant came within 30 seconds, `create_config_client` makes
-- the client for timeouts, a tenant and a host, and `listen` is `ListenConfig` for a data id of the group of the SDK.
pub record ConfigClient (W : Type 0) : Type 0 where
  pub tid_arrives : W → Bool × W
  pub create_config_client : DataSourceConfig → Text → Text → Act W (Unit {0})
  pub listen : Text → OnChange → Act W (Unit {0})

module _ {W : Type 0} (client : ConfigClient W) where
  wait_tid : Act W (Unit {0})
  wait_tid w =
      let (arrived, w₁) = client.tid_arrives w in
      if arrived then (ok tt, w₁) else (err (lit "wait AHAS transport timeout"), w₁)

  -- `InitAcm`; the tenant, the user, the namespace and the application's name are those of meta and of sentinel.
  pub init_acm : Text → DataSourceConfig → Text → Text → Text → Text → Act W (Unit {0})
  unfolding wait_tid
  init_acm acm_host conf tid user_id name_space app_name = do
    wait_tid
    client.create_config_client conf tid (acm_host ++ lit ":8080")
    client.listen (form_flow_rule_data_id user_id name_space app_name) flow_change
    client.listen (form_system_rule_data_id user_id name_space app_name) system_change
    client.listen (form_circuit_breaking_rule_data_id user_id name_space app_name) breaking_change
    client.listen (form_param_flow_rule_data_id user_id name_space app_name) param_change
