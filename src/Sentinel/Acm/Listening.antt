-- ===== src/Sentinel/Acm/Listening.antt =====
-- The data ids and the listeners (sentinel/datasource/acm.go).
use aliyun_ahas.Common.{Text, lit, ◌++◌, List, [], ◌∷◌, err, ◌≡◌, if◌then◌else◌, arith}
use aliyun_ahas.Common.Actions.{Act, proceed, ◌>>◌, done}
use aliyun_ahas.Config.{DataSourceConfig}
use aliyun_ahas.Sentinel.Acm.{
  form_flow_rule_data_id, form_system_rule_data_id, form_circuit_breaking_rule_data_id,
  form_param_flow_rule_data_id, OnChange, flow_change, system_change, breaking_change, param_change,
  ConfigClient, wait_tid, init_acm,
}

-- The data id to which a listener listens.
unfoldable pub data_id : OnChange → Text → Text → Text → Text
data_id flow_change = form_flow_rule_data_id
data_id system_change = form_system_rule_data_id
data_id breaking_change = form_circuit_breaking_rule_data_id
data_id param_change = form_param_flow_rule_data_id

-- The data id tells the listener: no user, namespace and application have a data id of one kind of rules
-- that is a data id of another kind for any user, namespace and application.
pub data_id_tells_kind :
    (a b : OnChange) (user name_space app user' name_space' app' : Text)
    → data_id a user name_space app ≡ data_id b user' name_space' app'
    → a ≡ b
unfolding data_id form_flow_rule_data_id form_system_rule_data_id form_circuit_breaking_rule_data_id
    form_param_flow_rule_data_id
data_id_tells_kind a b user name_space app user' name_space' app' e = ground arith

-- Listeners registered in order, up to the first that fails.
unfoldable pub listen_all :
    {W : Type 0} → ConfigClient W → Text → Text → Text → List OnChange → Act W (Unit {0})
listen_all client user name_space app [] = done tt
listen_all client user name_space app (c ∷ cs) = do
  client.listen (data_id c user name_space app) c
  listen_all client user name_space app cs

-- The tenant, the client, and the four listeners in order, up to the first that fails.
pub init_acm-stages :
    {W : Type 0} (client : ConfigClient W) (acm_host : Text) (conf : DataSourceConfig)
    (tid user name_space app : Text) (w : W)
    → init_acm client acm_host conf tid user name_space app w ≡ (
        let (arrived, w₁) = client.tid_arrives w in
        if arrived
        then proceed (client.create_config_client conf tid (acm_host ++ lit ":8080") w₁) (λ _.
          listen_all client user name_space app
            (flow_change ∷ system_change ∷ breaking_change ∷ param_change ∷ []))
        else (err (lit "wait AHAS transport timeout"), w₁))
unfolding init_acm wait_tid listen_all data_id
init_acm-stages client acm_host conf tid user name_space app w = ground arith
