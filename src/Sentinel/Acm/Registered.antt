-- ===== src/Sentinel/Acm/Registered.antt =====
-- What `InitAcm` registers at the configuration service (sentinel/datasource/acm.go).
use aliyun_ahas.Common.{
  ℕ, suc, ◌≤◌, Text, lit, ◌++◌, append_assoc, append-nil, List, [], ◌∷◌, map, length, take, Bool,
  true, false, Result, ok, err, panic, diverge, ◌≡◌, ◌≢◌, ◌↔◌, refl, sym, ap, subst, ◌∙◌,
  if◌then◌else◌, arith,
}
use aliyun_ahas.Common.Actions.{proceed}
use aliyun_ahas.Config.{DataSourceConfig}
use aliyun_ahas.Sentinel.Acm.{
  form_flow_rule_data_id, form_system_rule_data_id, form_circuit_breaking_rule_data_id,
  form_param_flow_rule_data_id, OnChange, flow_change, system_change, breaking_change, param_change,
  ConfigClient, init_acm,
}
use aliyun_ahas.Sentinel.Acm.Listening.{data_id, listen_all, init_acm-stages}

-- What is registered at the configuration service, the latest last: a successful `ListenConfig` adds its data id and
-- its listener, and nothing else changes it.
pub record IsRegistry {W : Type 0} (client : ConfigClient W)
    (registered : W → List (Text × OnChange)) : Type 0 where
  pub waits : (w : W) → registered (client.tid_arrives w).1 ≡ registered w
  pub creates :
      (conf : DataSourceConfig) (tid host : Text) (w : W)
      → registered (client.create_config_client conf tid host w).1 ≡ registered w
  pub adds :
      (id : Text) (c : OnChange) (w : W)
      → (client.listen id c w).0 ≡ ok tt
      → registered (client.listen id c w).1 ≡ registered w ++ ((id, c) ∷ [])
  pub refuses :
      (id : Text) (c : OnChange) (w : W)
      → (client.listen id c w).0 ≢ ok tt
      → registered (client.listen id c w).1 ≡ registered w

-- The first `k` of the wanted registrations were added to the old ones; with no error exactly if these are all.
abbrev pub Added :
    List (Text × OnChange)
    → List (Text × OnChange)
    → List (Text × OnChange)
    → Result (Unit {0})
    → Type 0
Added wanted old new r =
    (k : ℕ) × (k ≤ length wanted)
    × (new ≡ old ++ take k wanted)
    × ((r ≡ ok tt) ↔ (k ≡ length wanted))

-- The four registrations for a user, a namespace and an application.
abbrev pub wanted : Text → Text → Text → List (Text × OnChange)
wanted user name_space app =
    let tail = user ++ (lit "-" ++ (name_space ++ (lit "-" ++ app))) in
    (lit "flow-rule-" ++ tail, flow_change)
    ∷ (lit "system-rule-" ++ tail, system_change)
    ∷ (lit "degrade-rule-" ++ tail, breaking_change)
    ∷ (lit "param-flow-rule-" ++ tail, param_change)
    ∷ []

module _ {W : Type 0} (client : ConfigClient W) (registered : W → List (Text × OnChange))
    (registry : IsRegistry client registered) (user name_space app : Text) where
  abbrev entry : OnChange → Text × OnChange
  entry c = (data_id c user name_space app, c)

  abbrev AddedBy : List OnChange → W → Result (Unit {0}) × W → Type 0
  AddedBy cs w (r, w') = Added (map entry cs) (registered w) (registered w') r

  none_added :
      (c : OnChange) (cs : List OnChange) (w w' : W) (r : Result (Unit {0}))
      → registered w' ≡ registered w
      → r ≢ ok tt
      → AddedBy (c ∷ cs) w (r, w')
  none_added c cs w w' r same failed = (
    0,
    omega arith,
    same ∙ sym (append-nil (registered w)),
    (λ fine. absurd (failed fine), λ e. absurd (omega (arith, e))),
  )

  one_added :
      (c : OnChange) (cs : List OnChange) (w w₁ : W) (q : Result (Unit {0}) × W)
      → registered w₁ ≡ registered w ++ (entry c ∷ [])
      → AddedBy cs w₁ q
      → AddedBy (c ∷ cs) w q
  one_added c cs w w₁ (r, w') here (k, within, there, all) = (
    suc k,
    omega (arith, within),
    there
        ∙ ap (λ es. es ++ take k (map entry cs)) here
        ∙ append_assoc (registered w) (entry c ∷ []) (take k (map entry cs)),
    (λ fine. ap suc (all.0 fine), λ e. all.1 (omega (arith, e))),
  )

  stopped :
      (c : OnChange) (cs : List OnChange) (w w₁ : W) (r : Result (Unit {0}))
      → client.listen (data_id c user name_space app) c w ≡ (r, w₁)
      → r ≢ ok tt
      → AddedBy (c ∷ cs) w (r, w₁)
  stopped c cs w w₁ r e failed =
      let id = data_id c user name_space app in
      none_added c cs w w₁ r
        (ap (λ (q : Result (Unit {0}) × W). registered q.1) (sym e)
          ∙ registry.refuses id c w
              (λ fine. failed (ap (λ (q : Result (Unit {0}) × W). q.0) (sym e) ∙ fine)))
        failed

  listen_next-Added :
      (c : OnChange) (cs : List OnChange) (w : W) (q : Result (Unit {0}) × W)
      → ((w₁ : W) → AddedBy cs w₁ (listen_all client user name_space app cs w₁))
      → client.listen (data_id c user name_space app) c w ≡ q
      → AddedBy (c ∷ cs) w (proceed q (λ _. listen_all client user name_space app cs))
  listen_next-Added c cs w (ok _, w₁) later e =
      let id = data_id c user name_space app in
      one_added c cs w w₁ (listen_all client user name_space app cs w₁)
        (ap (λ (q : Result (Unit {0}) × W). registered q.1) (sym e)
          ∙ registry.adds id c w (ap (λ (q : Result (Unit {0}) × W). q.0) e))
        (later w₁)
  listen_next-Added c cs w (err x, w₁) later e = stopped c cs w w₁ (err x) e (λ h. ground arith)
  listen_next-Added c cs w (panic, w₁) later e = stopped c cs w w₁ panic e (λ h. ground arith)
  listen_next-Added c cs w (diverge, w₁) later e = stopped c cs w w₁ diverge e (λ h. ground arith)

  listen_all-Added :
      (cs : List OnChange) (w : W) → AddedBy cs w (listen_all client user name_space app cs w)
  unfolding listen_all
  listen_all-Added [] w = (0, omega arith, sym (append-nil (registered w)), (λ e. refl, λ e. refl))
  listen_all-Added (c ∷ cs) w =
      listen_next-Added c cs w (client.listen (data_id c user name_space app) c w)
        (λ w₁. listen_all-Added cs w₁) refl

  abbrev later_changes : List OnChange
  later_changes = system_change ∷ breaking_change ∷ param_change ∷ []

  abbrev all_changes : List OnChange
  all_changes = flow_change ∷ later_changes

  created-Added :
      (w : W) (q : Result (Unit {0}) × W)
      → registered q.1 ≡ registered w
      → AddedBy all_changes w (proceed q (λ _. listen_all client user name_space app all_changes))
  created-Added w (ok _, w₁) same =
      let (k, within, there, all) = listen_all-Added all_changes w₁ in
      (k, within, there ∙ ap (λ es. es ++ take k (map entry all_changes)) same, all)
  created-Added w (err x, w₁) same =
      none_added flow_change later_changes w w₁ (err x) same (λ h. ground arith)
  created-Added w (panic, w₁) same =
      none_added flow_change later_changes w w₁ panic same (λ h. ground arith)
  created-Added w (diverge, w₁) same =
      none_added flow_change later_changes w w₁ diverge same (λ h. ground arith)

  arrived-Added :
      (acm_host : Text) (conf : DataSourceConfig) (tid : Text) (w : W) (a : Bool × W)
      → registered a.1 ≡ registered w
      → AddedBy all_changes w (
          if a.0
          then proceed
              (client.create_config_client conf tid (acm_host ++ lit ":8080") a.1)
              (λ _. listen_all client user name_space app all_changes)
          else (err (lit "wait AHAS transport timeout"), a.1))
  arrived-Added acm_host conf tid w (true, w₁) same =
      let host = acm_host ++ lit ":8080" in
      created-Added w (client.create_config_client conf tid host w₁)
        (registry.creates conf tid host w₁ ∙ same)
  arrived-Added acm_host conf tid w (false, w₁) same =
      none_added flow_change later_changes w w₁ (err (lit "wait AHAS transport timeout")) same
        (λ h. ground arith)

-- For a configuration service that takes up exactly the successful `ListenConfig` calls, `InitAcm` adds the listeners
-- of the flow, system, circuit breaking and hotspot rules in this order, the first `k` of the four, each
-- under the prefix of its kind and for the user, the namespace and the application; it gives no error exactly
-- if all four were added, so that none is missing without an error.
pub init_acm_registers :
    {W : Type 0} (client : ConfigClient W) (registered : W → List (Text × OnChange))
    (acm_host : Text) (conf : DataSourceConfig) (tid user name_space app : Text) (w : W)
    → IsRegistry client registered
    → let (r, w') = init_acm client acm_host conf tid user name_space app w in
      Added (wanted user name_space app) (registered w) (registered w') r
unfolding data_id form_flow_rule_data_id form_system_rule_data_id form_circuit_breaking_rule_data_id
    form_param_flow_rule_data_id
init_acm_registers {W} client registered acm_host conf tid user name_space app w registry =
    subst
      (λ (q : Result (Unit {0}) × W).
        Added (wanted user name_space app) (registered w) (registered q.1) q.0)
      (sym (init_acm-stages client acm_host conf tid user name_space app w))
      (arrived-Added client registered registry user name_space app acm_host conf tid w
        (client.tid_arrives w) (registry.waits w))
