-- ===== src/Startup/Listens.antt =====
-- The data source after a start (init.go, sentinel/datasource/acm.go).
use aliyun_ahas.Common.{
  Text, lit, [], ◌∷◌, ◌++◌, Bool, false, Result, ok, err, ◌≡◌, ◌∙◌, ap, if◌then◌else◌,
}
use aliyun_ahas.Common.Actions.{proceed}
use aliyun_ahas.Sentinel.Acm.{flow_change, system_change, breaking_change, param_change}
use aliyun_ahas.Sentinel.Acm.Listening.{listen_all, init_acm-stages}
use aliyun_ahas.Startup.{Process, Outside, State, init_ahas_from_file}
use aliyun_ahas.Startup.DataSource.{
  take_tid, beside, logged, Acm, config_client, initialize_acm_data_source,
}
use aliyun_ahas.Startup.Ready.{init_ahas_from_file-IsReady}

module _ {W : Type 0} (acm : Acm W) where
  -- The process with the channel of tenants empty.
  abbrev pub emptied : State W → State W
  emptied s = (record s.0 { metadata = record s.0.metadata { tid_chan = [] } }, s.1)

  -- The registrations of `InitAcm`, once the tenant has arrived.
  abbrev pub registered : Text → State W → Result (Unit {0}) × State W
  registered acm_host s =
      let m = s.0.metadata in
      proceed
        (beside (acm.create s.0.config.data_source m.tid (acm_host ++ lit ":8080")) (emptied s))
        (λ _.
          listen_all (config_client acm) m.uid m.name_space acm.app_name
            (flow_change ∷ system_change ∷ breaking_change ∷ param_change ∷ []))

  -- Where `InitAhasFromFile` gives no error, on a client that was not initialised and with nothing in the
  -- channel of tenants, the goroutine that it starts does not wait in vain: it takes the tenant, makes the
  -- configuration client for it, and registers the four listeners for the user and the namespace in order, up to the
  -- first that fails, whose error is only logged.
  pub listens_after_start :
      (outside : Outside W) (filename acm_host : Text) (p : Process) (w : W)
      → p.client.once ≡ false
      → p.metadata.tid_chan ≡ []
      → (init_ahas_from_file outside filename (p, w)).0 ≡ ok tt
      → let s = (init_ahas_from_file outside filename (p, w)).1 in
        initialize_acm_data_source acm acm_host s ≡ logged (registered acm_host s)
  unfolding initialize_acm_data_source
  listens_after_start outside filename acm_host p w unused empty e =
      let s = (init_ahas_from_file outside filename (p, w)).1 in
      let m = s.0.metadata in
      let ready = init_ahas_from_file-IsReady outside filename p w unused e in
      let sent = ready.named.tid_sent ∙ ap (λ tids. tids ++ (m.tid ∷ [])) empty in
      let registers =
        init_acm-stages (config_client acm) acm_host s.0.config.data_source m.tid m.uid m.name_space
          acm.app_name s in
      let next : Bool × State W → Result (Unit {0}) × State W = λ x.
        if x.0
        then proceed
            (beside (acm.create s.0.config.data_source m.tid (acm_host ++ lit ":8080")) x.1)
            (λ _.
              listen_all (config_client acm) m.uid m.name_space acm.app_name
                (flow_change ∷ system_change ∷ breaking_change ∷ param_change ∷ []))
        else (err (lit "wait AHAS transport timeout"), x.1) in
      ap logged (registers ∙ ap (λ tids. next (take_tid tids s)) sent)
