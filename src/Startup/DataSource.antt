-- ===== src/Startup/DataSource.antt =====
-- init.go: the goroutine that the start leaves to the data source. The configuration client is a parameter.
use aliyun_ahas.Common.{Text, List, [], ◌∷◌, Bool, true, false, Result, ok, err, panic, diverge}
use aliyun_ahas.Common.Actions.{Act}
use aliyun_ahas.Config.{DataSourceConfig}
use aliyun_ahas.Sentinel.Acm.{OnChange, ConfigClient, init_acm}
use aliyun_ahas.Startup.{State}

module _ {W : Type 0} where
  abbrev pub take_tid : List Text → State W → Bool × State W
  take_tid [] s = (false, s)
  take_tid (tid ∷ tids) s =
      (true, (record s.0 { metadata = record s.0.metadata { tid_chan = tids } }, s.1))

  -- The `select` of `InitAcm`, where nobody else sends or receives.
  abbrev pub receive_tid : State W → Bool × State W
  receive_tid s = take_tid s.0.metadata.tid_chan s

  -- A call that leaves the process alone.
  abbrev pub beside : Act W (Unit {0}) → Act (State W) (Unit {0})
  beside action s = let (r, w) = action s.1 in (r, (s.0, w))

  -- An error is logged, and so is a panic.
  abbrev pub logged : Result (Unit {0}) × State W → Result (Unit {0}) × State W
  logged (ok _, s) = (ok tt, s)
  logged (err e, s) = (ok tt, s)
  logged (panic, s) = (ok tt, s)
  logged (diverge, s) = (diverge, s)

-- What the goroutine uses of the outside: `create` makes the configuration client, `listen` is its `ListenConfig`,
-- and `app_name` is that of sentinel-golang.
pub record Acm (W : Type 0) : Type 0 where
  pub create : DataSourceConfig → Text → Text → Act W (Unit {0})
  pub listen : Text → OnChange → Act W (Unit {0})
  pub app_name : Text

module _ {W : Type 0} (acm : Acm W) where
  abbrev pub config_client : ConfigClient (State W)
  config_client = record {
    tid_arrives = receive_tid;
    create_config_client = λ conf tid host. beside (acm.create conf tid host);
    listen = λ id c. beside (acm.listen id c);
  }

  -- `initializeAcmDataSource`
  unfoldable pub initialize_acm_data_source : Text → Act (State W) (Unit {0})
  initialize_acm_data_source acm_host s =
      let m = s.0.metadata in
      logged (
        init_acm config_client acm_host s.0.config.data_source m.tid m.uid m.name_space acm.app_name
          s)
