-- ===== src/Sentinel/Tests.antt =====
-- The rules, listeners and handlers on concrete values; a float64 is an integer here.
use aliyun_ahas.Common.{
  ℕ, ◌+◌, ◌*◌, length, Text, lit, text_eq, is_empty, unsigned_value, [], ◌∷◌, ◌++◌, true, false,
  none, some, ok, err, ◌≡◌, ◌↔◌, ◌⊎◌, ◌≢◌, refl, if◌then◌else◌, List, Result, arith,
}
use aliyun_ahas.Common.Ints.{ℤ, pos, negsuc, is_nonneg}
use aliyun_ahas.Transport.Response.{return_success, text, leaf}
use aliyun_ahas.Transport.Request.{Request, at_key, new_request, add_param, add_header}
use aliyun_ahas.Config.{DataSourceConfig}
use aliyun_ahas.Sentinel.Floats.{Floats}
use aliyun_ahas.Sentinel.Rules.{
  LegacyFlowRule, LegacySystemRule, metric_cpu_usage, metric_load, metric_of, bbr,
  LegacyDegradeRule, error_ratio, BreakerRule, system_to_go_rule,
}
use aliyun_ahas.Sentinel.Rules.Conversions.{first_set, thresholds, system_rule_first_set}
use aliyun_ahas.Sentinel.Acm.{
  RuleManagers, on_circuit_breaking_rule_change, OnChange, ConfigClient, init_acm,
}
use aliyun_ahas.Sentinel.Acm.Breaking.{Converted, breaking_change_loads}
use aliyun_ahas.Sentinel.Acm.Registered.{IsRegistry, Added, wanted, init_acm_registers}
use aliyun_ahas.Sentinel.Metric.{Metrics, parse_uint, fetch_cpu_and_load_metric, fetch_metric}
use aliyun_ahas.Sentinel.Metric.Lines.{lines, fetch_metric_answers}

abbrev to_nat : ℤ → ℕ
to_nat (pos n) = n
to_nat (negsuc n) = 0

abbrev times : ℤ → ℤ
times (pos n) = pos (n * 10000)
times (negsuc n) = negsuc ((n + 1) * 10000)

abbrev floats : Floats
floats = record {
  Float = ℤ;
  minus_one = negsuc 0;
  of_int64 = λ n. n;
  at_least_zero = is_nonneg;
  above_zero = is_nonneg;
  ten_thousand_times = times;
  to_uint64 = to_nat;
  to_int64 = λ x. x;
}

abbrev cpu_rule : LegacySystemRule ℤ
cpu_rule = record {
  id = 5;
  resource = lit "all";
  highest_system_load = pos 3;
  highest_cpu_usage = pos 1;
  inbound_qps = negsuc 0;
  avg_rt = negsuc 0;
  max_concurrency = negsuc 0;
}

system_rule_first_set_example :
    let rule = system_to_go_rule floats cpu_rule in
    ((rule.metric_type, rule.trigger_count)
      ≡ first_set (metric_of 404, negsuc 0) (thresholds floats cpu_rule))
    × (rule.id ≡ 5)
    × ((rule.strategy ≡ bbr)
        ↔ ((rule.metric_type ≡ metric_cpu_usage) ⊎ (rule.metric_type ≡ metric_load)))
system_rule_first_set_example = system_rule_first_set floats cpu_rule

abbrev degrade : ℕ → LegacyDegradeRule ℤ
degrade strategy = record {
  id = 1;
  resource = lit "r";
  threshold = pos 9;
  strategy = strategy;
  retry_timeout_sec = 4294968;
  min_request_amount = 5;
  slow_ratio_threshold = pos 0;
  stat_interval_ms = 1000;
}

abbrev wrapped : BreakerRule ℤ
wrapped = record {
  id = lit "1";
  resource = lit "r";
  strategy = error_ratio;
  retry_timeout_ms = 704;
  min_request_amount = 5;
  stat_interval_ms = 1000;
  max_allowed_rt_ms = 0;
  threshold = pos 9;
}

abbrev a_flow : LegacyFlowRule ℤ
a_flow = record {
  id = 1;
  resource = lit "r";
  limit_origin = lit "default";
  metric_type = 1;
  count = pos 10;
  strategy = 0;
  control_behavior = 0;
  ref_resource = [];
  warm_up_period_sec = 0;
  max_queueing_time_ms = 0;
  cluster_mode = false;
}

-- The world counts the rules that are loaded.
abbrev managers : RuleManagers ℤ ℕ
managers = record {
  parse_flow = λ s. ok (some a_flow ∷ none ∷ []);
  parse_system = λ s. ok [];
  parse_degrade = λ s. ok (some (degrade 1) ∷ some (degrade 7) ∷ some (degrade 2) ∷ []);
  parse_param = λ s. err s;
  load_flow = λ rules w. (none, w + length rules);
  load_system = λ rules w. (none, w + length rules);
  load_breaker = λ rules w. (some (lit "bad"), w + length rules);
  load_hotspot = λ rules w. (none, w + length rules);
}

breaking_change_loads_example :
    (bs : List (BreakerRule ℤ)) × (Converted floats (degrade 1 ∷ degrade 7 ∷ degrade 2 ∷ []) bs)
    × (on_circuit_breaking_rule_change floats managers (lit "[]") 0
        ≡ (ok tt, (managers.load_breaker bs 0).1))
breaking_change_loads_example =
    breaking_change_loads floats managers 0 (lit "[]") (degrade 1 ∷ degrade 7 ∷ degrade 2 ∷ []) refl

abbrev slow : DataSourceConfig
slow = record { timeout_ms = 4000; listen_interval_ms = 5000 }

abbrev Registrations : Type 0
Registrations = List (Text × OnChange)

-- The world is what is registered; there is room for two.
abbrev listen_two : Text → OnChange → Registrations → Result (Unit {0}) × Registrations
listen_two id c [] = (ok tt, (id, c) ∷ [])
listen_two id c (a ∷ []) = (ok tt, a ∷ (id, c) ∷ [])
listen_two id c (a ∷ b ∷ rest) = (err (lit "refused"), a ∷ b ∷ rest)

abbrev acm_client : ConfigClient Registrations
acm_client = record {
  tid_arrives = λ w. (true, w);
  create_config_client = λ conf tid host w. (ok tt, w);
  listen = listen_two;
}

acm_client-adds :
    (id : Text) (c : OnChange) (w : Registrations)
    → (listen_two id c w).0 ≡ ok tt
    → (listen_two id c w).1 ≡ w ++ ((id, c) ∷ [])
acm_client-adds id c [] h = refl
acm_client-adds id c (a ∷ []) h = refl
acm_client-adds id c (a ∷ b ∷ rest) h = absurd (ground arith)

acm_client-refuses :
    (id : Text) (c : OnChange) (w : Registrations)
    → (listen_two id c w).0 ≢ ok tt
    → (listen_two id c w).1 ≡ w
acm_client-refuses id c [] h = absurd (h refl)
acm_client-refuses id c (a ∷ []) h = absurd (h refl)
acm_client-refuses id c (a ∷ b ∷ rest) h = refl

acm_client-IsRegistry : IsRegistry acm_client (λ w. w)
acm_client-IsRegistry = record {
  waits = λ w. refl;
  creates = λ conf tid host w. refl;
  adds = acm_client-adds;
  refuses = acm_client-refuses;
}

init_acm_registers_example :
    let (r, w') =
      init_acm acm_client
        (lit "acm.aliyun.com")
        slow
        (lit "t")
        (lit "u")
        (lit "default")
        (lit "app")
        [] in
    Added (wanted (lit "u") (lit "default") (lit "app")) [] w' r
init_acm_registers_example =
    init_acm_registers acm_client (λ w. w) (lit "acm.aliyun.com") slow (lit "t") (lit "u")
      (lit "default") (lit "app") [] acm_client-IsRegistry

-- An item is its resource; the searcher counts its calls.
abbrev metrics : Metrics ℤ ℕ
metrics = record {
  Item = Text;
  find_by_time_and_resource = λ start stop identity w. (ok (lit "a" ∷ lit "b" ∷ []), w + 1);
  find_from_time_with_max_lines = λ start n w. (ok (lit "c" ∷ []), w + n);
  metric_item = λ resource t n. resource;
  to_thin_string = λ item. ok item;
  current_time_millis = λ w. 1500;
  current_load = λ w. pos 2;
  current_cpu_usage = λ w. negsuc 0;
}

abbrev asked : Request
asked =
    add_param (add_param new_request (lit "startTime") (lit "1000")) (lit "endTime") (lit "2000")

fetch_metric_answers_example : fetch_metric floats metrics asked 0 ≡ (
  ok (
      return_success (
        leaf (
          text (
            lines floats metrics
              (λ item. item)
              (if is_empty (at_key asked.params (lit "identity"))
                then (lit "a" ∷ lit "b" ∷ []) ++ fetch_cpu_and_load_metric floats metrics 1
                else lit "a" ∷ lit "b" ∷ []))))),
  1,
)
unfolding parse_uint unsigned_value add_param new_request add_header text_eq
fetch_metric_answers_example =
    fetch_metric_answers floats metrics (λ item. item) asked 1000 2000 (lit "a" ∷ lit "b" ∷ []) 0 1
      (λ item. refl) refl refl refl
