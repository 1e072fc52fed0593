-- ===== src/Sentinel/Rules.antt =====
-- sentinel/datasource/rule_model.go: the rules as the console sends them, and their conversion to the
-- rules of sentinel-golang. The enumerations of that package are data types; a value that the code only
-- passes on is a number.
pub mod Hotspot
pub mod Conversions
use aliyun_ahas.Common.{
  ℕ, ◌-◌, ◌*◌, ◌%◌, ◌^◌, Text, lit, is_empty, text_eq, decimal, List, [], ◌∷◌, Bool, true, false,
  ◌||◌, Option, none, some, Result, ok, err, panic, diverge, ltb, ◌==◌, if◌then◌else◌,
}
use aliyun_ahas.Common.Ints.{ℤ, pos, negsuc, is_nonneg}
use aliyun_ahas.Sentinel.Floats.{Floats}

pub record LegacyFlowRule (F : Type 0) : Type 0 where
  pub id : ℕ
  pub resource : Text
  pub limit_origin : Text
  pub metric_type : ℕ
  pub count : F
  pub strategy : ℕ
  pub control_behavior : ℕ
  pub ref_resource : Text
  pub warm_up_period_sec : ℕ
  pub max_queueing_time_ms : ℕ
  pub cluster_mode : Bool

pub record FlowRule (F : Type 0) : Type 0 where
  pub id : ℕ
  pub resource : Text
  pub limit_origin : Text
  pub metric_type : ℕ
  pub count : F
  pub relation_strategy : ℕ
  pub control_behavior : ℕ
  pub ref_resource : Text
  pub warm_up_period_sec : ℕ
  pub max_queueing_time_ms : ℕ
  pub cluster_mode : Bool

-- `ToGoRule` of LegacyFlowRule
unfoldable pub flow_to_go_rule : {F : Type 0} → LegacyFlowRule F → FlowRule F
flow_to_go_rule lr = record {
  id = lr.id;
  resource = lr.resource;
  limit_origin = lr.limit_origin;
  metric_type = lr.metric_type;
  count = lr.count;
  relation_strategy = lr.strategy;
  control_behavior = lr.control_behavior;
  ref_resource = lr.ref_resource;
  warm_up_period_sec = lr.warm_up_period_sec;
  max_queueing_time_ms = lr.max_queueing_time_ms;
  cluster_mode = lr.cluster_mode;
}

pub record LegacySystemRule (F : Type 0) : Type 0 where
  pub id : ℕ
  pub resource : Text
  pub highest_system_load : F
  pub highest_cpu_usage : F
  pub inbound_qps : F
  pub avg_rt : ℤ
  pub max_concurrency : ℤ

-- `system.MetricType`, with a number for one outside its constants.
pub data SystemMetric : Type 0 where
  metric_avg_rt : SystemMetric
  metric_concurrency : SystemMetric
  metric_inbound_qps : SystemMetric
  metric_cpu_usage : SystemMetric
  metric_load : SystemMetric
  metric_of : ℕ → SystemMetric

pub data AdaptiveStrategy : Type 0 where
  no_adaptive : AdaptiveStrategy
  bbr : AdaptiveStrategy

pub record SystemRule (F : Type 0) : Type 0 where
  pub id : ℕ
  pub trigger_count : F
  pub metric_type : SystemMetric
  pub strategy : AdaptiveStrategy

-- `mt == system.Load || mt == system.CpuUsage`
adaptive_of : SystemMetric → AdaptiveStrategy
adaptive_of metric_load = bbr
adaptive_of metric_cpu_usage = bbr
adaptive_of mt = no_adaptive

pub record LegacyDegradeRule (F : Type 0) : Type 0 where
  pub id : ℕ
  pub resource : Text
  pub threshold : F
  pub strategy : ℕ
  pub retry_timeout_sec : ℕ
  pub min_request_amount : ℕ
  pub slow_ratio_threshold : F
  pub stat_interval_ms : ℕ

pub data BreakerStrategy : Type 0 where
  slow_request_ratio : BreakerStrategy
  error_ratio : BreakerStrategy
  error_count : BreakerStrategy

-- `circuitbreaker.Rule`, as far as it is set.
pub record BreakerRule (F : Type 0) : Type 0 where
  pub id : Text
  pub resource : Text
  pub strategy : BreakerStrategy
  pub retry_timeout_ms : ℕ
  pub min_request_amount : ℕ
  pub stat_interval_ms : ℕ
  pub max_allowed_rt_ms : ℕ
  pub threshold : F

module _ (fl : Floats) where
  open fl use {Float}

  -- `resolveTypeAndCount`
  pub resolve_type_and_count : LegacySystemRule Float → SystemMetric × Float
  resolve_type_and_count lr =
      if is_nonneg lr.avg_rt
      then (metric_avg_rt, fl.of_int64 lr.avg_rt)
      else if is_nonneg lr.max_concurrency
      then (metric_concurrency, fl.of_int64 lr.max_concurrency)
      else if fl.at_least_zero lr.inbound_qps
      then (metric_inbound_qps, lr.inbound_qps)
      else if fl.at_least_zero lr.highest_cpu_usage
      then (metric_cpu_usage, lr.highest_cpu_usage)
      else if fl.at_least_zero lr.highest_system_load
      then (metric_load, lr.highest_system_load)
      else (metric_of 404, fl.minus_one)

  -- `ToGoRule` of LegacySystemRule
  unfoldable pub system_to_go_rule : LegacySystemRule Float → SystemRule Float
  unfolding resolve_type_and_count adaptive_of
  system_to_go_rule lr =
      let (mt, count) = resolve_type_and_count lr in
      record { id = lr.id; trigger_count = count; metric_type = mt; strategy = adaptive_of mt }

  -- `lr.RetryTimeoutSec * 1000` is a product of uint32.
  breaker_base : LegacyDegradeRule Float → BreakerStrategy → BreakerRule Float
  breaker_base lr s = record {
    id = decimal lr.id;
    resource = lr.resource;
    strategy = s;
    retry_timeout_ms = lr.retry_timeout_sec * 1000 % 2 ^ 32;
    min_request_amount = lr.min_request_amount;
    stat_interval_ms = lr.stat_interval_ms;
    max_allowed_rt_ms = 0;
    threshold = lr.threshold;
  }

  slow_rule : LegacyDegradeRule Float → BreakerRule Float
  unfolding breaker_base
  slow_rule lr = record (breaker_base lr slow_request_ratio) {
    threshold = lr.slow_ratio_threshold;
    max_allowed_rt_ms = fl.to_uint64 lr.threshold;
  }

  -- `ToGoRule` of LegacyDegradeRule, with none for nil.
  unfoldable pub degrade_to_go_rule : LegacyDegradeRule Float → Option (BreakerRule Float)
  unfolding breaker_base slow_rule
  degrade_to_go_rule lr =
      if lr.strategy == 0
      then some (slow_rule lr)
      else if lr.strategy == 1
      then some (breaker_base lr error_ratio)
      else if lr.strategy == 2
      then some (breaker_base lr error_count)
      else none
