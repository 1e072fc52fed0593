-- ===== src/Sentinel/Rules/Conversions.antt =====
-- The converted rules (sentinel/datasource/rule_model.go).
use aliyun_ahas.Common.{
  ℕ, ◌-◌, ◌*◌, ◌^◌, ◌≤◌, ◌<◌, Text, decimal, all_digits, is_digit, all_digits-decimal, List, [],
  ◌∷◌, Bool, true, false, Option, none, some, ◌==◌, ◌≡◌, ◌≢◌, ◌↔◌, ◌⊎◌, inl, inr, Bool-cases, arith,
}
use aliyun_ahas.Common.Ints.{is_nonneg}
use aliyun_ahas.Sentinel.Floats.{Floats}
use aliyun_ahas.Sentinel.Rules.{
  LegacySystemRule, SystemMetric, metric_avg_rt, metric_concurrency, metric_inbound_qps,
  metric_cpu_usage, metric_load, metric_of, bbr, adaptive_of, LegacyDegradeRule, error_ratio,
  error_count, BreakerRule, resolve_type_and_count, system_to_go_rule, breaker_base, slow_rule,
  degrade_to_go_rule,
}
use aliyun_ahas.Sentinel.Rules.Hotspot.{itoa_of_uint64}

-- A threshold of a system rule, with none where it is negative, which means unset.
abbrev pub when_set : {F : Type 0} → Bool → SystemMetric → F → Option (SystemMetric × F)
when_set true m x = some (m, x)
when_set false m x = none

abbrev pub first_set : {A : Type 0} → A → List (Option A) → A
first_set default [] = default
first_set default (none ∷ xs) = first_set default xs
first_set default (some x ∷ xs) = x

module _ (fl : Floats) where
  open fl use {Float}

  -- The thresholds of a rule in the order of their priority.
  abbrev pub thresholds : LegacySystemRule Float → List (Option (SystemMetric × Float))
  thresholds lr =
      when_set (is_nonneg lr.avg_rt) metric_avg_rt (fl.of_int64 lr.avg_rt)
      ∷ when_set (is_nonneg lr.max_concurrency) metric_concurrency (fl.of_int64 lr.max_concurrency)
      ∷ when_set (fl.at_least_zero lr.inbound_qps) metric_inbound_qps lr.inbound_qps
      ∷ when_set (fl.at_least_zero lr.highest_cpu_usage) metric_cpu_usage lr.highest_cpu_usage
      ∷ when_set (fl.at_least_zero lr.highest_system_load) metric_load lr.highest_system_load
      ∷ []

  -- A system rule is converted by the first of its thresholds that is set, in the order average time,
  -- concurrency, queries, processor usage, load; its strategy is adaptive exactly for the last two; and
  -- with none set its metric is 404 and its count -1.
  pub system_rule_first_set :
      (lr : LegacySystemRule Float)
      → let rule = system_to_go_rule fl lr in
        ((rule.metric_type, rule.trigger_count)
          ≡ first_set (metric_of 404, fl.minus_one) (thresholds lr))
        × (rule.id ≡ lr.id)
        × ((rule.strategy ≡ bbr)
            ↔ ((rule.metric_type ≡ metric_cpu_usage) ⊎ (rule.metric_type ≡ metric_load)))
  unfolding system_to_go_rule resolve_type_and_count adaptive_of
  system_rule_first_set lr = ground arith

  -- Where the average time is not negative, as where the json leaves it out and it is 0, no other
  -- threshold counts: two such rules with one id and one average time give one rule.
  pub avg_rt_hides_others :
      (lr other : LegacySystemRule Float)
      → is_nonneg lr.avg_rt ≡ true
      → lr.avg_rt ≡ other.avg_rt
      → lr.id ≡ other.id
      → system_to_go_rule fl lr ≡ system_to_go_rule fl other
  unfolding system_to_go_rule resolve_type_and_count
  avg_rt_hides_others lr other set same_rt same_id = ground arith

  -- A degrade rule is converted exactly if its strategy is one of the three that are known.
  pub degrade_converts_iff :
      (lr : LegacyDegradeRule Float)
      → (lr.strategy < 3) ↔ ((rule : BreakerRule Float) × (degrade_to_go_rule fl lr ≡ some rule))
  unfolding degrade_to_go_rule
  degrade_converts_iff lr = (known lr, λ p. ground arith)
    where
      known :
          (lr : LegacyDegradeRule Float)
          → lr.strategy < 3
          → (rule : BreakerRule Float) × (degrade_to_go_rule fl lr ≡ some rule)
      known lr h = elim (Bool-cases (lr.strategy == 0)) [
        | inl slow ↦ (slow_rule fl lr, ground arith)
        | inr other ↦ elim (Bool-cases (lr.strategy == 1)) [
          | inl ratio ↦ (breaker_base fl lr error_ratio, ground arith)
          | inr rest ↦ (breaker_base fl lr error_count, ground arith)
        ]
      ]

  -- The time until a retry is a uint32 of milliseconds: it is what the legacy rule says exactly up to
  -- 4294967 seconds, and above that it wraps.
  pub retry_timeout_bounds :
      (lr : LegacyDegradeRule Float) (rule : BreakerRule Float)
      → degrade_to_go_rule fl lr ≡ some rule
      → (rule.retry_timeout_ms < 2 ^ 32)
        × ((rule.retry_timeout_ms ≡ lr.retry_timeout_sec * 1000) ↔ (lr.retry_timeout_sec ≤ 4294967))
  unfolding degrade_to_go_rule breaker_base slow_rule
  retry_timeout_bounds lr rule e = ground arith

minus_no_digit : (s t : Text) → all_digits s ≡ true → s ≢ b'-' ∷ t
unfolding all_digits is_digit
minus_no_digit [] t h e = cc
minus_no_digit (c ∷ s) t h e = ground arith

-- For a uint64, the id of a hotspot rule is the number itself exactly below 2 ^ 63; above, it has a minus
-- sign.
pub hotspot_id_iff : (n : ℕ) → n < 2 ^ 64 → (itoa_of_uint64 n ≡ decimal n) ↔ (n < 2 ^ 63)
unfolding itoa_of_uint64
hotspot_id_iff n h =
    let digits_only = minus_no_digit (decimal n) (decimal (2 ^ 64 - n)) (all_digits-decimal n) in
    (λ e. ground arith, λ small. ground arith)
