-- ===== src/Sentinel/Acm/Breaking.antt =====
-- The circuit breaking rules that a change loads, field by field (sentinel/datasource/acm.go,
-- sentinel/datasource/rule_model.go).
use aliyun_ahas.Common.{
  ℕ, zero, suc, ◌*◌, ◌%◌, ◌^◌, ◌≤◌, Text, decimal, List, [], ◌∷◌, map, none, some, ok, ◌≡◌, refl,
  arith,
}
use mathlib.Core.List.{filter_map}
use mathlib.Core.Option.{Option-elim}
use aliyun_ahas.Sentinel.Floats.{Floats}
use aliyun_ahas.Sentinel.Rules.{
  LegacyDegradeRule, degrade_to_go_rule, BreakerStrategy, slow_request_ratio, error_ratio,
  error_count, BreakerRule,
}
use aliyun_ahas.Sentinel.Acm.{RuleManagers, on_circuit_breaking_rule_change}
use aliyun_ahas.Sentinel.Acm.Loading.{breaking_change_filters}

module _ (fl : Floats) where
  open fl use {Float}

  -- What the console's strategies mean: 0 is the ratio of slow requests, where the console's threshold is the bound of
  -- the response time and its own field holds the ratio; 1 is the ratio of errors and 2 their number, where the
  -- threshold is passed on and there is no bound of the response time.
  pub data Means (lr : LegacyDegradeRule Float) : ℕ → BreakerStrategy → ℕ → Float → Type 0 where
    slow_requests :
        Means lr 0 slow_request_ratio (fl.to_uint64 lr.threshold) lr.slow_ratio_threshold
    ratio_of_errors : Means lr 1 error_ratio 0 lr.threshold
    number_of_errors : Means lr 2 error_count 0 lr.threshold

  -- A rule for the circuit breaker says what the console's rule says.
  pub record Agrees (lr : LegacyDegradeRule Float) (b : BreakerRule Float) : Type 0 where
    pub id : b.id ≡ decimal lr.id
    pub resource : b.resource ≡ lr.resource
    pub retry : b.retry_timeout_ms ≡ lr.retry_timeout_sec * 1000 % 2 ^ 32
    pub requests : b.min_request_amount ≡ lr.min_request_amount
    pub interval : b.stat_interval_ms ≡ lr.stat_interval_ms
    pub means : Means lr lr.strategy b.strategy b.max_allowed_rt_ms b.threshold

  -- The loaded rules are those of the rules with a known strategy, in order, and no others.
  pub data Converted : List (LegacyDegradeRule Float) → List (BreakerRule Float) → Type 0 where
    done : Converted [] []
    unknown :
        {lr : LegacyDegradeRule Float} {rs : List (LegacyDegradeRule Float)}
        {bs : List (BreakerRule Float)}
        → 3 ≤ lr.strategy
        → Converted rs bs
        → Converted (lr ∷ rs) bs
    known :
        {lr : LegacyDegradeRule Float} {b : BreakerRule Float} {rs : List (LegacyDegradeRule Float)}
        {bs : List (BreakerRule Float)}
        → Agrees lr b
        → Converted rs bs
        → Converted (lr ∷ rs) (b ∷ bs)

  unknown_strategy :
      (lr : LegacyDegradeRule Float) → 3 ≤ lr.strategy → degrade_to_go_rule fl lr ≡ none
  unfolding degrade_to_go_rule
  unknown_strategy lr h = ground arith

  -- What one rule adds to the loaded rules.
  added-Converted :
      (lr : LegacyDegradeRule Float) (strategy : ℕ) (rs : List (LegacyDegradeRule Float))
      (bs : List (BreakerRule Float))
      → lr.strategy ≡ strategy
      → Converted rs bs
      → Converted (lr ∷ rs) (Option-elim (degrade_to_go_rule fl lr) bs (λ b. b ∷ bs))
  unfolding degrade_to_go_rule Option-elim
  added-Converted lr zero rs bs e later = rw e (
      known
        (record {
          id = refl;
          resource = refl;
          retry = refl;
          requests = refl;
          interval = refl;
          means = slow_requests;
        })
        later)
  added-Converted lr (suc zero) rs bs e later = rw e (
      known
        (record {
          id = refl;
          resource = refl;
          retry = refl;
          requests = refl;
          interval = refl;
          means = ratio_of_errors;
        })
        later)
  added-Converted lr (suc (suc zero)) rs bs e later = rw e (
      known
        (record {
          id = refl;
          resource = refl;
          retry = refl;
          requests = refl;
          interval = refl;
          means = number_of_errors;
        })
        later)
  added-Converted lr (suc (suc (suc n))) rs bs e later =
      rw (unknown_strategy lr (omega (arith, e))) (unknown (omega (arith, e)) later)

  filter_map-Converted :
      (rs : List (LegacyDegradeRule Float)) → Converted rs (filter_map (degrade_to_go_rule fl) rs)
  unfolding filter_map
  filter_map-Converted [] = done
  filter_map-Converted (lr ∷ rs) =
      added-Converted lr lr.strategy rs (filter_map (degrade_to_go_rule fl) rs) refl
        (filter_map-Converted rs)

-- A change of the circuit breaking rules that parses, with no null among the rules, loads by one call of the
-- rule manager, whose error is passed over, the rules of the strategies 0, 1 and 2, in their order, and leaves out the
-- others; each loaded rule has the identity, the resource, the least number of requests and the interval of the
-- console's rule, its retry timeout times 1000 cut to 32 bits, and the strategy and the thresholds that the
-- console's strategy asks for.
pub breaking_change_loads :
    (fl : Floats) {W : Type 0} (rm : RuleManagers fl.Float W) (w : W) (s : Text)
    (rs : List (LegacyDegradeRule fl.Float))
    → rm.parse_degrade s ≡ ok (map some rs)
    → (bs : List (BreakerRule fl.Float)) × (Converted fl rs bs)
      × (on_circuit_breaking_rule_change fl rm s w ≡ (ok tt, (rm.load_breaker bs w).1))
breaking_change_loads fl rm w s rs e = (
  filter_map (degrade_to_go_rule fl) rs,
  filter_map-Converted fl rs,
  breaking_change_filters fl rm w s rs e,
)
