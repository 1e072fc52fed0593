-- ===== src/Sentinel/Acm/Loading.antt =====
-- What a change of the rules loads (sentinel/datasource/acm.go).
use aliyun_ahas.Common.{
  Text, List, [], ◌∷◌, ◌++◌, map, append_assoc, append-nil, Option, none, some, ok, panic, ◌≡◌, ◌∙◌,
  refl, ap,
}
use mathlib.Core.List.{filter_map}
use mathlib.Core.Option.{Option-elim}
use aliyun_ahas.Sentinel.Floats.{Floats}
use aliyun_ahas.Sentinel.Rules.{
  LegacyFlowRule, flow_to_go_rule, LegacyDegradeRule, degrade_to_go_rule,
}
use aliyun_ahas.Sentinel.Acm.{
  append_rule, convert_next, convert_loop, load_converted, on_rules, RuleManagers,
  on_flow_rule_change, on_circuit_breaking_rule_change,
}

module _ {A B : Type 0} (to_go_rule : A → Option B) where
  convert_loop-filter_map :
      (rs : List A) (arr : List B)
      → convert_loop (λ r. ok (to_go_rule r)) arr (map some rs)
        ≡ ok (arr ++ filter_map to_go_rule rs)
  unfolding convert_loop convert_next filter_map Option-elim
  convert_loop-filter_map [] arr = simp append-nil
  convert_loop-filter_map (r ∷ rs) arr =
      by_result (λ arr'. convert_loop-filter_map rs arr') (to_go_rule r)
    where
      by_result :
          ((arr' : List B)
            → convert_loop (λ r. ok (to_go_rule r)) arr' (map some rs)
              ≡ ok (arr' ++ filter_map to_go_rule rs))
          → (o : Option B)
          → convert_loop (λ r. ok (to_go_rule r)) (append_rule arr o) (map some rs)
            ≡ ok (
                arr ++ Option-elim o (filter_map to_go_rule rs) (λ b. b ∷ filter_map to_go_rule rs))
      by_result loaded none = loaded arr
      by_result loaded (some rule) =
          loaded (arr ++ (rule ∷ []))
          ∙ ap ok (append_assoc arr (rule ∷ []) (filter_map to_go_rule rs))

  convert_loop-nil :
      (rs : List A) (rest : List (Option A)) (arr : List B)
      → convert_loop (λ r. ok (to_go_rule r)) arr (map some rs ++ (none ∷ rest)) ≡ panic
  unfolding convert_loop convert_next
  convert_loop-nil [] rest arr = refl
  convert_loop-nil (r ∷ rs) rest arr = convert_loop-nil rs rest (append_rule arr (to_go_rule r))

  module _ {W : Type 0} (load : List B → W → Option Text × W) (w : W) where
    -- Rules with no nil among them are loaded, those that convert, in their order and by one call.
    pub on_rules-filter_map :
        (rs : List A)
        → on_rules (λ r. ok (to_go_rule r)) load (ok (map some rs)) w
          ≡ (ok tt, (load (filter_map to_go_rule rs) w).1)
    unfolding on_rules load_converted
    on_rules-filter_map rs = rw (convert_loop-filter_map rs []) refl

    pub on_rules-nil :
        (rs : List A) (rest : List (Option A))
        → on_rules (λ r. ok (to_go_rule r)) load (ok (map some rs ++ (none ∷ rest))) w ≡ (panic, w)
    unfolding on_rules load_converted
    on_rules-nil rs rest = rw (convert_loop-nil rs rest []) refl

module _ (fl : Floats) {W : Type 0} (rm : RuleManagers fl.Float W) (w : W) where
  -- A change of the circuit breaking rules that parses, with no null among the rules, loads by one call those that
  -- `ToGoRule` gives, in order.
  pub breaking_change_filters :
      (s : Text) (rs : List (LegacyDegradeRule fl.Float))
      → rm.parse_degrade s ≡ ok (map some rs)
      → on_circuit_breaking_rule_change fl rm s w
        ≡ (ok tt, (rm.load_breaker (filter_map (degrade_to_go_rule fl) rs) w).1)
  unfolding on_circuit_breaking_rule_change
  breaking_change_filters s rs e =
      rw e (on_rules-filter_map (degrade_to_go_rule fl) rm.load_breaker w rs)

  -- A null among the flow rules makes the listener panic before anything is loaded, whatever
  -- stands before and behind it.
  pub null_rule_panics :
      (s : Text) (flows : List (LegacyFlowRule fl.Float))
      (more : List (Option (LegacyFlowRule fl.Float)))
      → rm.parse_flow s ≡ ok (map some flows ++ (none ∷ more))
      → on_flow_rule_change fl rm s w ≡ (panic, w)
  unfolding on_flow_rule_change
  null_rule_panics s flows more e =
      rw e (on_rules-nil (λ r. some (flow_to_go_rule r)) rm.load_flow w flows more)
