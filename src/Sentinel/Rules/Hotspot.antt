-- ===== src/Sentinel/Rules/Hotspot.antt =====
-- sentinel/datasource/rule_model.go: the rules on parameters. The enumerations of sentinel-golang are data
-- types; a value that the code only passes on is a number.
use aliyun_ahas.Common.{
  ℕ, ◌-◌, ◌^◌, Text, lit, is_empty, text_eq, decimal, List, [], ◌∷◌, Bool, ◌||◌, Option, none, some,
  Result, ok, err, panic, diverge, ltb, ◌==◌, if◌then◌else◌,
}
use aliyun_ahas.Common.Ints.{ℤ}
use aliyun_ahas.Sentinel.Floats.{Floats}

pub record LegacyParamFlowItem (F : Type 0) : Type 0 where
  pub value : Text
  pub threshold : F
  pub param_type : Text

pub record LegacyParamFlowRule (F : Type 0) : Type 0 where
  pub id : ℕ
  pub resource : Text
  pub metric_type : ℕ
  pub threshold : F
  pub param_index : ℤ
  pub duration_in_sec : ℤ
  pub control_behavior : ℕ
  pub max_queueing_time_ms : ℤ
  pub burst_count : ℤ
  pub specific_items : List (Option (LegacyParamFlowItem F))  -- none for nil
  pub cluster_mode : Bool

pub data ParamKind : Type 0 where
  kind_int : ParamKind
  kind_bool : ParamKind
  kind_float64 : ParamKind
  kind_string : ParamKind

pub record SpecificValue : Type 0 where
  pub val_kind : ParamKind
  pub val_str : Text
  pub threshold : ℤ

pub data HotspotBehavior : Type 0 where
  reject : HotspotBehavior
  throttling : HotspotBehavior

pub record HotspotRule (F : Type 0) : Type 0 where
  pub id : Text
  pub resource : Text
  pub metric_type : ℕ
  pub threshold : F
  pub control_behavior : HotspotBehavior
  pub param_index : ℤ
  pub max_queueing_time_ms : ℤ
  pub burst_count : ℤ
  pub duration_in_sec : ℤ
  pub params_max_capacity : ℕ
  pub specific_items : List SpecificValue

-- `strconv.Itoa(int(n))` of a uint64: the conversion takes the upper half of the numbers below 0.
unfoldable pub itoa_of_uint64 : ℕ → Text
itoa_of_uint64 n = if ltb n (2 ^ 63) then decimal n else b'-' ∷ decimal (2 ^ 64 - n)

-- The ladder over `ParamType`.
kind_of : Text → ParamKind
kind_of t =
    if text_eq t (lit "int") || text_eq t (lit "long")
    then kind_int
    else if text_eq t (lit "bool") || text_eq t (lit "boolean")
    then kind_bool
    else if text_eq t (lit "double") || text_eq t (lit "float")
    then kind_float64
    else kind_string

module _ (fl : Floats) where
  open fl use {Float}

  specific_value : LegacyParamFlowItem Float → SpecificValue
  unfolding kind_of
  specific_value v = record {
    val_kind = kind_of v.param_type;
    val_str = v.value;
    threshold = fl.to_int64 v.threshold;
  }

  -- An item with no value is passed over.
  add_value : LegacyParamFlowItem Float → Result (List SpecificValue) → Result (List SpecificValue)
  unfolding specific_value
  add_value v (ok vs) = if is_empty v.value then ok vs else ok (specific_value v ∷ vs)
  add_value v (err e) = err e
  add_value v panic = panic
  add_value v diverge = diverge

  -- The loop over `SpecificItems`. A nil among them is dereferenced.
  pub specific_values : List (Option (LegacyParamFlowItem Float)) → Result (List SpecificValue)
  unfolding add_value
  specific_values [] = ok []
  specific_values (none ∷ vs) = panic
  specific_values (some v ∷ vs) = add_value v (specific_values vs)

  hotspot_rule :
      LegacyParamFlowRule Float → Result (List SpecificValue) → Result (Option (HotspotRule Float))
  hotspot_rule lr (ok items) = ok (
      some (record {
        id = itoa_of_uint64 lr.id;
        resource = lr.resource;
        metric_type = lr.metric_type;
        threshold = lr.threshold;
        control_behavior = if lr.control_behavior == 2 then throttling else reject;
        param_index = lr.param_index;
        max_queueing_time_ms = lr.max_queueing_time_ms;
        burst_count = lr.burst_count;
        duration_in_sec = lr.duration_in_sec;
        params_max_capacity = 500;
        specific_items = items;
      }))
  hotspot_rule lr (err e) = err e
  hotspot_rule lr panic = panic
  hotspot_rule lr diverge = diverge

  -- `ToGoRule` of LegacyParamFlowRule, which is never nil.
  unfoldable pub param_to_go_rule : LegacyParamFlowRule Float → Result (Option (HotspotRule Float))
  unfolding specific_values hotspot_rule
  param_to_go_rule lr = hotspot_rule lr (specific_values lr.specific_items)
