-- ===== src/Automation/Strategy/Tests.antt =====
-- The strategy "technical_timing" on a constructive chart, with a small stand-in for JSON values.
use stocks.Base.{
  ◌≡◌, ◌≢◌, refl, ◌⊎◌, false, List, [], ◌∷◌, Option, none, some, String, str_eq, eq_iff,
  if◌then◌else◌,
}
use mathlib.Core.Bool.{false≢true}
use stocks.Base.Int.{pos, ◌-ℤ◌}
use stocks.Float.Micros.{Micros, micros_f64, Micros-IsIeee}
use stocks.Automation.Policy.{has_expired}
use stocks.Automation.Policy.Types.{
  flat, long, StrategyDecisionKind, StrategyDefinitionInput, TradePermissionInput,
}
use stocks.Automation.Strategy.{
  evaluate_strategy, common_blocked_reasons, technical_blockers, config_i64, decide, target_intent,
  technical_target, stance_list_contains, long_target, target_weight,
}
use stocks.Automation.Strategy.Types.{
  SerdeJson, SerdeFloat, TechnicalFeature, StrategyEvaluationInput,
}
use stocks.Automation.Strategy.Entry.{
  IsCleared, IsSignal, evaluate_strategy-long, evaluate_strategy-not_shadow,
}
use stocks.Automation.Strategy.Weight.{IsWeight, evaluate_strategy-IsWeight}

pub data Setting : Type 0 where
  settings : Setting
  stances : Setting
  word : String → Setting

abbrev get_setting : Setting → String → Option Setting
get_setting settings key = if str_eq key "long_entry_stances" then some stances else none
get_setting _ key = none

abbrev word_of : Setting → Option String
word_of (word s) = some s
word_of _ = none

abbrev items_of : Setting → Option (List Setting)
items_of stances = some (word "actionable" ∷ word "constructive" ∷ [])
items_of _ = none

instance abbrev pub setting_json : SerdeJson Setting
setting_json = record {
  get = get_setting;
  as_i64 = λ v. none;
  as_str = word_of;
  as_array = items_of;
}

instance abbrev pub setting_float : SerdeFloat Setting Micros
setting_float = record { as_f64 = λ v. none }

abbrev pub definition_in : String → StrategyDefinitionInput
definition_in status = record {
  strategy_id = "technical_timing";
  strategy_version = "0.1.0";
  family = "technical_timing";
  display_name = "Technical Timing";
  status = status;
  config_hash = "a1b2";
}

abbrev pub permission : TradePermissionInput Micros
permission = record {
  permission_id = 7;
  symbol = "MU";
  strategy_id = "technical_timing";
  strategy_version = "0.1.0";
  status = "approved";
  instrument_scope = "equity";
  environment_scope = "shadow";
  manual_freeze = false;
  expires_at = none;
  max_allocation_pct = some (pos 1_500_000);
  max_notional_usd = none;
  max_quantity = none;
}

abbrev pub chart : TechnicalFeature Micros
chart = record {
  as_of = pos 900;
  state = "uptrend";
  setup_kind = "base";
  entry_stance = "constructive";
  summary = "";
  close = none;
  previous_close = none;
}

abbrev input_in : String → StrategyEvaluationInput Setting Micros
input_in status = record {
  definition = definition_in status;
  config = settings;
  permission = some permission;
  latest_desired = none;
  features = record { symbol = "MU"; technical = some chart; thesis = none };
  now = pos 1_000;
}

wants_long : (evaluate_strategy (input_in "shadow")).target_side ≡ some long
unfolding evaluate_strategy common_blocked_reasons has_expired technical_blockers config_i64 ◌-ℤ◌
    decide target_intent technical_target stance_list_contains long_target
wants_long = refl

weighs : (evaluate_strategy (input_in "shadow")).target_weight_pct ≡ some (pos 1_000_000)
unfolding evaluate_strategy common_blocked_reasons has_expired technical_blockers config_i64 ◌-ℤ◌
    decide target_intent technical_target stance_list_contains long_target target_weight
weighs = refl

not_shadow : ◌≢◌ {A = String} "paper" "shadow"
not_shadow h = false≢true ((eq_iff "paper" "shadow").1 h)

evaluate_strategy-long_example :
    (long ≡ flat) ⊎ ((long ≡ long) × IsCleared (input_in "shadow") × IsSignal (input_in "shadow"))
evaluate_strategy-long_example = evaluate_strategy-long (input_in "shadow") long wants_long

evaluate_strategy-IsWeight_example : IsWeight {F = Micros} (pos 1_000_000)
evaluate_strategy-IsWeight_example =
    evaluate_strategy-IsWeight Micros-IsIeee (input_in "shadow") (pos 1_000_000) weighs

evaluate_strategy-not_shadow_example :
    ((evaluate_strategy (input_in "paper")).kind ≡ StrategyDecisionKind.blocked)
    × ((evaluate_strategy (input_in "paper")).target_side ≡ none)
evaluate_strategy-not_shadow_example = evaluate_strategy-not_shadow (input_in "paper") not_shadow
