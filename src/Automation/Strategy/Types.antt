-- ===== src/Automation/Strategy/Types.antt =====
-- The inputs of a strategy of src/automation/mod.rs, and `serde_json::Value` as a type with the
-- accessors that are called.
use stocks.Base.{Option, List, String}
use stocks.Base.Int.{ℤ}
use stocks.Time.{DateTime}
use stocks.Automation.Allocator.{Uuid}
use stocks.Automation.Policy.Types.{TargetSide, StrategyDefinitionInput, TradePermissionInput}

-- The accessors of `serde_json::Value`, each none where the value is of another kind.
pub record SerdeJson (V : Type 0) : Type 0 where
  pub get : V → String → Option V
  pub as_i64 : V → Option ℤ
  pub as_str : V → Option String
  pub as_array : V → Option (List V)

pub record SerdeFloat (V F : Type 0) : Type 0 where
  pub as_f64 : V → Option F

pub record LatestDesiredPosition (F : Type 0) : Type 0 where
  pub desired_position_id : Uuid
  pub target_side : TargetSide
  pub target_weight_pct : Option F
  pub emitted_at : DateTime

pub record TechnicalFeature (F : Type 0) : Type 0 where
  pub as_of : DateTime
  pub state : String
  pub setup_kind : String
  pub entry_stance : String
  pub summary : String
  pub close : Option F
  pub previous_close : Option F

pub record ThesisFeature (F : Type 0) : Type 0 where
  pub thesis_id : Uuid
  pub state : String
  pub direction : Option String
  pub freshness_status : Option String
  pub freshness_score : Option F
  pub updated_at : DateTime

pub record StrategyFeatures (F : Type 0) : Type 0 where
  pub symbol : String
  pub technical : Option (TechnicalFeature F)
  pub thesis : Option (ThesisFeature F)

-- `config` is the field of that name of the definition.
pub record StrategyEvaluationInput (V F : Type 0) : Type 0 where
  pub definition : StrategyDefinitionInput
  pub config : V
  pub permission : Option (TradePermissionInput F)
  pub latest_desired : Option (LatestDesiredPosition F)
  pub features : StrategyFeatures F
  pub now : DateTime

pub record TargetIntent : Type 0 where
  pub side : TargetSide
  pub rationale : String
  pub reason_codes : List String

-- `Result<TargetIntent, Vec<String>>`.
pub data Targeting : Type 0 where
  ok : TargetIntent → Targeting
  err : List String → Targeting
