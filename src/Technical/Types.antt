-- ===== src/Technical/Types.antt =====
-- The records of src/platform/technical.rs. Texts that only describe a state are left out.
use stocks.Base.{ℕ, String, Option, List}
use stocks.Time.{DateTime}

module _ (F : Type 0) where
  pub record TechnicalBar : Type 0 where
    pub ts : DateTime
    pub close : F
    pub high : F
    pub low : F
    pub volume : F

  pub record SmaPoint : Type 0 where
    pub window : ℕ
    pub value : Option F
    pub pct_vs : Option F

  pub record VwapPoint : Type 0 where
    pub window : ℕ
    pub value : Option F
    pub pct_vs : Option F
    pub state : String

  pub record IntervalTechnical : Type 0 where
    pub interval : String
    pub bars : ℕ
    pub as_of : Option DateTime
    pub close : Option F
    pub rsi14 : Option F
    pub rsi_zone : String
    pub rsi_zone_bars : ℕ
    pub rsi_zone_since : Option DateTime
    pub stochastic_k14 : Option F
    pub stochastic_d3 : Option F
    pub stochastic_zone : String
    pub stochastic_zone_bars : ℕ
    pub pso : Option F
    pub pso_delta : Option F
    pub pso_zone : String
    pub pso_zone_bars : ℕ
    pub pso32 : Option F
    pub pso32_delta : Option F
    pub pso32_zone : String
    pub pso32_zone_bars : ℕ

  pub record MacdTechnical : Type 0 where
    pub line : F
    pub signal : F
    pub histogram : F
    pub histogram_delta : Option F
    pub state : String

  pub record DmiTechnical : Type 0 where
    pub adx14 : F
    pub plus_di14 : F
    pub minus_di14 : F
    pub state : String

  pub record AtrTechnical : Type 0 where
    pub atr14 : F
    pub natr14_pct : F
    pub state : String

  pub record BollingerTechnical : Type 0 where
    pub middle20 : F
    pub upper20 : F
    pub lower20 : F
    pub bandwidth_pct : F
    pub pct_b : F
    pub state : String

  pub record VolumeTechnical : Type 0 where
    pub latest : F
    pub avg20 : Option F
    pub avg50 : Option F
    pub ratio_vs_20 : Option F
    pub state : String

  pub record RelativeStrengthTechnical : Type 0 where
    pub benchmark : String
    pub rel_20d_pct : Option F
    pub rel_60d_pct : Option F
    pub rel_120d_pct : Option F
    pub state : String

  pub record DailyTechnical : Type 0 where
    pub as_of : DateTime
    pub close : F
    pub sma : List SmaPoint
    pub vwap : List VwapPoint
    pub pct_vs_252d_high : Option F
    pub pct_vs_252d_low : Option F
    pub macd : Option MacdTechnical
    pub dmi : Option DmiTechnical
    pub atr : Option AtrTechnical
    pub bollinger : Option BollingerTechnical
    pub volume : Option VolumeTechnical
    pub relative_strength : List RelativeStrengthTechnical

  pub record CrossEvent : Type 0 where
    pub window : ℕ
    pub direction : String
    pub at : DateTime
    pub close : F
    pub sma : F

  pub record AnalogEvent : Type 0 where
    pub kind : String
    pub at : DateTime
    pub close : F
    pub rsi14 : F
    pub forward_return_20d_pct : Option F
    pub max_drawdown_20d_pct : Option F

-- The field `summary` is left out.
pub record CrossTechnical : Type 0 where
  pub trend_state : String
  pub momentum_state : String
  pub vwap_state : String
  pub volatility_state : String
  pub volume_state : String
  pub relative_strength_state : String
  pub reversal_signal : String
  pub buy_timing : String

-- The field `summary` is left out.
pub record TechnicalSetup : Type 0 where
  pub kind : String
  pub entry_stance : String
