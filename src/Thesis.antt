-- ===== src/Thesis.antt =====
-- src/thesis/substance.rs with the lifecycle states and conditions of src/platform/domain.rs: which
-- slots of a thesis are filled, and which promotions they allow.
pub mod Promotion
pub mod Report
mod Tests
use Prim.Native.String.{◌++◌ as append}
use stocks.Base.{
  ℕ, ◌-◌, Bool, true, false, not, ◌&&◌, ◌||◌, List, [], ◌∷◌, Option, none, some, String, str_eq,
  if◌then◌else◌, any, keep, flatten, length, is_empty, is_some, ltb,
}
use stocks.Time.{DateTime}
use stocks.Reasons.{when}

pub data ThesisState : Type 0 where
  forming building_conviction armed actionable position_open exiting closed disqualified :
      ThesisState

unfoldable pub as_str : ThesisState → String
as_str forming = "forming"
as_str building_conviction = "building_conviction"
as_str armed = "armed"
as_str actionable = "actionable"
as_str position_open = "position_open"
as_str exiting = "exiting"
as_str closed = "closed"
as_str disqualified = "disqualified"

-- The target is a JSON value, of the type `V`.
pub record Condition (V : Type 0) : Type 0 where
  pub name : String
  pub condition_type : String
  pub expr : Option String
  pub assertion : Option String
  pub target : Option V
  pub deadline_at : Option DateTime
  pub evidence_source : Option String
  pub status : String
  pub last_checked_at : Option DateTime
  pub last_observed_value : Option V

abbrev pub is_non_empty : Option String → Bool
is_non_empty none = false
is_non_empty (some s) = not (str_eq s "")

unfoldable pub is_well_formed : {V : Type 0} → Condition V → Bool
is_well_formed c = is_some c.target && is_some c.deadline_at && is_non_empty c.evidence_source

pub record Thesis (V : Type 0) : Type 0 where
  pub forecast_present : Bool
  pub intended_size_present : Bool
  pub conviction : List (Condition V)
  pub trigger : List (Condition V)
  pub invalidation : List (Condition V)
  pub fulfillment : List (Condition V)

pub record WellFormedCounts : Type 0 where
  pub conviction : ℕ
  pub trigger : ℕ
  pub invalidation : ℕ
  pub fulfillment : ℕ

unfoldable pub well_formed_counts : {V : Type 0} → Thesis V → WellFormedCounts
well_formed_counts t = record {
  conviction = length (keep is_well_formed t.conviction);
  trigger = length (keep is_well_formed t.trigger);
  invalidation = length (keep is_well_formed t.invalidation);
  fulfillment = length (keep is_well_formed t.fulfillment);
}

pub record SubstanceReport : Type 0 where
  pub score : ℕ
  pub max_score : ℕ
  pub missing : List String
  pub blocked_at : Option ThesisState

abbrev pub max_score_of_report : ℕ
max_score_of_report = 6

unfoldable pub is_complete : SubstanceReport → Bool
is_complete r = not (is_some r.blocked_at)

abbrev pub has_one : {V : Type 0} → List (Condition V) → Bool
has_one cs = any is_well_formed cs

-- `missing`, from the tests of the six slots in the source's order.
unfoldable pub missing_of : Bool → Bool → Bool → Bool → Bool → Bool → List String
missing_of forecast conviction trigger invalidation size fulfillment = flatten (
    when (not forecast) "forecast"
    ∷ when (not conviction) "conviction_conditions"
    ∷ when (not trigger) "trigger_conditions"
    ∷ when (not invalidation) "invalidation_conditions"
    ∷ when (not size) "intended_size"
    ∷ when (not fulfillment) "fulfillment_conditions"
    ∷ [])

abbrev pub missing : {V : Type 0} → Thesis V → List String
missing t =
    missing_of t.forecast_present (has_one t.conviction) (has_one t.trigger)
      (has_one t.invalidation) t.intended_size_present (has_one t.fulfillment)

abbrev pub names : String → List String → Bool
names slot slots = any (λ m. str_eq m slot) slots

-- The chain of tests on `missing`.
unfoldable pub blocked_at_of : List String → Option ThesisState
blocked_at_of slots =
    if any (λ m. str_eq m "forecast" || str_eq m "conviction_conditions") slots
    then some building_conviction
    else if any (λ m. str_eq m "invalidation_conditions" || str_eq m "trigger_conditions") slots
    then some armed
    else if names "intended_size" slots
    then some actionable
    else if names "fulfillment_conditions" slots
    then some exiting
    else none

-- `u8::try_from(n).unwrap_or(0)`.
abbrev pub as_u8 : ℕ → ℕ
as_u8 n = if ltb n 256 then n else 0

unfoldable pub substance_report : {V : Type 0} → Thesis V → SubstanceReport
substance_report t = record {
  score = as_u8 (max_score_of_report - length (missing t));
  max_score = max_score_of_report;
  missing = missing t;
  blocked_at = blocked_at_of (missing t);
}

-- Is the edge legal, and which slots does it require?
unfoldable pub edge : ThesisState → ThesisState → Bool × List String
edge forming building_conviction = (true, "forecast" ∷ "conviction_conditions" ∷ [])
edge building_conviction armed = (true, "invalidation_conditions" ∷ "trigger_conditions" ∷ [])
edge armed actionable = (true, "intended_size" ∷ [])
edge actionable position_open = (true, [])
edge position_open exiting = (true, "fulfillment_conditions" ∷ [])
edge exiting closed = (true, [])
edge disqualified disqualified = (false, [])
edge _ disqualified = (true, [])
edge _ _ = (false, [])

-- `Result<(), Vec<String>>`.
pub data Verdict : Type 0 where
  ok : Verdict
  err : List String → Verdict

abbrev pub illegal_text : ThesisState → ThesisState → String
illegal_text from to =
    append (append (append "illegal transition " (as_str from)) " → ") (as_str to)

unfoldable pub verdict_of : List String → Verdict
verdict_of lacking = if is_empty lacking then ok else err lacking

unfoldable pub promotion_allowed : {V : Type 0} → ThesisState → ThesisState → Thesis V → Verdict
promotion_allowed from to t =
    let (allowed, required) = edge from to in
    if not allowed
    then err (illegal_text from to ∷ [])
    else verdict_of (keep (λ f. names f (substance_report t).missing) required)
