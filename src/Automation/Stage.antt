-- ===== src/Automation/Stage.antt =====
-- src/automation/readiness.rs, first part: the lifecycle stages of a strategy, and the stage changes
-- that an operator may make without the readiness gate.
use stocks.Base.{
  ℕ, ◌≡◌, ◌↔◌, arith, Bool, true, false, ◌&&◌, Option, none, some, String, str_eq, ltb, leb, ◌==◌,
  if◌then◌else◌,
}

pub data AutomationStage : Type 0 where
  draft shadow paper canary_live expanded_live frozen retired : AutomationStage

unfoldable pub as_str : AutomationStage → String
as_str draft = "draft"
as_str shadow = "shadow"
as_str paper = "paper"
as_str canary_live = "canary_live"
as_str expanded_live = "expanded_live"
as_str frozen = "frozen"
as_str retired = "retired"

unfoldable pub rank : AutomationStage → Option ℕ
rank draft = some 0
rank shadow = some 1
rank paper = some 2
rank canary_live = some 3
rank expanded_live = some 4
rank frozen = none
rank retired = none

unfoldable pub is_live_capable : AutomationStage → Bool
is_live_capable canary_live = true
is_live_capable expanded_live = true
is_live_capable _ = false

unfoldable pub is_runnable : AutomationStage → Bool
is_runnable shadow = true
is_runnable paper = true
is_runnable canary_live = true
is_runnable expanded_live = true
is_runnable _ = false

unfoldable pub environment_rank : String → Option ℕ
environment_rank scope =
    if str_eq scope "shadow"
    then some 1
    else if str_eq scope "paper"
    then some 2
    else if str_eq scope "canary_live"
    then some 3
    else if str_eq scope "expanded_live"
    then some 4
    else none

unfoldable pub allows_environment_scope : AutomationStage → String → Bool
unfolding rank environment_rank is_runnable
allows_environment_scope stage scope = elim (rank stage) [
  | none ↦ false
  | some stage_rank ↦ elim (environment_rank scope) [
    | none ↦ false
    | some scope_rank ↦ is_runnable stage && leb scope_rank stage_rank
  ]
]

-- `TryFrom<&str>`; `none` is the error.
unfoldable pub try_from : String → Option AutomationStage
try_from value =
    if str_eq value "draft"
    then some draft
    else if str_eq value "shadow"
    then some shadow
    else if str_eq value "paper"
    then some paper
    else if str_eq value "canary_live"
    then some canary_live
    else if str_eq value "expanded_live"
    then some expanded_live
    else if str_eq value "frozen"
    then some frozen
    else if str_eq value "retired"
    then some retired
    else none

unfoldable pub next_stage : AutomationStage → Option AutomationStage
next_stage draft = some shadow
next_stage shadow = some paper
next_stage paper = some canary_live
next_stage canary_live = some expanded_live
next_stage expanded_live = none
next_stage frozen = none
next_stage retired = none

-- The position in the declaration, by which the derived `PartialEq` compares.
abbrev pub tag : AutomationStage → ℕ
tag draft = 0
tag shadow = 1
tag paper = 2
tag canary_live = 3
tag expanded_live = 4
tag frozen = 5
tag retired = 6

abbrev pub stage_eq : AutomationStage → AutomationStage → Bool
stage_eq a b = tag a == tag b

pub stage_eq_iff : (a b : AutomationStage) → (stage_eq a b ≡ true) ↔ (a ≡ b)
stage_eq_iff a b = ground arith

pub record ManualStageChange : Type 0 where
  pub allowed : Bool
  pub event_kind : String
  pub reason : Option String

abbrev pub change : Bool → String → Option String → ManualStageChange
change allowed event_kind reason = record {
  allowed = allowed;
  event_kind = event_kind;
  reason = reason;
}

-- The match on both ranks at the end of `manual_stage_change`.
unfoldable pub change_by_rank : Option ℕ → Option ℕ → ManualStageChange
change_by_rank (some from_rank) (some to_rank) =
    if ltb to_rank from_rank
    then change true "demoted" none
    else if ltb from_rank to_rank
    then change false "blocked" (some "promotion_requires_readiness_gate")
    else change false "blocked" (some "manual_change_not_allowed")
change_by_rank _ _ = change false "blocked" (some "manual_change_not_allowed")

unfoldable pub manual_stage_change : AutomationStage → AutomationStage → ManualStageChange
unfolding change_by_rank rank
manual_stage_change from to =
    if stage_eq from to
    then change false "blocked" (some "same_stage")
    else if stage_eq to frozen
    then change true "frozen" none
    else if stage_eq to retired
    then change true "retired" none
    else change_by_rank (rank from) (rank to)
