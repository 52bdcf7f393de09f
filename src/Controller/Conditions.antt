-- ===== src/Controller/Conditions.antt =====
-- `conditionStatus`, `setCondition`, and the two conditions that `updateStatus` sets.
pub mod Transitions
use namespace_cost_governor.Base.{String, ◌<>◌, Bool, List, [], ◌∷◌, ◌==◌, if◌then◌else◌}
use namespace_cost_governor.Base.Int.{ℤ, pos, leb_ℤ}
use namespace_cost_governor.Go.Strconv.{format_int}
use namespace_cost_governor.Go.Time.{Time}
use namespace_cost_governor.Api.{NamespaceBudgetStatus}
use namespace_cost_governor.Api.Kube.{
  Condition, ConditionStatus, condition_true, condition_false, condition_unknown,
}

unfoldable pub condition_status : Bool → ConditionStatus
condition_status b = if b then condition_true else condition_false

-- `a == b` on two statuses
abbrev pub status_eq : ConditionStatus → ConditionStatus → Bool
status_eq condition_true condition_true = Bool.true
status_eq condition_false condition_false = Bool.true
status_eq condition_unknown condition_unknown = Bool.true
status_eq _ _ = Bool.false

-- The new condition, with the transition time of the existing one if the status is the same.
unfoldable pub carry_transition : Condition → Condition → Condition
carry_transition existing new =
    if status_eq existing.status new.status
    then record new { last_transition_time = existing.last_transition_time }
    else new

unfoldable pub set_condition : List Condition → Condition → List Condition
unfolding carry_transition
set_condition [] new = new ∷ []
set_condition (existing ∷ conditions) new =
    let rest = set_condition conditions new in
    if existing.kind == new.kind
    then carry_transition existing new ∷ conditions
    else existing ∷ rest

abbrev usage_condition : String → String → Bool → ℤ → Time → Condition
usage_condition kind reason reached budget_percent now = record {
  kind = kind;
  status = condition_status reached;
  reason = reason;
  message = "Budget usage at " <> (format_int budget_percent <> "%");
  last_transition_time = now;
}

unfoldable pub usage_warning : ℤ → Time → Condition
unfolding condition_status
usage_warning budget_percent now =
    usage_condition "UsageWarning" "BudgetThresholdReached" (leb_ℤ (pos 80) budget_percent)
      budget_percent now

unfoldable pub budget_exceeded : ℤ → Time → Condition
unfolding condition_status
budget_exceeded budget_percent now =
    usage_condition "BudgetExceeded" "MonthlyBudgetExceeded" (leb_ℤ (pos 100) budget_percent)
      budget_percent now

-- The status that `updateStatus` writes.
unfoldable pub status_with : String → ℤ → Time → NamespaceBudgetStatus → NamespaceBudgetStatus
status_with phase budget_percent now status = record status {
  phase = phase;
  budget_percent = budget_percent;
  conditions =
      set_condition (set_condition status.conditions (usage_warning budget_percent now))
        (budget_exceeded budget_percent now);
}
