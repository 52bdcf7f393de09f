-- ===== src/Controller/Conditions/Transitions.antt =====
-- What `setCondition` and `updateStatus` make of the conditions, read back by their type.
use mathlib.Core.Option.{some-injective}
use mathlib.Core.Path.{subst}
use namespace_cost_governor.Base.{
  String, Option, none, some, false, List, [], ◌∷◌, ◌==◌, ◌≡◌, ◌≢◌, refl, sym, ap, ◌∙◌, inl, inr,
  Bool-cases, if◌then◌else◌, eq_iff, arith,
}
use namespace_cost_governor.Base.Int.{ℤ}
use namespace_cost_governor.Go.Time.{Time}
use namespace_cost_governor.Api.{NamespaceBudgetStatus}
use namespace_cost_governor.Api.Kube.{Condition}
use namespace_cost_governor.Outside.Stored.{Entrywise, StoredCondition}
use namespace_cost_governor.Controller.Conditions.{
  status_eq, carry_transition, set_condition, usage_warning, budget_exceeded, status_with,
}

-- The first condition of the type.
pub find_condition : String → List Condition → Option Condition
find_condition kind [] = none
find_condition kind (c ∷ conditions) =
    let rest = find_condition kind conditions in if c.kind == kind then some c else rest

-- The new condition; where one of its type exists with the same status, with the time since which
-- that one has it.
pub carried : Option Condition → Condition → Condition
carried none new = new
carried (some existing) new = record new {
  last_transition_time =
      if status_eq existing.status new.status
      then existing.last_transition_time
      else new.last_transition_time;
}

carry_transition-carried :
    (existing new : Condition) → carry_transition existing new ≡ carried (some existing) new
unfolding carry_transition carried
carry_transition-carried existing new = elim (Bool-cases (status_eq existing.status new.status)) [
  | inl same ↦ rw same refl
  | inr other ↦ rw other refl
]

carry_transition-kind : (existing new : Condition) → (carry_transition existing new).kind ≡ new.kind
unfolding carry_transition
carry_transition-kind existing new = elim (Bool-cases (status_eq existing.status new.status)) [
  | inl same ↦ rw same refl
  | inr other ↦ rw other refl
]

found :
    (kind : String) (c : Condition) (conditions : List Condition)
    → c.kind ≡ kind
    → find_condition kind (c ∷ conditions) ≡ some c
unfolding find_condition
found kind c conditions same = ground (arith, eq_iff c.kind kind)

passed :
    (kind : String) (c : Condition) (conditions : List Condition)
    → c.kind == kind ≡ false
    → find_condition kind (c ∷ conditions) ≡ find_condition kind conditions
unfolding find_condition
passed kind c conditions other = rw other refl

find-set_condition :
    (conditions : List Condition) (new : Condition)
    → find_condition new.kind (set_condition conditions new)
      ≡ some (carried (find_condition new.kind conditions) new)
unfolding find_condition set_condition carried
find-set_condition [] new = found new.kind new [] refl
find-set_condition (c ∷ conditions) new = elim (Bool-cases (c.kind == new.kind)) [
  | inl same ↦ rw same (
      found new.kind (carry_transition c new) conditions (carry_transition-kind c new)
      ∙ ap some (carry_transition-carried c new))
  | inr other ↦ rw (other, other) (find-set_condition conditions new)
]

find-set_condition_other :
    (kind : String) (conditions : List Condition) (new : Condition)
    → new.kind == kind ≡ false
    → find_condition kind (set_condition conditions new) ≡ find_condition kind conditions
unfolding find_condition set_condition
find-set_condition_other kind [] new apart = rw apart refl
find-set_condition_other kind (c ∷ conditions) new apart = elim (Bool-cases (c.kind == new.kind)) [
  | inl same ↦ rw same (
      passed kind (carry_transition c new) conditions
        (ap (λ k. k == kind) (carry_transition-kind c new) ∙ apart)
      ∙ sym (
          passed kind c conditions
            (ground (arith, eq_iff c.kind new.kind, eq_iff c.kind kind, eq_iff new.kind kind))))
  | inr other ↦ rw (other, find-set_condition_other kind conditions new apart) refl
]

-- The condition of the type among those that are stored.
pub find-stored :
    (kind : String) (stored sent : List Condition) (c : Condition)
    → Entrywise StoredCondition stored sent
    → find_condition kind sent ≡ some c
    → (d : Condition) × (find_condition kind stored ≡ some d) × StoredCondition d c
unfolding find_condition
find-stored kind [] [] c all there = absurd (none_some there)
  where
    none_some : none ≡ some c → ⊥
    none_some e = cc e
find-stored kind [] (b ∷ ys) c all there = absurd all
find-stored kind (a ∷ xs) [] c all there = absurd all
find-stored kind (a ∷ xs) (b ∷ ys) c all there = elim (Bool-cases (b.kind == kind)) [
  | inl same ↦ (
    a,
    rw (all.0.kind, same) refl,
    subst (StoredCondition a) (some-injective _ _ (rw same at there)) all.0,
  )
  | inr other ↦
      let (d, at, s) = find-stored kind xs ys c all.1 (rw other at there) in
      (d, rw (all.0.kind, other) at, s)
]

pub carried-status : (o : Option Condition) (new : Condition) → (carried o new).status ≡ new.status
unfolding carried
carried-status none new = refl
carried-status (some c) new = refl

-- After `updateStatus` the first condition of the type UsageWarning is the one of the new percentage,
-- and so is that of the type BudgetExceeded. Each keeps the time of the last transition if there was
-- one of its type with the same status. The first condition of any other type is as it was.
pub status_with-conditions :
    (phase : String) (percent : ℤ) (now : Time) (status : NamespaceBudgetStatus)
    → let old = status.conditions in
      let new = (status_with phase percent now status).conditions in
      (find_condition "UsageWarning" new
        ≡ some (carried (find_condition "UsageWarning" old) (usage_warning percent now)))
      × (find_condition "BudgetExceeded" new
          ≡ some (carried (find_condition "BudgetExceeded" old) (budget_exceeded percent now)))
      × ((kind : String)
          → kind ≢ "UsageWarning"
          → kind ≢ "BudgetExceeded"
          → find_condition kind new ≡ find_condition kind old)
unfolding status_with usage_warning budget_exceeded
status_with-conditions phase percent now status =
    let warning = usage_warning percent now in
    let exceeded = budget_exceeded percent now in
    let once = set_condition status.conditions warning in
    (
      find-set_condition_other "UsageWarning" once exceeded refl
          ∙ find-set_condition status.conditions warning,
      find-set_condition once exceeded
          ∙ ap (λ o. some (carried o exceeded))
              (find-set_condition_other "BudgetExceeded" status.conditions warning refl),
      λ kind w e.
          find-set_condition_other kind once exceeded
            (ground (arith, eq_iff "BudgetExceeded" kind, e))
          ∙ find-set_condition_other kind status.conditions warning
              (ground (arith, eq_iff "UsageWarning" kind, w)),
    )
