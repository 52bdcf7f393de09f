-- ===== src/Controller/Enforce/Written.antt =====
-- The status that the server holds after `updateStatus`.
use mathlib.Core.Path.{subst, subst₂}
use namespace_cost_governor.Base.{
  String, Option, Bool, List, if◌then◌else◌, some, ◌≡◌, refl, sym, ap, ◌∙◌, inl, inr, Result-cases,
  ok, IsErr, ◌>>=◌,
}
use namespace_cost_governor.Base.Int.{ℤ, pos, leb_ℤ}
use namespace_cost_governor.Go.Float.{Float64}
use namespace_cost_governor.Api.{NamespaceBudget, NamespaceBudgetStatus}
use namespace_cost_governor.Api.Kube.{Condition, condition_true, condition_false}
use namespace_cost_governor.Outside.{Outside}
use namespace_cost_governor.Outside.Frame.{retry_on_conflict-OnOk}
use namespace_cost_governor.Outside.Laws.{IsLawful}
use namespace_cost_governor.Outside.Stored.{Entrywise, StoredCondition, StoredIdle, StoredStatus}
use namespace_cost_governor.Controller.Conditions.{
  status_with, usage_warning, budget_exceeded, condition_status,
}
use namespace_cost_governor.Controller.Conditions.Transitions.{
  find_condition, carried, find-stored, carried-status, status_with-conditions,
}
use namespace_cost_governor.Controller.Enforce.{write_status, update_status}

-- The server holds a budget at the key of `b`, with this status but for parts of seconds.
pub data HasStatus {F : Float64} (O : Outside F) (b : NamespaceBudget)
    (status : NamespaceBudgetStatus) (w : O.World) : Type 0 where
  has_status :
      (stored : NamespaceBudget)
      → (O.cluster w).budgets b.namespace b.name ≡ some stored
      → StoredStatus stored.status status
      → HasStatus O b status w

-- The first condition of this type says whether something holds.
pub record Carries (kind : String) (holds : Bool) (stored : NamespaceBudget) : Type 0 where
  pub condition : Condition
  pub at : find_condition kind stored.status.conditions ≡ some condition
  pub says : condition.status ≡ (if holds then condition_true else condition_false)

carries :
    (kind : String) (holds : Bool) (stored : NamespaceBudget) (sent : List Condition)
    (o : Option Condition) (new : Condition)
    → Entrywise StoredCondition stored.status.conditions sent
    → find_condition kind sent ≡ some (carried o new)
    → new.status ≡ (if holds then condition_true else condition_false)
    → Carries kind holds stored
carries kind holds stored sent o new all there says =
    let (d, at, s) = find-stored kind stored.status.conditions sent (carried o new) all there in
    record { condition = d; at = at; says = s.status ∙ carried-status o new ∙ says }

module _ {F : Float64} (O : Outside F) (L : IsLawful O) (b : NamespaceBudget) where
  write_status-HasStatus :
      (status : NamespaceBudgetStatus) (w : O.World)
      → (write_status O b status w).0 ≡ ok tt
      → HasStatus O b status (write_status O b status w).1
  unfolding write_status ◌>>=◌
  write_status-HasStatus status w fine =
      let get = O.get_budget b.namespace b.name in
      elim (Result-cases (get w).0) [
        | inr (e, failing) ↦ absurd (subst IsErr fine (rw failing tt))
        | inl (latest, got) ↦
            let key = L.get_budget-key w b.namespace b.name latest got in
            let update = O.update_budget_status (record latest { status = status }) (get w).1 in
            let same : write_status O b status w ≡ update = rw got refl in
            let (stored, there, written) =
              L.update_budget_status_ok (get w).1 (record latest { status = status })
                (sym (ap (λ out. out.0) same) ∙ fine) in
            subst (λ out. HasStatus O b status out.1) (sym same)
              (has_status stored
                (subst₂ (λ p q. (O.cluster update.1).budgets p q ≡ some stored) key.0 key.1 there)
                written)
      ]

  update_status-HasStatus :
      (phase : String) (percent : ℤ) (w : O.World) (b' : NamespaceBudget)
      → (update_status O b phase percent w).0 ≡ ok b'
      → HasStatus O b
          (status_with phase percent (O.now w).0 b.status)
          (update_status O b phase percent w).1
  unfolding update_status ◌>>=◌
  update_status-HasStatus phase percent w b' fine =
      let desired = status_with phase percent (O.now w).0 b.status in
      let retry = O.retry_on_conflict (write_status O b desired) in
      elim (Result-cases (retry (O.now w).1).0) [
        | inr (e, failing) ↦ absurd (subst IsErr fine (rw failing tt))
        | inl (a, done) ↦ rw done (
            retry_on_conflict-OnOk O L (HasStatus O b desired) (write_status O b desired)
              (O.now w).1 (write_status-HasStatus desired) done)
      ]

  -- What the server holds of the budget, after a reconcile that computed this phase and percentage.
  pub record Written (phase : String) (percent : ℤ) (w : O.World) : Type 0 where
    pub stored : NamespaceBudget
    pub at : (O.cluster w).budgets b.namespace b.name ≡ some stored
    pub phase_of : stored.status.phase ≡ phase
    pub percent_of : stored.status.budget_percent ≡ percent
    pub totals : stored.status.accumulated ≡ b.status.accumulated
    pub idle : Entrywise StoredIdle stored.status.idle_workloads b.status.idle_workloads
    pub report : stored.status.last_report_ref ≡ b.status.last_report_ref
    pub warned : Carries "UsageWarning" (leb_ℤ (pos 80) percent) stored
    pub exceeded : Carries "BudgetExceeded" (leb_ℤ (pos 100) percent) stored

  -- When `updateStatus` returns no error, after any number of conflicts, the server holds the budget
  -- with the phase and the percentage that it was given, the totals, the idle workloads and the last
  -- report of the reconcile, and conditions that say whether the percentage is at least 80 and at
  -- least 100; times are stored in whole seconds.
  pub update_status-Written :
      (phase : String) (percent : ℤ) (w : O.World) (b' : NamespaceBudget)
      → (update_status O b phase percent w).0 ≡ ok b'
      → Written phase percent (update_status O b phase percent w).1
  unfolding status_with usage_warning budget_exceeded condition_status
  update_status-Written phase percent w b' fine =
      elim (update_status-HasStatus phase percent w b' fine) [
        | has_status stored at s ↦ record {
          stored = stored;
          at = at;
          phase_of = s.phase;
          percent_of = s.budget_percent;
          totals = s.accumulated;
          idle = s.idle_workloads;
          report = s.last_report_ref;
          warned =
              carries "UsageWarning" _ stored _ _ (usage_warning percent (O.now w).0) s.conditions
                (status_with-conditions phase percent (O.now w).0 b.status).0 refl;
          exceeded =
              carries "BudgetExceeded" _ stored _ _ (budget_exceeded percent (O.now w).0)
                s.conditions (status_with-conditions phase percent (O.now w).0 b.status).1 refl;
        }
      ]
