-- ===== src/Controller/Reconcile/Spared.antt =====
-- An excluded Deployment through a whole reconcile.
use namespace_cost_governor.Base.{
  String, some, true, not, List, ◌||◌, ◌≡◌, refl, ap, Result, ok, err, ◌>>=◌, ◌∙◌,
}
use namespace_cost_governor.Base.Keeps.{
  Keeps, Keeps-bind, Keeps-if, Keeps-pure, Keeps-attempt, Keeps-bind-Ensures,
}
use namespace_cost_governor.Go.Float.{Float64}
use namespace_cost_governor.Go.Time.{is_zero}
use namespace_cost_governor.Api.{NamespaceBudget, Exclusion}
use namespace_cost_governor.Api.Kube.{Deployment}
use namespace_cost_governor.Metrics.{Sample}
use namespace_cost_governor.Metrics.Prometheus.Frame.{query_instant-Reads}
use namespace_cost_governor.Idle.Exclusion.{is_excluded, is_label_excluded}
use namespace_cost_governor.Outside.{Outside}
use namespace_cost_governor.Outside.Frame.{
  Holds, Keeps-Reads, clock-Holds, get_budget-Holds, update_budget-Holds,
}
use namespace_cost_governor.Outside.Laws.{IsLawful, deployment_at}
use namespace_cost_governor.Controller.{Reconciler, namespace_budget_finalizer}
use namespace_cost_governor.Controller.Enforce.Spared.{enforce-Holds_spared}
use namespace_cost_governor.Controller.Month.{init_since}
use namespace_cost_governor.Controller.Month.Frame.{
  SameButStatus, init_since-SameButStatus, month_boundary-Ensures,
}
use namespace_cost_governor.Controller.Lifecycle.{register_finalizer}
use namespace_cost_governor.Controller.Reconcile.{
  account_and_enforce, with_memory, with_cpu, measure, dispatch, reconcile_budget, with_fetched,
  reconcile,
}

module _ {F : Float64} (O : Outside F) (L : IsLawful O) (r : Reconciler F) (exs : List Exclusion)
    (ns' n' : String) (d : Deployment) (key : (d.namespace ≡ ns') × (d.name ≡ n'))
    (spared : is_excluded d.name exs || is_label_excluded O d exs ≡ true) where
  abbrev Here : O.World → Type 0
  Here = Holds O ns' n' (some d)

  module _ (namespace previous_phase : String) (b : NamespaceBudget)
      (same : b.spec.exclusions ≡ exs) where
    account_and_enforce-Holds :
        (cpu mem : List (Sample F))
        → Keeps Here (account_and_enforce O r namespace previous_phase cpu mem b)
    unfolding account_and_enforce
    account_and_enforce-Holds cpu mem = Keeps-bind _ _ (clock-Holds O ns' n' (some d) L) (λ now.
        Keeps-bind _ _
          (enforce-Holds_spared O L exs ns' n' d key spared r namespace previous_phase _ _ _ same)
          (λ u. Keeps-pure _))

    with_memory-Holds :
        (cpu : List (Sample F)) (mem : Result (List (Sample F)))
        → Keeps Here (with_memory O r namespace previous_phase cpu b mem)
    unfolding with_memory
    with_memory-Holds cpu (err e) = Keeps-pure _
    with_memory-Holds cpu (ok mem) = account_and_enforce-Holds cpu mem

    with_cpu-Holds :
        (cpu : Result (List (Sample F))) → Keeps Here (with_cpu O r namespace previous_phase b cpu)
    unfolding with_cpu
    with_cpu-Holds (err e) = Keeps-pure _
    with_cpu-Holds (ok cpu) =
        Keeps-bind _ _
          (Keeps-attempt _
            (Keeps-Reads O ns' n' (some d) _ (query_instant-Reads O L r.prometheus_client _)))
          (λ mem. with_memory-Holds cpu mem)

    measure-Holds : Keeps Here (measure O r namespace previous_phase b)
    unfolding measure
    measure-Holds =
        Keeps-bind _ _
          (Keeps-attempt _
            (Keeps-Reads O ns' n' (some d) _ (query_instant-Reads O L r.prometheus_client _)))
          (λ cpu. with_cpu-Holds cpu)

  dispatch-Holds :
      (namespace : String) (b : NamespaceBudget)
      → b.spec.exclusions ≡ exs
      → is_zero b.deletion_timestamp ≡ true
      → Keeps Here (dispatch O r namespace b)
  unfolding dispatch register_finalizer
  dispatch-Holds namespace b same live = rw live (
      Keeps-if (not (O.contains_finalizer b namespace_budget_finalizer)) _ _
        (λ _. Keeps-bind _ _ (update_budget-Holds O ns' n' (some d) L _) (λ u. Keeps-pure _))
        (λ _. measure-Holds namespace b.status.phase b same))

  reconcile_budget-Holds :
      (namespace : String) (b : NamespaceBudget)
      → b.spec.exclusions ≡ exs
      → is_zero b.deletion_timestamp ≡ true
      → Keeps Here (reconcile_budget O r namespace b)
  unfolding reconcile_budget
  reconcile_budget-Holds namespace b same live =
      Keeps-bind _ _ (clock-Holds O ns' n' (some d) L) (λ now.
        let started = init_since-SameButStatus O.calendar now b in
        Keeps-bind-Ensures (SameButStatus (init_since O.calendar now b)) _ _
          (month_boundary-Ensures O L r ns' n' (some d) now _)
          (λ b1 after.
            dispatch-Holds namespace b1
              (ap (λ x. x.spec.exclusions) after ∙ ap (λ x. x.spec.exclusions) started ∙ same)
              (ap (λ x. is_zero x.deletion_timestamp) after
                ∙ ap (λ x. is_zero x.deletion_timestamp) started
                ∙ live)))

-- A Deployment that a live budget excludes, by its name or by its labels, is after every reconcile
-- of the budget the same as before, in every phase and whatever calls fail.
pub reconcile-spares :
    {F : Float64} (O : Outside F) (L : IsLawful O) (r : Reconciler F) (namespace name : String)
    (b : NamespaceBudget) (ns n : String) (d : Deployment) (w : O.World)
    → (O.get_budget namespace name w).0 ≡ ok b
    → is_zero b.deletion_timestamp ≡ true
    → is_excluded d.name b.spec.exclusions || is_label_excluded O d b.spec.exclusions ≡ true
    → deployment_at O w ns n ≡ some d
    → deployment_at O (reconcile O r namespace name w).1 ns n ≡ some d
unfolding reconcile ◌>>=◌ with_fetched
reconcile-spares O L r namespace name b ns n d w got live spared here = rw got (
    (reconcile_budget-Holds O L r b.spec.exclusions ns n d (L.stored_key w ns n d here) spared
        namespace b refl live).at
      _ ((get_budget-Holds O ns n (some d) L namespace name).at w here))
