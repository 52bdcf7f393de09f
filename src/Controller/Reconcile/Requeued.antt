-- ===== src/Controller/Reconcile/Requeued.antt =====
-- A budget that lives is reconciled again.
use namespace_cost_governor.Base.{
  String, true, not, List, ◌≡◌, ◌⊎◌, inl, inr, refl, ap, ◌∙◌, Result, ok, err, Exec, attempt, ◌>>=◌,
}
use namespace_cost_governor.Base.Keeps.{
  Keeps, Ensures, OnOk, Ensures-pure, Ensures-if, Ensures-bind, Ensures-then,
}
use namespace_cost_governor.Go.Float.{Float64}
use namespace_cost_governor.Go.Time.{Time, is_zero}
use namespace_cost_governor.Api.{NamespaceBudget}
use namespace_cost_governor.Metrics.{Sample}
use namespace_cost_governor.Metrics.Prometheus.{query_instant}
use namespace_cost_governor.Outside.{Outside}
use namespace_cost_governor.Outside.Laws.{IsLawful, deployment_at}
use namespace_cost_governor.Controller.{Reconciler, ReconcileResult, namespace_budget_finalizer}
use namespace_cost_governor.Controller.Lifecycle.{requeue_now, register_finalizer}
use namespace_cost_governor.Controller.Month.{init_since, month_boundary}
use namespace_cost_governor.Controller.Month.Frame.{
  SameButStatus, init_since-SameButStatus, month_boundary-Ensures,
}
use namespace_cost_governor.Controller.Reconcile.{
  in_a_minute, cpu_query, mem_query, account_and_enforce, with_memory, with_cpu, measure, dispatch,
  reconcile_budget, with_fetched, reconcile,
}

-- The answer asks for another run, at once or in a minute.
pub Again : ReconcileResult → Type 0
Again a = (a ≡ in_a_minute) ⊎ (a ≡ requeue_now)

module _ {F : Float64} (O : Outside F) where
  abbrev Any : O.World → Type 0
  Any w = Unit

  Keeps-Any : {A : Type 0} (m : Exec O.World A) → Keeps Any m
  Keeps-Any m = record { at = λ w h. tt }

  in_a_minute-Again : Ensures Any Again (λ w. (ok in_a_minute, w))
  unfolding Again
  in_a_minute-Again = Ensures-pure Again in_a_minute (inl refl)

  module _ (r : Reconciler F) (namespace previous_phase : String) (b : NamespaceBudget) where
    account_and_enforce-Again :
        (cpu mem : List (Sample F))
        → Ensures Any Again (account_and_enforce O r namespace previous_phase cpu mem b)
    unfolding account_and_enforce
    account_and_enforce-Again cpu mem =
        Ensures-then Again _ _ (Keeps-Any _)
          (λ now. Ensures-then Again _ _ (Keeps-Any _) (λ u. in_a_minute-Again))

    with_memory-Again :
        (cpu : List (Sample F)) (mem : Result (List (Sample F)))
        → Ensures Any Again (with_memory O r namespace previous_phase cpu b mem)
    unfolding with_memory
    with_memory-Again cpu (err e) = in_a_minute-Again
    with_memory-Again cpu (ok mem) = account_and_enforce-Again cpu mem

    with_cpu-Again :
        (cpu : Result (List (Sample F)))
        → Ensures Any Again (with_cpu O r namespace previous_phase b cpu)
    unfolding with_cpu
    with_cpu-Again (err e) = in_a_minute-Again
    with_cpu-Again (ok cpu) =
        Ensures-then Again _ _
          (Keeps-Any (attempt (query_instant O r.prometheus_client (mem_query O r namespace))))
          (λ mem. with_memory-Again cpu mem)

  dispatch-Again :
      (r : Reconciler F) (namespace : String) (b : NamespaceBudget)
      → is_zero b.deletion_timestamp ≡ true
      → Ensures Any Again (dispatch O r namespace b)
  unfolding dispatch measure register_finalizer Again
  dispatch-Again r namespace b live = rw live (
      Ensures-if Again (not (O.contains_finalizer b namespace_budget_finalizer)) _ _
        (λ _. Ensures-then Again _ _ (Keeps-Any _) (λ u. Ensures-pure Again requeue_now (inr refl)))
        (λ _.
          Ensures-then Again _ _
            (Keeps-Any (attempt (query_instant O r.prometheus_client (cpu_query O r namespace))))
            (λ cpu. with_cpu-Again r namespace b.status.phase b cpu)))

  module _ (L : IsLawful O) (r : Reconciler F) where
    month_boundary-Same :
        (now : Time) (b : NamespaceBudget)
        → Ensures Any (SameButStatus b) (month_boundary O r now b)
    month_boundary-Same now b = record {
      at = λ w h.
          let known = month_boundary-Ensures O L r "" "" (deployment_at O w "" "") now b in
          (tt, (known.at w refl).1);
    }

    reconcile_budget-Again :
        (namespace : String) (b : NamespaceBudget)
        → is_zero b.deletion_timestamp ≡ true
        → Ensures Any Again (reconcile_budget O r namespace b)
    unfolding reconcile_budget
    reconcile_budget-Again namespace b live = Ensures-then Again _ _ (Keeps-Any _) (λ now.
        let started = init_since O.calendar now b in
        Ensures-bind (SameButStatus started) Again _ _ (month_boundary-Same now started)
          (λ b1 after. dispatch-Again r namespace b1 (
            ap (λ x. is_zero x.deletion_timestamp) after
            ∙ ap (λ x. is_zero x.deletion_timestamp) (init_since-SameButStatus O.calendar now b)
            ∙ live)))

    -- A reconcile of a budget that is not being deleted, if it returns no error, asks to be run
    -- again: in a minute, or at once after it registered the finalizer. So such a budget is never
    -- dropped, whichever of the calls for metrics, reports, Deployments or notifications fail.
    pub reconcile-Again :
        (namespace name : String) (b : NamespaceBudget) (w : O.World)
        → (O.get_budget namespace name w).0 ≡ ok b
        → is_zero b.deletion_timestamp ≡ true
        → OnOk Again (reconcile O r namespace name w).0
    unfolding reconcile with_fetched ◌>>=◌
    reconcile-Again namespace name b w got live =
        rw got
          (((reconcile_budget-Again namespace b live).at (O.get_budget namespace name w).1 tt).1)
