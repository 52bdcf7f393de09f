-- ===== src/Controller/Life.antt =====
-- A reconcile moves every Deployment along the diagram of Actions/Life.
use namespace_cost_governor.Base.{
  String, some, not, List, [], ◌∷◌, ◌==◌, ◌≡◌, Result, ok, err, if◌then◌else◌,
}
use namespace_cost_governor.Base.Int.{ℤ}
use namespace_cost_governor.Base.Keeps.{
  Keeps, Keeps-bind, Keeps-if, Keeps-pure, Keeps-throw, Keeps-attempt, Keeps-wrapping,
  Keeps-of_result, Keeps-Ensures,
}
use namespace_cost_governor.Go.Float.{Float64}
use namespace_cost_governor.Go.Time.{Time, is_zero}
use namespace_cost_governor.Api.{NamespaceBudget, Exclusion}
use namespace_cost_governor.Api.Kube.{Deployment}
use namespace_cost_governor.Metrics.{Sample}
use namespace_cost_governor.Metrics.Prometheus.{query_instant}
use namespace_cost_governor.Metrics.Prometheus.Frame.{query_instant-Reads}
use namespace_cost_governor.Idle.{IdleWorkload}
use namespace_cost_governor.Idle.Detector.Frame.{detect_idle-Reads}
use namespace_cost_governor.Outside.{Outside, is_not_found}
use namespace_cost_governor.Outside.Frame.{Keeps-Reads, update_budget-Holds}
use namespace_cost_governor.Outside.Laws.{IsLawful, Reads, deployment_at}
use namespace_cost_governor.Actions.ScaleDown.{is_scaled_down_by_operator}
use namespace_cost_governor.Actions.Life.{Steps, From, Keeps-From-Holds, here}
use namespace_cost_governor.Actions.Life.Scaling.{scale_down-From, suspend_all-From}
use namespace_cost_governor.Actions.Life.Restoring.{restore-From}
use namespace_cost_governor.Controller.{Reconciler, namespace_budget_finalizer, phase_suspended}
use namespace_cost_governor.Controller.Phase.{under_pressure}
use namespace_cost_governor.Controller.Month.{init_since, month_boundary}
use namespace_cost_governor.Controller.Month.Frame.{month_boundary-Ensures}
use namespace_cost_governor.Controller.Enforce.{
  detect, detect_actionable, actionable_of, scale_down_each, suspend_step, enforce,
}
use namespace_cost_governor.Controller.Enforce.Frame.{
  filter_excluded-Holds, update_status-Holds, notify_step-Holds,
}
use namespace_cost_governor.Controller.Lifecycle.{
  restore_each, cleanup, handle_deletion, register_finalizer,
}
use namespace_cost_governor.Controller.Reconcile.{
  account_and_enforce, with_memory, with_cpu, measure, dispatch, reconcile_budget, with_fetched,
  reconcile,
}

module _ {F : Float64} (O : Outside F) (L : IsLawful O) (ns n : String) (d : Deployment) where
  abbrev FromHere : O.World → Type 0
  FromHere = From O ns n d

  from_Reads : {A : Type 0} (m : _) → Reads O {A = A} m → Keeps FromHere m
  from_Reads m reads = Keeps-From-Holds O ns n m (λ o. Keeps-Reads O ns n o m reads) d

  restore_each-From :
      (namespace : String) (ds : List Deployment) → Keeps FromHere (restore_each O namespace ds)
  unfolding restore_each
  restore_each-From namespace [] = Keeps-pure _
  restore_each-From namespace (d0 ∷ ds) =
      let rest = restore_each-From namespace ds in
      Keeps-if (is_scaled_down_by_operator d0) _ _
        (λ _.
          Keeps-bind _ _ (Keeps-wrapping _ _ (restore-From O L ns n d namespace d0.name))
            (λ _. rest))
        (λ _. rest)

  update_budget-From : (b : NamespaceBudget) → Keeps FromHere (O.update_budget b)
  update_budget-From b = Keeps-From-Holds O ns n _ (λ o. update_budget-Holds O ns n o L b) d

  -- A deletion moves every Deployment along the diagram.
  pub handle_deletion-From : (b : NamespaceBudget) → Keeps FromHere (handle_deletion O b)
  unfolding handle_deletion cleanup
  handle_deletion-From b =
      Keeps-if (O.contains_finalizer b namespace_budget_finalizer) _ _
        (λ _.
          Keeps-bind _ _
            (Keeps-bind _ _
              (Keeps-wrapping _ _ (from_Reads _ (L.list_deployments-reads b.namespace)))
              (λ ds. restore_each-From b.namespace ds))
            (λ _. Keeps-bind _ _ (update_budget-From _) (λ _. Keeps-pure _)))
        (λ _. Keeps-pure _)

  scale_down_each-From : (xs : List IdleWorkload) → Keeps FromHere (scale_down_each O xs)
  unfolding scale_down_each
  scale_down_each-From [] = Keeps-pure _
  scale_down_each-From (x ∷ xs) =
      Keeps-bind _ _ (Keeps-attempt _ (scale_down-From O L ns n d x))
        (λ s. Keeps-bind _ _ (scale_down_each-From xs) (λ names. Keeps-pure _))

  suspend_step-From :
      (phase namespace : String) (exs : List Exclusion)
      → Keeps FromHere (suspend_step O phase namespace exs)
  unfolding suspend_step
  suspend_step-From phase namespace exs =
      Keeps-if (phase == phase_suspended) _ _
        (λ _.
          Keeps-bind _ _ (Keeps-attempt _ (suspend_all-From O L ns n d exs namespace))
            (λ s. Keeps-pure _))
        (λ _. Keeps-pure _)

  module _ (r : Reconciler F) where
    actionable_of-From :
        (b : NamespaceBudget) (detected : Result (List IdleWorkload))
        → Keeps FromHere (actionable_of O b detected)
    unfolding actionable_of
    actionable_of-From b (err e) = Keeps-pure _
    actionable_of-From b (ok ws) =
        Keeps-bind _ _
          (Keeps-From-Holds O ns n _ (λ o. filter_excluded-Holds O L ns n o b.spec.exclusions ws) d)
          (λ a. Keeps-pure _)

    detect_actionable-From :
        (namespace phase : String) (b : NamespaceBudget)
        → Keeps FromHere (detect_actionable O r namespace phase b)
    unfolding detect_actionable detect
    detect_actionable-From namespace phase b =
        Keeps-if (under_pressure phase) _ _
          (λ _. Keeps-bind _ _ (Keeps-of_result _) (λ window.
            Keeps-bind _ _
              (Keeps-attempt _
                (from_Reads _ (detect_idle-Reads O L r.prometheus_client namespace _ window)))
              (λ detected. actionable_of-From b detected)))
          (λ _. Keeps-pure _)

    enforce-From :
        (namespace previous_phase phase : String) (percent : ℤ) (b : NamespaceBudget)
        → Keeps FromHere (enforce O r namespace previous_phase phase percent b)
    unfolding enforce
    enforce-From namespace previous_phase phase percent b =
        Keeps-bind _ _ (detect_actionable-From namespace phase b) (λ (b1, actionable).
          Keeps-bind _ _
            (Keeps-From-Holds O ns n _ (λ o. update_status-Holds O L ns n o b1 phase percent) d)
            (λ b2.
              Keeps-bind _ _
                (scale_down_each-From (if under_pressure phase then actionable else []))
                (λ scaled.
                  Keeps-bind _ _ (suspend_step-From phase namespace b2.spec.exclusions) (λ s.
                    Keeps-From-Holds O ns n _ (λ o. notify_step-Holds O L ns n o r _ _ _ _ _) d))))

    account_and_enforce-From :
        (namespace previous_phase : String) (cpu mem : List (Sample F)) (b : NamespaceBudget)
        → Keeps FromHere (account_and_enforce O r namespace previous_phase cpu mem b)
    unfolding account_and_enforce
    account_and_enforce-From namespace previous_phase cpu mem b =
        Keeps-bind _ _ (from_Reads _ L.clock-reads)
          (λ now. Keeps-bind _ _ (enforce-From namespace previous_phase _ _ _) (λ u. Keeps-pure _))

    with_memory-From :
        (namespace previous_phase : String) (cpu : List (Sample F)) (b : NamespaceBudget)
        (mem : Result (List (Sample F)))
        → Keeps FromHere (with_memory O r namespace previous_phase cpu b mem)
    unfolding with_memory
    with_memory-From namespace previous_phase cpu b (err e) = Keeps-pure _
    with_memory-From namespace previous_phase cpu b (ok mem) =
        account_and_enforce-From namespace previous_phase cpu mem b

    query_instant-From :
        (query : String) → Keeps FromHere (query_instant O r.prometheus_client query)
    query_instant-From query = from_Reads _ (query_instant-Reads O L r.prometheus_client query)

    with_cpu-From :
        (namespace previous_phase : String) (b : NamespaceBudget) (cpu : Result (List (Sample F)))
        → Keeps FromHere (with_cpu O r namespace previous_phase b cpu)
    unfolding with_cpu
    with_cpu-From namespace previous_phase b (err e) = Keeps-pure _
    with_cpu-From namespace previous_phase b (ok cpu) =
        Keeps-bind _ _ (Keeps-attempt _ (query_instant-From _))
          (λ mem. with_memory-From namespace previous_phase cpu b mem)

    dispatch-From :
        (namespace : String) (b : NamespaceBudget) → Keeps FromHere (dispatch O r namespace b)
    unfolding dispatch register_finalizer measure
    dispatch-From namespace b =
        Keeps-if (not (is_zero b.deletion_timestamp)) _ _ (λ _. handle_deletion-From b)
          (λ _.
            Keeps-if (not (O.contains_finalizer b namespace_budget_finalizer)) _ _
              (λ _. Keeps-bind _ _ (update_budget-From _) (λ u. Keeps-pure _))
              (λ _.
                Keeps-bind _ _ (Keeps-attempt _ (query_instant-From _))
                  (λ cpu. with_cpu-From namespace b.status.phase b cpu)))

    month_boundary-From :
        (now : Time) (b : NamespaceBudget) → Keeps FromHere (month_boundary O r now b)
    month_boundary-From now b =
        Keeps-From-Holds O ns n _
          (λ o. Keeps-Ensures _ _ (month_boundary-Ensures O L r ns n o now b)) d

    with_fetched-From :
        (namespace : String) (fetched : Result NamespaceBudget)
        → Keeps FromHere (with_fetched O r namespace fetched)
    unfolding with_fetched reconcile_budget
    with_fetched-From namespace (err e) =
        Keeps-if (is_not_found e) _ _ (λ _. Keeps-pure _) (λ _. Keeps-throw _)
    with_fetched-From namespace (ok b) = Keeps-bind _ _ (from_Reads _ L.clock-reads) (λ now.
        Keeps-bind _ _ (month_boundary-From now (init_since O.calendar now b))
          (λ b1. dispatch-From namespace b1))

    -- So does a reconcile.
    pub reconcile-From : (namespace name : String) → Keeps FromHere (reconcile O r namespace name)
    unfolding reconcile
    reconcile-From namespace name =
        Keeps-bind _ _ (Keeps-attempt _ (from_Reads _ (L.get_budget-reads namespace name)))
          (λ fetched. with_fetched-From namespace fetched)

-- A reconcile of any budget, in every phase and whatever calls fail, takes a Deployment of the
-- cluster along the diagram only: it is still there, and became what it is by marking it while it
-- ran, setting it to 0 with its count on record, setting it back to the recorded count, and
-- removing the mark once it has that count, in such an order.
pub reconcile-Steps :
    {F : Float64} (O : Outside F) (L : IsLawful O) (r : Reconciler F) (namespace name : String)
    (ns n : String) (d : Deployment) (w : O.World)
    → deployment_at O w ns n ≡ some d
    → (e : Deployment) × (deployment_at O (reconcile O r namespace name w).1 ns n ≡ some e)
      × Steps d e
reconcile-Steps O L r namespace name ns n d w at =
    (reconcile-From O L ns n d r namespace name).at w (d, at, here)
