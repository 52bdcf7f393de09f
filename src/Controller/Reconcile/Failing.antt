-- ===== src/Controller/Reconcile/Failing.antt =====
-- A reconcile without metrics.
use namespace_cost_governor.Base.{
  String, true, false, ap, ok, err, Error, ◌≡◌, refl, ◌∙◌, inl, inr, ◌⊎◌, ◌>>=◌, Result-cases,
}
use namespace_cost_governor.Base.Int.{pos}
use namespace_cost_governor.Go.Float.{Float64}
use namespace_cost_governor.Go.Time.{is_zero}
use namespace_cost_governor.Api.{NamespaceBudget, NamespaceBudgetStatus}
use namespace_cost_governor.Metrics.Prometheus.{query_instant}
use namespace_cost_governor.Metrics.Prometheus.Frame.{query_instant-Reads}
use namespace_cost_governor.Outside.{Outside}
use namespace_cost_governor.Outside.Laws.{IsLawful, deployment_at}
use namespace_cost_governor.Controller.{Reconciler, namespace_budget_finalizer}
use namespace_cost_governor.Controller.Month.{init_since, month_boundary}
use namespace_cost_governor.Controller.Month.Frame.{
  SameButStatus, init_since-SameButStatus, month_boundary-Ensures,
}
use namespace_cost_governor.Controller.Month.Reset.{month_boundary-returns}
use namespace_cost_governor.Controller.Reconcile.{
  in_a_minute, cpu_query, mem_query, with_memory, with_cpu, measure, dispatch, reconcile_budget,
  with_fetched, reconcile,
}

module _ {F : Float64} (O : Outside F) (L : IsLawful O) (r : Reconciler F) where
  -- One of the two queries of step 4 fails: the first, or the second after the first.
  abbrev pub QueryFails : String → O.World → Type 0
  QueryFails namespace w =
      ((e : Error) × ((query_instant O r.prometheus_client (cpu_query O r namespace) w).0 ≡ err e))
      ⊎ ((e : Error) × ((query_instant O r.prometheus_client (mem_query O r namespace)
              (query_instant O r.prometheus_client (cpu_query O r namespace) w).1).0
            ≡ err e))

  -- When a query of step 4 fails, the steps from there on change nothing in the cluster, return no
  -- error, and ask to be run again in a minute.
  pub measure-QueryFails :
      (namespace previous_phase : String) (b : NamespaceBudget) (w : O.World)
      → QueryFails namespace w
      → ((measure O r namespace previous_phase b w).0 ≡ ok in_a_minute)
        × (O.cluster (measure O r namespace previous_phase b w).1 ≡ O.cluster w)
  unfolding measure ◌>>=◌ with_memory with_cpu
  measure-QueryFails namespace previous_phase b w fails = elim fails [
    | inl (e, failing) ↦
        (rw failing refl, rw failing (query_instant-Reads O L r.prometheus_client _ w))
    | inr (e, failing) ↦
        elim (Result-cases (query_instant O r.prometheus_client (cpu_query O r namespace) w).0) [
          | inr (e', sooner) ↦
              (rw sooner refl, rw sooner (query_instant-Reads O L r.prometheus_client _ w))
          | inl (cpu, got) ↦ (
            rw (got, failing) refl,
            rw (got, failing)
                (query_instant-Reads O L r.prometheus_client _ _
                  ∙ query_instant-Reads O L r.prometheus_client _ w),
          )
        ]
  ]

  -- The world after the month boundary, as a reconcile of a fetched budget reaches it.
  abbrev pub after_boundary : NamespaceBudget → O.World → O.World
  after_boundary b w =
      (month_boundary O r (O.now w).0 (init_since O.calendar (O.now w).0 b) (O.now w).1).1

  -- When a query fails in the reconcile of a budget that was fetched, that is not being deleted and
  -- that has the finalizer whatever its status is, the reconcile returns no error, asks to be run
  -- again in 60 seconds, and leaves every Deployment as it was.
  pub reconcile-QueryFails :
      (namespace name : String) (b : NamespaceBudget) (w : O.World)
      → (O.get_budget namespace name w).0 ≡ ok b
      → is_zero b.deletion_timestamp ≡ true
      → ((s : NamespaceBudgetStatus)
          → O.contains_finalizer (record b { status = s }) namespace_budget_finalizer ≡ true)
      → QueryFails namespace (after_boundary b (O.get_budget namespace name w).1)
      → ((reconcile O r namespace name w).0
          ≡ ok (record { requeue = false; requeue_after = pos 60000000000 }))
        × ((ns n : String)
            → deployment_at O (reconcile O r namespace name w).1 ns n ≡ deployment_at O w ns n)
  unfolding reconcile with_fetched reconcile_budget dispatch ◌>>=◌
  reconcile-QueryFails namespace name b w got live registered fails =
      let w1 = (O.get_budget namespace name w).1 in
      let now = (O.now w1).0 in
      let w2 = (O.now w1).1 in
      let started = init_since O.calendar now b in
      let boundary = month_boundary O r now started in
      let (b1, returned) = month_boundary-returns O r now started w2 in
      let known =
        (month_boundary-Ensures O L r "" "" (deployment_at O w2 "" "") now started).at w2 refl in
      let after : SameButStatus started b1 = rw returned at known.1 in
      let same : b1 ≡ record b { status = b1.status } =
        after
        ∙ ap {A = NamespaceBudget} {B = NamespaceBudget} (λ x. record x { status = b1.status })
            (init_since-SameButStatus O.calendar now b) in
      let alive : is_zero b1.deletion_timestamp ≡ true =
        ap (λ x. is_zero x.deletion_timestamp) same ∙ live in
      let has : O.contains_finalizer b1 namespace_budget_finalizer ≡ true =
        ap (λ x. O.contains_finalizer x namespace_budget_finalizer) same ∙ registered b1.status in
      let (again, kept) = measure-QueryFails namespace b1.status.phase b1 (boundary w2).1 fails in
      (
        rw (got, returned, alive, has) again,
        λ ns n.
            rw (got, returned, alive, has)
              (ap (λ c. c.deployments ns n) kept
                ∙ ((month_boundary-Ensures O L r ns n (deployment_at O w2 ns n) now started).at w2
                    refl).0
                ∙ ap (λ c. c.deployments ns n) (L.clock-reads w1)
                ∙ ap (λ c. c.deployments ns n) (L.get_budget-reads namespace name w)),
      )
