-- ===== src/Controller/Lifecycle/Cleanup.antt =====
-- A cleanup that returns no error leaves no Deployment of the namespace with the operator's mark.
pub mod Finishes
use mathlib.Core.Path.{subst}
use namespace_cost_governor.Base.{
  String, some, true, List, [], ◌∷◌, ◌≡◌, ◌≢◌, sym, refl, ◌∙◌, inl, inr, Result-cases, Result, ok,
  IsErr, ap, world->>-pure, ◌>>=◌, Bool-cases, All, All-map,
}
use namespace_cost_governor.Go.Float.{Float64}
use namespace_cost_governor.Api.{NamespaceBudget}
use namespace_cost_governor.Api.Kube.{Deployment}
use namespace_cost_governor.Outside.{Outside}
use namespace_cost_governor.Outside.Laws.{IsLawful, UniqueNames, In, All-In, deployment_at}
use namespace_cost_governor.Outside.Patch.{deployment_at-Reads}
use namespace_cost_governor.Actions.ScaleDown.{restore, is_scaled_down_by_operator}
use namespace_cost_governor.Actions.ScaleDown.Restored.{
  Unmarked, without, restore-Unmarked, deployment_at-restore_other,
}
use namespace_cost_governor.Controller.Lifecycle.{finished, restore_each, cleanup, handle_deletion}
use namespace_cost_governor.Controller.{ReconcileResult, namespace_budget_finalizer}

module _ {F : Float64} (O : Outside F) (L : IsLawful O) (ns : String) where
  abbrev Stored : O.World → Deployment → Type 0
  Stored w d = deployment_at O w ns d.name ≡ some d

  abbrev Clean : O.World → Deployment → Type 0
  Clean w d = Unmarked (deployment_at O w ns d.name)

  -- The loop changes no Deployment whose name is not in the list.
  restore_each-others :
      (n : String) (ds : List Deployment) (w : O.World)
      → All (λ d. n ≢ d.name) ds
      → deployment_at O (restore_each O ns ds w).1 ns n ≡ deployment_at O w ns n
  unfolding restore_each ◌>>=◌
  restore_each-others n [] w apart = refl
  restore_each-others n (d ∷ ds) w apart = elim (Bool-cases (is_scaled_down_by_operator d)) [
    | inr bare ↦ rw bare (restore_each-others n ds w apart.1)
    | inl mark ↦
        let one =
          deployment_at-restore_other O L {n = d.name} {ns' = ns} {n' = n} (λ h. apart.0 (sym h.1))
            w in
        rw mark (elim (Result-cases (restore O ns d.name w).0) [
          | inr (e, failing) ↦ rw failing one
          | inl (a, fine) ↦ rw fine (restore_each-others n ds _ apart.1 ∙ one)
        ])
  ]

  kept-Stored :
      (d : Deployment) (ds : List Deployment) (w : O.World)
      → All (λ e. d.name ≢ e.name) ds
      → All (Stored w) ds
      → All (Stored (restore O ns d.name w).1) ds
  kept-Stored d [] w apart stored = tt
  kept-Stored d (e ∷ ds) w apart stored = (
    deployment_at-restore_other O L {n = d.name} {ns' = ns} {n' = e.name} (λ h. apart.0 h.1) w
        ∙ stored.0,
    kept-Stored d ds w apart.1 stored.1,
  )

  with_head :
      (d : Deployment) (ds : List Deployment) (w : O.World)
      → All (λ e. d.name ≢ e.name) ds
      → Clean w d
      → All (Clean (restore_each O ns ds w).1) ds
      → All (Clean (restore_each O ns ds w).1) (d ∷ ds)
  with_head d ds w apart clean rest =
      (subst Unmarked (sym (restore_each-others d.name ds w apart)) clean, rest)

  abbrev CleanAfter : List Deployment → Result (Unit {0}) × O.World → Type 0
  CleanAfter ds out = out.0 ≡ ok tt → All (Clean out.1) ds

  restore_each-Clean :
      (ds : List Deployment) (w : O.World)
      → UniqueNames ds
      → All (Stored w) ds
      → CleanAfter ds (restore_each O ns ds w)
  unfolding restore_each ◌>>=◌
  restore_each-Clean [] w unique stored = λ fine. tt
  restore_each-Clean (d ∷ ds) w unique stored = elim (Bool-cases (is_scaled_down_by_operator d)) [
    | inr bare ↦ subst (CleanAfter (d ∷ ds)) {x = restore_each O ns ds w} (rw bare refl) (λ fine.
        with_head d ds w unique.0 (without d stored.0 bare)
          (restore_each-Clean ds w unique.1 stored.1 fine))
    | inl mark ↦ elim (Result-cases (restore O ns d.name w).0) [
      | inr (e, failing) ↦ λ fine. absurd (subst IsErr fine (rw (mark, failing) tt))
      | inl (a, fine1) ↦
          let w1 = (restore O ns d.name w).1 in
          subst (CleanAfter (d ∷ ds)) {x = restore_each O ns ds w1} (rw (mark, fine1) refl) (λ fine.
            with_head d ds w1 unique.0 (restore-Unmarked O L ns d.name w d stored.0 fine1)
              (restore_each-Clean ds w1 unique.1 (kept-Stored d ds w unique.0 stored.1) fine))
    ]
  ]

module _ {F : Float64} (O : Outside F) (L : IsLawful O) (b : NamespaceBudget) where
  pub cleanup-Unmarked :
      (w : O.World) (n : String) (d : Deployment)
      → deployment_at O w b.namespace n ≡ some d
      → (cleanup O b w).0 ≡ ok tt
      → Unmarked (deployment_at O (cleanup O b w).1 b.namespace n)
  unfolding cleanup ◌>>=◌
  cleanup-Unmarked w n d here fine =
      let listing = O.list_deployments b.namespace in
      let key = L.stored_key w b.namespace n d here in
      elim (Result-cases (listing w).0) [
        | inr (e, failing) ↦ absurd (subst IsErr fine (rw failing tt))
        | inl (ds, got) ↦
            let stored =
              All-map ds
                (λ e s.
                  deployment_at-Reads O listing w b.namespace e.name
                    (L.list_deployments-reads b.namespace)
                  ∙ s)
                (L.list_deployments_lem w b.namespace ds got) in
            let after =
              restore_each-Clean O L b.namespace ds (listing w).1
                (L.list_deployments-unique w b.namespace ds got) stored in
            subst (λ out. out.0 ≡ ok tt → Unmarked (deployment_at O out.1 b.namespace n))
              {x = restore_each O b.namespace ds (listing w).1} (rw got refl)
              (λ done.
                subst
                  (λ m.
                    Unmarked (
                      deployment_at O (restore_each O b.namespace ds (listing w).1).1 b.namespace
                        m))
                  key.1
                  (All-In _ d ds (L.list_deployments-complete w b.namespace n ds d got here)
                    (after done)))
              fine
      ]

  -- After the cleanup only the finalizer is removed.
  pub deployment_at-handle_deletion :
      (w : O.World) (n : String)
      → O.contains_finalizer b namespace_budget_finalizer ≡ true
      → (cleanup O b w).0 ≡ ok tt
      → deployment_at O (handle_deletion O b w).1 b.namespace n
        ≡ deployment_at O (cleanup O b w).1 b.namespace n
  unfolding handle_deletion ◌>>=◌
  deployment_at-handle_deletion w n registered cleaned =
      let update = O.update_budget (O.remove_finalizer b namespace_budget_finalizer) in
      rw (registered, cleaned)
        (ap (λ v. deployment_at O v b.namespace n) (world->>-pure update finished (cleanup O b w).1)
          ∙ L.update_budget-deployments (cleanup O b w).1 _ b.namespace n)

  -- When the deletion of a budget with the finalizer ends without an error, every Deployment that
  -- stood in its namespace still stands there, and none carries the operator's mark any more.
  pub handle_deletion-Unmarked :
      (w : O.World) (n : String) (d : Deployment) (answer : ReconcileResult)
      → O.contains_finalizer b namespace_budget_finalizer ≡ true
      → deployment_at O w b.namespace n ≡ some d
      → (handle_deletion O b w).0 ≡ ok answer
      → Unmarked (deployment_at O (handle_deletion O b w).1 b.namespace n)
  unfolding handle_deletion ◌>>=◌
  handle_deletion-Unmarked w n d answer registered here fine =
      elim (Result-cases (cleanup O b w).0) [
        | inr (e, failing) ↦ absurd (subst IsErr fine (rw (registered, failing) tt))
        | inl (a, cleaned) ↦
            subst Unmarked (sym (deployment_at-handle_deletion w n registered cleaned))
              (cleanup-Unmarked w n d here cleaned)
      ]
