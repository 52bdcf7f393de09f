-- ===== src/Examples/Memory/Lawful.antt =====
-- The world in memory obeys the laws.
use mathlib.Core.Path.{subst}
use namespace_cost_governor.Base.{
  IsErr, Error, ◌⊎◌, sym, ap, All, Bool-cases, Option-cases, String, Option, none, some, List, ◌≡◌,
  refl, ◌∙◌, ok, err, arith, eq_iff, ◌==◌, ◌&&◌, inl, inr,
}
use namespace_cost_governor.Api.{NamespaceBudget}
use namespace_cost_governor.Api.Kube.{Deployment}
use namespace_cost_governor.Outside.Stored.{StoredStatus-refl}
use namespace_cost_governor.Outside.Laws.{IsLawful, UniqueNames, Same, In}
use namespace_cost_governor.Outside.Patch.{Same-refl}
use namespace_cost_governor.Examples.Memory.{
  World, memory, budget_of, deployment_of, patch, fails, in_namespace,
}

deployment_of-key :
    (o : Option Deployment) (ns n : String) (d : Deployment)
    → deployment_of o ns n ≡ some d
    → (d.namespace ≡ ns) × (d.name ≡ n)
deployment_of-key none ns n d h = cc
deployment_of-key (some e) ns n d h = ground (arith, eq_iff e.namespace ns, eq_iff e.name n)

-- A patch stores the modified object under its own key, or changes nothing and fails.
patch-cases :
    (w : World) (base modified : Deployment)
    → (((patch base modified w).0 ≡ ok modified)
        × ((patch base modified w).1.deployment ≡ some modified)
        × (modified.namespace ≡ base.namespace)
        × (modified.name ≡ base.name)
        × (d : Deployment) × (deployment_of w.deployment base.namespace base.name ≡ some d))
      ⊎ (IsErr (patch base modified w).0 × ((patch base modified w).1.deployment ≡ w.deployment))
patch-cases w base modified =
    elim (Bool-cases (modified.namespace == base.namespace && modified.name == base.name)) [
      | inr other ↦ rw other (inr (tt, refl))
      | inl same ↦ elim (Option-cases (deployment_of w.deployment base.namespace base.name)) [
        | inl absent ↦ rw (same, absent) (inr (tt, refl))
        | inr (d, there) ↦ elim (Bool-cases (fails w.faults)) [
          | inl fault ↦ rw (same, there, fault) (inr (tt, refl))
          | inr fine ↦
              rw (same, there, fine)
                (inl (
                  refl,
                  refl,
                  ground (arith, eq_iff modified.namespace base.namespace),
                  ground (
                    arith,
                    eq_iff modified.namespace base.namespace,
                    eq_iff modified.name base.name,
                  ),
                  d,
                  refl,
                ))
        ]
      ]
    ]

deployment_of_self :
    (d : Deployment) (ns n : String)
    → d.namespace ≡ ns
    → d.name ≡ n
    → deployment_of (some d) ns n ≡ some d
deployment_of_self d ns n e f = ground (arith, eq_iff d.namespace ns, eq_iff d.name n)

deployment_of_other :
    (d : Deployment) (ns n : String)
    → ((d.namespace ≡ ns) × (d.name ≡ n) → ⊥)
    → deployment_of (some d) ns n ≡ none
deployment_of_other d ns n h = ground (arith, eq_iff d.namespace ns, eq_iff d.name n)

vacant_other :
    (o : Option Deployment) (ns n ns' n' : String) (d : Deployment)
    → deployment_of o ns n ≡ some d
    → ((ns ≡ ns') × (n ≡ n') → ⊥)
    → deployment_of o ns' n' ≡ none
vacant_other none ns n ns' n' d h other = refl
vacant_other (some e) ns n ns' n' d h other =
    let key = deployment_of-key (some e) ns n d h in
    let same : e ≡ d = ground arith in
    deployment_of_other e ns' n' (λ k. other (
      subst (λ x. x ≡ ns') key.0 (subst (λ x. x.namespace ≡ ns') same k.0),
      subst (λ x. x ≡ n') key.1 (subst (λ x. x.name ≡ n') same k.1),
    ))

list-cases :
    (w : World) (ns : String) (ds : List Deployment)
    → (memory.list_deployments ns w).0 ≡ ok ds
    → ds ≡ in_namespace w.deployment ns
list-cases w ns ds h = ground arith

listed :
    (o : Option Deployment) (ns : String)
    → All (λ d. deployment_of o ns d.name ≡ some d) (in_namespace o ns)
listed none ns = tt
listed (some d) ns = ground (arith, eq_iff d.namespace ns, eq_iff d.name d.name)

complete :
    (o : Option Deployment) (ns n : String) (d : Deployment)
    → deployment_of o ns n ≡ some d
    → In d (in_namespace o ns)
complete none ns n d h = cc
complete (some e) ns n d h = elim (Bool-cases (e.namespace == ns)) [
  | inl same ↦ rw same (inl (ground arith))
  | inr other ↦ absurd (ground arith)
]

unique : (o : Option Deployment) (ns : String) → UniqueNames (in_namespace o ns)
unique none ns = tt
unique (some d) ns = ground arith

pub ok_of :
    (w : World) (base modified answer : Deployment)
    → (patch base modified w).0 ≡ ok answer
    → (deployment_of (patch base modified w).1.deployment base.namespace base.name ≡ some answer)
      × Same answer modified
ok_of w base modified answer k = elim (patch-cases w base modified) [
  | inl (r, stored, e, f, d, there) ↦
      let same : modified ≡ answer = ground arith in
      (
        rw stored (deployment_of_self modified base.namespace base.name e f ∙ ap some same),
        subst (λ a. Same a modified) same (Same-refl modified),
      )
  | inr (failing, _) ↦ absurd (subst IsErr k failing)
]

pub err_of :
    (w : World) (base modified : Deployment) (e : Error)
    → deployment_of w.deployment base.namespace base.name ≡ some base
    → (patch base modified w).0 ≡ err e
    → (deployment_of (patch base modified w).1.deployment base.namespace base.name ≡ some base)
      ⊎ ((d : Deployment) × (deployment_of
              (patch base modified w).1.deployment
              base.namespace
              base.name
            ≡ some d)
          × Same d modified)
err_of w base modified e h k = elim (patch-cases w base modified) [
  | inl (r, stored, e', f, d, there) ↦ cc
  | inr (failing, left) ↦ inl (rw left h)
]

pub others_of :
    (w : World) (base modified : Deployment) (ns n : String)
    → ((base.namespace ≡ ns) × (base.name ≡ n) → ⊥)
    → deployment_of (patch base modified w).1.deployment ns n ≡ deployment_of w.deployment ns n
others_of w base modified ns n h = elim (patch-cases w base modified) [
  | inr (failing, left) ↦ rw left
  | inl (r, stored, e, f, d, there) ↦
      let apart : (modified.namespace ≡ ns) × (modified.name ≡ n) → ⊥ =
        λ k. h (sym e ∙ k.0, sym f ∙ k.1) in
      rw stored (
        deployment_of_other modified ns n apart
        ∙ sym (vacant_other w.deployment base.namespace base.name ns n d there h))
]

budget_of-key :
    (o : Option NamespaceBudget) (ns n : String) (b : NamespaceBudget)
    → budget_of o ns n ≡ some b
    → (b.namespace ≡ ns) × (b.name ≡ n)
budget_of-key none ns n b h = cc
budget_of-key (some e) ns n b h = ground (arith, eq_iff e.namespace ns, eq_iff e.name n)

fetched_budget :
    (w : World) (ns n : String) (b : NamespaceBudget)
    → (memory.get_budget ns n w).0 ≡ ok b
    → budget_of w.budget ns n ≡ some b
fetched_budget w ns n b h = ground arith

stored_budget :
    (w : World) (b : NamespaceBudget)
    → (memory.update_budget_status b w).0 ≡ ok tt
    → budget_of (memory.update_budget_status b w).1.budget b.namespace b.name ≡ some b
stored_budget w b h = ground (arith, eq_iff b.namespace b.namespace, eq_iff b.name b.name)

pub memory-IsLawful : IsLawful memory
memory-IsLawful = record {
  stored_key = λ w ns n d h. deployment_of-key w.deployment ns n d h;
  clock-reads = λ w. refl;
  get_deployment-reads = λ ns n w. ground arith;
  list_deployments-reads = λ ns w. ground arith;
  get_budget-reads = λ ns n w. ground arith;
  get_report-reads = λ ns n w. ground arith;
  http_get-reads = λ r w. ground arith;
  http_post-reads = λ r w. ground arith;
  get_deployment_lem = λ w ns n d h. ground arith;
  list_deployments_lem =
      λ w ns ds h. subst (All _) (sym (list-cases w ns ds h)) (listed w.deployment ns);
  list_deployments-complete =
      λ w ns n ds d h k. subst (In d) (sym (list-cases w ns ds h)) (complete w.deployment ns n d k);
  list_deployments-unique =
      λ w ns ds h. subst UniqueNames (sym (list-cases w ns ds h)) (unique w.deployment ns);
  patch_ok = λ w base modified answer h k. ok_of w base modified answer k;
  patch_err = λ w base modified e h k. err_of w base modified e h k;
  patch_others = λ w base modified ns n h. others_of w base modified ns n h;
  update_budget-deployments = λ w b ns n. ground arith;
  update_budget_status-deployments = λ w b ns n. ground arith;
  get_budget-key = λ w ns n b h. budget_of-key w.budget ns n b (fetched_budget w ns n b h);
  update_budget_status_ok = λ w b h. (b, stored_budget w b h, StoredStatus-refl b.status);
  create_report-deployments = λ w r ns n. ground arith;
  update_report_status-deployments = λ w r ns n. ground arith;
  get_report_lem = λ w ns n r h. ground arith;
  get_report-not_found = λ w ns n h. ground arith;
  retry_on_conflict_lem = λ m w. (4, refl);
}
