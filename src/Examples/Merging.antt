-- ===== src/Examples/Merging.antt =====
-- The world in memory with merge patches, and a restore between the two patches of a scale-down.
use native.Mathlib.Decide.{ℕ_discrete}
use mathlib.Core.Path.{subst₂}
use namespace_cost_governor.Base.{
  Bool, Result, [], String, Option, none, some, true, false, ◌==◌, ◌≡◌, refl, sym, ap, ◌∙◌, ok, err,
  ◌⊎◌, inl, inr, eq_iff, Option-cases, Exec, Error, arith,
}
use namespace_cost_governor.Base.Int.{ℤ, pos}
use namespace_cost_governor.Api.Kube.{Deployment, annotation, annotate, unannotate}
use namespace_cost_governor.Go.Strconv.{format_int, parse_int32}
use namespace_cost_governor.Examples.Scaling.{api, api_workload, start}
use namespace_cost_governor.Outside.{Outside}
use namespace_cost_governor.Outside.Laws.{IsLawful, Same, deployment_at}
use namespace_cost_governor.Outside.Stale.{MergesCount, with_count}
use namespace_cost_governor.Actions.ScaleDown.{
  marked, unmarked, mark, with_replicas, scale_to_zero, is_scaled_down_by_operator, at_zero,
  original_replicas,
}
use namespace_cost_governor.Actions.Life.Race.{Forgotten}
use namespace_cost_governor.Cli.Console.Apart.{IsApart}
use namespace_cost_governor.Cli.Validation.{validate_namespace, trim_space}
use namespace_cost_governor.Cli.Console.{build_client}
use namespace_cost_governor.Cli.Restore.{restore_cmd}
use namespace_cost_governor.Cli.Restore.Race.{restore_cmd-between-Forgotten}
use namespace_cost_governor.Examples.Memory.Terminal.{terminal, terminal-IsApart}
use namespace_cost_governor.Examples.Memory.{World, memory, patch, deployment_of, whole_numbers}
use namespace_cost_governor.Examples.Memory.Lawful.{memory-IsLawful, ok_of, err_of, others_of}

decided : (a b : String) (test : Bool) → (a == b) ≡ test → Dec (a ≡ b)
decided a b true e = yes ((eq_iff a b).0 e)
decided a b false e = no (λ same. ground (arith, eq_iff a b, e, same))

string_discrete : Discrete String
unfolding decided
string_discrete a b = decided a b (a == b) refl

Deployment-discrete : Discrete Deployment
Deployment-discrete = hlevel (string_discrete, ℕ_discrete)

abbrev counted : Option ℤ → Deployment → Deployment
counted replicas d = record d { replicas = replicas }

-- What a patch from `base` to `modified` makes of `stored`.
merged : Deployment → Deployment → Deployment → Deployment
merged base modified stored = elim (Deployment-discrete modified (counted modified.replicas base)) [
  | yes same ↦ counted modified.replicas stored
  | no other ↦ modified
]

merge : Deployment → Deployment → Exec World Deployment
merge base modified w = elim (deployment_of w.deployment base.namespace base.name) [
  | none ↦ patch base modified w
  | some stored ↦ patch base (merged base modified stored) w
]

abbrev merging : Outside whole_numbers
merging = record memory { patch_deployment = merge }

merged_self : (base modified : Deployment) → merged base modified base ≡ modified
unfolding merged
merged_self base modified =
    elim (Deployment-discrete modified (counted modified.replicas base))
      as (λ c.
        elim c [ yes same ↦ counted modified.replicas base | no other ↦ modified ] ≡ modified) [
          | yes same ↦ sym same
          | no other ↦ refl
        ]

merged_count :
    (base stored : Deployment) (count : ℤ)
    → merged base (with_count count base) stored ≡ with_count count stored
unfolding merged
merged_count base stored count =
    elim (Deployment-discrete (with_count count base) (with_count count base))
      as (λ c.
        elim c [ yes same ↦ with_count count stored | no other ↦ with_count count base ]
        ≡ with_count count stored) [ yes same ↦ refl | no other ↦ absurd (other refl) ]

-- A patch of what is stored is one without merging.
merge-patch :
    (w : World) (base modified stored : Deployment)
    → deployment_of w.deployment base.namespace base.name ≡ some stored
    → merge base modified w ≡ patch base (merged base modified stored) w
unfolding merge
merge-patch w base modified stored here =
    ap
      (λ (o : Option Deployment). elim o as (λ x. Result Deployment × World) [
        | none ↦ patch base modified w
        | some s ↦ patch base (merged base modified s) w
      ])
      here

merge-patch_self :
    (w : World) (base modified : Deployment)
    → deployment_of w.deployment base.namespace base.name ≡ some base
    → merge base modified w ≡ patch base modified w
merge-patch_self w base modified here =
    merge-patch w base modified base here
    ∙ ap (λ (m : Deployment). patch base m w) (merged_self base modified)

merge-others :
    (w : World) (base modified : Deployment) (ns n : String)
    → ((base.namespace ≡ ns) × (base.name ≡ n) → ⊥)
    → deployment_of (merge base modified w).1.deployment ns n ≡ deployment_of w.deployment ns n
unfolding merge
merge-others w base modified ns n other =
    elim (Option-cases (deployment_of w.deployment base.namespace base.name)) [
      | inl absent ↦ rw (absent, merge) (others_of w base modified ns n other)
      | inr (stored, here) ↦
          rw (merge-patch w base modified stored here)
            (others_of w base (merged base modified stored) ns n other)
    ]

merge-ok :
    (w : World) (base modified answer : Deployment)
    → deployment_of w.deployment base.namespace base.name ≡ some base
    → (merge base modified w).0 ≡ ok answer
    → (deployment_of (merge base modified w).1.deployment base.namespace base.name ≡ some answer)
      × Same answer modified
merge-ok w base modified answer here e =
    let same = merge-patch_self w base modified here in
    rw same (ok_of w base modified answer (rw same at e))

merge-err :
    (w : World) (base modified : Deployment) (e : Error)
    → deployment_of w.deployment base.namespace base.name ≡ some base
    → (merge base modified w).0 ≡ err e
    → (deployment_of (merge base modified w).1.deployment base.namespace base.name ≡ some base)
      ⊎ ((d : Deployment) × (deployment_of
              (merge base modified w).1.deployment
              base.namespace
              base.name
            ≡ some d)
          × Same d modified)
merge-err w base modified e here f =
    let same = merge-patch_self w base modified here in
    rw same (err_of w base modified e here (rw same at f))

merging-IsLawful : IsLawful merging
merging-IsLawful = record {
  stored_key = memory-IsLawful.stored_key;
  clock-reads = memory-IsLawful.clock-reads;
  get_deployment-reads = memory-IsLawful.get_deployment-reads;
  list_deployments-reads = memory-IsLawful.list_deployments-reads;
  get_budget-reads = memory-IsLawful.get_budget-reads;
  get_report-reads = memory-IsLawful.get_report-reads;
  http_get-reads = memory-IsLawful.http_get-reads;
  http_post-reads = memory-IsLawful.http_post-reads;
  get_deployment_lem = memory-IsLawful.get_deployment_lem;
  list_deployments_lem = memory-IsLawful.list_deployments_lem;
  list_deployments-complete = memory-IsLawful.list_deployments-complete;
  list_deployments-unique = memory-IsLawful.list_deployments-unique;
  patch_ok = merge-ok;
  patch_err = merge-err;
  patch_others = merge-others;
  update_budget-deployments = memory-IsLawful.update_budget-deployments;
  update_budget_status-deployments = memory-IsLawful.update_budget_status-deployments;
  get_budget-key = memory-IsLawful.get_budget-key;
  update_budget_status_ok = memory-IsLawful.update_budget_status_ok;
  create_report-deployments = memory-IsLawful.create_report-deployments;
  update_report_status-deployments = memory-IsLawful.update_report_status-deployments;
  get_report_lem = memory-IsLawful.get_report_lem;
  get_report-not_found = memory-IsLawful.get_report-not_found;
  retry_on_conflict_lem = memory-IsLawful.retry_on_conflict_lem;
}

merging-IsApart : IsApart merging terminal
merging-IsApart = record {
  say-reads = terminal-IsApart.say-reads;
  in_cluster_config-reads = terminal-IsApart.in_cluster_config-reads;
  kubeconfig-reads = terminal-IsApart.kubeconfig-reads;
}

count_of :
    (w : World) (ns n : String) (base stored answer : Deployment) (count : ℤ)
    → base.namespace ≡ ns
    → base.name ≡ n
    → deployment_of w.deployment ns n ≡ some stored
    → (merge base (with_count count base) w).0 ≡ ok answer
    → (deployment_of (merge base (with_count count base) w).1.deployment ns n ≡ some answer)
      × Same answer (with_count count stored)
count_of w ns n base stored answer count in_ns named here e =
    let own =
      subst₂ (λ a b. deployment_of w.deployment a b ≡ some stored) (sym in_ns) (sym named) here in
    let same =
      merge-patch w base (with_count count base) stored own
      ∙ ap (λ (m : Deployment). patch base m w) (merged_count base stored count) in
    let law = ok_of w base (with_count count stored) answer (rw same at e) in
    subst₂
      (λ a b.
        (deployment_of (merge base (with_count count base) w).1.deployment a b ≡ some answer)
        × Same answer (with_count count stored))
      in_ns named (rw same law)

merging-MergesCount : MergesCount merging
merging-MergesCount = record {
  patch_count = λ w ns n base stored answer count in_ns named here differs e.
      count_of w ns n base stored answer count in_ns named here e;
}

abbrev marked_api : Deployment
marked_api = marked "0" api

abbrev marked_world : World
marked_world = (mark merging "payments-api" api (start [])).1

abbrev restored_api : Deployment
restored_api = unmarked (with_replicas (pos 3) marked_api)

abbrev restored_world : World
restored_world = (restore_cmd merging terminal "payments" marked_world).1

abbrev end_world : World
end_world = (scale_to_zero merging "payments-api" marked_api restored_world).1

restore_cmd-between-Forgotten_example :
    Forgotten (deployment_at merging end_world "payments" "payments-api")
    × Forgotten (
        deployment_at merging
          (restore_cmd merging terminal "payments" end_world).1
          "payments"
          "payments-api")
unfolding is_scaled_down_by_operator at_zero annotation format_int marked annotate mark restore_cmd
    parse_int32 unmarked unannotate original_replicas scale_to_zero merge merged Deployment-discrete
    string_discrete ℕ_discrete validate_namespace trim_space build_client
restore_cmd-between-Forgotten_example =
    restore_cmd-between-Forgotten merging merging-IsLawful merging-MergesCount terminal
      merging-IsApart (start []) api_workload api marked_api restored_api "payments" "payments" refl
      refl refl refl refl refl
