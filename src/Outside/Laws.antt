-- ===== src/Outside/Laws.antt =====
-- What the program relies on in the world outside: the documented behaviour of the Kubernetes API
-- for a caller whose reads are up to date and who is the only one to write while it runs. A call
-- that fails may have taken effect, as when the answer is lost.
use mathlib.Core.Path.{subst}
use namespace_cost_governor.Base.{
  inl, inr, sym, ℕ, String, Option, none, some, List, [], ◌∷◌, ◌≡◌, ◌≢◌, ◌⊎◌, ok, err, not_found,
  Error, Exec, All,
}
use namespace_cost_governor.Base.Dict
use namespace_cost_governor.Go.Float.{Float64}
use namespace_cost_governor.Api.{NamespaceBudget, CostReport}
use namespace_cost_governor.Api.Kube.{Deployment, annotation}
use namespace_cost_governor.Outside.{Outside, runs, clock}
use namespace_cost_governor.Outside.Stored.{StoredStatus}

-- Two deployments that no reader of the maps can tell apart: the server keeps an empty map as nil.
pub record Same (a b : Deployment) : Type 0 where
  pub name : a.name ≡ b.name
  pub namespace : a.namespace ≡ b.namespace
  pub labels : (k : String) → Dict.lookup k a.labels ≡ Dict.lookup k b.labels
  pub annotations : (k : String) → annotation k a ≡ annotation k b
  pub replicas : a.replicas ≡ b.replicas

abbrev pub In : {A : Type 0} → A → List A → Type 0
In a [] = ⊥
In a (x ∷ xs) = (a ≡ x) ⊎ In a xs

-- What holds of all elements holds of each.
pub All-In : {A : Type 0} (P : A → Type 0) (a : A) (xs : List A) → In a xs → All P xs → P a
All-In P a [] here all = absurd here
All-In P a (x ∷ xs) (inl same) all = subst P (sym same) all.0
All-In P a (x ∷ xs) (inr later) all = All-In P a xs later all.1

-- No two Deployments of the list share a name.
abbrev pub UniqueNames : List Deployment → Type 0
UniqueNames [] = Unit
UniqueNames (d ∷ ds) = All (λ e. d.name ≢ e.name) ds × UniqueNames ds

module _ {F : Float64} (O : Outside F) where
  abbrev pub deployment_at : O.World → String → String → Option Deployment
  deployment_at w ns n = (O.cluster w).deployments ns n

  -- `m` leaves every object of the cluster as it is.
  abbrev pub Reads : {A : Type 0} → Exec O.World A → Type 0
  Reads m = (w : O.World) → O.cluster (m w).1 ≡ O.cluster w

  pub record IsLawful : Type 0 where
    pub stored_key :
        (w : O.World) (ns n : String) (d : Deployment)
        → deployment_at w ns n ≡ some d
        → (d.namespace ≡ ns) × (d.name ≡ n)
    pub clock-reads : Reads (clock O)
    pub get_deployment-reads : (ns n : String) → Reads (O.get_deployment ns n)
    pub list_deployments-reads : (ns : String) → Reads (O.list_deployments ns)
    pub get_budget-reads : (ns n : String) → Reads (O.get_budget ns n)
    pub get_report-reads : (ns n : String) → Reads (O.get_report ns n)
    pub http_get-reads : (r : String × Dict.Dict String) → Reads (O.http_get r)
    pub http_post-reads : (r : String × String) → Reads (O.http_post r)
    pub get_deployment_lem :
        (w : O.World) (ns n : String) (d : Deployment)
        → (O.get_deployment ns n w).0 ≡ ok d
        → deployment_at w ns n ≡ some d
    pub list_deployments_lem :
        (w : O.World) (ns : String) (ds : List Deployment)
        → (O.list_deployments ns w).0 ≡ ok ds
        → All (λ d. deployment_at w ns d.name ≡ some d) ds
    pub list_deployments-complete :
        (w : O.World) (ns n : String) (ds : List Deployment) (d : Deployment)
        → (O.list_deployments ns w).0 ≡ ok ds
        → deployment_at w ns n ≡ some d
        → In d ds
    pub list_deployments-unique :
        (w : O.World) (ns : String) (ds : List Deployment)
        → (O.list_deployments ns w).0 ≡ ok ds
        → UniqueNames ds
    pub patch_ok :
        (w : O.World) (base modified answer : Deployment)
        → deployment_at w base.namespace base.name ≡ some base
        → (O.patch_deployment base modified w).0 ≡ ok answer
        → (deployment_at (O.patch_deployment base modified w).1 base.namespace base.name
            ≡ some answer)
          × Same answer modified
    pub patch_err :
        (w : O.World) (base modified : Deployment) (e : Error)
        → deployment_at w base.namespace base.name ≡ some base
        → (O.patch_deployment base modified w).0 ≡ err e
        → (deployment_at (O.patch_deployment base modified w).1 base.namespace base.name
            ≡ some base)
          ⊎ ((d : Deployment) × (deployment_at
                  (O.patch_deployment base modified w).1
                  base.namespace
                  base.name
                ≡ some d)
              × Same d modified)
    pub patch_others :
        (w : O.World) (base modified : Deployment) (ns n : String)
        → ((base.namespace ≡ ns) × (base.name ≡ n) → ⊥)
        → deployment_at (O.patch_deployment base modified w).1 ns n ≡ deployment_at w ns n
    pub update_budget-deployments :
        (w : O.World) (b : NamespaceBudget) (ns n : String)
        → deployment_at (O.update_budget b w).1 ns n ≡ deployment_at w ns n
    pub update_budget_status-deployments :
        (w : O.World) (b : NamespaceBudget) (ns n : String)
        → deployment_at (O.update_budget_status b w).1 ns n ≡ deployment_at w ns n
    pub get_budget-key :
        (w : O.World) (ns n : String) (b : NamespaceBudget)
        → (O.get_budget ns n w).0 ≡ ok b
        → (b.namespace ≡ ns) × (b.name ≡ n)
    pub update_budget_status_ok :
        (w : O.World) (b : NamespaceBudget)
        → (O.update_budget_status b w).0 ≡ ok tt
        → (stored : NamespaceBudget) × ((O.cluster (O.update_budget_status b w).1).budgets
              b.namespace b.name
            ≡ some stored)
          × StoredStatus stored.status b.status
    pub create_report-deployments :
        (w : O.World) (r : CostReport) (ns n : String)
        → deployment_at (O.create_report r w).1 ns n ≡ deployment_at w ns n
    pub update_report_status-deployments :
        (w : O.World) (r : CostReport) (ns n : String)
        → deployment_at (O.update_report_status r w).1 ns n ≡ deployment_at w ns n
    pub get_report_lem :
        (w : O.World) (ns n : String) (r : CostReport)
        → (O.get_report ns n w).0 ≡ ok r
        → (O.cluster w).reports ns n ≡ some r
    pub get_report-not_found :
        (w : O.World) (ns n : String)
        → (O.get_report ns n w).0 ≡ err not_found
        → (O.cluster w).reports ns n ≡ none
    pub retry_on_conflict_lem :
        (m : Exec O.World Unit) (w : O.World) → (n : ℕ) × (O.retry_on_conflict m w ≡ runs n m w)
