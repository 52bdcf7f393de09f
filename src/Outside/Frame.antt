-- ===== src/Outside/Frame.antt =====
-- Which actions leave the Deployment of one key as it is.
use mathlib.Core.Path.{subst}
use namespace_cost_governor.Base.{
  ap, ℕ, zero, suc, sym, Result, err, conflict, not_found, failure, wrap, String, Option, ◌≡◌, refl,
  ◌∙◌, ok, Exec,
}
use namespace_cost_governor.Base.Keeps.{Keeps}
use namespace_cost_governor.Go.Float.{Float64}
use namespace_cost_governor.Api.{NamespaceBudget, CostReport}
use namespace_cost_governor.Api.Kube.{Deployment}
use namespace_cost_governor.Outside.{Outside, Cluster, clock, runs}
use namespace_cost_governor.Outside.Laws.{IsLawful, Reads, deployment_at}
use namespace_cost_governor.Outside.Patch.{deployment_at-Reads}

module _ {F : Float64} (O : Outside F) (state : Cluster) where
  -- The cluster is in `state`.
  abbrev pub IsIn : O.World → Type 0
  IsIn w = O.cluster w ≡ state

  module _ (L : IsLawful O) where
    pub clock-IsIn : Keeps IsIn (clock O)
    clock-IsIn = record { at = λ w k. L.clock-reads w ∙ k }

    pub get_deployment-IsIn : (ns n : String) → Keeps IsIn (O.get_deployment ns n)
    get_deployment-IsIn ns n = record { at = λ w k. L.get_deployment-reads ns n w ∙ k }

    pub list_deployments-IsIn : (ns : String) → Keeps IsIn (O.list_deployments ns)
    list_deployments-IsIn ns = record { at = λ w k. L.list_deployments-reads ns w ∙ k }

    pub get_budget-IsIn : (ns n : String) → Keeps IsIn (O.get_budget ns n)
    get_budget-IsIn ns n = record { at = λ w k. L.get_budget-reads ns n w ∙ k }

    pub get_report-IsIn : (ns n : String) → Keeps IsIn (O.get_report ns n)
    get_report-IsIn ns n = record { at = λ w k. L.get_report-reads ns n w ∙ k }

    pub http_get-IsIn : (r : _) → Keeps IsIn (O.http_get r)
    http_get-IsIn r = record { at = λ w k. L.http_get-reads r w ∙ k }

    pub http_post-IsIn : (r : _) → Keeps IsIn (O.http_post r)
    http_post-IsIn r = record { at = λ w k. L.http_post-reads r w ∙ k }

pub ruleset reads_rules = (
  clock-IsIn, get_deployment-IsIn, list_deployments-IsIn, get_budget-IsIn, get_report-IsIn,
  http_get-IsIn, http_post-IsIn,
)

-- A failed run is repeated only after a conflict.
runs-cases :
    {W : Type 0} (Q : Result Unit × W → Type 0) (n : ℕ) (m : Exec W Unit) (w : W) (r : Result Unit)
    → (m w).0 ≡ r
    → Q (m w)
    → Q (runs n m (m w).1)
    → Q (runs (suc n) m w)
unfolding runs
runs-cases Q n m w (ok a) e one more = subst Q (rw (runs, e) (ap (λ x. (x, (m w).1)) (sym e))) one
runs-cases Q n m w (err conflict) e one more = subst Q (rw (runs, e) refl) more
runs-cases Q n m w (err not_found) e one more =
    subst Q (rw (runs, e) (ap (λ x. (x, (m w).1)) (sym e))) one
runs-cases Q n m w (err (failure s)) e one more =
    subst Q (rw (runs, e) (ap (λ x. (x, (m w).1)) (sym e))) one
runs-cases Q n m w (err (wrap s f)) e one more =
    subst Q (rw (runs, e) (ap (λ x. (x, (m w).1)) (sym e))) one

runs-Keeps :
    {W : Type 0} (P : W → Type 0) (n : ℕ) (m : Exec W Unit) → Keeps P m → Keeps P (runs n m)
unfolding runs
runs-Keeps P zero m k = k
runs-Keeps P (suc n) m k = record {
  at = λ w h.
      let one = k.at w h in
      runs-cases (λ out. P out.1) n m w (m w).0 refl one ((runs-Keeps P n m k).at (m w).1 one);
}

-- A retry keeps what each of its runs keeps.
pub retry_on_conflict-Keeps :
    {F : Float64} (O : Outside F) (L : IsLawful O) (P : O.World → Type 0) (m : Exec O.World Unit)
    → Keeps P m
    → Keeps P (O.retry_on_conflict m)
retry_on_conflict-Keeps O L P m k = record {
  at = λ w h.
      let (n, same) = L.retry_on_conflict_lem m w in
      subst (λ x. P x.1) (sym same) ((runs-Keeps P n m k).at w h);
}

runs-OnOk :
    {W : Type 0} (P : W → Type 0) (n : ℕ) (m : Exec W Unit) (w : W)
    → ((v : W) → (m v).0 ≡ ok tt → P (m v).1)
    → (runs n m w).0 ≡ ok tt
    → P (runs n m w).1
unfolding runs
runs-OnOk P zero m w k = k w
runs-OnOk P (suc n) m w k =
    runs-cases (λ out. out.0 ≡ ok tt → P out.1) n m w (m w).0 refl (k w) (runs-OnOk P n m (m w).1 k)

-- After a retry that succeeded holds what holds after each run that succeeds.
pub retry_on_conflict-OnOk :
    {F : Float64} (O : Outside F) (L : IsLawful O) (P : O.World → Type 0) (m : Exec O.World Unit)
    (w : O.World)
    → ((v : O.World) → (m v).0 ≡ ok tt → P (m v).1)
    → (O.retry_on_conflict m w).0 ≡ ok tt
    → P (O.retry_on_conflict m w).1
retry_on_conflict-OnOk O L P m w k =
    let (n, same) = L.retry_on_conflict_lem m w in
    subst (λ out. out.0 ≡ ok tt → P out.1) (sym same) (runs-OnOk P n m w k)

-- An action that keeps every state of the cluster reads only.
pub Reads-of_IsIn :
    {F : Float64} (O : Outside F) {A : Type 0} (m : Exec O.World A)
    → ((state : Cluster) → Keeps (IsIn O state) m)
    → Reads O m
Reads-of_IsIn O m k w = (k (O.cluster w)).at w refl

module _ {F : Float64} (O : Outside F) (ns n : String) (o : Option Deployment) where
  -- The server holds `o` at the key.
  abbrev pub Holds : O.World → Type 0
  Holds w = deployment_at O w ns n ≡ o

  pub Keeps-Reads : {A : Type 0} (m : Exec O.World A) → Reads O m → Keeps Holds m
  Keeps-Reads m h = record { at = λ w k. deployment_at-Reads O m w ns n h ∙ k }

  module _ (L : IsLawful O) where
    pub clock-Holds : Keeps Holds (clock O)
    clock-Holds = Keeps-Reads (clock O) L.clock-reads

    pub get_deployment-Holds : (ns' n' : String) → Keeps Holds (O.get_deployment ns' n')
    get_deployment-Holds ns' n' = Keeps-Reads _ (L.get_deployment-reads ns' n')

    pub list_deployments-Holds : (ns' : String) → Keeps Holds (O.list_deployments ns')
    list_deployments-Holds ns' = Keeps-Reads _ (L.list_deployments-reads ns')

    pub get_budget-Holds : (ns' n' : String) → Keeps Holds (O.get_budget ns' n')
    get_budget-Holds ns' n' = Keeps-Reads _ (L.get_budget-reads ns' n')

    pub get_report-Holds : (ns' n' : String) → Keeps Holds (O.get_report ns' n')
    get_report-Holds ns' n' = Keeps-Reads _ (L.get_report-reads ns' n')

    pub http_get-Holds : (r : _) → Keeps Holds (O.http_get r)
    http_get-Holds r = Keeps-Reads _ (L.http_get-reads r)

    pub http_post-Holds : (r : _) → Keeps Holds (O.http_post r)
    http_post-Holds r = Keeps-Reads _ (L.http_post-reads r)

    pub update_budget-Holds : (b : NamespaceBudget) → Keeps Holds (O.update_budget b)
    update_budget-Holds b = record { at = λ w k. L.update_budget-deployments w b ns n ∙ k }

    pub update_budget_status-Holds : (b : NamespaceBudget) → Keeps Holds (O.update_budget_status b)
    update_budget_status-Holds b = record {
      at = λ w k. L.update_budget_status-deployments w b ns n ∙ k;
    }

    pub create_report-Holds : (r : CostReport) → Keeps Holds (O.create_report r)
    create_report-Holds r = record { at = λ w k. L.create_report-deployments w r ns n ∙ k }

    pub update_report_status-Holds : (r : CostReport) → Keeps Holds (O.update_report_status r)
    update_report_status-Holds r = record {
      at = λ w k. L.update_report_status-deployments w r ns n ∙ k;
    }

pub ruleset holds_rules = (
  clock-Holds, get_deployment-Holds, list_deployments-Holds, get_budget-Holds, get_report-Holds,
  http_get-Holds, http_post-Holds, update_budget-Holds, update_budget_status-Holds,
  create_report-Holds, update_report_status-Holds,
)
