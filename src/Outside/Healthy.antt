-- ===== src/Outside/Healthy.antt =====
-- An API server that answers: while it is up, every read of Deployments succeeds, and so does
-- every patch of one that it holds which renames nothing and sets no negative count; and it stays
-- up. Such a patch carries no resource version, so none is refused with a conflict.
use namespace_cost_governor.Base.{String, some, List, ◌≡◌, ok}
use namespace_cost_governor.Base.Keeps.{Keeps}
use namespace_cost_governor.Base.Int.{ℤ, pos, ◌≤ℤ◌}
use namespace_cost_governor.Go.Float.{Float64}
use namespace_cost_governor.Api.Kube.{Deployment}
use namespace_cost_governor.Outside.{Outside}
use namespace_cost_governor.Outside.Laws.{deployment_at}

-- The server admits no negative count of replicas.
abbrev pub Admitted : Deployment → Type 0
Admitted d = (n : ℤ) → d.replicas ≡ some n → pos 0 ≤ℤ n

pub record IsHealthy {F : Float64} (O : Outside F) (Up : O.World → Type 0) : Type 0 where
  pub list_deployments :
      (w : O.World) (ns : String)
      → Up w
      → (ds : List Deployment) × ((O.list_deployments ns w).0 ≡ ok ds)
  pub get_deployment :
      (w : O.World) (ns n : String) (d : Deployment)
      → Up w
      → deployment_at O w ns n ≡ some d
      → (O.get_deployment ns n w).0 ≡ ok d
  pub patch_deployment :
      (w : O.World) (ns n : String) (base modified : Deployment)
      → Up w
      → deployment_at O w ns n ≡ some base
      → modified.namespace ≡ base.namespace
      → modified.name ≡ base.name
      → Admitted modified
      → (answer : Deployment) × ((O.patch_deployment base modified w).0 ≡ ok answer)
  pub list_deployments-Up : (ns : String) → Keeps Up (O.list_deployments ns)
  pub get_deployment-Up : (ns n : String) → Keeps Up (O.get_deployment ns n)
  pub patch_deployment-Up :
      (base modified : Deployment) → Keeps Up (O.patch_deployment base modified)
