-- ===== src/Controller/Lifecycle/Cleanup/Finishes.antt =====
-- The deletion of a budget while the API server answers.
use namespace_cost_governor.Base.{String, some, false, ◌≡◌, Error, ok, err}
use namespace_cost_governor.Go.Float.{Float64}
use namespace_cost_governor.Api.{NamespaceBudget}
use namespace_cost_governor.Api.Kube.{Deployment}
use namespace_cost_governor.Outside.{Outside}
use namespace_cost_governor.Outside.Laws.{deployment_at}
use namespace_cost_governor.Actions.ScaleDown.{is_scaled_down_by_operator, original_replicas}
use namespace_cost_governor.Actions.Life.Sound.{SameOutside, intended}
use namespace_cost_governor.Actions.Life.Finishing.{IsRestorable}
use namespace_cost_governor.Controller.{namespace_budget_finalizer}
use namespace_cost_governor.Controller.Lifecycle.{finished, cleanup, handle_deletion}

module _ {F : Float64} (O : Outside F) (b : NamespaceBudget) where
  -- Every Deployment of the namespace is restorable.
  abbrev pub AllRestorable : O.World → Type 0
  AllRestorable w =
      (n : String) (d : Deployment) → deployment_at O w b.namespace n ≡ some d → IsRestorable d

  -- How the deletion ends: done, or with the error with which the server refused the update that
  -- takes the finalizer away.
  pub data Ended (w : O.World) : Type 0 where
    deleted : (handle_deletion O b w).0 ≡ ok finished → Ended w
    refused :
        (e : Error)
        → (O.update_budget (O.remove_finalizer b namespace_budget_finalizer) (cleanup O b w).1).0
          ≡ err e
        → (handle_deletion O b w).0 ≡ err e
        → Ended w

  -- A Deployment without the mark that runs with the count meant for `d`, and is `d` otherwise.
  pub data RunsAsMeant (d : Deployment) (w : O.World) (n : String) : Type 0 where
    runs :
        (e : Deployment)
        → deployment_at O w b.namespace n ≡ some e
        → is_scaled_down_by_operator e ≡ false
        → intended d ≡ some (original_replicas e)
        → SameOutside d e
        → RunsAsMeant d w n
