-- ===== src/Outside/Stale.antt =====
-- A patch of an object that another client changed meanwhile. client.MergeFrom makes a merge patch,
-- which names what differs between base and modified and is applied to what the server holds.
use namespace_cost_governor.Base.{String, some, ◌≡◌, ◌≢◌, ok}
use namespace_cost_governor.Base.Int.{ℤ}
use namespace_cost_governor.Go.Float.{Float64}
use namespace_cost_governor.Api.Kube.{Deployment}
use namespace_cost_governor.Outside.{Outside}
use namespace_cost_governor.Outside.Laws.{Same, deployment_at}

abbrev pub with_count : ℤ → Deployment → Deployment
with_count n d = record d { replicas = some n }

-- A patch that changes the count alone sets the count, and leaves all else as it is stored.
pub record MergesCount {F : Float64} (O : Outside F) : Type 0 where
  pub patch_count :
      (w : O.World) (ns n : String) (base stored answer : Deployment) (count : ℤ)
      → base.namespace ≡ ns
      → base.name ≡ n
      → deployment_at O w ns n ≡ some stored
      → base.replicas ≢ some count
      → (O.patch_deployment base (with_count count base) w).0 ≡ ok answer
      → (deployment_at O (O.patch_deployment base (with_count count base) w).1 ns n ≡ some answer)
        × Same answer (with_count count stored)
