-- ===== src/Actions/Suspend/Names.antt =====
-- The names that `SuspendAll` returns.
use namespace_cost_governor.Base.{
  String, List, [], ◌∷◌, ◌≡◌, refl, inl, inr, ok, Bool-cases, ◌>>=◌, if◌then◌else◌,
}
use namespace_cost_governor.Go.Float.{Float64}
use namespace_cost_governor.Api.{Exclusion}
use namespace_cost_governor.Api.Kube.{Deployment}
use namespace_cost_governor.Outside.{Outside}
use namespace_cost_governor.Actions.Suspend.{skipped, suspend_each, suspend_all}

-- The names of the Deployments that pass the four tests, in the order of the list.
pub names_to_suspend :
    {F : Float64} (O : Outside F) → List Exclusion → List Deployment → List String
names_to_suspend O exclusions [] = []
names_to_suspend O exclusions (d ∷ ds) =
    let rest = names_to_suspend O exclusions ds in
    if skipped O exclusions d then rest else d.name ∷ rest

module _ {F : Float64} (O : Outside F) (exclusions : List Exclusion) where
  suspend_each-names :
      (ds : List Deployment) (w : O.World)
      → (suspend_each O exclusions ds w).0 ≡ ok (names_to_suspend O exclusions ds)
  unfolding suspend_each names_to_suspend ◌>>=◌
  suspend_each-names [] w = refl
  suspend_each-names (d ∷ ds) w = elim (Bool-cases (skipped O exclusions d)) [
    | inl skip ↦ rw skip (suspend_each-names ds w)
    | inr act ↦ rw act (rw (suspend_each-names ds _))
  ]

  -- A suspension that can list the namespace returns no error, and the names of exactly the listed
  -- Deployments that pass the four tests, whether or not their scale-down succeeded.
  pub suspend_all-names :
      (ns : String) (ds : List Deployment) (w : O.World)
      → (O.list_deployments ns w).0 ≡ ok ds
      → (suspend_all O exclusions ns w).0 ≡ ok (names_to_suspend O exclusions ds)
  unfolding suspend_all ◌>>=◌
  suspend_all-names ns ds w got = rw got (suspend_each-names ds _)
