-- ===== src/Examples/Memory/Healthy.antt =====
-- The world in memory is up while it has no faults to come.
use mathlib.Core.Path.{subst₂}
use namespace_cost_governor.Base.{
  Bool-cases, Option-cases, inl, inr, true, ◌&&◌, eq_iff, arith, some, [], ◌≡◌, ◌==◌, refl, sym, ap,
  ok, Result,
}
use namespace_cost_governor.Outside.Healthy.{IsHealthy}
use namespace_cost_governor.Examples.Memory.{
  World, memory, in_namespace, call, later, patch, deployment_of,
}
use namespace_cost_governor.Api.Kube.{Deployment}
use namespace_cost_governor.Examples.Memory.Lawful.{memory-IsLawful}

abbrev pub Up : World → Type 0
Up w = w.faults ≡ []

call-Up : {A : Type 0} (w w' : World) (r : Result A) → Up w → Up w' → Up (call w r w').1
call-Up w w' r up up' = rw up (ap later up')

patch-Up : (base modified : Deployment) (w : World) → Up w → Up (patch base modified w).1
patch-Up base modified w up =
    elim (Bool-cases (modified.namespace == base.namespace && modified.name == base.name)) [
      | inr renamed ↦ rw renamed (ap later up)
      | inl same ↦ elim (Option-cases (deployment_of w.deployment base.namespace base.name)) [
        | inl nothing ↦ rw (same, nothing) (ap later up)
        | inr (d, stored) ↦ rw (same, stored) (call-Up w _ (ok modified) up up)
      ]
    ]

patch-ok :
    (base modified stored : Deployment) (w : World)
    → Up w
    → deployment_of w.deployment base.namespace base.name ≡ some stored
    → modified.namespace ≡ base.namespace
    → modified.name ≡ base.name
    → (patch base modified w).0 ≡ ok modified
patch-ok base modified stored w up at same same' =
    let key : (modified.namespace == base.namespace && modified.name == base.name) ≡ true =
      ground (arith, eq_iff modified.namespace base.namespace, eq_iff modified.name base.name) in
    rw (key, at, up) refl

pub memory-IsHealthy : IsHealthy memory Up
memory-IsHealthy = record {
  list_deployments = λ w ns up. (in_namespace w.deployment ns, rw up refl);
  get_deployment = λ w ns n d up at. rw (up, at) refl;
  patch_deployment = λ w ns n base modified up at same same' admitted. (
    modified,
    let key = memory-IsLawful.stored_key w ns n base at in
        patch-ok base modified base w up
          (subst₂ (λ a b. deployment_of w.deployment a b ≡ some base) (sym key.0) (sym key.1) at)
          same same',
  );
  list_deployments-Up = λ ns. record { at = λ w up. call-Up w w _ up up };
  get_deployment-Up = λ ns n. record { at = λ w up. call-Up w w _ up up };
  patch_deployment-Up = λ base modified. record { at = λ w up. patch-Up base modified w up };
}
