-- ===== src/Outside/Patch.antt =====
-- The three ends of a patch: done, failed, or done with the answer lost.
use mathlib.Core.Path.{subst₂}
use namespace_cost_governor.Base.{
  String, Option, some, ◌≡◌, refl, sym, ap, ◌∙◌, inl, inr, Result, ok, err, Result-cases, Error,
  Exec,
}
use namespace_cost_governor.Base.Int.{ℤ}
use namespace_cost_governor.Go.Float.{Float64}
use namespace_cost_governor.Api.Kube.{Deployment, annotation}
use namespace_cost_governor.Outside.{Outside, Cluster}
use namespace_cost_governor.Outside.Laws.{IsLawful, Same, Reads, deployment_at}

pub Same-refl : (d : Deployment) → Same d d
Same-refl d = record {
  name = refl;
  namespace = refl;
  labels = λ k. refl;
  annotations = λ k. refl;
  replicas = refl;
}

pub Same-trans : {a b c : Deployment} → Same a b → Same b c → Same a c
Same-trans s t = record {
  name = s.name ∙ t.name;
  namespace = s.namespace ∙ t.namespace;
  labels = λ k. s.labels k ∙ t.labels k;
  annotations = λ k. s.annotations k ∙ t.annotations k;
  replicas = s.replicas ∙ t.replicas;
}

pub Same-with_replicas :
    {a b : Deployment} (n : ℤ)
    → Same a b
    → Same (record a { replicas = some n }) (record b { replicas = some n })
unfolding annotation
Same-with_replicas n s = record {
  name = s.name;
  namespace = s.namespace;
  labels = s.labels;
  annotations = s.annotations;
  replicas = refl;
}

pub data Patched (base modified : Deployment) (r : Result Deployment) (o : Option Deployment)
    : Type 0 where
  done :
      (answer : Deployment)
      → r ≡ ok answer
      → o ≡ some answer
      → Same answer modified
      → Patched base modified r o
  failed : (e : Error) → r ≡ err e → o ≡ some base → Patched base modified r o
  lost :
      (e : Error) (d : Deployment)
      → r ≡ err e
      → o ≡ some d
      → Same d modified
      → Patched base modified r o

module _ {F : Float64} (O : Outside F) where
  pub deployment_at-Reads :
      {A : Type 0} (m : Exec O.World A) (w : O.World) (ns n : String)
      → Reads O m
      → deployment_at O (m w).1 ns n ≡ deployment_at O w ns n
  deployment_at-Reads m w ns n h = ap (λ (c : Cluster). c.deployments ns n) (h w)

  module _ (L : IsLawful O) where
    patch-Patched_own :
        (w : O.World) (base modified : Deployment)
        → deployment_at O w base.namespace base.name ≡ some base
        → Patched base modified
            (O.patch_deployment base modified w).0
            (deployment_at O (O.patch_deployment base modified w).1 base.namespace base.name)
    patch-Patched_own w base modified here =
        elim (Result-cases (O.patch_deployment base modified w).0) [
          | inl (answer, e) ↦
              let law = L.patch_ok w base modified answer here e in done answer e law.0 law.1
          | inr (x, e) ↦ elim (L.patch_err w base modified x here e) [
            | inl left ↦ failed x e left
            | inr (d, stored, same) ↦ lost x d e stored same
          ]
        ]

    -- The ends of a patch of what the server holds.
    pub patch-Patched :
        (w : O.World) (ns n : String) (base modified : Deployment)
        → deployment_at O w ns n ≡ some base
        → Patched base modified
            (O.patch_deployment base modified w).0
            (deployment_at O (O.patch_deployment base modified w).1 ns n)
    patch-Patched w ns n base modified here =
        let key = L.stored_key w ns n base here in
        subst₂
          (λ a b.
            Patched base modified (O.patch_deployment base modified w).0
              (deployment_at O (O.patch_deployment base modified w).1 a b))
          key.0 key.1
          (patch-Patched_own w base modified
            (subst₂ (λ a b. deployment_at O w a b ≡ some base) (sym key.0) (sym key.1) here))

    -- A patch leaves the Deployments of other keys alone.
    pub deployment_at-patch_other :
        (w : O.World) (ns n ns' n' : String) (base modified : Deployment)
        → base.namespace ≡ ns
        → base.name ≡ n
        → ((ns ≡ ns') × (n ≡ n') → ⊥)
        → deployment_at O (O.patch_deployment base modified w).1 ns' n' ≡ deployment_at O w ns' n'
    deployment_at-patch_other w ns n ns' n' base modified e f other =
        L.patch_others w base modified ns' n' (λ h. other (sym e ∙ h.0, sym f ∙ h.1))
