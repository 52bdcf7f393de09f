-- ===== src/Actions/Suspend/Spared.antt =====
-- What `SuspendAll` leaves alone.
use mathlib.Core.Option.{some-injective}
use mathlib.Core.Path.{subst₂}
use namespace_cost_governor.Base.{
  ◌||◌, String, some, true, List, [], ◌∷◌, ◌≡◌, sym, ap, ◌∙◌, inl, inr, Result-cases, All, All-map,
  Bool-cases, ◌>>=◌, ok,
}
use namespace_cost_governor.Base.Keeps.{Keeps, Keeps-bind, Keeps-pure, Keeps-attempt, keeps_rules}
use namespace_cost_governor.Go.Float.{Float64}
use namespace_cost_governor.Api.{Exclusion}
use namespace_cost_governor.Api.Kube.{Deployment}
use namespace_cost_governor.Outside.{Outside}
use namespace_cost_governor.Outside.Frame.{Holds, list_deployments-Holds}
use namespace_cost_governor.Outside.Laws.{IsLawful, deployment_at}
use namespace_cost_governor.Actions.ScaleDown.Others.{scale_down-Holds_other}
use namespace_cost_governor.Idle.Exclusion.{is_excluded, is_label_excluded}
use namespace_cost_governor.Actions.ScaleDown.{is_scaled_down_by_operator, at_zero}
use namespace_cost_governor.Actions.Suspend.{skipped, suspend_each, suspend_all}

module _ {F : Float64} (O : Outside F) (L : IsLawful O) (exclusions : List Exclusion)
    (ns' n' : String) (d : Deployment) (spared : skipped O exclusions d ≡ true) where
  -- A listed Deployment of the key is the one that the server holds.
  abbrev Fits : Deployment → Type 0
  Fits d0 = (d0.namespace ≡ ns') × (d0.name ≡ n') → d0 ≡ d

  Fits-All :
      (w : O.World) (ns : String) (ds : List Deployment)
      → deployment_at O w ns' n' ≡ some d
      → (O.list_deployments ns w).0 ≡ ok ds
      → All Fits ds
  Fits-All w ns ds h got =
      All-map ds
        (λ d0 stored key.
          let own = L.stored_key w ns d0.name d0 stored in
          some-injective _ _ (
            sym (subst₂ (λ a b. deployment_at O w a b ≡ some d0) (sym own.0 ∙ key.0) key.1 stored)
            ∙ h))
        (L.list_deployments_lem w ns ds got)

  suspend_each-Holds :
      (ds : List Deployment)
      → All Fits ds
      → Keeps (Holds O ns' n' (some d)) (suspend_each O exclusions ds)
  unfolding suspend_each
  suspend_each-Holds [] fits = search keeps_rules
  suspend_each-Holds (d0 ∷ ds) fits = elim (Bool-cases (skipped O exclusions d0)) [
    | inl skip ↦ rw skip (suspend_each-Holds ds fits.1)
    | inr act ↦
        let apart : (d0.namespace ≡ ns') × (d0.name ≡ n') → ⊥ =
          λ key. let same = fits.0 key in cc (ap (skipped O exclusions) same, act, spared) in
        rw act (
          Keeps-bind _ _ (Keeps-attempt _ (scale_down-Holds_other O L ns' n' (some d) _ apart))
            (λ _. Keeps-bind _ _ (suspend_each-Holds ds fits.1) (λ s. Keeps-pure _)))
  ]

  suspend_all-Holds_skipped :
      (ns : String) → Keeps (Holds O ns' n' (some d)) (suspend_all O exclusions ns)
  unfolding suspend_all ◌>>=◌
  suspend_all-Holds_skipped ns = record {
    at = λ w h.
        let listing = O.list_deployments ns in
        let kept = (list_deployments-Holds O ns' n' (some d) L ns).at w h in
        elim (Result-cases (listing w).0) [
          | inr (e, failing) ↦ rw failing kept
          | inl (ds, got) ↦ rw got ((suspend_each-Holds ds (Fits-All w ns ds h got)).at _ kept)
        ];
  }

-- A Deployment that is excluded by name or by label, that carries the operator's annotation, or
-- whose replicas are 0, is left as it is by a suspension of any namespace, whatever calls fail.
pub suspend_all-Holds_spared :
    {F : Float64} (O : Outside F) (L : IsLawful O) (exclusions : List Exclusion) (ns' n' : String)
    (d : Deployment)
    → is_excluded d.name exclusions
        || (is_label_excluded O d exclusions || (is_scaled_down_by_operator d || at_zero d))
      ≡ true
    → (ns : String) → Keeps (Holds O ns' n' (some d)) (suspend_all O exclusions ns)
unfolding skipped
suspend_all-Holds_spared O L exclusions ns' n' d spared =
    suspend_all-Holds_skipped O L exclusions ns' n' d spared
