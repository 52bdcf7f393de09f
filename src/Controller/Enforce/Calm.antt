-- ===== src/Controller/Enforce/Calm.antt =====
-- Steps 7 to 11 below the budget.
use namespace_cost_governor.Base.{
  String, Option, false, [], ◌==◌, ◌⊎◌, Bool-cases, ◌≡◌, refl, inl, inr,
}
use namespace_cost_governor.Base.Keeps.{Keeps, Keeps-bind, Keeps-pure}
use namespace_cost_governor.Base.Int.{ℤ, pos}
use namespace_cost_governor.Go.Float.{Float64}
use namespace_cost_governor.Api.{NamespaceBudget}
use namespace_cost_governor.Api.Kube.{Deployment}
use namespace_cost_governor.Outside.{Outside}
use namespace_cost_governor.Outside.Frame.{Holds}
use namespace_cost_governor.Outside.Laws.{IsLawful}
use namespace_cost_governor.Controller.{Reconciler, phase_suspended}
use namespace_cost_governor.Controller.Phase.{under_pressure, determine_phase}
use namespace_cost_governor.Controller.Enforce.{
  detect_actionable, scale_down_each, suspend_step, enforce,
}
use namespace_cost_governor.Controller.Enforce.Frame.{update_status-Holds, notify_step-Holds}

below :
    (F : Float64) (percent : F.Carrier)
    → F.leb (F.of_int (pos 120)) percent ≡ false
    → F.leb (F.of_int (pos 100)) percent ≡ false
    → (determine_phase F percent ≡ "Warning") ⊎ (determine_phase F percent ≡ "OK")
unfolding determine_phase
below F percent a b =
    rw (a, b)
      (elim (Bool-cases (F.leb (F.of_int (pos 80)) percent)) [
        | inl warn ↦ inl (rw warn refl)
        | inr fine ↦ inr (rw fine refl)
      ])

module _ {F : Float64} (O : Outside F) (L : IsLawful O) (ns n : String) (o : Option Deployment)
    (r : Reconciler F) where
  enforce-Holds_calm :
      (namespace previous_phase phase : String) (percent : ℤ) (b : NamespaceBudget)
      → under_pressure phase ≡ false
      → phase == phase_suspended ≡ false
      → Keeps (Holds O ns n o) (enforce O r namespace previous_phase phase percent b)
  unfolding enforce detect_actionable scale_down_each suspend_step
  enforce-Holds_calm namespace previous_phase phase percent b calm running =
      rw (calm, running)
        (Keeps-bind _ _ (Keeps-pure (b, [])) (λ (b1, actionable).
          Keeps-bind _ _ (update_status-Holds O L ns n o b1 phase percent) (λ b2.
            Keeps-bind _ _ (Keeps-pure _) (λ scaled.
              Keeps-bind _ _ (Keeps-pure _) (λ s. notify_step-Holds O L ns n o r _ _ _ _ _)))))

  -- While the use of the budget is below 100 percent, and so below 120, steps 7 to 11 of a
  -- reconcile leave every Deployment of every namespace as it is, whatever calls fail.
  pub enforce-Holds_below :
      (namespace previous_phase : String) (used : F.Carrier) (percent : ℤ) (b : NamespaceBudget)
      → F.leb (F.of_int (pos 120)) used ≡ false
      → F.leb (F.of_int (pos 100)) used ≡ false
      → Keeps
          (Holds O ns n o)
          (enforce O r namespace previous_phase (determine_phase F used) percent b)
  unfolding under_pressure
  enforce-Holds_below namespace previous_phase used percent b a c = elim (below F used a c) [
    | inl warn ↦ rw warn (enforce-Holds_calm namespace previous_phase "Warning" percent b refl refl)
    | inr fine ↦ rw fine (enforce-Holds_calm namespace previous_phase "OK" percent b refl refl)
  ]
