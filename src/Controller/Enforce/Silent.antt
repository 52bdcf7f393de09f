-- ===== src/Controller/Enforce/Silent.antt =====
-- When no notification is sent.
use namespace_cost_governor.Base.{String, true, ◌==◌, ◌≡◌, refl, arith, eq_iff}
use namespace_cost_governor.Base.Int.{ℤ}
use namespace_cost_governor.Go.Float.{Float64}
use namespace_cost_governor.Api.{NamespaceBudget}
use namespace_cost_governor.Outside.{Outside}
use namespace_cost_governor.Controller.{Reconciler}
use namespace_cost_governor.Controller.Enforce.{detect, detect_actionable, notify_step, enforce}

unfoldable pub without_webhook : {F : Float64} → Reconciler F → Reconciler F
without_webhook r = record r { slack_webhook_url = "" }

same_text : (s : String) → s == s ≡ true
same_text s = ground (arith, eq_iff s s)

-- While the phase stays the same, steps 7 to 11 do what they do without a webhook: they return the
-- same and leave the same world, so no notification is sent.
pub enforce-without_webhook :
    {F : Float64} (O : Outside F) (r : Reconciler F) (namespace phase : String) (percent : ℤ)
    (b : NamespaceBudget) (w : O.World)
    → enforce O r namespace phase phase percent b w
      ≡ enforce O (without_webhook r) namespace phase phase percent b w
unfolding enforce detect_actionable detect notify_step without_webhook
enforce-without_webhook O r namespace phase percent b w = rw (same_text phase) refl
