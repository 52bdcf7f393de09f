-- ===== src/Controller/Enforce/Unread.antt =====
-- The actions of the spec play no part in steps 7 to 11.
use namespace_cost_governor.Base.{
  String, List, ◌≡◌, refl, inl, inr, Result-cases, Bool-cases, Result, ok, err, ◌>>=◌,
}
use namespace_cost_governor.Base.Int.{ℤ}
use namespace_cost_governor.Go.Float.{Float64}
use namespace_cost_governor.Api.{NamespaceBudget, Actions}
use namespace_cost_governor.Idle.{IdleWorkload}
use namespace_cost_governor.Outside.{Outside}
use namespace_cost_governor.Controller.{Reconciler}
use namespace_cost_governor.Controller.Conditions.{status_with}
use namespace_cost_governor.Controller.Phase.{under_pressure}
use namespace_cost_governor.Controller.Enforce.{
  filter_excluded, parse_window, actionable_of, detect, detect_actionable, write_status,
  update_status, enforce,
}

pub with_actions : Actions → NamespaceBudget → NamespaceBudget
with_actions actions b = record b { spec = record b.spec { actions = actions } }

abbrev found_with :
    Actions → NamespaceBudget × List IdleWorkload → NamespaceBudget × List IdleWorkload
found_with actions out = (with_actions actions out.0, out.1)

module _ {F : Float64} (O : Outside F) (r : Reconciler F) (actions : Actions) where
  abbrev over : {A : Type 0} → (A → A) → Result A × O.World → Result A × O.World
  over f (ok a, w) = (ok (f a), w)
  over f (err e, w) = (err e, w)

  actionable_of-with_actions :
      (b : NamespaceBudget) (detected : Result (List IdleWorkload)) (w : O.World)
      → actionable_of O (with_actions actions b) detected w
        ≡ over (found_with actions) (actionable_of O b detected w)
  unfolding actionable_of with_actions ◌>>=◌
  actionable_of-with_actions b (err e) w = refl
  actionable_of-with_actions b (ok ws) w =
      elim (Result-cases (filter_excluded O b.spec.exclusions ws w).0) [
        | inl (a, got) ↦ rw got refl
        | inr (e, failing) ↦ rw failing refl
      ]

  detect_actionable-with_actions :
      (namespace phase : String) (b : NamespaceBudget) (w : O.World)
      → detect_actionable O r namespace phase (with_actions actions b) w
        ≡ over (found_with actions) (detect_actionable O r namespace phase b w)
  unfolding detect_actionable detect ◌>>=◌ with_actions
  detect_actionable-with_actions namespace phase b w = elim (Bool-cases (under_pressure phase)) [
    | inr calm ↦ rw calm refl
    | inl pressed ↦ elim (Result-cases (parse_window O b.spec.idle_threshold.window)) [
      | inr (e, failing) ↦ rw (pressed, failing) refl
      | inl (window, read) ↦ rw (pressed, read) (actionable_of-with_actions b _ _)
    ]
  ]

  update_status-with_actions :
      (b : NamespaceBudget) (phase : String) (percent : ℤ) (w : O.World)
      → update_status O (with_actions actions b) phase percent w
        ≡ over (with_actions actions) (update_status O b phase percent w)
  unfolding update_status write_status ◌>>=◌ with_actions
  update_status-with_actions b phase percent w =
      elim (Result-cases
        (O.retry_on_conflict (write_status O b (status_with phase percent (O.now w).0 b.status))
          (O.now w).1).0) [ inl (a, fine) ↦ rw fine refl | inr (e, failing) ↦ rw failing refl ]

  -- Steps 7 to 11 do the same whatever actions the spec names for the phases: they return the same
  -- and leave the same world.
  pub enforce-with_actions :
      (namespace previous_phase phase : String) (percent : ℤ) (b : NamespaceBudget) (w : O.World)
      → enforce O r namespace previous_phase phase percent (with_actions actions b) w
        ≡ enforce O r namespace previous_phase phase percent b w
  unfolding enforce ◌>>=◌ with_actions
  enforce-with_actions namespace previous_phase phase percent b w =
      elim (Result-cases (detect_actionable O r namespace phase b w).0) [
        | inr (e, failing) ↦ rw (detect_actionable-with_actions namespace phase b w, failing) refl
        | inl (out, found) ↦
            let w1 = (detect_actionable O r namespace phase b w).1 in
            rw (detect_actionable-with_actions namespace phase b w, found)
              (elim (Result-cases (update_status O out.0 phase percent w1).0) [
                | inr (e, failing) ↦
                    rw (update_status-with_actions out.0 phase percent w1, failing) refl
                | inl (b2, fine) ↦ rw (update_status-with_actions out.0 phase percent w1, fine) refl
              ])
      ]
