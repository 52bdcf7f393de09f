-- ===== src/Controller/Enforce/Spared.antt =====
-- An excluded Deployment through steps 7 to 11 of `Reconcile`.
use mathlib.Core.Option.{some-injective}
use mathlib.Core.Path.{subst, subst₂}
use namespace_cost_governor.Base.{
  String, some, Bool, true, false, List, [], ◌∷◌, ◌==◌, ◌||◌, ◌≡◌, refl, sym, ap, inl, inr, Result,
  ok, err, All, if◌then◌else◌, ◌∙◌, Bool-cases,
}
use namespace_cost_governor.Base.Keeps.{
  Keeps, Ensures, OnOk, Keeps-bind, Keeps-if, Keeps-pure, Keeps-attempt, Keeps-of_result,
  Keeps-bind-Ensures, Ensures-bind, Ensures-then, Ensures-pure, Ensures-if, Ensures-attempt,
}
use namespace_cost_governor.Base.Int.{ℤ}
use namespace_cost_governor.Go.Float.{Float64}
use namespace_cost_governor.Api.{NamespaceBudget, NamespaceBudgetSpec, Exclusion}
use namespace_cost_governor.Api.Kube.{Deployment}
use namespace_cost_governor.Idle.{IdleWorkload}
use namespace_cost_governor.Idle.Exclusion.{is_excluded, is_label_excluded}
use namespace_cost_governor.Idle.Detector.Frame.{detect_idle-Reads}
use namespace_cost_governor.Actions.ScaleDown.Others.{scale_down-Holds_other}
use namespace_cost_governor.Actions.Suspend.{skipped}
use namespace_cost_governor.Actions.Suspend.Spared.{suspend_all-Holds_spared}
use namespace_cost_governor.Outside.{Outside}
use namespace_cost_governor.Outside.Frame.{
  Holds, Keeps-Reads, retry_on_conflict-Keeps, clock-Holds, get_deployment-Holds,
}
use namespace_cost_governor.Outside.Laws.{IsLawful, deployment_at}
use namespace_cost_governor.Controller.{Reconciler, phase_suspended}
use namespace_cost_governor.Controller.Conditions.{status_with}
use namespace_cost_governor.Controller.Phase.{under_pressure}
use namespace_cost_governor.Controller.Enforce.{
  update_status, actionable_of, detect, detect_actionable, filter_excluded, scale_down_each,
  suspend_step, enforce,
}
use namespace_cost_governor.Controller.Enforce.Frame.{write_status-Holds, notify_step-Holds}

if_All :
    {A : Type 0} (P : A → Type 0) (xs : List A) (b : Bool) → All P xs → All P (if b then xs else [])
if_All P xs true all = all
if_All P xs false all = tt

neither : (a b : Bool) → a || b ≡ true → a ≡ false → b ≡ false → ⊥
neither a b either no_a no_b = cc (either, no_a, no_b)

or_assoc_true : (a b c : Bool) → a || b ≡ true → a || (b || c) ≡ true
or_assoc_true true b c e = refl
or_assoc_true false b c e = rw e refl

module _ {F : Float64} (O : Outside F) (L : IsLawful O) (exs : List Exclusion) (ns' n' : String)
    (d : Deployment) (key : (d.namespace ≡ ns') × (d.name ≡ n'))
    (spared : is_excluded d.name exs || is_label_excluded O d exs ≡ true) where
  abbrev Here : O.World → Type 0
  Here = Holds O ns' n' (some d)

  abbrev Apart : IdleWorkload → Type 0
  Apart x = (x.namespace ≡ ns') × (x.name ≡ n') → ⊥

  abbrev Fits : IdleWorkload → Deployment → Type 0
  Fits x d0 = (x.namespace ≡ ns') × (x.name ≡ n') → d0 ≡ d

  get_deployment-Fits :
      (x : IdleWorkload) → Ensures Here (Fits x) (O.get_deployment x.namespace x.name)
  get_deployment-Fits x = record {
    at = λ w h.
        ((get_deployment-Holds O ns' n' (some d) L x.namespace x.name).at w h, fits w h _ refl);
  }
    where
      fits :
          (w : O.World)
          → Here w
          → (r : Result Deployment) → (O.get_deployment x.namespace x.name w).0 ≡ r
          → OnOk (Fits x) r
      fits w h (err e) got = tt
      fits w h (ok d0) got = λ (a, b). some-injective _ _ (
          sym (
            subst₂ (λ p q. deployment_at O w p q ≡ some d0) a b
              (L.get_deployment_lem w x.namespace x.name d0 got))
          ∙ h)

  -- What the filter keeps is apart from the spared Deployment.
  kept-Apart :
      (x : IdleWorkload) (actionable : List IdleWorkload) (fetched : Result Deployment)
      → is_excluded x.name exs ≡ false
      → OnOk (Fits x) fetched
      → All Apart actionable
      → All Apart (elim fetched [
        | err e ↦ actionable
        | ok d0 ↦ if is_label_excluded O d0 exs then actionable else x ∷ actionable
      ])
  kept-Apart x actionable (err e) named fits apart = apart
  kept-Apart x actionable (ok d0) named fits apart =
      elim (Bool-cases (is_label_excluded O d0 exs)) [
        | inl out ↦ rw out apart
        | inr act ↦ rw act (
          (λ same.
              let label = fits same in
              neither _ _ spared (ap (λ m. is_excluded m exs) (key.1 ∙ sym same.1) ∙ named)
                (ap (λ e. is_label_excluded O e exs) (sym label) ∙ act)),
          apart,
        )
      ]

  filter_excluded-Apart :
      (xs : List IdleWorkload) → Ensures Here (All Apart) (filter_excluded O exs xs)
  unfolding filter_excluded
  filter_excluded-Apart [] = Ensures-pure _ _ tt
  filter_excluded-Apart (x ∷ xs) =
      let rest = filter_excluded-Apart xs in
      Ensures-if _ (is_excluded x.name exs) _ _ (λ _. rest)
        (λ named.
          Ensures-bind (OnOk (Fits x)) _ _ _ (Ensures-attempt _ _ (get_deployment-Fits x))
            (λ fetched fits.
              Ensures-bind (All Apart) _ _ _ rest
                (λ a apart. Ensures-pure _ _ (kept-Apart x a fetched named fits apart))))

  scale_down_each-Holds :
      (xs : List IdleWorkload) → All Apart xs → Keeps Here (scale_down_each O xs)
  unfolding scale_down_each
  scale_down_each-Holds [] apart = Keeps-pure _
  scale_down_each-Holds (x ∷ xs) (a, apart) =
      Keeps-bind _ _ (Keeps-attempt _ (scale_down-Holds_other O L ns' n' (some d) x a))
        (λ s. Keeps-bind _ _ (scale_down_each-Holds xs apart) (λ names. Keeps-pure _))

  suspend_step-Holds : (phase ns : String) → Keeps Here (suspend_step O phase ns exs)
  unfolding suspend_step skipped
  suspend_step-Holds phase ns =
      Keeps-if (phase == phase_suspended) _ _
        (λ _.
          Keeps-bind _ _
            (Keeps-attempt _ (
              suspend_all-Holds_spared O L exs ns' n' d
                (or_assoc_true (is_excluded d.name exs) _ _ spared) ns))
            (λ s. Keeps-pure _))
        (λ _. Keeps-pure _)

  module _ (r : Reconciler F) where
    -- The budget keeps its spec, and no actionable workload is the spared Deployment.
    abbrev Found : NamespaceBudget → NamespaceBudget × List IdleWorkload → Type 0
    Found b out = (out.0.spec ≡ b.spec) × All Apart out.1

    actionable_of-Found :
        (b : NamespaceBudget) (detected : Result (List IdleWorkload))
        → b.spec.exclusions ≡ exs
        → Ensures Here (Found b) (actionable_of O b detected)
    unfolding actionable_of
    actionable_of-Found b (err e) same = Ensures-pure _ _ (refl, tt)
    actionable_of-Found b (ok ws) same =
        Ensures-bind (All Apart) _ _ _
          (subst (λ e. Ensures Here (All Apart) (filter_excluded O e ws)) (sym same)
            (filter_excluded-Apart ws))
          (λ a apart. Ensures-pure _ _ (refl, apart))

    detect-Found :
        (namespace : String) (b : NamespaceBudget)
        → b.spec.exclusions ≡ exs
        → Ensures Here (Found b) (detect O r namespace b)
    unfolding detect
    detect-Found namespace b same = Ensures-then _ _ _ (Keeps-of_result _) (λ window.
        Ensures-then _ _ _
          (Keeps-attempt _ (
            Keeps-Reads O ns' n' (some d) _
              (detect_idle-Reads O L r.prometheus_client namespace _ window)))
          (λ detected. actionable_of-Found b detected same))

    detect_actionable-Found :
        (namespace phase : String) (b : NamespaceBudget)
        → b.spec.exclusions ≡ exs
        → Ensures Here (Found b) (detect_actionable O r namespace phase b)
    unfolding detect_actionable
    detect_actionable-Found namespace phase b same =
        Ensures-if _ (under_pressure phase) _ _ (λ _. detect-Found namespace b same)
          (λ _. Ensures-pure _ _ (refl, tt))

    update_status-spec :
        (b : NamespaceBudget) (phase : String) (percent : ℤ)
        → Ensures Here (λ out. out.spec ≡ b.spec) (update_status O b phase percent)
    unfolding update_status
    update_status-spec b phase percent =
        Ensures-then _ _ _ (clock-Holds O ns' n' (some d) L) (λ now.
          let written = record b { status = status_with phase percent now b.status } in
          Ensures-then _ _ _
            (retry_on_conflict-Keeps O L Here _
              (write_status-Holds O L ns' n' (some d) b written.status))
            (λ u. Ensures-pure _ written refl))

    -- Steps 7 to 11 leave an excluded Deployment as it is, in every phase and whatever calls fail.
    pub enforce-Holds_spared :
        (namespace previous_phase phase : String) (percent : ℤ) (b : NamespaceBudget)
        → b.spec.exclusions ≡ exs
        → Keeps Here (enforce O r namespace previous_phase phase percent b)
    unfolding enforce
    enforce-Holds_spared namespace previous_phase phase percent b same =
        Keeps-bind-Ensures _ _ _ (detect_actionable-Found namespace phase b same)
          (λ (b1, actionable) (same1, apart).
            Keeps-bind-Ensures (λ out. out.spec ≡ b1.spec) _ _ (update_status-spec b1 phase percent)
              (λ b2 same2.
                Keeps-bind _ _
                  (scale_down_each-Holds _ (if_All Apart _ (under_pressure phase) apart))
                  (λ scaled.
                    Keeps-bind _ _
                      (subst (λ e. Keeps Here (suspend_step O phase namespace e))
                        (sym (ap (λ s. NamespaceBudgetSpec.exclusions s) (same2 ∙ same1) ∙ same))
                        (suspend_step-Holds phase namespace))
                      (λ s. notify_step-Holds O L ns' n' (some d) r _ _ _ _ _))))
