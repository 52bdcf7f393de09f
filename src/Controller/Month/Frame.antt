-- ===== src/Controller/Month/Frame.antt =====
-- What the month boundary keeps: the Deployments, and all of the budget but its status.
use namespace_cost_governor.Base.{
  String, Option, none, some, Result, ok, err, ◌≡◌, refl, Bool-cases, inl, inr, ◌==◌,
}
use namespace_cost_governor.Base.Keeps.{
  Ensures, Keeps-attempt, Ensures-then, Ensures-if, Ensures-pure,
}
use namespace_cost_governor.Go.Float.{Float64}
use namespace_cost_governor.Go.Time.{Time, Calendar, LocatedTime}
use namespace_cost_governor.Api.{NamespaceBudget}
use namespace_cost_governor.Api.Kube.{Deployment}
use namespace_cost_governor.Outside.{Outside}
use namespace_cost_governor.Outside.Frame.{Holds}
use namespace_cost_governor.Outside.Laws.{IsLawful}
use namespace_cost_governor.Report.Generate.Frame.{generate-Holds}
use namespace_cost_governor.Controller.{Reconciler}
use namespace_cost_governor.Controller.Month.{
  init_since, reset_accumulated, reset_after, is_first_day, other_month, since_parsed,
  month_boundary, maybe_generate_report,
}

-- The two budgets differ in their status alone.
abbrev pub SameButStatus : NamespaceBudget → NamespaceBudget → Type 0
SameButStatus b a = a ≡ record b { status = a.status }

pub init_since-SameButStatus :
    (cal : Calendar) (now : Time) (b : NamespaceBudget) → SameButStatus b (init_since cal now b)
unfolding init_since
init_since-SameButStatus cal now b = elim (Bool-cases (b.status.accumulated.since == "")) [
  | inl fresh ↦ rw fresh refl
  | inr set ↦ rw set refl
]

module _ {F : Float64} (O : Outside F) (L : IsLawful O) (r : Reconciler F) (ns n : String)
    (o : Option Deployment) where
  reset_after-SameButStatus :
      (now : Time) (b : NamespaceBudget) (reported : Result {0} Unit)
      → SameButStatus b (reset_after O.calendar now b reported)
  unfolding reset_after reset_accumulated
  reset_after-SameButStatus now b (ok a) = refl
  reset_after-SameButStatus now b (err e) = refl

  since_parsed-Ensures :
      (now : Time) (b : NamespaceBudget) (since : Option LocatedTime)
      → Ensures (Holds O ns n o) (SameButStatus b) (since_parsed O r now b since)
  unfolding since_parsed maybe_generate_report
  since_parsed-Ensures now b none = Ensures-pure _ _ refl
  since_parsed-Ensures now b (some since) =
      Ensures-if _ (other_month O.calendar since now) _ _
        (λ _.
          Ensures-then _ _ _ (Keeps-attempt _ (generate-Holds O L _ ns n o b))
            (λ reported. Ensures-pure _ _ (reset_after-SameButStatus now b reported)))
        (λ _. Ensures-pure _ _ refl)

  -- The month boundary leaves every Deployment as it is, and of the budget changes the status alone.
  pub month_boundary-Ensures :
      (now : Time) (b : NamespaceBudget)
      → Ensures (Holds O ns n o) (SameButStatus b) (month_boundary O r now b)
  unfolding month_boundary
  month_boundary-Ensures now b =
      Ensures-if _ (is_first_day O.calendar now b) _ _ (λ _. since_parsed-Ensures now b _)
        (λ _. Ensures-pure _ _ refl)
