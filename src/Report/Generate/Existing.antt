-- ===== src/Report/Generate/Existing.antt =====
-- A report that exists already.
use namespace_cost_governor.Base.{ok, ◌≡◌, refl, ◌∙◌, Exec, ◌>>=◌}
use namespace_cost_governor.Go.Float.{Float64}
use namespace_cost_governor.Api.{NamespaceBudget, CostReport}
use namespace_cost_governor.Outside.{Outside}
use namespace_cost_governor.Outside.Laws.{IsLawful}
use namespace_cost_governor.Report.{Generator}
use namespace_cost_governor.Report.Generate.{
  report_name, first_of_last_month, generate_after, generate,
}

-- The look for the report of the month before, at the time of the clock.
abbrev pub look : {F : Float64} (O : Outside F) → NamespaceBudget → Exec O.World CostReport
look O b w =
    let first = first_of_last_month O.calendar (O.now w).0 in
    O.get_report b.namespace (report_name O.calendar b.namespace first) (O.now w).1

-- When the report of the last month exists, whatever it holds, `Generate` reports success and
-- changes nothing in the cluster: a report whose status was never written stays as it is.
pub generate-existing :
    {F : Float64} (O : Outside F) (L : IsLawful O) (g : Generator F) (b : NamespaceBudget)
    (w : O.World) (report : CostReport)
    → (look O b w).0 ≡ ok report
    → ((generate O g b w).0 ≡ ok tt) × (O.cluster (generate O g b w).1 ≡ O.cluster w)
unfolding generate ◌>>=◌ generate_after
generate-existing O L g b w report found =
    (rw found refl, rw found (L.get_report-reads _ _ _ ∙ L.clock-reads w))
