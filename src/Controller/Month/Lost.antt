-- ===== src/Controller/Month/Lost.antt =====
-- A month whose report was created, but whose status was never written.
use namespace_cost_governor.Base.{some, ok, refl, ◌≡◌, ◌∙◌, sym, ap, ◌>>=◌}
use namespace_cost_governor.Go.Float.{Float64}
use namespace_cost_governor.Go.Time.{Time}
use namespace_cost_governor.Api.{NamespaceBudget, CostReport}
use namespace_cost_governor.Outside.{Outside}
use namespace_cost_governor.Outside.Laws.{IsLawful}
use namespace_cost_governor.Report.{Generator}
use namespace_cost_governor.Report.Generate.{report_name, first_of_last_month, empty_status}
use namespace_cost_governor.Report.Generate.Existing.{look, generate-existing}
use namespace_cost_governor.Controller.{Reconciler}
use namespace_cost_governor.Controller.Month.{
  reset_after, reset_accumulated, since_parsed, month_boundary, maybe_generate_report,
}
use namespace_cost_governor.Controller.Month.Reset.{Due, first_day_iff, other_month_iff}

module _ {F : Float64} (O : Outside F) (L : IsLawful O) (r : Reconciler F) where
  -- When a report is due and the API server answers with a report of the last month whose status was
  -- never written, the month boundary sets the totals to 0, to run from now, and the stored report
  -- is still without a status: the totals of the month are in no report.
  pub month_boundary-Lost :
      (now : Time) (b : NamespaceBudget) (w : O.World) (report : CostReport)
      → Due O r now b
      → (look O b w).0 ≡ ok report
      → report.status ≡ empty_status
      → let after = month_boundary O r now b w in
        let name =
          report_name O.calendar b.namespace (first_of_last_month O.calendar (O.now w).0) in
        (after.0
          ≡ ok (record b {
            status = record b.status {
              accumulated = record {
                core_hours = "0";
                gib_hours = "0";
                since = O.calendar.format_rfc3339 now;
              };
            };
          }))
        × (stored : CostReport) × ((O.cluster after.1).reports b.namespace name ≡ some stored)
        × (stored.status ≡ empty_status)
  unfolding month_boundary since_parsed reset_after maybe_generate_report reset_accumulated ◌>>=◌
  month_boundary-Lost now b w report due found bare =
      let first = (first_day_iff O r now b).1 (due.first_day, due.started) in
      let other = (other_month_iff O r due.since now).1 due.other in
      let name = report_name O.calendar b.namespace (first_of_last_month O.calendar (O.now w).0) in
      let generator : Generator F = record {
        metrics_client = r.prometheus_client;
        cpu_price_per_core_hour = r.cpu_price_per_core_hour;
        mem_price_per_gib_hour = r.mem_price_per_gib_hour;
      } in
      let (done, same) = generate-existing O L generator b w report found in
      (
        rw (first, due.parsed, other, done) refl,
        report,
        rw (first, due.parsed, other)
            (ap (λ c. c.reports b.namespace name) (same ∙ sym (L.clock-reads w))
              ∙ L.get_report_lem (O.now w).1 b.namespace name report found),
        bare,
      )
