-- ===== src/Controller/Accounting.antt =====
-- Steps 5 and 6 of `Reconcile`: the running totals, and the percentage of the budget.
use namespace_cost_governor.Base.{String, List, if◌then◌else◌}
use namespace_cost_governor.Base.Int.{pos, ◌-ℤ◌}
use namespace_cost_governor.Go.Float.{Float64}
use namespace_cost_governor.Go.Time.{Time, is_zero, hours}
use namespace_cost_governor.Api.{Usage, NamespaceBudgetStatus}
use namespace_cost_governor.Metrics.{Sample}
use namespace_cost_governor.Metrics.Usage.{sum_values}

module _ (F : Float64) where
  -- `x, _ := strconv.ParseFloat(s, 64)`
  abbrev parsed : String → F.Carrier
  parsed s = (F.parse s).0

  unfoldable pub elapsed_hours : Time → Time → F.Carrier
  elapsed_hours now last_reconcile =
      hours F (now -ℤ (if is_zero last_reconcile then now else last_reconcile))

  unfoldable pub accumulate :
      Time → List (Sample F) → List (Sample F) → NamespaceBudgetStatus → NamespaceBudgetStatus
  unfolding elapsed_hours
  accumulate now cpu_samples mem_samples status =
      let elapsed = elapsed_hours now status.last_reconcile in
      let current_cpu_cores = sum_values cpu_samples in
      let current_mem_gib = F.div (sum_values mem_samples) (F.of_int (pos 1073741824)) in
      let core = F.add (parsed status.accumulated.core_hours) (F.mul current_cpu_cores elapsed) in
      let gib = F.add (parsed status.accumulated.gib_hours) (F.mul current_mem_gib elapsed) in
      record status {
        accumulated = record status.accumulated {
          core_hours = F.format 6 core;
          gib_hours = F.format 6 gib;
        };
        last_reconcile = now;
        current_usage = record {
          cpu = F.format 6 current_cpu_cores;
          memory = F.format 6 current_mem_gib;
        };
      }

  -- `(accumulated / monthly) * 100`, or 0 without a positive budget.
  unfoldable pub percent_used : String → String → F.Carrier
  percent_used accumulated monthly =
      if F.ltb (F.of_int (pos 0)) (parsed monthly)
      then F.mul (F.div (parsed accumulated) (parsed monthly)) (F.of_int (pos 100))
      else F.of_int (pos 0)

  unfoldable pub budget_percent : Usage → NamespaceBudgetStatus → F.Carrier
  unfolding percent_used
  budget_percent monthly status =
      F.max (percent_used status.accumulated.core_hours monthly.cpu)
        (percent_used status.accumulated.gib_hours monthly.memory)
