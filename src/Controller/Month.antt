-- ===== src/Controller/Month.antt =====
-- The month boundary of `Reconcile`, and `maybeGenerateReport`.
pub mod Frame
pub mod Reset
pub mod Lost
use namespace_cost_governor.Base.{
  String, ◌==◌, ◌||◌, ◌&&◌, not, nat_beq, Bool, Option, none, some, Result, ok, err, if◌then◌else◌,
  Exec, pure, attempt, ◌>>=◌,
}
use namespace_cost_governor.Go.Float.{Float64}
use namespace_cost_governor.Go.Time.{Time, LocatedTime, Calendar}
use namespace_cost_governor.Api.{NamespaceBudget, NamespaceBudgetStatus}
use namespace_cost_governor.Outside.{Outside}
use namespace_cost_governor.Report.{Generator}
use namespace_cost_governor.Report.Generate.{generate}
use namespace_cost_governor.Controller.{Reconciler}

-- Sets `Accumulated.Since` on the first reconcile.
unfoldable pub init_since : Calendar → Time → NamespaceBudget → NamespaceBudget
init_since cal now b =
    if b.status.accumulated.since == ""
    then record b {
      status = record b.status {
        accumulated = record b.status.accumulated { since = cal.format_rfc3339 now };
      };
    }
    else b

unfoldable pub reset_accumulated : Calendar → Time → NamespaceBudget → NamespaceBudget
reset_accumulated cal now b = record b {
  status = record b.status {
    accumulated = record { core_hours = "0"; gib_hours = "0"; since = cal.format_rfc3339 now };
  };
}

unfoldable pub is_first_day : Calendar → Time → NamespaceBudget → Bool
is_first_day cal now b = nat_beq (cal.day now) 1 && not (b.status.accumulated.since == "")

unfoldable pub other_month : Calendar → LocatedTime → Time → Bool
other_month cal since now =
    not (nat_beq (cal.located_month since) (cal.month now))
    || not (nat_beq (cal.located_year since) (cal.year now))

-- The reset is made after the report succeeded.
unfoldable pub reset_after : Calendar → Time → NamespaceBudget → Result {0} Unit → NamespaceBudget
reset_after cal now b (ok a) = reset_accumulated cal now b
reset_after cal now b (err e) = b

module _ {F : Float64} (O : Outside F) (r : Reconciler F) where
  unfoldable pub maybe_generate_report : NamespaceBudget → Exec O.World Unit
  maybe_generate_report budget =
      generate O
        (record {
          metrics_client = r.prometheus_client;
          cpu_price_per_core_hour = r.cpu_price_per_core_hour;
          mem_price_per_gib_hour = r.mem_price_per_gib_hour;
        })
        budget

  unfoldable pub since_parsed :
      Time → NamespaceBudget → Option LocatedTime → Exec O.World NamespaceBudget
  unfolding ◌>>=◌ reset_after
  since_parsed now b none = pure b
  since_parsed now b (some since) =
      if other_month O.calendar since now
      then (do
        reported ← attempt (maybe_generate_report b)
        pure (reset_after O.calendar now b reported))
      else pure b

  unfoldable pub month_boundary : Time → NamespaceBudget → Exec O.World NamespaceBudget
  unfolding since_parsed
  month_boundary now b =
      if is_first_day O.calendar now b
      then since_parsed now b (O.calendar.parse_rfc3339 b.status.accumulated.since)
      else pure b
