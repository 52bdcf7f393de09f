-- ===== src/Examples/Phases.antt =====
-- The theorems on the phase, on the next reconcile and on the samples of an answer.
use namespace_cost_governor.Base.{ℕ, String, List, [], ok, ◌↔◌, leb, true, ◌+◌, ◌≡◌, refl, arith}
use namespace_cost_governor.Base.Dict.{Dict}
use namespace_cost_governor.Base.Keeps.{OnOk}
use namespace_cost_governor.Controller.Phase.{determine_phase}
use namespace_cost_governor.Controller.Phase.Order.{phase_of, count, determine_phase-count}
use namespace_cost_governor.Controller.Reconcile.{reconcile}
use namespace_cost_governor.Controller.Reconcile.Requeued.{Again, reconcile-Again}
use namespace_cost_governor.Metrics.{Sample, Series}
use namespace_cost_governor.Metrics.Prometheus.{do_request}
use namespace_cost_governor.Metrics.Prometheus.Samples.{SaidIn, do_request-samples}
use namespace_cost_governor.Outside.{HttpResponse}
use namespace_cost_governor.Outside.Laws.{In}
use namespace_cost_governor.Examples.Memory.{memory, whole_numbers, answer, queried}
use namespace_cost_governor.Examples.Memory.Lawful.{memory-IsLawful}
use namespace_cost_governor.Examples.Reconciling.{budget, reconciler, with_budget}

leb_trans : (a b c : ℕ) → leb a b ≡ true → leb b c ≡ true → leb a c ≡ true
leb_trans a b c ab bc = ground arith

determine_phase-count_example :
    determine_phase whole_numbers 105
    ≡ phase_of (count (leb 80 105) + count (leb 100 105) + count (leb 120 105))
determine_phase-count_example = determine_phase-count whole_numbers leb_trans refl refl 105

reconcile-Again_example :
    OnOk Again (reconcile memory reconciler "payments" "payments-budget" with_budget).0
reconcile-Again_example =
    reconcile-Again memory memory-IsLawful reconciler "payments" "payments-budget" budget
      with_budget refl refl

abbrev a_query : String × Dict String
a_query = ("http://prometheus/api/v1/query", [])

abbrev answered : HttpResponse
answered = record { status_code = 200; body = "" }

do_request-samples_example :
    (xs : List (Sample whole_numbers)) × (do_request memory
        (record { base_url = "http://prometheus" })
        "/api/v1/query"
        []
        with_budget
      ≡ (ok xs, (memory.http_get a_query with_budget).1))
    × ((s : Sample whole_numbers)
        → In s xs ↔ ((r : Series whole_numbers) × In r queried × SaidIn s r))
do_request-samples_example =
    do_request-samples memory (record { base_url = "http://prometheus" }) "/api/v1/query" []
      "http://prometheus/api/v1/query" a_query answered answer queried with_budget
      (memory.http_get a_query with_budget).1 refl refl refl refl refl refl refl
