-- ===== src/Report/Usage/Means.antt =====
-- The averages by Deployment that a report is made of.
use namespace_cost_governor.Base.{String, List, [], ◌∷◌, ◌≡◌, refl}
use namespace_cost_governor.Base.Dict
use namespace_cost_governor.Go.Float.{Float64}
use namespace_cost_governor.Metrics.{Sample}
use namespace_cost_governor.Idle.Names.{pod_to_deployment}
use namespace_cost_governor.Idle.Detector.{Tally, no_tally, count_value}
use namespace_cost_governor.Idle.Detector.Tallies.{values_of, mean_of, tally}
use namespace_cost_governor.Idle.Detector.Tallies.Decision.{lookup-means}
use namespace_cost_governor.Outside.{Outside}
use namespace_cost_governor.Outside.Ranging.{Ranges}
use namespace_cost_governor.Report.Usage.{tally_samples, aggregate_by_deployment}

module _ {F : Float64} where
  -- The values of the samples, under the Deployments of their pods.
  abbrev pub by_deployment_of : List (Sample F) → List (String × F.Carrier)
  by_deployment_of [] = []
  by_deployment_of (s ∷ samples) = (pod_to_deployment s.pod, s.value) ∷ by_deployment_of samples

  tally_samples-tally :
      (samples : List (Sample F)) (t : Tally F)
      → tally_samples samples t ≡ tally F (by_deployment_of samples) t
  unfolding tally_samples tally
  tally_samples-tally [] t = refl
  tally_samples-tally (s ∷ samples) t =
      tally_samples-tally samples (count_value (pod_to_deployment s.pod) s.value t)

-- The average of a Deployment in a report is the sum of the values of all samples of its pods, in
-- their order and from 0, divided by the number of these samples; one without samples has none.
-- This asks that a range over a map gives each entry once.
pub aggregate_by_deployment-mean :
    {F : Float64} (O : Outside F)
    → Ranges O
    → (dep : String) (samples : List (Sample F))
    → Dict.lookup dep (aggregate_by_deployment O samples)
      ≡ mean_of F (values_of dep (by_deployment_of samples))
unfolding aggregate_by_deployment
aggregate_by_deployment-mean O R dep samples =
    rw (tally_samples-tally samples no_tally) (lookup-means O R dep (by_deployment_of samples))
