-- ===== src/Idle/Detector/Decided.antt =====
-- What `DetectIdle` lists, after the check that each workload has a Deployment.
use namespace_cost_governor.Base.{String, ◌<>◌, some, true, List, any, ◌≡◌, ok, All}
use namespace_cost_governor.Base.Dict
use namespace_cost_governor.Base.Dict.{Dict, Distinct}
use namespace_cost_governor.Base.Int.{pos, ◌-ℤ◌}
use namespace_cost_governor.Go.Float.{Float64}
use namespace_cost_governor.Go.Time.{Time, Duration}
use namespace_cost_governor.Api.Kube.{Deployment}
use namespace_cost_governor.Metrics.{Sample}
use namespace_cost_governor.Metrics.Prometheus.{Client, query_range}
use namespace_cost_governor.Idle.{IdleWorkload}
use namespace_cost_governor.Idle.Names.{prom_duration}
use namespace_cost_governor.Idle.Detector.{verify}
use namespace_cost_governor.Idle.Detector.Tallies.{values_of, mean_of}
use namespace_cost_governor.Idle.Detector.Tallies.Decision.{below, named, by_pod, by_deployment}
use namespace_cost_governor.Outside.{Outside}
use namespace_cost_governor.Outside.Laws.{IsLawful, deployment_at}

-- The entry of an idle Deployment: idle since the start of the window.
pub record IsEntry (namespace : String) (start : Time) (x : IdleWorkload) : Type 0 where
  pub namespace_of : x.namespace ≡ namespace
  pub since : x.idle_since ≡ start

module _ {F : Float64} (O : Outside F) (L : IsLawful O) (namespace dep : String)
    (start : Time) where
  -- What the check keeps of a list, in a world.
  record Kept (ws : List IdleWorkload) (w : O.World) : Type 0 where
    xs : List IdleWorkload
    returned : (verify O ws w).0 ≡ ok xs
    entries : All (IsEntry namespace start) xs
    stored :
        any (named dep) xs ≡ true
        → (any (named dep) ws ≡ true)
          × (d : Deployment) × (deployment_at O w namespace dep ≡ some d)
    kept :
        ((v : O.World) → (d : Deployment) × ((O.get_deployment namespace dep v).0 ≡ ok d))
        → any (named dep) ws ≡ true
        → any (named dep) xs ≡ true

-- The range query of the use of CPU in a namespace over a window.
abbrev pub use_query : (F : Float64) → String → Duration → String
use_query F namespace window =
    "avg_over_time(\n            rate(container_cpu_usage_seconds_total{namespace=\""
    <> (namespace
        <> ("\", container!=\"\"}[5m])\n        [" <> (prom_duration F window <> ":1m])")))

module _ {F : Float64} (O : Outside F) (c : Client) (namespace dep : String) (threshold : F.Carrier)
    (window : Duration) (w : O.World) where
  -- The samples of the window that ends now, the mean of each pod, and whether `dep` is listed.
  pub record Decided (xs : List IdleWorkload) : Type 0 where
    pub samples : List (Sample F)
    pub queried :
        (query_range O c
          (use_query F namespace window)
          ((O.now w).0 -ℤ window)
          (O.now w).0
          (pos 60)
          (O.now w).1).0
        ≡ ok samples
    pub averages : Dict F.Carrier
    pub averages_once : Distinct averages
    pub averaged :
        (pod : String) → Dict.lookup pod averages ≡ mean_of F (values_of pod (by_pod samples))
    pub entries : All (IsEntry namespace ((O.now w).0 -ℤ window)) xs
    pub listed :
        any (named dep) xs ≡ true
        → (below F threshold (mean_of F (values_of dep (by_deployment averages))) ≡ true)
          × (d : Deployment) × (deployment_at O w namespace dep ≡ some d)
    pub lists :
        ((v : O.World) → (d : Deployment) × ((O.get_deployment namespace dep v).0 ≡ ok d))
        → below F threshold (mean_of F (values_of dep (by_deployment averages))) ≡ true
        → any (named dep) xs ≡ true
