-- ===== src/Idle/Detector/Frame.antt =====
-- Idle detection changes no object of the cluster.
use namespace_cost_governor.Base.{String, List, [], ◌∷◌, ◌∙◌}
use namespace_cost_governor.Base.Keeps.{
  Keeps, Keeps-bind, Keeps-pure, Keeps-wrapping, Keeps-attempt,
}
use namespace_cost_governor.Go.Float.{Float64}
use namespace_cost_governor.Go.Time.{Duration}
use namespace_cost_governor.Idle.{IdleWorkload}
use namespace_cost_governor.Idle.Detector.{verify, detect_idle}
use namespace_cost_governor.Metrics.Prometheus.{Client}
use namespace_cost_governor.Metrics.Prometheus.Frame.{query_range-Reads}
use namespace_cost_governor.Outside.{Outside, Cluster}
use namespace_cost_governor.Outside.Frame.{IsIn, get_deployment-IsIn, clock-IsIn, Reads-of_IsIn}
use namespace_cost_governor.Outside.Laws.{IsLawful, Reads}

module _ {F : Float64} (O : Outside F) (L : IsLawful O) where
  verify-IsIn : (state : Cluster) (ws : List IdleWorkload) → Keeps (IsIn O state) (verify O ws)
  unfolding verify
  verify-IsIn state [] = Keeps-pure _
  verify-IsIn state (w ∷ ws) =
      let rest = verify-IsIn state ws in
      let get = get_deployment-IsIn O state L w.namespace w.name in
      Keeps-bind _ _ (Keeps-attempt _ get) (λ found. Keeps-bind _ _ rest (λ v. Keeps-pure _))

  -- A detection leaves the cluster as it is.
  pub detect_idle-Reads :
      (c : Client) (namespace : String) (threshold : F.Carrier) (window : Duration)
      → Reads O (detect_idle O c namespace threshold window)
  unfolding detect_idle
  detect_idle-Reads c namespace threshold window = Reads-of_IsIn O _ (λ state.
      Keeps-bind _ _ (clock-IsIn O state L) (λ end.
        Keeps-bind _ _
          (Keeps-wrapping _ _ (record { at = λ w k. query_range-Reads O L c _ _ _ _ w ∙ k }))
          (λ samples. verify-IsIn state _)))
