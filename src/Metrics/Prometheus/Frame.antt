-- ===== src/Metrics/Prometheus/Frame.antt =====
-- A query changes no object of the cluster.
use namespace_cost_governor.Base.{String}
use namespace_cost_governor.Base.Dict.{Dict}
use namespace_cost_governor.Base.Int.{ℤ}
use namespace_cost_governor.Base.Keeps.{Keeps, keeps_rules}
use namespace_cost_governor.Go.Float.{Float64}
use namespace_cost_governor.Go.Time.{Time}
use namespace_cost_governor.Metrics.Prometheus.{
  Client, handle_response, do_request, query_range, query_instant,
}
use namespace_cost_governor.Outside.{Outside, HttpResponse, Cluster}
use namespace_cost_governor.Outside.Frame.{IsIn, http_get-IsIn, Reads-of_IsIn}
use namespace_cost_governor.Outside.Laws.{IsLawful, Reads}

module _ {F : Float64} (O : Outside F) (L : IsLawful O) (c : Client) where
  handle_response-IsIn :
      (state : Cluster) (resp : HttpResponse) → Keeps (IsIn O state) (handle_response O c resp)
  unfolding handle_response
  handle_response-IsIn state resp = search keeps_rules

  do_request-IsIn :
      (path : String) (params : Dict String) (state : Cluster)
      → Keeps (IsIn O state) (do_request O c path params)
  unfolding do_request
  do_request-IsIn path params state =
      search (keeps_rules, http_get-IsIn O state L, handle_response-IsIn)

  pub query_range-Reads :
      (query : String) (start end : Time) (step : ℤ)
      → Reads O (query_range O c query start end step)
  unfolding query_range
  query_range-Reads query start end step = Reads-of_IsIn O _ (do_request-IsIn _ _)

  pub query_instant-Reads : (query : String) → Reads O (query_instant O c query)
  unfolding query_instant
  query_instant-Reads query = Reads-of_IsIn O _ (do_request-IsIn _ _)
