-- ===== src/Metrics/Prometheus.antt =====
-- internal/metrics/prometheus.go: the client, and what it makes of an answer.
pub mod Frame
pub mod Samples
use namespace_cost_governor.Base.{
  ℕ, String, ◌<>◌, Bool, Option, none, some, List, [], ◌∷◌, ◌++◌, ◌==◌, nat_beq, not, if◌then◌else◌,
  Result, ok, err, failure, Exec, of_result, pure, throw, wrapping, wrap_err, ◌>>=◌,
}
use namespace_cost_governor.Base.Dict
use namespace_cost_governor.Base.Dict.{Dict}
use namespace_cost_governor.Base.Int.{ℤ, pos}
use namespace_cost_governor.Go.Float.{Float64}
use namespace_cost_governor.Go.Strconv.{format_int}
use namespace_cost_governor.Go.Time.{Time, unix_seconds, unix_time}
use namespace_cost_governor.Metrics.{Sample, Any, number, text, Series, PromResponse}
use namespace_cost_governor.Outside.{Outside, HttpResponse}

pub record Client : Type 0 where
  pub base_url : String

abbrev status_ok : ℕ
status_ok = 200

-- A map read at a missing key gives "".
unfoldable pub or_empty : Option String → String
or_empty none = ""
or_empty (some s) = s

module _ {F : Float64} where
  unfoldable pub to_time : Any F → Option Time
  to_time (number sec) =
      let sec_int = F.to_int sec in
      let nsec = F.to_int (F.mul (F.sub sec (F.of_int sec_int)) (F.of_int (pos 1000000000))) in
      some (unix_time sec_int nsec)
  to_time _ = none

  unfoldable pub to_float64 : Any F → Option F.Carrier
  to_float64 (text s) = let (value, valid) = F.parse s in if valid then some value else none
  to_float64 _ = none

  -- A `[timestamp, value]` pair; a shorter or malformed one is skipped.
  unfoldable pub sample_of : String → List (Any F) → List (Sample F)
  unfolding to_time to_float64
  sample_of pod (t ∷ v ∷ _) = elim (to_time t) [
    | none ↦ []
    | some ts ↦ elim (to_float64 v) [
      | none ↦ []
      | some value ↦ record { pod = pod; time_stamp = ts; value = value } ∷ []
    ]
  ]
  sample_of pod _ = []

  unfoldable pub samples_of_values : String → List (List (Any F)) → List (Sample F)
  samples_of_values pod [] = []
  samples_of_values pod (v ∷ vs) = sample_of pod v ++ samples_of_values pod vs

  -- The loop over `promResp.Data.Result`: the range first, then the instant value.
  unfoldable pub samples_of : List (Series F) → List (Sample F)
  unfolding or_empty samples_of_values sample_of
  samples_of [] = []
  samples_of (r ∷ rs) =
      let pod = or_empty (Dict.lookup "pod" r.metric) in
      samples_of_values pod r.values ++ (sample_of pod r.value ++ samples_of rs)

  -- What follows the decoding of the body.
  unfoldable pub read_response : PromResponse F → Result (List (Sample F))
  unfolding samples_of
  read_response p =
      if not (p.status == "success")
      then err (failure ("prometheus API error: " <> p.error))
      else elim p.payload [ none ↦ ok [] | some result ↦ ok (samples_of result) ]

module _ {F : Float64} (O : Outside F) (c : Client) where
  unfoldable pub handle_response : HttpResponse → Exec O.World (List (Sample F))
  unfolding read_response ◌>>=◌
  handle_response resp =
      if not (nat_beq resp.status_code status_ok)
      then throw (
          failure
            ("unexpected status " <> format_int (pos resp.status_code) <> (": " <> resp.body)))
      else do
        decoded ← of_result (wrap_err "failed to decode response: " (O.decode resp.body))
        of_result (read_response decoded)

  unfoldable pub do_request : String → Dict String → Exec O.World (List (Sample F))
  do_request path params = do
    u ← of_result (wrap_err "invalid URL: " (O.parse_url (c.base_url <> path)))
    req ← of_result (wrap_err "failed to create request: " (O.new_request u params))
    resp ← wrapping "request failed: " (O.http_get req)
    handle_response resp

  unfoldable pub query_range : String → Time → Time → ℤ → Exec O.World (List (Sample F))
  query_range query start end step = do_request "/api/v1/query_range" (
      ("query", query)
      ∷ ("start", format_int (unix_seconds start))
      ∷ ("end", format_int (unix_seconds end))
      ∷ ("step", format_int step)
      ∷ [])

  unfoldable pub query_instant : String → Exec O.World (List (Sample F))
  query_instant query = do_request "/api/v1/query" (("query", query) ∷ [])
