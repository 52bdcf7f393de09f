-- ===== src/Outside.antt =====
-- The world outside the program: the Kubernetes API behind client.Client, the HTTP client, the
-- clock, the order in which Go ranges over a map, and the third-party functions that are called.
-- Each is an operation of `Outside`; what the code relies on is in Outside/Laws.
pub mod Message
pub mod Stored
pub mod Laws
pub mod Patch
pub mod Frame
pub mod Healthy
pub mod Sorting
pub mod Ranging
pub mod Stale
pub mod Alike
use namespace_cost_governor.Base.{
  ℕ, zero, suc, String, Option, List, Bool, Result, ok, err, conflict, wrap, not_found, true, false,
  Error, Exec,
}
use namespace_cost_governor.Base.Dict.{Dict}
use namespace_cost_governor.Go.Float.{Float64}
use namespace_cost_governor.Go.Time.{Time, Calendar}
use namespace_cost_governor.Api.{NamespaceBudget, CostReport}
use namespace_cost_governor.Api.Kube.{Deployment, LabelSelector}
use namespace_cost_governor.Metrics.{PromResponse}
use namespace_cost_governor.Outside.Message.{SlackMessage}

-- The objects that the API server holds, by namespace and name.
pub record Cluster : Type 0 where
  pub deployments : String → String → Option Deployment
  pub budgets : String → String → Option NamespaceBudget
  pub reports : String → String → Option CostReport

pub record HttpResponse : Type 0 where
  pub status_code : ℕ
  pub body : String

pub record Outside (F : Float64) : Type 1 where
  pub World : Type 0
  -- What the API server holds; the program sees it through the calls alone.
  pub cluster : World → Cluster
  pub calendar : Calendar
  -- `time.Now()`
  pub now : World → Time × World
  -- `c.Get`, `c.List` with `client.InNamespace`, and `c.Patch` of an object against
  -- `client.MergeFrom` of the object before the change, which returns what the server holds then
  pub get_deployment : String → String → Exec World Deployment
  pub list_deployments : String → Exec World (List Deployment)
  pub patch_deployment : Deployment → Deployment → Exec World Deployment
  -- `r.Get`, `r.Update` and `r.Status().Update` of a NamespaceBudget
  pub get_budget : String → String → Exec World NamespaceBudget
  pub update_budget : NamespaceBudget → Exec World NamespaceBudget
  pub update_budget_status : NamespaceBudget → Exec World Unit
  -- the same for a CostReport, and `Create`
  pub get_report : String → String → Exec World CostReport
  pub create_report : CostReport → Exec World CostReport
  pub update_report_status : CostReport → Exec World Unit
  pub list_reports : String → Exec World (List CostReport)
  -- `retry.RetryOnConflict(retry.DefaultBackoff, fn)`
  pub retry_on_conflict : Exec World Unit → Exec World Unit
  -- `metav1.LabelSelectorAsSelector(s)` and `selector.Matches(labels)`; an error is `none`
  pub selector_matches : LabelSelector → Dict String → Option Bool
  -- `url.Parse`, `http.NewRequestWithContext`, `Client.Do` of a GET with query parameters
  pub parse_url : String → Result String
  pub new_request : String → Dict String → Result (String × Dict String)
  pub http_get : String × Dict String → Exec World HttpResponse
  -- `json.NewDecoder(body).Decode`
  pub decode : String → Result (PromResponse F)
  -- `json.Marshal`, and a POST of the text, which returns the status code
  pub marshal : SlackMessage → Result String
  pub new_post : String → String → Result (String × String)
  pub http_post : String × String → Exec World ℕ
  -- `controllerutil.ContainsFinalizer`, `AddFinalizer`, `RemoveFinalizer`
  pub contains_finalizer : NamespaceBudget → String → Bool
  pub add_finalizer : NamespaceBudget → String → NamespaceBudget
  pub remove_finalizer : NamespaceBudget → String → NamespaceBudget
  -- `sort.Slice(s, less)`, with `less` of two elements
  pub sort_slice : (A : Type 0) → (A → A → Bool) → List A → List A
  -- `validation.IsDNS1123Subdomain`: the faults that it finds
  pub dns1123_faults : String → List String
  -- the order of `for k, v := range m`
  pub range : (V : Type 0) → Dict V → Dict V

-- `m` once, and again as long as it answers with a conflict, `n` times more at most.
unfoldable pub runs : {W : Type 0} → ℕ → Exec W Unit → Exec W Unit
runs zero m w = m w
runs (suc n) m w =
    let again = runs n m (m w).1 in
    elim (m w).0 [ ok a ↦ m w | err e ↦ elim e [ conflict ↦ again | _ ↦ m w ] ]

-- `time.Now()` as an action; it does not fail.
abbrev pub clock : {F : Float64} (O : Outside F) → Exec O.World Time
clock O w = (ok (O.now w).0, (O.now w).1)

-- `apierrors.IsNotFound`, which looks through wrapped errors
abbrev pub is_not_found : Error → Bool
is_not_found not_found = true
is_not_found (wrap s e) = is_not_found e
is_not_found _ = false
