-- ===== src/Examples/Memory.antt =====
-- A world in memory: floats are whole numbers, months have thirty days, and the cluster holds at
-- most one Deployment, one budget and one report. Each Kubernetes call takes one flag from the
-- list `faults`, and fails with no effect if that is true.
pub mod Lawful
pub mod Healthy
pub mod Terminal
use Prim.Native.Nat.{max}
use namespace_cost_governor.Base.{
  ℕ, zero, suc, ◌+◌, ◌-◌, ◌*◌, ◌/◌, ◌%◌, String, ◌<>◌, ◌==◌, ◌&&◌, Bool, true, false, Option, none,
  some, List, [], ◌∷◌, ltb, leb, if◌then◌else◌, Result, ok, err, not_found, conflict, failure, Exec,
}
use namespace_cost_governor.Base.Dict.{Dict}
use namespace_cost_governor.Base.Int.{ℤ, pos, negsuc, pos_part}
use namespace_cost_governor.Go.Float.{Float64}
use namespace_cost_governor.Go.Strconv.{format_nat, parse_int32}
use namespace_cost_governor.Go.Time.{Time, LocatedTime, Calendar}
use namespace_cost_governor.Api.{NamespaceBudget, CostReport, CostReportStatus}
use namespace_cost_governor.Api.Kube.{Deployment, LabelSelector}
use namespace_cost_governor.Metrics.{PromResponse, Series, text, number}
use namespace_cost_governor.Outside.{Outside, Cluster, HttpResponse, runs}
use namespace_cost_governor.Outside.Message.{SlackMessage}

abbrev pub parse_whole : Option ℤ → ℕ × Bool
parse_whole none = (0, false)
parse_whole (some n) = (pos_part n, true)

abbrev pub whole_numbers : Float64
whole_numbers = record {
  Carrier = ℕ;
  add = ◌+◌;
  sub = ◌-◌;
  mul = ◌*◌;
  div = ◌/◌;
  ltb = ltb;
  leb = leb;
  max = max;
  of_int = pos_part;
  to_int = pos;
  parse = λ s. parse_whole (parse_int32 s);
  format = λ k n. format_nat n;
}

abbrev pub day_length : ℕ
day_length = 86400000000000

abbrev pub days : Time → ℕ
days t = pos_part t / day_length

abbrev pub parse_day : Option ℤ → Option LocatedTime
parse_day none = none
parse_day (some n) = some (record { instant = pos (pos_part n * day_length); offset = pos 0 })

abbrev pub thirty_days : Calendar
thirty_days = record {
  year = λ t. days t / 360 + 1;
  month = λ t. days t % 360 / 30 + 1;
  day = λ t. days t % 30 + 1;
  first_of_month = λ y m. pos (((y - 1) * 360 + m * 30 - 30) * day_length);
  add_month = λ t. pos (pos_part t + 30 * day_length);
  format_rfc3339 = λ t. format_nat (days t);
  format_rfc3339_utc = λ t. format_nat (days t);
  parse_rfc3339 = λ s. parse_day (parse_int32 s);
  located_year = λ t. days t.instant / 360 + 1;
  located_month = λ t. days t.instant % 360 / 30 + 1;
  format_month = λ t. format_nat (days t / 360 + 1) <> ("-" <> format_nat (days t % 360 / 30 + 1));
  format_seconds = λ t. format_nat (pos_part t);
  parse_duration = λ s. if s == "30m" then ok (pos 1800000000000) else err (failure "no duration");
}

pub record World : Type 0 where
  pub deployment : Option Deployment
  pub budget : Option NamespaceBudget
  pub report : Option CostReport
  pub time : Time
  pub faults : List Bool
  -- The texts on the terminal.
  pub output : List String

abbrev pub deployment_of : Option Deployment → String → String → Option Deployment
deployment_of none ns n = none
deployment_of (some d) ns n = if d.namespace == ns && d.name == n then some d else none

abbrev pub budget_of : Option NamespaceBudget → String → String → Option NamespaceBudget
budget_of none ns n = none
budget_of (some b) ns n = if b.namespace == ns && b.name == n then some b else none

abbrev pub report_of : Option CostReport → String → String → Option CostReport
report_of none ns n = none
report_of (some r) ns n = if r.namespace == ns && r.name == n then some r else none

abbrev pub fails : List Bool → Bool
fails [] = false
fails (f ∷ fs) = f

abbrev pub later : List Bool → List Bool
later [] = []
later (f ∷ fs) = fs

abbrev pub tick : World → World
tick w = record w { faults = later w.faults }

abbrev pub found {ℓ} : {A : Type ℓ} → Option A → Result A
found none = err not_found
found (some a) = ok a

-- A call with the state as it is, and as it would leave it.
abbrev pub call : {A : Type 0} → World → Result A → World → Result A × World
call w r w' = if fails w.faults then (err (failure "unavailable"), tick w) else (r, tick w')

abbrev pub in_namespace : Option Deployment → String → List Deployment
in_namespace none ns = []
in_namespace (some d) ns = if d.namespace == ns then d ∷ [] else []

abbrev pub reports_in : Option CostReport → String → List CostReport
reports_in none ns = []
reports_in (some r) ns = if r.namespace == ns then r ∷ [] else []

abbrev pub patch : Deployment → Deployment → Exec World Deployment
patch base modified w =
    if modified.namespace == base.namespace && modified.name == base.name
    then elim (deployment_of w.deployment base.namespace base.name) [
      | none ↦ (err not_found, tick w)
      | some d ↦ call w (ok modified) (record w { deployment = some modified })
    ]
    else (err (failure "renamed"), tick w)

abbrev pub with_status_of : NamespaceBudget → NamespaceBudget → NamespaceBudget
with_status_of b stored = record stored { status = b.status }

abbrev pub queried : List (Series whole_numbers)
queried =
    record {
      metric = ("pod", "payments-api-6d4f9b-xkq2p") ∷ [];
      values = [];
      value = number 100 ∷ text "7" ∷ [];
    }
    ∷ []

abbrev pub answer : PromResponse whole_numbers
answer = record { status = "success"; payload = some queried; error = "" }

abbrev pub memory : Outside whole_numbers
memory = record {
  World = World;
  cluster = λ w. record {
    deployments = deployment_of w.deployment;
    budgets = budget_of w.budget;
    reports = report_of w.report;
  };
  calendar = thirty_days;
  now = λ w. (w.time, w);
  get_deployment = λ ns n w. call w (found (deployment_of w.deployment ns n)) w;
  list_deployments = λ ns w. call w (ok (in_namespace w.deployment ns)) w;
  patch_deployment = patch;
  get_budget = λ ns n w. call w (found (budget_of w.budget ns n)) w;
  update_budget = λ b w. call w (ok b) (record w { budget = some b });
  update_budget_status = λ b w. call w (ok tt) (record w { budget = some b });
  get_report = λ ns n w. call w (found (report_of w.report ns n)) w;
  create_report = λ r w. call w (ok r) (record w { report = some r });
  update_report_status = λ r w. call w (ok tt) (record w { report = some r });
  list_reports = λ ns w. call w (ok (reports_in w.report ns)) w;
  retry_on_conflict = λ m. runs 4 m;
  selector_matches = λ s labels. some (s.text == "all");
  parse_url = λ s. ok s;
  new_request = λ u params. ok (u, params);
  http_get = λ r w. call w (ok (record { status_code = 200; body = "" })) w;
  decode = λ s. ok answer;
  marshal = λ m. ok m.text;
  new_post = λ url body. ok (url, body);
  http_post = λ r w. call w (ok 200) w;
  contains_finalizer = λ b f. elim b.finalizers [ [] ↦ false | _ ↦ true ];
  add_finalizer = λ b f. record b { finalizers = f ∷ b.finalizers };
  remove_finalizer = λ b f. record b { finalizers = [] };
  sort_slice = λ A less xs. xs;
  dns1123_faults = λ s. [];
  range = λ V m. m;
}
