-- ===== src/Operator.antt =====
-- cmd/main.go: the operator's flags, prices, servers and controllers. What controller-runtime does
-- with them is an argument of `main`; the logger and the schemes are not modelled.
pub mod Safe
use namespace_cost_governor.Base.{
  ℕ, String, ◌<>◌, ◌==◌, Bool, true, false, not, List, [], ◌∷◌, ltb, if◌then◌else◌, Result, ok, err,
  failure, Exec, pure, of_result, ◌>>=◌, ◌>>◌,
}
use namespace_cost_governor.Go.Float.{Float64}
use namespace_cost_governor.Metrics.Prometheus.{Client}
use namespace_cost_governor.Controller.{Reconciler}

-- The variables that the command line sets.
pub record Flags : Type 0 where
  pub metrics_addr : String
  pub probe_addr : String
  pub enable_leader_election : Bool
  pub secure_metrics : Bool
  pub webhook_cert_path : String
  pub webhook_cert_name : String
  pub webhook_cert_key : String
  pub metrics_cert_path : String
  pub metrics_cert_name : String
  pub metrics_cert_key : String
  pub prometheus_addr : String
  pub enable_http2 : Bool

abbrev pub default_flags : Flags
default_flags = record {
  metrics_addr = "0";
  probe_addr = ":8081";
  enable_leader_election = false;
  secure_metrics = true;
  webhook_cert_path = "";
  webhook_cert_name = "tls.crt";
  webhook_cert_key = "tls.key";
  metrics_cert_path = "";
  metrics_cert_name = "tls.crt";
  metrics_cert_key = "tls.key";
  prometheus_addr = "http://prometheus:9090";
  enable_http2 = false;
}

-- `os.Getenv` gives "" for a variable that is not set.
unfoldable pub get_env_or_default : (String → String) → String → String → String
get_env_or_default getenv key fallback = if not (getenv key == "") then getenv key else fallback

-- A change of a `tls.Config`, as far as its NextProtos go.
abbrev pub disable_http2 : List String → List String
disable_http2 next_protos = "http/1.1" ∷ []

unfoldable pub tls_opts : Flags → List (List String → List String)
tls_opts f = if not f.enable_http2 then disable_http2 ∷ [] else []

-- The directory and the names of a certificate, as far as they are given.
pub record Certificate : Type 0 where
  pub cert_dir : String
  pub cert_name : String
  pub key_name : String

abbrev pub no_certificate : Certificate
no_certificate = record { cert_dir = ""; cert_name = ""; key_name = "" }

-- `if len(path) > 0`
unfoldable pub certificate : String → String → String → Certificate
certificate path name key =
    if not (path == "")
    then record { cert_dir = path; cert_name = name; key_name = key }
    else no_certificate

pub record WebhookOptions : Type 0 where
  pub webhook_tls_opts : List (List String → List String)
  pub webhook_certificate : Certificate

-- `authenticated` says that FilterProvider is WithAuthenticationAndAuthorization.
pub record MetricsOptions : Type 0 where
  pub bind_address : String
  pub secure_serving : Bool
  pub metrics_tls_opts : List (List String → List String)
  pub authenticated : Bool
  pub metrics_certificate : Certificate

pub record ManagerOptions : Type 0 where
  pub metrics : MetricsOptions
  pub webhook : WebhookOptions
  pub health_probe_bind_address : String
  pub leader_election : Bool
  pub leader_election_id : String

unfoldable pub webhook_options : Flags → WebhookOptions
unfolding tls_opts certificate
webhook_options f = record {
  webhook_tls_opts = tls_opts f;
  webhook_certificate = certificate f.webhook_cert_path f.webhook_cert_name f.webhook_cert_key;
}

unfoldable pub metrics_options : Flags → MetricsOptions
unfolding tls_opts certificate
metrics_options f = record {
  bind_address = f.metrics_addr;
  secure_serving = f.secure_metrics;
  metrics_tls_opts = tls_opts f;
  authenticated = f.secure_metrics;
  metrics_certificate = certificate f.metrics_cert_path f.metrics_cert_name f.metrics_cert_key;
}

unfoldable pub manager_options : Flags → ManagerOptions
unfolding webhook_options metrics_options
manager_options f = record {
  metrics = metrics_options f;
  webhook = webhook_options f;
  health_probe_bind_address = f.probe_addr;
  leader_election = f.enable_leader_election;
  leader_election_id = "1a5211e3.cost.platform.io";
}

-- What `main` calls of controller-runtime.
pub record Runtime (F : Float64) (W : Type 0) : Type 1 where
  pub Manager : Type 0
  -- `webhook.NewServer` with the options of the webhook, and `ctrl.NewManager`
  pub new_manager : ManagerOptions → Exec W Manager
  -- `SetupWithManager` of the two reconcilers
  pub add_budget_controller : Reconciler F → Manager → Exec W (Unit {0})
  pub add_report_controller : Manager → Exec W (Unit {0})
  pub add_healthz_check : Manager → Exec W (Unit {0})
  pub add_readyz_check : Manager → Exec W (Unit {0})
  pub start : Manager → Exec W (Unit {0})

-- The value of `strconv.ParseFloat`, if the error is nil.
parsed : {A : Type 0} → String → A × Bool → Result A
parsed key (value, true) = ok value
parsed key (value, false) = err (failure ("invalid " <> key))

-- The price of an environment variable; one that is not a number ends the program.
unfoldable pub price : (F : Float64) → (String → String) → String → String → Result F.Carrier
unfolding get_env_or_default parsed
price F getenv key fallback = parsed key (F.parse (get_env_or_default getenv key fallback))

module _ {F : Float64} where
  unfoldable pub new_reconciler : Flags → F.Carrier → F.Carrier → Reconciler F
  new_reconciler f cpu_price mem_price = record {
    prometheus_client = record { base_url = f.prometheus_addr };
    slack_webhook_url = "";
    cpu_price_per_core_hour = cpu_price;
    mem_price_per_gib_hour = mem_price;
  }

  -- An error is `os.Exit(1)`.
  unfoldable pub main : {W : Type 0} → Runtime F W → (String → String) → Flags → Exec W (Unit {0})
  unfolding price new_reconciler manager_options
  main R getenv f = do
    cpu_price ← of_result (price F getenv "CPU_PRICE_PER_CORE_HOUR" "0.048")
    mem_price ← of_result (price F getenv "MEM_PRICE_PER_GIB_HOUR" "0.006")
    mgr ← R.new_manager (manager_options f)
    R.add_budget_controller (new_reconciler f cpu_price mem_price) mgr
    R.add_report_controller mgr
    R.add_healthz_check mgr
    R.add_readyz_check mgr
    R.start mgr
