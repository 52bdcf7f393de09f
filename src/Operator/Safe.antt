-- ===== src/Operator/Safe.antt =====
-- What the operator's `main` hands to controller-runtime.
use mathlib.Core.Path.{subst}
use namespace_cost_governor.Base.{
  String, Bool, true, false, List, [], ◌∷◌, ◌≡◌, refl, ok, IsErr, ◌>>=◌, ◌⊎◌, inl, inr,
  Result-cases,
}
use namespace_cost_governor.Base.Int.{ℤ}
use namespace_cost_governor.Base.Keeps.{Keeps, Keeps-bind, Keeps-of_result}
use namespace_cost_governor.Go.Float.{Float64}
use namespace_cost_governor.Outside.{Outside}
use namespace_cost_governor.Controller.{Reconciler}
use namespace_cost_governor.Controller.Enforce.{notify_step}
use namespace_cost_governor.Operator.{
  Flags, Runtime, ManagerOptions, WebhookOptions, MetricsOptions, price, new_reconciler, main,
  manager_options, webhook_options, metrics_options, tls_opts,
}

-- What the options of a TLS server leave of its protocols.
abbrev pub protocols : List (List String → List String) → List String → List String
protocols [] next_protos = next_protos
protocols (change ∷ changes) next_protos = protocols changes (change next_protos)

-- Both servers speak HTTP/1.1 alone, whatever their protocols were.
pub record NoHttp2 (o : ManagerOptions) : Type 0 where
  pub of_metrics :
      (ps : List String)
      → protocols (MetricsOptions.metrics_tls_opts (ManagerOptions.metrics o)) ps ≡ "http/1.1" ∷ []
  pub of_webhook :
      (ps : List String)
      → protocols (WebhookOptions.webhook_tls_opts (ManagerOptions.webhook o)) ps ≡ "http/1.1" ∷ []

-- The metrics are served behind authentication wherever they are served by TLS.
pub record Guarded (o : ManagerOptions) : Type 0 where
  pub secure_authenticated :
      MetricsOptions.secure_serving (ManagerOptions.metrics o) ≡ true
      → MetricsOptions.authenticated (ManagerOptions.metrics o) ≡ true

module _ {F : Float64} (O : Outside F) where
  -- The notification step of a reconcile with `r` does nothing, whatever changed.
  abbrev pub Silent : Reconciler F → Type 0
  Silent r =
      (changed : Bool) (namespace phase : String) (percent : ℤ) (names : List String) (w : O.World)
      → notify_step O r changed namespace phase percent names w ≡ (ok tt, w)

  new_reconciler-Silent : (f : Flags) (cpu mem : F.Carrier) → Silent (new_reconciler f cpu mem)
  unfolding new_reconciler notify_step
  new_reconciler-Silent f cpu mem true namespace phase percent names w = refl
  new_reconciler-Silent f cpu mem false namespace phase percent names w = refl

-- `tls_opts` without HTTP/2.
protocols-tls_opts :
    (f : Flags) (ps : List String)
    → f.enable_http2 ≡ false
    → protocols (tls_opts f) ps ≡ "http/1.1" ∷ []
unfolding tls_opts
protocols-tls_opts f ps off = rw (tls_opts, off) refl

-- The calls of `main` that it makes with arguments of its own keep `P`.
pub record Calls {F : Float64} {W : Type 0} (R : Runtime F W) (P : W → Type 0)
    (Options : ManagerOptions → Type 0) (Reconciles : Reconciler F → Type 0) : Type 0 where
  pub new_manager : (o : ManagerOptions) → Options o → Keeps P (R.new_manager o)
  pub add_budget_controller :
      (r : Reconciler F) (mgr : R.Manager) → Reconciles r → Keeps P (R.add_budget_controller r mgr)
  pub add_report_controller : (mgr : R.Manager) → Keeps P (R.add_report_controller mgr)
  pub add_healthz_check : (mgr : R.Manager) → Keeps P (R.add_healthz_check mgr)
  pub add_readyz_check : (mgr : R.Manager) → Keeps P (R.add_readyz_check mgr)
  pub start : (mgr : R.Manager) → Keeps P (R.start mgr)

module _ {F : Float64} (O : Outside F) {W : Type 0} (R : Runtime F W) (P : W → Type 0) where
  main-Keeps :
      (Options : ManagerOptions → Type 0) (Reconciles : Reconciler F → Type 0)
      (getenv : String → String) (f : Flags)
      → Options (manager_options f)
      → ((cpu mem : F.Carrier) → Reconciles (new_reconciler f cpu mem))
      → Calls R P Options Reconciles
      → Keeps P (main R getenv f)
  unfolding main
  main-Keeps Options Reconciles getenv f options reconciles C =
      Keeps-bind _ _ (Keeps-of_result _) (λ cpu. Keeps-bind _ _ (Keeps-of_result _) (λ mem.
        Keeps-bind _ _ (C.new_manager (manager_options f) options) (λ mgr.
          Keeps-bind _ _
            (C.add_budget_controller (new_reconciler f cpu mem) mgr (reconciles cpu mem))
            (λ _. Keeps-bind _ _ (C.add_report_controller mgr) (λ _.
              Keeps-bind _ _ (C.add_healthz_check mgr)
                (λ _. Keeps-bind _ _ (C.add_readyz_check mgr) (λ _. C.start mgr)))))))

  -- Whatever the flags and the environment, the only reconciler of budgets that `main` sets up is
  -- one whose notification step does nothing, also when the phase changed: what every call with
  -- such a reconciler, and every other call of `main`, keeps, `main` keeps.
  pub main-Silent :
      (getenv : String → String) (f : Flags)
      → Calls R P (λ _. Unit) (Silent O)
      → Keeps P (main R getenv f)
  main-Silent getenv f calls =
      main-Keeps (λ _. Unit) (Silent O) getenv f tt (new_reconciler-Silent O f) calls

  -- Unless HTTP/2 is enabled, the only manager that `main` makes is one whose two servers speak
  -- HTTP/1.1 alone, and whose metrics are authenticated if they are served securely.
  pub main-NoHttp2 :
      (getenv : String → String) (f : Flags)
      → f.enable_http2 ≡ false
      → Calls R P (λ o. NoHttp2 o × Guarded o) (λ _. Unit)
      → Keeps P (main R getenv f)
  unfolding manager_options metrics_options webhook_options
  main-NoHttp2 getenv f off calls =
      main-Keeps (λ o. NoHttp2 o × Guarded o) (λ _. Unit) getenv f
        (
          record {
            of_metrics = λ ps. protocols-tls_opts f ps off;
            of_webhook = λ ps. protocols-tls_opts f ps off;
          },
          record { secure_authenticated = λ secure. secure },
        )
        (λ cpu mem. tt) calls

-- A price that is not a number ends `main` with an error before anything is made or started.
pub main-invalid_price :
    {F : Float64} {W : Type 0} (R : Runtime F W) (getenv : String → String) (f : Flags) (w : W)
    → IsErr (price F getenv "CPU_PRICE_PER_CORE_HOUR" "0.048")
      ⊎ IsErr (price F getenv "MEM_PRICE_PER_GIB_HOUR" "0.006")
    → IsErr (main R getenv f w).0 × ((main R getenv f w).1 ≡ w)
unfolding main ◌>>=◌
main-invalid_price {F} R getenv f w invalid =
    elim (Result-cases (price F getenv "CPU_PRICE_PER_CORE_HOUR" "0.048")) [
      | inr (e, no_cpu) ↦ (rw no_cpu tt, rw no_cpu refl)
      | inl (cpu, cpu_is) ↦ elim (Result-cases (price F getenv "MEM_PRICE_PER_GIB_HOUR" "0.006")) [
        | inr (e, no_mem) ↦ (rw (cpu_is, no_mem) tt, rw (cpu_is, no_mem) refl)
        | inl (mem, mem_is) ↦ elim invalid [
          | inl no_cpu ↦ absurd (subst IsErr cpu_is no_cpu)
          | inr no_mem ↦ absurd (subst IsErr mem_is no_mem)
        ]
      ]
    ]
