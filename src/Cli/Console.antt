-- ===== src/Cli/Console.antt =====
-- What the commands of kubectl-budget take from the world beside the cluster: the configuration of
-- the client, and the terminal. cmd/kubectl-budget/client.go
pub mod Shown
pub mod Apart
use namespace_cost_governor.Base.{
  String, ◌<>◌, List, [], ◌∷◌, Result, ok, err, Error, Exec, pure, of_result, wrapping, attempt,
  ◌>>=◌, ◌>>◌,
}

pub record Console (W : Type 0) : Type 1 where
  pub Config : Type 0
  -- `rest.InClusterConfig()`, and the deferred loading of the kubeconfig
  pub in_cluster_config : Exec W Config
  pub kubeconfig : Exec W Config
  -- `client.New(config, client.Options{Scheme: scheme})`; the client is the argument `O`
  pub new_client : Config → Result (Unit {0})
  -- `fmt.Sprintf("%v", err)`
  pub error_text : Error → String
  -- `fmt.Print(s)`
  pub print : String → W → W
  -- `tabwriter.NewWriter(os.Stdout, 0, 0, 3, ' ', 0)`, `fmt.Fprint(w, s)` and `w.Flush()`; the
  -- writer is passed on as each call leaves it
  pub Writer : Type 0
  pub new_writer : Writer
  pub fprint : Writer → String → Exec W Writer
  pub flush : Writer → Exec W (Unit {0})

module _ {W : Type 0} (S : Console W) where
  -- Inside a pod first, and the rules of kubectl otherwise.
  or_kubeconfig : Result S.Config → Exec W S.Config
  or_kubeconfig (ok config) = pure config
  or_kubeconfig (err e) = S.kubeconfig

  unfoldable pub load_config : Exec W S.Config
  unfolding or_kubeconfig
  load_config = do inside ← attempt S.in_cluster_config; or_kubeconfig inside

  unfoldable pub build_client : Exec W (Unit {0})
  unfolding load_config
  build_client = do config ← load_config; of_result (S.new_client config)

  -- A text on the terminal; the error is not read.
  abbrev pub say : String → Exec W (Unit {0})
  say s w = (ok tt, S.print s w)

  -- One row of a table after the other. `fault` is the text of the error.
  unfoldable pub write_rows :
      {A : Type 0} → String → (A → String) → List A → S.Writer → Exec W S.Writer
  unfolding ◌>>=◌
  write_rows fault row [] t = pure t
  write_rows fault row (x ∷ xs) t = do
    t1 ← wrapping fault (S.fprint t (row x))
    write_rows fault row xs t1

  -- A table with a head, on a writer of its own.
  unfoldable pub table :
      {A : Type 0} → String → String → String → (A → String) → List A → String → Exec W (Unit {0})
  unfolding write_rows
  table head_fault head row_fault row xs flush_fault = do
    t ← wrapping head_fault (S.fprint S.new_writer head)
    t1 ← write_rows row_fault row xs t
    wrapping flush_fault (S.flush t1)
