-- ===== src/Cli/Console/Apart.antt =====
-- The terminal and the configuration of the client are apart from the cluster.
use namespace_cost_governor.Base.{String, ◌∙◌, Result, ok, err, Exec}
use namespace_cost_governor.Base.Keeps.{
  Keeps, Keeps-bind, Keeps-pure, Keeps-attempt, Keeps-of_result,
}
use namespace_cost_governor.Go.Float.{Float64}
use namespace_cost_governor.Outside.{Outside, Cluster}
use namespace_cost_governor.Outside.Frame.{IsIn, Reads-of_IsIn}
use namespace_cost_governor.Outside.Laws.{Reads}
use namespace_cost_governor.Cli.Console.{Console, say, build_client, load_config, or_kubeconfig}

pub record IsApart {F : Float64} (O : Outside F) (S : Console O.World) : Type 0 where
  pub say-reads : (s : String) → Reads O (say S s)
  pub in_cluster_config-reads : Reads O S.in_cluster_config
  pub kubeconfig-reads : Reads O S.kubeconfig

module _ {F : Float64} (O : Outside F) (S : Console O.World) (A : IsApart O S) where
  reading : {B : Type 0} (state : Cluster) (m : Exec O.World B) → Reads O m → Keeps (IsIn O state) m
  reading state m reads = record { at = λ w k. reads w ∙ k }

  configured :
      (state : Cluster) (inside : Result S.Config) → Keeps (IsIn O state) (or_kubeconfig S inside)
  unfolding or_kubeconfig
  configured state (ok config) = Keeps-pure config
  configured state (err e) = reading state S.kubeconfig A.kubeconfig-reads

  -- Building the client leaves the cluster as it is.
  pub build_client-Reads : Reads O (build_client S)
  unfolding build_client load_config
  build_client-Reads = Reads-of_IsIn O _ (λ state.
      Keeps-bind _ _
        (Keeps-bind _ _
          (Keeps-attempt _ (reading state S.in_cluster_config A.in_cluster_config-reads))
          (configured state))
        (λ config. Keeps-of_result (S.new_client config)))
