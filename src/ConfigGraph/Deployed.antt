-- ===== src/ConfigGraph/Deployed.antt =====
-- What a topological order of the dependency graph gives `deployGraph` of pkg/deploy.
use dynatrace_configuration.Base.{
  ℕ, suc, ◌≡◌, sym, subst, ◌↔◌, Bool, String, List, Option, some, In, Distinct, arith, length,
}
use dynatrace_configuration.Config.Model.{Config}
use dynatrace_configuration.ConfigGraph.Builder.{ConfigNode, DirectedGraphBuilder}
use dynatrace_configuration.ConfigGraph.Built.{build_dependency_graph_lem}
use dynatrace_configuration.ConfigGraph.Positions.{left_out}
use dynatrace_configuration.ConfigGraph.Defs.{NodeOption, configs_of, build_dependency_graph}
use dynatrace_configuration.ConfigGraph.Last.{IsKept}
use dynatrace_configuration.ConfigGraph.Nodes.{KeepsNode}
use dynatrace_configuration.Deploy.Deployed.{IsInterleaving, deploy_graph_total}
use dynatrace_configuration.Deploy.Invariant.{reported}
use dynatrace_configuration.Deploy.Loop.{State, deploy_graph}
use dynatrace_configuration.Deploy.Node.{World}
use dynatrace_configuration.Project.{Project}
use dynatrace_configuration.ConfigGraph.Order.{
  IsTopologicalOrder, rank_in, IsTopologicalOrder-IsRanked, IsTopologicalOrder-IsBounded,
}

module _ (B : DirectedGraphBuilder) (ignore_skipped : Bool) (projects : List Project)
    (node_options : List NodeOption) (keeps : KeepsNode node_options) (environment : String) where
  open B use {directed}

  -- When a topological order of the graph that `buildDependencyGraph` returns is known, the
  -- options keep a node's id and configuration, and each round runs its goroutines in some order,
  -- then `deployGraph` on that graph, with fuel for the length of the order and one round more,
  -- returns and has reported every configuration that is not excluded, each once.
  pub deploy_dependency_graph_total :
      (world : World) (config_of : ℕ → Config) (schedule : ℕ → List ℕ → List ℕ)
      → IsInterleaving schedule
      → (g : directed.Graph) (ns : List ConfigNode)
      → build_dependency_graph B ignore_skipped projects environment node_options ≡ some g
      → IsTopologicalOrder B g ns
      → (t : State directed) × (e : Option ℕ) × (deploy_graph directed world config_of schedule
            (length ns)
            (suc (length ns))
            g
          ≡ some (t, e))
        × Distinct (reported t.reports)
        × ((i : ℕ)
            → In i (reported t.reports) ↔ (
                (c : Config) × IsKept
                  (left_out B ignore_skipped node_options)
                  (configs_of projects environment)
                  i
                  c))
  deploy_dependency_graph_total world config_of schedule fair g ns run order =
      let (h, built_h, is_graph) =
        build_dependency_graph_lem B ignore_skipped node_options keeps projects environment in
      let same : h ≡ g = ground arith in
      let (t, e, done, _, once, exactly) =
        deploy_graph_total directed world config_of schedule fair (rank_in B ns) (length ns) g
          (IsTopologicalOrder-IsRanked B g ns order) (IsTopologicalOrder-IsBounded B g ns order)
          (length ns) (omega arith) (suc (length ns)) (omega arith) in
      let kept = is_graph.nodes_kept in
      (
        t,
        e,
        done,
        once,
        (λ i. (
          (λ m. (kept i).0 (subst (λ z. In i (directed.nodes z)) (sym same) ((exactly i).0 m))),
          (λ k. (exactly i).1 (subst (λ z. In i (directed.nodes z)) same ((kept i).1 k))),
        )),
      )
