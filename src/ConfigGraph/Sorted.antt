-- ===== src/ConfigGraph/Sorted.antt =====
-- What `SortConfigs` returns.
use dynatrace_configuration.Base.{
  ℕ, ◌<◌, ◌≡◌, refl, sym, ◌∙◌, ap, ◌↔◌, ◌⊎◌, inl, inr, Bool, true, String, List, [], ◌∷◌, Option,
  some, map, In, Distinct, arith, get_elem?, lookup, insert, lookup-insert, str_eq, eq_iff,
  Bool-cases,
}
use dynatrace_configuration.Config.Model.{Config}
use dynatrace_configuration.Config.Parameter.{ok, err}
use dynatrace_configuration.ConfigGraph.Builder.{ConfigNode, DirectedGraphBuilder}
use dynatrace_configuration.ConfigGraph.Built.{build_dependency_graph_lem}
use dynatrace_configuration.ConfigGraph.Positions.{left_out, IsNeeded, IsDependencyGraph}
use dynatrace_configuration.ConfigGraph.Defs.{
  NodeOption, configs_of, build_dependency_graph, get_graph_for_environment, Sorting, sorted_nodes,
  unorderable, sort_configs, new_graphs,
}
use dynatrace_configuration.ConfigGraph.Last.{IsKept}
use dynatrace_configuration.ConfigGraph.Nodes.{KeepsNode}
use dynatrace_configuration.Project.{Project}
use dynatrace_configuration.ConfigGraph.Order.{Before, ids, IsTopologicalOrder}

Sorting-cases :
    (B : DirectedGraphBuilder) (r : Sorting B)
    → ((ns : List ConfigNode) × (r ≡ sorted_nodes ns)) ⊎ (r ≡ unorderable)
Sorting-cases B (sorted_nodes ns) = inl (ns, refl)
Sorting-cases B unorderable = inr refl

module _ (B : DirectedGraphBuilder) (ignore_skipped : Bool) (node_options : List NodeOption) where
  -- Every configuration that is kept stands in the result once, after those that it needs.
  pub record IsSorted (cs out : List Config) : Type 0 where
    pub positions : List ℕ
    pub at_positions : map some out ≡ map (get_elem? cs) positions
    pub once : Distinct positions
    pub all_kept :
        (i : ℕ)
        → In i positions ↔ ((c : Config) × IsKept (left_out B ignore_skipped node_options) cs i c)
    pub needed_first :
        (a b : ℕ) → IsNeeded B ignore_skipped node_options cs a b → Before a b positions

module _ (B : DirectedGraphBuilder) (ignore_skipped : Bool) (projects : List Project)
    (node_options : List NodeOption) (keeps : KeepsNode node_options) where
  open B use {directed, node}

  -- `New` holds the graph of every environment that it was asked for.
  new_graphs_lem :
      (environments : List String) (before after : List (String × directed.Graph))
      → new_graphs B ignore_skipped projects environments node_options before ≡ some after
      → (environment : String)
      → (In environment environments
          ⊎ (lookup environment before
              ≡ build_dependency_graph B ignore_skipped projects environment node_options))
      → lookup environment after
        ≡ build_dependency_graph B ignore_skipped projects environment node_options
  unfolding new_graphs
  new_graphs_lem [] before after run environment (inl m) = absurd m
  new_graphs_lem [] before after run environment (inr e) = ground arith
  new_graphs_lem (x ∷ xs) before after run environment known =
      let (g, built, _) =
        build_dependency_graph_lem B ignore_skipped node_options keeps projects x in
      let build : String → Option directed.Graph =
        λ e. build_dependency_graph B ignore_skipped projects e node_options in
      let inserted = lookup-insert x environment g before in
      let here : x ≡ environment → lookup environment (insert x g before) ≡ build environment =
        λ same.
          let t = (eq_iff x environment).1 same in
          let as_built : build environment ≡ some g = ap build (sym same) ∙ built in ground arith in
      new_graphs_lem xs (insert x g before) after (ground arith) environment (elim known [
        | inl (inr m) ↦ inl m
        | inl (inl same) ↦ inr (here (sym same))
        | inr e ↦ inr (elim (Bool-cases (str_eq x environment)) [
          | inl same ↦ here ((eq_iff x environment).0 same)
          | inr other ↦ ground arith
        ])
      ])

  module _ (topo_sort : directed.Graph → Sorting B) (environment : String)
      (sorts : (g : directed.Graph) (ns : List ConfigNode)
        → build_dependency_graph B ignore_skipped projects environment node_options ≡ some g
        → topo_sort g ≡ sorted_nodes ns
        → IsTopologicalOrder B g ns)
      (refuses : (g : directed.Graph) (rank : ℕ → ℕ)
        → build_dependency_graph B ignore_skipped projects environment node_options ≡ some g
        → topo_sort g ≡ unorderable
        → ¬ ((a b : ℕ) → directed.has_edge_from_to g a b ≡ true → rank a < rank b)) where
    configs_at :
        (cs : List Config) (g : directed.Graph) (ns : List ConfigNode)
        → IsDependencyGraph B ignore_skipped node_options cs g
        → ((n : ConfigNode) → In n ns → node g n.node_id ≡ some n)
        → map some (map (λ n. n.config) ns) ≡ map (get_elem? cs) (ids B ns)
    configs_at cs g [] built own = refl
    configs_at cs g (n ∷ ns) built own =
        let (at, _) = built.carries n.node_id n (own n (inl refl)) in
        let rest = configs_at cs g ns built (λ m i. own m (inr i)) in cc

    IsSorted-of :
        (cs : List Config) (g : directed.Graph) (ns : List ConfigNode)
        → IsDependencyGraph B ignore_skipped node_options cs g
        → IsTopologicalOrder B g ns
        → IsSorted B ignore_skipped node_options cs (map (λ n. n.config) ns)
    IsSorted-of cs g ns built order = record {
      positions = ids B ns;
      at_positions = configs_at cs g ns built order.own_nodes;
      once = order.once;
      all_kept = λ i. (
        (λ m. (built.nodes_kept i).0 ((order.all_nodes i).0 m)),
        (λ k. (order.all_nodes i).1 ((built.nodes_kept i).1 k)),
      );
      needed_first = λ a b needs. order.from_first a b ((built.edges_needed a b).1 needs);
    }

    -- When `topo.Sort` keeps to its documentation on the environment's graph and the options keep
    -- a node's id and configuration, `SortConfigs` on the graphs of `New` answers for every
    -- environment that they were built for: either with every configuration that is not excluded, each once and after
    -- those that it needs, or with an error, and then the configurations need one another in a
    -- cycle, so that no rank rises along their needs.
    pub sort_configs_lem :
        (environments : List String) (graphs : List (String × directed.Graph))
        → new_graphs B ignore_skipped projects environments node_options [] ≡ some graphs
        → In environment environments
        → ((out : List Config) × (sort_configs B topo_sort graphs environment ≡ ok out)
            × IsSorted B ignore_skipped node_options (configs_of projects environment) out)
          ⊎ ((e : String) × (sort_configs B topo_sort graphs environment ≡ err e)
              × ((rank : ℕ → ℕ)
                  → ¬ (
                      (a b : ℕ)
                      → IsNeeded B ignore_skipped node_options (configs_of projects environment) a b
                      → rank a < rank b)))
    unfolding sort_configs get_graph_for_environment
    sort_configs_lem environments graphs run m =
        let (g, run_g, built) =
          build_dependency_graph_lem B ignore_skipped node_options keeps projects environment in
        let held = new_graphs_lem environments [] graphs run environment (inl m) ∙ run_g in
        elim (Sorting-cases B (topo_sort g)) [
          | inl (ns, sorted) ↦ inl (
            map (λ n. n.config) ns,
            ground arith,
            IsSorted-of (configs_of projects environment) g ns built (sorts g ns run_g sorted),
          )
          | inr cyclic ↦ inr (
            "failed to sort: cyclic dependency",
            ground arith,
            (λ rank rises.
                refuses g rank run_g cyclic (λ a b e. rises a b ((built.edges_needed a b).0 e))),
          )
        ]
