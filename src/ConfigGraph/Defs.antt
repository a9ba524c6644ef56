-- ===== src/ConfigGraph/Defs.antt =====
-- `buildDependencyGraph`, `New`, `SortConfigs` and `getGraphForEnvironment` of
-- pkg/graph/graph.go.
use dynatrace_configuration.Base.{
  ℕ, suc, String, Bool, true, false, List, [], ◌∷◌, ◌++◌, Option, none, some, ◌&&◌, map, lookup,
  insert,
}
use dynatrace_configuration.Config.Coordinate.{Coordinate, same_coordinate}
use dynatrace_configuration.Config.CoordinateMap.{find, put}
use dynatrace_configuration.Config.Model.{Config, references}
use dynatrace_configuration.Config.Parameter.{Result, ok, err}
use dynatrace_configuration.ConfigGraph.Builder.{ConfigNode, DirectedGraphBuilder}
use dynatrace_configuration.Project.{Project, all_configs}

-- An option changes a node by its pointer.
abbrev pub NodeOption : Type 0
NodeOption = ConfigNode → ConfigNode

abbrev pub with_options : List NodeOption → ConfigNode → ConfigNode
with_options [] n = n
with_options (o ∷ os) n = with_options os (o n)

-- The configurations of the environment, project by project and type by type.
abbrev pub configs_of : List Project → String → List Config
unfolding lookup
configs_of [] environment = []
configs_of (p ∷ ps) environment = elim (lookup environment p.configs) [
  | none ↦ configs_of ps environment
  | some types ↦ all_configs types ++ configs_of ps environment
]

module _ (B : DirectedGraphBuilder) where
  open B use {directed, node, add_node, set_edge, new_directed_graph}

  -- The local variables of `buildDependencyGraph`.
  pub record Build : Type 0 where
    pub graph : directed.Graph
    pub coordinate_to_node_ids : List (Coordinate × ℕ)
    pub config_references : List (Coordinate × List Coordinate)

module _ (B : DirectedGraphBuilder) where
  open B use {directed, node, add_node, set_edge, new_directed_graph}

  module _ (ignore_skipped : Bool) (node_options : List NodeOption) where
    abbrev pub excluded : Config → Bool
    excluded c = c.skip && ignore_skipped

    abbrev pub new_node : ℕ → Config → ConfigNode
    new_node i c = with_options node_options (record { node_id = i; config = c; dot_encoding = "" })

    -- One round of the first loop.
    unfoldable pub add_config : ℕ → Config → Build B → Option (Build B)
    add_config i c s = elim (excluded c) [
      | true ↦ some s
      | false ↦
          let n = new_node i c in
          elim (add_node s.graph n) [
            | none ↦ none
            | some g ↦ some (record {
              graph = g;
              coordinate_to_node_ids = put c.coordinate n.node_id s.coordinate_to_node_ids;
              config_references = put c.coordinate (references c) s.config_references;
            })
          ]
    ]

    unfoldable pub add_configs : ℕ → List Config → Build B → Option (Build B)
    add_configs i [] s = some s
    add_configs i (c ∷ cs) s = elim (add_config i c s) [
      | none ↦ none
      | some s' ↦ add_configs (suc i) cs s'
    ]

  -- The id that a Go map gives: zero for a missing key.
  abbrev id_at : Coordinate → List (Coordinate × ℕ) → ℕ
  id_at c ids = elim (find c ids) [ none ↦ 0 | some i ↦ i ]

  -- One round of the inner loop. A node that is not found is nil, and `SetEdge` panics on it.
  unfoldable pub add_dependency :
      List (Coordinate × ℕ) → Coordinate → Coordinate → directed.Graph → Option directed.Graph
  add_dependency ids c other g = elim (same_coordinate c other) [
    | true ↦ some g
    | false ↦ elim (find other ids) [
      | none ↦ some g
      | some other_node ↦ elim (node g other_node) [
        | none ↦ none
        | some m ↦ elim (node g (id_at c ids)) [ none ↦ none | some n ↦ set_edge g m n ]
      ]
    ]
  ]

  -- The references of a configuration are a set in Go; a repeated one sets the same edge again.
  unfoldable pub add_dependencies :
      List (Coordinate × ℕ) → Coordinate → List Coordinate → directed.Graph → Option directed.Graph
  add_dependencies ids c [] g = some g
  add_dependencies ids c (other ∷ refs) g = elim (add_dependency ids c other g) [
    | none ↦ none
    | some h ↦ add_dependencies ids c refs h
  ]

  unfoldable pub add_all_dependencies :
      List (Coordinate × ℕ)
      → List (Coordinate × List Coordinate)
      → directed.Graph
      → Option directed.Graph
  add_all_dependencies ids [] g = some g
  add_all_dependencies ids ((c, refs) ∷ entries) g = elim (add_dependencies ids c refs g) [
    | none ↦ none
    | some h ↦ add_all_dependencies ids entries h
  ]

  unfoldable pub build_dependency_graph :
      Bool → List Project → String → List NodeOption → Option directed.Graph
  build_dependency_graph ignore_skipped projects environment node_options =
      let start : Build B = record {
        graph = new_directed_graph;
        coordinate_to_node_ids = [];
        config_references = [];
      } in
      elim (add_configs ignore_skipped node_options 0 (configs_of projects environment) start) [
        | none ↦ none
        | some s ↦ add_all_dependencies s.coordinate_to_node_ids s.config_references s.graph
      ]

  -- `ConfigGraphPerEnvironment`; `none` is a panic of gonum.
  unfoldable pub new_graphs :
      Bool
      → List Project
      → List String
      → List NodeOption
      → List (String × directed.Graph)
      → Option (List (String × directed.Graph))
  new_graphs ignore_skipped projects [] node_options graphs = some graphs
  new_graphs ignore_skipped projects (environment ∷ environments) node_options graphs =
      elim (build_dependency_graph ignore_skipped projects environment node_options) [
        | none ↦ none
        | some g ↦
            new_graphs ignore_skipped projects environments node_options
              (insert environment g graphs)
      ]

  unfoldable pub get_graph_for_environment :
      List (String × directed.Graph) → String → Result directed.Graph
  get_graph_for_environment graphs environment = elim (lookup environment graphs) [
    | none ↦ err "no dependency graph exists for environment"
    | some g ↦ ok g
  ]

  -- What `topo.Sort` of gonum returns; the nodes that it finds in cycles are not kept.
  pub data Sorting : Type 0 where
    sorted_nodes : List ConfigNode → Sorting
    unorderable : Sorting

module _ (B : DirectedGraphBuilder) where
  open B use {directed}

  unfoldable pub sort_configs :
      (directed.Graph → Sorting B) → List (String × directed.Graph) → String → Result (List Config)
  sort_configs topo_sort graphs environment =
      elim (get_graph_for_environment B graphs environment) [
        | err e ↦ err e
        | ok g ↦ elim (topo_sort g) [
          | unorderable ↦ err "failed to sort: cyclic dependency"
          | sorted_nodes ns ↦ ok (map (λ n. n.config) ns)
        ]
      ]
