-- ===== src/ConfigGraph/Tests.antt =====
-- The graph of three configurations, and the theorems at it.
use dynatrace_configuration.Base.{
  ℕ, zero, suc, ◌≡◌, refl, sym, ap, ◌∙◌, ◌↔◌, ◌⊎◌, inl, inr, Bool, true, false, String, List, [],
  ◌∷◌, Option, none, some, In, Distinct, arith, lookup, insert, ◌<◌, subst,
}
use dynatrace_configuration.Base.Value.{end}
use dynatrace_configuration.Config.Coordinate.{Coordinate, same_coordinate}
use dynatrace_configuration.Config.CoordinateMap.{find, put}
use dynatrace_configuration.Config.Model.{Config, bucket, references}
use dynatrace_configuration.Config.Parameter.{Parameter, reference, get_references, ok, err}
use dynatrace_configuration.Config.Resolve.{Runtime}
use dynatrace_configuration.ConfigGraph.Builder.{ConfigNode}
use dynatrace_configuration.ConfigGraph.Built.{build_dependency_graph_lem}
use dynatrace_configuration.ConfigGraph.Positions.{left_out, IsNeeded, IsDependencyGraph}
use dynatrace_configuration.ConfigGraph.Defs.{
  configs_of, add_config, add_configs, add_dependency, add_dependencies, add_all_dependencies,
  build_dependency_graph, new_graphs, sort_configs, get_graph_for_environment, Sorting,
  sorted_nodes, unorderable,
}
use dynatrace_configuration.ConfigGraph.Deployed.{deploy_dependency_graph_total}
use dynatrace_configuration.ConfigGraph.Finite.{
  Places, places, places_builder, nodes_in, node_in, linked,
}
use dynatrace_configuration.ConfigGraph.Last.{IsKept}
use dynatrace_configuration.ConfigGraph.Nodes.{KeepsNode}
use dynatrace_configuration.ConfigGraph.Order.{IsTopologicalOrder}
use dynatrace_configuration.ConfigGraph.Sorted.{IsSorted, sort_configs_lem}
use dynatrace_configuration.Deploy.Deployed.{IsInterleaving}
use dynatrace_configuration.Deploy.Invariant.{reported}
use dynatrace_configuration.Deploy.Loop.{State, deploy_graph}
use dynatrace_configuration.Deploy.Node.{World}
use dynatrace_configuration.Project.{Project}

abbrev at_id : String → Coordinate
at_id id = record { project = "p"; type = "bucket"; config_id = id }

abbrev to_id : String → Parameter
to_id id = reference (record { config = at_id id; property = "id" })

abbrev config_with : String → List (String × Parameter) → Bool → Config
config_with id parameters skip = record {
  template = "";
  coordinate = at_id id;
  group = "g";
  environment = "e";
  type = bucket;
  parameters = parameters;
  skip = skip;
  origin_object_id = "";
}

-- It refers to the last configuration, to itself and to one that nobody has.
abbrev child : Config
child =
    config_with "child" (("a", to_id "parent") ∷ ("b", to_id "child") ∷ ("c", to_id "lost") ∷ [])
      false

abbrev parent : Config
parent = config_with "parent" [] false

abbrev skipped : Config
skipped = config_with "skipped" [] true

abbrev projects : List Project
projects =
    record {
      id = "p";
      group_id = "";
      configs = ("e", ("bucket", child ∷ skipped ∷ parent ∷ []) ∷ []) ∷ [];
      dependencies = [];
    }
    ∷ []

no_options-KeepsNode : KeepsNode []
no_options-KeepsNode n = (refl, refl)

program : Unit {0}
unfolding build_dependency_graph add_configs add_config add_all_dependencies add_dependencies
    add_dependency same_coordinate find put references get_references new_graphs sort_configs
    get_graph_for_environment lookup insert
program = tt

made : (g : Places) × (build_dependency_graph places_builder true projects "e" [] ≡ some g)
unfolding program
made = (_, refl)

made_nodes : nodes_in made.0 ≡ 2 ∷ 0 ∷ []
unfolding program made
made_nodes = refl

made_edges :
    (linked made.0 2 0 ≡ true)
    × (linked made.0 0 2 ≡ false)
    × (linked made.0 0 0 ≡ false)
    × (linked made.0 2 2 ≡ false)
unfolding program made
made_edges = (refl, refl, refl, refl)

abbrev node_of : ℕ → Config → ConfigNode
node_of i c = record { node_id = i; config = c; dot_encoding = "" }

abbrev order : List ConfigNode
order = node_of 2 parent ∷ node_of 0 child ∷ []

made_places :
    (node_in made.0 2 ≡ some (node_of 2 parent)) × (node_in made.0 0 ≡ some (node_of 0 child))
unfolding program made
made_places = (refl, refl)

not_linked :
    (x y a b : ℕ) → a ≡ x → b ≡ y → linked made.0 a b ≡ true → linked made.0 x y ≡ false → ⊥
not_linked x y a b ea eb e e' =
    let at_a : linked made.0 a b ≡ linked made.0 x b = ap (λ z. linked made.0 z b) ea in
    let at_b : linked made.0 x b ≡ linked made.0 x y = ap (linked made.0 x) eb in
    let bad : true ≡ false = sym e ∙ at_a ∙ at_b ∙ e' in cc

order-IsTopologicalOrder : IsTopologicalOrder places_builder made.0 order
order-IsTopologicalOrder = record {
  once = ground arith;
  all_nodes = λ i. (subst (In i) (sym made_nodes), subst (In i) made_nodes);
  own_nodes = λ n m. elim m [
    | inl e ↦ subst (λ z. node_in made.0 z.node_id ≡ some z) (sym e) made_places.0
    | inr (inl e) ↦ subst (λ z. node_in made.0 z.node_id ≡ some z) (sym e) made_places.1
    | inr (inr bad) ↦ absurd bad
  ];
  from_first = λ a b e.
      let (in_a, in_b) = places.edge_nodes made.0 a b e in
      by_ends a b e (subst (In a) made_nodes in_a) (subst (In b) made_nodes in_b);
}
  where
    by_ends :
        (a b : ℕ)
        → linked made.0 a b ≡ true
        → In a (2 ∷ 0 ∷ [])
        → In b (2 ∷ 0 ∷ [])
        → ((2 ≡ a) × In b (0 ∷ [])) ⊎ (((0 ≡ a) × In b []) ⊎ ⊥)
    by_ends a b e (inl at_a) (inl at_b) = absurd (not_linked 2 2 a b at_a at_b e made_edges.3)
    by_ends a b e (inl at_a) (inr (inl at_b)) = inl (sym at_a, inl at_b)
    by_ends a b e (inr (inl at_a)) (inl at_b) = absurd (not_linked 0 2 a b at_a at_b e made_edges.1)
    by_ends a b e (inr (inl at_a)) (inr (inl at_b)) =
        absurd (not_linked 0 0 a b at_a at_b e made_edges.2)
    by_ends a b e (inr (inr bad)) n = absurd bad
    by_ends a b e m (inr (inr bad)) = absurd bad

build_dependency_graph_lem_example :
    (g : Places) × (build_dependency_graph places_builder true projects "e" [] ≡ some g)
    × IsDependencyGraph places_builder true [] (child ∷ skipped ∷ parent ∷ []) g
unfolding program
build_dependency_graph_lem_example =
    build_dependency_graph_lem places_builder true [] no_options-KeepsNode projects "e"

-- Without a look at the graph: it is the one of the environment.
abbrev topo_sort : Places → Sorting places_builder
topo_sort g = sorted_nodes order

topo_sort_orders :
    (g : Places) (ns : List ConfigNode)
    → build_dependency_graph places_builder true projects "e" [] ≡ some g
    → topo_sort g ≡ sorted_nodes ns
    → IsTopologicalOrder places_builder g ns
topo_sort_orders g ns run e =
    let same_graph : made.0 ≡ g = cc_some made.0 g made.1 run in
    let same_order : order ≡ ns = ap nodes_of e in
    subst (λ h. IsTopologicalOrder places_builder h ns) same_graph
      (subst (IsTopologicalOrder places_builder made.0) same_order order-IsTopologicalOrder)
  where
    cc_some :
        (a b : Places)
        → build_dependency_graph places_builder true projects "e" [] ≡ some a
        → build_dependency_graph places_builder true projects "e" [] ≡ some b
        → a ≡ b
    cc_some a b ea eb = cc

    nodes_of : Sorting places_builder → List ConfigNode
    nodes_of (sorted_nodes ms) = ms
    nodes_of unorderable = []

topo_sort_refuses :
    (g : Places) (rank : ℕ → ℕ)
    → build_dependency_graph places_builder true projects "e" [] ≡ some g
    → topo_sort g ≡ unorderable
    → ¬ ((a b : ℕ) → linked g a b ≡ true → rank a < rank b)
topo_sort_refuses g rank run e = cc

made_graphs :
    (graphs : List (String × Places)) × (new_graphs places_builder true projects ("e" ∷ []) [] []
      ≡ some graphs)
unfolding program
made_graphs = (_, refl)

sort_configs_lem_example :
    ((out : List Config) × (sort_configs places_builder topo_sort made_graphs.0 "e" ≡ ok out)
      × IsSorted places_builder true [] (child ∷ skipped ∷ parent ∷ []) out)
    ⊎ ((e : String) × (sort_configs places_builder topo_sort made_graphs.0 "e" ≡ err e)
        × ((rank : ℕ → ℕ)
            → ¬ (
                (a b : ℕ)
                → IsNeeded places_builder true [] (child ∷ skipped ∷ parent ∷ []) a b
                → rank a < rank b)))
unfolding program
sort_configs_lem_example =
    sort_configs_lem places_builder true projects [] no_options-KeepsNode topo_sort "e"
      topo_sort_orders topo_sort_refuses ("e" ∷ []) made_graphs.0 made_graphs.1 (inl refl)

abbrev runtime : Runtime
runtime = record {
  lookup_env = λ name. none;
  escape_string = ok;
  execute = λ format values. ok format;
  render_file = λ path values. ok path;
  sprint = λ v. "";
}

abbrev world : World
world = record {
  runtime = runtime;
  render = λ c fs. ok "";
  deployables = λ type.
      some
        (λ call fs t c. ok (record { coordinate = c.coordinate; properties = end; skip = false }));
}

abbrev same_order : ℕ → List ℕ → List ℕ
same_order c rs = rs

same_order-IsInterleaving : IsInterleaving same_order
same_order-IsInterleaving c rs d = (d, λ x. ((λ m. m), (λ m. m)))

abbrev config_of : ℕ → Config
config_of zero = child
config_of (suc zero) = skipped
config_of (suc (suc n)) = parent

deploy_dependency_graph_total_example :
    (t : State places) × (e : Option ℕ) × (deploy_graph places world config_of same_order 2 3 made.0
      ≡ some (t, e))
    × Distinct (reported t.reports)
    × ((i : ℕ)
        → In i (reported t.reports)
          ↔ ((c : Config) × IsKept (left_out places_builder true []) (configs_of projects "e") i c))
deploy_dependency_graph_total_example =
    deploy_dependency_graph_total places_builder true projects [] no_options-KeepsNode "e" world
      config_of same_order same_order-IsInterleaving made.0 order made.1 order-IsTopologicalOrder
