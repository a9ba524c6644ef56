-- ===== src/Deploy/Tests.antt =====
-- Deployments of a graph of four nodes, and the theorems at them.
use dynatrace_configuration.Base.{
  ℕ, zero, suc, ◌≡◌, refl, ◌↔◌, inl, inr, Bool, true, false, String, List, [], ◌∷◌, Option, none,
  some, sort_by_key, In, Distinct, ◌==◌, arith, if◌then◌else◌, ◌<◌,
}
use dynatrace_configuration.Base.Value.{Fields, end}
use dynatrace_configuration.Config.Coordinate.{same_coordinate}
use dynatrace_configuration.Config.Parameter.{Result, ok, err}
use dynatrace_configuration.Config.Entities.{ResolvedEntity, EntityMap, put_entity}
use dynatrace_configuration.Config.Model.{Config, bucket, type_id}
use dynatrace_configuration.Config.Resolve.{Runtime, resolve_parameter_values, resolve_values}
use dynatrace_configuration.Config.Sort.{
  get_sorted_parameters, parameters_with_name, dependency_matrix, in_degrees, pick,
}
use dynatrace_configuration.TopologySort.Defs.{
  topology_sort, sort_loop, resolve, collect_errors, get_all_leaves,
}
use dynatrace_configuration.Deploy.Graph.{DirectedGraph, roots}
use dynatrace_configuration.Deploy.Node.{World, deploy_config}
use dynatrace_configuration.Deploy.Loop.{
  Report, status_deployed, status_failed, status_excluded, status_skipped, State, deploy_graph,
  deploy_rounds, deploy_round, deploy_nodes, deploy_node, drop_nodes, remove_children, remove_each,
}
use dynatrace_configuration.Deploy.Removal.{IsRanked}
use dynatrace_configuration.Deploy.Invariant.{reported, with_status, failures, IsCausal, IsBlamed}
use dynatrace_configuration.Deploy.OneNode.{IsBounded}
use dynatrace_configuration.Deploy.Deployed.{
  IsInterleaving, deploy_graph_total, deploy_graph-IsCausal, deploy_graph-IsBlamed,
  deploy_graph_error,
}
use dynatrace_configuration.Deploy.Finite.{finite}

abbrev all_nodes : List ℕ
all_nodes = 0 ∷ 1 ∷ 2 ∷ 3 ∷ []

-- 0 is needed by 1, and 1 by 2; 3 stands alone.
abbrev needed_by : ℕ → ℕ → Bool
needed_by zero (suc zero) = true
needed_by (suc zero) (suc (suc zero)) = true
needed_by _ _ = false

all_nodes-Distinct : Distinct all_nodes
all_nodes-Distinct = ground arith

needed_by-inside : (a b : ℕ) → needed_by a b ≡ true → In a all_nodes × In b all_nodes
needed_by-inside zero zero e = cc
needed_by-inside zero (suc zero) e = (inl refl, inr (inl refl))
needed_by-inside zero (suc (suc b)) e = cc
needed_by-inside (suc zero) zero e = cc
needed_by-inside (suc zero) (suc zero) e = cc
needed_by-inside (suc zero) (suc (suc zero)) e = (inr (inl refl), inr (inr (inl refl)))
needed_by-inside (suc zero) (suc (suc (suc b))) e = cc
needed_by-inside (suc (suc a)) b e = cc

abbrev graph : DirectedGraph
graph = finite all_nodes all_nodes-Distinct needed_by needed_by-inside

abbrev runtime : Runtime
runtime = record {
  lookup_env = λ name. none;
  escape_string = ok;
  execute = λ format values. ok format;
  render_file = λ path values. ok path;
  sprint = λ v. "";
}

abbrev config_of : ℕ → Config
config_of n = record {
  template = "";
  coordinate = record { project = "p"; type = "bucket"; config_id = if n == 1 then "b" else "a" };
  group = "g";
  environment = "e";
  type = bucket;
  parameters = [];
  skip = n == 3;
  origin_object_id = "";
}

-- The second call of the API, which is for node 1, fails.
abbrev answer : ℕ → Fields → String → Config → Result ResolvedEntity
answer zero fs t c = ok (record { coordinate = c.coordinate; properties = end; skip = false })
answer (suc call) fs t c = err "the API refuses"

abbrev world : World
world = record { runtime = runtime; render = λ c fs. ok ""; deployables = λ type. some answer }

abbrev same_order : ℕ → List ℕ → List ℕ
same_order c rs = rs

same_order-IsInterleaving : IsInterleaving same_order
same_order-IsInterleaving c rs d = (d, λ x. ((λ m. m), (λ m. m)))

abbrev everything : ℕ → Bool
everything n = true

abbrev depth : ℕ → ℕ
depth (suc zero) = 1
depth (suc (suc zero)) = 2
depth _ = 0

depth_bound : (n : ℕ) → depth n < 3
depth_bound zero = omega arith
depth_bound (suc zero) = omega arith
depth_bound (suc (suc zero)) = omega arith
depth_bound (suc (suc (suc n))) = omega arith

depth_rises : (a b : ℕ) → needed_by a b ≡ true → depth a < depth b
depth_rises zero zero e = cc
depth_rises zero (suc zero) e = omega arith
depth_rises zero (suc (suc b)) e = cc
depth_rises (suc zero) zero e = cc
depth_rises (suc zero) (suc zero) e = cc
depth_rises (suc zero) (suc (suc zero)) e = omega arith
depth_rises (suc zero) (suc (suc (suc b))) e = cc
depth_rises (suc (suc a)) b e = cc

graph-IsRanked : IsRanked graph depth 3 everything
graph-IsRanked a b e = (depth_rises a b (ground arith), depth_bound b)

graph-IsBounded : IsBounded graph depth 3 everything
graph-IsBounded x m = depth_bound x

abbrev final_reports : List Report
final_reports =
    with_status 0 status_deployed
    ∷ with_status 3 status_excluded
    ∷ with_status 2 status_skipped
    ∷ with_status 1 status_failed
    ∷ []

abbrev ran : Option (State graph × Option ℕ)
ran = deploy_graph graph world config_of same_order 3 4 everything

program : Unit {0}
unfolding deploy_graph deploy_rounds deploy_round deploy_nodes deploy_node deploy_config drop_nodes
    roots remove_children remove_each type_id put_entity resolve_parameter_values resolve_values
    get_sorted_parameters parameters_with_name dependency_matrix in_degrees pick sort_by_key
    topology_sort sort_loop resolve collect_errors get_all_leaves same_coordinate
program = tt

deploy_graph_total_example :
    (t : State graph) × (e : Option ℕ) × (ran ≡ some (t, e))
    × (graph.nodes t.graph ≡ [])
    × Distinct (reported t.reports)
    × ((x : ℕ) → In x (reported t.reports) ↔ In x all_nodes)
deploy_graph_total_example =
    deploy_graph_total graph world config_of same_order same_order-IsInterleaving depth 3 everything
      graph-IsRanked graph-IsBounded 3 (omega arith) 4 (omega arith)

ran_to :
    (g : graph.Graph) × (es : EntityMap) × (c : ℕ) × (ran
      ≡ some (
        record { graph = g; entities = es; reports = final_reports; calls = c; err_count = 1 },
        some 1,
      ))
unfolding program
ran_to = (_, _, _, refl)

abbrev one_error : Option ℕ
one_error = some 1

abbrev final : State graph
final = record {
  graph = ran_to.0;
  entities = ran_to.1;
  reports = final_reports;
  calls = ran_to.2;
  err_count = 1;
}

deploy_graph-IsCausal_example : IsCausal graph everything [] final_reports
deploy_graph-IsCausal_example =
    deploy_graph-IsCausal graph world config_of same_order same_order-IsInterleaving depth 3
      everything graph-IsRanked graph-IsBounded 3 (omega arith) 4 (omega arith) final (some 1)
      ran_to.3

deploy_graph-IsBlamed_example : IsBlamed graph everything final_reports
deploy_graph-IsBlamed_example =
    deploy_graph-IsBlamed graph world config_of same_order same_order-IsInterleaving depth 3
      everything graph-IsRanked graph-IsBounded 3 (omega arith) 4 (omega arith) final (some 1)
      ran_to.3

deploy_graph_error_example :
    ((one_error ≡ none) ↔ (failures final_reports ≡ 0))
    × ((k : ℕ) → one_error ≡ some k → k ≡ failures final_reports)
deploy_graph_error_example =
    deploy_graph_error graph world config_of same_order same_order-IsInterleaving depth 3 everything
      graph-IsRanked graph-IsBounded 3 (omega arith) 4 (omega arith) final (some 1) ran_to.3
