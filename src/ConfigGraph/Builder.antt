-- ===== src/ConfigGraph/Builder.antt =====
-- The operations by which pkg/graph/graph.go builds a gonum graph (graph/simple), as an interface
-- with their documented laws, and the nodes that the graph keeps.
use dynatrace_configuration.Base.{
  ℕ, ◌≡◌, ◌≢◌, ◌↔◌, ◌⊎◌, true, ◌==◌, String, Option, some, In, if◌then◌else◌,
}
use dynatrace_configuration.Config.Model.{Config}
use dynatrace_configuration.Deploy.Graph.{DirectedGraph}

pub record ConfigNode : Type 0 where
  pub node_id : ℕ
  pub config : Config
  pub dot_encoding : String

-- `AddNode` and `SetEdge` return `none` where gonum panics.
pub record DirectedGraphBuilder : Type 1 where
  pub directed : DirectedGraph
  pub new_directed_graph : directed.Graph
  pub node : directed.Graph → ℕ → Option ConfigNode
  pub add_node : directed.Graph → ConfigNode → Option directed.Graph
  pub set_edge : directed.Graph → ConfigNode → ConfigNode → Option directed.Graph
  pub nodes-new : (i : ℕ) → ¬ In i (directed.nodes new_directed_graph)
  pub node_present :
      (g : directed.Graph) (i : ℕ)
      → In i (directed.nodes g) ↔ ((n : ConfigNode) × (node g i ≡ some n))
  pub node_same : (g : directed.Graph) (i : ℕ) (n : ConfigNode) → node g i ≡ some n → n.node_id ≡ i
  -- A node whose id is not in the graph is added.
  pub add_node_fresh :
      (g : directed.Graph) (n : ConfigNode)
      → ¬ In n.node_id (directed.nodes g)
      → (h : directed.Graph) × (add_node g n ≡ some h)
        × ((i : ℕ) → node h i ≡ (if n.node_id == i then some n else node g i))
        × ((a b : ℕ) → directed.has_edge_from_to h a b ≡ directed.has_edge_from_to g a b)
  -- An edge between two nodes of the graph with different ids is set.
  pub set_edge_known :
      (g : directed.Graph) (m n : ConfigNode)
      → node g m.node_id ≡ some m
      → node g n.node_id ≡ some n
      → m.node_id ≢ n.node_id
      → (h : directed.Graph) × (set_edge g m n ≡ some h)
        × ((i : ℕ) → node h i ≡ node g i)
        × ((a b : ℕ)
            → (directed.has_edge_from_to h a b ≡ true)
              ↔ ((directed.has_edge_from_to g a b ≡ true) ⊎ ((a ≡ m.node_id) × (b ≡ n.node_id))))
