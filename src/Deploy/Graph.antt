-- ===== src/Deploy/Graph.antt =====
-- The directed graph that pkg/deploy and pkg/graph take from gonum (graph/simple), as an interface
-- of its operations and their documented laws, and `Roots` of pkg/graph/graph.go.
use dynatrace_configuration.Base.{
  ℕ, ◌≡◌, ◌≢◌, ◌↔◌, Bool, true, false, List, [], ◌∷◌, In, Distinct, if◌then◌else◌,
}

-- `nodes` and `from` list the ids in the order of one iteration.
pub record DirectedGraph : Type 1 where
  pub Graph : Type 0
  pub nodes : Graph → List ℕ
  pub has_edge_from_to : Graph → ℕ → ℕ → Bool
  pub from : Graph → ℕ → List ℕ
  pub to : Graph → ℕ → List ℕ
  pub remove_node : Graph → ℕ → Graph
  pub nodes_distinct : (g : Graph) → Distinct (nodes g)
  pub in-from : (g : Graph) (a b : ℕ) → In b (from g a) ↔ (has_edge_from_to g a b ≡ true)
  pub in-to : (g : Graph) (a b : ℕ) → In a (to g b) ↔ (has_edge_from_to g a b ≡ true)
  pub edge_nodes :
      (g : Graph) (a b : ℕ) → has_edge_from_to g a b ≡ true → In a (nodes g) × In b (nodes g)
  pub nodes-remove_node :
      (g : Graph) (i a : ℕ) → In a (nodes (remove_node g i)) ↔ (In a (nodes g) × (a ≢ i))
  pub edge-remove_node :
      (g : Graph) (i a b : ℕ)
      → (has_edge_from_to (remove_node g i) a b ≡ true)
        ↔ ((has_edge_from_to g a b ≡ true) × (a ≢ i) × (b ≢ i))

abbrev pub is_empty {ℓ} : {A : Type ℓ} → List A → Bool
is_empty [] = true
is_empty (x ∷ xs) = false

module _ (D : DirectedGraph) where
  open D use {Graph, nodes, to}

  abbrev pub roots_among : Graph → List ℕ → List ℕ
  roots_among g [] = []
  roots_among g (n ∷ ns) =
      let rest = roots_among g ns in if is_empty (to g n) then n ∷ rest else rest

  -- The nodes without incoming edges.
  unfoldable pub roots : Graph → List ℕ
  roots g = roots_among g (nodes g)
