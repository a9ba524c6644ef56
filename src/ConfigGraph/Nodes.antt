-- ===== src/ConfigGraph/Nodes.antt =====
-- What the first loop of `buildDependencyGraph` leaves: the nodes, and for every coordinate the
-- last configuration that has it.
use dynatrace_configuration.Base.{
  ℕ, suc, ◌≤◌, ◌≡◌, refl, ◌∙◌, inl, inr, Bool, not, ◌&&◌, List, [], ◌∷◌, Option, none, some, In,
  ◌==◌, arith, Bool-cases, if◌then◌else◌,
}
use dynatrace_configuration.Config.Coordinate.{Coordinate, same_coordinate}
use dynatrace_configuration.Config.CoordinateMap.{find, put, find-put, IsKeyed, put-IsKeyed}
use dynatrace_configuration.Config.Model.{Config, references}
use dynatrace_configuration.ConfigGraph.Builder.{ConfigNode, DirectedGraphBuilder}
use dynatrace_configuration.ConfigGraph.Defs.{
  NodeOption, with_options, Build, excluded, new_node, add_config, add_configs,
}

-- The first choice, or else the second.
abbrev pub or_else {ℓ} : {A : Type ℓ} → Option A → Option A → Option A
or_else (some a) o = some a
or_else none o = o

abbrev pub map_some {ℓ κ} : {A : Type ℓ} {B : Type κ} → (A → B) → Option A → Option B
map_some f none = none
map_some f (some a) = some (f a)

-- The options leave a node's id and configuration as they are.
abbrev pub KeepsNode : List NodeOption → Type 0
KeepsNode os =
    (n : ConfigNode)
    → ((with_options os n).node_id ≡ n.node_id) × ((with_options os n).config ≡ n.config)

-- The last configuration of the list, counted from `i`, that is not excluded and has the
-- coordinate.
abbrev pub last_at : (Config → Bool) → ℕ → List Config → Coordinate → Option (ℕ × Config)
last_at left_out i [] x = none
last_at left_out i (c ∷ cs) x =
    or_else (last_at left_out (suc i) cs x)
      (if same_coordinate c.coordinate x && not (left_out c) then some (i, c) else none)

module _ (B : DirectedGraphBuilder) (ignore_skipped : Bool) (node_options : List NodeOption) where
  open B use {directed, node}

  abbrev pub node_at : ℕ → List Config → ℕ → Option ConfigNode
  node_at i [] a = none
  node_at i (c ∷ cs) a = or_else (node_at (suc i) cs a) (
      if (i == a) && not (excluded B ignore_skipped node_options c)
      then some (new_node B ignore_skipped node_options i c)
      else none)

  abbrev last : ℕ → List Config → Coordinate → Option (ℕ × Config)
  last i cs x = last_at (excluded B ignore_skipped node_options) i cs x

  pub record Adds (i : ℕ) (cs : List Config) (s t : Build B) : Type 0 where
    pub nodes : (a : ℕ) → node t.graph a ≡ or_else (node_at i cs a) (node s.graph a)
    pub edges :
        (a b : ℕ) → directed.has_edge_from_to t.graph a b ≡ directed.has_edge_from_to s.graph a b
    pub ids :
        (x : Coordinate)
        → find x t.coordinate_to_node_ids
          ≡ or_else (map_some (λ p. p.0) (last i cs x)) (find x s.coordinate_to_node_ids)
    pub refs :
        (x : Coordinate)
        → find x t.config_references
          ≡ or_else (map_some (λ p. references p.1) (last i cs x)) (find x s.config_references)
    pub keyed : IsKeyed s.config_references → IsKeyed t.config_references

module _ (B : DirectedGraphBuilder) (ignore_skipped : Bool) (node_options : List NodeOption)
    (keeps : KeepsNode node_options) where
  open B use {directed, node, add_node}

  -- No node has an id from `i` on.
  abbrev IsBelow : ℕ → Build B → Type 0
  IsBelow i s = (a : ℕ) → i ≤ a → node s.graph a ≡ none

  abbrev Added : ℕ → List Config → Build B → Option (Build B) → Type 0
  Added i cs s run = (t : Build B) × (run ≡ some t) × Adds B ignore_skipped node_options i cs s t

  add_config_lem :
      (i : ℕ) (c : Config) (s : Build B)
      → IsBelow i s
      → Added i (c ∷ []) s (add_config B ignore_skipped node_options i c s)
  unfolding add_config
  add_config_lem i c s below = elim (Bool-cases (excluded B ignore_skipped node_options c)) [
    | inl out ↦ (
      s,
      ground arith,
      record {
        nodes = λ a. ground arith;
        edges = λ a b. refl;
        ids = λ x. ground arith;
        refs = λ x. ground arith;
        keyed = λ k. k;
      },
    )
    | inr kept ↦
        let n = new_node B ignore_skipped node_options i c in
        let (same_id, same_config) =
          keeps (record { node_id = i; config = c; dot_encoding = "" }) in
        let absent : ¬ In n.node_id (directed.nodes s.graph) = λ m.
          let (old, e) = (B.node_present s.graph n.node_id).0 m in
          let none_there = below n.node_id (omega (arith, same_id)) in cc in
        let (g, run, at_node, at_edge) = B.add_node_fresh s.graph n absent in
        (
          record {
            graph = g;
            coordinate_to_node_ids = put c.coordinate n.node_id s.coordinate_to_node_ids;
            config_references = put c.coordinate (references c) s.config_references;
          },
          ground arith,
          record {
            nodes = λ a. ground (arith, at_node a, same_id);
            edges = at_edge;
            ids = λ x.
                find-put c.coordinate x n.node_id s.coordinate_to_node_ids
                ∙ ground (arith, same_id);
            refs = λ x. find-put c.coordinate x (references c) s.config_references ∙ ground arith;
            keyed = put-IsKeyed c.coordinate (references c) s.config_references;
          },
        )
  ]

  pub add_configs_lem :
      (i : ℕ) (cs : List Config) (s : Build B)
      → IsBelow i s
      → Added i cs s (add_configs B ignore_skipped node_options i cs s)
  unfolding add_configs
  add_configs_lem i [] s below = (
    s,
    refl,
    record {
      nodes = λ a. refl;
      edges = λ a b. refl;
      ids = λ x. refl;
      refs = λ x. refl;
      keyed = λ k. k;
    },
  )
  add_configs_lem i (c ∷ cs) s below =
      let (u, run_u, first) = add_config_lem i c s below in
      let above : IsBelow (suc i) u =
        λ a l. let before = below a (omega (arith, l)) in ground (arith, first.nodes a) in
      let (t, run_t, rest) = add_configs_lem (suc i) cs u above in
      (
        t,
        ground arith,
        record {
          nodes = λ a. ground (arith, rest.nodes a, first.nodes a);
          edges = λ a b. rest.edges a b ∙ first.edges a b;
          ids = λ x. ground (arith, rest.ids x, first.ids x);
          refs = λ x. ground (arith, rest.refs x, first.refs x);
          keyed = λ k. rest.keyed (first.keyed k);
        },
      )
