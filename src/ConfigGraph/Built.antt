-- ===== src/ConfigGraph/Built.antt =====
-- The graph that `buildDependencyGraph` returns.
use dynatrace_configuration.Base.{
  ℕ, ◌≡◌, sym, ◌∙◌, ap, subst, ◌↔◌, ◌⊎◌, inl, inr, Bool, true, false, String, List, [], Option,
  none, some, In, arith, Bool-cases, Option-cases, get_elem?,
}
use dynatrace_configuration.Config.Coordinate.{Coordinate}
use dynatrace_configuration.Config.CoordinateMap.{find, IsKeyed, in-find}
use dynatrace_configuration.Config.Model.{Config, references}
use dynatrace_configuration.ConfigGraph.Builder.{DirectedGraphBuilder}
use dynatrace_configuration.ConfigGraph.Defs.{NodeOption, configs_of, Build, build_dependency_graph}
use dynatrace_configuration.ConfigGraph.Nodes.{
  KeepsNode, map_some, last_at, node_at, Adds, add_configs_lem,
}
use dynatrace_configuration.ConfigGraph.Last.{IsKept, IsLast, last_at-some, last_at-IsLast}
use dynatrace_configuration.ConfigGraph.Edges.{IsKnown, NeedsAny, add_all_dependencies_lem}
use dynatrace_configuration.Project.{Project}
use dynatrace_configuration.ConfigGraph.Positions.{
  left_out, IsDependencyGraph, node_at-some, node_at_first,
}

module _ (B : DirectedGraphBuilder) (ignore_skipped : Bool) (node_options : List NodeOption)
    (keeps : KeepsNode node_options) where
  open B use {directed, node}

  -- What the first loop has left of the configurations, when it began with nothing.
  record Collected (cs : List Config) (t : Build B) : Type 0 where
    nodes : (a : ℕ) → node t.graph a ≡ node_at B ignore_skipped node_options 0 cs a
    edges : (a b : ℕ) → directed.has_edge_from_to t.graph a b ≡ false
    ids :
        (x : Coordinate)
        → find x t.coordinate_to_node_ids
          ≡ map_some (λ p. p.0) (last_at (left_out B ignore_skipped node_options) 0 cs x)
    refs :
        (x : Coordinate)
        → find x t.config_references
          ≡ map_some (λ p. references p.1) (last_at (left_out B ignore_skipped node_options) 0 cs x)
    keyed : IsKeyed t.config_references

  module _ (cs : List Config) (t : Build B) (collected : Collected cs t) where
    IsLast-of :
        (x : Coordinate) (i : ℕ)
        → find x t.coordinate_to_node_ids ≡ some i
        → (c : Config) × IsLast (left_out B ignore_skipped node_options) cs i c
          × (c.coordinate ≡ x)
          × (last_at (left_out B ignore_skipped node_options) 0 cs x ≡ some (i, c))
    IsLast-of x i e =
        elim (Option-cases (last_at (left_out B ignore_skipped node_options) 0 cs x)) [
          | inl absent ↦ absurd (ground (arith, collected.ids x))
          | inr ((j, c), found) ↦
              let at : j ≡ i = ground (arith, collected.ids x) in
              let there = found ∙ ap (λ k. some (k, c)) at in
              let (m, e', last, same) =
                last_at-some (left_out B ignore_skipped node_options) 0 cs x i c there in
              let level : m ≡ i = omega (arith, e') in
              (
                c,
                subst (λ k. IsLast (left_out B ignore_skipped node_options) cs k c) level last,
                same,
                there,
              )
        ]

    known : IsKnown B t.coordinate_to_node_ids t.graph
    known x i e =
        let (c, (kept, _), same, _) = IsLast-of x i e in
        let (n, at) = node_at_first B ignore_skipped node_options keeps cs i c kept in
        let (m, e', kept') = node_at-some B ignore_skipped node_options keeps 0 cs i n at in
        let level : m ≡ i = omega (arith, e') in
        let it : some n.config ≡ some c = sym kept'.0 ∙ ap (get_elem? cs) level ∙ kept.0 in
        let it' : n.config ≡ c = cc in
        (n, collected.nodes i ∙ at, ap (λ z. z.coordinate) it' ∙ same)

    refs_of :
        (x : Coordinate) (rs : List Coordinate)
        → In (x, rs) t.config_references
        → (i : ℕ) × (c : Config) × (find x t.coordinate_to_node_ids ≡ some i)
          × IsLast (left_out B ignore_skipped node_options) cs i c
          × (c.coordinate ≡ x)
          × (rs ≡ references c)
    refs_of x rs m = elim (Option-cases (last_at (left_out B ignore_skipped node_options) 0 cs x)) [
      | inl absent ↦
          let e = (in-find t.config_references x rs collected.keyed).0 m in
          absurd (ground (arith, collected.refs x))
      | inr ((i, c), found) ↦
          let e = (in-find t.config_references x rs collected.keyed).0 m in
          let at : find x t.coordinate_to_node_ids ≡ some i = ground (arith, collected.ids x) in
          let (d, last, same, there) = IsLast-of x i at in
          let it : Path (Option (ℕ × Config)) (some (i, d)) (some (i, c)) = sym there ∙ found in
          let it' : d ≡ c = ground arith in
          (
            i,
            c,
            at,
            subst (IsLast (left_out B ignore_skipped node_options) cs i) it' last,
            ap (λ z. z.coordinate) (sym it') ∙ same,
            ground (arith, collected.refs x),
          )
    ]

    graph_of :
        (g : directed.Graph)
        → ((i : ℕ) → node g i ≡ node t.graph i)
        → ((a b : ℕ)
            → (directed.has_edge_from_to g a b ≡ true) ↔ (
                (directed.has_edge_from_to t.graph a b ≡ true)
                ⊎ NeedsAny B t.coordinate_to_node_ids t.config_references a b))
        → IsDependencyGraph B ignore_skipped node_options cs g
    graph_of g nodes_g edges_g = record {
      nodes_kept = λ i. (
        (λ m.
            let (n, e) = (B.node_present g i).0 m in
            let (k, e', kept) =
              node_at-some B ignore_skipped node_options keeps 0 cs i n
                (sym (collected.nodes i) ∙ sym (nodes_g i) ∙ e) in
            let level : k ≡ i = omega (arith, e') in
            (
              n.config,
              subst (λ z. IsKept (left_out B ignore_skipped node_options) cs z n.config) level kept,
            )),
        (λ (c, kept).
            let (n, e) = node_at_first B ignore_skipped node_options keeps cs i c kept in
            (B.node_present g i).1 (n, nodes_g i ∙ collected.nodes i ∙ e)),
      );
      carries = λ i n e.
          let (k, e', kept) =
            node_at-some B ignore_skipped node_options keeps 0 cs i n
              (sym (collected.nodes i) ∙ sym (nodes_g i) ∙ e) in
          let level : k ≡ i = omega (arith, e') in
          subst (λ z. IsKept (left_out B ignore_skipped node_options) cs z n.config) level kept;
      edges_needed = λ a b. (
        (λ e. elim ((edges_g a b).0 e) [
          | inl old ↦ absurd (ground (arith, collected.edges a b))
          | inr (x, rs, m, (other, m', (apart, at_a, at_b))) ↦
              let (i, d, at_i, last_d, same_d, e_rs) = refs_of x rs m in
              let (c, last_c, same_c, _) = IsLast-of other a at_a in
              let level : i ≡ b = ground arith in
              (
                c,
                d,
                last_c,
                subst (λ z. IsLast (left_out B ignore_skipped node_options) cs z d) level last_d,
                subst (λ z. In z (references d)) (sym same_c) (subst (In other) e_rs m'),
                (λ same. apart (sym same_d ∙ sym same ∙ same_c)),
              )
        ]),
        (λ (c, d, last_c, last_d, m, apart).
            let at_c = last_at-IsLast (left_out B ignore_skipped node_options) cs a c last_c in
            let at_d = last_at-IsLast (left_out B ignore_skipped node_options) cs b d last_d in
            let there =
              (in-find t.config_references d.coordinate (references d) collected.keyed).1
                (collected.refs d.coordinate ∙ ap (map_some (λ p. references p.1)) at_d) in
            (edges_g a b).1 (
              inr (
                d.coordinate,
                references d,
                there,
                (
                  c.coordinate,
                  m,
                  (
                    (λ same. apart (sym same)),
                    collected.ids c.coordinate ∙ ap (map_some (λ p. p.0)) at_c,
                    collected.ids d.coordinate ∙ ap (map_some (λ p. p.0)) at_d,
                  ),
                ),
              ))),
      );
    }

  module _ (projects : List Project) (environment : String) where
    begin : Build B
    begin = record {
      graph = B.new_directed_graph;
      coordinate_to_node_ids = [];
      config_references = [];
    }

    begin_empty : (i : ℕ) → node begin.graph i ≡ none
    unfolding begin
    begin_empty i = elim (Option-cases (node B.new_directed_graph i)) [
      | inl e ↦ e
      | inr found ↦ absurd (B.nodes-new i ((B.node_present B.new_directed_graph i).1 found))
    ]

    begin_edges : (a b : ℕ) → directed.has_edge_from_to begin.graph a b ≡ false
    unfolding begin
    begin_edges a b = elim (Bool-cases (directed.has_edge_from_to B.new_directed_graph a b)) [
      | inl e ↦ absurd (B.nodes-new a (directed.edge_nodes B.new_directed_graph a b e).0)
      | inr e ↦ e
    ]

    collect :
        (t : Build B)
        → Adds B ignore_skipped node_options 0 (configs_of projects environment) begin t
        → Collected (configs_of projects environment) t
    unfolding begin find IsKeyed
    collect t added = record {
      nodes = λ a. ground (arith, added.nodes a, begin_empty a);
      edges = λ a b. added.edges a b ∙ begin_edges a b;
      ids = λ x. ground (arith, added.ids x);
      refs = λ x. ground (arith, added.refs x);
      keyed = added.keyed tt;
    }

    -- When the options keep a node's id and configuration, `buildDependencyGraph` returns and does
    -- not panic. The nodes are the positions of the environment's configurations that are not
    -- excluded, each node carries the configuration at its position, and there is an edge exactly
    -- from a configuration to one that refers to it and is not at the same coordinate, where each
    -- of the two is the last of its coordinate.
    pub build_dependency_graph_lem :
        (g : directed.Graph) × (build_dependency_graph B ignore_skipped projects environment
            node_options
          ≡ some g)
        × IsDependencyGraph B ignore_skipped node_options (configs_of projects environment) g
    unfolding build_dependency_graph begin
    build_dependency_graph_lem =
        let cs = configs_of projects environment in
        let (t, run_t, added) =
          add_configs_lem B ignore_skipped node_options keeps 0 cs begin (λ a _. begin_empty a) in
        let from_all = collect t added in
        let (g, run_g, nodes_g, edges_g) =
          add_all_dependencies_lem B t.coordinate_to_node_ids t.config_references t.graph
            (known cs t from_all)
            (λ c rs m. let (i, _, at, _, _, _) = refs_of cs t from_all c rs m in (i, at)) in
        (g, ground arith, graph_of cs t from_all g nodes_g edges_g)
