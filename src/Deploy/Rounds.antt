-- ===== src/Deploy/Rounds.antt =====
-- A round of `deployGraph` handles the roots of the graph and drops them.
use dynatrace_configuration.Base.{
  ℕ, ◌≡◌, refl, sym, ◌∙◌, subst, ◌↔◌, inl, inr, Bool, true, false, List, [], ◌∷◌, In, Distinct,
  if◌then◌else◌,
}
use dynatrace_configuration.Config.Model.{Config}
use dynatrace_configuration.Deploy.Graph.{DirectedGraph, roots, roots_among, is_empty}
use dynatrace_configuration.Deploy.Node.{World}
use dynatrace_configuration.Deploy.Loop.{State, drop_node, drop_nodes}
use dynatrace_configuration.Deploy.Removal.{Edge}
use dynatrace_configuration.Deploy.OneNode.{IsRoot}

module _ (D : DirectedGraph) where
  open D use {Graph, nodes, to, in-to}

  in-empty : (x : ℕ) (xs : List ℕ) → is_empty xs ≡ true → ¬ In x xs
  in-empty x [] e m = m
  in-empty x (y ∷ ys) e m = cc

  in-roots_among :
      (g : Graph) (x : ℕ) (ns : List ℕ)
      → In x (roots_among D g ns) ↔ (In x ns × (is_empty (to g x) ≡ true))
  in-roots_among g x [] = ((λ m. absurd m), (λ (m, e). m))
  in-roots_among g x (n ∷ ns) = by_test (is_empty (to g n)) refl (in-roots_among g x ns)
    where
      by_test :
          (b : Bool)
          → is_empty (to g n) ≡ b
          → In x (roots_among D g ns) ↔ (In x ns × (is_empty (to g x) ≡ true))
          → In x (if b then n ∷ roots_among D g ns else roots_among D g ns)
            ↔ ((In x (n ∷ ns)) × (is_empty (to g x) ≡ true))
      by_test true t h = (
        (λ m. elim m [
          | inl same ↦ (inl same, subst (λ y. is_empty (to g y) ≡ true) (sym same) t)
          | inr m' ↦ let (a, b) = h.0 m' in (inr a, b)
        ]),
        (λ (m, e). elim m [ inl same ↦ inl same | inr m' ↦ inr (h.1 (m', e)) ]),
      )
      by_test false t h = (
        (λ m. let (a, b) = h.0 m in (inr a, b)),
        (λ (m, e). elim m [
          | inl same ↦
              let bad : false ≡ true = sym t ∙ subst (λ y. is_empty (to g y) ≡ true) same e in cc
          | inr m' ↦ h.1 (m', e)
        ]),
      )

  pub in-roots :
      (s : State D) (x : ℕ) → In x (roots D s.graph) ↔ (In x (nodes s.graph) × IsRoot D s x)
  unfolding roots
  in-roots s x = (
    (λ m.
        let (a, e) = (in-roots_among s.graph x (nodes s.graph)).0 m in
        (a, λ p edge. in-empty p (to s.graph x) e ((in-to s.graph p x).1 edge))),
    (λ (m, root).
        (in-roots_among s.graph x (nodes s.graph)).1
          (m, none_of (to s.graph x) (λ p k. root p ((in-to s.graph p x).0 k)))),
  )
    where
      none_of : (ps : List ℕ) → ((p : ℕ) → ¬ In p ps) → is_empty ps ≡ true
      none_of [] h = refl
      none_of (p ∷ ps) h = absurd (h p (inl refl))

  roots_among-Distinct : (g : Graph) (ns : List ℕ) → Distinct ns → Distinct (roots_among D g ns)
  roots_among-Distinct g [] d = tt
  roots_among-Distinct g (n ∷ ns) (out, d) =
      by_test (is_empty (to g n)) (roots_among-Distinct g ns d)
    where
      by_test :
          (b : Bool)
          → Distinct (roots_among D g ns)
          → Distinct (if b then n ∷ roots_among D g ns else roots_among D g ns)
      by_test true h = ((λ m. out ((in-roots_among g n ns).0 m).0), h)
      by_test false h = h

  pub roots-Distinct : (g : Graph) → Distinct (roots D g)
  unfolding roots
  roots-Distinct g = roots_among-Distinct g (nodes g) (D.nodes_distinct g)

module _ (D : DirectedGraph) (world : World) (config_of : ℕ → Config) where
  open D use {Graph, nodes, nodes-remove_node, edge-remove_node}

  -- Dropping nodes removes them and their edges, and touches nothing else.
  pub drop_nodes_lem :
      (rs : List ℕ) (s : State D)
      → ((x : ℕ)
          → In x (nodes (drop_nodes D world config_of rs s).graph)
            ↔ (In x (nodes s.graph) × (¬ In x rs)))
        × ((a b : ℕ)
            → Edge D (drop_nodes D world config_of rs s).graph a b
              ↔ (Edge D s.graph a b × (¬ In a rs) × (¬ In b rs)))
        × ((drop_nodes D world config_of rs s).reports ≡ s.reports)
        × ((drop_nodes D world config_of rs s).err_count ≡ s.err_count)
  unfolding drop_nodes
  drop_nodes_lem [] s = (
    (λ x. ((λ m. (m, λ k. k)), (λ p. p.0))),
    (λ a b. ((λ e. (e, (λ k. k), (λ k. k))), (λ p. p.0))),
    refl,
    refl,
  )
  drop_nodes_lem (n ∷ ns) s =
      let (at_nodes, at_edges, same_reports, same_count) = drop_nodes_lem ns (drop_node D s n) in
      (
        (λ x. (
          (λ m.
              let (a, out) = (at_nodes x).0 m in
              let (b, ne) = (nodes-remove_node s.graph n x).0 a in
              (b, λ k. elim k [ inl same ↦ ne same | inr later ↦ out later ])),
          (λ (m, out).
              (at_nodes x).1
                ((nodes-remove_node s.graph n x).1 (m, λ same. out (inl same)), λ k. out (inr k))),
        )),
        (λ a b. (
          (λ e.
              let (e', out_a, out_b) = (at_edges a b).0 e in
              let (e'', ne_a, ne_b) = (edge-remove_node s.graph n a b).0 e' in
              (
                e'',
                (λ k. elim k [ inl same ↦ ne_a same | inr later ↦ out_a later ]),
                (λ k. elim k [ inl same ↦ ne_b same | inr later ↦ out_b later ]),
              )),
          (λ (e, out_a, out_b). (at_edges a b).1 (
            (edge-remove_node s.graph n a b).1
                (e, (λ same. out_a (inl same)), (λ same. out_b (inl same))),
            (λ k. out_a (inr k)),
            (λ k. out_b (inr k)),
          )),
        )),
        same_reports,
        same_count,
      )
