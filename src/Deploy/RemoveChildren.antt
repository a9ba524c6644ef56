-- ===== src/Deploy/RemoveChildren.antt =====
-- `removeChildren` ends on an acyclic graph, and leaves nothing below its parent.
use dynatrace_configuration.Base.{
  ℕ, zero, suc, ◌+◌, ◌≤◌, ◌<◌, ◌≡◌, refl, sym, ◌∙◌, subst, inl, inr, Bool, true, false, List, [],
  ◌∷◌, map, Option, some, arith, In, dec_in, append_assoc,
}
use dynatrace_configuration.Deploy.Graph.{DirectedGraph}
use dynatrace_configuration.Deploy.Loop.{
  status_skipped, State, report, drop_node, remove_each, remove_children,
}
use dynatrace_configuration.Deploy.Removal.{
  skipped, Edge, Descends, child, IsRanked, Descends-rank, Descends-trans, Shrinks, Shrinks-refl,
  Shrinks-trans,
}

abbrev pub NoChildren : (D : DirectedGraph) → State D → ℕ → Type 0
NoChildren D s a = (b : ℕ) → ¬ Edge D s.graph a b

module _ (D : DirectedGraph) where
  open D use {
    Graph, nodes, has_edge_from_to, edge_nodes, nodes-remove_node, edge-remove_node, in-from,
  }

  -- A child is reported, what is below it is removed, and then it is removed itself.
  Shrinks-child :
      {rank : ℕ → ℕ} {bound : ℕ} {parent c : ℕ} {s t : State D}
      → IsRanked D rank bound s.graph
      → Edge D s.graph parent c
      → Shrinks D c (report D c status_skipped s) t
      → NoChildren D t c
      → Shrinks D parent s (drop_node D t c)
  Shrinks-child {c} {s} {t} ranked e f bare =
      let c_here : In c (nodes s.graph) = (edge_nodes s.graph _ c e).1 in
      let c_stays : ¬ In c f.removed =
        λ m. absurd (omega (arith, Descends-rank D ranked (f.descends c m))) in
      record {
        removed = c ∷ f.removed;
        distinct = (c_stays, f.distinct);
        in_removed = λ x. (
          (λ m. elim m [
            | inl same ↦ (
              subst (λ y. In y (nodes s.graph)) (sym same) c_here,
              (λ n. ((nodes-remove_node t.graph c x).0 n).1 same),
            )
            | inr m' ↦
                let (a, b) = (f.in_removed x).0 m' in
                (a, λ n. b ((nodes-remove_node t.graph c x).0 n).0)
          ]),
          (λ (a, b). elim (dec_in x (nodes t.graph)) [
            | inl m ↦ elim (dec_in x (c ∷ [])) [
              | inl (inl same) ↦ inl same
              | inl (inr bad) ↦ absurd bad
              | inr other ↦
                  absurd (b ((nodes-remove_node t.graph c x).1 (m, λ same. other (inl same))))
            ]
            | inr n ↦ inr ((f.in_removed x).1 (a, n))
          ]),
        );
        kept = λ x m. f.kept x ((nodes-remove_node t.graph c x).0 m).0;
        edges = λ a b. (
          (λ e'.
              let (et, ac, bc) = (edge-remove_node t.graph c a b).0 e' in
              let (es, ma, mb) = (f.edges a b).0 et in
              (
                es,
                (nodes-remove_node t.graph c a).1 (ma, ac),
                (nodes-remove_node t.graph c b).1 (mb, bc),
              )),
          (λ (es, ma, mb).
              let (ma', ac) = (nodes-remove_node t.graph c a).0 ma in
              let (mb', bc) = (nodes-remove_node t.graph c b).0 mb in
              (edge-remove_node t.graph c a b).1 ((f.edges a b).1 (es, ma', mb'), ac, bc)),
        );
        closed = λ a b m n e' mb.
            let (mb', bc) = (nodes-remove_node t.graph c b).0 mb in
            elim (dec_in a (nodes t.graph)) [
              | inl ma ↦ elim (dec_in a (c ∷ [])) [
                | inl (inl same) ↦ bare b (
                    (f.edges c b).1 (
                      subst (λ y. Edge D s.graph y b) same e',
                      subst (λ y. In y (nodes t.graph)) same ma,
                      mb',
                    ))
                | inl (inr bad) ↦ bad
                | inr other ↦ n ((nodes-remove_node t.graph c a).1 (ma, λ same. other (inl same)))
              ]
              | inr na ↦ f.closed a b m na e' mb'
            ];
        descends = λ x m. elim m [
          | inl same ↦ subst (Descends D s.graph _) (sym same) (child e)
          | inr m' ↦ Descends-trans D (child e) (f.descends x m')
        ];
        reports = f.reports ∙ append_assoc s.reports (skipped c ∷ []) (map skipped f.removed);
        entities = f.entities;
        calls = f.calls;
        err_count = f.err_count;
      }

  IsRanked-Shrinks :
      {rank : ℕ → ℕ} {bound parent : ℕ} {s t : State D}
      → IsRanked D rank bound s.graph
      → Shrinks D parent s t
      → IsRanked D rank bound t.graph
  IsRanked-Shrinks ranked f a b e = ranked a b ((f.edges a b).0 e).0

  -- What a call of `removeChildren` for `parent` establishes.
  abbrev pub Clears : (State D → Option (State D)) → ℕ → State D → Type 0
  Clears run parent s =
      (t : State D) × (run s ≡ some t) × Shrinks D parent s t × NoChildren D t parent

  module _ (rank : ℕ → ℕ) (bound : ℕ) (descend : ℕ → State D → Option (State D)) (parent : ℕ)
      (descend_clears : (c : ℕ) (s : State D)
        → IsRanked D rank bound s.graph
        → rank parent < rank c
        → rank c < bound
        → Clears (descend c) c s) where
    remove_each_clears :
        (cs : List ℕ) (s : State D)
        → IsRanked D rank bound s.graph
        → (t : State D) × (remove_each D descend parent cs s ≡ some t)
          × Shrinks D parent s t
          × ((b : ℕ) → In b cs → ¬ Edge D t.graph parent b)
    unfolding remove_each
    remove_each_clears [] s ranked = (s, refl, Shrinks-refl D parent s, λ b m. absurd m)
    remove_each_clears (c ∷ cs) s ranked =
        by_edge (has_edge_from_to s.graph parent c) refl (remove_each_clears cs)
      where
        Rest : State D → Type 0
        Rest u =
            (t : State D) × (remove_each D descend parent cs u ≡ some t)
            × Shrinks D parent u t
            × ((b : ℕ) → In b cs → ¬ Edge D t.graph parent b)

        clash : false ≡ true → ⊥
        clash e = cc

        by_edge :
            (present : Bool)
            → has_edge_from_to s.graph parent c ≡ present
            → ((u : State D) → IsRanked D rank bound u.graph → Rest u)
            → (t : State D) × (remove_each D descend parent (c ∷ cs) s ≡ some t)
              × Shrinks D parent s t
              × ((b : ℕ) → In b (c ∷ cs) → ¬ Edge D t.graph parent b)
        by_edge false absent rest =
            let (t, run, f, none_left) = rest s ranked in
            (
              t,
              ground arith,
              f,
              (λ b m e. elim m [
                | inl same ↦ clash (
                    sym absent
                    ∙ subst (λ y. Edge D s.graph parent y) same ((f.edges parent b).0 e).0)
                | inr m' ↦ none_left b m' e
              ]),
            )
        by_edge true present rest =
            let (up, top) = ranked parent c present in
            let (u, run_u, f, bare) =
              descend_clears c (report D c status_skipped s) ranked up top in
            let gone = Shrinks-child ranked present f bare in
            let (t, run_t, g, none_left) = rest (drop_node D u c) (IsRanked-Shrinks ranked gone) in
            (
              t,
              ground arith,
              Shrinks-trans D gone g,
              (λ b m e. elim m [
                | inl same ↦
                    let (_, _, there) = (g.edges parent b).0 e in
                    ((nodes-remove_node u.graph c b).0 (g.kept b there)).1 same
                | inr m' ↦ none_left b m' e
              ]),
            )

  -- With fuel for the depth below the parent the recursion ends, and leaves the parent no child.
  pub remove_children-Clears :
      (rank : ℕ → ℕ) (bound fuel parent : ℕ) (s : State D)
      → IsRanked D rank bound s.graph
      → rank parent < bound
      → bound ≤ rank parent + fuel
      → Clears (remove_children D fuel parent) parent s
  unfolding remove_children
  remove_children-Clears rank bound zero parent s ranked top enough = absurd (omega arith)
  remove_children-Clears rank bound (suc fuel) parent s ranked top enough =
      let (t, run, f, none_left) =
        remove_each_clears rank bound (remove_children D fuel) parent
          (λ c u r up below. remove_children-Clears rank bound fuel c u r below (omega arith))
          (D.from s.graph parent) s ranked in
      (t, run, f, (λ b e. none_left b ((in-from s.graph parent b).1 ((f.edges parent b).0 e).0) e))
