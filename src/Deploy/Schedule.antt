-- ===== src/Deploy/Schedule.antt =====
-- `deployGraph` from the first round to the last.
use dynatrace_configuration.Base.{
  ℕ, ◌≤◌, ◌≡◌, refl, sym, ◌∙◌, ap, subst, ◌↔◌, ◌⊎◌, inl, inr, List, [], ◌∷◌, Option, some, arith,
  In, Distinct, dec_in,
}
use dynatrace_configuration.Config.Model.{Config}
use dynatrace_configuration.Deploy.Graph.{DirectedGraph}
use dynatrace_configuration.Deploy.Node.{World}
use dynatrace_configuration.Deploy.Loop.{State, deploy_nodes, drop_nodes}
use dynatrace_configuration.Deploy.Removal.{IsRanked}
use dynatrace_configuration.Deploy.Invariant.{reported, failures, Invariant}
use dynatrace_configuration.Deploy.OneNode.{IsRoot, IsBounded, deploy_node_lem}
use dynatrace_configuration.Deploy.Rounds.{drop_nodes_lem}

module _ (D : DirectedGraph) (world : World) (config_of : ℕ → Config) (rank : ℕ → ℕ) (bound : ℕ)
    (g : D.Graph) (ranked : IsRanked D rank bound g) (bounded : IsBounded D rank bound g) (fuel : ℕ)
    (deep : bound ≤ fuel) where
  open D use {Graph, nodes}

  -- What a round asks of the nodes it has still to handle.
  abbrev IsPending : State D → ℕ → Type 0
  IsPending s n = In n (nodes s.graph) × (¬ In n (reported s.reports)) × IsRoot D s n

  abbrev Handles : List ℕ → List ℕ → State D → Option (State D) → Type 0
  Handles ns handled s run =
      (t : State D) × (all : List ℕ) × (run ≡ some t)
      × Invariant D g all t
      × ((x : ℕ) → In x all ↔ (In x ns ⊎ In x handled))
      × ((x : ℕ) → In x (nodes t.graph) → In x (nodes s.graph))

  pub deploy_nodes_lem :
      (ns handled : List ℕ) (s : State D)
      → Distinct ns
      → ((n : ℕ) → In n ns → IsPending s n)
      → Invariant D g handled s
      → Handles ns handled s (deploy_nodes D world config_of fuel ns s)
  unfolding deploy_nodes
  deploy_nodes_lem [] handled s distinct pending inv = (
    s,
    handled,
    refl,
    inv,
    (λ x. ((λ m. inr m), (λ m. elim m [ inl bad ↦ absurd bad | inr h ↦ h ]))),
    (λ x m. m),
  )
  deploy_nodes_lem (n ∷ ns) handled s (out, distinct) pending inv =
      let (here, unreported, root) = pending n (inl refl) in
      let (u, run_u, inv_u, later) =
        deploy_node_lem D world config_of rank bound g ranked bounded fuel deep handled s n inv here
          unreported root in
      let still_pending : (x : ℕ) → In x ns → IsPending u x = λ x m.
        let (x_here, x_unreported, x_root) = pending x (inr m) in
        let x_stays = later.roots_stay x x_here x_root in
        (
          x_stays,
          (λ r. elim (inv_u.fresh x x_stays r) [
            | inl same ↦ out (subst (λ y. In y ns) same m)
            | inr h ↦ x_unreported (inv.waiting x h).1
          ]),
          (λ p e. x_root p (later.fewer_edges p x e)),
        ) in
      let (t, all, run_t, inv_t, which, fewer) =
        deploy_nodes_lem ns (n ∷ handled) u distinct still_pending inv_u in
      (
        t,
        all,
        ground arith,
        inv_t,
        (λ x. (
          (λ m. elim ((which x).0 m) [
            | inl later ↦ inl (inr later)
            | inr (inl same) ↦ inl (inl same)
            | inr (inr h) ↦ inr h
          ]),
          (λ m. (which x).1 (elim m [
            | inl (inl same) ↦ inr (inl same)
            | inl (inr later) ↦ inl later
            | inr h ↦ inr (inr h)
          ])),
        )),
        (λ x m. later.fewer_nodes x (fewer x m)),
      )

  -- At the end of the round the handled nodes leave the graph.
  pub drop_nodes-Invariant :
      (all rs : List ℕ) (s : State D)
      → Invariant D g all s
      → ((x : ℕ) → In x rs ↔ In x all)
      → Invariant D g [] (drop_nodes D world config_of rs s)
  drop_nodes-Invariant all rs s inv same =
      let (at_nodes, at_edges, same_reports, same_count) = drop_nodes_lem D world config_of rs s in
      record {
        given = λ x m. inv.given x ((at_nodes x).0 m).0;
        edges = λ a b. (
          (λ e.
              let (e', out_a, out_b) = (at_edges a b).0 e in
              let (e'', a_here, b_here) = (inv.edges a b).0 e' in
              (e'', (at_nodes a).1 (a_here, out_a), (at_nodes b).1 (b_here, out_b))),
          (λ (e, ma, mb).
              let (a_here, out_a) = (at_nodes a).0 ma in
              let (b_here, out_b) = (at_nodes b).0 mb in
              (at_edges a b).1 ((inv.edges a b).1 (e, a_here, b_here), out_a, out_b)),
        );
        split = λ x m. rw same_reports (elim (inv.split x m) [
          | inr old ↦ inr old
          | inl there ↦ elim (dec_in x rs) [
            | inl k ↦ inr (inv.waiting x ((same x).0 k)).1
            | inr out ↦ inl ((at_nodes x).1 (there, out))
          ]
        ]);
        known = λ x m. inv.known x (subst (λ r. In x (reported r)) same_reports m);
        fresh = λ x m r.
            let (there, out) = (at_nodes x).0 m in
            absurd (
              out ((same x).1 (inv.fresh x there (subst (λ q. In x (reported q)) same_reports r))));
        distinct = rw same_reports inv.distinct;
        waiting = λ x m. absurd m;
        rootless = λ a x m. absurd m;
        supported = λ m n there e. rw same_reports (
            let (n_here, n_out) = (at_nodes n).0 there in
            elim (inv.supported m n n_here e) [
              | inr done ↦ inr done
              | inl m_here ↦ elim (dec_in m rs) [
                | inr m_out ↦ inl ((at_nodes m).1 (m_here, m_out))
                | inl k ↦ elim (inv.settled m ((same m).0 k)) [
                  | inl done ↦ inr done
                  | inr bare ↦ absurd (bare n ((inv.edges m n).1 (e, m_here, n_here)))
                ]
              ]
            ]);
        settled = λ x m. absurd m;
        causal = rw same_reports inv.causal;
        blamed = rw same_reports inv.blamed;
        counted = same_count ∙ inv.counted ∙ ap failures (sym same_reports);
      }
