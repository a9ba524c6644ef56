-- ===== src/Deploy/Deployed.antt =====
-- What a run of `deployGraph` guarantees: it ends, and what it reported.
use dynatrace_configuration.Base.{
  ℕ, zero, suc, ◌+◌, ◌<◌, ◌≤◌, ◌≡◌, refl, sym, subst, ◌↔◌, inl, inr, List, [], ◌∷◌, Option, none,
  some, arith, In, Distinct, Bool-cases, ltb, if◌then◌else◌,
}
use dynatrace_configuration.Config.Model.{Config}
use dynatrace_configuration.Deploy.Graph.{DirectedGraph, roots}
use dynatrace_configuration.Deploy.Node.{World}
use dynatrace_configuration.Deploy.Loop.{
  State, drop_nodes, deploy_round, deploy_rounds, start, deploy_graph,
}
use dynatrace_configuration.Deploy.Removal.{IsRanked}
use dynatrace_configuration.Deploy.Invariant.{reported, failures, IsCausal, IsBlamed, Invariant}
use dynatrace_configuration.Deploy.OneNode.{IsRoot, IsBounded}
use dynatrace_configuration.Deploy.Rounds.{in-roots, roots-Distinct, drop_nodes_lem}
use dynatrace_configuration.Deploy.Schedule.{deploy_nodes_lem, drop_nodes-Invariant}

-- The environment runs each goroutine of a round exactly once.
abbrev pub IsInterleaving : (ℕ → List ℕ → List ℕ) → Type 0
IsInterleaving order =
    (c : ℕ) (rs : List ℕ)
    → Distinct rs
    → Distinct (order c rs) × ((x : ℕ) → In x (order c rs) ↔ In x rs)

error_of :
    (k f : ℕ) (e : Option ℕ)
    → k ≡ f
    → e ≡ (if ltb 0 k then some k else none)
    → ((e ≡ none) ↔ (f ≡ 0)) × ((c : ℕ) → e ≡ some c → c ≡ f)
error_of zero f e same run = (((λ h. omega (arith, same)), (λ h. run)), (λ c h. ground arith))
error_of (suc k) f e same run =
    (((λ h. ground arith), (λ h. absurd (omega (arith, same)))), (λ c h. ground arith))

module _ (D : DirectedGraph) (world : World) (config_of : ℕ → Config) (order : ℕ → List ℕ → List ℕ)
    (fair : IsInterleaving order) (rank : ℕ → ℕ) (bound : ℕ) (g : D.Graph)
    (ranked : IsRanked D rank bound g) (bounded : IsBounded D rank bound g) (fuel : ℕ)
    (deep : bound ≤ fuel) where
  open D use {Graph, nodes}

  abbrev Leads : State D → (State D → Type 0) → Option (State D) → Type 0
  Leads s P run = (t : State D) × (run ≡ some t) × Invariant D g [] t × P t

  Above : ℕ → State D → Type 0
  Above k s = (x : ℕ) → In x (nodes s.graph) → k ≤ rank x

  -- After `k` rounds the nodes that are left have a rank of `k` at least.
  deploy_round_lem :
      (s : State D) (k : ℕ)
      → Invariant D g [] s
      → Above k s
      → Leads s (Above (k + 1)) (deploy_round D world config_of order fuel s)
  unfolding deploy_round Above
  deploy_round_lem s k inv above =
      let rs = roots D s.graph in
      let (distinct, same_nodes) = fair s.calls rs (roots-Distinct D s.graph) in
      let pending : (n : ℕ)
          → In n (order s.calls rs)
          → In n (nodes s.graph) × (¬ In n (reported s.reports)) × IsRoot D s n =
        λ n m.
          let (here, root) = (in-roots D s n).0 ((same_nodes n).0 m) in
          (here, (λ r. inv.fresh n here r), root) in
      let (t, all, run, inv_t, which, fewer) =
        deploy_nodes_lem D world config_of rank bound g ranked bounded fuel deep (order s.calls rs)
          [] s distinct pending inv in
      let dropped : (x : ℕ) → In x rs ↔ In x all = λ x. (
        (λ m. (which x).1 (inl ((same_nodes x).1 m))),
        (λ m. elim ((which x).0 m) [ inl k' ↦ (same_nodes x).0 k' | inr bad ↦ absurd bad ]),
      ) in
      let (at_nodes, _, _, _) = drop_nodes_lem D world config_of rs t in
      let climbs : (x : ℕ)
          → In x (nodes (drop_nodes D world config_of rs t).graph)
          → k + 1 ≤ rank x =
        λ x m.
          let (there, out) = (at_nodes x).0 m in
          elim (Bool-cases (ltb k (rank x))) [
            | inl higher ↦ ground arith
            | inr low ↦ absurd (
                out (
                  (in-roots D s x).1 (
                    fewer x there,
                    (λ p e.
                        let (_, p_here, _) = (inv.edges p x).0 e in
                        let higher = above p p_here in
                        let up = (ranked p x ((inv.edges p x).0 e).0).0 in ground arith),
                  )))
          ] in
      (
        drop_nodes D world config_of rs t,
        ground arith,
        drop_nodes-Invariant D world config_of rank bound g ranked bounded fuel deep all rs t inv_t
            dropped,
        climbs,
      )

  Emptied : State D → Type 0
  Emptied t = nodes t.graph ≡ []

  deploy_rounds_lem :
      (rounds : ℕ) (s : State D) (k : ℕ)
      → Invariant D g [] s
      → Above k s
      → k ≤ bound
      → bound < k + rounds
      → Leads s Emptied (deploy_rounds D world config_of order fuel rounds s)
  unfolding deploy_rounds Above Emptied
  deploy_rounds_lem zero s k inv above low enough = absurd (omega arith)
  deploy_rounds_lem (suc rounds) s k inv above low enough =
      by_nodes (nodes s.graph) refl (deploy_rounds_lem rounds)
    where
      by_nodes :
          (ns : List ℕ)
          → nodes s.graph ≡ ns
          → ((s' : State D) (k' : ℕ)
              → Invariant D g [] s'
              → Above k' s'
              → k' ≤ bound
              → bound < k' + rounds
              → Leads s' Emptied (deploy_rounds D world config_of order fuel rounds s'))
          → Leads s Emptied (deploy_rounds D world config_of order fuel (suc rounds) s)
      by_nodes [] e rest = (s, ground arith, inv, e)
      by_nodes (n ∷ ns) e rest =
          let here : In n (nodes s.graph) = subst (In n) (sym e) (inl refl) in
          let (u, run_u, inv_u, above_u) = deploy_round_lem s k inv above in
          let (t, run_t, inv_t, done) =
            rest u (k + 1) inv_u above_u (omega (arith, above n here, bounded n (inv.given n here)))
              (omega arith) in
          (t, ground arith, inv_t, done)

  start-Invariant : Invariant D g [] (start D world config_of order g)
  start-Invariant = record {
    given = λ x m. m;
    edges = λ a b. ((λ e. (e, (D.edge_nodes g a b e).0, (D.edge_nodes g a b e).1)), (λ p. p.0));
    split = λ x m. inl m;
    known = λ x m. absurd m;
    fresh = λ x m r. r;
    distinct = tt;
    waiting = λ x m. absurd m;
    rootless = λ a x m. absurd m;
    supported = λ m n there e. inl (D.edge_nodes g m n e).0;
    settled = λ x m. absurd m;
    causal = tt;
    blamed = λ x m. absurd m;
    counted = refl;
  }

  module _ (rounds : ℕ) (enough : bound < rounds) where
    -- What a run leaves behind.
    abbrev Finishes : State D × Option ℕ → Type 0
    Finishes r =
        Invariant D g [] r.0
        × (nodes r.0.graph ≡ [])
        × (r.1 ≡ (if ltb 0 r.0.err_count then some r.0.err_count else none))

    deploy_graph_finishes :
        (r : State D × Option ℕ) × (deploy_graph D world config_of order fuel rounds g ≡ some r)
        × Finishes r
    unfolding deploy_graph Above Emptied
    deploy_graph_finishes =
        let (t, run, inv, done) =
          deploy_rounds_lem rounds (start D world config_of order g) 0 start-Invariant
            (λ x m. omega arith) (omega arith) (omega (arith, enough)) in
        (_, ground arith, (inv, done, refl))

    finished :
        (t : State D) (e : Option ℕ)
        → deploy_graph D world config_of order fuel rounds g ≡ some (t, e)
        → Finishes (t, e)
    finished t e run =
        let (r, run', fin) = deploy_graph_finishes in
        let same : r ≡ (t, e) = cc in subst Finishes same fin

    -- With fuel for the depth of an acyclic graph and more rounds than that, in whatever order the
    -- goroutines of a round run, `deployGraph` returns, the graph is then empty, and every node of
    -- the graph has been reported exactly once, and no other.
    pub deploy_graph_total :
        (t : State D) × (e : Option ℕ) × (deploy_graph D world config_of order fuel rounds g
          ≡ some (t, e))
        × (nodes t.graph ≡ [])
        × Distinct (reported t.reports)
        × ((x : ℕ) → In x (reported t.reports) ↔ In x (nodes g))
    deploy_graph_total =
        let (r, run, (inv, done, same)) = deploy_graph_finishes in
        (
          r.0,
          r.1,
          run,
          done,
          inv.distinct,
          (λ x. (
            inv.known x,
            (λ m. elim (inv.split x m) [
              | inr old ↦ old
              | inl there ↦ absurd (subst (In x) done there)
            ]),
          )),
        )

    -- When `deployGraph` returns on an acyclic graph, with fuel and rounds for its depth, every
    -- node that was attempted was attempted after each node with an edge to it had been reported
    -- as deployed.
    pub deploy_graph-IsCausal :
        (t : State D) (e : Option ℕ)
        → deploy_graph D world config_of order fuel rounds g ≡ some (t, e)
        → IsCausal D g [] t.reports
    deploy_graph-IsCausal t e run = let (inv, _, _) = finished t e run in inv.causal

    -- When `deployGraph` returns on an acyclic graph, with fuel and rounds for its depth, every
    -- node that was reported as skipped depends, directly or not, on one that was reported as
    -- failed or as excluded.
    pub deploy_graph-IsBlamed :
        (t : State D) (e : Option ℕ)
        → deploy_graph D world config_of order fuel rounds g ≡ some (t, e)
        → IsBlamed D g t.reports
    deploy_graph-IsBlamed t e run = let (inv, _, _) = finished t e run in inv.blamed

    -- When `deployGraph` returns on an acyclic graph, with fuel and rounds for its depth, it
    -- returns no error exactly when no node was reported as failed, and the error's count is the
    -- number of the nodes reported so.
    pub deploy_graph_error :
        (t : State D) (e : Option ℕ)
        → deploy_graph D world config_of order fuel rounds g ≡ some (t, e)
        → ((e ≡ none) ↔ (failures t.reports ≡ 0)) × ((k : ℕ) → e ≡ some k → k ≡ failures t.reports)
    deploy_graph_error t e run =
        let (inv, _, same) = finished t e run in
        error_of t.err_count (failures t.reports) e inv.counted same
