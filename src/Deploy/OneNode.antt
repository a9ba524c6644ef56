-- ===== src/Deploy/OneNode.antt =====
-- `deployNode`: whatever becomes of a configuration, the round goes on with the invariant.
use dynatrace_configuration.Base.{
  ℕ, ◌+◌, ◌<◌, ◌≤◌, ◌≡◌, refl, ◌∙◌, inl, inr, List, [], ◌∷◌, ◌++◌, some, arith, In, dec_in,
}
use dynatrace_configuration.Config.Entities.{EntityMap}
use dynatrace_configuration.Config.Model.{Config}
use dynatrace_configuration.Deploy.Graph.{DirectedGraph}
use dynatrace_configuration.Deploy.Node.{
  Outcome, deployed, excluded, parameters_failed, failed, World, deploy_config,
}
use dynatrace_configuration.Deploy.Loop.{
  Status, status_deployed, status_failed, status_excluded, State, finish_node, deploy_node,
  remove_children,
}
use dynatrace_configuration.Deploy.Removal.{Edge, IsRanked, Shrinks, Shrinks-refl}
use dynatrace_configuration.Deploy.RemoveChildren.{remove_children-Clears}
use dynatrace_configuration.Deploy.Invariant.{
  reported, with_status, is_failed, IsBlocking, Invariant,
}
use dynatrace_configuration.Deploy.Handled.{Invariant-handled, Descends-Edge}

module _ (D : DirectedGraph) where
  open D use {Graph, nodes}

  abbrev pub IsRoot : State D → ℕ → Type 0
  IsRoot s n = (p : ℕ) → ¬ Edge D s.graph p n

  abbrev pub IsBounded : (ℕ → ℕ) → ℕ → Graph → Type 0
  IsBounded rank bound g = (x : ℕ) → In x (nodes g) → rank x < bound

  -- The graph lost only nodes that were no roots.
  pub record Later (s u : State D) : Type 0 where
    pub roots_stay : (x : ℕ) → In x (nodes s.graph) → IsRoot s x → In x (nodes u.graph)
    pub fewer_edges : (a b : ℕ) → Edge D u.graph a b → Edge D s.graph a b
    pub fewer_nodes : (x : ℕ) → In x (nodes u.graph) → In x (nodes s.graph)

module _ (D : DirectedGraph) where
  open D use {Graph, nodes}

  Later-Shrinks : {n : ℕ} {s t : State D} → Shrinks D n s t → Later D s t
  Later-Shrinks {s} {t} f = record {
    roots_stay = λ x m root. elim (dec_in x (nodes t.graph)) [
      | inl there ↦ there
      | inr gone ↦
          let (p, e) = Descends-Edge D (f.descends x ((f.in_removed x).1 (m, gone))) in
          absurd (root p e)
    ];
    fewer_edges = λ a b e. ((f.edges a b).0 e).0;
    fewer_nodes = f.kept;
  }

  -- The count of the calls and the entities do not matter to the invariant.
  pub Invariant-same :
      {g : Graph} {handled : List ℕ} {s : State D} (es : EntityMap) (c k : ℕ)
      → k ≡ s.err_count
      → Invariant D g handled s
      → Invariant D g handled
          record { graph = s.graph; entities = es; reports = s.reports; calls = c; err_count = k }
  Invariant-same es c k same inv = record {
    given = inv.given;
    edges = inv.edges;
    split = inv.split;
    known = inv.known;
    fresh = inv.fresh;
    distinct = inv.distinct;
    waiting = inv.waiting;
    rootless = inv.rootless;
    supported = inv.supported;
    settled = inv.settled;
    causal = inv.causal;
    blamed = inv.blamed;
    counted = same ∙ inv.counted;
  }

module _ (D : DirectedGraph) (world : World) (config_of : ℕ → Config) (rank : ℕ → ℕ) (bound : ℕ)
    (g : D.Graph) (ranked : IsRanked D rank bound g) (bounded : IsBounded D rank bound g) (fuel : ℕ)
    (deep : bound ≤ fuel) (handled : List ℕ) (s : State D) (n : ℕ) (inv : Invariant D g handled s)
    (here : In n (D.nodes s.graph)) (unreported : ¬ In n (reported s.reports))
    (root : IsRoot D s n) where
  open D use {Graph, nodes}

  -- A node that is not deployed takes what hangs on it along.
  blocked :
      (st : Status)
      → IsBlocking st
      → (t : State D) × (remove_children D fuel n s ≡ some t)
        × Later D s t
        × ((es : EntityMap) (c k : ℕ)
            → k ≡ t.err_count + is_failed st
            → Invariant D g (n ∷ handled) record {
              graph = t.graph;
              entities = es;
              reports = t.reports ++ with_status n st ∷ [];
              calls = c;
              err_count = k;
            })
  blocked st blocking =
      let top = bounded n (inv.given n here) in
      let (t, run, f, bare) =
        remove_children-Clears D rank bound fuel n s (λ a b e. ranked a b ((inv.edges a b).0 e).0)
          top (omega (arith, deep)) in
      (
        t,
        run,
        Later-Shrinks D f,
        (λ es c k same. Invariant-same D es c k (omega (arith, same, f.err_count)) (
            Invariant-handled D rank bound g handled s t n st ranked inv here unreported root f
              (inr (blocking, bare)) es c)),
      )

  finish_node_lem :
      (o : Outcome)
      → (t : State D) × (finish_node D world config_of fuel n s o ≡ some t)
        × Invariant D g (n ∷ handled) t
        × Later D s t
  finish_node_lem (deployed e) = (
    _,
    refl,
    Invariant-same D _ _ _ (omega arith) (
        Invariant-handled D rank bound g handled s s n status_deployed ranked inv here unreported
          root (Shrinks-refl D n s) (inl (refl, refl)) s.entities s.calls),
    record { roots_stay = λ x m r. m; fewer_edges = λ a b e'. e'; fewer_nodes = λ x m. m },
  )
  finish_node_lem excluded =
      let (t, run, later, done) = blocked status_excluded (inr refl) in
      (
        _,
        ground arith,
        done t.entities t.calls t.err_count (omega arith),
        record {
          roots_stay = later.roots_stay;
          fewer_edges = later.fewer_edges;
          fewer_nodes = later.fewer_nodes;
        },
      )
  finish_node_lem (parameters_failed es) =
      let (t, run, later, done) = blocked status_failed (inl refl) in
      (
        _,
        ground arith,
        done t.entities t.calls (t.err_count + 1) (omega arith),
        record {
          roots_stay = later.roots_stay;
          fewer_edges = later.fewer_edges;
          fewer_nodes = later.fewer_nodes;
        },
      )
  finish_node_lem (failed reason) =
      let (t, run, later, done) = blocked status_failed (inl refl) in
      (
        _,
        ground arith,
        done t.entities t.calls (t.err_count + 1) (omega arith),
        record {
          roots_stay = later.roots_stay;
          fewer_edges = later.fewer_edges;
          fewer_nodes = later.fewer_nodes;
        },
      )

module _ (D : DirectedGraph) (world : World) (config_of : ℕ → Config) (rank : ℕ → ℕ) (bound : ℕ)
    (g : D.Graph) (ranked : IsRanked D rank bound g) (bounded : IsBounded D rank bound g) (fuel : ℕ)
    (deep : bound ≤ fuel) where
  open D use {Graph, nodes}

  -- A root that was not reported is handled by `deployNode`, which returns.
  pub deploy_node_lem :
      (handled : List ℕ) (s : State D) (n : ℕ)
      → Invariant D g handled s
      → In n (nodes s.graph)
      → ¬ In n (reported s.reports)
      → IsRoot D s n
      → (t : State D) × (deploy_node D world config_of fuel n s ≡ some t)
        × Invariant D g (n ∷ handled) t
        × Later D s t
  unfolding deploy_node
  deploy_node_lem handled s n inv here unreported root =
      let (t, run, inv', later) =
        finish_node_lem D world config_of rank bound g ranked bounded fuel deep handled
          (record s { calls = s.calls + 1 }) n
          (Invariant-same D s.entities (s.calls + 1) s.err_count refl inv) here unreported root
          (deploy_config world s.calls (config_of n) s.entities) in
      (
        t,
        run,
        inv',
        record {
          roots_stay = later.roots_stay;
          fewer_edges = later.fewer_edges;
          fewer_nodes = later.fewer_nodes;
        },
      )
