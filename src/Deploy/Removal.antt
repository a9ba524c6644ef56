-- ===== src/Deploy/Removal.antt =====
-- What `removeChildren` removes: every node below its parent, with one report each.
use dynatrace_configuration.Base.{
  ℕ, ◌<◌, ◌≡◌, refl, sym, ◌∙◌, ap, ◌↔◌, inl, inr, true, List, [], ◌++◌, map, arith, In, Distinct,
  dec_in, in-append, in-append_left, in-append_right, Distinct-append, map-append, append_assoc,
  append-nil,
}
use dynatrace_configuration.Deploy.Graph.{DirectedGraph}
use dynatrace_configuration.Deploy.Loop.{status_skipped, Report, State}

abbrev pub skipped : ℕ → Report
skipped n = record { node = n; status = status_skipped }

module _ (D : DirectedGraph) where
  open D use {Graph, nodes, has_edge_from_to}

  abbrev pub Edge : Graph → ℕ → ℕ → Type 0
  Edge g a b = has_edge_from_to g a b ≡ true

  -- There is a path with at least one edge.
  pub data Descends (g : Graph) (a : ℕ) : ℕ → Type 0 where
    child : {b : ℕ} → has_edge_from_to g a b ≡ true → Descends g a b
    deeper : {b c : ℕ} → Descends g a b → has_edge_from_to g b c ≡ true → Descends g a c

  -- The graph is acyclic and its depth is bounded.
  abbrev pub IsRanked : (ℕ → ℕ) → ℕ → Graph → Type 0
  IsRanked rank bound g = (a b : ℕ) → Edge g a b → (rank a < rank b) × (rank b < bound)

module _ (D : DirectedGraph) where
  open D use {
    Graph, nodes, has_edge_from_to, edge_nodes, nodes-remove_node, edge-remove_node, remove_node,
    in-from,
  }

  pub Descends-rank :
      {rank : ℕ → ℕ} {bound : ℕ} {g : Graph} {a b : ℕ}
      → IsRanked D rank bound g
      → Descends D g a b
      → rank a < rank b
  Descends-rank r (child e) = (r _ _ e).0
  Descends-rank r (deeper d e) = omega (arith, Descends-rank r d, r _ _ e)

  pub Descends-mono :
      {g h : Graph} {a b : ℕ}
      → ((x y : ℕ) → Edge D g x y → Edge D h x y)
      → Descends D g a b
      → Descends D h a b
  Descends-mono up (child e) = child (up _ _ e)
  Descends-mono up (deeper d e) = deeper (Descends-mono up d) (up _ _ e)

  pub Descends-trans :
      {g : Graph} {a b c : ℕ} → Descends D g a b → Descends D g b c → Descends D g a c
  Descends-trans d (child e) = deeper d e
  Descends-trans d (deeper d' e) = deeper (Descends-trans d d') e

module _ (D : DirectedGraph) where
  open D use {Graph, nodes, has_edge_from_to}

  -- Between two states some nodes below `parent` were removed, with all that is below them.
  pub record Shrinks (parent : ℕ) (s s' : State D) : Type 0 where
    pub removed : List ℕ
    pub distinct : Distinct removed
    pub in_removed : (x : ℕ) → In x removed ↔ (In x (nodes s.graph) × (¬ In x (nodes s'.graph)))
    pub kept : (x : ℕ) → In x (nodes s'.graph) → In x (nodes s.graph)
    pub edges :
        (a b : ℕ)
        → Edge D s'.graph a b ↔ (Edge D s.graph a b × In a (nodes s'.graph) × In b (nodes s'.graph))
    pub closed :
        (a b : ℕ)
        → In a (nodes s.graph)
        → ¬ In a (nodes s'.graph)
        → Edge D s.graph a b
        → ¬ In b (nodes s'.graph)
    pub descends : (x : ℕ) → In x removed → Descends D s.graph parent x
    pub reports : s'.reports ≡ s.reports ++ map skipped removed
    pub entities : s'.entities ≡ s.entities
    pub calls : s'.calls ≡ s.calls
    pub err_count : s'.err_count ≡ s.err_count

module _ (D : DirectedGraph) where
  open D use {
    Graph, nodes, has_edge_from_to, edge_nodes, nodes-remove_node, edge-remove_node, remove_node,
    in-from,
  }

  abbrev pub Shrinks-refl : (parent : ℕ) (s : State D) → Shrinks D parent s s
  Shrinks-refl parent s = record {
    removed = [];
    distinct = tt;
    in_removed = λ x. ((λ m. absurd m), (λ (m, n). n m));
    kept = λ x m. m;
    edges =
        λ a b. ((λ e. (e, (edge_nodes s.graph a b e).0, (edge_nodes s.graph a b e).1)), (λ p. p.0));
    closed = λ a b m n e. absurd (n m);
    descends = λ x m. absurd m;
    reports = sym (append-nil s.reports);
    entities = refl;
    calls = refl;
    err_count = refl;
  }

  pub Shrinks-trans :
      {parent : ℕ} {s t u : State D}
      → Shrinks D parent s t
      → Shrinks D parent t u
      → Shrinks D parent s u
  Shrinks-trans {s} {t} {u} f g = record {
    removed = f.removed ++ g.removed;
    distinct =
        Distinct-append f.removed g.removed f.distinct g.distinct
          (λ x m n. ((f.in_removed x).0 m).1 (((g.in_removed x).0 n).0));
    in_removed = λ x. (
      (λ m. elim (in-append x f.removed g.removed m) [
        | inl m' ↦ let (a, b) = (f.in_removed x).0 m' in (a, λ n. b (g.kept x n))
        | inr m' ↦ let (a, b) = (g.in_removed x).0 m' in (f.kept x a, b)
      ]),
      (λ (a, b). elim (dec_in x (nodes t.graph)) [
        | inl m ↦ in-append_right x f.removed g.removed ((g.in_removed x).1 (m, b))
        | inr n ↦ in-append_left x f.removed g.removed ((f.in_removed x).1 (a, n))
      ]),
    );
    kept = λ x m. f.kept x (g.kept x m);
    edges = λ a b. (
      (λ e. let (e', ma, mb) = (g.edges a b).0 e in (((f.edges a b).0 e').0, ma, mb)),
      (λ (e, ma, mb). (g.edges a b).1 ((f.edges a b).1 (e, g.kept a ma, g.kept b mb), ma, mb)),
    );
    closed = λ a b m n e mb. elim (dec_in a (nodes t.graph)) [
      | inl ma ↦ g.closed a b ma n ((f.edges a b).1 (e, ma, g.kept b mb)) mb
      | inr na ↦ f.closed a b m na e (g.kept b mb)
    ];
    descends = λ x m. elim (in-append x f.removed g.removed m) [
      | inl m' ↦ f.descends x m'
      | inr m' ↦ Descends-mono D (λ a b e. ((f.edges a b).0 e).0) (g.descends x m')
    ];
    reports =
        g.reports
        ∙ ap (λ r. r ++ map skipped g.removed) f.reports
        ∙ simp (map-append, append_assoc);
    entities = g.entities ∙ f.entities;
    calls = g.calls ∙ f.calls;
    err_count = g.err_count ∙ f.err_count;
  }
