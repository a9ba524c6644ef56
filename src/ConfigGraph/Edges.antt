-- ===== src/ConfigGraph/Edges.antt =====
-- What the second loop of `buildDependencyGraph` adds: the edges between known configurations.
use dynatrace_configuration.Base.{
  ℕ, ◌≡◌, refl, sym, ◌∙◌, ap, subst, ◌≢◌, ◌↔◌, ◌⊎◌, inl, inr, true, List, [], ◌∷◌, Option, some, In,
  arith, Bool-cases, Option-cases,
}
use dynatrace_configuration.Config.Coordinate.{Coordinate, same_coordinate, same_coordinate_iff}
use dynatrace_configuration.Config.CoordinateMap.{find}
use dynatrace_configuration.ConfigGraph.Builder.{ConfigNode, DirectedGraphBuilder}
use dynatrace_configuration.ConfigGraph.Defs.{
  add_dependency, add_dependencies, add_all_dependencies,
}

module _ (B : DirectedGraphBuilder) where
  open B use {directed, node}

  -- Nodes stay, and the edges are the old ones and those that `P` names.
  abbrev pub Links : (ℕ → ℕ → Type 0) → directed.Graph → Option directed.Graph → Type 0
  Links P g run =
      (h : directed.Graph) × (run ≡ some h)
      × ((i : ℕ) → node h i ≡ node g i)
      × ((a b : ℕ)
          → (directed.has_edge_from_to h a b ≡ true)
            ↔ ((directed.has_edge_from_to g a b ≡ true) ⊎ P a b))

module _ (B : DirectedGraphBuilder) (ids : List (Coordinate × ℕ)) where
  open B use {directed, node}

  -- Every id belongs to a node of its coordinate.
  abbrev pub IsKnown : directed.Graph → Type 0
  IsKnown g =
      (x : Coordinate) (i : ℕ)
      → find x ids ≡ some i
      → (n : ConfigNode) × (node g i ≡ some n) × (n.config.coordinate ≡ x)

  abbrev pub HasId : Coordinate → Type 0
  HasId c = (k : ℕ) × (find c ids ≡ some k)

  -- The edge from what a configuration refers to.
  abbrev pub Needs : Coordinate → Coordinate → ℕ → ℕ → Type 0
  Needs c other a b = (c ≢ other) × (find other ids ≡ some a) × (find c ids ≡ some b)

  IsKnown-same : (g h : directed.Graph) → IsKnown g → ((i : ℕ) → node h i ≡ node g i) → IsKnown h
  IsKnown-same g h known same x i e = let (n, there, at) = known x i e in (n, same i ∙ there, at)

  add_dependency_lem :
      (c other : Coordinate) (g : directed.Graph)
      → IsKnown g
      → HasId c
      → Links B (Needs c other) g (add_dependency B ids c other g)
  unfolding add_dependency
  add_dependency_lem c other g known (k, at_c) = elim (Bool-cases (same_coordinate c other)) [
    | inl same ↦ (
      g,
      ground arith,
      (λ i. refl),
      (λ a b. (
        (λ e. inl e),
        (λ e. elim e [
          | inl old ↦ old
          | inr (other_key, _, _) ↦ absurd (other_key ((same_coordinate_iff c other).0 same))
        ]),
      )),
    )
    | inr apart ↦ elim (Option-cases (find other ids)) [
      | inl unknown ↦ (
        g,
        ground arith,
        (λ i. refl),
        (λ a b. (
          (λ e. inl e),
          (λ e. elim e [ inl old ↦ old | inr (_, there, _) ↦ absurd (ground arith) ]),
        )),
      )
      | inr (j, at_other) ↦
          let (m, m_there, m_at) = known other j at_other in
          let (n, n_there, n_at) = known c k at_c in
          let m_id = B.node_same g j m m_there in
          let n_id = B.node_same g k n n_there in
          let differ : c ≢ other = λ e. let t = (same_coordinate_iff c other).1 e in ground arith in
          let ids_differ : m.node_id ≢ n.node_id = λ e.
            let here : some m ≡ some n =
              sym m_there ∙ ap (node g) (sym m_id ∙ e ∙ n_id) ∙ n_there in
            let same : m ≡ n = cc in
            differ (sym n_at ∙ ap (λ z. z.config.coordinate) (sym same) ∙ m_at) in
          let (h, run, nodes, edges) =
            B.set_edge_known g m n (ap (node g) m_id ∙ m_there) (ap (node g) n_id ∙ n_there)
              ids_differ in
          (
            h,
            ground arith,
            nodes,
            (λ a b. (
              (λ e. elim ((edges a b).0 e) [
                | inl old ↦ inl old
                | inr (ea, eb) ↦ inr (differ, ground arith, ground arith)
              ]),
              (λ e. (edges a b).1 (elim e [
                | inl old ↦ inl old
                | inr (_, ea, eb) ↦ inr (ground arith, ground arith)
              ])),
            )),
          )
    ]
  ]

  -- One of the references of `c`.
  abbrev pub NeedsOne : Coordinate → List Coordinate → ℕ → ℕ → Type 0
  NeedsOne c refs a b = (other : Coordinate) × In other refs × Needs c other a b

  add_dependencies_lem :
      (c : Coordinate) (refs : List Coordinate) (g : directed.Graph)
      → IsKnown g
      → HasId c
      → Links B (NeedsOne c refs) g (add_dependencies B ids c refs g)
  unfolding add_dependencies
  add_dependencies_lem c [] g known has = (
    g,
    refl,
    (λ i. refl),
    (λ a b. ((λ e. inl e), (λ e. elim e [ inl old ↦ old | inr (_, m, _) ↦ absurd m ]))),
  )
  add_dependencies_lem c (other ∷ refs) g known has =
      let (h, run_h, nodes_h, edges_h) = add_dependency_lem c other g known has in
      let (k, run_k, nodes_k, edges_k) =
        add_dependencies_lem c refs h (IsKnown-same g h known nodes_h) has in
      (
        k,
        ground arith,
        (λ i. nodes_k i ∙ nodes_h i),
        (λ a b. (
          (λ e. elim ((edges_k a b).0 e) [
            | inl before ↦ elim ((edges_h a b).0 before) [
              | inl old ↦ inl old
              | inr needs ↦ inr (other, inl refl, needs)
            ]
            | inr (x, m, needs) ↦ inr (x, inr m, needs)
          ]),
          (λ e. (edges_k a b).1 (elim e [
            | inl old ↦ inl ((edges_h a b).1 (inl old))
            | inr (x, inl same, needs) ↦
                inl ((edges_h a b).1 (inr (subst (λ z. Needs c z a b) same needs)))
            | inr (x, inr m, needs) ↦ inr (x, m, needs)
          ])),
        )),
      )

  abbrev pub NeedsAny : List (Coordinate × List Coordinate) → ℕ → ℕ → Type 0
  NeedsAny entries a b =
      (c : Coordinate) × (refs : List Coordinate) × In (c, refs) entries × NeedsOne c refs a b

  pub add_all_dependencies_lem :
      (entries : List (Coordinate × List Coordinate)) (g : directed.Graph)
      → IsKnown g
      → ((c : Coordinate) (refs : List Coordinate) → In (c, refs) entries → HasId c)
      → Links B (NeedsAny entries) g (add_all_dependencies B ids entries g)
  unfolding add_all_dependencies
  add_all_dependencies_lem [] g known has = (
    g,
    refl,
    (λ i. refl),
    (λ a b. ((λ e. inl e), (λ e. elim e [ inl old ↦ old | inr (_, _, m, _) ↦ absurd m ]))),
  )
  add_all_dependencies_lem ((c, refs) ∷ entries) g known has =
      let (h, run_h, nodes_h, edges_h) =
        add_dependencies_lem c refs g known (has c refs (inl refl)) in
      let (k, run_k, nodes_k, edges_k) =
        add_all_dependencies_lem entries h (IsKnown-same g h known nodes_h)
          (λ x rs m. has x rs (inr m)) in
      (
        k,
        ground arith,
        (λ i. nodes_k i ∙ nodes_h i),
        (λ a b. (
          (λ e. elim ((edges_k a b).0 e) [
            | inl before ↦ elim ((edges_h a b).0 before) [
              | inl old ↦ inl old
              | inr needs ↦ inr (c, refs, inl refl, needs)
            ]
            | inr (x, rs, m, needs) ↦ inr (x, rs, inr m, needs)
          ]),
          (λ e. (edges_k a b).1 (elim e [
            | inl old ↦ inl ((edges_h a b).1 (inl old))
            | inr (x, rs, inl same, needs) ↦
                inl ((edges_h a b).1 (inr (subst (λ z. NeedsOne z.0 z.1 a b) same needs)))
            | inr (x, rs, inr m, needs) ↦ inr (x, rs, m, needs)
          ])),
        )),
      )
