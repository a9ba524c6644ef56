-- ===== src/Deploy/Handled.antt =====
-- Handling one root keeps the invariant of a round of `deployGraph`.
use dynatrace_configuration.Base.{
  ℕ, ◌+◌, ◌≡◌, refl, sym, ◌∙◌, ap, subst, ◌≢◌, ◌⊎◌, inl, inr, List, [], ◌∷◌, ◌++◌, map, arith, In,
  Distinct, dec_in, in-append, in-append_left, in-append_right, Distinct-append, map-append,
  append_assoc,
}
use dynatrace_configuration.Config.Entities.{EntityMap}
use dynatrace_configuration.Deploy.Graph.{DirectedGraph}
use dynatrace_configuration.Deploy.Loop.{Status, status_deployed, status_skipped, Report, State}
use dynatrace_configuration.Deploy.Removal.{
  skipped, Edge, Descends, child, deeper, IsRanked, Descends-mono, Shrinks,
}
use dynatrace_configuration.Deploy.RemoveChildren.{NoChildren}
use dynatrace_configuration.Deploy.Invariant.{
  reported, with_status, failures, is_failed, IsBlocking, IsCausal, IsBlamed, Invariant,
  IsCausal-snoc, IsCausal-skipped, failures-append, failures-skipped, reported-skipped,
  not-skipped_of_skipped,
}

module _ (D : DirectedGraph) where
  open D use {Graph, nodes}

  pub Descends-Edge : {g : Graph} {a x : ℕ} → Descends D g a x → (p : ℕ) × Edge D g p x
  Descends-Edge {a} (child e) = (a, e)
  Descends-Edge (deeper {b} d e) = (b, e)

  skipped-ne-blocking : {st : Status} → IsBlocking st → st ≢ status_skipped
  skipped-ne-blocking (inl b) e = cc
  skipped-ne-blocking (inr b) e = cc

module _ (D : DirectedGraph) (rank : ℕ → ℕ) (bound : ℕ) (g : D.Graph) (handled : List ℕ)
    (s t : State D) (n : ℕ) (st : Status) (ranked : IsRanked D rank bound g)
    (inv : Invariant D g handled s) (here : In n (D.nodes s.graph))
    (unreported : ¬ In n (reported s.reports)) (root : (p : ℕ) → ¬ Edge D s.graph p n)
    (f : Shrinks D n s t)
    (outcome : ((st ≡ status_deployed) × (f.removed ≡ []))
      ⊎ (IsBlocking st × NoChildren D t n)) where
  open D use {Graph, nodes}

  abbrev reports_after : List Report
  reports_after = t.reports ++ with_status n st ∷ []

  reported_after : reported reports_after ≡ reported s.reports ++ (f.removed ++ n ∷ [])
  reported_after =
      ap (λ r. reported (r ++ with_status n st ∷ [])) f.reports
      ∙ simp (map-append, append_assoc, reported-skipped)

  in-reported_after :
      (x : ℕ) → In x (reported reports_after) → In x (reported s.reports) ⊎ In x f.removed ⊎ (x ≡ n)
  in-reported_after x m =
      elim (in-append x (reported s.reports) (f.removed ++ n ∷ [])
        (subst (In x) reported_after m)) [
          | inl old ↦ inl old
          | inr new ↦ elim (in-append x f.removed (n ∷ []) new) [
            | inl gone ↦ inr (inl gone)
            | inr (inl same) ↦ inr (inr same)
            | inr (inr bad) ↦ absurd bad
          ]
        ]

  old_reported : (x : ℕ) → In x (reported s.reports) → In x (reported reports_after)
  old_reported x m =
      subst (In x) (sym reported_after)
        (in-append_left x (reported s.reports) (f.removed ++ n ∷ []) m)

  removed_reported : (x : ℕ) → In x f.removed → In x (reported reports_after)
  removed_reported x m = subst (In x) (sym reported_after) (
      in-append_right x (reported s.reports) (f.removed ++ n ∷ [])
        (in-append_left x f.removed (n ∷ []) m))

  root_reported : In n (reported reports_after)
  root_reported = subst (In n) (sym reported_after) (
      in-append_right n (reported s.reports) (f.removed ++ n ∷ [])
        (in-append_right n f.removed (n ∷ []) (inl refl)))

  removed-ne-handled : (x : ℕ) → In x f.removed → ¬ In x handled
  removed-ne-handled x m h = let (p, e) = Descends-Edge D (f.descends x m) in inv.rootless p x h e

  removed-ne-root : ¬ In n f.removed
  removed-ne-root m = let (p, e) = Descends-Edge D (f.descends n m) in root p e

  removed-ne-reported : (x : ℕ) → In x f.removed → ¬ In x (reported s.reports)
  removed-ne-reported x m r = removed-ne-handled x m (inv.fresh x ((f.in_removed x).0 m).0 r)

  stays : (x : ℕ) → In x (nodes s.graph) → ¬ In x f.removed → In x (nodes t.graph)
  stays x m k = elim (dec_in x (nodes t.graph)) [
    | inl there ↦ there
    | inr gone ↦ absurd (k ((f.in_removed x).1 (m, gone)))
  ]

  Distinct-after : Distinct (reported reports_after)
  Distinct-after = subst Distinct (sym reported_after) (
      Distinct-append (reported s.reports) (f.removed ++ n ∷ []) inv.distinct
        (Distinct-append f.removed (n ∷ []) f.distinct ((λ b. b), tt)
          (λ x m k. elim k [
            | inl same ↦ removed-ne-root (subst (λ y. In y f.removed) same m)
            | inr bad ↦ bad
          ]))
        (λ x m k. elim (in-append x f.removed (n ∷ []) k) [
          | inl gone ↦ removed-ne-reported x gone m
          | inr (inl same) ↦ unreported (subst (λ y. In y (reported s.reports)) same m)
          | inr (inr bad) ↦ bad
        ]))

  old_report : (r : Report) → In r s.reports → In r reports_after
  old_report r m =
      in-append_left r t.reports (with_status n st ∷ [])
        (subst (In r) (sym f.reports) (in-append_left r s.reports (map skipped f.removed) m))

  root_report : In (with_status n st) reports_after
  root_report = in-append_right (with_status n st) t.reports (with_status n st ∷ []) (inl refl)

  supported_after :
      (m x : ℕ)
      → In x (nodes t.graph)
      → Edge D g m x
      → In m (nodes t.graph) ⊎ In (with_status m status_deployed) reports_after
  supported_after m x there e = elim (inv.supported m x (f.kept x there) e) [
    | inr done ↦ inr (old_report (with_status m status_deployed) done)
    | inl m_here ↦ elim (dec_in m (nodes t.graph)) [
      | inl m_there ↦ inl m_there
      | inr gone ↦
          absurd (f.closed m x m_here gone ((inv.edges m x).1 (e, m_here, f.kept x there)) there)
    ]
  ]

  settled_after :
      (x : ℕ)
      → In x (n ∷ handled)
      → In (with_status x status_deployed) reports_after ⊎ NoChildren D t x
  settled_after x (inl same) = elim outcome [
    | inl (deployed, _) ↦ inl (
        subst (λ y. In (with_status y status_deployed) reports_after) (sym same)
          (subst (λ q. In (with_status n q) reports_after) deployed root_report))
    | inr (_, bare) ↦ inr (subst (NoChildren D t) (sym same) bare)
  ]
  settled_after x (inr h) = elim (inv.settled x h) [
    | inl done ↦ inl (old_report (with_status x status_deployed) done)
    | inr bare ↦ inr (λ b e. bare b ((f.edges x b).0 e).0)
  ]

  IsCausal-after : IsCausal D g [] reports_after
  IsCausal-after =
      IsCausal-snoc D g [] t.reports (with_status n st)
        (subst (IsCausal D g []) (sym f.reports)
          (IsCausal-skipped D g s.reports f.removed inv.causal))
        (λ attempted m e. elim (inv.supported m n here e) [
          | inl m_here ↦ absurd (root m ((inv.edges m n).1 (e, m_here, here)))
          | inr done ↦ inl (
              subst (In (with_status m status_deployed)) (sym f.reports) (
                in-append_left (with_status m status_deployed) s.reports (map skipped f.removed)
                  done))
        ])

  blame_of_removed : (x : ℕ) → In x f.removed → IsBlocking st × Descends D g n x
  blame_of_removed x m = (
    elim outcome [
      | inl (_, none_removed) ↦ absurd (subst (In x) none_removed m)
      | inr (blocking, _) ↦ blocking
    ],
    Descends-mono D (λ a b e. ((inv.edges a b).0 e).0) (f.descends x m),
  )

  root-ne-skipped : st ≢ status_skipped
  root-ne-skipped e = elim outcome [
    | inl (deployed, _) ↦ cc
    | inr (blocking, _) ↦ skipped-ne-blocking D blocking e
  ]

  IsBlamed-after : IsBlamed D g reports_after
  IsBlamed-after x m =
      elim (in-append (with_status x status_skipped) t.reports (with_status n st ∷ []) m) [
        | inr (inl same) ↦ absurd (root-ne-skipped (sym (ap (λ r. r.status) same)))
        | inr (inr bad) ↦ absurd bad
        | inl before ↦
            elim (in-append (with_status x status_skipped) s.reports (map skipped f.removed)
              (subst (In (with_status x status_skipped)) f.reports before)) [
                | inl old ↦
                    let (r, q, below, blocking, there) = inv.blamed x old in
                    (r, q, below, blocking, old_report (with_status r q) there)
                | inr new ↦
                    let (_, gone) = not-skipped_of_skipped D x status_skipped f.removed new in
                    let (blocking, below) = blame_of_removed x gone in
                    (n, st, below, blocking, root_report)
              ]
      ]

  counted_after : s.err_count + is_failed st ≡ failures reports_after
  counted_after = omega (
    arith,
    inv.counted,
    failures-append D t.reports (with_status n st ∷ []),
    failures-append D s.reports (map skipped f.removed),
    failures-skipped D f.removed,
    ap failures f.reports,
  )

  -- The round goes on after the root `n` was reported with the status `st`, and everything that
  -- hangs on it was removed if it was not deployed.
  pub Invariant-handled :
      (es : EntityMap) (c : ℕ)
      → Invariant D g (n ∷ handled) record {
        graph = t.graph;
        entities = es;
        reports = t.reports ++ with_status n st ∷ [];
        calls = c;
        err_count = s.err_count + is_failed st;
      }
  Invariant-handled es c = record {
    given = λ x m. inv.given x (f.kept x m);
    edges = λ a b. (
      (λ e. let (es', ma, mb) = (f.edges a b).0 e in (((inv.edges a b).0 es').0, ma, mb)),
      (λ (e, ma, mb). (f.edges a b).1 ((inv.edges a b).1 (e, f.kept a ma, f.kept b mb), ma, mb)),
    );
    split = λ x m. elim (inv.split x m) [
      | inr old ↦ inr (old_reported x old)
      | inl there ↦ elim (dec_in x (nodes t.graph)) [
        | inl kept ↦ inl kept
        | inr gone ↦ inr (removed_reported x ((f.in_removed x).1 (there, gone)))
      ]
    ];
    known = λ x m. elim (in-reported_after x m) [
      | inl old ↦ inv.known x old
      | inr (inl gone) ↦ inv.given x ((f.in_removed x).0 gone).0
      | inr (inr same) ↦ subst (λ y. In y (nodes g)) (sym same) (inv.given n here)
    ];
    fresh = λ x m k. elim (in-reported_after x k) [
      | inl old ↦ inr (inv.fresh x (f.kept x m) old)
      | inr (inl gone) ↦ absurd (((f.in_removed x).0 gone).1 m)
      | inr (inr same) ↦ inl same
    ];
    distinct = Distinct-after;
    waiting = λ x m. elim m [
      | inl same ↦
          subst (λ y. In y (nodes t.graph) × In y (reported reports_after)) (sym same)
            (stays n here removed-ne-root, root_reported)
      | inr h ↦
          let (there, old) = inv.waiting x h in
          (stays x there (λ gone. removed-ne-handled x gone h), old_reported x old)
    ];
    rootless = λ a x m e. elim m [
      | inl same ↦ root a (subst (Edge D s.graph a) same ((f.edges a x).0 e).0)
      | inr h ↦ inv.rootless a x h ((f.edges a x).0 e).0
    ];
    supported = supported_after;
    settled = settled_after;
    causal = IsCausal-after;
    blamed = IsBlamed-after;
    counted = counted_after;
  }
