-- ===== src/Deploy/Invariant.antt =====
-- The invariant of `deployGraph` inside a round, and the lists of reports it speaks of.
use dynatrace_configuration.Base.{
  ℕ, ◌+◌, ◌≡◌, refl, sym, ap, subst, ◌≢◌, ◌↔◌, ◌⊎◌, inl, inr, List, [], ◌∷◌, ◌++◌, map, arith, In,
  Distinct, append_assoc, append-nil, in-map_back,
}
use dynatrace_configuration.Deploy.Graph.{DirectedGraph}
use dynatrace_configuration.Deploy.Loop.{
  Status, status_deployed, status_failed, status_excluded, status_skipped, Report, State,
}
use dynatrace_configuration.Deploy.Removal.{skipped, Edge, Descends}
use dynatrace_configuration.Deploy.RemoveChildren.{NoChildren}

abbrev pub reported : List Report → List ℕ
reported rs = map (λ r. r.node) rs

abbrev pub with_status : ℕ → Status → Report
with_status n st = record { node = n; status = st }

abbrev pub is_failed : Status → ℕ
is_failed status_failed = 1
is_failed _ = 0

abbrev pub failures : List Report → ℕ
failures [] = 0
failures (r ∷ rs) = is_failed r.status + failures rs

abbrev pub IsBlocking : Status → Type 0
IsBlocking st = (st ≡ status_failed) ⊎ (st ≡ status_excluded)

module _ (D : DirectedGraph) where
  open D use {Graph}

  -- Every node that was attempted, whatever came of it, was attempted after all nodes with an edge
  -- to it had been deployed.
  abbrev pub IsCausal : Graph → List Report → List Report → Type 0
  IsCausal g seen [] = Unit
  IsCausal g seen (r ∷ rs) =
      (r.status ≢ status_skipped
        → (m : ℕ) → Edge D g m r.node
        → In (with_status m status_deployed) seen)
      × IsCausal g (r ∷ seen) rs

  -- Every node that was skipped is below one that failed or was excluded.
  abbrev pub IsBlamed : Graph → List Report → Type 0
  IsBlamed g rs =
      (x : ℕ)
      → In (with_status x status_skipped) rs
      → (r : ℕ) × (st : Status) × Descends D g r x × IsBlocking st × In (with_status r st) rs

module _ (D : DirectedGraph) where
  open D use {Graph, nodes}

  -- `handled` are the roots of the round that were handled already; they leave the graph at its end.
  pub record Invariant (g : Graph) (handled : List ℕ) (s : State D) : Type 0 where
    pub given : (x : ℕ) → In x (nodes s.graph) → In x (nodes g)
    pub edges :
        (a b : ℕ)
        → Edge D s.graph a b ↔ (Edge D g a b × In a (nodes s.graph) × In b (nodes s.graph))
    pub split : (x : ℕ) → In x (nodes g) → In x (nodes s.graph) ⊎ In x (reported s.reports)
    pub known : (x : ℕ) → In x (reported s.reports) → In x (nodes g)
    pub fresh : (x : ℕ) → In x (nodes s.graph) → In x (reported s.reports) → In x handled
    pub distinct : Distinct (reported s.reports)
    pub waiting : (x : ℕ) → In x handled → In x (nodes s.graph) × In x (reported s.reports)
    pub rootless : (a x : ℕ) → In x handled → ¬ Edge D s.graph a x
    pub supported :
        (m n : ℕ)
        → In n (nodes s.graph)
        → Edge D g m n
        → In m (nodes s.graph) ⊎ In (with_status m status_deployed) s.reports
    pub settled :
        (x : ℕ) → In x handled → In (with_status x status_deployed) s.reports ⊎ NoChildren D s x
    pub causal : IsCausal D g [] s.reports
    pub blamed : IsBlamed D g s.reports
    pub counted : s.err_count ≡ failures s.reports

module _ (D : DirectedGraph) where
  open D use {Graph, nodes}

  pub IsCausal-snoc :
      (g : Graph) (seen rs : List Report) (r : Report)
      → IsCausal D g seen rs
      → (r.status ≢ status_skipped
          → (m : ℕ) → Edge D g m r.node
          → In (with_status m status_deployed) rs ⊎ In (with_status m status_deployed) seen)
      → IsCausal D g seen (rs ++ r ∷ [])
  IsCausal-snoc g seen [] r h k =
      ((λ attempted m e. elim (k attempted m e) [ inl bad ↦ absurd bad | inr old ↦ old ]), tt)
  IsCausal-snoc g seen (q ∷ rs) r (h, hs) k = (
    h,
    IsCausal-snoc g (q ∷ seen) rs r hs λ attempted m e. elim (k attempted m e) [
      | inl (inl same) ↦ inr (inl same)
      | inl (inr later) ↦ inl later
      | inr old ↦ inr (inr old)
    ],
  )

  pub IsCausal-skipped :
      (g : Graph) (rs : List Report) (xs : List ℕ)
      → IsCausal D g [] rs
      → IsCausal D g [] (rs ++ map skipped xs)
  IsCausal-skipped g rs [] h = rw append-nil h
  IsCausal-skipped g rs (x ∷ xs) h = rw (← append_assoc rs (skipped x ∷ []) (map skipped xs)) (
      IsCausal-skipped g (rs ++ skipped x ∷ []) xs
        (IsCausal-snoc g [] rs (skipped x) h (λ attempted. absurd (attempted refl))))

  pub failures-append : (rs qs : List Report) → failures (rs ++ qs) ≡ failures rs + failures qs
  failures-append [] qs = omega arith
  failures-append (r ∷ rs) qs = omega (arith, failures-append rs qs)

  pub failures-skipped : (xs : List ℕ) → failures (map skipped xs) ≡ 0
  failures-skipped [] = refl
  failures-skipped (x ∷ xs) = omega (arith, failures-skipped xs)

  pub reported-skipped : (xs : List ℕ) → reported (map skipped xs) ≡ xs
  reported-skipped [] = refl
  reported-skipped (x ∷ xs) = ap (λ r. x ∷ r) (reported-skipped xs)

  pub not-skipped_of_skipped :
      (x : ℕ) (st : Status) (xs : List ℕ)
      → In (with_status x st) (map skipped xs)
      → (st ≡ status_skipped) × In x xs
  not-skipped_of_skipped x st xs m =
      let (y, e, there) = in-map_back skipped (with_status x st) xs m in
      (ap (λ r. r.status) e, subst (λ z. In z xs) (sym (ap (λ r. r.node) e)) there)
