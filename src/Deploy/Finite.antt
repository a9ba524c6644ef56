-- ===== src/Deploy/Finite.antt =====
-- The interface of a directed graph holds for finitely many nodes with a test for their edges.
use dynatrace_configuration.Base.{
  ℕ, ◌≡◌, refl, sym, ◌∙◌, subst, ◌≢◌, ◌↔◌, inl, inr, Bool, true, false, ◌&&◌, not, List, [], ◌∷◌,
  In, Distinct, ◌==◌, ==_iff, arith, if◌then◌else◌,
}
use dynatrace_configuration.Deploy.Graph.{DirectedGraph}

abbrev pub keep : (ℕ → Bool) → List ℕ → List ℕ
keep p [] = []
keep p (x ∷ xs) = let rest = keep p xs in if p x then x ∷ rest else rest

pub in-keep : (p : ℕ → Bool) (x : ℕ) (xs : List ℕ) → In x (keep p xs) ↔ (In x xs × (p x ≡ true))
in-keep p x [] = ((λ m. absurd m), (λ (m, e). m))
in-keep p x (y ∷ ys) = by_test (p y) refl (in-keep p x ys)
  where
    by_test :
        (b : Bool)
        → p y ≡ b
        → In x (keep p ys) ↔ (In x ys × (p x ≡ true))
        → In x (if b then y ∷ keep p ys else keep p ys) ↔ (In x (y ∷ ys) × (p x ≡ true))
    by_test true t h = (
      (λ m. elim m [
        | inl same ↦ (inl same, subst (λ z. p z ≡ true) (sym same) t)
        | inr m' ↦ let (a, b) = h.0 m' in (inr a, b)
      ]),
      (λ (m, e). elim m [ inl same ↦ inl same | inr m' ↦ inr (h.1 (m', e)) ]),
    )
    by_test false t h = (
      (λ m. let (a, b) = h.0 m in (inr a, b)),
      (λ (m, e). elim m [
        | inl same ↦ let bad : false ≡ true = sym t ∙ subst (λ z. p z ≡ true) same e in cc
        | inr m' ↦ h.1 (m', e)
      ]),
    )

pub keep-Distinct : (p : ℕ → Bool) (xs : List ℕ) → Distinct xs → Distinct (keep p xs)
keep-Distinct p [] d = tt
keep-Distinct p (x ∷ xs) (out, d) = by_test (p x) (keep-Distinct p xs d)
  where
    by_test : (b : Bool) → Distinct (keep p xs) → Distinct (if b then x ∷ keep p xs else keep p xs)
    by_test true h = ((λ m. out ((in-keep p x xs).0 m).0), h)
    by_test false h = h

module _ (all : List ℕ) (distinct : Distinct all) (edge : ℕ → ℕ → Bool)
    (inside : (a b : ℕ) → edge a b ≡ true → In a all × In b all) where
  abbrev pub has_edge : (ℕ → Bool) → ℕ → ℕ → Bool
  has_edge alive a b = edge a b && alive a && alive b

  pub has_edge_parts :
      (alive : ℕ → Bool) (a b : ℕ)
      → has_edge alive a b ≡ true
      → (edge a b ≡ true) × (alive a ≡ true) × (alive b ≡ true)
  has_edge_parts alive a b e = (ground arith, ground arith, ground arith)

  abbrev pub without : (ℕ → Bool) → ℕ → ℕ → Bool
  without alive i x = alive x && not (x == i)

  pub nodes-without :
      (alive : ℕ → Bool) (i a : ℕ)
      → In a (keep (without alive i) all) ↔ (In a (keep alive all) × (a ≢ i))
  nodes-without alive i a = (
    (λ m.
        let (in_a, e) = (in-keep (without alive i) a all).0 m in
        ((in-keep alive a all).1 (in_a, ground arith), (λ same. ground (arith, ==_iff a i)))),
    (λ (m, ne).
        let (in_a, e) = (in-keep alive a all).0 m in
        (in-keep (without alive i) a all).1 (in_a, ground (arith, ==_iff a i))),
  )

  pub edge-without :
      (alive : ℕ → Bool) (i a b : ℕ)
      → (has_edge (without alive i) a b ≡ true) ↔ ((has_edge alive a b ≡ true) × (a ≢ i) × (b ≢ i))
  edge-without alive i a b = ground (arith, ==_iff a i, ==_iff b i)

  -- A graph is the nodes that are alive, and the edges between them.
  abbrev pub finite : DirectedGraph
  finite = record {
    Graph = ℕ → Bool;
    nodes = λ alive. keep alive all;
    has_edge_from_to = has_edge;
    from = λ alive a. keep (has_edge alive a) all;
    to = λ alive b. keep (λ a. has_edge alive a b) all;
    remove_node = without;
    nodes_distinct = λ alive. keep-Distinct alive all distinct;
    in-from = λ alive a b. (
      (λ m. ((in-keep (has_edge alive a) b all).0 m).1),
      (λ e.
          (in-keep (has_edge alive a) b all).1 ((inside a b (has_edge_parts alive a b e).0).1, e)),
    );
    in-to = λ alive a b. (
      (λ m. ((in-keep (λ x. has_edge alive x b) a all).0 m).1),
      (λ e.
          (in-keep (λ x. has_edge alive x b) a all).1
            ((inside a b (has_edge_parts alive a b e).0).0, e)),
    );
    edge_nodes = λ alive a b e.
        let (there, at_a, at_b) = has_edge_parts alive a b e in
        let (in_a, in_b) = inside a b there in
        ((in-keep alive a all).1 (in_a, at_a), (in-keep alive b all).1 (in_b, at_b));
    nodes-remove_node = nodes-without;
    edge-remove_node = λ alive i a b. edge-without alive i a b;
  }
