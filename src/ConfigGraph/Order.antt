-- ===== src/ConfigGraph/Order.antt =====
-- Topological orders, as gonum's `topo.Sort` gives them, and the ranks that they hold.
use dynatrace_configuration.Base.{
  ℕ, suc, ◌<◌, ◌≡◌, refl, sym, ap, subst, ◌↔◌, ◌⊎◌, inl, inr, true, false, List, [], ◌∷◌, some, map,
  In, Distinct, arith, length, ◌==◌, ==_iff, Bool-cases, if◌then◌else◌,
}
use dynatrace_configuration.ConfigGraph.Builder.{ConfigNode, DirectedGraphBuilder}
use dynatrace_configuration.Deploy.OneNode.{IsBounded}
use dynatrace_configuration.Deploy.Removal.{IsRanked}

-- The first number stands in the list before the second.
abbrev pub Before : ℕ → ℕ → List ℕ → Type 0
Before a b [] = ⊥
Before a b (x ∷ xs) = ((x ≡ a) × In b xs) ⊎ Before a b xs

-- The place of a number in a list; its length for one that is not there.
abbrev pub index : ℕ → List ℕ → ℕ
index a [] = 0
index a (x ∷ xs) = if x == a then 0 else suc (index a xs)

Before-in : (a b : ℕ) (xs : List ℕ) → Before a b xs → In a xs × In b xs
Before-in a b [] h = absurd h
Before-in a b (x ∷ xs) (inl (e, m)) = (inl (sym e), inr m)
Before-in a b (x ∷ xs) (inr h) = let (m, n) = Before-in a b xs h in (inr m, inr n)

not_in_rest : (x a : ℕ) (xs : List ℕ) → ¬ In x xs → In a xs → (x == a) ≡ false
not_in_rest x a xs out m = elim (Bool-cases (x == a)) [
  | inl e ↦ absurd (out (subst (λ z. In z xs) (sym ((==_iff x a).0 e)) m))
  | inr e ↦ e
]

index-in : (a : ℕ) (xs : List ℕ) → In a xs → index a xs < length xs
index-in a [] m = absurd m
index-in a (x ∷ xs) (inl same) = ground (arith, ==_iff x a)
index-in a (x ∷ xs) (inr m) = ground (arith, index-in a xs m)

index-Before : (a b : ℕ) (xs : List ℕ) → Distinct xs → Before a b xs → index a xs < index b xs
index-Before a b [] d h = absurd h
index-Before a b (x ∷ xs) (out, d) (inl (e, m)) =
    let other = not_in_rest x b xs out m in ground (arith, ==_iff x a)
index-Before a b (x ∷ xs) (out, d) (inr h) =
    let (in_a, in_b) = Before-in a b xs h in
    let other_a = not_in_rest x a xs out in_a in
    let other_b = not_in_rest x b xs out in_b in ground (arith, index-Before a b xs d h)

module _ (B : DirectedGraphBuilder) where
  open B use {directed, node}

  abbrev pub ids : List ConfigNode → List ℕ
  ids ns = map (λ n. n.node_id) ns

  -- What the documentation of `topo.Sort` says of the order it returns.
  pub record IsTopologicalOrder (g : directed.Graph) (ns : List ConfigNode) : Type 0 where
    pub once : Distinct (ids ns)
    pub all_nodes : (i : ℕ) → In i (ids ns) ↔ In i (directed.nodes g)
    pub own_nodes : (n : ConfigNode) → In n ns → node g n.node_id ≡ some n
    pub from_first : (a b : ℕ) → directed.has_edge_from_to g a b ≡ true → Before a b (ids ns)

  length-ids : (ns : List ConfigNode) → length (ids ns) ≡ length ns
  length-ids [] = refl
  length-ids (n ∷ ns) = ap suc (length-ids ns)

  pub rank_in : List ConfigNode → ℕ → ℕ
  rank_in ns i = index i (ids ns)

  pub IsTopologicalOrder-IsRanked :
      (g : directed.Graph) (ns : List ConfigNode)
      → IsTopologicalOrder g ns
      → IsRanked directed (rank_in ns) (length ns) g
  unfolding rank_in
  IsTopologicalOrder-IsRanked g ns order a b e =
      let before = order.from_first a b e in
      (
        index-Before a b (ids ns) order.once before,
        omega (arith, length-ids ns, index-in b (ids ns) (Before-in a b (ids ns) before).1),
      )

  pub IsTopologicalOrder-IsBounded :
      (g : directed.Graph) (ns : List ConfigNode)
      → IsTopologicalOrder g ns
      → IsBounded directed (rank_in ns) (length ns) g
  unfolding rank_in
  IsTopologicalOrder-IsBounded g ns order i m =
      omega (arith, length-ids ns, index-in i (ids ns) ((order.all_nodes i).1 m))
