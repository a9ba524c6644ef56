-- ===== src/TopologySort/Order.antt =====
-- A result without errors is an order of all nodes, and an acyclic graph has one.
use dynatrace_configuration.Base.{
  ℕ, suc, ◌<◌, ◌≡◌, refl, sym, ◌∙◌, ap, subst, ◌↔◌, true, not, List, [], ◌∷◌, arith, In, Distinct,
  inl, some, map,
}
use dynatrace_configuration.TopologySort.Defs.{
  is_zero, Matrix, Degrees, TopologySortError, indices_from, topology_sort, collect_errors,
  unresolved,
}
use dynatrace_configuration.TopologySort.Termination.{topology_sort_returns}
use dynatrace_configuration.TopologySort.Invariant.{Matches, IsOrdered}
use dynatrace_configuration.TopologySort.Stopped.{
  topology_sort-Stopped, all_sorted, sorted_iff, is_zero_of_not_reported, reported_iff,
  all_sorted_of_rank,
}

-- The nodes below n, each once, and each behind all sources of its incoming edges.
pub record IsSchedule (n : ℕ) (edges : Matrix) (sorted : List ℕ) : Type 0 where
  pub members : (i : ℕ) → In i sorted ↔ (i < n)
  pub distinct : Distinct sorted
  pub ordered : IsOrdered n edges [] sorted

-- If the degrees match the matrix and the sort reports no error, the result holds every node below n
-- exactly once, each behind all sources of its incoming edges.
pub topology_sort-IsSchedule :
    (n : ℕ) (edges : Matrix) (degrees : Degrees) (sorted : List ℕ)
    → Matches n edges degrees
    → topology_sort n edges degrees ≡ some (sorted, [])
    → IsSchedule n edges sorted
unfolding collect_errors
topology_sort-IsSchedule n edges degrees sorted m e =
    let st = topology_sort-Stopped n edges degrees sorted [] m e in
    let none_reported : (i : ℕ)
        → ¬ In i (indices_from (λ x. not (is_zero (st.final.degrees x))) 0 n) =
      λ i. nothing _ _ st.same_errs i in
    record {
      members = λ i. (
        (λ s. ((sorted_iff st i).0 s).0),
        (λ a. (sorted_iff st i).1 (a, is_zero_of_not_reported st i a (none_reported i))),
      );
      distinct = subst Distinct (all_sorted st) st.inv.distinct;
      ordered = subst (IsOrdered n edges []) st.same_sorted st.inv.ordered;
    }
  where
    nothing : (f : ℕ → TopologySortError) (xs : List ℕ) → map f xs ≡ [] → (i : ℕ) → ¬ In i xs
    nothing f [] q i h = h
    nothing f (x ∷ xs) q i h = cc

-- If the degrees match the matrix and the graph is acyclic, as a rank that every edge lowers shows,
-- the sort reports no error.
pub topology_sort_complete :
    (n : ℕ) (edges : Matrix) (degrees : Degrees) (rank : ℕ → ℕ)
    → Matches n edges degrees
    → ((i j : ℕ) → i < n → j < n → edges i j ≡ true → rank j < rank i)
    → (sorted : List ℕ) × (topology_sort n edges degrees ≡ some (sorted, []))
unfolding collect_errors
topology_sort_complete n edges degrees rank m falls =
    let (sorted, errs, e) = topology_sort_returns n edges degrees in
    let st = topology_sort-Stopped n edges degrees sorted errs m e in
    let none_reported : (i : ℕ)
        → ¬ In i (indices_from (λ x. not (is_zero (st.final.degrees x))) 0 n) =
      λ i r.
        let (a, absent) = (reported_iff st i).0 r in
        absent (all_sorted_of_rank st rank falls (suc (rank i)) i (omega arith) a) in
    let no_errs : errs ≡ [] =
      sym st.same_errs ∙ ap (map (unresolved n st.final.edges)) (nothing_in _ none_reported) in
    (sorted, rw no_errs at e)
  where
    nothing_in : (xs : List ℕ) → ((i : ℕ) → ¬ In i xs) → xs ≡ []
    nothing_in [] h = refl
    nothing_in (x ∷ xs) h = absurd (h x (inl refl))
