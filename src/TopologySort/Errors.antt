-- ===== src/TopologySort/Errors.antt =====
-- The errors name the nodes that a cycle keeps waiting.
use dynatrace_configuration.Base.{
  ℕ, ◌<◌, ◌≡◌, refl, sym, ◌∙◌, ap, subst, ◌↔◌, true, not, List, [], ◌∷◌, arith, In, inl, inr, some,
  map, All,
}
use dynatrace_configuration.TopologySort.Defs.{
  is_zero, Matrix, Degrees, TopologySortError, indices_from, topology_sort, collect_errors,
  unresolved, get_source_of_incoming_edges,
}
use dynatrace_configuration.TopologySort.Relax.{in-indices_from, indices_from-in}
use dynatrace_configuration.TopologySort.Invariant.{Matches}
use dynatrace_configuration.TopologySort.Stopped.{Stopped, topology_sort-Stopped, reported_iff}

-- What an error entry says: its node is below n and unsorted, and it lists exactly the unsorted
-- sources of edges into the node.
abbrev pub Explains : ℕ → Matrix → List ℕ → TopologySortError → Type 0
Explains n edges sorted err =
    (j : ℕ)
    → In j err.unresolved_incoming_edges_from
      ↔ ((j < n) × (edges err.on_id j ≡ true) × (¬ In j sorted))

module _ {n : ℕ} {edges : Matrix} {sorted : List ℕ} {errs : List TopologySortError}
    (st : Stopped n edges sorted errs) where
  unresolved-Explains : (i : ℕ) → i < n → Explains n edges sorted (unresolved n st.final.edges i)
  unfolding get_source_of_incoming_edges
  unresolved-Explains i a j = (
    (λ m.
        let (_, b, e) = in-indices_from (st.final.edges i) 0 n j m in
        let (edge, waiting) = (st.inv.remaining i j a (omega arith)).0 e in
        (omega arith, edge, rw st.same_sorted at waiting)),
    (λ (b, edge, waiting).
        indices_from-in (st.final.edges i) 0 n j (omega arith) (omega arith)
          ((st.inv.remaining i j a b).1 (edge, rw st.same_sorted waiting))),
  )

  map-Explains :
      (xs : List ℕ)
      → ((i : ℕ) → In i xs → i < n)
      → All (Explains n edges sorted) (map (unresolved n st.final.edges) xs)
  map-Explains [] h = tt
  map-Explains (x ∷ xs) h =
      (unresolved-Explains x (h x (inl refl)), map-Explains xs (λ i m. h i (inr m)))

  map_on_id : (xs : List ℕ) → map (λ e. e.on_id) (map (unresolved n st.final.edges) xs) ≡ xs
  map_on_id [] = refl
  map_on_id (x ∷ xs) = ap (λ r. x ∷ r) (map_on_id xs)

-- If the degrees match the matrix, the errors name exactly the nodes below n that are left out of
-- the result, and each lists exactly the left-out sources of edges into its node.
pub topology_sort_errors :
    (n : ℕ) (edges : Matrix) (degrees : Degrees) (sorted : List ℕ) (errs : List TopologySortError)
    → Matches n edges degrees
    → topology_sort n edges degrees ≡ some (sorted, errs)
    → ((i : ℕ) → In i (map (λ e. e.on_id) errs) ↔ ((i < n) × (¬ In i sorted)))
      × All (Explains n edges sorted) errs
unfolding collect_errors
topology_sort_errors n edges degrees sorted errs m e =
    let st = topology_sort-Stopped n edges degrees sorted errs m e in
    let named = indices_from (λ x. not (is_zero (st.final.degrees x))) 0 n in
    let ids : map (λ e. e.on_id) errs ≡ named =
      ap (map (λ e. e.on_id)) (sym st.same_errs) ∙ map_on_id st named in
    (
      (λ i. rw ids (reported_iff st i)),
      subst (All (Explains n edges sorted)) st.same_errs
          (map-Explains st named (λ i r. ((reported_iff st i).0 r).0)),
    )
