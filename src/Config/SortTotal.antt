-- ===== src/Config/SortTotal.antt =====
-- The sort of the parameters returns for every configuration, and succeeds where no cycle is.
use dynatrace_configuration.Base.{
  ℕ, ◌<◌, ◌≡◌, refl, ◌≢◌, inl, inr, true, List, [], ◌∷◌, map, reverse, Option, none, some, arith,
  length, get_elem?, In, in_reverse_back, in_of_get_elem?, get_elem?_below, ==_iff, Option-cases,
}
use dynatrace_configuration.TopologySort.Defs.{TopologySortError, topology_sort}
use dynatrace_configuration.TopologySort.Invariant.{Matches}
use dynatrace_configuration.TopologySort.Termination.{topology_sort_returns}
use dynatrace_configuration.TopologySort.Order.{topology_sort-IsSchedule, topology_sort_complete}
use dynatrace_configuration.TopologySort.Errors.{topology_sort_errors}
use dynatrace_configuration.Config.Parameter.{NamedParameter}
use dynatrace_configuration.Config.Model.{Config}
use dynatrace_configuration.Config.Picking.{pick_total, pick-cons, in-parameters_with_name}
use dynatrace_configuration.Config.Sort.{
  parameter_reference, dependency_matrix, in_degrees, named, parameters_with_name, Sorted, sorted,
  circular, CircularDependencyParameterSortError, circular_error, pick, from_indices,
  get_sorted_parameters,
}

module _ (c : Config) where
  abbrev params : List NamedParameter
  params = parameters_with_name c

  degrees-Matches :
      Matches
        (length params)
        (dependency_matrix c.coordinate params)
        (in_degrees c.coordinate params)
  unfolding in_degrees
  degrees-Matches i l = refl

  from_indices_total :
      (indices : List ℕ) (errs : List TopologySortError)
      → topology_sort
          (length params)
          (dependency_matrix c.coordinate params)
          (in_degrees c.coordinate params)
        ≡ some (indices, errs)
      → (r : Sorted) × (from_indices c params indices errs ≡ some r)
  from_indices_total indices [] e =
      let s = topology_sort-IsSchedule _ _ _ indices degrees-Matches e in
      let (ps, picked) =
        pick_total params (reverse indices)
          (λ i m. (s.members i).0 (in_reverse_back i indices m)) in
      (sorted ps, ground arith)
  from_indices_total indices (x ∷ errs) e =
      let (named_by, _) = topology_sort_errors _ _ _ indices (x ∷ errs) degrees-Matches e in
      let (ps, picked) =
        pick_total params (map (λ y. y.on_id) (x ∷ errs)) (λ i m. ((named_by i).0 m).0) in
      (circular (map (circular_error c) ps), ground arith)

-- The parameters of every configuration are sorted, or a list of circular dependencies is returned:
-- no index is out of range and the sort does not run out of rounds.
pub get_sorted_parameters_total : (c : Config) → (r : Sorted) × (get_sorted_parameters c ≡ some r)
unfolding get_sorted_parameters
get_sorted_parameters_total c =
    let (indices, errs, e) = topology_sort_returns _ _ (in_degrees c.coordinate (params c)) in
    let (r, from) = from_indices_total c indices errs e in (r, ground arith)

-- If a rank of the parameters rises along every reference of one parameter of the configuration to
-- another or to itself, so that no cycle of references is there, the sort succeeds.
pub get_sorted_parameters_complete :
    (c : Config) (rank : NamedParameter → ℕ)
    → ((p q : NamedParameter)
        → In p (map named c.parameters)
        → In q (map named c.parameters)
        → parameter_reference p c.coordinate q ≡ true
        → rank p < rank q)
    → (ps : List NamedParameter) × (get_sorted_parameters c ≡ some (sorted ps))
unfolding get_sorted_parameters dependency_matrix
get_sorted_parameters_complete c rank rises =
    let (indices, e) =
      topology_sort_complete (length (params c)) (dependency_matrix c.coordinate (params c))
        (in_degrees c.coordinate (params c)) rank_at (degrees-Matches c) falls in
    let s = topology_sort-IsSchedule _ _ _ indices (degrees-Matches c) e in
    let (ps, picked) =
      pick_total (params c) (reverse indices)
        (λ i m. (s.members i).0 (in_reverse_back i indices m)) in
    (ps, ground arith)
  where
    rank_of : Option NamedParameter → ℕ
    rank_of none = 0
    rank_of (some p) = rank p

    rank_at : ℕ → ℕ
    rank_at i = rank_of (get_elem? (params c) i)

    falls :
        (i j : ℕ)
        → i < length (params c)
        → j < length (params c)
        → dependency_matrix c.coordinate (params c) i j ≡ true
        → rank_at j < rank_at i
    falls i j a b e =
        let (p, at_i) = get_elem?_below (params c) i a in
        let (q, at_j) = get_elem?_below (params c) j b in
        let given_p = (in-parameters_with_name c p).0 (in_of_get_elem? (params c) i p at_i) in
        let given_q = (in-parameters_with_name c q).0 (in_of_get_elem? (params c) j q at_j) in
        let refers : parameter_reference q c.coordinate p ≡ true = ground (arith, ==_iff i j) in
        rw (at_i, at_j) (rises q p given_q given_p refers)

-- A refusal of the sort names at least one parameter.
pub circular-ne-nil :
    (c : Config) (es : List CircularDependencyParameterSortError)
    → get_sorted_parameters c ≡ some (circular es)
    → es ≢ []
unfolding get_sorted_parameters
circular-ne-nil c es e none_named =
    let (indices, errs, sorts) =
      topology_sort_returns (length (params c)) (dependency_matrix c.coordinate (params c))
        (in_degrees c.coordinate (params c)) in
    by_errors indices errs (ground arith)
  where
    by_errors :
        (indices : List ℕ) (errs : List TopologySortError)
        → from_indices c (params c) indices errs ≡ some (circular es)
        → ⊥
    by_errors indices [] f = elim (Option-cases (pick (params c) (reverse indices))) [
      | inl bad ↦ ground arith
      | inr (ps, good) ↦ ground arith
    ]
    by_errors indices (x ∷ xs) f =
        elim (Option-cases (pick (params c) (map (λ y. y.on_id) (x ∷ xs)))) [
          | inl bad ↦ ground arith
          | inr (ps, good) ↦
              let (p, rest, there, more, parts) =
                pick-cons (params c) x.on_id (map (λ y. y.on_id) xs) ps good in
              ground arith
        ]
