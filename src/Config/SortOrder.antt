-- ===== src/Config/SortOrder.antt =====
-- The order of `get_sorted_parameters`: each parameter behind those that it refers to.
use dynatrace_configuration.Base.{
  ℕ, ◌<◌, ◌≡◌, refl, sym, ◌∙◌, subst, ◌↔◌, ◌⊎◌, inl, inr, true, false, List, [], ◌∷◌, map, reverse,
  some, arith, length, In, Distinct, in_reverse, in_of_get_elem?, get_elem?_of_in, ==_iff,
}
use mathlib.Core.List.{reverse-cons}
use dynatrace_configuration.TopologySort.Defs.{Matrix, TopologySortError, topology_sort}
use dynatrace_configuration.TopologySort.Invariant.{IsOrdered, IsOrdered-snoc, Matches}
use dynatrace_configuration.TopologySort.Termination.{topology_sort_returns}
use dynatrace_configuration.TopologySort.Order.{IsSchedule, topology_sort-IsSchedule}
use dynatrace_configuration.Config.Coordinate.{Coordinate}
use dynatrace_configuration.Config.Parameter.{NamedParameter}
use dynatrace_configuration.Config.Model.{Config}
use dynatrace_configuration.Config.Sort.{
  dependency_matrix, in_degrees, named, parameters_with_name, sorted, pick, get_sorted_parameters,
}
use dynatrace_configuration.Config.Picking.{in-pick, InOrder, pick-InOrder, in-parameters_with_name}

-- An order by a matrix, read backwards, is an order by the transposed matrix.
reverse-IsOrdered :
    (n : ℕ) (edges : Matrix) (seen xs : List ℕ)
    → IsOrdered n edges seen xs
    → ((i j : ℕ) → In i seen → j < n → edges i j ≡ true → In j seen)
    → ((i : ℕ) → i < n → In i seen ⊎ In i xs)
    → Distinct xs
    → ((i : ℕ) → In i xs → (i < n) × (¬ In i seen))
    → ((i : ℕ) → edges i i ≡ false)
    → IsOrdered n (λ i j. edges j i) [] (reverse xs)
reverse-IsOrdered n edges seen [] h closed all d fresh self = tt
reverse-IsOrdered n edges seen (x ∷ xs) (h, hs) closed all (new, d) fresh self =
    rw (reverse-cons x xs) (
      IsOrdered-snoc n (λ i j. edges j i) [] (reverse xs) x
        (reverse-IsOrdered n edges (x ∷ seen) xs hs
          (λ i j m l e. elim m [
            | inl same ↦ inr (h j l (subst (λ k. edges k j ≡ true) same e))
            | inr old ↦ inr (closed i j old l e)
          ])
          (λ i l. elim (all i l) [
            | inl old ↦ inl (inr old)
            | inr (inl same) ↦ inl (inl same)
            | inr (inr later) ↦ inr later
          ])
          d
          (λ i m. (
            (fresh i (inr m)).0,
            (λ s. elim s [
              | inl same ↦ new (subst (λ k. In k xs) same m)
              | inr old ↦ (fresh i (inr m)).1 old
            ]),
          ))
          self)
        (λ j l e. elim (all j l) [
          | inl old ↦ absurd ((fresh x (inl refl)).1 (closed j x old ((fresh x (inl refl)).0) e))
          | inr (inl same) ↦ absurd (clash (sym (self x) ∙ subst (λ k. edges k x ≡ true) same e))
          | inr (inr later) ↦ inl (in_reverse j xs later)
        ]))
  where
    clash : false ≡ true → ⊥
    clash e = cc

InOrder-mono :
    (conf : Coordinate) (params others seen ps : List NamedParameter)
    → ((q : NamedParameter) → In q others → In q params)
    → InOrder conf params seen ps
    → InOrder conf others seen ps
InOrder-mono conf params others seen [] sub h = tt
InOrder-mono conf params others seen (p ∷ ps) sub (h, hs) =
    ((λ q m. h q (sub q m)), InOrder-mono conf params others (p ∷ seen) ps sub hs)

module _ (c : Config) where
  abbrev params : List NamedParameter
  params = parameters_with_name c

  abbrev matrix : Matrix
  matrix = dependency_matrix c.coordinate params

  degrees-Matches : Matches (length params) matrix (in_degrees c.coordinate params)
  unfolding in_degrees
  degrees-Matches i l = refl

  self_free : (i : ℕ) → matrix i i ≡ false
  unfolding dependency_matrix
  self_free i = ground (arith, ==_iff i i)

  schedule_reversed :
      (indices : List ℕ)
      → IsSchedule (length params) matrix indices
      → IsOrdered (length params) (λ i j. matrix j i) [] (reverse indices)
  schedule_reversed indices s =
      reverse-IsOrdered (length params) matrix [] indices s.ordered (λ i j m. absurd m)
        (λ i l. inr ((s.members i).1 l)) s.distinct (λ i m. ((s.members i).0 m, (λ x. x))) self_free

  sorted_of_indices :
      (indices : List ℕ) (ps : List NamedParameter)
      → IsSchedule (length params) matrix indices
      → pick params (reverse indices) ≡ some ps
      → ((q : NamedParameter) → In q ps ↔ In q (map named c.parameters))
        × InOrder c.coordinate (map named c.parameters) [] ps
  sorted_of_indices indices ps s e = (
    (λ q.
        let (to, from) = in-pick params (reverse indices) ps q e in
        let (given, back) = in-parameters_with_name c q in
        (
          (λ m. let (i, _, at_i) = to m in given (in_of_get_elem? params i q at_i)),
          (λ m.
              let (i, l, at_i) = get_elem?_of_in params q (back m) in
              from (i, in_reverse i indices ((s.members i).1 l), at_i)),
        )),
    InOrder-mono c.coordinate params (map named c.parameters) [] ps
        (λ q m. (in-parameters_with_name c q).1 m)
        (pick-InOrder c.coordinate params [] [] (reverse indices) ps e (schedule_reversed indices s)
          (λ j q m. absurd m)),
  )

-- If the sort succeeds, the result holds exactly the parameters of the configuration, and each stands
-- behind all others that it refers to, so that they are resolved before it.
pub get_sorted_parameters-InOrder :
    (c : Config) (ps : List NamedParameter)
    → get_sorted_parameters c ≡ some (sorted ps)
    → ((q : NamedParameter) → In q ps ↔ In q (map named c.parameters))
      × InOrder c.coordinate (map named c.parameters) [] ps
unfolding get_sorted_parameters
get_sorted_parameters-InOrder c ps e =
    let (indices, errs, sorts) =
      topology_sort_returns (length (params c)) (matrix c) (in_degrees c.coordinate (params c)) in
    by_errors indices errs sorts
  where
    by_errors :
        (indices : List ℕ) (errs : List TopologySortError)
        → topology_sort (length (params c)) (matrix c) (in_degrees c.coordinate (params c))
          ≡ some (indices, errs)
        → ((q : NamedParameter) → In q ps ↔ In q (map named c.parameters))
          × InOrder c.coordinate (map named c.parameters) [] ps
    by_errors indices [] sorts =
        sorted_of_indices c indices ps
          (topology_sort-IsSchedule _ _ _ indices (degrees-Matches c) sorts) (ground arith)
    by_errors indices (x ∷ errs) sorts = ground arith
