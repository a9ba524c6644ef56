-- ===== src/Config/Picking.antt =====
-- Picking parameters by index, and an order of indices as an order of parameters.
use dynatrace_configuration.Base.{
  ℕ, ◌<◌, ◌≡◌, refl, sym, ◌∙◌, ap, ◌≢◌, ◌↔◌, inl, inr, true, List, [], ◌∷◌, map, some, arith,
  length, get_elem?, In, get_elem?_of_in, get_elem?_below, in-map, in-map_back, sort_by_key,
  in-sort_by_key, ==_iff, Option-cases,
}
use dynatrace_configuration.TopologySort.Invariant.{IsOrdered}
use dynatrace_configuration.Config.Coordinate.{Coordinate}
use dynatrace_configuration.Config.Parameter.{NamedParameter}
use dynatrace_configuration.Config.Model.{Config}
use dynatrace_configuration.Config.Sort.{
  parameter_reference, dependency_matrix, named, parameters_with_name, pick,
}

pub pick_total :
    (params : List NamedParameter) (is : List ℕ)
    → ((i : ℕ) → In i is → i < length params)
    → (ps : List NamedParameter) × (pick params is ≡ some ps)
unfolding pick
pick_total params [] h = ([], refl)
pick_total params (i ∷ is) h =
    let (p, e) = get_elem?_below params i (h i (inl refl)) in
    let (ps, es) = pick_total params is (λ j m. h j (inr m)) in (p ∷ ps, ground arith)

pub pick-cons :
    (params : List NamedParameter) (i : ℕ) (is : List ℕ) (ps : List NamedParameter)
    → pick params (i ∷ is) ≡ some ps
    → (p : NamedParameter) × (rest : List NamedParameter) × (get_elem? params i ≡ some p)
      × (pick params is ≡ some rest)
      × (ps ≡ p ∷ rest)
unfolding pick
pick-cons params i is ps e = elim (Option-cases (get_elem? params i)) [
  | inl missing ↦ ground arith
  | inr (p, there) ↦ elim (Option-cases (pick params is)) [
    | inl bad ↦ ground arith
    | inr (rest, good) ↦ (p, rest, there, good, ground arith)
  ]
]

pub in-pick :
    (params : List NamedParameter) (is : List ℕ) (ps : List NamedParameter) (q : NamedParameter)
    → pick params is ≡ some ps
    → In q ps ↔ ((i : ℕ) × In i is × (get_elem? params i ≡ some q))
unfolding pick
in-pick params [] ps q e =
    let none_picked : [] ≡ ps = ground arith in
    rw (← none_picked) ((λ m. absurd m), (λ (i, m, _). absurd m))
in-pick params (i ∷ is) ps q e =
    let (p, rest, there, good, parts) = pick-cons params i is ps e in
    let (to, from) = in-pick params is rest q good in
    rw parts (
      (λ m. elim m [
        | inl same ↦ (i, inl refl, there ∙ ap some (sym same))
        | inr later ↦ let (j, m', e') = to later in (j, inr m', e')
      ]),
      (λ (j, m, e'). elim m [
        | inl same ↦ inl (same_item j e' there same)
        | inr later ↦ inr (from (j, later, e'))
      ]),
    )
  where
    same_item :
        {p : NamedParameter} (j : ℕ)
        → get_elem? params j ≡ some q
        → get_elem? params i ≡ some p
        → j ≡ i
        → q ≡ p
    same_item j a b s = ground arith

-- Each parameter of `ps` stands behind all other parameters of `params` that it refers to.
abbrev pub InOrder :
    Coordinate → List NamedParameter → List NamedParameter → List NamedParameter → Type 0
InOrder conf params seen [] = Unit
InOrder conf params seen (p ∷ ps) =
    ((q : NamedParameter) → In q params → parameter_reference p conf q ≡ true → q ≢ p → In q seen)
    × InOrder conf params (p ∷ seen) ps

pub pick-InOrder :
    (conf : Coordinate) (params seen : List NamedParameter) (seen_at is : List ℕ)
    (ps : List NamedParameter)
    → pick params is ≡ some ps
    → IsOrdered (length params) (λ i j. dependency_matrix conf params j i) seen_at is
    → ((j : ℕ) (q : NamedParameter) → In j seen_at → get_elem? params j ≡ some q → In q seen)
    → InOrder conf params seen ps
unfolding pick dependency_matrix
pick-InOrder conf params seen seen_at [] ps e h back =
    let none_picked : [] ≡ ps = ground arith in rw (← none_picked) tt
pick-InOrder conf params seen seen_at (i ∷ is) ps e (h, hs) back =
    let (p, rest, there, good, parts) = pick-cons params i is ps e in
    rw parts (
      (λ q m refers other.
          let (j, l, at_j) = get_elem?_of_in params q m in
          let apart : ¬ (j ≡ i) = λ s. other (same_item j q p at_j there s) in
          back j q (h j l (ground (arith, ==_iff j i))) at_j),
      pick-InOrder conf params (p ∷ seen) (i ∷ seen_at) is rest good hs (λ j q m at_j. elim m [
        | inl same ↦ inl (same_item j q p at_j there same)
        | inr old ↦ inr (back j q old at_j)
      ]),
    )
  where
    same_item :
        (j : ℕ) (q p : NamedParameter)
        → get_elem? params j ≡ some q
        → get_elem? params i ≡ some p
        → j ≡ i
        → q ≡ p
    same_item j q p a b s = ground arith

pub in-parameters_with_name :
    (c : Config) (q : NamedParameter)
    → In q (parameters_with_name c) ↔ In q (map named c.parameters)
unfolding parameters_with_name
in-parameters_with_name c q = (
  (λ m.
      let (x, e, there) = in-map_back named q (sort_by_key c.parameters) m in
      rw e (in-map named x c.parameters ((in-sort_by_key x c.parameters).0 there))),
  (λ m.
      let (x, e, there) = in-map_back named q c.parameters m in
      rw e (in-map named x (sort_by_key c.parameters) ((in-sort_by_key x c.parameters).1 there))),
)
