-- ===== src/Config/Sort.antt =====
-- pkg/config/sort.go: the order in which the parameters of a configuration are resolved.
use dynatrace_configuration.Base.{
  ℕ, String, Bool, true, false, ◌&&◌, ◌||◌, List, [], ◌∷◌, map, reverse, Option, none, some, str_eq,
  cut, sort_by_key, length, get_elem?, if◌then◌else◌, ◌==◌,
}
use dynatrace_configuration.Base.Value.{Value}
use dynatrace_configuration.TopologySort.Defs.{
  Matrix, Degrees, pos, TopologySortError, topology_sort,
}
use dynatrace_configuration.TopologySort.Counts.{count_below}
use dynatrace_configuration.Config.Coordinate.{Coordinate, same_coordinate}
use dynatrace_configuration.Config.Parameter.{
  Parameter, value, NamedParameter, ParameterReference, get_references,
}
use dynatrace_configuration.Config.Entities.{as_fields, dot, resolve_prop_value}
use dynatrace_configuration.Config.Model.{Config}

abbrev is_found : Option Value → Bool
is_found none = false
is_found (some v) = true

unfoldable pub search_value_parameter_for_key : String → String → Value → Bool
search_value_parameter_for_key key param_name v =
    let (first, rest, found) = cut dot key in
    elim (as_fields v) [
      | none ↦ str_eq key param_name
      | some vpm ↦
          if found && str_eq first param_name
          then is_found (resolve_prop_value rest vpm)
          else str_eq key param_name
    ]

-- Whether a reference to the configuration itself means the target.
unfoldable pub matches_target : String → NamedParameter → Bool
unfolding search_value_parameter_for_key
matches_target property target = elim (target.parameter) [
  | value v ↦ search_value_parameter_for_key property target.name v
  | _ ↦ str_eq property target.name
]

unfoldable pub any_reference : List ParameterReference → Coordinate → NamedParameter → Bool
any_reference [] config target = false
any_reference (ref ∷ refs) config target =
    (same_coordinate ref.config config && matches_target ref.property target)
    || any_reference refs config target

unfoldable pub parameter_reference : NamedParameter → Coordinate → NamedParameter → Bool
unfolding any_reference
parameter_reference source config target =
    any_reference (get_references source.parameter) config target

abbrev pub references_at : Coordinate → Option NamedParameter → Option NamedParameter → Bool
references_at conf none q = false
references_at conf (some p) none = false
references_at conf (some p) (some q) = parameter_reference p conf q

-- An entry at row i and column j: parameter j refers to parameter i.
unfoldable pub dependency_matrix : Coordinate → List NamedParameter → Matrix
dependency_matrix conf params i j =
    if i == j then false else references_at conf (get_elem? params j) (get_elem? params i)

-- `inDegrees[i]` is counted up with each entry that is set in row i.
unfoldable pub in_degrees : Coordinate → List NamedParameter → Degrees
in_degrees conf params i = pos (count_below (dependency_matrix conf params i) (length params))

abbrev pub named : String × Parameter → NamedParameter
named (name, p) = record { name = name; parameter = p }

-- `parametersWithName`, sorted by name.
unfoldable pub parameters_with_name : Config → List NamedParameter
parameters_with_name c = map named (sort_by_key c.parameters)

pub record CircularDependencyParameterSortError : Type 0 where
  pub location : Coordinate
  pub group : String
  pub environment : String
  pub parameter_name : String
  pub depends_on : List ParameterReference

pub data Sorted : Type 0 where
  sorted : List NamedParameter → Sorted
  circular : List CircularDependencyParameterSortError → Sorted

-- `params[i]` for each of the indices; `none` is a panic of Go on an index out of range.
unfoldable pub pick : List NamedParameter → List ℕ → Option (List NamedParameter)
pick params [] = some []
pick params (i ∷ is) = elim (get_elem? params i) [
  | none ↦ none
  | some p ↦ elim (pick params is) [ none ↦ none | some ps ↦ some (p ∷ ps) ]
]

abbrev pub circular_error : Config → NamedParameter → CircularDependencyParameterSortError
circular_error c p = record {
  location = c.coordinate;
  group = c.group;
  environment = c.environment;
  parameter_name = p.name;
  depends_on = get_references p.parameter;
}

abbrev pub from_indices :
    Config → List NamedParameter → List ℕ → List TopologySortError → Option Sorted
from_indices c params indices [] = elim (pick params (reverse indices)) [
  | none ↦ none
  | some ps ↦ some (sorted ps)
]
from_indices c params indices (e ∷ errs) = elim (pick params (map (λ x. x.on_id) (e ∷ errs))) [
  | none ↦ none
  | some ps ↦ some (circular (map (circular_error c) ps))
]

unfoldable pub get_sorted_parameters : Config → Option Sorted
get_sorted_parameters c =
    let params = parameters_with_name c in
    elim (topology_sort (length params) (dependency_matrix c.coordinate params)
      (in_degrees c.coordinate params)) [
        | none ↦ none
        | some (indices, errs) ↦ from_indices c params indices errs
      ]
