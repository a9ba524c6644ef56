-- ===== src/Validation/Classic.antt =====
-- The validators of pkg/deploy/internal/classic/validation.go.
use dynatrace_configuration.Base.{
  String, Bool, false, ◌&&◌, ◌||◌, List, [], ◌∷◌, ◌++◌, Option, none, some, str_eq, lookup, insert,
  if◌then◌else◌,
}
use dynatrace_configuration.Base.Value.{Value, Fields, get}
use dynatrace_configuration.Config.Coordinate.{same_coordinate}
use dynatrace_configuration.Config.Model.{
  Config, ConfigType, classic_api, parameter_of, scope_parameter, name_parameter,
}
use dynatrace_configuration.Config.Parameter.{
  Parameter, ParameterReference, CompoundParameter, reference, compound,
}
use dynatrace_configuration.Config.Resolve.{Runtime, ResolveError, resolve_parameter_values}

-- `cmp.Equal` of the library go-cmp at the types that it is called with. `none` is its panic,
-- on a type with an unexported field, which a file parameter is.
pub record Comparison : Type 0 where
  pub equal_parameters : Option Parameter → Option Parameter → Option Bool
  pub equal_values : Option Value → Option Value → Bool
  pub equal_references : List ParameterReference → List ParameterReference → Bool

-- What the validator returns: nil, an error that names another configuration, or nothing, since it
-- panics.
pub data Verdict : Type 0 where
  accepted : Verdict
  duplicate_of : Config → Verdict
  panicked : Verdict

-- What the validators read of an API; a missing one has no such fields set.
pub record ApiInfo : Type 0 where
  pub non_unique_name : Bool
  pub deprecated_by : String

abbrev pub key_user_actions_web : String
key_user_actions_web = "key-user-actions-web"

-- `uniqueNames`, which holds the configurations that were accepted, by environment and API.
abbrev pub UniqueNames : Type 0
UniqueNames = List (String × List (String × List Config))

-- The configurations at an environment and an API; a nil map has none.
unfoldable pub seen_at : String → String → UniqueNames → List Config
unfolding lookup
seen_at env api names = elim (lookup env names) [
  | none ↦ []
  | some apis ↦ elim (lookup api apis) [ none ↦ [] | some cs ↦ cs ]
]

abbrev pub apis_at : String → UniqueNames → List (String × List Config)
unfolding lookup
apis_at env names = elim (lookup env names) [ none ↦ [] | some apis ↦ apis ]

unfoldable pub record_seen : String → String → Config → UniqueNames → UniqueNames
unfolding insert
record_seen env api c names =
    insert env (insert api (seen_at env api names ++ c ∷ []) (apis_at env names)) names

unfoldable pub equal_reference_parameters : ParameterReference → ParameterReference → Bool
equal_reference_parameters r s = same_coordinate r.config s.config && str_eq r.property s.property

-- `none` for the panic that resolving could end in.
abbrev pub resolved : Option (Fields × List ResolveError) → Option Fields
resolved (some (values, [])) = some values
resolved _ = none

module _ (run : Runtime) (cmp : Comparison) where
  unfoldable pub equal_compound_parameters : CompoundParameter → CompoundParameter → Bool
  equal_compound_parameters p q =
      str_eq p.raw_format_string q.raw_format_string
      && cmp.equal_references p.referenced_parameters q.referenced_parameters

  -- `none` is a panic.
  unfoldable pub scopes_are_equal : Config → Config → Option Bool
  scopes_are_equal c d =
      cmp.equal_parameters (parameter_of c scope_parameter) (parameter_of d scope_parameter)

  -- The names are compared when the parameters of both configurations can be resolved.
  abbrev pub same_values : Option Fields → Option Fields → Bool
  same_values (some values) (some values') =
      cmp.equal_values (get name_parameter values) (get name_parameter values')
  same_values _ _ = false

  abbrev pub same_references : Option Parameter → Option Parameter → Bool
  same_references (some (reference r)) (some (reference s)) = equal_reference_parameters r s
  same_references _ _ = false

  abbrev pub same_compounds : Option Parameter → Option Parameter → Bool
  same_compounds (some (compound p)) (some (compound q)) = equal_compound_parameters p q
  same_compounds _ _ = false

  abbrev pub name_of : Config → Option Parameter
  name_of c = parameter_of c name_parameter

  -- Whether `ensureNonDuplicateNames` returns an error.
  unfoldable pub duplicate_names : Config → Config → Bool
  duplicate_names c d =
      same_values (resolved (resolve_parameter_values run c []))
        (resolved (resolve_parameter_values run d []))
      || (same_references (name_of c) (name_of d) || same_compounds (name_of c) (name_of d))

  -- The loop over the configurations that were accepted: the first that clashes.
  unfoldable pub first_duplicate : Config → List Config → Verdict
  first_duplicate c [] = accepted
  first_duplicate c (d ∷ ds) =
      let rest = first_duplicate c ds in
      elim (scopes_are_equal c d) [
        | none ↦ panicked
        | some same ↦ if same && duplicate_names c d then duplicate_of d else rest
      ]

  module _ (apis : String → ApiInfo) where
    -- The API of a configuration whose name has to be unique.
    unfoldable pub unique_api : ConfigType → Option String
    unique_api (classic_api api) =
        if (apis api).non_unique_name || str_eq api key_user_actions_web then none else some api
    unique_api _ = none

    -- The state after the call, and its verdict.
    unfoldable pub validate_classic : Config → UniqueNames → UniqueNames × Verdict
    validate_classic c names = elim (unique_api c.type) [
      | none ↦ (names, accepted)
      | some api ↦ elim (first_duplicate c (seen_at c.environment api names)) [
        | accepted ↦ (record_seen c.environment api c names, accepted)
        | duplicate_of d ↦ (names, duplicate_of d)
        | panicked ↦ (names, panicked)
      ]
    ]

    abbrev pub classic_api_of : ConfigType → Option String
    classic_api_of (classic_api api) = some api
    classic_api_of _ = none

    abbrev pub is_member : String → List String → Bool
    is_member x [] = false
    is_member x (y ∷ ys) = str_eq y x || is_member x ys

    -- The APIs that were seen, and the API that a warning is logged for.
    unfoldable pub validate_deprecated : Config → List String → List String × Option String
    validate_deprecated c seen_apis = elim (classic_api_of c.type) [
      | none ↦ (seen_apis, none)
      | some api ↦
          if is_member api seen_apis
          then (seen_apis, none)
          else if str_eq (apis api).deprecated_by ""
          then (api ∷ seen_apis, none)
          else (api ∷ seen_apis, some api)
    ]
