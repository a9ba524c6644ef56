-- ===== src/Config/Resolve.antt =====
-- pkg/config/resolve.go, `Config.ResolveParameterValues` of pkg/config/config.go, and the
-- `ResolveValue` methods below pkg/config/parameter.
use dynatrace_configuration.Base.{
  String, Bool, List, [], ◌∷◌, ◌++◌, Option, none, some, str_eq, if◌then◌else◌,
}
use dynatrace_configuration.Base.Value.{
  Value, null, bool, num, str, arr, obj, any_map, Fields, end, field, get, put, to_string, join,
  ◌<>◌,
}
use dynatrace_configuration.Config.Coordinate.{Coordinate, same_coordinate}
use dynatrace_configuration.Config.Parameter.{
  ParameterReference, EnvironmentVariableParameter, CompoundParameter, Parameter, value, reference,
  environment, compound, list, file, NamedParameter, get_references, Result, ok, err, ◌>>=◌,
}
use dynatrace_configuration.Config.Entities.{
  EntityMap, get_resolved_entity, resolve_prop_value, get_resolved_property,
}
use dynatrace_configuration.Config.Model.{Config, name_parameter}
use dynatrace_configuration.Config.Sort.{
  CircularDependencyParameterSortError, Sorted, sorted, circular, get_sorted_parameters,
}

-- What the methods take from the process and from the standard library: the environment variables,
-- the JSON escaping of a text, the execution of a parsed template, reading and rendering a file
-- template, and the `%s` format.
pub record Runtime : Type 0 where
  pub lookup_env : String → Option String
  pub escape_string : String → Result String
  pub execute : String → Fields → Result String
  pub render_file : String → Fields → Result String
  pub sprint : Value → String

pub record ResolveContext : Type 0 where
  pub property_resolver : Option EntityMap
  pub config_coordinate : Coordinate
  pub parameter_name : String
  pub resolved_parameter_values : Fields

module _ (run : Runtime) where
  unfoldable mutual
    -- `EscapeSpecialCharactersInValue`; a list, a number and a `map[any]any` are
    -- returned unchanged.
    pub escape_value : Value → Result Value
    escape_value (str s) = do t ← run.escape_string s; ok (str t)
    escape_value (obj m) = do n ← escape_fields m; ok (obj n)
    escape_value null = ok null
    escape_value (bool b) = ok (bool b)
    escape_value (num n) = ok (num n)
    escape_value (arr xs) = ok (arr xs)
    escape_value (any_map m) = ok (any_map m)

    pub escape_fields : Fields → Result Fields
    escape_fields end = ok end
    escape_fields (field k v m) = do w ← escape_value v; n ← escape_fields m; ok (field k w n)

  unfoldable pub resolve_reference : ParameterReference → ResolveContext → Result Value
  resolve_reference ref ctx =
      if same_coordinate ctx.config_coordinate ref.config
      then elim (resolve_prop_value ref.property ctx.resolved_parameter_values) [
        | some v ↦ ok v
        | none ↦ err "property has not been resolved yet or does not exist"
      ]
      else elim (ctx.property_resolver) [
        | none ↦ err "no PropertyResolver is defined"
        | some resolver ↦ elim (get_resolved_property resolver ref.config ref.property) [
          | some v ↦ ok v
          | none ↦ err "config has not been resolved yet or does not exist"
        ]
      ]

  unfoldable pub resolve_environment : EnvironmentVariableParameter → Result Value
  resolve_environment e = elim (run.lookup_env e.name) [
    | some v ↦ escape_value (str v)
    | none ↦
        if e.has_default_value
        then escape_value (str e.default_value)
        else err ("environment variable `" <> e.name <> "` not set")
  ]

  -- The loop that collects the values of the referenced parameters.
  unfoldable pub referenced_values : List ParameterReference → Fields → Fields → Result Fields
  referenced_values [] resolved acc = ok acc
  referenced_values (r ∷ rs) resolved acc = elim (get r.property resolved) [
    | none ↦ err ("unknown parameter '" <> r.property <> "'")
    | some v ↦ referenced_values rs resolved (put r.property v acc)
  ]

  unfoldable pub resolve_compound : CompoundParameter → ResolveContext → Result Value
  unfolding referenced_values
  resolve_compound c ctx = do
    compound_data ← referenced_values c.referenced_parameters ctx.resolved_parameter_values end
    s ← run.execute c.raw_format_string compound_data
    escape_value (str s)

  unfoldable pub resolve_file :
      String → Bool → List ParameterReference → ResolveContext → Result Value
  unfolding referenced_values
  resolve_file path escape refs ctx = do
    values ← referenced_values refs ctx.resolved_parameter_values end
    content ← run.render_file path values
    if escape then escape_value (str content) else ok (str content)

  unfoldable pub resolve_list_values : List Value → Result (List String)
  resolve_list_values [] = ok []
  resolve_list_values (v ∷ vs) = do
    resolved ← escape_value v
    rest ← resolve_list_values vs
    ok (("\"" <> run.sprint resolved <> "\"") ∷ rest)

  unfoldable pub resolve_list : List Value → Result Value
  unfolding resolve_list_values
  resolve_list vs = do values ← resolve_list_values vs; ok (str ("[ " <> join "," values <> " ]"))

  -- The method `ResolveValue` of each parameter type.
  unfoldable pub resolve_value : Parameter → ResolveContext → Result Value
  resolve_value (value v) ctx = escape_value v
  resolve_value (reference r) ctx = resolve_reference r ctx
  resolve_value (environment e) ctx = resolve_environment e
  resolve_value (compound c) ctx = resolve_compound c ctx
  resolve_value (list vs) ctx = resolve_list vs
  resolve_value (file path escape refs) ctx = resolve_file path escape refs ctx

pub record ParamsRefErr : Type 0 where
  pub location : Coordinate
  pub group : String
  pub environment : String
  pub parameter_name : String
  pub reference : ParameterReference
  pub reason : String

pub data ResolveError : Type 0 where
  circular_dependency : CircularDependencyParameterSortError → ResolveError
  invalid_reference : ParamsRefErr → ResolveError
  unresolvable : (parameter_name reason : String) → ResolveError

abbrev pub reference_error : Config → String → ParameterReference → String → ResolveError
reference_error c name ref reason = invalid_reference (record {
  location = c.coordinate;
  group = c.group;
  environment = c.environment;
  parameter_name = name;
  reference = ref;
  reason = reason;
})

unfoldable pub validate_reference :
    Config → EntityMap → String → ParameterReference → List ResolveError
validate_reference c entities name ref =
    if same_coordinate ref.config c.coordinate
    then (if str_eq ref.property name
        then reference_error c name ref "parameter referencing itself" ∷ []
        else [])
    else elim (get_resolved_entity entities ref.config) [
      | none ↦ reference_error c name ref "referenced config not found" ∷ []
      | some e ↦ if e.skip then reference_error c name ref "referencing skipped config" ∷ [] else []
    ]

unfoldable pub validate_parameter_references :
    Config → EntityMap → String → List ParameterReference → List ResolveError
validate_parameter_references c entities name [] = []
validate_parameter_references c entities name (ref ∷ refs) =
    validate_reference c entities name ref ++ validate_parameter_references c entities name refs

pub record Resolving : Type 0 where
  pub properties : Fields
  pub errors : List ResolveError

module _ (run : Runtime) (c : Config) (entities : EntityMap) where
  abbrev pub context : String → Fields → ResolveContext
  context name properties = record {
    property_resolver = some entities;
    config_coordinate = c.coordinate;
    parameter_name = name;
    resolved_parameter_values = properties;
  }

  abbrev pub stored : String → Value → Value
  stored name v = if str_eq name name_parameter then str (to_string v) else v

  abbrev pub store : NamedParameter → Resolving → Result Value → Resolving
  store p s (ok v) = record s { properties = put p.name (stored p.name v) s.properties }
  store p s (err e) = record s { errors = s.errors ++ unresolvable p.name e ∷ [] }

  abbrev pub store_if_valid : NamedParameter → Resolving → List ResolveError → Resolving
  store_if_valid p s [] = store p s (resolve_value run p.parameter (context p.name s.properties))
  store_if_valid p s (e ∷ es) = record s { errors = s.errors ++ e ∷ es }

  -- The body of the loop over the sorted parameters.
  unfoldable pub resolve_parameter : NamedParameter → Resolving → Resolving
  resolve_parameter p s =
      store_if_valid p s
        (validate_parameter_references c entities p.name (get_references p.parameter))

  unfoldable pub resolve_values : List NamedParameter → Resolving → Resolving
  resolve_values [] s = s
  resolve_values (p ∷ ps) s = resolve_values ps (resolve_parameter p s)

  abbrev pub finished : Resolving → Fields × List ResolveError
  finished s = elim (s.errors) [ [] ↦ (s.properties, []) | e ∷ es ↦ (end, e ∷ es) ]

  abbrev pub circular_errors : List CircularDependencyParameterSortError → List ResolveError
  circular_errors [] = []
  circular_errors (e ∷ es) = circular_dependency e ∷ circular_errors es

  abbrev pub resolve_sorted : Sorted → Fields × List ResolveError
  resolve_sorted (sorted ps) =
      finished (resolve_values ps (record { properties = end; errors = [] }))
  resolve_sorted (circular es) = (end, circular_errors es)

  -- The properties, or the errors with no properties. `none` is a panic, which never happens.
  unfoldable pub resolve_parameter_values : Option (Fields × List ResolveError)
  resolve_parameter_values = elim (get_sorted_parameters c) [
    | none ↦ none
    | some s ↦ some (resolve_sorted s)
  ]
