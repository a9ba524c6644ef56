-- ===== src/ProjectLoader/Defs.antt =====
-- The checks on the configurations of a project, and how they become a project, in
-- pkg/project/project_loader.go. `GetNameForConfig` is from pkg/config/config.go.
use Prim.Native.String.{◌++◌ as ◌<>◌}
use dynatrace_configuration.Base.{
  ℕ, suc, ltb, String, Bool, true, false, not, ◌&&◌, List, [], ◌∷◌, ◌++◌, Option, none, some,
  str_eq, lookup, insert, if◌then◌else◌,
}
use dynatrace_configuration.Base.Value.{Value, str, bool}
use dynatrace_configuration.Config.Coordinate.{Coordinate}
use dynatrace_configuration.Config.Model.{
  Config, type_id, parameter_of, references, name_parameter, scope_parameter,
}
use dynatrace_configuration.Config.Parameter.{Parameter, value, environment, reference, Result, ok}
use dynatrace_configuration.Config.Resolve.{Runtime, escape_value, resolve_environment}
use dynatrace_configuration.Project.{is_listed, ConfigsPerType, ConfigsPerTypePerEnvironments}

unfoldable pub to_fully_qualified_config_identifier : Config → String
to_fully_qualified_config_identifier c =
    c.group <> ":" <> c.environment <> ":" <> c.coordinate.project <> ":" <> c.coordinate.type
    <> ":" <> c.coordinate.config_id

-- The errors, each by the coordinate that it names, in their order.
unfoldable pub find_duplicated_config_identifiers : List String → List Config → List Coordinate
find_duplicated_config_identifiers seen [] = []
find_duplicated_config_identifiers seen (c ∷ cs) =
    let id = to_fully_qualified_config_identifier c in
    let rest = find_duplicated_config_identifiers (id ∷ seen) cs in
    if is_listed id seen then c.coordinate ∷ rest else rest

abbrev pub is_reference : Option Parameter → Bool
is_reference (some (reference r)) = true
is_reference _ = false

unfoldable pub check_key_user_action_scope : List Config → List Coordinate
check_key_user_action_scope [] = []
check_key_user_action_scope (c ∷ cs) =
    let rest = check_key_user_action_scope cs in
    if str_eq c.coordinate.type "key-user-actions-web"
      && not (is_reference (parameter_of c scope_parameter))
    then c.coordinate ∷ rest
    else rest

unfoldable pub set_parameter : String → Parameter → Config → Config
unfolding insert
set_parameter name p c = record c { parameters = insert name p c.parameters }

-- The last configuration that enables network zones.
abbrev pub network_zones_enabled : List Config → Option Coordinate
network_zones_enabled [] = none
network_zones_enabled (c ∷ cs) = elim (network_zones_enabled cs) [
  | some later ↦ some later
  | none ↦ if str_eq c.coordinate.type "builtin:networkzones" then some c.coordinate else none
]

unfoldable pub with_zone_reference : Coordinate → List Config → List Config
unfolding set_parameter
with_zone_reference enabled [] = []
with_zone_reference enabled (c ∷ cs) =
    let rest = with_zone_reference enabled cs in
    let with_reference =
      set_parameter "__MONACO_NZONE_ENABLED__"
        (reference (record { config = enabled; property = "name" })) c in
    if str_eq c.coordinate.type "network-zone" then with_reference ∷ rest else c ∷ rest

-- The parameters are changed in place.
unfoldable pub insert_network_zone_parameter : List Config → List Config
insert_network_zone_parameter cs = elim (network_zones_enabled cs) [
  | none ↦ cs
  | some enabled ↦ with_zone_reference enabled cs
]

abbrev pub text_of : Result Value → Option String
text_of (ok (str s)) = some s
text_of _ = none

abbrev pub name_of_parameter : Runtime → Option Parameter → Option String
name_of_parameter run (some (value v)) = text_of (escape_value run v)
name_of_parameter run (some (environment e)) = text_of (resolve_environment run e)
name_of_parameter run _ = none

-- The name of `GetNameForConfig` when it is a text.
unfoldable pub get_name_for_config : Runtime → Config → Option String
get_name_for_config run c = name_of_parameter run (parameter_of c name_parameter)

abbrev pub types_of : Option ConfigsPerType → ConfigsPerType
types_of none = []
types_of (some types) = types

abbrev pub configs_of_type : Option (List Config) → List Config
configs_of_type none = []
configs_of_type (some cs) = cs

unfoldable pub file_config : Config → ConfigsPerTypePerEnvironments → ConfigsPerTypePerEnvironments
unfolding lookup insert
file_config c m =
    let types = types_of (lookup c.environment m) in
    insert c.environment
      (insert c.coordinate.type (configs_of_type (lookup c.coordinate.type types) ++ c ∷ []) types)
      m

module _ (run : Runtime) (non_unique_name : String → Bool) where
  abbrev pub counts_as : String → String → Config → Bool
  counts_as env name c = elim (get_name_for_config run c) [
    | none ↦ false
    | some other ↦
        str_eq (type_id c.type) "classic"
        && non_unique_name c.coordinate.type
        && str_eq c.environment env
        && str_eq other name
  ]

  -- `nonUniqueNameConfigCount[env][name]`.
  unfoldable pub non_unique_name_config_count : String → String → List Config → ℕ
  non_unique_name_config_count env name [] = 0
  non_unique_name_config_count env name (c ∷ cs) =
      let rest = non_unique_name_config_count env name cs in
      if counts_as env name c then suc rest else rest

  -- A name that was counted more than once in the environment is marked.
  unfoldable pub marked : List Config → Config → Config
  unfolding set_parameter
  marked all c = elim (get_name_for_config run c) [
    | none ↦ c
    | some name ↦
        let with_mark = set_parameter "__MONACO_NUN_API_DUP__" (value (bool true)) c in
        if ltb 1 (non_unique_name_config_count c.environment name all) then with_mark else c
  ]

  abbrev pub file_configs :
      List Config → List Config → ConfigsPerTypePerEnvironments → ConfigsPerTypePerEnvironments
  file_configs all [] m = m
  file_configs all (c ∷ cs) m = file_configs all cs (file_config (marked all c) m)

  unfoldable pub to_config_map : List Config → ConfigsPerTypePerEnvironments
  to_config_map cs = file_configs cs cs []

abbrev pub names_of : Option (List String) → List String
names_of none = []
names_of (some ds) = ds

abbrev pub dependencies_at : String → List (String × List String) → List String
dependencies_at env m = names_of (lookup env m)

abbrev pub add_reference_project :
    String → String → List (String × List String) → Coordinate → List (String × List String)
add_reference_project project_id env m ref =
    let added = insert env (dependencies_at env m ++ ref.project ∷ []) m in
    if str_eq project_id ref.project
    then m
    else if is_listed ref.project (dependencies_at env m)
    then m
    else added

abbrev pub add_reference_projects :
    String → String → List Coordinate → List (String × List String) → List (String × List String)
add_reference_projects project_id env [] m = m
add_reference_projects project_id env (ref ∷ refs) m =
    add_reference_projects project_id env refs (add_reference_project project_id env m ref)

unfoldable pub to_dependencies_map_from :
    String → List Config → List (String × List String) → List (String × List String)
to_dependencies_map_from project_id [] m = m
to_dependencies_map_from project_id (c ∷ cs) m =
    to_dependencies_map_from project_id cs
      (if c.skip then m else add_reference_projects project_id c.environment (references c) m)

unfoldable pub to_dependencies_map : String → List Config → List (String × List String)
to_dependencies_map project_id cs = to_dependencies_map_from project_id cs []
