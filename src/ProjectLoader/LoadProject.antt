-- ===== src/ProjectLoader/LoadProject.antt =====
-- `loadProject` of pkg/project/project_loader.go. The file system, and the loading of the
-- configuration files, are parameters.
use Prim.Native.String.{◌++◌ as ◌<>◌}
use dynatrace_configuration.Base.{String, Bool, List, [], ◌∷◌, ◌++◌, map, if◌then◌else◌}
use dynatrace_configuration.Config.Coordinate.{Coordinate}
use dynatrace_configuration.Config.Model.{Config}
use dynatrace_configuration.Config.Parameter.{Result, ok, err}
use dynatrace_configuration.Config.Resolve.{Runtime}
use dynatrace_configuration.ProjectLoader.Defs.{
  find_duplicated_config_identifiers, check_key_user_action_scope, insert_network_zone_parameter,
  to_config_map, to_dependencies_map,
}
use dynatrace_configuration.ProjectLoader.Load.{ProjectDefinition, LoadedProject, project, failed}

unfoldable pub duplicate_config_identifier_error : Coordinate → String
duplicate_config_identifier_error c =
    "Config IDs need to be unique to project/type, found duplicate `" <> c.project <> ":" <> c.type
    <> ":" <> c.config_id <> "`"

abbrev pub scope_error : Coordinate → String
scope_error c =
    "scope parameter of config of type 'key-user-actions-web' with ID '" <> c.config_id
    <> "' needs to be a reference parameter to another web-application config"

-- The errors of the checks on the configurations that were loaded.
abbrev pub check_errors : List Config → List String
check_errors cs =
    map duplicate_config_identifier_error (find_duplicated_config_identifiers [] cs)
    ++ map scope_error (check_key_user_action_scope cs)

module _ (run : Runtime) (non_unique_name : String → Bool) (exists : String → Result Bool)
    (load_configs_of_project : ProjectDefinition → List Config × List String) where
  abbrev pub built : ProjectDefinition → List Config → LoadedProject
  built d cs = project (record {
    id = d.name;
    group_id = d.group;
    configs = to_config_map run non_unique_name cs;
    dependencies = to_dependencies_map d.name cs;
  })

  abbrev pub errors_or_project : ProjectDefinition → List Config → List String → LoadedProject
  errors_or_project d cs [] = built d (insert_network_zone_parameter cs)
  errors_or_project d cs (e ∷ es) = failed e es

  unfoldable pub load_project : ProjectDefinition → LoadedProject
  load_project d =
      let (cs, errs) = load_configs_of_project d in
      elim (exists d.path) [
        | err e ↦ failed ("failed to load project `" <> d.name <> "` (" <> d.path <> "): " <> e) []
        | ok there ↦
            if there
            then errors_or_project d cs (errs ++ check_errors cs)
            else failed
                ("failed to load project `" <> d.name <> "`: filepath `" <> d.path
                  <> "` does not exist")
                []
      ]
