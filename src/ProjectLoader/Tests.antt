-- ===== src/ProjectLoader/Tests.antt =====
-- The loading of a project and of the one that it depends on, and the theorems at them.
use dynatrace_configuration.Base.{
  ap, Bool, ◌≡◌, refl, ◌↔◌, inl, inr, String, true, false, List, [], ◌∷◌, none, some, arith, lookup,
  insert, str_eq, if◌then◌else◌,
}
use dynatrace_configuration.Config.Parameter.{Result, ok}
use dynatrace_configuration.Config.Resolve.{Runtime}
use dynatrace_configuration.Config.Coordinate.{Coordinate}
use dynatrace_configuration.Config.Model.{Config, settings, references, parameter_of}
use dynatrace_configuration.Config.Parameter.{ParameterReference, reference, get_references}
use dynatrace_configuration.Project.{Project, has_dependency_on}
use dynatrace_configuration.ProjectLoader.Defs.{
  to_dependencies_map, to_dependencies_map_from, to_config_map, file_config, marked,
  get_name_for_config, insert_network_zone_parameter, find_duplicated_config_identifiers,
  check_key_user_action_scope, to_fully_qualified_config_identifier,
}
use dynatrace_configuration.ProjectLoader.ConfigMap.{
  filed_at, selected, AreMarkedAs, to_config_map_lem,
}
use dynatrace_configuration.Base.Value.{str}
use dynatrace_configuration.Config.Resolve.{escape_value}
use dynatrace_configuration.Config.Model.{classic_api, type_id}
use dynatrace_configuration.Config.Parameter.{value}
use dynatrace_configuration.ProjectLoader.Defs.{non_unique_name_config_count, set_parameter}
use dynatrace_configuration.ProjectLoader.Marks.{with_mark}
use dynatrace_configuration.ProjectLoader.LoadProject.{load_project}
use dynatrace_configuration.ProjectLoader.Loaded.{IsChecked, HoldsFiles, load_project-IsFiled}
use dynatrace_configuration.Validation.SameScope.{IsFiled}
use dynatrace_configuration.ProjectLoader.Dependencies.{Depends, has_dependency_on_iff}
use dynatrace_configuration.ProjectLoader.Load.{
  ProjectDefinition, LoadedProject, project, Definitions, get_project_names_to_load, load_next,
  load_loop, load_projects,
}
use dynatrace_configuration.ProjectLoader.Termination.{enough_fuel, load_projects_returns}

abbrev object : Coordinate
object = record { project = "base"; type = "builtin:rule"; config_id = "object" }

abbrev to_object : ParameterReference
to_object = record { config = object; property = "id" }

abbrev rule : Config
rule = record {
  template = "";
  coordinate = record { project = "app"; type = "builtin:rule"; config_id = "rule" };
  group = "g";
  environment = "e";
  type = settings "builtin:rule" "" none;
  parameters = ("scope", reference to_object) ∷ [];
  skip = false;
  origin_object_id = "";
}

abbrev app : Project
app = record { id = "app"; group_id = ""; configs = []; dependencies = ("e", "base" ∷ []) ∷ [] }

abbrev base : Project
base = record { id = "base"; group_id = ""; configs = []; dependencies = [] }

abbrev definitions : Definitions
definitions =
    ("app", record { name = "app"; group = ""; path = "" })
    ∷ ("base", record { name = "base"; group = ""; path = "" })
    ∷ ("other", record { name = "other"; group = ""; path = "" })
    ∷ []

abbrev load : ProjectDefinition → LoadedProject
load d = if str_eq d.name "app" then project app else project base

program : Unit {0}
unfolding lookup insert references get_references has_dependency_on to_dependencies_map
    to_dependencies_map_from get_project_names_to_load load_next load_loop load_projects enough_fuel
program = tt

has_dependency_on_iff_example :
    (has_dependency_on app "e" base ≡ true) ↔ Depends "app" "e" "base" (rule ∷ [])
unfolding program
has_dependency_on_iff_example = has_dependency_on_iff app base (rule ∷ []) refl "e"

abbrev asked : List String
asked = "app" ∷ []

abbrev loaded : List Project
loaded = app ∷ base ∷ []

load_projects_returns_example :
    (ps : List Project) × (es : List String) × (load_projects definitions load ("e" ∷ []) 10 asked
      ≡ some (ps, es))
unfolding program
load_projects_returns_example =
    load_projects_returns definitions load ("e" ∷ []) 10 asked (omega arith)

-- No variable is set, and a text is escaped to itself.
abbrev run : Runtime
run = record {
  lookup_env = λ name. none;
  escape_string = λ s. ok s;
  execute = λ template fields. ok template;
  render_file = λ path fields. ok path;
  sprint = λ v. "";
}

abbrev unique : String → Bool
unique api = false

abbrev always : String → Result Bool
always path = ok true

abbrev files : ProjectDefinition → List Config × List String
files d = (rule ∷ [], [])

abbrev app_definition : ProjectDefinition
app_definition = record { name = "app"; group = ""; path = "" }

abbrev loaded_app : Project
loaded_app = record {
  id = "app";
  group_id = "";
  configs = ("e", ("builtin:rule", rule ∷ []) ∷ []) ∷ [];
  dependencies = ("e", "base" ∷ []) ∷ [];
}

loading : Unit {0}
unfolding program non_unique_name_config_count to_config_map file_config marked get_name_for_config
    parameter_of insert_network_zone_parameter find_duplicated_config_identifiers
    check_key_user_action_scope to_fully_qualified_config_identifier load_project
loading = tt

load_project-IsFiled_example :
    IsChecked run unique always files app_definition
    × (loaded_app.id ≡ app_definition.name)
    × HoldsFiles run unique always files app_definition loaded_app
    × IsFiled loaded_app
unfolding loading
load_project-IsFiled_example =
    load_project-IsFiled run unique always files app_definition loaded_app refl
      (λ c i. elim i [ inl e ↦ ap (λ z. z.coordinate.project) e | inr bad ↦ absurd bad ])

-- Two dashboards of one name, which are marked, and one of another.
abbrev dashboard : String → String → Config
dashboard id name = record rule {
  coordinate = record { project = "app"; type = "dashboard"; config_id = id };
  type = classic_api "dashboard";
  parameters = ("name", value (str name)) ∷ [];
}

abbrev dashboards : List Config
dashboards = dashboard "a" "same" ∷ dashboard "b" "same" ∷ dashboard "c" "else" ∷ rule ∷ []

abbrev shared : String → Bool
shared api = str_eq api "dashboard"

marks :
    filed_at "e" "dashboard" (to_config_map run shared dashboards)
    ≡ with_mark run shared (dashboard "a" "same")
      ∷ with_mark run shared (dashboard "b" "same")
      ∷ dashboard "c" "else"
      ∷ []
unfolding loading set_parameter escape_value type_id
marks = refl

to_config_map_lem_example :
    AreMarkedAs run shared dashboards
      (selected "e" "dashboard" dashboards)
      (filed_at "e" "dashboard" (to_config_map run shared dashboards))
to_config_map_lem_example = to_config_map_lem run shared "e" "dashboard" dashboards
