-- ===== src/ProjectLoader/Closed.antt =====
-- What `LoadProjects` returns is closed under dependencies.
use dynatrace_configuration.Base.{◌⊎◌, String, List, In}
use dynatrace_configuration.Project.{Project}
use dynatrace_configuration.ProjectLoader.Load.{
  ProjectDefinition, LoadedProject, Definitions, get_project_names_to_load,
}
use dynatrace_configuration.ProjectLoader.Reached.{deps_of}

module _ (ds : Definitions) (load_project : ProjectDefinition → LoadedProject)
    (selected_environments : List String) where
  -- The name was asked for, or is a dependency of a loaded project.
  abbrev pub IsWanted : List String → List Project → String → Type 0
  IsWanted specific ps n =
      In n (get_project_names_to_load ds specific).0
      ⊎ ((p : Project) × In p ps × In n (deps_of ds load_project selected_environments p))
