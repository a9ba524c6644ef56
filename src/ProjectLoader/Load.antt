-- ===== src/ProjectLoader/Load.antt =====
-- `LoadProjects` and `getProjectNamesToLoad` of pkg/project/project_loader.go. The manifest's
-- definitions are a parameter, and so is the loading of one project; LoadProject holds the latter.
use dynatrace_configuration.Base.{
  ℕ, zero, suc, String, Bool, true, false, List, [], ◌∷◌, ◌++◌, Option, none, some, str_eq, lookup,
  if◌then◌else◌,
}
use dynatrace_configuration.Project.{Project, is_listed}
use dynatrace_configuration.ProjectLoader.Defs.{dependencies_at}

-- What the loader reads of a definition in the manifest.
pub record ProjectDefinition : Type 0 where
  pub name : String
  pub group : String
  pub path : String

-- What `loadProject` returns: a project, or errors.
pub data LoadedProject : Type 0 where
  project : Project → LoadedProject
  failed : (first : String) (others : List String) → LoadedProject

abbrev pub Definitions : Type 0
Definitions = List (String × ProjectDefinition)

abbrev pub keys : Definitions → List String
keys [] = []
keys ((id, d) ∷ ds) = id ∷ keys ds

abbrev pub in_group : String → Definitions → List String
in_group group [] = []
in_group group ((id, d) ∷ ds) =
    let rest = in_group group ds in if str_eq d.group group then d.name ∷ rest else rest

-- The names for one argument, and the errors.
abbrev pub names_for : Definitions → String → List String × List String
names_for ds name = elim (lookup name ds) [
  | some d ↦ (name ∷ [], [])
  | none ↦ elim (in_group name ds) [
    | [] ↦ ([], "no project named so could be found in the manifest" ∷ [])
    | n ∷ ns ↦ (n ∷ ns, [])
  ]
]

abbrev pub specific_names : Definitions → List String → List String × List String
specific_names ds [] = ([], [])
specific_names ds (name ∷ names) =
    let (ns, es) = names_for ds name in
    let (ns', es') = specific_names ds names in (ns ++ ns', es ++ es')

unfoldable pub get_project_names_to_load : Definitions → List String → List String × List String
unfolding lookup
get_project_names_to_load ds [] = (keys ds, [])
get_project_names_to_load ds (name ∷ names) = specific_names ds (name ∷ names)

-- The local variables of the loop.
pub record Loading : Type 0 where
  pub project_names_to_load : List String
  pub seen_project_names : List String
  pub loaded_projects : List Project
  pub errs : List String

-- The projects, or the errors and no project.
abbrev pub projects_or_errors : Option Loading → Option (List Project × List String)
projects_or_errors none = none
projects_or_errors (some s) = elim (s.errs) [
  | [] ↦ some (s.loaded_projects, [])
  | e ∷ es ↦ some ([], e ∷ es)
]

abbrev pub no_projects : Definitions → Bool
no_projects [] = true
no_projects (_ ∷ _) = false

module _ (ds : Definitions) (load_project : ProjectDefinition → LoadedProject)
    (selected_environments : List String) where
  abbrev pub dependencies_in : List String → Project → List String
  dependencies_in [] p = []
  dependencies_in (env ∷ envs) p = dependencies_at env p.dependencies ++ dependencies_in envs p

  abbrev pub dependencies_of : Project → List String
  dependencies_of p = dependencies_in selected_environments p

  abbrev pub take_loaded : LoadedProject → Loading → Loading
  take_loaded (failed e es) s = record s { errs = s.errs ++ e ∷ es }
  take_loaded (project p) s = record s {
    loaded_projects = s.loaded_projects ++ p ∷ [];
    project_names_to_load = s.project_names_to_load ++ dependencies_of p;
  }

  abbrev pub take_definition : Option ProjectDefinition → Loading → Loading
  take_definition none s = s
  take_definition (some d) s = take_loaded (load_project d) s

  -- The body of the loop for a name that was taken from the list.
  unfoldable pub load_next : String → Loading → Loading
  load_next name s =
      if is_listed name s.seen_project_names
      then s
      else take_definition (lookup name ds)
          (record s { seen_project_names = name ∷ s.seen_project_names })

  -- On fuel; `none` means that it ran out.
  unfoldable pub load_loop : ℕ → Loading → Option Loading
  load_loop zero s = none
  load_loop (suc fuel) s = elim (s.project_names_to_load) [
    | [] ↦ some s
    | name ∷ names ↦ load_loop fuel (load_next name (record s { project_names_to_load = names }))
  ]

  abbrev pub start_loading : List String → Loading
  start_loading specific_project_names =
      let (names, errs) = get_project_names_to_load ds specific_project_names in
      record {
        project_names_to_load = names;
        seen_project_names = [];
        loaded_projects = [];
        errs = errs;
      }

  unfoldable pub load_projects : ℕ → List String → Option (List Project × List String)
  load_projects fuel specific_project_names =
      if no_projects ds
      then some ([], "no projects defined in manifest" ∷ [])
      else projects_or_errors (load_loop fuel (start_loading specific_project_names))
