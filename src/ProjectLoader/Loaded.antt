-- ===== src/ProjectLoader/Loaded.antt =====
-- What a project that `loadProject` of pkg/project/project_loader.go returns without errors is.
use dynatrace_configuration.Base.{
  ◌≡◌, refl, sym, ap, subst, inl, inr, String, Bool, true, false, ◌&&◌, not, List, [], ◌∷◌, ◌++◌,
  map, Option, none, some, In, Distinct, arith, str_eq, eq_iff, Bool-cases,
}
use dynatrace_configuration.Config.Model.{Config, parameter_of, scope_parameter}
use dynatrace_configuration.Config.Parameter.{
  Parameter, ParameterReference, value, reference, environment, compound, list, file, Result, ok,
  err,
}
use dynatrace_configuration.Config.Resolve.{Runtime}
use dynatrace_configuration.Project.{Project}
use dynatrace_configuration.ProjectLoader.Defs.{
  is_reference, find_duplicated_config_identifiers, check_key_user_action_scope,
  insert_network_zone_parameter,
}
use dynatrace_configuration.ProjectLoader.Filed.{
  to_config_map-MapFiled, insert_network_zone_parameter-project,
}
use dynatrace_configuration.Base.{◌∙◌}
use dynatrace_configuration.ProjectLoader.ConfigMap.{
  filed_at, selected, coordinates-filed_at, coordinates-insert_network_zone_parameter,
}
use dynatrace_configuration.ProjectLoader.Identifiers.{
  identifiers, find_duplicated_config_identifiers_iff,
}
use dynatrace_configuration.ProjectLoader.Load.{ProjectDefinition, project}
use dynatrace_configuration.ProjectLoader.LoadProject.{
  duplicate_config_identifier_error, scope_error, check_errors, built, errors_or_project,
  load_project,
}
use dynatrace_configuration.Validation.SameScope.{IsFiled}

-- The scope of a web key user action is a reference.
abbrev pub HasReferenceScope : Config → Type 0
HasReferenceScope c =
    c.coordinate.type ≡ "key-user-actions-web"
    → (r : ParameterReference) × (parameter_of c scope_parameter ≡ some (reference r))

reference_of :
    (o : Option Parameter)
    → is_reference o ≡ true
    → (r : ParameterReference) × (o ≡ some (reference r))
reference_of none e = absurd (ground arith)
reference_of (some (reference r)) e = (r, refl)
reference_of (some (value v)) e = absurd (ground arith)
reference_of (some (environment v)) e = absurd (ground arith)
reference_of (some (compound v)) e = absurd (ground arith)
reference_of (some (list vs)) e = absurd (ground arith)
reference_of (some (file path escape refs)) e = absurd (ground arith)

check_key_user_action_scope-HasReferenceScope :
    (cs : List Config)
    → check_key_user_action_scope cs ≡ []
    → (c : Config) → In c cs
    → HasReferenceScope c
unfolding check_key_user_action_scope
check_key_user_action_scope-HasReferenceScope [] e c i = absurd i
check_key_user_action_scope-HasReferenceScope (d ∷ cs) e c i =
    elim (Bool-cases (
      str_eq d.coordinate.type "key-user-actions-web"
      && not (is_reference (parameter_of d scope_parameter)))) [
        | inl t ↦ absurd (ground arith)
        | inr f ↦ elim i [
          | inr j ↦ check_key_user_action_scope-HasReferenceScope cs (ground arith) c j
          | inl same ↦ subst HasReferenceScope (sym same) (λ web.
              let t = (eq_iff d.coordinate.type "key-user-actions-web").1 web in
              reference_of (parameter_of d scope_parameter) (ground arith))
        ]
      ]

append_empty : {A : Type 0} → (xs ys : List A) → xs ++ ys ≡ [] → (xs ≡ []) × (ys ≡ [])
append_empty [] ys e = (refl, e)
append_empty (x ∷ xs) ys e = cc

map_empty : {A B : Type 0} → (f : A → B) (xs : List A) → map f xs ≡ [] → xs ≡ []
map_empty f [] e = refl
map_empty f (x ∷ xs) e = cc

module _ (run : Runtime) (non_unique_name : String → Bool) (exists : String → Result Bool)
    (load_configs_of_project : ProjectDefinition → List Config × List String) where
  errors_empty :
      (d : ProjectDefinition) (cs : List Config) (es : List String) (p : Project)
      → errors_or_project run non_unique_name exists load_configs_of_project d cs es ≡ project p
      → (es ≡ [])
        × (built run non_unique_name exists load_configs_of_project d
              (insert_network_zone_parameter cs)
            ≡ project p)
  errors_empty d cs [] p e = (refl, e)
  errors_empty d cs (x ∷ es) p e = absurd (ground arith)

  -- Of the configurations that are loaded from the files.
  abbrev pub IsChecked : ProjectDefinition → Type 0
  IsChecked d =
      ((load_configs_of_project d).1 ≡ [])
      × Distinct (identifiers (load_configs_of_project d).0)
      × ((c : Config) → In c (load_configs_of_project d).0 → HasReferenceScope c)

  -- In the map, an environment and a type lead to the configurations that the files hold for them.
  abbrev pub HoldsFiles : ProjectDefinition → Project → Type 0
  HoldsFiles d p =
      (env config_type : String)
      → map (λ c. c.coordinate) (filed_at env config_type p.configs)
        ≡ map (λ c. c.coordinate) (selected env config_type (load_configs_of_project d).0)

  -- When `loadProject` returns a project and no error, and all configurations in its files carry its
  -- name, then the files were read without errors, the identifiers of their configurations, of group,
  -- environment and coordinate, are pairwise different, and the scope of every web key user action is
  -- a reference. The project has the definition's name. For every environment and type its map holds
  -- the coordinates of exactly the configurations in the files of that environment and type, in their
  -- order, and each configuration in it stands under its own type.
  pub load_project-IsFiled :
      (d : ProjectDefinition) (p : Project)
      → load_project run non_unique_name exists load_configs_of_project d ≡ project p
      → ((c : Config) → In c (load_configs_of_project d).0 → c.coordinate.project ≡ d.name)
      → IsChecked d × (p.id ≡ d.name) × HoldsFiles d p × IsFiled p
  unfolding load_project
  load_project-IsFiled d p loads own = by_exists (exists d.path) refl
    where
      by_exists :
          (o : Result Bool)
          → exists d.path ≡ o
          → IsChecked d × (p.id ≡ d.name) × HoldsFiles d p × IsFiled p
      by_exists (err e) at_path = absurd (ground arith)
      by_exists (ok false) at_path = absurd (ground arith)
      by_exists (ok true) at_path =
          let cs = (load_configs_of_project d).0 in
          let (no_errors, same) =
            errors_empty d cs ((load_configs_of_project d).1 ++ check_errors cs) p (ground arith) in
          let (read, checked) =
            append_empty (load_configs_of_project d).1 (check_errors cs) no_errors in
          let (unique, scoped) =
            append_empty
              (map duplicate_config_identifier_error (find_duplicated_config_identifiers [] cs))
              (map scope_error (check_key_user_action_scope cs)) checked in
          let distinct = (find_duplicated_config_identifiers_iff cs).0 (
            map_empty duplicate_config_identifier_error (find_duplicated_config_identifiers [] cs)
              unique) in
          let scopes =
            check_key_user_action_scope-HasReferenceScope cs
              (map_empty scope_error (check_key_user_action_scope cs) scoped) in
          let filed =
            to_config_map-MapFiled d.name run non_unique_name (insert_network_zone_parameter cs)
              (insert_network_zone_parameter-project d.name cs own) in
          let project_same = same_project same in
          (
            (read, distinct, scopes),
            sym (ap (λ z. z.id) project_same),
            subst (HoldsFiles d) project_same (λ env config_type.
                coordinates-filed_at run non_unique_name env config_type
                  (insert_network_zone_parameter cs)
                ∙ coordinates-insert_network_zone_parameter env config_type cs),
            subst IsFiled project_same filed,
          )
        where
          same_project : {q r : Project} → project q ≡ project r → q ≡ r
          same_project e = ground arith
