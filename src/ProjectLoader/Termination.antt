-- ===== src/ProjectLoader/Termination.antt =====
-- The loop of `LoadProjects` ends.
use dynatrace_configuration.Base.{
  ℕ, zero, suc, ◌+◌, ◌<◌, ◌≤◌, ◌≡◌, refl, sym, ◌∙◌, ap, inl, inr, String, true, false, List, [],
  ◌∷◌, some, arith, str_eq, eq_iff, lookup, length, length-append, Bool-cases, Option-cases,
  if◌then◌else◌,
}
use dynatrace_configuration.Project.{Project, is_listed}
use dynatrace_configuration.ProjectLoader.Load.{
  ProjectDefinition, LoadedProject, project, failed, Definitions, Loading, dependencies_of,
  take_loaded, load_next, load_loop, get_project_names_to_load, no_projects, start_loading,
  load_projects,
}

module _ (ds : Definitions) (load_project : ProjectDefinition → LoadedProject)
    (selected_environments : List String) where
  abbrev pub deps : Project → List String
  deps p = dependencies_of ds load_project selected_environments p

  abbrev pub cost_of : LoadedProject → ℕ
  cost_of (project p) = length (deps p)
  cost_of (failed e es) = 0

  -- The names that the definitions that were not seen can still add.
  abbrev pub cost : List String → Definitions → ℕ
  cost seen [] = 0
  cost seen ((name, d) ∷ rest) =
      let later = cost seen rest in
      if is_listed name seen then later else cost_of (load_project d) + later

  cost_falls :
      (n : String) (seen : List String) (es : Definitions) → cost (n ∷ seen) es ≤ cost seen es
  cost_falls n seen [] = omega arith
  cost_falls n seen ((name, d) ∷ rest) = ground (arith, cost_falls n seen rest)

  cost_of_found :
      (n : String) (seen : List String) (es : Definitions) (d : ProjectDefinition)
      → is_listed n seen ≡ false
      → lookup n es ≡ some d
      → cost (n ∷ seen) es + cost_of (load_project d) ≤ cost seen es
  unfolding lookup
  cost_of_found n seen [] d new e = cc
  cost_of_found n seen ((name, d') ∷ rest) d new e = elim (Bool-cases (str_eq name n)) [
    | inl same ↦
        let there : name ≡ n = (eq_iff name n).0 same in
        let it : d' ≡ d = ground arith in
        let fresh : is_listed name seen ≡ false = ap (λ z. is_listed z seen) there ∙ new in
        let own : str_eq n name ≡ true = (eq_iff n name).1 (sym there) in
        let falls = cost_falls n seen rest in
        let same_cost : cost_of (load_project d') ≡ cost_of (load_project d) =
          ap (λ z. cost_of (load_project z)) it in
        ground arith
    | inr other ↦
        let rest_falls = cost_of_found n seen rest d new (ground arith) in
        let apart : str_eq n name ≡ false = elim (Bool-cases (str_eq n name)) [
          | inl t ↦ let t' = (eq_iff name n).1 (sym ((eq_iff n name).0 t)) in absurd (ground arith)
          | inr f ↦ f
        ] in
        ground arith
  ]

  measure : Loading → ℕ
  measure s = length s.project_names_to_load + cost s.seen_project_names ds

  abbrev next : String → Loading → Loading
  next name s = load_next ds load_project selected_environments name s

  load_next_falls :
      (name : String) (names : List String) (s : Loading)
      → measure (next name (record s { project_names_to_load = names }))
        < suc (length names + cost s.seen_project_names ds)
  unfolding load_next measure
  load_next_falls name names s = elim (Bool-cases (is_listed name s.seen_project_names)) [
    | inl seen ↦ rw seen (omega arith)
    | inr new ↦ elim (Option-cases (lookup name ds)) [
      | inl absent ↦ rw new (rw absent (omega (arith, cost_falls name s.seen_project_names ds)))
      | inr (d, there) ↦ rw new (
          rw there
            (by_project (load_project d) (cost_of_found name s.seen_project_names ds d new there)))
    ]
  ]
    where
      by_project :
          (l : LoadedProject)
          → cost (name ∷ s.seen_project_names) ds + cost_of l ≤ cost s.seen_project_names ds
          → measure (
              take_loaded ds load_project selected_environments l (record s {
                project_names_to_load = names;
                seen_project_names = name ∷ s.seen_project_names;
              }))
            < suc (length names + cost s.seen_project_names ds)
      by_project (failed e es) falls = omega (arith, falls)
      by_project (project p) falls = omega (arith, falls, length-append names (deps p))

  load_loop_returns :
      (fuel : ℕ) (s : Loading)
      → measure s < fuel
      → (t : Loading) × (load_loop ds load_project selected_environments fuel s ≡ some t)
  unfolding load_loop measure
  load_loop_returns zero s enough = absurd (omega arith)
  load_loop_returns (suc fuel) s enough =
      by_names (s.project_names_to_load) refl (load_loop_returns fuel)
    where
      by_names :
          (ns : List String)
          → s.project_names_to_load ≡ ns
          → ((u : Loading)
              → measure u < fuel
              → (t : Loading) × (load_loop ds load_project selected_environments fuel u ≡ some t))
          → (t : Loading) × (load_loop ds load_project selected_environments (suc fuel) s ≡ some t)
      by_names [] e rest = (s, ground arith)
      by_names (name ∷ names) e rest =
          let falls = load_next_falls name names s in
          let same = ap length e in
          let (t, run) =
            rest (next name (record s { project_names_to_load = names }))
              (omega (arith, falls, enough, same)) in
          (t, ground arith)

  -- Names for the loop and for everything that a definition can add.
  unfoldable pub enough_fuel : List String → ℕ
  enough_fuel names = suc (length (get_project_names_to_load ds names).0 + cost [] ds)

  -- With fuel for the names to load and the dependencies of every project that the manifest
  -- defines, `LoadProjects` returns.
  pub load_projects_returns :
      (fuel : ℕ) (names : List String)
      → enough_fuel names ≤ fuel
      → (ps : List Project) × (es : List String) × (load_projects ds load_project
            selected_environments fuel names
          ≡ some (ps, es))
  unfolding load_projects measure enough_fuel
  load_projects_returns fuel names enough = elim (Bool-cases (no_projects ds)) [
    | inl none_defined ↦ ([], "no projects defined in manifest" ∷ [], rw none_defined refl)
    | inr some_defined ↦
        let (t, run) =
          load_loop_returns fuel (start_loading ds load_project selected_environments names)
            (omega (arith, enough)) in
        by_errors t (t.errs) refl run some_defined
  ]
    where
      by_errors :
          (t : Loading) (es : List String)
          → t.errs ≡ es
          → load_loop ds load_project selected_environments fuel
              (start_loading ds load_project selected_environments names)
            ≡ some t
          → no_projects ds ≡ false
          → (ps : List Project) × (es : List String) × (load_projects ds load_project
                selected_environments fuel names
              ≡ some (ps, es))
      by_errors t [] e run some_defined = (t.loaded_projects, [], ground arith)
      by_errors t (x ∷ es) e run some_defined = ([], x ∷ es, ground arith)
