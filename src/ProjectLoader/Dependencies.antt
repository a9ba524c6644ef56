-- ===== src/ProjectLoader/Dependencies.antt =====
-- The dependencies of a loaded project.
use dynatrace_configuration.Base.{
  String, true, false, ◌≡◌, ◌≢◌, refl, sym, ◌∙◌, ap, subst, ◌↔◌, ◌⊎◌, inl, inr, List, [], ◌∷◌, ◌++◌,
  In, in-append, in-append_left, in-append_right, arith, lookup, insert, lookup-insert, str_eq,
  eq_iff, Bool-cases, Option-cases, if◌then◌else◌,
}
use dynatrace_configuration.Config.Coordinate.{Coordinate}
use dynatrace_configuration.Config.Model.{Config, references}
use dynatrace_configuration.Project.{is_listed, Project, has_dependency_on}
use dynatrace_configuration.ProjectLoader.Defs.{
  names_of, dependencies_at, add_reference_project, add_reference_projects,
  to_dependencies_map_from, to_dependencies_map,
}
use dynatrace_configuration.ProjectLoader.Identifiers.{is_listed_iff}

dependencies_at-insert :
    (env e : String) (ds : List String) (m : List (String × List String))
    → dependencies_at e (insert env ds m) ≡ (if str_eq env e then ds else dependencies_at e m)
dependencies_at-insert env e ds m =
    ap names_of (lookup-insert env e ds m)
    ∙ (elim (Bool-cases (str_eq env e)) [ inl t ↦ rw t refl | inr f ↦ rw f refl ])

module _ (project_id : String) where
  -- The reference leads from a configuration of the environment to another project.
  abbrev pub LeadsTo : String → String → Coordinate → String → Type 0
  LeadsTo e q ref env = (env ≡ e) × (project_id ≢ q) × (q ≡ ref.project)

  add_reference_project_iff :
      (env e q : String) (ref : Coordinate) (m : List (String × List String))
      → In q (dependencies_at e (add_reference_project project_id env m ref))
        ↔ (In q (dependencies_at e m) ⊎ LeadsTo e q ref env)
  add_reference_project_iff env e q ref m = elim (Bool-cases (str_eq project_id ref.project)) [
    | inl own ↦ rw own (
      (λ h. inl h),
      (λ h. elim h [
        | inl old ↦ old
        | inr (_, other, same) ↦ absurd (other ((eq_iff project_id ref.project).0 own ∙ sym same))
      ]),
    )
    | inr foreign ↦
        let other : project_id ≢ ref.project =
          λ same. let t = (eq_iff project_id ref.project).1 same in ground arith in
        elim (Bool-cases (is_listed ref.project (dependencies_at env m))) [
          | inl listed ↦ rw foreign (
              rw listed (
                (λ h. inl h),
                (λ h. elim h [
                  | inl old ↦ old
                  | inr (here, _, same) ↦
                      let there = (is_listed_iff ref.project (dependencies_at env m)).0 listed in
                      subst (λ z. In z (dependencies_at e m)) (sym same)
                        (subst (λ z. In ref.project (dependencies_at z m)) here there)
                ]),
              ))
          | inr new ↦ rw foreign (rw new (added other (Bool-cases (str_eq env e))))
        ]
  ]
    where
      added :
          project_id ≢ ref.project
          → (str_eq env e ≡ true) ⊎ (str_eq env e ≡ false)
          → In q (dependencies_at e (insert env (dependencies_at env m ++ ref.project ∷ []) m))
            ↔ (In q (dependencies_at e m) ⊎ LeadsTo e q ref env)
      added other (inl t) =
          let here = (eq_iff env e).0 t in
          let whole : dependencies_at e (insert env (dependencies_at env m ++ ref.project ∷ []) m)
              ≡ dependencies_at e m ++ ref.project ∷ [] =
            dependencies_at-insert env e (dependencies_at env m ++ ref.project ∷ []) m
            ∙ rw t (ap (λ z. dependencies_at z m ++ ref.project ∷ []) here) in
          subst (λ z. In q z ↔ (In q (dependencies_at e m) ⊎ LeadsTo e q ref env)) (sym whole)
            (
              (λ h. elim (in-append q (dependencies_at e m) (ref.project ∷ []) h) [
                | inl old ↦ inl old
                | inr (inl same) ↦ inr (here, (λ own. other (own ∙ same)), same)
                | inr (inr bad) ↦ absurd bad
              ]),
              (λ h. elim h [
                | inl old ↦ in-append_left q (dependencies_at e m) (ref.project ∷ []) old
                | inr (_, _, same) ↦
                    in-append_right q (dependencies_at e m) (ref.project ∷ []) (inl same)
              ]),
            )
      added other (inr f) =
          let whole : dependencies_at e (insert env (dependencies_at env m ++ ref.project ∷ []) m)
              ≡ dependencies_at e m =
            dependencies_at-insert env e (dependencies_at env m ++ ref.project ∷ []) m
            ∙ rw f refl in
          subst (λ z. In q z ↔ (In q (dependencies_at e m) ⊎ LeadsTo e q ref env)) (sym whole)
            (
              (λ h. inl h),
              (λ h. elim h [
                | inl old ↦ old
                | inr (here, _, _) ↦ let t = (eq_iff env e).1 here in absurd (ground arith)
              ]),
            )

  -- One of the references does.
  abbrev LeadsOne : String → String → List Coordinate → String → Type 0
  LeadsOne e q refs env = (ref : Coordinate) × In ref refs × LeadsTo e q ref env

  add_reference_projects_iff :
      (env e q : String) (refs : List Coordinate) (m : List (String × List String))
      → In q (dependencies_at e (add_reference_projects project_id env refs m))
        ↔ (In q (dependencies_at e m) ⊎ LeadsOne e q refs env)
  add_reference_projects_iff env e q [] m =
      ((λ h. inl h), (λ h. elim h [ inl old ↦ old | inr (_, bad, _) ↦ absurd bad ]))
  add_reference_projects_iff env e q (ref ∷ refs) m =
      let (one, one_back) = add_reference_project_iff env e q ref m in
      let (more, more_back) =
        add_reference_projects_iff env e q refs (add_reference_project project_id env m ref) in
      (
        (λ h. elim (more h) [
          | inl before ↦ elim (one before) [
            | inl old ↦ inl old
            | inr leads ↦ inr (ref, inl refl, leads)
          ]
          | inr (r, i, leads) ↦ inr (r, inr i, leads)
        ]),
        (λ h. more_back (elim h [
          | inl old ↦ inl (one_back (inl old))
          | inr (r, inl same, leads) ↦
              inl (one_back (inr (subst (λ z. LeadsTo e q z env) same leads)))
          | inr (r, inr i, leads) ↦ inr (r, i, leads)
        ])),
      )

  -- A configuration of the environment that is not skipped refers to the other project.
  abbrev pub Depends : String → String → List Config → Type 0
  Depends e q cs =
      (c : Config) × In c cs
      × (c.skip ≡ false)
      × (ref : Coordinate) × In ref (references c)
      × LeadsTo e q ref c.environment

  to_dependencies_map_from_iff :
      (e q : String) (cs : List Config) (m : List (String × List String))
      → In q (dependencies_at e (to_dependencies_map_from project_id cs m))
        ↔ (In q (dependencies_at e m) ⊎ Depends e q cs)
  unfolding to_dependencies_map_from
  to_dependencies_map_from_iff e q [] m =
      ((λ h. inl h), (λ h. elim h [ inl old ↦ old | inr (_, bad, _, _, _, _) ↦ absurd bad ]))
  to_dependencies_map_from_iff e q (c ∷ cs) m =
      let step = add_reference_projects project_id c.environment (references c) m in
      let (more, more_back) = to_dependencies_map_from_iff e q cs (if c.skip then m else step) in
      let (one, one_back) = add_reference_projects_iff c.environment e q (references c) m in
      elim (Bool-cases (c.skip)) [
        | inl skip ↦
            let same : (if c.skip then m else step) ≡ m = rw skip refl in
            (
              (λ h. elim (more h) [
                | inl before ↦ inl (subst (λ z. In q (dependencies_at e z)) same before)
                | inr (d, i, act, r, j, leads) ↦ inr (d, inr i, act, r, j, leads)
              ]),
              (λ h. more_back (elim h [
                | inl old ↦ inl (subst (λ z. In q (dependencies_at e z)) (sym same) old)
                | inr (d, inl own, act, _, _, _) ↦
                    let bad : true ≡ false = sym skip ∙ ap (λ z. z.skip) (sym own) ∙ act in cc
                | inr (d, inr i, act, r, j, leads) ↦ inr (d, i, act, r, j, leads)
              ])),
            )
        | inr active ↦
            let same : (if c.skip then m else step) ≡ step = rw active refl in
            (
              (λ h. elim (more h) [
                | inl before ↦ elim (one (subst (λ z. In q (dependencies_at e z)) same before)) [
                  | inl old ↦ inl old
                  | inr (r, i, leads) ↦ inr (c, inl refl, active, r, i, leads)
                ]
                | inr (d, i, act, r, j, leads) ↦ inr (d, inr i, act, r, j, leads)
              ]),
              (λ h. more_back (elim h [
                | inl old ↦
                    inl (subst (λ z. In q (dependencies_at e z)) (sym same) (one_back (inl old)))
                | inr (d, inl own, _, r, i, leads) ↦ inl (
                    subst (λ z. In q (dependencies_at e z)) (sym same)
                      (one_back (
                        inr (
                          r,
                          subst (λ z. In r (references z)) own i,
                          subst (λ z. LeadsTo e q r z.environment) own leads,
                        ))))
                | inr (d, inr i, act, r, j, leads) ↦ inr (d, i, act, r, j, leads)
              ])),
            )
      ]

-- A project whose dependencies were computed from its configurations depends on another, in an
-- environment, exactly when one of its configurations for that environment, which is not skipped,
-- refers to a configuration of the other project, and that has another id.
pub has_dependency_on_iff :
    (p q : Project) (cs : List Config)
    → p.dependencies ≡ to_dependencies_map p.id cs
    → (env : String) → (has_dependency_on p env q ≡ true) ↔ Depends p.id env q.id cs
unfolding has_dependency_on to_dependencies_map
has_dependency_on_iff p q cs computed env =
    let (sound, complete) = to_dependencies_map_from_iff p.id env q.id cs [] in
    let listed : has_dependency_on p env q
        ≡ is_listed q.id (dependencies_at env (to_dependencies_map p.id cs)) =
      by_lookup p env q ∙ ap (λ z. is_listed q.id (dependencies_at env z)) computed in
    let (found, lost) = is_listed_iff q.id (dependencies_at env (to_dependencies_map p.id cs)) in
    (
      (λ e. elim (sound (found (sym listed ∙ e))) [ inl bad ↦ absurd bad | inr depends ↦ depends ]),
      (λ depends. listed ∙ lost (complete (inr depends))),
    )
  where
    by_lookup :
        (p : Project) (env : String) (q : Project)
        → has_dependency_on p env q ≡ is_listed q.id (dependencies_at env p.dependencies)
    by_lookup p env q = elim (Option-cases (lookup env p.dependencies)) [
      | inl absent ↦ ground arith
      | inr (ds, there) ↦ ground arith
    ]
