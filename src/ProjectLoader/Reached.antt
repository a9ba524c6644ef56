-- ===== src/ProjectLoader/Reached.antt =====
-- What the loop of `LoadProjects` has reached: the invariant of the loop.
use dynatrace_configuration.Base.{
  ◌≡◌, ◌≢◌, refl, sym, ◌∙◌, ap, subst, ◌⊎◌, inl, inr, String, List, [], ◌∷◌, ◌++◌, none, some, In,
  in-append, in-append_left, in-append_right, lookup, Bool-cases, Option-cases,
}
use dynatrace_configuration.Project.{Project, is_listed}
use dynatrace_configuration.ProjectLoader.Identifiers.{is_listed_iff}
use dynatrace_configuration.ProjectLoader.Load.{
  ProjectDefinition, LoadedProject, project, failed, Definitions, Loading, take_loaded, load_next,
}
use dynatrace_configuration.ProjectLoader.Termination.{deps}

module _ (ds : Definitions) (load_project : ProjectDefinition → LoadedProject)
    (selected_environments : List String) where
  abbrev pub deps_of : Project → List String
  deps_of p = deps ds load_project selected_environments p

  -- The manifest does not define the name, or its project was loaded.
  abbrev pub IsLoaded : List Project → String → Type 0
  IsLoaded ps n =
      (lookup n ds ≡ none)
      ⊎ ((d : ProjectDefinition) × (p : Project) × (lookup n ds ≡ some d)
          × (load_project d ≡ project p)
          × In p ps)

  -- The name was taken from the list, or stands in it.
  abbrev pub IsReached : Loading → String → Type 0
  IsReached s n = In n s.seen_project_names ⊎ In n s.project_names_to_load

  pub record Inv (names : List String) (s : Loading) : Type 0 where
    pub first : (n : String) → In n names → IsReached s n
    pub handled :
        (n : String) → In n s.seen_project_names → IsLoaded s.loaded_projects n ⊎ (s.errs ≢ [])
    pub needed :
        (p : Project) → In p s.loaded_projects → (n : String) → In n (deps_of p) → IsReached s n

  grown : (ps : List Project) (p : Project) (n : String) → IsLoaded ps n → IsLoaded (ps ++ p ∷ []) n
  grown ps p n (inl absent) = inl absent
  grown ps p n (inr (d, q, there, loaded, m)) =
      inr (d, q, there, loaded, in-append_left q ps (p ∷ []) m)

  more_errors : (es : List String) (x : String) (xs : List String) → es ++ x ∷ xs ≢ []
  more_errors [] x xs e = cc
  more_errors (y ∷ es) x xs e = cc

  module _ (names : List String) (name : String) (rest : List String) (s : Loading)
      (queue : s.project_names_to_load ≡ name ∷ rest) (inv : Inv names s) where
    -- What was reached is reached when the name has been seen.
    moved : (n : String) → IsReached s n → (n ≡ name) ⊎ (In n s.seen_project_names ⊎ In n rest)
    moved n (inl seen) = inr (inl seen)
    moved n (inr m) = elim (subst (In n) queue m) [ inl e ↦ inl e | inr m' ↦ inr (inr m') ]

    taken : Loading
    taken = record s {
      project_names_to_load = rest;
      seen_project_names = name ∷ s.seen_project_names;
    }

    moved_on : (n : String) → IsReached s n → IsReached taken n
    unfolding taken
    moved_on n r = elim (moved n r) [
      | inl e ↦ inl (inl e)
      | inr (inl seen) ↦ inl (inr seen)
      | inr (inr m) ↦ inr m
    ]

    already_seen :
        In name s.seen_project_names → Inv names (record s { project_names_to_load = rest })
    already_seen seen =
        let stays : (n : String)
            → IsReached s n
            → IsReached (record s { project_names_to_load = rest }) n =
          λ n r. elim (moved n r) [
            | inl e ↦ inl (subst (λ z. In z s.seen_project_names) (sym e) seen)
            | inr r' ↦ r'
          ] in
        record {
          first = λ n m. stays n (inv.first n m);
          handled = inv.handled;
          needed = λ p m n i. stays n (inv.needed p m n i);
        }

    not_defined : lookup name ds ≡ none → Inv names taken
    unfolding taken
    not_defined absent = record {
      first = λ n m. moved_on n (inv.first n m);
      handled = λ n m. elim m [
        | inl e ↦ inl (inl (ap (λ z. lookup z ds) e ∙ absent))
        | inr m' ↦ inv.handled n m'
      ];
      needed = λ p m n i. moved_on n (inv.needed p m n i);
    }

    defined :
        (d : ProjectDefinition) (l : LoadedProject)
        → lookup name ds ≡ some d
        → load_project d ≡ l
        → Inv names (take_loaded ds load_project selected_environments l taken)
    unfolding taken
    defined d (failed x xs) there loads = record {
      first = λ n m. moved_on n (inv.first n m);
      handled = λ n m. inr (more_errors s.errs x xs);
      needed = λ p m n i. moved_on n (inv.needed p m n i);
    }
    defined d (project p) there loads =
        let stays : (n : String)
            → IsReached s n
            → IsReached (take_loaded ds load_project selected_environments (project p) taken) n =
          λ n r. elim (moved_on n r) [
            | inl seen ↦ inl seen
            | inr m ↦ inr (in-append_left n rest (deps_of p) m)
          ] in
        record {
          first = λ n m. stays n (inv.first n m);
          handled = λ n m. elim m [
            | inl e ↦ inl (
                inr (
                  d,
                  p,
                  ap (λ z. lookup z ds) e ∙ there,
                  loads,
                  in-append_right p s.loaded_projects (p ∷ []) (inl refl),
                ))
            | inr m' ↦ elim (inv.handled n m') [
              | inl loaded ↦ inl (grown s.loaded_projects p n loaded)
              | inr wrong ↦ inr wrong
            ]
          ];
          needed = λ q m n i. elim (in-append q s.loaded_projects (p ∷ []) m) [
            | inl old ↦ stays n (inv.needed q old n i)
            | inr (inl same) ↦
                inr (in-append_right n rest (deps_of p) (subst (λ z. In n (deps_of z)) same i))
            | inr (inr bad) ↦ absurd bad
          ];
        }

    pub load_next-Inv : Inv names (
        load_next ds load_project selected_environments name
          (record s { project_names_to_load = rest }))
    unfolding load_next taken
    load_next-Inv = elim (Bool-cases (is_listed name s.seen_project_names)) [
      | inl seen ↦ rw seen (already_seen ((is_listed_iff name s.seen_project_names).0 seen))
      | inr new ↦ elim (Option-cases (lookup name ds)) [
        | inl absent ↦ rw new (rw absent (not_defined absent))
        | inr (d, there) ↦ rw new (rw there (defined d (load_project d) there refl))
      ]
    ]
