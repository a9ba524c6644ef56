-- ===== src/ProjectLoader/Marks.antt =====
-- Which configurations `toConfigMap` of pkg/project/project_loader.go marks.
use dynatrace_configuration.Base.{
  ◌<◌, ◌≡◌, refl, ap, subst, ◌↔◌, ◌⊎◌, inl, inr, String, Bool, true, List, [], ◌∷◌, Option, none,
  some, In, arith, ltb, eq_iff, Bool-cases, Option-cases,
}
use dynatrace_configuration.Base.Value.{bool}
use dynatrace_configuration.Config.Model.{Config, type_id}
use dynatrace_configuration.Config.Parameter.{value}
use dynatrace_configuration.Config.Resolve.{Runtime}
use dynatrace_configuration.ProjectLoader.Defs.{
  set_parameter, get_name_for_config, counts_as, non_unique_name_config_count, marked,
}

-- Two entries of the list, at different places, have the property.
abbrev pub AtLeastTwo : (Config → Type 0) → List Config → Type 0
AtLeastTwo P [] = ⊥
AtLeastTwo P (c ∷ cs) = (P c × ((d : Config) × In d cs × P d)) ⊎ AtLeastTwo P cs

module _ (run : Runtime) (non_unique_name : String → Bool) where
  -- A configuration of the environment, of a classic API whose names are not unique, with the name.
  abbrev pub Bears : String → String → Config → Type 0
  Bears env name c =
      (type_id c.type ≡ "classic")
      × (non_unique_name c.coordinate.type ≡ true)
      × (c.environment ≡ env)
      × (get_name_for_config run c ≡ some name)

  -- Two such configurations of its environment have its name.
  abbrev pub IsShared : List Config → Config → Type 0
  IsShared all c =
      (name : String) × (get_name_for_config run c ≡ some name)
      × AtLeastTwo (Bears c.environment name) all

  abbrev pub with_mark : Config → Config
  unfolding set_parameter
  with_mark c = set_parameter "__MONACO_NUN_API_DUP__" (value (bool true)) c

  -- The second is the first, with the mark exactly when its name is shared.
  abbrev pub IsMarkedAs : List Config → Config → Config → Type 0
  IsMarkedAs all c d = (IsShared all c × (d ≡ with_mark c)) ⊎ ((¬ IsShared all c) × (d ≡ c))

  counts_as_iff :
      (env name : String) (c : Config)
      → (counts_as run non_unique_name env name c ≡ true) ↔ Bears env name c
  counts_as_iff env name c = by_name (get_name_for_config run c) refl
    where
      by_name :
          (o : Option String)
          → get_name_for_config run c ≡ o
          → (counts_as run non_unique_name env name c ≡ true) ↔ Bears env name c
      by_name none e = ((λ t. absurd (ground arith)), (λ (_, _, _, named). absurd (ground arith)))
      by_name (some other) e = (
        (λ t.
            let same_type = eq_iff (type_id c.type) "classic" in
            let same_env = eq_iff c.environment env in
            let same_name = eq_iff other name in ground arith),
        (λ (classic, unique, own, named).
            let same_type = (eq_iff (type_id c.type) "classic").1 classic in
            let same_env = (eq_iff c.environment env).1 own in
            let it : other ≡ name = ground arith in
            let same_name = (eq_iff other name).1 it in ground arith),
      )

  count_positive_iff :
      (env name : String) (cs : List Config)
      → (0 < non_unique_name_config_count run non_unique_name env name cs)
        ↔ ((d : Config) × In d cs × Bears env name d)
  unfolding non_unique_name_config_count
  count_positive_iff env name [] = ((λ h. absurd (omega (arith, h))), (λ (_, bad, _). absurd bad))
  count_positive_iff env name (c ∷ cs) =
      let (sound, complete) = count_positive_iff env name cs in
      let (bears, counted) = counts_as_iff env name c in
      elim (Bool-cases (counts_as run non_unique_name env name c)) [
        | inl t ↦ ((λ h. (c, inl refl, bears t)), (λ m. rw t (omega arith)))
        | inr f ↦ (
          (λ h. let (d, m, b) = sound (ground arith) in (d, inr m, b)),
          (λ (d, m, b). elim m [
            | inl e ↦ absurd (ground (arith, counted (subst (Bears env name) e b)))
            | inr m' ↦ let more = complete (d, m', b) in ground arith
          ]),
        )
      ]

  count_two_iff :
      (env name : String) (cs : List Config)
      → (1 < non_unique_name_config_count run non_unique_name env name cs)
        ↔ AtLeastTwo (Bears env name) cs
  unfolding non_unique_name_config_count
  count_two_iff env name [] = ((λ h. absurd (omega (arith, h))), (λ bad. absurd bad))
  count_two_iff env name (c ∷ cs) =
      let (sound, complete) = count_two_iff env name cs in
      let (one, one_back) = count_positive_iff env name cs in
      let (bears, counted) = counts_as_iff env name c in
      elim (Bool-cases (counts_as run non_unique_name env name c)) [
        | inl t ↦ (
          (λ h. inl (bears t, one (ground arith))),
          (λ m. elim m [
            | inl (_, later) ↦ let more = one_back later in ground arith
            | inr two ↦ let more = complete two in ground arith
          ]),
        )
        | inr f ↦ (
          (λ h. inr (sound (ground arith))),
          (λ m. elim m [
            | inl (b, later) ↦ absurd (ground (arith, counted b))
            | inr two ↦ let more = complete two in ground arith
          ]),
        )
      ]

  pub marked-IsMarkedAs :
      (all : List Config) (c : Config) → IsMarkedAs all c (marked run non_unique_name all c)
  unfolding marked
  marked-IsMarkedAs all c = elim (Option-cases (get_name_for_config run c)) [
    | inl absent ↦ inr ((λ (name, named, _). absurd (ground arith)), rw (marked, absent) refl)
    | inr (name, there) ↦
        let count = non_unique_name_config_count run non_unique_name c.environment name all in
        let (sound, complete) = count_two_iff c.environment name all in
        elim (Bool-cases (ltb 1 count)) [
          | inl t ↦ inl ((name, there, sound (ground arith)), rw (marked, there, t) refl)
          | inr f ↦ inr (
            (λ (other, named, two).
                let it : other ≡ name = ground arith in
                let many = complete (subst (λ z. AtLeastTwo (Bears c.environment z) all) it two) in
                absurd (ground arith)),
            rw (marked, there, f) refl,
          )
        ]
  ]

  pub marked-coordinate :
      (all : List Config) (c : Config)
      → (marked run non_unique_name all c).coordinate ≡ c.coordinate
  unfolding with_mark
  marked-coordinate all c = elim (marked-IsMarkedAs all c) [
    | inl (_, e) ↦ ap (λ z. z.coordinate) e
    | inr (_, e) ↦ ap (λ z. z.coordinate) e
  ]
