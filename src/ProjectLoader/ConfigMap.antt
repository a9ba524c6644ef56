-- ===== src/ProjectLoader/ConfigMap.antt =====
-- What `toConfigMap` of pkg/project/project_loader.go builds.
use dynatrace_configuration.Base.{
  ◌≡◌, refl, sym, ◌∙◌, ap, inl, inr, String, Bool, ◌&&◌, List, [], ◌∷◌, ◌++◌, lookup, insert,
  lookup-insert, append_assoc, append-nil, str_eq, eq_iff, Bool-cases, Option-cases, ltb,
  if◌then◌else◌,
}
use dynatrace_configuration.Config.Coordinate.{Coordinate}
use dynatrace_configuration.Config.Model.{Config}
use dynatrace_configuration.Base.{subst, map, Option, none, some}
use dynatrace_configuration.ProjectLoader.Marks.{IsMarkedAs, marked-IsMarkedAs, marked-coordinate}
use dynatrace_configuration.Config.Resolve.{Runtime}
use dynatrace_configuration.Project.{ConfigsPerTypePerEnvironments}
use dynatrace_configuration.ProjectLoader.Defs.{
  types_of, configs_of_type, get_name_for_config, non_unique_name_config_count, marked, file_config,
  file_configs, to_config_map, set_parameter, with_zone_reference, insert_network_zone_parameter,
  network_zones_enabled,
}

-- The configurations of a type in an environment, `configMap[env][configType]`.
abbrev pub filed_at : String → String → ConfigsPerTypePerEnvironments → List Config
filed_at env config_type m = configs_of_type (lookup config_type (types_of (lookup env m)))

abbrev pub belongs : String → String → Config → Bool
belongs env config_type c = str_eq c.environment env && str_eq c.coordinate.type config_type

-- The configurations of a type in an environment, in their order.
abbrev pub selected : String → String → List Config → List Config
selected env config_type [] = []
selected env config_type (c ∷ cs) =
    let rest = selected env config_type cs in if belongs env config_type c then c ∷ rest else rest

-- One configuration, where it belongs.
abbrev only : String → String → Config → List Config
only env config_type c = if belongs env config_type c then c ∷ [] else []

filed_at-file_config :
    (env config_type : String) (c : Config) (m : ConfigsPerTypePerEnvironments)
    → filed_at env config_type (file_config c m)
      ≡ filed_at env config_type m ++ only env config_type c
unfolding file_config
filed_at-file_config env config_type c m =
    let types = types_of (lookup c.environment m) in
    let grown = configs_of_type (lookup c.coordinate.type types) ++ c ∷ [] in
    let outer = lookup-insert c.environment env (insert c.coordinate.type grown types) m in
    let inner = lookup-insert c.coordinate.type config_type grown types in
    ap (λ z. configs_of_type (lookup config_type (types_of z))) outer
    ∙ elim (Bool-cases (str_eq c.environment env)) [
      | inr other ↦ rw other (sym (append-nil (filed_at env config_type m)))
      | inl same ↦ rw same (
          ap configs_of_type inner ∙ elim (Bool-cases (str_eq c.coordinate.type config_type)) [
            | inr other ↦ rw other (
                ap (λ z. configs_of_type (lookup config_type (types_of (lookup z m))))
                  ((eq_iff c.environment env).0 same)
                ∙ sym (append-nil (filed_at env config_type m)))
            | inl same_type ↦ rw same_type (
                ap (λ z. filed_at z c.coordinate.type m ++ c ∷ [])
                  ((eq_iff c.environment env).0 same)
                ∙ ap (λ z. filed_at env z m ++ c ∷ [])
                    ((eq_iff c.coordinate.type config_type).0 same_type))
          ])
    ]

module _ (run : Runtime) (non_unique_name : String → Bool) where
  -- The same with the marks of the code.
  expected : String → String → List Config → List Config → List Config
  expected env config_type all [] = []
  expected env config_type all (c ∷ cs) =
      let rest = expected env config_type all cs in
      if belongs env config_type c then marked run non_unique_name all c ∷ rest else rest

  belongs-marked :
      (env config_type : String) (all : List Config) (c : Config)
      → belongs env config_type (marked run non_unique_name all c) ≡ belongs env config_type c
  unfolding marked
  belongs-marked env config_type all c = elim (Option-cases (get_name_for_config run c)) [
    | inl absent ↦ rw (marked, absent) refl
    | inr (name, there) ↦
        rw (marked, there)
          (elim (Bool-cases
            (ltb 1 (non_unique_name_config_count run non_unique_name c.environment name all))) [
              | inl t ↦ rw t refl
              | inr f ↦ rw f refl
            ])
  ]

  filed_at-file_configs :
      (env config_type : String) (all cs : List Config) (m : ConfigsPerTypePerEnvironments)
      → filed_at env config_type (file_configs run non_unique_name all cs m)
        ≡ filed_at env config_type m ++ expected env config_type all cs
  unfolding expected
  filed_at-file_configs env config_type all [] m = sym (append-nil (filed_at env config_type m))
  filed_at-file_configs env config_type all (c ∷ cs) m =
      let with_mark = marked run non_unique_name all c in
      filed_at-file_configs env config_type all cs (file_config with_mark m)
      ∙ ap (λ z. z ++ expected env config_type all cs)
          (filed_at-file_config env config_type with_mark m)
      ∙ append_assoc (filed_at env config_type m) (only env config_type with_mark)
          (expected env config_type all cs)
      ∙ ap (λ z. filed_at env config_type m ++ z)
          (rw (belongs-marked env config_type all c)
            (elim (Bool-cases (belongs env config_type c)) [
              | inl t ↦ rw t refl
              | inr f ↦ rw f refl
            ]))

  filed_at-expected :
      (env config_type : String) (cs : List Config)
      → filed_at env config_type (to_config_map run non_unique_name cs)
        ≡ expected env config_type cs cs
  unfolding to_config_map expected lookup
  filed_at-expected env config_type cs = filed_at-file_configs env config_type cs cs []

  -- One by one, the second list is the first with its marks.
  abbrev pub AreMarkedAs : List Config → List Config → List Config → Type 0
  AreMarkedAs all [] [] = Unit
  AreMarkedAs all (c ∷ cs) (d ∷ ds) = IsMarkedAs run non_unique_name all c d × AreMarkedAs all cs ds
  AreMarkedAs all [] (_ ∷ _) = ⊥
  AreMarkedAs all (_ ∷ _) [] = ⊥

  expected-AreMarkedAs :
      (env config_type : String) (all cs : List Config)
      → AreMarkedAs all (selected env config_type cs) (expected env config_type all cs)
  unfolding expected
  expected-AreMarkedAs env config_type all [] = tt
  expected-AreMarkedAs env config_type all (c ∷ cs) =
      elim (Bool-cases (belongs env config_type c)) [
        | inl t ↦ rw t (
          marked-IsMarkedAs run non_unique_name all c,
          expected-AreMarkedAs env config_type all cs,
        )
        | inr f ↦ rw f (expected-AreMarkedAs env config_type all cs)
      ]

  -- In the map that `toConfigMap` returns, an environment and a type lead to the configurations of
  -- that environment and that type, each of them once, in the order in which they were loaded. A
  -- configuration carries the mark exactly when at least two configurations of classic APIs with
  -- names that are not unique, in its environment, have its name; otherwise it is unchanged.
  pub to_config_map_lem :
      (env config_type : String) (cs : List Config)
      → AreMarkedAs cs
          (selected env config_type cs)
          (filed_at env config_type (to_config_map run non_unique_name cs))
  to_config_map_lem env config_type cs =
      subst (AreMarkedAs cs (selected env config_type cs))
        (sym (filed_at-expected env config_type cs)) (expected-AreMarkedAs env config_type cs cs)

  coordinates-expected :
      (env config_type : String) (all cs : List Config)
      → map (λ c. c.coordinate) (expected env config_type all cs)
        ≡ map (λ c. c.coordinate) (selected env config_type cs)
  unfolding expected
  coordinates-expected env config_type all [] = refl
  coordinates-expected env config_type all (c ∷ cs) =
      elim (Bool-cases (belongs env config_type c)) [
        | inl t ↦
            rw
              (
                t,
                marked-coordinate run non_unique_name all c,
                coordinates-expected env config_type all cs,
              )
              refl
        | inr f ↦ rw f (coordinates-expected env config_type all cs)
      ]

  pub coordinates-filed_at :
      (env config_type : String) (cs : List Config)
      → map (λ c. c.coordinate) (filed_at env config_type (to_config_map run non_unique_name cs))
        ≡ map (λ c. c.coordinate) (selected env config_type cs)
  coordinates-filed_at env config_type cs =
      ap (map (λ c. c.coordinate)) (filed_at-expected env config_type cs)
      ∙ coordinates-expected env config_type cs cs

-- The network zone parameter changes no coordinate and no environment.
pub coordinates-insert_network_zone_parameter :
    (env config_type : String) (cs : List Config)
    → map (λ c. c.coordinate) (selected env config_type (insert_network_zone_parameter cs))
      ≡ map (λ c. c.coordinate) (selected env config_type cs)
unfolding insert_network_zone_parameter with_zone_reference set_parameter
coordinates-insert_network_zone_parameter env config_type cs = by_enabled (network_zones_enabled cs)
  where
    by_zone :
        (enabled : Coordinate) (cs : List Config)
        → map (λ c. c.coordinate) (selected env config_type (with_zone_reference enabled cs))
          ≡ map (λ c. c.coordinate) (selected env config_type cs)
    by_zone enabled [] = refl
    by_zone enabled (c ∷ cs) = elim (Bool-cases (str_eq c.coordinate.type "network-zone")) [
      | inl t ↦ elim (Bool-cases (belongs env config_type c)) [
        | inl b ↦ rw (t, b, by_zone enabled cs) refl
        | inr b ↦ rw (t, b, by_zone enabled cs) refl
      ]
      | inr f ↦ elim (Bool-cases (belongs env config_type c)) [
        | inl b ↦ rw (f, b, by_zone enabled cs) refl
        | inr b ↦ rw (f, b, by_zone enabled cs) refl
      ]
    ]

    by_enabled :
        (o : Option Coordinate)
        → map
            (λ c. c.coordinate)
            (selected env config_type
              (elim o [ none ↦ cs | some enabled ↦ with_zone_reference enabled cs ]))
          ≡ map (λ c. c.coordinate) (selected env config_type cs)
    by_enabled none = refl
    by_enabled (some enabled) = by_zone enabled cs
