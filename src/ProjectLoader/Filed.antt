-- ===== src/ProjectLoader/Filed.antt =====
-- Every configuration in the map of `toConfigMap` stands under its own type.
use dynatrace_configuration.Base.{
  ◌≡◌, refl, sym, ◌∙◌, ap, subst, ◌⊎◌, inl, inr, String, Bool, true, false, List, [], ◌∷◌, ◌++◌,
  Option, none, some, In, in-append, arith, lookup, insert, lookup-insert, str_eq, eq_iff,
  Bool-cases, if◌then◌else◌,
}
use dynatrace_configuration.Config.Coordinate.{Coordinate}
use dynatrace_configuration.Config.Model.{Config}
use dynatrace_configuration.Config.Parameter.{reference}
use dynatrace_configuration.Config.Resolve.{Runtime}
use dynatrace_configuration.ProjectLoader.Marks.{marked-coordinate}
use dynatrace_configuration.Project.{ConfigsPerType, ConfigsPerTypePerEnvironments}
use dynatrace_configuration.ProjectLoader.Defs.{
  types_of, configs_of_type, set_parameter, network_zones_enabled, with_zone_reference,
  insert_network_zone_parameter, marked, file_config, file_configs, to_config_map,
}

in-insert :
    (k key : String) (v value : List Config) (m : ConfigsPerType)
    → In (k, v) (insert key value m)
    → ((k ≡ key) × (v ≡ value)) ⊎ In (k, v) m
unfolding insert
in-insert k key v value [] (inl e) = inl (ap (λ z. z.0) e, ap (λ z. z.1) e)
in-insert k key v value [] (inr bad) = absurd bad
in-insert k key v value ((other, before) ∷ m) i =
    by_test (str_eq other key) i (in-insert k key v value m)
  where
    by_test :
        (b : Bool)
        → In (k, v) (if b then (key, value) ∷ m else (other, before) ∷ insert key value m)
        → (In (k, v) (insert key value m) → ((k ≡ key) × (v ≡ value)) ⊎ In (k, v) m)
        → ((k ≡ key) × (v ≡ value)) ⊎ In (k, v) ((other, before) ∷ m)
    by_test true (inl e) rest = inl (ap (λ z. z.0) e, ap (λ z. z.1) e)
    by_test true (inr m') rest = inr (inr m')
    by_test false (inl e) rest = inr (inl e)
    by_test false (inr m') rest = elim (rest m') [ inl same ↦ inl same | inr old ↦ inr (inr old) ]

in-lookup :
    (key : String) (v : List Config) (m : ConfigsPerType) → lookup key m ≡ some v → In (key, v) m
unfolding lookup
in-lookup key v [] e = cc
in-lookup key v ((other, before) ∷ m) e = elim (Bool-cases (str_eq other key)) [
  | inl t ↦
      let same = (eq_iff other key).0 t in
      let value_same : before ≡ v = ground arith in
      inl (ap (λ z. (z, v)) (sym same) ∙ ap (λ z. (other, z)) (sym value_same))
  | inr f ↦ inr (in-lookup key v m (ground arith))
]

module _ (project_id : String) where
  abbrev TypesFiled : ConfigsPerType → Type 0
  TypesFiled types =
      (config_type : String) (cs : List Config)
      → In (config_type, cs) types
      → (c : Config) → In c cs
      → (c.coordinate.type ≡ config_type) × (c.coordinate.project ≡ project_id)

  abbrev MapFiled : ConfigsPerTypePerEnvironments → Type 0
  MapFiled m =
      (env : String) (types : ConfigsPerType) → lookup env m ≡ some types → TypesFiled types

  file_config-MapFiled :
      (c : Config) (m : ConfigsPerTypePerEnvironments)
      → c.coordinate.project ≡ project_id
      → MapFiled m
      → MapFiled (file_config c m)
  unfolding file_config
  file_config-MapFiled c m own filed env types there =
      let before = types_of (lookup c.environment m) in
      let grown = configs_of_type (lookup c.coordinate.type before) ++ c ∷ [] in
      let found = lookup-insert c.environment env (insert c.coordinate.type grown before) m in
      elim (Bool-cases (str_eq c.environment env)) [
        | inr other ↦ filed env types (ground arith)
        | inl same ↦
            let now : insert c.coordinate.type grown before ≡ types = ground arith in
            subst TypesFiled now (λ config_type cs i d j.
              elim (in-insert config_type c.coordinate.type cs grown before i) [
                | inr old ↦ types_filed (lookup c.environment m) refl config_type cs old d j
                | inl (type_same, cs_same) ↦
                    elim (in-append d (configs_of_type (lookup c.coordinate.type before)) (c ∷ [])
                      (subst (In d) cs_same j)) [
                        | inl old ↦
                            let (t, p) =
                              older before (types_filed (lookup c.environment m) refl) d old in
                            (t ∙ sym type_same, p)
                        | inr (inl it) ↦ (
                          ap (λ z. z.coordinate.type) it ∙ sym type_same,
                          ap (λ z. z.coordinate.project) it ∙ own,
                        )
                        | inr (inr bad) ↦ absurd bad
                      ]
              ])
      ]
    where
      types_filed :
          (o : Option ConfigsPerType) → lookup c.environment m ≡ o → TypesFiled (types_of o)
      types_filed none e = λ config_type cs i. absurd i
      types_filed (some types) e = filed c.environment types e

      older :
          (before : ConfigsPerType)
          → TypesFiled before
          → (d : Config) → In d (configs_of_type (lookup c.coordinate.type before))
          → (d.coordinate.type ≡ c.coordinate.type) × (d.coordinate.project ≡ project_id)
      older before fits d i = by_lookup (lookup c.coordinate.type before) refl i
        where
          by_lookup :
              (o : Option (List Config))
              → lookup c.coordinate.type before ≡ o
              → In d (configs_of_type o)
              → (d.coordinate.type ≡ c.coordinate.type) × (d.coordinate.project ≡ project_id)
          by_lookup none e j = absurd j
          by_lookup (some cs) e j =
              fits c.coordinate.type cs (in-lookup c.coordinate.type cs before e) d j

  module _ (run : Runtime) (non_unique_name : String → Bool) where
    file_configs-MapFiled :
        (all cs : List Config) (m : ConfigsPerTypePerEnvironments)
        → ((c : Config) → In c cs → c.coordinate.project ≡ project_id)
        → MapFiled m
        → MapFiled (file_configs run non_unique_name all cs m)
    file_configs-MapFiled all [] m own filed = filed
    file_configs-MapFiled all (c ∷ cs) m own filed =
        file_configs-MapFiled all cs (file_config (marked run non_unique_name all c) m)
          (λ d i. own d (inr i))
          (file_config-MapFiled (marked run non_unique_name all c) m
            (ap (λ z. z.project) (marked-coordinate run non_unique_name all c) ∙ own c (inl refl))
            filed)

    pub to_config_map-MapFiled :
        (cs : List Config)
        → ((c : Config) → In c cs → c.coordinate.project ≡ project_id)
        → MapFiled (to_config_map run non_unique_name cs)
    unfolding to_config_map lookup
    to_config_map-MapFiled cs own =
        file_configs-MapFiled cs cs [] own (λ env types e. absurd (ground arith))

  with_zone_reference-project :
      (enabled : Coordinate) (cs : List Config)
      → ((c : Config) → In c cs → c.coordinate.project ≡ project_id)
      → (c : Config) → In c (with_zone_reference enabled cs)
      → c.coordinate.project ≡ project_id
  unfolding with_zone_reference set_parameter
  with_zone_reference-project enabled [] own c i = absurd i
  with_zone_reference-project enabled (d ∷ cs) own c i =
      by_test (str_eq d.coordinate.type "network-zone") i
        (with_zone_reference-project enabled cs (λ x k. own x (inr k)))
    where
      by_test :
          (b : Bool)
          → In c (
              if b
              then set_parameter "__MONACO_NZONE_ENABLED__"
                  (reference (record { config = enabled; property = "name" }))
                  d
                ∷ with_zone_reference enabled cs
              else d ∷ with_zone_reference enabled cs)
          → ((x : Config)
              → In x (with_zone_reference enabled cs)
              → x.coordinate.project ≡ project_id)
          → c.coordinate.project ≡ project_id
      by_test true (inl e) rest = ap (λ z. z.coordinate.project) e ∙ own d (inl refl)
      by_test true (inr j) rest = rest c j
      by_test false (inl e) rest = ap (λ z. z.coordinate.project) e ∙ own d (inl refl)
      by_test false (inr j) rest = rest c j

  pub insert_network_zone_parameter-project :
      (cs : List Config)
      → ((c : Config) → In c cs → c.coordinate.project ≡ project_id)
      → (c : Config) → In c (insert_network_zone_parameter cs)
      → c.coordinate.project ≡ project_id
  unfolding insert_network_zone_parameter
  insert_network_zone_parameter-project cs own c i = by_enabled (network_zones_enabled cs) refl i
    where
      by_enabled :
          (o : Option Coordinate)
          → network_zones_enabled cs ≡ o
          → In c (elim o [ none ↦ cs | some enabled ↦ with_zone_reference enabled cs ])
          → c.coordinate.project ≡ project_id
      by_enabled none e j = own c j
      by_enabled (some enabled) e j = with_zone_reference-project enabled cs own c j
