-- ===== src/Validation/SameScope.antt =====
-- What the acceptance by `InsertAfterSameScopeValidator` means.
use dynatrace_configuration.Base.{
  String, true, false, ◌≡◌, ◌≢◌, refl, sym, ◌∙◌, ap, subst, ◌↔◌, ◌⊎◌, inl, inr, List, [], ◌∷◌,
  Option, none, some, In, Distinct, map, in-map, arith, lookup, str_eq, eq_iff, Bool-cases,
  Option-cases,
}
use dynatrace_configuration.Config.Coordinate.{Coordinate, same_coordinate, same_coordinate_iff}
use dynatrace_configuration.Config.Model.{Config, type_id, parameter_of, insert_after_parameter}
use dynatrace_configuration.Config.Parameter.{ParameterReference, reference}
use dynatrace_configuration.Project.{
  Project, ConfigsPerType, with_config_id, in_types, get_config_for,
}
use dynatrace_configuration.Validation.Setting.{
  Cause, find_project_by_name, no_coordinate, extract_insert_after_reference, extract_scope,
  compare_scopes, referenced_coordinate, check_target, new_error, validate_insert_after,
}

-- Every configuration stands under its own type, in its own project.
abbrev pub IsFiled : Project → Type 0
IsFiled p =
    (env : String) (types : ConfigsPerType)
    → lookup env p.configs ≡ some types
    → (config_type : String) (cs : List Config) → In (config_type, cs) types
    → (c : Config) → In c cs
    → (c.coordinate.type ≡ config_type) × (c.coordinate.project ≡ p.id)

in-with_config_id :
    (id : String) (cs : List Config) (d : Config)
    → with_config_id id cs ≡ some d
    → In d cs × (d.coordinate.config_id ≡ id)
in-with_config_id id [] d e = cc
in-with_config_id id (c ∷ cs) d e = elim (Bool-cases (str_eq c.coordinate.config_id id)) [
  | inl found ↦
      let same : c ≡ d = ground arith in
      (
        inl (sym same),
        ap (λ z. z.coordinate.config_id) (sym same) ∙ (eq_iff c.coordinate.config_id id).0 found,
      )
  | inr other ↦ let (m, at) = in-with_config_id id cs d (ground arith) in (inr m, at)
]

in-in_types :
    (x : Coordinate) (types : ConfigsPerType) (d : Config)
    → in_types x types ≡ some d
    → (cs : List Config) × In (x.type, cs) types × In d cs × (d.coordinate.config_id ≡ x.config_id)
in-in_types x [] d e = cc
in-in_types x ((config_type, cs) ∷ types) d e = elim (Bool-cases (str_eq x.type config_type)) [
  | inr other ↦ let (ds, m, m', at) = in-in_types x types d (ground arith) in (ds, inr m, m', at)
  | inl same ↦ elim (Option-cases (with_config_id x.config_id cs)) [
    | inl absent ↦ let (ds, m, m', at) = in-in_types x types d (ground arith) in (ds, inr m, m', at)
    | inr (d', found) ↦
        let it : d' ≡ d = ground arith in
        let (m, at) = in-with_config_id x.config_id cs d (found ∙ ap some it) in
        (cs, inl (ap (λ z. (z, cs)) ((eq_iff x.type config_type).0 same)), m, at)
  ]
]

-- What `GetConfigFor` finds in a project has the wanted coordinate.
pub get_config_for-IsFiled :
    (p : Project) (env : String) (x : Coordinate) (d : Config)
    → IsFiled p
    → x.project ≡ p.id
    → get_config_for p env x ≡ some d
    → d.coordinate ≡ x
unfolding get_config_for
get_config_for-IsFiled p env x d filed same found = elim (Option-cases (lookup env p.configs)) [
  | inl absent ↦ absurd (ground arith)
  | inr (types, there) ↦
      let (cs, m, m', at) = in-in_types x types d (ground arith) in
      let (type_same, project_same) = filed env types there x.type cs m d m' in
      let here : d.coordinate.project ≡ x.project = project_same ∙ sym same in cc
]

find_project_lem :
    (ps : List Project) (name : String) (p : Project)
    → find_project_by_name ps name ≡ some p
    → In p ps × (p.id ≡ name)
unfolding find_project_by_name
find_project_lem [] name p e = cc
find_project_lem (q ∷ ps) name p e = elim (Bool-cases (str_eq q.id name)) [
  | inl found ↦
      let same : q ≡ p = ground arith in
      (inl (sym same), ap (λ z. z.id) (sym same) ∙ (eq_iff q.id name).0 found)
  | inr other ↦ let (m, at) = find_project_lem ps name p (ground arith) in (inr m, at)
]

find_project_only :
    (ps : List Project) (p : Project)
    → Distinct (map (λ q. q.id) ps)
    → In p ps
    → find_project_by_name ps p.id ≡ some p
unfolding find_project_by_name
find_project_only [] p d m = absurd m
find_project_only (q ∷ ps) p (out, d) (inl same) =
    let t = (eq_iff q.id p.id).1 (ap (λ z. z.id) (sym same)) in rw t (ap some (sym same))
find_project_only (q ∷ ps) p (out, d) (inr m) = elim (Bool-cases (str_eq q.id p.id)) [
  | inl same ↦ absurd (
      out (
        subst (λ z. In z (map (λ q. q.id) ps)) (sym ((eq_iff q.id p.id).0 same))
          (in-map (λ q. q.id) p ps m)))
  | inr other ↦ rw other (find_project_only ps p d m)
]

-- The scopes are the same, where both are plain texts.
abbrev pub ScopesAgree : String → String → Type 0
ScopesAgree a b = (a ≡ "") ⊎ ((b ≡ "") ⊎ (a ≡ b))

compare_scopes_lem : (a b : String) → (compare_scopes a b ≡ none) ↔ ScopesAgree a b
compare_scopes_lem a b = (
  (λ e. elim (Bool-cases (str_eq a "")) [
    | inl t ↦ inl ((eq_iff a "").0 t)
    | inr no_a ↦ elim (Bool-cases (str_eq b "")) [
      | inl t ↦ inr (inl ((eq_iff b "").0 t))
      | inr no_b ↦ elim (Bool-cases (str_eq a b)) [
        | inl t ↦ inr (inr ((eq_iff a b).0 t))
        | inr no_same ↦ absurd (ground arith)
      ]
    ]
  ]),
  (λ h. elim h [
    | inl e ↦ let t = (eq_iff a "").1 e in ground arith
    | inr (inl e) ↦ let t = (eq_iff b "").1 e in ground arith
    | inr (inr e) ↦ let t = (eq_iff a b).1 e in ground arith
  ]),
)

-- The target is of the same type and stands in one of the projects, in the same environment.
abbrev pub HasTarget : List Project → Config → Coordinate → Type 0
HasTarget projects c target =
    (target.type ≡ c.coordinate.type)
    × (p : Project) × In p projects
    × (t : Config) × (p.id ≡ target.project)
    × (get_config_for p c.environment target ≡ some t)
    × (t.coordinate ≡ target)
    × ScopesAgree (extract_scope c) (extract_scope t)

module _ (projects : List Project) (distinct : Distinct (map (λ p. p.id) projects))
    (filed : (p : Project) → In p projects → IsFiled p) (c : Config) where
  check_target_lem :
      (target : Coordinate) → (check_target projects c target ≡ none) ↔ HasTarget projects c target
  check_target_lem target = (
    (λ e. elim (Bool-cases (str_eq target.type c.coordinate.type)) [
      | inr other ↦ absurd (ground arith)
      | inl same ↦ elim (Option-cases (find_project_by_name projects target.project)) [
        | inl absent ↦ absurd (ground arith)
        | inr (p, found) ↦
            let (m, at) = find_project_lem projects target.project p found in
            elim (Option-cases (get_config_for p c.environment target)) [
              | inl absent ↦ absurd (ground arith)
              | inr (t, there) ↦ (
                (eq_iff target.type c.coordinate.type).0 same,
                p,
                m,
                t,
                at,
                there,
                get_config_for-IsFiled p c.environment target t (filed p m) (sym at) there,
                (compare_scopes_lem (extract_scope c) (extract_scope t)).0 (ground arith),
              )
            ]
      ]
    ]),
    (λ (same, p, m, t, at, there, _, agree).
        let t_same = (eq_iff target.type c.coordinate.type).1 same in
        let found : find_project_by_name projects target.project ≡ some p =
          ap (find_project_by_name projects) (sym at) ∙ find_project_only projects p distinct m in
        let none_wrong = (compare_scopes_lem (extract_scope c) (extract_scope t)).1 agree in
        rw t_same (rw found (rw there none_wrong))),
  )

  -- Where the projects have distinct ids and each configuration stands under its own type in its
  -- own project, a settings object that is not skipped and whose parameter `insertAfter` refers to
  -- a coordinate that is not empty is accepted exactly when that coordinate has its type and is
  -- the coordinate of a configuration that is found in one of the projects, in the same
  -- environment, and the two scopes are the same where both are plain texts that are not empty.
  pub validate_insert_after_iff :
      (r : ParameterReference)
      → c.skip ≡ false
      → type_id c.type ≡ "settings"
      → parameter_of c insert_after_parameter ≡ some (reference r)
      → r.config ≢ no_coordinate
      → (validate_insert_after projects c ≡ none) ↔ HasTarget projects c r.config
  unfolding validate_insert_after extract_insert_after_reference same_coordinate parameter_of
  validate_insert_after_iff r active settings after apart =
      let t_settings = (eq_iff (type_id c.type) "settings").1 settings in
      let target : extract_insert_after_reference c ≡ r.config = ap referenced_coordinate after in
      let named : same_coordinate r.config no_coordinate ≡ false =
        elim (Bool-cases (same_coordinate r.config no_coordinate)) [
          | inl e ↦ absurd (apart ((same_coordinate_iff r.config no_coordinate).0 e))
          | inr e ↦ e
        ] in
      let checked : validate_insert_after projects c
          ≡ new_error c.coordinate r.config (check_target projects c r.config) =
        by_own_target t_settings (ap (λ z. same_coordinate z no_coordinate) target ∙ named)
        ∙ ap (λ z. new_error c.coordinate z (check_target projects c z)) target in
      let (sound, complete) = check_target_lem r.config in
      (
        (λ e.
            sound (
              no_error c.coordinate r.config (check_target projects c r.config) (sym checked ∙ e))),
        (λ h. checked ∙ ap (new_error c.coordinate r.config) (complete h)),
      )
    where
      by_own_target :
          str_eq (type_id c.type) "settings" ≡ true
          → same_coordinate (extract_insert_after_reference c) no_coordinate ≡ false
          → validate_insert_after projects c
            ≡ new_error c.coordinate
                (extract_insert_after_reference c)
                (check_target projects c (extract_insert_after_reference c))
      by_own_target t_settings named = rw t_settings (rw active (rw named refl))

      no_error :
          (source target : Coordinate) (o : Option Cause)
          → new_error source target o ≡ none
          → o ≡ none
      no_error source target none e = refl
      no_error source target (some cause) e = cc
