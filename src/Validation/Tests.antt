-- ===== src/Validation/Tests.antt =====
-- The validation of two projects, and the theorems at them.
use dynatrace_configuration.Base.{
  String, true, false, ◌≡◌, ◌≢◌, refl, sym, ap, ◌∙◌, subst, ◌↔◌, inl, inr, List, [], ◌∷◌, none,
  some, In, All, Distinct, arith, lookup, str_eq, eq_iff,
}
use dynatrace_configuration.Base.Value.{str}
use dynatrace_configuration.Config.Coordinate.{Coordinate}
use dynatrace_configuration.Config.Model.{Config, settings, classic_api, type_id, parameter_of}
use dynatrace_configuration.Config.Parameter.{
  Parameter, ParameterReference, value, reference, file, ok,
}
use dynatrace_configuration.Config.Resolve.{Runtime}
use dynatrace_configuration.Project.{Project}
use dynatrace_configuration.Validation.Accepted.{IsPairwiseApart, IsPlaced, validate_iff}
use dynatrace_configuration.Validation.Classic.{Comparison, ApiInfo}
use dynatrace_configuration.Validation.SameScope.{IsFiled, HasTarget, validate_insert_after_iff}
use dynatrace_configuration.Validation.Setting.{validate_insert_after, no_coordinate}
use dynatrace_configuration.Validation.Validate.{every_config, validate}

abbrev rule : String → Coordinate
rule id = record { project = "p"; type = "builtin:rule"; config_id = id }

abbrev to_first : ParameterReference
to_first = record { config = rule "first"; property = "id" }

abbrev rule_with : String → List (String × Parameter) → Config
rule_with id parameters = record {
  template = "";
  coordinate = rule id;
  group = "g";
  environment = "e";
  type = settings "builtin:rule" "" none;
  parameters = parameters;
  skip = false;
  origin_object_id = "";
}

abbrev first : Config
first = rule_with "first" (("scope", value (str "environment")) ∷ [])

abbrev second : Config
second =
    rule_with "second"
      (("scope", value (str "environment")) ∷ ("insertAfter", reference to_first) ∷ [])

abbrev project : Project
project = record {
  id = "p";
  group_id = "";
  configs = ("e", ("builtin:rule", first ∷ second ∷ []) ∷ []) ∷ [];
  dependencies = [];
}

abbrev projects : List Project
projects = project ∷ []

abbrev ids : List String
ids = "p" ∷ []

projects-Distinct : Distinct ids
projects-Distinct = ((λ m. m), tt)

abbrev rules : List Config
rules = first ∷ second ∷ []

rule_filed :
    (c : Config) → In c rules → (c.coordinate.type ≡ "builtin:rule") × (c.coordinate.project ≡ "p")
rule_filed c (inl e) = (ap (λ z. z.coordinate.type) e, ap (λ z. z.coordinate.project) e)
rule_filed c (inr (inl e)) = (ap (λ z. z.coordinate.type) e, ap (λ z. z.coordinate.project) e)
rule_filed c (inr (inr bad)) = absurd bad

project-IsFiled : IsFiled project
unfolding lookup
project-IsFiled env types e config_type cs m c m' =
    let there : (("builtin:rule", rules) ∷ []) ≡ types = ground arith in
    elim (subst (λ z. In (config_type, cs) z) (sym there) m) [
      | inr bad ↦ absurd bad
      | inl same ↦
          let (t, p) = rule_filed c (subst (In c) (ap (λ z. z.1) same) m') in
          (t ∙ sym (ap (λ z. z.0) same), p)
    ]

projects-IsFiled : (p : Project) → In p projects → IsFiled p
projects-IsFiled p (inr bad) = absurd bad
projects-IsFiled p (inl same) = subst IsFiled (sym same) project-IsFiled

second_apart : rule "first" ≢ no_coordinate
second_apart e = let bad : false ≡ true = (eq_iff "p" "").1 (ap (λ z. z.project) e) in cc

validate_insert_after_iff_example :
    (validate_insert_after projects second ≡ none) ↔ HasTarget projects second (rule "first")
unfolding type_id parameter_of lookup
validate_insert_after_iff_example =
    validate_insert_after_iff projects projects-Distinct projects-IsFiled second to_first refl refl
      refl second_apart

abbrev runtime : Runtime
runtime = record {
  lookup_env = λ name. none;
  escape_string = ok;
  execute = λ format values. ok format;
  render_file = λ path values. ok path;
  sprint = λ v. "";
}

-- Two file parameters cannot be compared; of the others only absent ones are equal, and of the values
-- only texts.
abbrev comparison : Comparison
comparison = record {
  equal_parameters = λ p q. elim p [
    | none ↦ elim q [ none ↦ some true | some q' ↦ some false ]
    | some p' ↦ elim p' [
      | file path escape refs ↦ elim q [
        | none ↦ some false
        | some q' ↦ elim q' [ file path' escape' refs' ↦ none | _ ↦ some false ]
      ]
      | _ ↦ some false
    ]
  ];
  equal_values =
      λ v w. elim v [ some (str s) ↦ elim w [ some (str t) ↦ str_eq s t | _ ↦ false ] | _ ↦ false ];
  equal_references = λ r s. false;
}

abbrev apis : String → ApiInfo
apis api = record { non_unique_name = str_eq api "dashboard"; deprecated_by = "" }

abbrev dashboard : String → String → Config
dashboard id name = record {
  template = "";
  coordinate = record { project = "q"; type = "dashboard"; config_id = id };
  group = "g";
  environment = "e";
  type = classic_api "dashboard";
  parameters = ("name", value (str name)) ∷ [];
  skip = false;
  origin_object_id = "";
}

abbrev all_projects : List Project
all_projects =
    record {
      id = "q";
      group_id = "";
      configs = ("e", ("dashboard", dashboard "a" "one" ∷ dashboard "b" "two" ∷ []) ∷ []) ∷ [];
      dependencies = [];
    }
    ∷ project
    ∷ []

validate_iff_example : (validate runtime comparison apis all_projects ≡ some none) ↔ (
    IsPairwiseApart runtime comparison apis all_projects (every_config all_projects)
    × All (IsPlaced runtime comparison apis all_projects) (every_config all_projects))
validate_iff_example = validate_iff runtime comparison apis all_projects
