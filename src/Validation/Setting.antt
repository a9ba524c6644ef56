-- ===== src/Validation/Setting.antt =====
-- `InsertAfterSameScopeValidator` of pkg/deploy/internal/setting/validation.go.
use dynatrace_configuration.Base.{
  String, not, List, [], ◌∷◌, Option, none, some, str_eq, if◌then◌else◌,
}
use dynatrace_configuration.Base.Value.{str}
use dynatrace_configuration.Config.Coordinate.{Coordinate, same_coordinate}
use dynatrace_configuration.Config.Model.{
  Config, type_id, parameter_of, scope_parameter, insert_after_parameter,
}
use dynatrace_configuration.Config.Parameter.{Parameter, value, reference}
use dynatrace_configuration.Project.{Project, get_config_for}

-- The cause of an `insertAfterSameScopeError`.
pub data Cause : Type 0 where
  diff_schema diff_scope referenced_project_not_found referenced_not_found : Cause

pub record InsertAfterSameScopeError : Type 0 where
  pub cause : Cause
  pub source : Coordinate
  pub target : Coordinate

unfoldable pub find_project_by_name : List Project → String → Option Project
find_project_by_name [] name = none
find_project_by_name (p ∷ ps) name =
    let rest = find_project_by_name ps name in if str_eq p.id name then some p else rest

abbrev pub no_coordinate : Coordinate
no_coordinate = record { project = ""; type = ""; config_id = "" }

abbrev pub referenced_coordinate : Option Parameter → Coordinate
referenced_coordinate (some (reference r)) = r.config
referenced_coordinate _ = no_coordinate

unfoldable pub extract_insert_after_reference : Config → Coordinate
extract_insert_after_reference c = referenced_coordinate (parameter_of c insert_after_parameter)

abbrev pub plain_text : Option Parameter → String
plain_text (some (value (str s))) = s
plain_text _ = ""

unfoldable pub extract_scope : Config → String
extract_scope c = plain_text (parameter_of c scope_parameter)

abbrev pub compare_scopes : String → String → Option Cause
compare_scopes config_scope target_scope =
    if str_eq config_scope ""
    then none
    else if str_eq target_scope ""
    then none
    else if str_eq config_scope target_scope
    then none
    else some diff_scope

abbrev pub check_target : List Project → Config → Coordinate → Option Cause
check_target projects c target =
    if not (str_eq target.type c.coordinate.type)
    then some diff_schema
    else elim (find_project_by_name projects target.project) [
      | none ↦ some referenced_project_not_found
      | some p ↦ elim (get_config_for p c.environment target) [
        | none ↦ some referenced_not_found
        | some target_conf ↦ compare_scopes (extract_scope c) (extract_scope target_conf)
      ]
    ]

abbrev pub new_error : Coordinate → Coordinate → Option Cause → Option InsertAfterSameScopeError
new_error source target none = none
new_error source target (some cause) =
    some (record { cause = cause; source = source; target = target })

-- `none` is the accepting nil.
unfoldable pub validate_insert_after : List Project → Config → Option InsertAfterSameScopeError
validate_insert_after projects c =
    let target = extract_insert_after_reference c in
    if c.skip
    then none
    else if not (str_eq (type_id c.type) "settings")
    then none
    else if same_coordinate target no_coordinate
    then none
    else new_error c.coordinate target (check_target projects c target)
