-- ===== src/Validation/Validate.antt =====
-- `Validate` of pkg/deploy/internal/validate/validate.go: all validators on all configurations.
use dynatrace_configuration.Base.{
  Bool, true, false, if◌then◌else◌, String, List, [], ◌∷◌, ◌++◌, Option, none, some, lookup, insert,
}
use dynatrace_configuration.Config.Coordinate.{Coordinate}
use dynatrace_configuration.Config.Model.{Config}
use dynatrace_configuration.Config.Resolve.{Runtime}
use dynatrace_configuration.Project.{Project, for_every_config_do}
use dynatrace_configuration.Validation.Classic.{
  Comparison, ApiInfo, UniqueNames, Verdict, accepted, duplicate_of, panicked, validate_classic,
  validate_deprecated,
}
use dynatrace_configuration.Validation.Setting.{InsertAfterSameScopeError, validate_insert_after}

pub data ValidationError : Type 0 where
  duplicated_name : (config other : Coordinate) → ValidationError
  insert_after : InsertAfterSameScopeError → ValidationError

-- `EnvironmentDeploymentErrors`.
abbrev pub Errors : Type 0
Errors = List (String × List ValidationError)

unfoldable pub append_error : String → ValidationError → Errors → Errors
unfolding lookup insert
append_error env e errs = elim (lookup env errs) [
  | none ↦ insert env (e ∷ []) errs
  | some es ↦ insert env (es ++ e ∷ []) errs
]

abbrev pub append_classic : Config → Verdict → Errors → Errors
append_classic c accepted errs = errs
append_classic c panicked errs = errs
append_classic c (duplicate_of d) errs =
    append_error c.environment (duplicated_name c.coordinate d.coordinate) errs

abbrev pub append_setting : Config → Option InsertAfterSameScopeError → Errors → Errors
append_setting c none errs = errs
append_setting c (some e) errs = append_error c.environment (insert_after e) errs

abbrev pub errors_or_nil : Errors → Option Errors
errors_or_nil [] = none
errors_or_nil (e ∷ errs) = some (e ∷ errs)

-- A panic ends the program; the flag is kept and the rest of the state does not matter.
abbrev pub has_panicked : Verdict → Bool → Bool
has_panicked panicked before = true
has_panicked _ before = before

-- The states of the validators, the errors so far, and whether one has panicked.
pub record Validators : Type 0 where
  pub unique_names : UniqueNames
  pub seen_apis : List String
  pub errs : Errors
  pub panics : Bool

-- Every configuration of every project, in the order of the calls.
unfoldable pub every_config : List Project → List Config
every_config [] = []
every_config (p ∷ ps) = for_every_config_do p "" ++ every_config ps

module _ (run : Runtime) (cmp : Comparison) (apis : String → ApiInfo)
    (projects : List Project) where
  -- What `ForEveryConfigDo` runs for a configuration.
  unfoldable pub validate_config : Config → Validators → Validators
  validate_config c s =
      let (names, clash) = validate_classic run cmp apis c s.unique_names in
      record {
        unique_names = names;
        seen_apis = (validate_deprecated run cmp apis c s.seen_apis).0;
        errs = append_setting c (validate_insert_after projects c) (append_classic c clash s.errs);
        panics = has_panicked clash s.panics;
      }

  unfoldable pub validate_configs : List Config → Validators → Validators
  validate_configs [] s = s
  validate_configs (c ∷ cs) s = validate_configs cs (validate_config c s)

  abbrev pub start : Validators
  start = record { unique_names = []; seen_apis = []; errs = []; panics = false }

  -- `none` is a panic.
  unfoldable pub validate : Option (Option Errors)
  validate =
      let s = validate_configs (every_config projects) start in
      if s.panics then none else some (errors_or_nil s.errs)
