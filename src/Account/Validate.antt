-- ===== src/Account/Validate.antt =====
-- `validateFile` of pkg/account/persistence/loader/validate.go, and what it accepts.
use dynatrace_configuration.Base.{
  String, not, ◌&&◌, List, [], ◌∷◌, Option, none, some, ◌≡◌, ◌≢◌, ◌⊎◌, All, str_eq, if◌then◌else◌,
}
use dynatrace_configuration.Account.Types.{
  Reference, PolicyBinding, Boundary, PolicyLevel, Policy, Account, Environment, Group, User,
  ServiceUser, File, reference_type, policy_level_account, policy_level_environment,
}
use dynatrace_configuration.Account.Checks.{◌>>>◌, first_error}

-- The errors, by the format of their message, with the texts that it takes.
pub data ValidationError : Type 0 where
  missing_field : (field kind id : String) → ValidationError
  missing_reference_id : ValidationError
  missing_reference_value : ValidationError
  unknown_level : (id type : String) → ValidationError
  ambiguous_policy : (id : String) → ValidationError
  boundaries_unsupported : (id : String) → ValidationError

abbrev pub required : String → ValidationError → Option ValidationError
required value e = if str_eq value "" then some e else none

unfoldable pub validate_reference : Reference → Option ValidationError
validate_reference r =
    if str_eq r.type reference_type
    then required r.id missing_reference_id
    else required r.value missing_reference_value

abbrev pub no_boundaries : String → List Reference → Option ValidationError
no_boundaries id [] = none
no_boundaries id (b ∷ bs) = some (boundaries_unsupported id)

unfoldable pub validate_legacy_policy_binding : PolicyBinding → Option ValidationError
validate_legacy_policy_binding b =
    (if str_eq b.type reference_type
      then required b.id missing_reference_id
      else required b.value missing_reference_value)
    >>> no_boundaries b.id b.boundaries

abbrev pub validate_binding_to : PolicyBinding → Option Reference → Option ValidationError
validate_binding_to b none = validate_legacy_policy_binding b
validate_binding_to b (some policy) =
    (if str_eq b.id "" then none else some (ambiguous_policy b.id))
    >>> validate_reference policy
    >>> first_error validate_reference b.boundaries

unfoldable pub validate_policy_binding : PolicyBinding → Option ValidationError
validate_policy_binding b = validate_binding_to b b.policy

unfoldable pub validate_boundary : Boundary → Option ValidationError
validate_boundary b =
    required b.id (missing_field "id" "boundary" "")
    >>> required b.name (missing_field "name" "boundary" b.id)
    >>> required b.query (missing_field "query" "boundary" b.id)

unfoldable pub validate_policy : Policy → Option ValidationError
validate_policy p =
    required p.id (missing_field "id" "policy" "")
    >>> required p.name (missing_field "name" "policy" p.id)
    >>> required p.level.type (missing_field "level.type" "policy" p.id)
    >>> (if not (str_eq p.level.type policy_level_account)
          && not (str_eq p.level.type policy_level_environment)
        then some (unknown_level p.id p.level.type)
        else none)
    >>> (if str_eq p.level.type policy_level_environment && str_eq p.level.environment ""
        then some (missing_field "level.environment" "policy" p.id)
        else none)
    >>> required p.policy (missing_field "policy" "policy" p.id)

unfoldable pub validate_group_environment : String → Environment → Option ValidationError
validate_group_environment group_id env =
    required env.name (missing_field "environment" "environments" group_id)
    >>> first_error validate_policy_binding env.policies

abbrev pub validate_group_account : Option Account → Option ValidationError
validate_group_account none = none
validate_group_account (some a) = first_error validate_policy_binding a.policies

-- The message for a missing id says `policy`.
unfoldable pub validate_group : Group → Option ValidationError
validate_group g =
    required g.id (missing_field "id" "policy" "")
    >>> required g.name (missing_field "name" "group" g.id)
    >>> first_error (validate_group_environment g.id) g.environment
    >>> validate_group_account g.account

unfoldable pub validate_user : User → Option ValidationError
validate_user u =
    required u.email (missing_field "email" "user" "") >>> first_error validate_reference u.groups

unfoldable pub validate_service_user : ServiceUser → Option ValidationError
validate_service_user s =
    required s.name (missing_field "name" "service user" "")
    >>> first_error validate_reference s.groups

unfoldable pub validate_file : File → Option ValidationError
validate_file f =
    first_error validate_boundary f.boundaries
    >>> first_error validate_policy f.policies
    >>> first_error validate_group f.groups
    >>> first_error validate_user f.users
    >>> first_error validate_service_user f.service_users

-- A reference has an id, and any other entry a value.
abbrev pub IsValidReference : (type id value : String) → Type 0
IsValidReference type id value =
    ((type ≡ reference_type) × (id ≢ "")) ⊎ ((type ≢ reference_type) × (value ≢ ""))

abbrev pub IsValidRef : Reference → Type 0
IsValidRef r = IsValidReference r.type r.id r.value

abbrev pub IsValidBindingTo : PolicyBinding → Option Reference → Type 0
IsValidBindingTo b none = IsValidReference b.type b.id b.value × (b.boundaries ≡ [])
IsValidBindingTo b (some policy) = (b.id ≡ "") × (IsValidRef policy × All IsValidRef b.boundaries)

abbrev pub IsValidBinding : PolicyBinding → Type 0
IsValidBinding b = IsValidBindingTo b b.policy

abbrev pub IsValidBoundary : Boundary → Type 0
IsValidBoundary b = (b.id ≢ "") × (b.name ≢ "") × (b.query ≢ "")

abbrev pub IsValidLevel : PolicyLevel → Type 0
IsValidLevel l =
    (l.type ≡ policy_level_account) ⊎ ((l.type ≡ policy_level_environment) × (l.environment ≢ ""))

abbrev pub IsValidPolicy : Policy → Type 0
IsValidPolicy p = (p.id ≢ "") × (p.name ≢ "") × IsValidLevel p.level × (p.policy ≢ "")

abbrev pub IsValidEnvironment : Environment → Type 0
IsValidEnvironment e = (e.name ≢ "") × All IsValidBinding e.policies

abbrev pub IsValidAccount : Option Account → Type 0
IsValidAccount none = Unit
IsValidAccount (some a) = All IsValidBinding a.policies

abbrev pub IsValidGroup : Group → Type 0
IsValidGroup g =
    (g.id ≢ "")
    × ((g.name ≢ "") × (All IsValidEnvironment g.environment × IsValidAccount g.account))

abbrev pub IsValidUser : User → Type 0
IsValidUser u = (u.email ≢ "") × All IsValidRef u.groups

abbrev pub IsValidServiceUser : ServiceUser → Type 0
IsValidServiceUser s = (s.name ≢ "") × All IsValidRef s.groups

abbrev pub IsValidFile : File → Type 0
IsValidFile f =
    All IsValidBoundary f.boundaries
    × (All IsValidPolicy f.policies
        × (All IsValidGroup f.groups
            × (All IsValidUser f.users × All IsValidServiceUser f.service_users)))
