-- ===== src/Account/Valid.antt =====
-- What `validateFile` of pkg/account/persistence/loader/validate.go accepts.
use dynatrace_configuration.Base.{
  String, List, [], ◌∷◌, Option, none, some, ◌≡◌, ◌≢◌, refl, ◌↔◌, arith, str_eq, eq_iff,
  if◌then◌else◌,
}
use dynatrace_configuration.Account.Types.{
  Reference, PolicyBinding, Boundary, Policy, Account, Environment, Group, User, ServiceUser, File,
  reference_type, policy_level_account, policy_level_environment,
}
use dynatrace_configuration.Account.Checks.{◌>>>◌, first_error, then_iff, each_iff}
use dynatrace_configuration.Account.Validate.{
  ValidationError, required, validate_reference, validate_legacy_policy_binding,
  validate_policy_binding, validate_boundary, validate_policy, validate_group_environment,
  validate_group, validate_user, validate_service_user, validate_file, no_boundaries,
  validate_binding_to, validate_group_account, missing_reference_id, missing_reference_value,
  IsValidReference, IsValidRef, IsValidBindingTo, IsValidBinding, IsValidBoundary, IsValidPolicy,
  IsValidEnvironment, IsValidAccount, IsValidGroup, IsValidUser, IsValidServiceUser, IsValidFile,
}

required_iff : (value : String) (e : ValidationError) → (required value e ≡ none) ↔ (value ≢ "")
required_iff value e = ground (arith, eq_iff value "")

reference_iff :
    (type id value : String)
    → ((if str_eq type reference_type
          then required id missing_reference_id
          else required value missing_reference_value)
        ≡ none)
      ↔ IsValidReference type id value
reference_iff type id value =
    ground (arith, eq_iff type reference_type, eq_iff id "", eq_iff value "")

validate_reference_iff : (r : Reference) → (validate_reference r ≡ none) ↔ IsValidRef r
unfolding validate_reference
validate_reference_iff r = reference_iff r.type r.id r.value

no_boundaries_iff : (id : String) (bs : List Reference) → (no_boundaries id bs ≡ none) ↔ (bs ≡ [])
no_boundaries_iff id [] = ((λ e. refl), (λ e. refl))
no_boundaries_iff id (b ∷ bs) = ((λ e. ground arith), (λ e. ground arith))

unambiguous_iff :
    (id : String) (e : ValidationError)
    → ((if str_eq id "" then none else some e) ≡ none) ↔ (id ≡ "")
unambiguous_iff id e = ground (arith, eq_iff id "")

validate_binding_to_iff :
    (b : PolicyBinding) (p : Option Reference)
    → (validate_binding_to b p ≡ none) ↔ IsValidBindingTo b p
unfolding validate_legacy_policy_binding
validate_binding_to_iff b none =
    then_iff _ (no_boundaries b.id b.boundaries) (reference_iff b.type b.id b.value)
      (no_boundaries_iff b.id b.boundaries)
validate_binding_to_iff b (some p) =
    then_iff _ (validate_reference p >>> first_error validate_reference b.boundaries)
      (unambiguous_iff b.id _)
      (then_iff (validate_reference p) _ (validate_reference_iff p)
        (each_iff validate_reference b.boundaries validate_reference_iff))

validate_policy_binding_iff :
    (b : PolicyBinding) → (validate_policy_binding b ≡ none) ↔ IsValidBinding b
unfolding validate_policy_binding
validate_policy_binding_iff b = validate_binding_to_iff b b.policy

validate_boundary_iff : (b : Boundary) → (validate_boundary b ≡ none) ↔ IsValidBoundary b
unfolding validate_boundary
validate_boundary_iff b = ground (arith, eq_iff b.id "", eq_iff b.name "", eq_iff b.query "")

account-ne-environment : policy_level_account ≢ policy_level_environment
account-ne-environment e = cc

account-ne-empty : policy_level_account ≢ ""
account-ne-empty e = cc

environment-ne-empty : policy_level_environment ≢ ""
environment-ne-empty e = cc

validate_policy_iff : (p : Policy) → (validate_policy p ≡ none) ↔ IsValidPolicy p
unfolding validate_policy
validate_policy_iff p = ground (
  arith,
  account-ne-environment,
  account-ne-empty,
  environment-ne-empty,
  eq_iff p.id "",
  eq_iff p.name "",
  eq_iff p.level.type "",
  eq_iff p.level.type policy_level_account,
  eq_iff p.level.type policy_level_environment,
  eq_iff p.level.environment "",
  eq_iff p.policy "",
)

validate_group_environment_iff :
    (id : String) (e : Environment)
    → (validate_group_environment id e ≡ none) ↔ IsValidEnvironment e
unfolding validate_group_environment
validate_group_environment_iff id e =
    then_iff _ _ (required_iff e.name _)
      (each_iff validate_policy_binding e.policies validate_policy_binding_iff)

validate_group_account_iff :
    (a : Option Account) → (validate_group_account a ≡ none) ↔ IsValidAccount a
validate_group_account_iff none = ((λ e. tt), (λ u. refl))
validate_group_account_iff (some a) =
    each_iff validate_policy_binding a.policies validate_policy_binding_iff

validate_group_iff : (g : Group) → (validate_group g ≡ none) ↔ IsValidGroup g
unfolding validate_group
validate_group_iff g = then_iff _ _ (required_iff g.id _) (
    then_iff _ _ (required_iff g.name _) (
      then_iff _ _
        (each_iff (validate_group_environment g.id) g.environment
          (validate_group_environment_iff g.id))
        (validate_group_account_iff g.account)))

validate_user_iff : (u : User) → (validate_user u ≡ none) ↔ IsValidUser u
unfolding validate_user
validate_user_iff u =
    then_iff _ _ (required_iff u.email _)
      (each_iff validate_reference u.groups validate_reference_iff)

validate_service_user_iff :
    (s : ServiceUser) → (validate_service_user s ≡ none) ↔ IsValidServiceUser s
unfolding validate_service_user
validate_service_user_iff s =
    then_iff _ _ (required_iff s.name _)
      (each_iff validate_reference s.groups validate_reference_iff)

-- `validateFile` accepts a file exactly when every boundary has an id, a name and a query, every policy
-- an id, a name, a policy and one of the two levels, an environment level with its environment, every
-- group an id and a name, every environment of a group a name, every user an email, every service user
-- a name, every reference an id and every other entry a value, a binding with a policy has no id
-- beside it, and one without has no boundaries. The management zones of a group are not looked at.
pub validate_file-IsValidFile : (f : File) → (validate_file f ≡ none) ↔ IsValidFile f
unfolding validate_file
validate_file-IsValidFile f =
    then_iff _ _ (each_iff validate_boundary f.boundaries validate_boundary_iff) (
      then_iff _ _ (each_iff validate_policy f.policies validate_policy_iff) (
        then_iff _ _ (each_iff validate_group f.groups validate_group_iff) (
          then_iff _ _ (each_iff validate_user f.users validate_user_iff)
            (each_iff validate_service_user f.service_users validate_service_user_iff))))
