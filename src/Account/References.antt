-- ===== src/Account/References.antt =====
-- `validateReferences` of pkg/account/persistence/loader/validate.go, and what it accepts.
use dynatrace_configuration.Base.{String, List, [], ◌∷◌, Option, none, some, ◌≢◌, All, lookup}
use dynatrace_configuration.Account.Resources.{
  Ref, by_id, by_name, PolicyBinding, Environment, Account, Group, User, ServiceUser, Resources,
}
use dynatrace_configuration.Account.Checks.{◌>>>◌, first_error}

pub data ReferenceError : Type 0 where
  missing_group : (kind owner id : String) → ReferenceError
  missing_policy : (id : String) → ReferenceError
  missing_boundary : (policy id : String) → ReferenceError
  invalid_environment_policy : (group environment : String) → ReferenceError → ReferenceError
  invalid_account_policy : (group : String) → ReferenceError → ReferenceError

abbrev pub exists_or : {V : Type 0} → Option V → ReferenceError → Option ReferenceError
exists_or none e = some e
exists_or (some v) e = none

abbrev pub wrapped :
    (ReferenceError → ReferenceError) → Option ReferenceError → Option ReferenceError
wrapped f none = none
wrapped f (some e) = some (f e)

-- An entry that is not a reference is not checked.
unfoldable pub validate_group_ref : Resources → String → String → Ref → Option ReferenceError
validate_group_ref res kind owner (by_id id) =
    exists_or (lookup id res.groups) (missing_group kind owner id)
validate_group_ref res kind owner (by_name name) = none

unfoldable pub validate_user_references : Resources → User → Option ReferenceError
validate_user_references res u = first_error (validate_group_ref res "user" u.email) u.groups

unfoldable pub validate_service_user_references : Resources → ServiceUser → Option ReferenceError
validate_service_user_references res s =
    first_error (validate_group_ref res "service user" s.name) s.groups

unfoldable pub validate_boundary_ref : Resources → String → Ref → Option ReferenceError
validate_boundary_ref res policy (by_id id) =
    exists_or (lookup id res.boundaries) (missing_boundary policy id)
validate_boundary_ref res policy (by_name name) = none

-- The boundaries of a policy that is not a reference are not looked at.
abbrev pub validate_policy_ref : Resources → List Ref → Ref → Option ReferenceError
validate_policy_ref res boundaries (by_name name) = none
validate_policy_ref res boundaries (by_id id) =
    exists_or (lookup id res.policies) (missing_policy id)
    >>> first_error (validate_boundary_ref res id) boundaries

abbrev pub validate_binding_reference : Resources → PolicyBinding → Option ReferenceError
validate_binding_reference res b = validate_policy_ref res b.boundaries b.policy

unfoldable pub validate_policy_binding_references :
    Resources → List PolicyBinding → Option ReferenceError
validate_policy_binding_references res bs = first_error (validate_binding_reference res) bs

abbrev pub validate_environment_references :
    Resources → String → Environment → Option ReferenceError
validate_environment_references res group env =
    wrapped (invalid_environment_policy group env.name)
      (validate_policy_binding_references res env.policies)

abbrev pub validate_account_references : Resources → String → Option Account → Option ReferenceError
validate_account_references res group none = none
validate_account_references res group (some a) =
    wrapped (invalid_account_policy group) (validate_policy_binding_references res a.policies)

unfoldable pub validate_group_references : Resources → Group → Option ReferenceError
validate_group_references res g =
    first_error (validate_environment_references res g.name) g.environment
    >>> validate_account_references res g.name g.account

abbrev pub entries : {V : Type 0} → List (String × V) → List V
entries [] = []
entries ((k, v) ∷ m) = v ∷ entries m

unfoldable pub validate_references : Resources → Option ReferenceError
validate_references res =
    first_error (validate_user_references res) (entries res.users)
    >>> first_error (validate_service_user_references res) res.service_users
    >>> first_error (validate_group_references res) (entries res.groups)

-- The id of a reference is a key of the map.
abbrev pub Known : {V : Type 0} → List (String × V) → Ref → Type 0
Known m (by_id id) = lookup id m ≢ none
Known m (by_name name) = Unit

-- The boundaries of a policy given by its name need not be known.
abbrev pub BoundariesKnown : Resources → List Ref → Ref → Type 0
BoundariesKnown res boundaries (by_id id) = All (Known res.boundaries) boundaries
BoundariesKnown res boundaries (by_name name) = Unit

abbrev pub BindingKnown : Resources → PolicyBinding → Type 0
BindingKnown res b = Known res.policies b.policy × BoundariesKnown res b.boundaries b.policy

abbrev pub AccountKnown : Resources → Option Account → Type 0
AccountKnown res none = Unit
AccountKnown res (some a) = All (BindingKnown res) a.policies

abbrev pub GroupKnown : Resources → Group → Type 0
GroupKnown res g =
    All (λ e. All (BindingKnown res) e.policies) g.environment × AccountKnown res g.account

abbrev pub IsClosed : Resources → Type 0
IsClosed res =
    All (λ u. All (Known res.groups) u.groups) (entries res.users)
    × (All (λ s. All (Known res.groups) s.groups) res.service_users
        × All (GroupKnown res) (entries res.groups))
