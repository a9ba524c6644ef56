-- ===== src/Account/Transform.antt =====
-- pkg/account/persistence/loader/transform.go: from the resources of a file to those in memory.
-- `none` is a panic.
use dynatrace_configuration.Base.{List, [], ◌∷◌, Option, none, some, str_eq, if◌then◌else◌}
use dynatrace_configuration.Account.Types.{
  reference_type, policy_level_account, policy_level_environment,
}
use dynatrace_configuration.Account.Types
use dynatrace_configuration.Account.Resources.{
  Ref, by_id, by_name, PolicyLevel, level_account, level_environment,
}
use dynatrace_configuration.Account.Resources

abbrev pub after : {A B : Type 0} → Option A → (A → Option B) → Option B
after none f = none
after (some a) f = f a

-- A loop that stores what `f` yields for each element.
unfoldable pub each : {A B : Type 0} → (A → Option B) → List A → Option (List B)
each f [] = some []
each f (x ∷ xs) = after (f x) λ y. after (each f xs) λ ys. some (y ∷ ys)

abbrev pub transform_boundary : Types.Boundary → Resources.Boundary
transform_boundary b = record {
  id = b.id;
  name = b.name;
  query = b.query;
  origin_object_id = b.origin_object_id;
}

unfoldable pub transform_level : Types.PolicyLevel → Option PolicyLevel
transform_level l =
    if str_eq l.type policy_level_account
    then some (level_account l.type)
    else if str_eq l.type policy_level_environment
    then some (level_environment l.type l.environment)
    else none

unfoldable pub transform_policy : Types.Policy → Option Resources.Policy
transform_policy p = after (transform_level p.level) λ level. some (record {
  id = p.id;
  name = p.name;
  level = level;
  description = p.description;
  policy = p.policy;
  origin_object_id = p.origin_object_id;
})

unfoldable pub transform_reference : Types.Reference → Option Ref
transform_reference r =
    if str_eq r.type reference_type
    then some (by_id r.id)
    else if str_eq r.type ""
    then some (by_name r.value)
    else none

unfoldable pub transform_references : List Types.Reference → Option (List Ref)
transform_references rs = each transform_reference rs

abbrev pub own_reference : Types.PolicyBinding → Option Types.Reference → Types.Reference
own_reference b none = record { type = b.type; id = b.id; value = b.value }
own_reference b (some r) = r

unfoldable pub transform_policy_binding : Types.PolicyBinding → Option Resources.PolicyBinding
transform_policy_binding b = after (transform_reference (own_reference b b.policy)) λ policy.
    after (transform_references b.boundaries)
      λ boundaries. some (record { policy = policy; boundaries = boundaries })

unfoldable pub transform_policy_bindings :
    List Types.PolicyBinding → Option (List Resources.PolicyBinding)
transform_policy_bindings bs = each transform_policy_binding bs

abbrev pub transform_account : Option Types.Account → Option (Option Resources.Account)
transform_account none = some none
transform_account (some a) =
    after (transform_policy_bindings a.policies)
      λ policies. some (some (record { permissions = a.permissions; policies = policies }))

unfoldable pub transform_environment : Types.Environment → Option Resources.Environment
transform_environment e =
    after (transform_policy_bindings e.policies)
      λ policies. some (record { name = e.name; permissions = e.permissions; policies = policies })

abbrev pub transform_management_zones : List Types.ManagementZone → List Resources.ManagementZone
transform_management_zones [] = []
transform_management_zones (m ∷ ms) =
    record {
      environment = m.environment;
      management_zone = m.management_zone;
      permissions = m.permissions;
    }
    ∷ transform_management_zones ms

unfoldable pub transform_group : Types.Group → Option Resources.Group
transform_group g = after (transform_account g.account) λ account.
    after (each transform_environment g.environment) λ environment. some (record {
      id = g.id;
      name = g.name;
      description = g.description;
      federated_attribute_values = g.federated_attribute_values;
      account = account;
      environment = environment;
      management_zone = transform_management_zones g.management_zone;
      origin_object_id = g.origin_object_id;
    })

unfoldable pub transform_user : Types.User → Option Resources.User
transform_user u =
    after (transform_references u.groups)
      λ groups. some (record { email = u.email; groups = groups })

unfoldable pub transform_service_user : Types.ServiceUser → Option Resources.ServiceUser
transform_service_user s = after (transform_references s.groups) λ groups. some (record {
  name = s.name;
  description = s.description;
  groups = groups;
  origin_object_id = s.origin_object_id;
})
