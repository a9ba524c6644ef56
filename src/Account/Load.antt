-- ===== src/Account/Load.antt =====
-- `addResourcesFromFile` and `verifyServiceUsersAreNotAmbiguous` of
-- pkg/account/persistence/loader/load.go: adding the resources of a file to those loaded before.
use dynatrace_configuration.Base.{
  String, not, ◌&&◌, ◌||◌, List, [], ◌∷◌, ◌++◌, Option, none, some, str_eq, if◌then◌else◌, lookup,
  insert,
}
use dynatrace_configuration.Account.Types
use dynatrace_configuration.Account.Resources
use dynatrace_configuration.Account.Resources.{Resources}
use dynatrace_configuration.Account.Checks.{first_error}
use dynatrace_configuration.Account.Transform.{
  transform_boundary, transform_policy, transform_group, transform_user, transform_service_user,
}

pub data LoadError : Type 0 where
  duplicate : (kind key : String) → LoadError
  same_origin : (origin_object_id : String) → LoadError
  same_name : (name : String) → LoadError

-- A value, an error, or the panic of a transformation.
pub data Step (A : Type 0) : Type 0 where
  done : A → Step A
  refused : LoadError → Step A
  panics : Step A

infixl 5 ◌>>=◌
abbrev pub ◌>>=◌ : {A B : Type 0} → Step A → (A → Step B) → Step B
done a >>= f = f a
refused e >>= f = refused e
panics >>= f = panics

unfoldable pub verify_service_users_are_not_ambiguous :
    Resources.ServiceUser → Resources.ServiceUser → Option LoadError
verify_service_users_are_not_ambiguous su1 su2 =
    if not (str_eq su1.origin_object_id "")
      && not (str_eq su2.origin_object_id "")
      && str_eq su1.origin_object_id su2.origin_object_id
    then some (same_origin su1.origin_object_id)
    else if not (str_eq su1.name su2.name)
    then none
    else if str_eq su1.origin_object_id "" || str_eq su2.origin_object_id ""
    then some (same_name su1.name)
    else none

module _ {P V : Type 0} (kind : String) (key : P → String) (transform : P → Option V) where
  abbrev pub put_transformed : String → List (String × V) → Option V → Step (List (String × V))
  put_transformed k m none = panics
  put_transformed k m (some v) = done (insert k v m)

  abbrev pub add_if_absent : P → List (String × V) → Option V → Step (List (String × V))
  add_if_absent p m (some v) = refused (duplicate kind (key p))
  add_if_absent p m none = put_transformed (key p) m (transform p)

  -- One of the four loops over maps.
  unfoldable pub add_entries : List P → List (String × V) → Step (List (String × V))
  add_entries [] m = done m
  add_entries (p ∷ ps) m = add_if_absent p m (lookup (key p) m) >>= λ m'. add_entries ps m'

abbrev pub append_if_clear :
    Resources.ServiceUser
    → List Resources.ServiceUser
    → Option LoadError
    → Step (List Resources.ServiceUser)
append_if_clear s us none = done (us ++ s ∷ [])
append_if_clear s us (some e) = refused e

abbrev pub append_service_user :
    List Resources.ServiceUser → Option Resources.ServiceUser → Step (List Resources.ServiceUser)
append_service_user us none = panics
append_service_user us (some s) =
    append_if_clear s us (first_error (λ u. verify_service_users_are_not_ambiguous u s) us)

unfoldable pub add_service_users :
    List Types.ServiceUser → List Resources.ServiceUser → Step (List Resources.ServiceUser)
add_service_users [] us = done us
add_service_users (s ∷ ss) us =
    append_service_user us (transform_service_user s) >>= λ us'. add_service_users ss us'

abbrev pub add_boundaries :
    List Types.Boundary
    → List (String × Resources.Boundary)
    → Step (List (String × Resources.Boundary))
add_boundaries bs m = add_entries "boundary" (λ b. b.id) (λ b. some (transform_boundary b)) bs m

abbrev pub add_policies :
    List Types.Policy → List (String × Resources.Policy) → Step (List (String × Resources.Policy))
add_policies ps m = add_entries "policy" (λ p. p.id) transform_policy ps m

abbrev pub add_groups :
    List Types.Group → List (String × Resources.Group) → Step (List (String × Resources.Group))
add_groups gs m = add_entries "group" (λ g. g.id) transform_group gs m

abbrev pub add_users :
    List Types.User → List (String × Resources.User) → Step (List (String × Resources.User))
add_users us m = add_entries "user" (λ u. u.email) transform_user us m

-- On an error the source has already stored a part in the given maps; the caller drops them.
unfoldable pub add_resources_from_file : Resources → Types.File → Step Resources
add_resources_from_file res f = add_boundaries f.boundaries res.boundaries >>= λ boundaries.
    add_policies f.policies res.policies >>= λ policies.
    add_groups f.groups res.groups >>= λ groups. add_users f.users res.users >>= λ users.
    add_service_users f.service_users res.service_users >>= λ service_users. done (record {
      boundaries = boundaries;
      policies = policies;
      groups = groups;
      users = users;
      service_users = service_users;
    })
