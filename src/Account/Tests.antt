-- ===== src/Account/Tests.antt =====
-- A file with a policy, a boundary, a group and users, and the theorems at it.
use dynatrace_configuration.Base.{
  String, List, [], ◌∷◌, ◌++◌, none, some, ◌≡◌, ◌≢◌, refl, ◌↔◌, inl, inr, lookup, insert,
}
use dynatrace_configuration.Account.Types
use dynatrace_configuration.Account.Types.{File, Reference}
use dynatrace_configuration.Account.Resources
use dynatrace_configuration.Account.Resources.{Resources, by_id, by_name, level_account}
use dynatrace_configuration.Account.Checks.{first_error}
use dynatrace_configuration.Account.Validate.{
  validate_file, validate_boundary, validate_policy, validate_group, validate_group_environment,
  validate_user, validate_service_user, validate_reference, validate_policy_binding,
  validate_legacy_policy_binding, IsValidFile,
}
use dynatrace_configuration.Account.Valid.{validate_file-IsValidFile}
use dynatrace_configuration.Account.References.{validate_references, IsClosed}
use dynatrace_configuration.Account.Closed.{validate_references-IsClosed}
use dynatrace_configuration.Account.Transform.{
  each, transform_level, transform_policy, transform_reference, transform_references,
  transform_policy_binding, transform_policy_bindings, transform_environment, transform_group,
  transform_user, transform_service_user,
}
use dynatrace_configuration.Account.Transformed.{IsDecodedFile}
use dynatrace_configuration.Account.Load.{
  done, panics, add_entries, add_service_users, add_resources_from_file,
  verify_service_users_are_not_ambiguous,
}
use dynatrace_configuration.Account.NoPanic.{add_resources_from_file_no_panic}
use dynatrace_configuration.Account.Merge.{
  IsMerged, merge_service_users, add_project_resources, add_project_resources-IsMerged,
}
use dynatrace_configuration.Account.Loaded.{AllUnambiguous, add_resources_from_file-AllUnambiguous}

abbrev by_key : String → Reference
by_key id = record { type = "reference"; id = id; value = "" }

abbrev by_text : String → Reference
by_text value = record { type = ""; id = ""; value = value }

abbrev admins : Types.Group
admins = record {
  id = "admins";
  name = "Admins";
  description = "";
  federated_attribute_values = [];
  account = some (record {
    permissions = [];
    policies =
        record {
          type = "";
          id = "";
          value = "";
          policy = some (by_key "p");
          boundaries = by_key "b" ∷ [];
        }
        ∷ [];
  });
  environment = [];
  management_zone = [];
  origin_object_id = "";
}

abbrev robot : String → Types.ServiceUser
robot origin = record {
  name = "robot";
  description = "";
  groups = by_key "admins" ∷ [];
  origin_object_id = origin;
}

abbrev sample : File
sample = record {
  boundaries = record { id = "b"; name = "B"; query = "q"; origin_object_id = "" } ∷ [];
  policies =
      record {
        id = "p";
        name = "P";
        level = record { type = "account"; environment = "" };
        description = "";
        policy = "ALLOW";
        origin_object_id = "";
      }
      ∷ [];
  groups = admins ∷ [];
  users = record { email = "a@b.c"; groups = by_key "admins" ∷ by_text "Viewers" ∷ [] } ∷ [];
  service_users = robot "1" ∷ robot "2" ∷ [];
}

abbrev nothing : Resources
nothing = record { boundaries = []; policies = []; groups = []; users = []; service_users = [] }

program : Unit {0}
unfolding validate_file validate_boundary validate_policy validate_group validate_group_environment
    validate_user validate_service_user validate_reference validate_policy_binding
    validate_legacy_policy_binding first_error add_resources_from_file add_entries add_service_users
    verify_service_users_are_not_ambiguous each transform_level transform_policy transform_reference
    transform_references transform_policy_binding transform_policy_bindings transform_environment
    transform_group transform_user transform_service_user lookup insert add_project_resources
    merge_service_users
program = tt

sample_accepted : validate_file sample ≡ none
unfolding program
sample_accepted = refl

validate_file-IsValidFile_example : (validate_file sample ≡ none) ↔ IsValidFile sample
validate_file-IsValidFile_example = validate_file-IsValidFile sample

sample_loaded : (res : Resources) × (add_resources_from_file nothing sample ≡ done res)
unfolding program
sample_loaded = (_, refl)

abbrev loaded : Resources
loaded = sample_loaded.0

validate_references-IsClosed_example : (validate_references loaded ≡ none) ↔ IsClosed loaded
validate_references-IsClosed_example = validate_references-IsClosed loaded

sample_decoded : IsDecodedFile sample
sample_decoded = (
  ((((inl refl, (inl refl, tt)), tt), tt), tt),
  ((inl refl, (inr refl, tt)), tt),
  ((inl refl, tt), ((inl refl, tt), tt)),
)

add_resources_from_file_no_panic_example : add_resources_from_file nothing sample ≢ panics
add_resources_from_file_no_panic_example =
    add_resources_from_file_no_panic nothing sample sample_accepted sample_decoded

add_resources_from_file-AllUnambiguous_example : AllUnambiguous loaded.service_users
add_resources_from_file-AllUnambiguous_example =
    add_resources_from_file-AllUnambiguous nothing loaded sample tt sample_loaded.1

abbrev two_users : List Types.User
two_users = record { email = "a@b.c"; groups = [] } ∷ record { email = "d@e.f"; groups = [] } ∷ []

abbrev in_memory : String → Resources.User
in_memory email = record { email = email; groups = [] }

abbrev after_two : List (String × Resources.User)
after_two = ("a@b.c", in_memory "a@b.c") ∷ ("d@e.f", in_memory "d@e.f") ∷ []

users_added : add_entries "user" (λ u. u.email) transform_user two_users [] ≡ done after_two
unfolding program
users_added = refl

abbrev other : Resources
other = record nothing {
  groups =
      (
        "g",
        record {
          id = "g";
          name = "G";
          description = "";
          federated_attribute_values = [];
          account = none;
          environment = [];
          management_zone = [];
          origin_object_id = "";
        },
      )
      ∷ [];
  service_users =
      record { name = "robot"; description = ""; groups = []; origin_object_id = "3" } ∷ [];
}

abbrev first : Resources
first = record nothing {
  service_users =
      record { name = "robot"; description = ""; groups = []; origin_object_id = "1" } ∷ [];
}

abbrev both : Resources
both = record other { service_users = first.service_users ++ other.service_users }

merged_both : add_project_resources first other ≡ done both
unfolding program
merged_both = refl

add_project_resources-IsMerged_example : IsMerged first other both
add_project_resources-IsMerged_example = add_project_resources-IsMerged first other both merged_both

first_unambiguous : AllUnambiguous first.service_users
first_unambiguous = (tt, tt)
