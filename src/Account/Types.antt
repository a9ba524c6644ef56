-- ===== src/Account/Types.antt =====
-- pkg/account/persistence/internal/types/types.go: the account resources as their files hold them.
use dynatrace_configuration.Base.{String, List, Option}

abbrev pub reference_type : String
reference_type = "reference"

abbrev pub policy_level_account : String
policy_level_account = "account"

abbrev pub policy_level_environment : String
policy_level_environment = "environment"

pub record Reference : Type 0 where
  pub type : String
  pub id : String
  pub value : String

pub record PolicyBinding : Type 0 where
  pub type : String
  pub id : String
  pub value : String
  pub policy : Option Reference
  pub boundaries : List Reference

pub record Boundary : Type 0 where
  pub id : String
  pub name : String
  pub query : String
  pub origin_object_id : String

pub record PolicyLevel : Type 0 where
  pub type : String
  pub environment : String

pub record Policy : Type 0 where
  pub id : String
  pub name : String
  pub level : PolicyLevel
  pub description : String
  pub policy : String
  pub origin_object_id : String

pub record Account : Type 0 where
  pub permissions : List String
  pub policies : List PolicyBinding

pub record Environment : Type 0 where
  pub name : String
  pub permissions : List String
  pub policies : List PolicyBinding

pub record ManagementZone : Type 0 where
  pub environment : String
  pub management_zone : String
  pub permissions : List String

pub record Group : Type 0 where
  pub id : String
  pub name : String
  pub description : String
  pub federated_attribute_values : List String
  pub account : Option Account
  pub environment : List Environment
  pub management_zone : List ManagementZone
  pub origin_object_id : String

pub record User : Type 0 where
  pub email : String
  pub groups : List Reference

pub record ServiceUser : Type 0 where
  pub name : String
  pub description : String
  pub groups : List Reference
  pub origin_object_id : String

pub record File : Type 0 where
  pub boundaries : List Boundary
  pub policies : List Policy
  pub groups : List Group
  pub users : List User
  pub service_users : List ServiceUser
