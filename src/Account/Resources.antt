-- ===== src/Account/Resources.antt =====
-- pkg/account/resources.go: the account resources in memory.
use dynatrace_configuration.Base.{String, List, Option}

-- `Reference` is `by_id`, and `StrReference` is `by_name`.
pub data Ref : Type 0 where
  by_id : String → Ref
  by_name : String → Ref

unfoldable pub ref_id : Ref → String
ref_id (by_id id) = id
ref_id (by_name name) = name

pub record PolicyBinding : Type 0 where
  pub policy : Ref
  pub boundaries : List Ref

pub data PolicyLevel : Type 0 where
  level_account : (type : String) → PolicyLevel
  level_environment : (type environment : String) → PolicyLevel

pub record Boundary : Type 0 where
  pub id : String
  pub name : String
  pub query : String
  pub origin_object_id : String

pub record Policy : Type 0 where
  pub id : String
  pub name : String
  pub level : PolicyLevel
  pub description : String
  pub policy : String
  pub origin_object_id : String

pub record Account : Type 0 where
  pub permissions : List String
  pub policies : List PolicyBinding

pub record Environment : Type 0 where
  pub name : String
  pub permissions : List String
  pub policies : List PolicyBinding

pub record ManagementZone : Type 0 where
  pub environment : String
  pub management_zone : String
  pub permissions : List String

pub record Group : Type 0 where
  pub id : String
  pub name : String
  pub description : String
  pub federated_attribute_values : List String
  pub account : Option Account
  pub environment : List Environment
  pub management_zone : List ManagementZone
  pub origin_object_id : String

pub record User : Type 0 where
  pub email : String
  pub groups : List Ref

pub record ServiceUser : Type 0 where
  pub name : String
  pub description : String
  pub groups : List Ref
  pub origin_object_id : String

-- The maps of the Go struct by their keys; the order of a list is that of one iteration.
pub record Resources : Type 0 where
  pub boundaries : List (String × Boundary)
  pub policies : List (String × Policy)
  pub groups : List (String × Group)
  pub users : List (String × User)
  pub service_users : List ServiceUser
