-- ===== src/Config/Model.antt =====
-- pkg/config/config.go and pkg/config/types.go: a configuration and its type.
use dynatrace_configuration.Base.{
  String, Bool, false, List, [], ◌∷◌, ◌++◌, Option, str_eq, ◌||◌, map, lookup,
}
use dynatrace_configuration.Config.Coordinate.{Coordinate}
use dynatrace_configuration.Config.Parameter.{Parameter, get_references}

abbrev pub id_parameter : String
id_parameter = "id"

abbrev pub name_parameter : String
name_parameter = "name"

abbrev pub scope_parameter : String
scope_parameter = "scope"

abbrev pub insert_after_parameter : String
insert_after_parameter = "insertAfter"

pub data ConfigType : Type 0 where
  settings :
      (schema_id schema_version : String) → (all_user_permission : Option String) → ConfigType
  classic_api : (api : String) → ConfigType
  entity : (entities_type : String) → ConfigType
  automation : (resource : String) → ConfigType
  bucket : ConfigType
  document :
      (kind : String) (private : Bool) (custom_id : String) (labels : List String)
      (description : Option String)
      → ConfigType
  open_pipeline : (kind : String) → ConfigType
  segment : ConfigType
  service_level_objective : ConfigType

unfoldable pub type_id : ConfigType → String
type_id (settings schema version permission) = "settings"
type_id (classic_api api) = "classic"
type_id (entity type) = "entity"
type_id (automation resource) = "automation"
type_id bucket = "bucket"
type_id (document kind private id labels description) = "document"
type_id (open_pipeline kind) = "openpipeline"
type_id segment = "segment"
type_id service_level_objective = "slo-v2"

-- The parameters are a Go map: the order of the list is the order of one iteration over it.
pub record Config : Type 0 where
  pub template : String
  pub coordinate : Coordinate
  pub group : String
  pub environment : String
  pub type : ConfigType
  pub parameters : List (String × Parameter)
  pub skip : Bool
  pub origin_object_id : String

abbrev references_of : List (String × Parameter) → List Coordinate
references_of [] = []
references_of ((name, p) ∷ ps) = map (λ r. r.config) (get_references p) ++ references_of ps

-- The coordinates that the parameters of a configuration refer to.
unfoldable pub references : Config → List Coordinate
references c = references_of c.parameters

abbrev any_of_type : String → List Coordinate → Bool
any_of_type config_type [] = false
any_of_type config_type (r ∷ rs) = str_eq r.type config_type || any_of_type config_type rs

unfoldable pub has_ref_to : Config → String → Bool
has_ref_to c config_type = any_of_type config_type (references c)

unfoldable pub parameter_of : Config → String → Option Parameter
unfolding lookup
parameter_of c name = lookup name c.parameters
