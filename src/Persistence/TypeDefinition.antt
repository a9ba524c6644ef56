-- ===== src/Persistence/TypeDefinition.antt =====
-- pkg/config/internal/persistence/type_definition.go. The YAML library and mapstructure are the
-- interface `Codec`.
use dynatrace_configuration.Base.{
  String, Bool, List, [], ◌∷◌, Option, none, some, str_eq, if◌then◌else◌,
}
use dynatrace_configuration.Base.Value.{Value}
use dynatrace_configuration.Config.Model.{
  ConfigType, settings, classic_api, entity, automation, bucket, document, open_pipeline, segment,
  service_level_objective,
}
use dynatrace_configuration.Config.Parameter.{Result, ok, err, ◌>>=◌}

-- A `ConfigParameter` is any value, or nil.
pub record TypeDefinition : Type 0 where
  pub type : ConfigType
  pub scope : Option Value
  pub insert_after : Option Value

pub record ComplexApiDefinition : Type 0 where
  pub name : String
  pub scope : Option Value

pub record PermissionDefinition : Type 0 where
  pub all_users : Option String

pub record SettingsDefinition : Type 0 where
  pub schema : String
  pub schema_version : String
  pub scope : Option Value
  pub insert_after : Option Value
  pub permissions : Option PermissionDefinition

pub record AutomationDefinition : Type 0 where
  pub resource : String

pub record DocumentDefinition : Type 0 where
  pub kind : String
  pub id : String
  pub private : Bool
  pub labels : List String
  pub description : Option String

pub record OpenPipelineDefinition : Type 0 where
  pub kind : String

-- What `MarshalYAML` hands to the YAML library: a text, or a map with one key.
pub data Marshalled : Type 0 where
  text : String → Marshalled
  api_text : String → Marshalled
  api_map : ComplexApiDefinition → Marshalled
  settings_map : SettingsDefinition → Marshalled
  automation_map : AutomationDefinition → Marshalled
  document_map : DocumentDefinition → Marshalled
  openpipeline_map : OpenPipelineDefinition → Marshalled

-- `Document` is a node of a YAML file and `Any` a value inside it.
pub record Codec : Type 1 where
  pub Document : Type 0
  pub Any : Type 0
  pub unmarshal_string : Document → Option String
  pub unmarshal_map : Document → Result (List (String × Any))
  pub as_string : Any → Option String
  pub decode_api : Any → Result ComplexApiDefinition
  pub decode_settings : Any → Result SettingsDefinition
  pub decode_automation : Any → Result AutomationDefinition
  pub decode_document : Any → Result DocumentDefinition
  pub decode_open_pipeline : Any → Result OpenPipelineDefinition

abbrev pub none_permission : String
none_permission = "none"

unfoldable pub get_all_user_permission : Option PermissionDefinition → Option String
get_all_user_permission none = none
get_all_user_permission (some p) = elim (p.all_users) [
  | none ↦ some none_permission
  | some kind ↦ some kind
]

-- A definition without scope and place.
abbrev pub of_type : ConfigType → TypeDefinition
of_type t = record { type = t; scope = none; insert_after = none }

module _ (Y : Codec) where
  open Y use {Document, Any}

  abbrev pub api_of_text : Any → Option String → Result TypeDefinition
  api_of_text a (some name) = ok (of_type (classic_api name))
  api_of_text a none =
      Y.decode_api a
      >>= (λ r. ok (record { type = classic_api r.name; scope = r.scope; insert_after = none }))

  unfoldable pub parse_api_type : Any → Result TypeDefinition
  parse_api_type a = api_of_text a (Y.as_string a)

  unfoldable pub parse_settings_type : Any → Result TypeDefinition
  parse_settings_type a = Y.decode_settings a >>= (λ r. ok (record {
    type = settings r.schema r.schema_version (get_all_user_permission r.permissions);
    scope = r.scope;
    insert_after = r.insert_after;
  }))

  unfoldable pub parse_automation : Any → Result TypeDefinition
  parse_automation a = Y.decode_automation a >>= (λ r. ok (of_type (automation r.resource)))

  unfoldable pub parse_document_type : Any → Result TypeDefinition
  parse_document_type a =
      Y.decode_document a
      >>= (λ r. ok (of_type (document r.kind r.private r.id r.labels r.description)))

  unfoldable pub parse_open_pipeline_type : Any → Result TypeDefinition
  parse_open_pipeline_type a =
      Y.decode_open_pipeline a >>= (λ r. ok (of_type (open_pipeline r.kind)))

  -- The shorthand.
  abbrev pub of_text : String → TypeDefinition
  of_text s =
      if str_eq s "bucket"
      then of_type bucket
      else if str_eq s "segment"
      then of_type segment
      else if str_eq s "slo-v2"
      then of_type service_level_objective
      else of_type (classic_api s)

  abbrev pub of_entry : String → Any → Result TypeDefinition
  of_entry key a =
      if str_eq key "api"
      then parse_api_type a
      else if str_eq key "settings"
      then parse_settings_type a
      else if str_eq key "automation"
      then parse_automation a
      else if str_eq key "document"
      then parse_document_type a
      else if str_eq key "openpipeline"
      then parse_open_pipeline_type a
      else err "unknown config-type"

  -- Exactly one key is allowed.
  abbrev pub of_map : List (String × Any) → Result TypeDefinition
  of_map [] = err "no type is defined"
  of_map ((key, a) ∷ []) = of_entry key a
  of_map (_ ∷ (_ ∷ _)) = err "only one config type is allowed at once"

  abbrev pub of_document : Document → Option String → Result TypeDefinition
  of_document d (some s) = ok (of_text s)
  of_document d none = Y.unmarshal_map d >>= of_map

  unfoldable pub unmarshal_yaml : Document → Result TypeDefinition
  unmarshal_yaml d = of_document d (Y.unmarshal_string d)

abbrev pub permission_definition : Option String → Option PermissionDefinition
permission_definition none = none
permission_definition (some kind) = some (record { all_users = some kind })

abbrev pub marshal_api : String → Option Value → Marshalled
marshal_api name none = api_text name
marshal_api name (some s) = api_map (record { name = name; scope = some s })

abbrev pub marshal_type : ConfigType → Option Value → Option Value → Result Marshalled
marshal_type (classic_api name) scope place = ok (marshal_api name scope)
marshal_type (settings schema version permission) scope place = ok (
    settings_map (record {
      schema = schema;
      schema_version = version;
      scope = scope;
      insert_after = place;
      permissions = permission_definition permission;
    }))
marshal_type (automation resource) scope place =
    ok (automation_map (record { resource = resource }))
marshal_type bucket scope place = ok (text "bucket")
marshal_type (document kind private custom_id labels description) scope place = ok (
    document_map (record {
      kind = kind;
      id = custom_id;
      private = private;
      labels = labels;
      description = description;
    }))
marshal_type (open_pipeline kind) scope place = ok (openpipeline_map (record { kind = kind }))
marshal_type segment scope place = ok (text "segment")
marshal_type service_level_objective scope place = ok (text "slo-v2")
marshal_type (entity kind) scope place = err "unknown type"

unfoldable pub marshal_yaml : TypeDefinition → Result Marshalled
marshal_yaml c = marshal_type c.type c.scope c.insert_after
