-- ===== src/Persistence/Tests.antt =====
-- Type definitions at examples, and the theorems at them.
use dynatrace_configuration.Base.{String, List, [], ◌∷◌, Option, none, some, ◌≡◌, ◌↔◌}
use dynatrace_configuration.Base.Value.{str}
use dynatrace_configuration.Config.Model.{settings}
use dynatrace_configuration.Config.Parameter.{Result, ok, err}
use dynatrace_configuration.Persistence.Checked.{
  IsKnownType, validate_type_definition, validate_type_definition_iff,
}
use dynatrace_configuration.Persistence.TypeDefinition.{
  TypeDefinition, ComplexApiDefinition, SettingsDefinition, AutomationDefinition,
  DocumentDefinition, OpenPipelineDefinition, Marshalled, text, api_text, api_map, settings_map,
  automation_map, document_map, openpipeline_map, Codec,
}

-- A document is what was written, and so is a value inside it.
abbrev whole_text : Marshalled → Option String
whole_text (text s) = some s
whole_text _ = none

abbrev entry : Marshalled → Result (List (String × Marshalled))
entry (text s) = err "no map"
entry (api_text s) = ok (("api", api_text s) ∷ [])
entry (api_map r) = ok (("api", api_map r) ∷ [])
entry (settings_map r) = ok (("settings", settings_map r) ∷ [])
entry (automation_map r) = ok (("automation", automation_map r) ∷ [])
entry (document_map r) = ok (("document", document_map r) ∷ [])
entry (openpipeline_map r) = ok (("openpipeline", openpipeline_map r) ∷ [])

abbrev inner_text : Marshalled → Option String
inner_text (api_text s) = some s
inner_text _ = none

abbrev as_api : Marshalled → Result ComplexApiDefinition
as_api (api_map r) = ok r
as_api _ = err "no API"

abbrev as_settings : Marshalled → Result SettingsDefinition
as_settings (settings_map r) = ok r
as_settings _ = err "no settings"

abbrev as_automation : Marshalled → Result AutomationDefinition
as_automation (automation_map r) = ok r
as_automation _ = err "no automation"

abbrev as_document : Marshalled → Result DocumentDefinition
as_document (document_map r) = ok r
as_document _ = err "no document"

abbrev as_open_pipeline : Marshalled → Result OpenPipelineDefinition
as_open_pipeline (openpipeline_map r) = ok r
as_open_pipeline _ = err "no pipeline"

abbrev codec : Codec
codec = record {
  Document = Marshalled;
  Any = Marshalled;
  unmarshal_string = whole_text;
  unmarshal_map = entry;
  as_string = inner_text;
  decode_api = as_api;
  decode_settings = as_settings;
  decode_automation = as_automation;
  decode_document = as_document;
  decode_open_pipeline = as_open_pipeline;
}

abbrev same : Marshalled → Marshalled
same m = m

abbrev shared_rule : TypeDefinition
shared_rule = record {
  type = settings "builtin:rule" "1.0" (some "read");
  scope = some (str "environment");
  insert_after = some (str "first");
}

validate_type_definition_iff_example :
    (validate_type_definition ("dashboard" ∷ []) shared_rule ≡ none)
    ↔ IsKnownType
        ("dashboard" ∷ [])
        (settings "builtin:rule" "1.0" (some "read"))
        (some (str "environment"))
validate_type_definition_iff_example = validate_type_definition_iff ("dashboard" ∷ []) shared_rule
