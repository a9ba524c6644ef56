-- ===== src/Persistence/RoundTrip.antt =====
-- A type that is written is read back.
use dynatrace_configuration.Base.{String, [], ◌∷◌, Option, none, some, ◌≡◌}
use dynatrace_configuration.Base.Value.{Value}
use dynatrace_configuration.Config.Model.{
  ConfigType, settings, classic_api, entity, automation, bucket, document, open_pipeline, segment,
  service_level_objective,
}
use dynatrace_configuration.Config.Parameter.{ok}
use dynatrace_configuration.Persistence.TypeDefinition.{
  TypeDefinition, ComplexApiDefinition, SettingsDefinition, AutomationDefinition,
  DocumentDefinition, OpenPipelineDefinition, Marshalled, text, api_text, api_map, settings_map,
  automation_map, document_map, openpipeline_map, Codec, unmarshal_yaml, marshal_type,
}

module _ (Y : Codec) where
  open Y use {Document, Any}

  -- The document is a map with one key.
  abbrev pub HasEntry : Document → String → (Any → Type 0) → Type 0
  HasEntry d key P =
      (Y.unmarshal_string d ≡ none) × (a : Any) × (Y.unmarshal_map d ≡ ok ((key, a) ∷ [])) × P a

  -- What was written is read as it was.
  pub record ReadsBack (written : Marshalled → Document) : Type 0 where
    pub text_back : (s : String) → Y.unmarshal_string (written (text s)) ≡ some s
    pub api_text_back :
        (s : String) → HasEntry (written (api_text s)) "api" (λ a. Y.as_string a ≡ some s)
    pub api_back :
        (r : ComplexApiDefinition)
        → HasEntry
            (written (api_map r))
            "api"
            (λ a. (Y.as_string a ≡ none) × (Y.decode_api a ≡ ok r))
    pub settings_back :
        (r : SettingsDefinition)
        → HasEntry (written (settings_map r)) "settings" (λ a. Y.decode_settings a ≡ ok r)
    pub automation_back :
        (r : AutomationDefinition)
        → HasEntry (written (automation_map r)) "automation" (λ a. Y.decode_automation a ≡ ok r)
    pub document_back :
        (r : DocumentDefinition)
        → HasEntry (written (document_map r)) "document" (λ a. Y.decode_document a ≡ ok r)
    pub open_pipeline_back :
        (r : OpenPipelineDefinition)
        → HasEntry
            (written (openpipeline_map r))
            "openpipeline"
            (λ a. Y.decode_open_pipeline a ≡ ok r)

-- Only settings have a place, and only settings and classic APIs a scope; entities are not
-- written.
abbrev pub IsWritable : ConfigType → Option Value → Option Value → Type 0
IsWritable (settings schema version permission) scope place = Unit
IsWritable (classic_api api) scope place = place ≡ none
IsWritable (entity type) scope place = ⊥
IsWritable (automation resource) scope place = (scope ≡ none) × (place ≡ none)
IsWritable bucket scope place = (scope ≡ none) × (place ≡ none)
IsWritable (document kind private id labels description) scope place =
    (scope ≡ none) × (place ≡ none)
IsWritable (open_pipeline kind) scope place = (scope ≡ none) × (place ≡ none)
IsWritable segment scope place = (scope ≡ none) × (place ≡ none)
IsWritable service_level_objective scope place = (scope ≡ none) × (place ≡ none)

module _ (Y : Codec) (written : Marshalled → Y.Document) (back : ReadsBack Y written) where
  open Y use {Document, Any}

  abbrev IsReadBack : ConfigType → Option Value → Option Value → Type 0
  IsReadBack t scope place =
      (m : Marshalled) × (marshal_type t scope place ≡ ok m)
      × (unmarshal_yaml Y (written m)
          ≡ ok (record { type = t; scope = scope; insert_after = place }))
