-- ===== src/Delete/Tests.antt =====
-- Entries of a delete file, and the theorems at them.
use dynatrace_configuration.Base.{
  String, false, List, [], ◌∷◌, Option, none, some, ◌≡◌, ◌≢◌, str_eq, if◌then◌else◌,
}
use dynatrace_configuration.Base.Value.{Value, str, null}
use dynatrace_configuration.Delete.Loader.{
  DeleteEntry, DeletePointer, Api, parse_delete_file_definition, entries_of,
}
use dynatrace_configuration.Delete.Grouped.{
  errors_from, pointers_of_type, parse_delete_file_definition_lem,
}

abbrev dashboard : Api
dashboard = record { id = "dashboard"; has_parent = false }

abbrev by_name : DeleteEntry
by_name = record {
  project = "";
  type = "dashboard";
  config_id = "";
  config_name = "d";
  object_id = "";
  scope = "";
  custom_values = [];
}

abbrev by_object : DeleteEntry
by_object = record by_name { config_name = ""; object_id = "7" }

abbrev apis : String → Option Api
apis type = if str_eq type "dashboard" then some dashboard else none

abbrev decode : Value → Option DeleteEntry
decode v = some by_name

abbrev entries : List Value
entries = str "dashboard/a" ∷ null ∷ str "dashboard" ∷ []

parse_delete_file_definition_lem_example :
    ((parse_delete_file_definition apis decode entries).1 ≡ errors_from apis decode 0 entries)
    × (errors_from apis decode 0 entries ≢ []
        → (parse_delete_file_definition apis decode entries).0 ≡ none)
    × (errors_from apis decode 0 entries ≡ []
        → (m : List (String × List DeletePointer)) × ((parse_delete_file_definition apis decode
              entries).0
            ≡ some m)
          × ((t : String) → entries_of apis decode t m ≡ pointers_of_type apis decode t entries))
parse_delete_file_definition_lem_example = parse_delete_file_definition_lem apis decode entries
