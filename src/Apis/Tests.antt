-- ===== src/Apis/Tests.antt =====
-- A small table of APIs, and the theorems at it.
use dynatrace_configuration.Base.{String, true, false, List, [], ◌∷◌, ◌≢◌, ◌↔◌, In}
use dynatrace_configuration.Apis.Filters.{
  ApiEntry, ApiTable, filter_apis, retain_by_name, retain_by_name_lem,
}

abbrev dashboard : String × ApiEntry
dashboard = ("dashboard", record { id = "dashboard"; non_deletable = false; require_all_ff = [] })

abbrev frequent_issues : String × ApiEntry
frequent_issues = ("issues", record { id = "issues"; non_deletable = true; require_all_ff = [] })

abbrev table : ApiTable
table = dashboard ∷ frequent_issues ∷ []

abbrev wanted : List String
wanted = "dashboard" ∷ []

wanted-ne-nil : wanted ≢ []
wanted-ne-nil e = cc

retain_by_name_lem_example :
    In dashboard (filter_apis (retain_by_name wanted ∷ []) table)
    ↔ (In dashboard table × In "dashboard" wanted)
retain_by_name_lem_example = retain_by_name_lem wanted table dashboard wanted-ne-nil
