-- ===== src/Project.antt =====
-- pkg/project/project.go: a project with its configurations.
use dynatrace_configuration.Base.{
  String, Bool, false, List, [], ◌∷◌, ◌++◌, Option, none, some, ◌||◌, str_eq, lookup, if◌then◌else◌,
}
use dynatrace_configuration.Config.Coordinate.{Coordinate}
use dynatrace_configuration.Config.Model.{Config}

-- `ConfigsPerType` is a Go map: the order of the list is the order of one iteration over it.
abbrev pub ConfigsPerType : Type 0
ConfigsPerType = List (String × List Config)

abbrev pub ConfigsPerTypePerEnvironments : Type 0
ConfigsPerTypePerEnvironments = List (String × ConfigsPerType)

pub record Project : Type 0 where
  pub id : String
  pub group_id : String
  pub configs : ConfigsPerTypePerEnvironments
  pub dependencies : List (String × List String)

abbrev pub is_listed : String → List String → Bool
is_listed id [] = false
is_listed id (x ∷ xs) = str_eq x id || is_listed id xs

unfoldable pub has_dependency_on : Project → String → Project → Bool
unfolding lookup
has_dependency_on p environment other = elim (lookup environment p.dependencies) [
  | none ↦ false
  | some dependencies ↦ is_listed other.id dependencies
]

abbrev pub with_config_id : String → List Config → Option Config
with_config_id id [] = none
with_config_id id (c ∷ cs) =
    let rest = with_config_id id cs in if str_eq c.coordinate.config_id id then some c else rest

-- The loop over the types goes on when the wanted type holds no such configuration.
abbrev pub in_types : Coordinate → ConfigsPerType → Option Config
in_types c [] = none
in_types c ((config_type, cs) ∷ types) =
    let rest = in_types c types in
    if str_eq c.type config_type
    then elim (with_config_id c.config_id cs) [ some found ↦ some found | none ↦ rest ]
    else rest

unfoldable pub get_config_for : Project → String → Coordinate → Option Config
unfolding lookup
get_config_for p env c = elim (lookup env p.configs) [ none ↦ none | some types ↦ in_types c types ]

-- The configurations that the iterator yields when its consumer never stops it.
abbrev pub all_configs : ConfigsPerType → List Config
all_configs [] = []
all_configs ((config_type, cs) ∷ types) = cs ++ all_configs types

-- The configurations that the action runs on, in order.
abbrev pub for_every_config_in : String → ConfigsPerTypePerEnvironments → List Config
for_every_config_in environment [] = []
for_every_config_in environment ((env, types) ∷ environments) =
    let rest = for_every_config_in environment environments in
    if str_eq environment "" || str_eq environment env then all_configs types ++ rest else rest

unfoldable pub for_every_config_do : Project → String → List Config
for_every_config_do p environment = for_every_config_in environment p.configs
