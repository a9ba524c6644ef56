-- ===== src/Config/Parameter.antt =====
-- pkg/config/parameter/parameters.go and the parameter types of pkg/config/parameter.
use dynatrace_configuration.Base.{String, Bool, List, [], ◌∷◌}
use dynatrace_configuration.Base.Value.{
  Value, Fields, Items, no_items, item, arr, any_map, to_string,
}
use dynatrace_configuration.Config.Coordinate.{Coordinate}

pub record ParameterReference : Type 0 where
  pub config : Coordinate
  pub property : String

pub record EnvironmentVariableParameter : Type 0 where
  pub name : String
  pub has_default_value : Bool
  pub default_value : String

-- The parsed template of the Go struct is a function of the raw format and is not kept.
pub record CompoundParameter : Type 0 where
  pub raw_format_string : String
  pub referenced_parameters : List ParameterReference

-- The implementations of the interface `Parameter`. A list holds the values of its value
-- parameters; a file parameter its path, its escape flag and its references.
pub data Parameter : Type 0 where
  value : Value → Parameter
  reference : ParameterReference → Parameter
  environment : EnvironmentVariableParameter → Parameter
  compound : CompoundParameter → Parameter
  list : List Value → Parameter
  file : String → Bool → List ParameterReference → Parameter

pub record NamedParameter : Type 0 where
  pub name : String
  pub parameter : Parameter

unfoldable pub get_references : Parameter → List ParameterReference
get_references (value v) = []
get_references (reference r) = r ∷ []
get_references (environment e) = []
get_references (compound c) = c.referenced_parameters
get_references (list vs) = []
get_references (file path escape refs) = refs

pub data Result {ℓ} (A : Type ℓ) : Type ℓ where
  ok : A → Result A
  err : String → Result A

infixl 5 ◌>>=◌
abbrev pub ◌>>=◌ {ℓ κ} : {A : Type ℓ} {B : Type κ} → Result A → (A → Result B) → Result B
ok a >>= f = f a
err e >>= f = err e

-- The part of `ParameterParserContext` and `ParameterWriterContext` that parsers and writers read.
pub record ParserContext : Type 0 where
  pub coordinate : Coordinate
  pub values : Fields

-- A list and a `map[any]any` are refused; anything else is taken by the text that it prints as.
unfoldable pub to_parameter_references : Items → Coordinate → Result (List ParameterReference)
to_parameter_references no_items c = ok []
to_parameter_references (item (arr xs) ps) c = err "error creating parameter reference"
to_parameter_references (item (any_map fs) ps) c = err "error creating parameter reference"
to_parameter_references (item p ps) c = do
  rest ← to_parameter_references ps c
  ok (record { config = c; property = to_string p } ∷ rest)
