-- ===== src/Config/Serde.antt =====
-- Reading and writing the other parameter types: value/value.go, environment/environment.go,
-- compound/compound.go and list/list.go below pkg/config/parameter.
use dynatrace_configuration.Base.{
  String, Bool, true, false, ◌≡◌, refl, Option, none, some, List, [], ◌∷◌, str_eq, eq_iff, arith,
  All, if◌then◌else◌, ◌≢◌,
}
use dynatrace_configuration.Base.Value.{
  Value, Items, no_items, item, Fields, end, field, str, arr, obj, any_map, get, put, to_string,
  to_string_map,
}
use dynatrace_configuration.Config.Coordinate.{Coordinate}
use dynatrace_configuration.Config.Parameter.{
  ParameterReference, EnvironmentVariableParameter, CompoundParameter, Parameter, value,
  environment, compound, list, Result, ok, err, ◌>>=◌, ParserContext, to_parameter_references,
}

unfoldable pub parse_value_parameter : ParserContext → Result Parameter
parse_value_parameter ctx = elim (get "value" ctx.values) [
  | some v ↦ ok (value v)
  | none ↦ err "missing property `value`"
]

unfoldable pub write_value_parameter : Parameter → Result Fields
write_value_parameter (value v) = ok (field "value" v end)
write_value_parameter p = err "unexpected type. parameter is not of type `ValueParameter`"

unfoldable pub parse_environment_value_parameter : ParserContext → Result Parameter
parse_environment_value_parameter ctx = elim (get "name" ctx.values) [
  | none ↦ err "missing property `name`"
  | some name ↦ elim (get "default" ctx.values) [
    | some v ↦ ok (
        environment
          (record { name = to_string name; has_default_value = true; default_value = to_string v }))
    | none ↦ ok (
        environment
          (record { name = to_string name; has_default_value = false; default_value = "" }))
  ]
]

unfoldable pub write_environment_value_parameter : Parameter → Result Fields
write_environment_value_parameter (environment e) =
    let start = if e.has_default_value then put "default" (str e.default_value) end else end in
    ok (put "name" (str e.name) start)
write_environment_value_parameter p =
    err "unexpected type. parameter is not of type `EnvironmentVariableParameter`"

abbrev pub as_items : Value → Option Items
as_items (arr xs) = some xs
as_items _ = none

-- `parses` says whether `template.ParseTemplate` accepts a format.
module _ (parses : String → Bool) where
  unfoldable pub new_compound : String → List ParameterReference → Result Parameter
  new_compound format refs =
      if parses format
      then ok (compound (record { raw_format_string = format; referenced_parameters = refs }))
      else err "template"

  abbrev parse_references : ParserContext → Value → Value → Result Parameter
  parse_references ctx format references = elim (as_items references) [
    | none ↦ err "malformed value `references`"
    | some slice ↦ elim (to_parameter_references slice ctx.coordinate) [
      | err e ↦ err "invalid parameter references"
      | ok refs ↦ new_compound (to_string format) refs
    ]
  ]

  unfoldable pub parse_compound_parameter : ParserContext → Result Parameter
  parse_compound_parameter ctx = elim (get "format" ctx.values) [
    | none ↦ err "missing property `format`"
    | some format ↦ elim (get "references" ctx.values) [
      | none ↦ err "missing property `references`"
      | some references ↦ parse_references ctx format references
    ]
  ]

abbrev property_items : List ParameterReference → Items
property_items [] = no_items
property_items (r ∷ rs) = item (str r.property) (property_items rs)

abbrev is_empty {ℓ} : {A : Type ℓ} → List A → Bool
is_empty [] = true
is_empty (x ∷ xs) = false

unfoldable pub write_compound_parameter : Parameter → Result Fields
write_compound_parameter (compound c) =
    if str_eq c.raw_format_string ""
    then err "missing property `format`"
    else if is_empty c.referenced_parameters
    then err "missing property `references`"
    else ok (
        put "references" (arr (property_items c.referenced_parameters))
          (put "format" (str c.raw_format_string) end))
write_compound_parameter p = err "unexpected type. parameter is not of type `CompoundParameter`"

-- A text is written as it is, any other value as a value parameter with its type.
unfoldable pub to_writable_value : Value → Value
to_writable_value (str s) = str s
to_writable_value v = obj (put "type" (str "value") (put "value" v end))

unfoldable pub to_writable_values : List Value → Items
to_writable_values [] = no_items
to_writable_values (v ∷ vs) = item (to_writable_value v) (to_writable_values vs)

unfoldable pub write_list_parameter : Parameter → Result Fields
write_list_parameter (list vs) = ok (put "values" (arr (to_writable_values vs)) end)
write_list_parameter p = err "unexpected type. parameter is not of type `ValueParameter`"

unfoldable pub parse_sub_parameter : Value → Result Value
parse_sub_parameter (any_map m) = elim (get "value" (to_string_map m)) [
  | some v ↦ ok v
  | none ↦ err "missing property `value`"
]
parse_sub_parameter v = err "malformed list entry"

unfoldable pub parse_list_value : Value → Result Value
unfolding parse_sub_parameter
parse_list_value (str s) = ok (str s)
parse_list_value v = parse_sub_parameter v

unfoldable pub parse_list_values : Items → Result (List Value)
parse_list_values no_items = ok []
parse_list_values (item v vs) = do p ← parse_list_value v; ps ← parse_list_values vs; ok (p ∷ ps)

unfoldable pub parse_list_parameter : ParserContext → Result Parameter
parse_list_parameter ctx = elim (get "values" ctx.values) [
  | none ↦ err "missing property `values`"
  | some values ↦ elim (as_items values) [
    | none ↦ err "malformed property `values` - expected list"
    | some slice ↦ do vs ← parse_list_values slice; ok (list vs)
  ]
]

-- A value parameter is read back as it was.
pub parse-write_value_parameter :
    (ctx : Coordinate) (v : Value)
    → (write_value_parameter (value v) >>= λ m.
        parse_value_parameter (record { coordinate = ctx; values = m }))
      ≡ ok (value v)
unfolding write_value_parameter parse_value_parameter get
parse-write_value_parameter ctx v = refl

-- An environment parameter is read back as it was, if its default value is empty when it has none.
pub parse-write_environment_value_parameter :
    (ctx : Coordinate) (e : EnvironmentVariableParameter)
    → (e.has_default_value ≡ false → e.default_value ≡ "")
    → (write_environment_value_parameter (environment e) >>= λ m.
        parse_environment_value_parameter (record { coordinate = ctx; values = m }))
      ≡ ok (environment e)
unfolding write_environment_value_parameter parse_environment_value_parameter get put to_string
parse-write_environment_value_parameter ctx e h = ground arith

references_back :
    (ctx : Coordinate) (rs : List ParameterReference)
    → All (λ r. r.config ≡ ctx) rs
    → to_parameter_references (property_items rs) ctx ≡ ok rs
unfolding to_parameter_references to_string
references_back ctx [] h = refl
references_back ctx (r ∷ rs) (e, h) = rw (references_back ctx rs h) (ground arith)

-- A compound parameter whose format parses and is not empty, and which has references, all into
-- the configuration that it is written for, is read back as it was.
pub parse-write_compound_parameter :
    (parses : String → Bool) (ctx : Coordinate) (c : CompoundParameter)
    → parses c.raw_format_string ≡ true
    → c.raw_format_string ≢ ""
    → c.referenced_parameters ≢ []
    → All (λ r. r.config ≡ ctx) c.referenced_parameters
    → (write_compound_parameter (compound c) >>= λ m.
        parse_compound_parameter parses (record { coordinate = ctx; values = m }))
      ≡ ok (compound c)
unfolding write_compound_parameter parse_compound_parameter new_compound get put to_string
parse-write_compound_parameter parses ctx c p f r h =
    ground (arith, eq_iff c.raw_format_string "", references_back ctx c.referenced_parameters h)
