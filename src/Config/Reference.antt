-- ===== src/Config/Reference.antt =====
-- pkg/config/parameter/reference/reference.go: reading and writing a reference parameter.
use dynatrace_configuration.Base.{
  String, Bool, true, false, not, ◌&&◌, ◌||◌, ◌≡◌, Option, none, some, str_eq, eq_iff, arith,
  if◌then◌else◌,
}
use dynatrace_configuration.Base.Value.{Value, Fields, end, str, get, put, to_string}
use dynatrace_configuration.Config.Coordinate.{Coordinate}
use dynatrace_configuration.Config.Parameter.{
  ParameterReference, Parameter, reference, Result, ok, err, ◌>>=◌, ParserContext,
}

abbrev pub project_field : String
project_field = "project"

abbrev pub type_field : String
type_field = "configType"

abbrev pub id_field : String
id_field = "configId"

abbrev pub property_field : String
property_field = "property"

abbrev put_if : Bool → String → String → Fields → Fields
put_if b k v m = if b then put k (str v) m else m

unfoldable pub write_reference_parameter : Coordinate → Parameter → Result Fields
write_reference_parameter ctx (reference r) =
    let same_project = str_eq ctx.project r.config.project in
    let same_type = str_eq ctx.type r.config.type in
    let same_config = str_eq ctx.config_id r.config.config_id in
    let with_project = put_if (not same_project) project_field r.config.project end in
    let with_type =
      put_if (not same_project || not same_type) type_field r.config.type with_project in
    let with_id =
      put_if (not same_project || not same_type || not same_config) id_field r.config.config_id
        with_type in
    ok (put property_field (str r.property) with_id)
write_reference_parameter ctx p =
    err "unexpected type. parameter is not of type `ReferenceParameter`"

abbrev pub is_set : Option Value → Bool
is_set none = false
is_set (some v) = true

abbrev string_or : Option Value → String → String
string_or none s = s
string_or (some v) s = to_string v

unfoldable pub parse_reference_parameter : ParserContext → Result Parameter
parse_reference_parameter ctx =
    let project = get project_field ctx.values in
    let type = get type_field ctx.values in
    let id = get id_field ctx.values in
    elim (get property_field ctx.values) [
      | none ↦ err "missing `property` - please specifiy which property should be referenced"
      | some property ↦
          if is_set project && (not (is_set type) || not (is_set id))
          then err
              "`project` is set, but either `configType` or `configId` isn't! please specify `configType` and `configId`"
          else if is_set type && not (is_set id)
          then err "`configType` is set, but `configId` isn't! please specify `configId`"
          else ok (
              reference (record {
                config = record {
                  project = string_or project ctx.coordinate.project;
                  type = string_or type ctx.coordinate.type;
                  config_id = string_or id ctx.coordinate.config_id;
                };
                property = to_string property;
              }))
    ]

abbrev pub is_ok {ℓ} : {A : Type ℓ} → Result A → Bool
is_ok (ok a) = true
is_ok (err e) = false

-- Writing any reference in any configuration succeeds, and what it writes is read back in that
-- configuration as the same reference, whichever of the fields were left out as equal.
pub parse-write_reference_parameter :
    (ctx : Coordinate) (r : ParameterReference)
    → (write_reference_parameter ctx (reference r) >>= λ m.
        parse_reference_parameter (record { coordinate = ctx; values = m }))
      ≡ ok (reference r)
unfolding write_reference_parameter parse_reference_parameter get put to_string
parse-write_reference_parameter ctx r = ground (
  arith,
  eq_iff ctx.project r.config.project,
  eq_iff ctx.type r.config.type,
  eq_iff ctx.config_id r.config.config_id,
)

-- A reference definition is accepted exactly when the property is set, the type and the id are set
-- wherever the project is, and the id is set wherever the type is.
pub parse_reference_parameter_accepts :
    (ctx : ParserContext)
    → is_ok (parse_reference_parameter ctx) ≡ (
        is_set (get property_field ctx.values)
        && (not (is_set (get project_field ctx.values))
            || (is_set (get type_field ctx.values) && is_set (get id_field ctx.values)))
        && (not (is_set (get type_field ctx.values)) || is_set (get id_field ctx.values)))
unfolding parse_reference_parameter
parse_reference_parameter_accepts ctx = ground arith
