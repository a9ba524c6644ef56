-- ===== src/Config/FileParameter.antt =====
-- pkg/config/parameter/file/file.go: reading and writing a file parameter.
use dynatrace_configuration.Base.{
  String, Bool, true, if◌then◌else◌, ◌≡◌, refl, Option, none, some, List, [],
}
use dynatrace_configuration.Base.Value.{Value, Fields, end, str, bool, get, put}
use dynatrace_configuration.Config.Coordinate.{Coordinate}
use dynatrace_configuration.Config.Parameter.{
  ParameterReference, Parameter, file, Result, ok, err, ◌>>=◌, ParserContext,
  to_parameter_references,
}
use dynatrace_configuration.Config.Serde.{as_items}

abbrev as_string : Value → Option String
as_string (str s) = some s
as_string _ = none

abbrev as_bool : Value → Option Bool
as_bool (bool b) = some b
as_bool _ = none

-- `has_fs` says whether the context has a file system, and `resolve_path` is `filepath.Join` of the
-- working directory with the path in the system's form.
module _ (has_fs : Bool) (resolve_path : String → String) where
  abbrev parse_file_references : ParserContext → String → Bool → Result Parameter
  parse_file_references ctx path escape = elim (get "references" ctx.values) [
    | none ↦ ok (file path escape [])
    | some references ↦ elim (as_items references) [
      | none ↦ err "malformed value `references`"
      | some slice ↦ elim (to_parameter_references slice ctx.coordinate) [
        | err e ↦ err "invalid parameter references"
        | ok refs ↦ ok (file path escape refs)
      ]
    ]
  ]

  abbrev parse_file_escape : ParserContext → String → Result Parameter
  parse_file_escape ctx path = elim (get "escape" ctx.values) [
    | none ↦ parse_file_references ctx path true
    | some v ↦ elim (as_bool v) [
      | none ↦ err "property `escape` must be a boolean"
      | some escape ↦ parse_file_references ctx path escape
    ]
  ]

  abbrev parse_file_path : ParserContext → Result Parameter
  parse_file_path ctx = elim (get "path" ctx.values) [
    | none ↦ err "missing property `path`"
    | some p ↦ elim (as_string p) [
      | none ↦ err "property `path` must be a string"
      | some path ↦ parse_file_escape ctx (resolve_path path)
    ]
  ]

  unfoldable pub parse_file_value_parameter : ParserContext → Result Parameter
  parse_file_value_parameter ctx =
      if has_fs then parse_file_path ctx else err "missing filesystem handle to load parameter"

unfoldable pub write_file_value_parameter : Parameter → Result Fields
write_file_value_parameter (file path escape refs) =
    ok (put "escape" (bool escape) (put "path" (str path) end))
write_file_value_parameter p = err "unexpected type. parameter is not of type `FileParameter`"

-- Writing a file parameter loses its references: what is read back, with a file system, has the path, resolved once more,
-- and the escape flag, but no references, whatever references the parameter had.
pub parse-write_file_value_parameter :
    (resolve_path : String → String) (ctx : Coordinate) (path : String) (escape : Bool)
    (refs : List ParameterReference)
    → (write_file_value_parameter (file path escape refs) >>= λ m.
        parse_file_value_parameter true resolve_path (record { coordinate = ctx; values = m }))
      ≡ ok (file (resolve_path path) escape [])
unfolding write_file_value_parameter parse_file_value_parameter get put
parse-write_file_value_parameter resolve_path ctx path escape refs = refl
