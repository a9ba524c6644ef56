-- ===== src/Config/Tests.antt =====
-- Configurations on which the theorems of this part are applied.
use dynatrace_configuration.Base.{
  ℕ, ◌<◌, ◌≡◌, ◌≢◌, refl, ◌↔◌, inl, inr, true, false, List, [], ◌∷◌, map, none, some, In, All,
  arith, split, if◌then◌else◌, str_eq, sort_by_key, insert_by_key, less, cut, ap, sym, ◌∙◌,
}
use dynatrace_configuration.Base.Value.{
  Value, Fields, end, field, str, bool, obj, num, get, put, to_string,
}
use dynatrace_configuration.Base.Value.{null, arr, any_map, Items, item, no_items, to_string_map}
use dynatrace_configuration.Config.ListRoundTrip.{
  Yaml, reread_items, reread_fields, IsDecoded, IsLoaded, parse-write_list_parameter,
}
use dynatrace_configuration.Config.Coordinate.{Coordinate, same_coordinate}
use dynatrace_configuration.Config.Parameter.{
  ParameterReference, EnvironmentVariableParameter, CompoundParameter, value, reference, compound,
  list, file, NamedParameter, get_references, ok, ◌>>=◌,
}
use dynatrace_configuration.Config.Reference.{
  write_reference_parameter, parse_reference_parameter, is_ok, parse-write_reference_parameter,
  parse_reference_parameter_accepts,
}
use dynatrace_configuration.Config.Serde.{
  write_compound_parameter, parse_compound_parameter, write_list_parameter, parse_list_parameter,
  parse-write_compound_parameter,
}
use dynatrace_configuration.Config.FileParameter.{
  write_file_value_parameter, parse_file_value_parameter, parse-write_file_value_parameter,
}
use dynatrace_configuration.Config.Entities.{
  ResolvedEntity, get_resolved_entity, get_resolved_property, resolve_prop_value,
  resolve_prop_value_from, dot,
}
use dynatrace_configuration.Config.Properties.{walk, trim, resolve_prop_value-walk}
use dynatrace_configuration.Config.Model.{Config, bucket}
use dynatrace_configuration.Config.Sort.{
  sorted, named, get_sorted_parameters, parameters_with_name, dependency_matrix, in_degrees,
  parameter_reference, any_reference, matches_target, search_value_parameter_for_key, pick,
}
use dynatrace_configuration.Config.Picking.{InOrder}
use dynatrace_configuration.Config.SortOrder.{get_sorted_parameters-InOrder}
use dynatrace_configuration.Config.SortTotal.{get_sorted_parameters_complete}
use dynatrace_configuration.Config.Resolve.{
  Runtime, resolve_parameter_values, resolve_values, resolve_parameter,
  validate_parameter_references, validate_reference, resolve_value, resolve_compound,
  resolve_reference, referenced_values, escape_value, escape_fields,
}
use dynatrace_configuration.Config.Resolved.{IsResolvable, resolve_parameter_values-IsResolvable}
use dynatrace_configuration.TopologySort.Defs.{
  topology_sort, sort_loop, resolve, relax, visit, collect_errors, get_all_leaves,
}

abbrev here : Coordinate
here = record { project = "p"; type = "builtin:tags"; config_id = "a" }

abbrev there : Coordinate
there = record { project = "p"; type = "bucket"; config_id = "b" }

abbrev to_there : ParameterReference
to_there = record { config = there; property = "id" }

abbrev to_own : ParameterReference
to_own = record { config = here; property = "base" }

parse-write_reference_parameter_example :
    (write_reference_parameter here (reference to_there) >>= λ m.
    parse_reference_parameter (record { coordinate = here; values = m }))
    ≡ ok (reference to_there)
parse-write_reference_parameter_example = parse-write_reference_parameter here to_there

-- The type is set without the id.
abbrev half_set : Fields
half_set = field "property" (str "id") (field "configType" (str "bucket") end)

parse_reference_parameter_accepts_example :
    is_ok (parse_reference_parameter (record { coordinate = here; values = half_set })) ≡ false
unfolding get
parse_reference_parameter_accepts_example =
    parse_reference_parameter_accepts (record { coordinate = here; values = half_set })

abbrev no_default : EnvironmentVariableParameter
no_default = record { name = "TOKEN"; has_default_value = false; default_value = "" }

abbrev label : CompoundParameter
label = record { raw_format_string = "{{.base}}-1"; referenced_parameters = to_own ∷ [] }

label-ne-empty : label.raw_format_string ≢ ""
label-ne-empty e = cc

parse-write_compound_parameter_example :
    (write_compound_parameter (compound label) >>= λ m.
    parse_compound_parameter (λ s. true) (record { coordinate = here; values = m }))
    ≡ ok (compound label)
parse-write_compound_parameter_example =
    parse-write_compound_parameter (λ s. true) here label refl label-ne-empty (λ e. cc) (refl, tt)

-- A YAML library that turns every map into a `map[any]any`.
unfoldable mutual
  decoded : Value → Value
  decoded null = null
  decoded (bool b) = bool b
  decoded (num n) = num n
  decoded (str s) = str s
  decoded (arr vs) = arr (decoded_items vs)
  decoded (obj m) = any_map (decoded_fields m)
  decoded (any_map m) = any_map (decoded_fields m)

  decoded_items : Items → Items
  decoded_items no_items = no_items
  decoded_items (item v vs) = item (decoded v) (decoded_items vs)

  decoded_fields : Fields → Fields
  decoded_fields end = end
  decoded_fields (field k v m) = field k (decoded v) (decoded_fields m)

decoded_items_lem : (vs : Items) → decoded_items vs ≡ reread_items decoded vs
unfolding decoded
decoded_items_lem no_items = refl
decoded_items_lem (item v vs) = rw (decoded_items_lem vs) refl

decoded_fields_lem : (m : Fields) → decoded_fields m ≡ reread_fields decoded m
unfolding decoded
decoded_fields_lem end = refl
decoded_fields_lem (field k v m) = rw (decoded_fields_lem m) refl

yaml : Yaml
unfolding decoded
yaml = record {
  reread = decoded;
  reread_null = refl;
  reread_bool = λ b. refl;
  reread_num = λ n. refl;
  reread_str = λ s. refl;
  reread_arr = λ vs. ap arr (decoded_items_lem vs);
  reread_obj = λ m. ap any_map (decoded_fields_lem m);
  reread_any_map = λ m. ap any_map (decoded_fields_lem m);
}

abbrev mixed : List Value
mixed =
    str "x"
    ∷ num "3"
    ∷ obj (field "a" (obj (field "b" (bool true) end)) end)
    ∷ arr (item (any_map (field "c" null end)) no_items)
    ∷ []

mixed-IsLoaded : All IsLoaded mixed
unfolding IsLoaded IsDecoded
mixed-IsLoaded = (tt, (tt, (((tt, tt), tt), (((tt, tt), tt), tt))))

parse-write_list_parameter_example :
    (write_list_parameter (list mixed) >>= λ m.
    parse_list_parameter
      (record { coordinate = here; values = to_string_map (reread_fields yaml.reread m) }))
    ≡ ok (list mixed)
parse-write_list_parameter_example = parse-write_list_parameter yaml here mixed mixed-IsLoaded

-- A reference of the file is lost.
parse-write_file_value_parameter_example :
    (write_file_value_parameter (file "t.json" true (to_own ∷ [])) >>= λ m.
    parse_file_value_parameter true (λ path. path) (record { coordinate = here; values = m }))
    ≡ ok (file "t.json" true [])
parse-write_file_value_parameter_example =
    parse-write_file_value_parameter (λ path. path) here "t.json" true (to_own ∷ [])

abbrev old_entity : ResolvedEntity
old_entity = record { coordinate = there; properties = end; skip = true }

abbrev new_entity : ResolvedEntity
new_entity = record { coordinate = there; properties = field "id" (str "7") end; skip = false }

abbrev nested : Fields
nested = field "a" (obj (field "b" (str "deep") end)) end

resolve_prop_value-walk_example :
    resolve_prop_value "a.b" nested ≡ walk (trim (split dot "a.b")) nested
resolve_prop_value-walk_example = resolve_prop_value-walk "a.b" nested

-- `label` refers to `base`, which stands behind it in the configuration.
abbrev tags : Config
tags = record {
  template = "";
  coordinate = here;
  group = "g";
  environment = "e";
  type = bucket;
  parameters =
      ("label", compound label) ∷ ("base", value (str "x")) ∷ ("other", reference to_there) ∷ [];
  skip = false;
  origin_object_id = "";
}

program : Unit {0}
unfolding get_sorted_parameters parameters_with_name dependency_matrix in_degrees
    parameter_reference any_reference matches_target search_value_parameter_for_key pick sort_by_key
    insert_by_key less get_references topology_sort sort_loop resolve relax visit collect_errors
    get_all_leaves same_coordinate resolve_parameter_values resolve_values resolve_parameter
    validate_parameter_references validate_reference resolve_value resolve_compound
    resolve_reference referenced_values escape_value escape_fields get put get_resolved_entity
    get_resolved_property resolve_prop_value resolve_prop_value_from cut to_string
program = tt

abbrev base_parameter : NamedParameter
base_parameter = named ("base", value (str "x"))

abbrev label_parameter : NamedParameter
label_parameter = named ("label", compound label)

abbrev other_parameter : NamedParameter
other_parameter = named ("other", reference to_there)

abbrev in_order : List NamedParameter
in_order = base_parameter ∷ other_parameter ∷ label_parameter ∷ []

tags_sorted : get_sorted_parameters tags ≡ some (sorted in_order)
unfolding program
tags_sorted = refl

get_sorted_parameters-InOrder_example :
    ((q : NamedParameter) → In q in_order ↔ In q (map named tags.parameters))
    × InOrder here (map named tags.parameters) [] in_order
get_sorted_parameters-InOrder_example = get_sorted_parameters-InOrder tags in_order tags_sorted

abbrev two : Config
two = record tags { parameters = ("label", compound label) ∷ ("base", value (str "x")) ∷ [] }

abbrev name_rank : NamedParameter → ℕ
name_rank p = if str_eq p.name "base" then 1 else 0

two_rises :
    (p q : NamedParameter)
    → In p (map named two.parameters)
    → In q (map named two.parameters)
    → parameter_reference p here q ≡ true
    → name_rank p < name_rank q
unfolding program
two_rises p q (inl a) (inl b) e =
    let e' : parameter_reference label_parameter here label_parameter ≡ true =
      sym
        (ap (λ x. parameter_reference x here q) a ∙ ap (parameter_reference label_parameter here) b)
      ∙ e in
    cc
two_rises p q (inl a) (inr (inl b)) e = rw (a, b) (omega arith)
two_rises p q (inr (inl a)) m e =
    let e' : parameter_reference base_parameter here q ≡ true =
      sym (ap (λ x. parameter_reference x here q) a) ∙ e in
    cc
two_rises p q (inl a) (inr (inr b)) e = absurd b
two_rises p q (inr (inr a)) m e = absurd a

get_sorted_parameters_complete_example :
    (ps : List NamedParameter) × (get_sorted_parameters two ≡ some (sorted ps))
get_sorted_parameters_complete_example = get_sorted_parameters_complete two name_rank two_rises

abbrev runtime : Runtime
runtime = record {
  lookup_env = λ name. none;
  escape_string = ok;
  execute = λ format values. ok "x-1";
  render_file = λ path values. ok path;
  sprint = λ v. "";
}

abbrev tag_properties : Fields
tag_properties = field "base" (str "x") (field "other" (str "7") (field "label" (str "x-1") end))

tags_resolved : resolve_parameter_values runtime tags (new_entity ∷ []) ≡ some (tag_properties, [])
unfolding program
tags_resolved = refl

resolve_parameter_values-IsResolvable_example :
    ((v : Value) × (get "label" tag_properties ≡ some v))
    × All (IsResolvable tags (new_entity ∷ []) "label") (get_references (compound label))
resolve_parameter_values-IsResolvable_example =
    resolve_parameter_values-IsResolvable runtime tags (new_entity ∷ []) tag_properties
      tags_resolved "label" (compound label) (inl refl)
