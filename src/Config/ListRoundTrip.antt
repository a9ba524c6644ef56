-- ===== src/Config/ListRoundTrip.antt =====
-- What a list parameter is when it is read from the YAML file that it was written to. The loader turns
-- the map that it reads into a `map[string]any` (pkg/config/loader/parameters.go).
use dynatrace_configuration.Base.{String, Bool, ◌≡◌, refl, ap, ◌∙◌, List, [], ◌∷◌, All}
use dynatrace_configuration.Base.Value.{
  Value, Items, no_items, item, Fields, end, field, null, bool, num, str, arr, obj, any_map, get,
  put, to_string_map, with_string_map,
}
use dynatrace_configuration.Config.Coordinate.{Coordinate}
use dynatrace_configuration.Config.Parameter.{list, ok, ◌>>=◌}
use dynatrace_configuration.Config.Serde.{
  to_writable_value, to_writable_values, write_list_parameter, parse_list_value, parse_list_values,
  parse_list_parameter, parse_sub_parameter,
}

abbrev pub reread_items : (Value → Value) → Items → Items
reread_items f no_items = no_items
reread_items f (item v vs) = item (f v) (reread_items f vs)

abbrev pub reread_fields : (Value → Value) → Fields → Fields
reread_fields f end = end
reread_fields f (field k v m) = field k (f v) (reread_fields f m)

-- Writing a value and reading it into an `any`, as the YAML library documents it: scalars keep their
-- value and lists their order, and every map is read as a `map[any]any`.
pub record Yaml : Type 0 where
  pub reread : Value → Value
  pub reread_null : reread null ≡ null
  pub reread_bool : (b : Bool) → reread (bool b) ≡ bool b
  pub reread_num : (n : String) → reread (num n) ≡ num n
  pub reread_str : (s : String) → reread (str s) ≡ str s
  pub reread_arr : (vs : Items) → reread (arr vs) ≡ arr (reread_items reread vs)
  pub reread_obj : (m : Fields) → reread (obj m) ≡ any_map (reread_fields reread m)
  pub reread_any_map : (m : Fields) → reread (any_map m) ≡ any_map (reread_fields reread m)

-- A value as the library yields it: no map in it is a `map[string]any`.
unfoldable mutual
  pub IsDecoded : Value → Type 0
  IsDecoded (obj m) = ⊥
  IsDecoded (any_map m) = AllFieldsDecoded m
  IsDecoded (arr vs) = AllDecoded vs
  IsDecoded _ = Unit

  pub AllDecoded : Items → Type 0
  AllDecoded no_items = Unit
  AllDecoded (item v vs) = IsDecoded v × AllDecoded vs

  pub AllFieldsDecoded : Fields → Type 0
  AllFieldsDecoded end = Unit
  AllFieldsDecoded (field k v m) = IsDecoded v × AllFieldsDecoded m

-- A value as `parseSubParameter` yields it: the maps outside lists are `map[string]any`, those in
-- lists are not.
unfoldable mutual
  pub IsLoaded : Value → Type 0
  IsLoaded (obj m) = AllFieldsLoaded m
  IsLoaded (any_map m) = ⊥
  IsLoaded (arr vs) = AllDecoded vs
  IsLoaded _ = Unit

  pub AllFieldsLoaded : Fields → Type 0
  AllFieldsLoaded end = Unit
  AllFieldsLoaded (field k v m) = IsLoaded v × AllFieldsLoaded m

module _ (y : Yaml) where
  mutual
    unfolding IsDecoded

    decoded_back : (v : Value) → IsDecoded v → y.reread v ≡ v
    decoded_back null h = y.reread_null
    decoded_back (bool b) h = y.reread_bool b
    decoded_back (num n) h = y.reread_num n
    decoded_back (str s) h = y.reread_str s
    decoded_back (arr vs) h = y.reread_arr vs ∙ ap arr (decoded_items_back vs h)
    decoded_back (obj m) h = absurd h
    decoded_back (any_map m) h = y.reread_any_map m ∙ ap any_map (decoded_fields_back m h)

    decoded_items_back : (vs : Items) → AllDecoded vs → reread_items y.reread vs ≡ vs
    decoded_items_back no_items h = refl
    decoded_items_back (item v vs) (h, hs) = rw (decoded_back v h, decoded_items_back vs hs) refl

    decoded_fields_back : (m : Fields) → AllFieldsDecoded m → reread_fields y.reread m ≡ m
    decoded_fields_back end h = refl
    decoded_fields_back (field k v m) (h, hs) = rw (decoded_back v h, decoded_fields_back m hs) refl

  mutual
    unfolding IsLoaded with_string_map

    loaded_back : (v : Value) → IsLoaded v → with_string_map (y.reread v) ≡ v
    loaded_back null h = ap with_string_map y.reread_null
    loaded_back (bool b) h = ap with_string_map (y.reread_bool b)
    loaded_back (num n) h = ap with_string_map (y.reread_num n)
    loaded_back (str s) h = ap with_string_map (y.reread_str s)
    loaded_back (arr vs) h = ap with_string_map (y.reread_arr vs) ∙ ap arr (decoded_items_back vs h)
    loaded_back (any_map m) h = absurd h
    loaded_back (obj m) h = ap with_string_map (y.reread_obj m) ∙ ap obj (loaded_fields_back m h)

    loaded_fields_back :
        (m : Fields) → AllFieldsLoaded m → to_string_map (reread_fields y.reread m) ≡ m
    loaded_fields_back end h = refl
    loaded_fields_back (field k v m) (h, hs) = rw (loaded_back v h, loaded_fields_back m hs) refl

  as_map_back :
      (v : Value)
      → IsLoaded v
      → parse_list_value (y.reread (obj (put "type" (str "value") (put "value" v end)))) ≡ ok v
  unfolding parse_list_value parse_sub_parameter put get to_string_map
  as_map_back v h = ap parse_list_value (y.reread_obj _) ∙ ap ok (loaded_back v h)

  value_back : (v : Value) → IsLoaded v → parse_list_value (y.reread (to_writable_value v)) ≡ ok v
  unfolding to_writable_value parse_list_value
  value_back (str s) h = ap parse_list_value (y.reread_str s)
  value_back null h = as_map_back null h
  value_back (bool b) h = as_map_back (bool b) h
  value_back (num n) h = as_map_back (num n) h
  value_back (obj m) h = as_map_back (obj m) h
  value_back (any_map m) h = as_map_back (any_map m) h
  value_back (arr vs) h = as_map_back (arr vs) h

  values_back :
      (vs : List Value)
      → All IsLoaded vs
      → parse_list_values (reread_items y.reread (to_writable_values vs)) ≡ ok vs
  unfolding parse_list_values to_writable_values
  values_back [] h = refl
  values_back (v ∷ vs) (h, hs) = rw (value_back v h, values_back vs hs) refl

  -- When a list parameter is written to YAML and read from it, its map turned into a
  -- `map[string]any`, it is as it was, if each of its values is one that the parser yields: texts are
  -- written as they are and other values as value parameters.
  pub parse-write_list_parameter :
      (ctx : Coordinate) (vs : List Value)
      → All IsLoaded vs
      → (write_list_parameter (list vs) >>= λ m.
          parse_list_parameter
            (record { coordinate = ctx; values = to_string_map (reread_fields y.reread m) }))
        ≡ ok (list vs)
  unfolding write_list_parameter parse_list_parameter get put to_string_map
  parse-write_list_parameter ctx vs h =
      rw (y.reread_arr (to_writable_values vs), values_back vs h) refl
