-- ===== src/Base/Value.antt =====
-- Go's `any` as YAML and JSON decoding yields it, and `map[string]any`.
use Prim.Native.String.{String}
use Prim.Native.String
use mathlib.Core.Path.{◌≡◌, refl}
use mathlib.Core.Bool.{Bool, true, false}
use mathlib.Core.Option.{Option, none, some}
use mathlib.Core.List.{List, [], ◌∷◌}
use text.Mathlib.Text.{◌==◌ as str_eq}
use text.Mathlib.TextEquality.{eq_iff}
use native.Mathlib.Omega.{arith}
use package.dynatrace_configuration.Base.Tests.{if◌then◌else◌}
use package.dynatrace_configuration.Base.Order.{sort_by_key}

-- `num` holds a number by the text that Go prints for it. `obj` is a `map[string]any`, and `any_map` a
-- `map[any]any` whose keys are texts; a YAML map with other keys is not modelled.
mutual
  pub data Fields : Type 0 where
    end : Fields
    field : (key : String) (value : Value) (rest : Fields) → Fields

  pub data Value : Type 0 where
    null : Value
    bool : Bool → Value
    num str : String → Value
    obj any_map : Fields → Value
    arr : Items → Value

  pub data Items : Type 0 where
    no_items : Items
    item : (first : Value) (rest : Items) → Items

-- `v, ok := m[k]`
unfoldable pub get : String → Fields → Option Value
get key end = none
get key (field other v rest) = if str_eq other key then some v else get key rest

-- `m[k] = v`
unfoldable pub put : String → Value → Fields → Fields
put key v end = field key v end
put key v (field other w rest) =
    if str_eq other key then field key v rest else field other w (put key v rest)

pub get-put :
    (key asked : String) (v : Value) (fields : Fields)
    → get asked (put key v fields) ≡ (if str_eq key asked then some v else get asked fields)
unfolding get put
get-put key asked v end = refl
get-put key asked v (field other w rest) =
    ground (arith, get-put key asked v rest, eq_iff other asked, eq_iff other key, eq_iff key asked)

-- `maps.ToStringMap` of internal/maps: a map below a map is converted too, one in a list is not.
unfoldable mutual
  pub to_string_map : Fields → Fields
  to_string_map end = end
  to_string_map (field k v m) = field k (with_string_map v) (to_string_map m)

  pub with_string_map : Value → Value
  with_string_map (any_map m) = obj (to_string_map m)
  with_string_map (obj m) = obj m
  with_string_map null = null
  with_string_map (bool b) = bool b
  with_string_map (num n) = num n
  with_string_map (str s) = str s
  with_string_map (arr xs) = arr xs

infixl 65 ◌<>◌
abbrev pub ◌<>◌ : String → String → String
s <> t = String.◌++◌ s t

abbrev pub join : String → List String → String
join sep [] = ""
join sep (x ∷ []) = x
join sep (x ∷ y ∷ xs) = x <> sep <> join sep (y ∷ xs)

abbrev pub print_entry : String × String → String
print_entry (k, v) = k <> ":" <> v

abbrev pub print_entries : List (String × String) → List String
print_entries [] = []
print_entries (e ∷ es) = print_entry e ∷ print_entries es

-- `fmt.Sprintf("%v", v)`; a map is printed in the order of its keys.
unfoldable mutual
  pub to_string : Value → String
  to_string null = "<nil>"
  to_string (bool true) = "true"
  to_string (bool false) = "false"
  to_string (num n) = n
  to_string (str s) = s
  to_string (arr xs) = "[" <> join " " (item_strings xs) <> "]"
  to_string (obj fs) = "map[" <> join " " (print_entries (sort_by_key (field_strings fs))) <> "]"
  to_string (any_map fs) =
      "map[" <> join " " (print_entries (sort_by_key (field_strings fs))) <> "]"

  pub item_strings : Items → List String
  item_strings no_items = []
  item_strings (item x xs) = to_string x ∷ item_strings xs

  pub field_strings : Fields → List (String × String)
  field_strings end = []
  field_strings (field k v fs) = (k, to_string v) ∷ field_strings fs
