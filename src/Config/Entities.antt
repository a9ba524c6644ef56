-- ===== src/Config/Entities.antt =====
-- pkg/config/entities: resolved entities by coordinate, and the lookup of nested properties.
use dynatrace_configuration.Base.{
  ℕ, zero, suc, String, Bool, true, false, List, [], ◌∷◌, Option, none, some, ◌≡◌, refl, arith,
  str_eq, cut, contains, text_length, if◌then◌else◌,
}
use dynatrace_configuration.Base.Value.{Value, Fields, obj, get}
use dynatrace_configuration.Config.Coordinate.{Coordinate, same_coordinate, same_coordinate_iff}

pub record ResolvedEntity : Type 0 where
  pub coordinate : Coordinate
  pub properties : Fields
  pub skip : Bool

-- The map of an `EntityMap`; its lock makes each operation one step.
abbrev pub EntityMap : Type 0
EntityMap = List ResolvedEntity

unfoldable pub put_entity : ResolvedEntity → EntityMap → EntityMap
put_entity e [] = e ∷ []
put_entity e (f ∷ m) =
    if same_coordinate f.coordinate e.coordinate then e ∷ m else f ∷ put_entity e m

unfoldable pub get_resolved_entity : EntityMap → Coordinate → Option ResolvedEntity
get_resolved_entity [] c = none
get_resolved_entity (e ∷ m) c =
    if same_coordinate e.coordinate c then some e else get_resolved_entity m c

abbrev pub as_fields : Value → Option Fields
as_fields (obj m) = some m
as_fields _ = none

abbrev pub dot : ℕ
dot = b'.'

-- The recursion of `ResolvePropValue`, on fuel: each call is on a shorter key.
unfoldable pub resolve_prop_value_from : ℕ → String → Fields → Option Value
resolve_prop_value_from zero key props = none
resolve_prop_value_from (suc fuel) key props =
    let (first, rest, found) = cut dot key in
    elim (get first props) [
      | none ↦ none
      | some p ↦ elim (str_eq rest "") [
        | true ↦ some p
        | false ↦ elim (as_fields p) [
          | none ↦ none
          | some m ↦ elim (contains dot rest) [
            | true ↦ resolve_prop_value_from fuel rest m
            | false ↦ get rest m
          ]
        ]
      ]
    ]

unfoldable pub resolve_prop_value : String → Fields → Option Value
resolve_prop_value key props = resolve_prop_value_from (suc (text_length key)) key props

unfoldable pub get_resolved_property : EntityMap → Coordinate → String → Option Value
get_resolved_property m c property = elim (get_resolved_entity m c) [
  | none ↦ none
  | some e ↦ resolve_prop_value property e.properties
]

-- A lookup sees the last entity that was put at the coordinate.
pub get_resolved_entity-put_entity :
    (e : ResolvedEntity) (c : Coordinate) (m : EntityMap)
    → get_resolved_entity (put_entity e m) c
      ≡ (if same_coordinate e.coordinate c then some e else get_resolved_entity m c)
unfolding get_resolved_entity put_entity
get_resolved_entity-put_entity e c [] = refl
get_resolved_entity-put_entity e c (f ∷ m) = ground (
  arith,
  same_coordinate_iff f.coordinate e.coordinate,
  same_coordinate_iff f.coordinate c,
  same_coordinate_iff e.coordinate c,
  get_resolved_entity-put_entity e c m,
)
