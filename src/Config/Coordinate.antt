-- ===== src/Config/Coordinate.antt =====
-- pkg/config/coordinate/coordinate.go
use dynatrace_configuration.Base.{String, ◌≡◌, Bool, true, ◌&&◌, ◌↔◌, str_eq, eq_iff, arith}

pub record Coordinate : Type 0 where
  pub project : String
  pub type : String
  pub config_id : String

-- The library's equality of texts as the test `==` of Go on two structs.
unfoldable pub same_coordinate : Coordinate → Coordinate → Bool
same_coordinate c d =
    str_eq c.project d.project && str_eq c.type d.type && str_eq c.config_id d.config_id

pub same_coordinate_iff : (c d : Coordinate) → (same_coordinate c d ≡ true) ↔ (c ≡ d)
unfolding same_coordinate
same_coordinate_iff c d =
    ground (arith, eq_iff c.project d.project, eq_iff c.type d.type, eq_iff c.config_id d.config_id)
