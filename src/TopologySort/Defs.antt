-- ===== src/TopologySort/Defs.antt =====
-- internal/topologysort/topologysort.go: Kahn's algorithm over a dependency matrix.
use dynatrace_configuration.Base.{
  ℕ, zero, suc, ◌+◌, ◌*◌, Bool, true, false, not, ◌&&◌, List, [], ◌∷◌, ◌++◌, map, Option, none,
  some, ◌==◌, if◌then◌else◌,
}

-- A Go `int`; `negsuc n` is -(n + 1).
pub data ℤ : Type 0 where
  pos : ℕ → ℤ
  negsuc : ℕ → ℤ

abbrev pub decrement : ℤ → ℤ
decrement (pos zero) = negsuc 0
decrement (pos (suc n)) = pos n
decrement (negsuc n) = negsuc (suc n)

abbrev pub is_positive : ℤ → Bool
is_positive (pos zero) = false
is_positive (pos (suc n)) = true
is_positive (negsuc n) = false

abbrev pub is_zero : ℤ → Bool
is_zero (pos zero) = true
is_zero (pos (suc n)) = false
is_zero (negsuc n) = false

-- `[][]bool` of n rows and n columns: row, then column. A read or write outside never happens,
-- since every index that the code uses is below n.
abbrev pub Matrix : Type 0
Matrix = ℕ → ℕ → Bool

abbrev pub Degrees : Type 0
Degrees = ℕ → ℤ

abbrev pub clear : Matrix → ℕ → ℕ → Matrix
clear m i j = λ a b. if (a == i) && (b == j) then false else m a b

abbrev pub decrement_at : Degrees → ℕ → Degrees
decrement_at d i = λ a. if a == i then decrement (d a) else d a

pub record State : Type 0 where
  pub nodes : List ℕ
  pub sorted : List ℕ
  pub edges : Matrix
  pub degrees : Degrees

pub record TopologySortError : Type 0 where
  pub on_id : ℕ
  pub unresolved_incoming_edges_from : List ℕ

-- `for i := range n { if p(i) { result = append(result, i) } }`
abbrev pub indices_from : (ℕ → Bool) → ℕ → ℕ → List ℕ
indices_from p i zero = []
indices_from p i (suc k) = let rest = indices_from p (suc i) k in if p i then i ∷ rest else rest

unfoldable pub get_all_leaves : ℕ → Degrees → List ℕ
get_all_leaves n degrees = indices_from (λ i. is_zero (degrees i)) 0 n

unfoldable pub get_source_of_incoming_edges : ℕ → (ℕ → Bool) → List ℕ
get_source_of_incoming_edges n row = indices_from row 0 n

-- The body of `for i := range inDegrees`.
unfoldable pub visit : ℕ → ℕ → State → State
visit cur i s =
    if s.edges i cur
    then record s {
      nodes = if is_positive (decrement (s.degrees i)) then s.nodes else s.nodes ++ i ∷ [];
      edges = clear s.edges i cur;
      degrees = decrement_at s.degrees i;
    }
    else s

-- The rounds i, …, i + k - 1 of that loop.
unfoldable pub relax : ℕ → ℕ → ℕ → State → State
relax cur i zero s = s
relax cur i (suc k) s = relax cur (suc i) k (visit cur i s)

-- The body of `for len(nodes) > 0`.
unfoldable pub resolve : ℕ → ℕ → List ℕ → State → State
resolve n cur rest s = relax cur 0 n (record s { nodes = rest; sorted = s.sorted ++ cur ∷ [] })

-- `none` means that the fuel ran out.
unfoldable pub sort_loop : ℕ → ℕ → State → Option State
sort_loop n zero s = none
sort_loop n (suc fuel) s = elim (s.nodes) [
  | [] ↦ some s
  | cur ∷ rest ↦ sort_loop n fuel (resolve n cur rest s)
]

abbrev pub unresolved : ℕ → Matrix → ℕ → TopologySortError
unresolved n edges i = record {
  on_id = i;
  unresolved_incoming_edges_from = get_source_of_incoming_edges n (edges i);
}

unfoldable pub collect_errors : ℕ → State → List TopologySortError
collect_errors n s =
    map (unresolved n s.edges) (indices_from (λ i. not (is_zero (s.degrees i))) 0 n)

abbrev pub start : ℕ → Matrix → Degrees → State
start n edges degrees = record {
  nodes = get_all_leaves n degrees;
  sorted = [];
  edges = edges;
  degrees = degrees;
}

-- A node enters the queue as a leaf or when an edge is removed, so n + n * n rounds are enough.
unfoldable pub topology_sort : ℕ → Matrix → Degrees → Option (List ℕ × List TopologySortError)
topology_sort n edges degrees = elim (sort_loop n (suc (n + n * n)) (start n edges degrees)) [
  | none ↦ none
  | some s ↦ some (s.sorted, collect_errors n s)
]
