-- ===== src/TopologySort/Tests.antt =====
-- The sort on small graphs, and the theorems at them.
use dynatrace_configuration.Base.{
  ℕ, zero, suc, ◌<◌, ◌≡◌, refl, true, List, [], ◌∷◌, ◌==◌, ◌&&◌, ◌||◌, arith, In, some, ◌↔◌, map,
  All,
}
use dynatrace_configuration.TopologySort.Defs.{
  pos, Matrix, Degrees, TopologySortError, topology_sort, sort_loop, resolve, relax, visit,
  get_all_leaves, collect_errors, get_source_of_incoming_edges,
}
use dynatrace_configuration.TopologySort.Counts.{count_below}
use dynatrace_configuration.TopologySort.Termination.{topology_sort_returns}
use dynatrace_configuration.TopologySort.Order.{
  IsSchedule, topology_sort-IsSchedule, topology_sort_complete,
}
use dynatrace_configuration.TopologySort.Errors.{Explains, topology_sort_errors}

-- 0 waits for 1 and 2, and 1 waits for 2.
abbrev chain : Matrix
chain i j = ((i == 0) && ((j == 1) || (j == 2))) || ((i == 1) && (j == 2))

-- 0 and 1 wait for each other, 2 is free.
abbrev cycle : Matrix
cycle i j = ((i == 0) && (j == 1)) || ((i == 1) && (j == 0))

abbrev degrees_of : Matrix → Degrees
degrees_of m i = pos (count_below (m i) 3)

program : Unit {0}
unfolding topology_sort sort_loop resolve relax visit get_all_leaves collect_errors
    get_source_of_incoming_edges
program = tt

sort_chain : topology_sort 3 chain (degrees_of chain) ≡ some (2 ∷ 1 ∷ 0 ∷ [], [])
unfolding program
sort_chain = refl

abbrev cycle_errors : List TopologySortError
cycle_errors =
    record { on_id = 0; unresolved_incoming_edges_from = 1 ∷ [] }
    ∷ record { on_id = 1; unresolved_incoming_edges_from = 0 ∷ [] }
    ∷ []

sort_cycle : topology_sort 3 cycle (degrees_of cycle) ≡ some (2 ∷ [], cycle_errors)
unfolding program
sort_cycle = refl

topology_sort_returns_example :
    (sorted : List ℕ) × (errs : List TopologySortError) × (topology_sort 3 cycle (degrees_of cycle)
      ≡ some (sorted, errs))
topology_sort_returns_example = topology_sort_returns 3 cycle (degrees_of cycle)

topology_sort-IsSchedule_example : IsSchedule 3 chain (2 ∷ 1 ∷ 0 ∷ [])
topology_sort-IsSchedule_example =
    topology_sort-IsSchedule 3 chain (degrees_of chain) (2 ∷ 1 ∷ 0 ∷ []) (λ i _. refl) sort_chain

abbrev chain_rank : ℕ → ℕ
chain_rank zero = 2
chain_rank (suc zero) = 1
chain_rank _ = 0

chain_falls : (i j : ℕ) → i < 3 → j < 3 → chain i j ≡ true → chain_rank j < chain_rank i
chain_falls zero zero a b e = ground arith
chain_falls zero (suc zero) a b e = omega arith
chain_falls zero (suc (suc j)) a b e = omega arith
chain_falls (suc zero) zero a b e = ground arith
chain_falls (suc zero) (suc zero) a b e = ground arith
chain_falls (suc zero) (suc (suc j)) a b e = omega arith
chain_falls (suc (suc i)) j a b e = ground arith

topology_sort_complete_example :
    (sorted : List ℕ) × (topology_sort 3 chain (degrees_of chain) ≡ some (sorted, []))
topology_sort_complete_example =
    topology_sort_complete 3 chain (degrees_of chain) chain_rank (λ i _. refl) chain_falls

topology_sort_errors_example :
    ((i : ℕ) → In i (map (λ e. e.on_id) cycle_errors) ↔ ((i < 3) × (¬ In i (2 ∷ []))))
    × All (Explains 3 cycle (2 ∷ [])) cycle_errors
topology_sort_errors_example =
    topology_sort_errors 3 cycle (degrees_of cycle) (2 ∷ []) cycle_errors (λ i _. refl) sort_cycle
