-- ===== src/TopologySort/Termination.antt =====
-- The main loop ends: each round takes a node from the queue, and a node enters it only with an
-- edge that is removed.
use dynatrace_configuration.Base.{
  ℕ, zero, suc, ◌+◌, ◌*◌, ◌≤◌, ◌<◌, ◌≡◌, refl, ◌∙◌, ap, Bool, true, false, List, [], ◌∷◌, ◌++◌,
  ◌==◌, arith, Bool-cases, In, inl, inr, ==_iff, length, length-append, in-append, some,
  if◌then◌else◌,
}
use dynatrace_configuration.TopologySort.Defs.{
  Matrix, Degrees, State, TopologySortError, indices_from, get_all_leaves, is_zero, relax, resolve,
  sort_loop, start, topology_sort, collect_errors,
}
use dynatrace_configuration.TopologySort.Counts.{
  count_below, total, count_below_congr, count_below_off, count_below-le,
}
use dynatrace_configuration.TopologySort.Relax.{in-indices_from, enters, relax_edges, relax_nodes}

length-indices_from :
    (p : ℕ → Bool) (i k : ℕ) → length (indices_from p i k) + count_below p i ≡ count_below p (i + k)
length-indices_from p i zero =
    let e : i ≡ i + 0 = omega arith in omega (arith, ap (count_below p) e)
length-indices_from p i (suc k) =
    let e : suc i + k ≡ i + suc k = omega arith in
    ground (arith, length-indices_from p (suc i) k) ∙ ap (count_below p) e

count_below_mono :
    (p q : ℕ → Bool) (n : ℕ)
    → ((j : ℕ) → p j ≡ true → q j ≡ true)
    → count_below p n ≤ count_below q n
count_below_mono p q zero h = omega arith
count_below_mono p q (suc n) h = ground (arith, h n, count_below_mono p q n h)

total-le : (m : Matrix) (n k : ℕ) → total m n k ≤ k * n
total-le m n zero = omega arith
total-le m n (suc k) = omega (arith, total-le m n k, count_below-le (m k) n)

-- Clearing the column `cur` takes its edges from the total.
total_cleared :
    (m m' : Matrix) (n cur k : ℕ)
    → cur < n
    → ((i j : ℕ) → i < k → m' i j ≡ (if j == cur then false else m i j))
    → total m' n k + count_below (λ i. m i cur) k ≡ total m n k
total_cleared m m' n cur zero l h = refl
total_cleared m m' n cur (suc k) l h =
    let rest = total_cleared m m' n cur k l (λ i j a. h i j (omega arith)) in
    elim (Bool-cases (m k cur)) [
      | inl e ↦
          let row =
            count_below_off (m k) (m' k) cur n l e
              (ground (arith, h k cur (omega arith), ==_iff cur cur))
              (λ b other. ground (arith, h k b (omega arith), ==_iff b cur)) in
          ground (arith, row, rest)
      | inr e ↦
          let row =
            count_below_congr (m' k) (m k) n
              (λ j a. ground (arith, h k j (omega arith), ==_iff j cur)) in
          ground (arith, row, rest)
    ]

abbrev measure : ℕ → State → ℕ
measure n s = length s.nodes + total s.edges n n

abbrev AllBelow : ℕ → List ℕ → Type 0
AllBelow n xs = (x : ℕ) → In x xs → x < n

module _ (n : ℕ) (s : State) (cur : ℕ) (rest : List ℕ) (queue : s.nodes ≡ cur ∷ rest)
    (below : AllBelow n s.nodes) where
  abbrev popped : State
  popped = record s { nodes = rest; sorted = s.sorted ++ cur ∷ [] }

  resolve-AllBelow : AllBelow n (resolve n cur rest s).nodes
  unfolding resolve
  resolve-AllBelow x m = elim (in-append x rest _ (rw (relax_nodes cur 0 n popped) at m)) [
    | inl old ↦ below x (rw queue (inr old))
    | inr new ↦ omega (arith, in-indices_from (enters cur popped) 0 n x new)
  ]

  resolve-measure : measure n (resolve n cur rest s) + 1 ≤ measure n s
  unfolding resolve
  resolve-measure =
      let cur_below : cur < n = below cur (rw queue (inl refl)) in
      let cleared : total (relax cur 0 n popped).edges n n + count_below (λ i. s.edges i cur) n
          ≡ total s.edges n n =
        total_cleared s.edges (relax cur 0 n popped).edges n cur n cur_below
          (λ i j a. relax_edges cur 0 n popped i j (omega arith) (omega arith)) in
      let entered = length-indices_from (enters cur popped) 0 n in
      let few = count_below_mono (enters cur popped) (λ i. s.edges i cur) n (λ j e. ground arith) in
      let plus : 0 + n ≡ n = omega arith in
      let same = ap (count_below (enters cur popped)) plus in
      rw (queue, relax_nodes cur 0 n popped, length-append rest)
        (omega (arith, cleared, entered, few, same))

sort_loop_total :
    (n fuel : ℕ) (s : State)
    → AllBelow n s.nodes
    → measure n s < fuel
    → (final : State) × (sort_loop n fuel s ≡ some final)
unfolding sort_loop
sort_loop_total n zero s below h = absurd (omega arith)
sort_loop_total n (suc fuel) s below h = by_queue (s.nodes) refl λ cur rest queue.
    let less = resolve-measure n s cur rest queue below in
    sort_loop_total n fuel (resolve n cur rest s) (resolve-AllBelow n s cur rest queue below)
      (omega arith)
  where
    by_queue :
        (q : List ℕ)
        → s.nodes ≡ q
        → ((cur : ℕ) (rest : List ℕ)
            → s.nodes ≡ cur ∷ rest
            → (final : State) × (sort_loop n fuel (resolve n cur rest s) ≡ some final))
        → (final : State) × (sort_loop n (suc fuel) s ≡ some final)
    by_queue [] e k = (s, ground arith)
    by_queue (cur ∷ rest) e k = let (final, r) = k cur rest e in (final, ground arith)

-- The fuel of `topology_sort` suffices, whatever the matrix and the degrees.
pub start_total :
    (n : ℕ) (edges : Matrix) (degrees : Degrees)
    → (final : State) × (sort_loop n (suc (n + n * n)) (start n edges degrees) ≡ some final)
unfolding get_all_leaves
start_total n edges degrees =
    let leaves = length-indices_from (λ i. is_zero (degrees i)) 0 n in
    let few = count_below-le (λ i. is_zero (degrees i)) (0 + n) in
    sort_loop_total n (suc (n + n * n)) (start n edges degrees)
      (λ x m. omega (arith, in-indices_from (λ i. is_zero (degrees i)) 0 n x m))
      (omega (arith, leaves, few, total-le edges n n))

-- The sort returns for every matrix and every list of degrees, also where the precondition fails:
-- the loop never runs out of rounds.
pub topology_sort_returns :
    (n : ℕ) (edges : Matrix) (degrees : Degrees)
    → (sorted : List ℕ) × (errs : List TopologySortError) × (topology_sort n edges degrees
        ≡ some (sorted, errs))
unfolding topology_sort
topology_sort_returns n edges degrees =
    let (final, e) = start_total n edges degrees in
    (final.sorted, collect_errors n final, rw (e, topology_sort))
