-- ===== src/TopologySort/Stopped.antt =====
-- The state in which the main loop stops, seen through the result of the sort.
use dynatrace_configuration.Base.{
  ℕ, zero, suc, ◌+◌, ◌*◌, ◌<◌, ◌≡◌, refl, subst, ◌↔◌, true, not, List, [], ◌∷◌, ◌++◌, arith,
  Bool-cases, In, inl, inr, Option, some, none, append-nil, dec_in,
}
use dynatrace_configuration.TopologySort.Defs.{
  pos, is_zero, Matrix, Degrees, State, TopologySortError, indices_from, resolve, sort_loop, start,
  topology_sort, collect_errors,
}
use dynatrace_configuration.TopologySort.Counts.{count_below, count_below-pos}
use dynatrace_configuration.TopologySort.Relax.{in-indices_from, indices_from-in}
use dynatrace_configuration.TopologySort.Invariant.{
  Matches, Invariant, start-Invariant, resolve-Invariant,
}

sort_loop-Invariant :
    (n fuel : ℕ) (edges : Matrix) (s final : State)
    → Invariant n edges s
    → sort_loop n fuel s ≡ some final
    → Invariant n edges final × (final.nodes ≡ [])
unfolding sort_loop
sort_loop-Invariant n zero edges s final inv e = cc
sort_loop-Invariant n (suc fuel) edges s final inv e = by_queue (s.nodes) refl λ cur rest queue r.
    sort_loop-Invariant n fuel edges (resolve n cur rest s) final
      (resolve-Invariant inv cur rest queue) r
  where
    by_queue :
        (q : List ℕ)
        → s.nodes ≡ q
        → ((cur : ℕ) (rest : List ℕ)
            → s.nodes ≡ cur ∷ rest
            → sort_loop n fuel (resolve n cur rest s) ≡ some final
            → Invariant n edges final × (final.nodes ≡ []))
        → Invariant n edges final × (final.nodes ≡ [])
    by_queue [] q k =
        let same : s ≡ final = ground arith in (subst (Invariant n edges) same inv, ground arith)
    by_queue (cur ∷ rest) q k = k cur rest q (ground arith)

-- The state in which the loop stops, seen through the result of `topology_sort`.
pub record Stopped (n : ℕ) (edges : Matrix) (sorted : List ℕ) (errs : List TopologySortError)
    : Type 0 where
  pub final : State
  pub inv : Invariant n edges final
  pub empty : final.nodes ≡ []
  pub same_sorted : final.sorted ≡ sorted
  pub same_errs : collect_errors n final ≡ errs

pub topology_sort-Stopped :
    (n : ℕ) (edges : Matrix) (degrees : Degrees) (sorted : List ℕ) (errs : List TopologySortError)
    → Matches n edges degrees
    → topology_sort n edges degrees ≡ some (sorted, errs)
    → Stopped n edges sorted errs
unfolding topology_sort
topology_sort-Stopped n edges degrees sorted errs m e =
    go (sort_loop n (suc (n + n * n)) (start n edges degrees)) refl
  where
    go :
        (o : Option State)
        → sort_loop n (suc (n + n * n)) (start n edges degrees) ≡ o
        → Stopped n edges sorted errs
    go none q = ground arith
    go (some final) q =
        let (inv, empty) =
          sort_loop-Invariant n _ edges (start n edges degrees) final
            (start-Invariant n edges degrees m) q in
        record {
          final = final;
          inv = inv;
          empty = empty;
          same_sorted = ground arith;
          same_errs = ground arith;
        }

module _ {n : ℕ} {edges : Matrix} {sorted : List ℕ} {errs : List TopologySortError}
    (st : Stopped n edges sorted errs) where
  pub all_sorted : st.final.sorted ++ st.final.nodes ≡ sorted
  all_sorted = rw (st.empty, append-nil st.final.sorted) st.same_sorted

  -- A node is sorted exactly when its degree has fallen to zero.
  pub sorted_iff : (i : ℕ) → In i sorted ↔ ((i < n) × (st.final.degrees i ≡ pos 0))
  sorted_iff i = (
    (λ m. st.inv.resolved i (rw all_sorted m)),
    (λ (a, z). rw all_sorted at (st.inv.complete i a z)),
  )

  pub is_zero_of_not_reported :
      (i : ℕ)
      → i < n
      → ¬ In i (indices_from (λ x. not (is_zero (st.final.degrees x))) 0 n)
      → st.final.degrees i ≡ pos 0
  is_zero_of_not_reported i a absent = elim (Bool-cases (is_zero (st.final.degrees i))) [
    | inl z ↦ ground arith
    | inr nz ↦ absurd (
        absent (
          indices_from-in (λ x. not (is_zero (st.final.degrees x))) 0 n i (omega arith)
            (omega arith) (rw nz refl)))
  ]

  pub reported_iff :
      (i : ℕ)
      → In i (indices_from (λ x. not (is_zero (st.final.degrees x))) 0 n)
        ↔ ((i < n) × (¬ In i sorted))
  reported_iff i = (
    (λ m.
        let (_, a, e) = in-indices_from (λ x. not (is_zero (st.final.degrees x))) 0 n i m in
        (omega arith, λ s. let (_, z) = (sorted_iff i).0 s in ground arith)),
    (λ (a, absent). elim (Bool-cases (is_zero (st.final.degrees i))) [
      | inl z ↦ absurd (absent ((sorted_iff i).1 (a, ground arith)))
      | inr nz ↦
          indices_from-in (λ x. not (is_zero (st.final.degrees x))) 0 n i (omega arith)
            (omega arith) (rw nz refl)
    ]),
  )

  pub waits_for :
      (i : ℕ) → i < n → ¬ In i sorted → (j : ℕ) × (j < n) × (edges i j ≡ true) × (¬ In j sorted)
  waits_for i a absent =
      let positive : 0 < count_below (st.final.edges i) n =
        elim (Bool-cases (is_zero (st.final.degrees i))) [
          | inl z ↦ absurd (absent ((sorted_iff i).1 (a, ground arith)))
          | inr nz ↦ ground (arith, st.inv.counted i a)
        ] in
      let (j, b, e) = count_below-pos (st.final.edges i) n positive in
      let (edge, waiting) = (st.inv.remaining i j a b).0 e in
      (j, b, edge, rw st.same_sorted at waiting)

  -- With a rank that each edge lowers nothing can be left: the node of least rank has no source.
  pub all_sorted_of_rank :
      (rank : ℕ → ℕ)
      → ((i j : ℕ) → i < n → j < n → edges i j ≡ true → rank j < rank i)
      → (bound i : ℕ) → rank i < bound
      → i < n
      → In i sorted
  all_sorted_of_rank rank falls zero i r a = absurd (omega arith)
  all_sorted_of_rank rank falls (suc bound) i r a = elim (dec_in i sorted) [
    | inl m ↦ m
    | inr absent ↦
        let (j, b, edge, waiting) = waits_for i a absent in
        let less = falls i j a b edge in
        absurd (waiting (all_sorted_of_rank rank falls bound j (omega arith) b))
  ]
