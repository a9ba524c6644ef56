-- ===== src/TopologySort/Invariant.antt =====
-- The invariant of the main loop, and that each round keeps it.
use dynatrace_configuration.Base.{
  ℕ, suc, ◌+◌, ◌<◌, ◌≡◌, refl, ◌∙◌, ap, ◌↔◌, true, false, List, [], ◌∷◌, ◌++◌, ◌==◌, arith,
  if◌then◌else◌, Bool-cases, In, Distinct, inl, inr, ==_iff, ◌⊎◌, append_assoc, in-append,
  in-append_left, in-append_right, Distinct-append, dec_in,
}
use dynatrace_configuration.TopologySort.Defs.{
  ℤ, pos, decrement, is_zero, Matrix, Degrees, State, indices_from, resolve, get_all_leaves, start,
}
use dynatrace_configuration.TopologySort.Counts.{
  count_below, count_below_congr, count_below_off, count_below-eq-zero,
}
use dynatrace_configuration.TopologySort.Relax.{
  in-indices_from, indices_from-in, indices_from-Distinct, enters, relax_sorted, relax_edges,
  relax_degrees, relax_nodes,
}

-- The documented precondition: `degrees i` is the number of edges that row i marks.
abbrev pub Matches : ℕ → Matrix → Degrees → Type 0
Matches n edges degrees = (i : ℕ) → i < n → degrees i ≡ pos (count_below (edges i) n)

-- Every source of an edge into a node of the list stands before it, or in `seen`.
abbrev pub IsOrdered : ℕ → Matrix → List ℕ → List ℕ → Type 0
IsOrdered n edges seen [] = Unit
IsOrdered n edges seen (x ∷ xs) =
    ((j : ℕ) → j < n → edges x j ≡ true → In j seen) × IsOrdered n edges (x ∷ seen) xs

pub record Invariant (n : ℕ) (edges : Matrix) (s : State) : Type 0 where
  pub counted : Matches n s.edges s.degrees
  pub remaining :
      (i j : ℕ) → i < n → j < n → (s.edges i j ≡ true) ↔ ((edges i j ≡ true) × (¬ In j s.sorted))
  pub resolved : (i : ℕ) → In i (s.sorted ++ s.nodes) → (i < n) × (s.degrees i ≡ pos 0)
  pub complete : (i : ℕ) → i < n → s.degrees i ≡ pos 0 → In i (s.sorted ++ s.nodes)
  pub distinct : Distinct (s.sorted ++ s.nodes)
  pub ordered : IsOrdered n edges [] s.sorted

pub IsOrdered-snoc :
    (n : ℕ) (edges : Matrix) (seen xs : List ℕ) (x : ℕ)
    → IsOrdered n edges seen xs
    → ((j : ℕ) → j < n → edges x j ≡ true → In j xs ⊎ In j seen)
    → IsOrdered n edges seen (xs ++ x ∷ [])
IsOrdered-snoc n edges seen [] x h k =
    ((λ j l e. elim (k j l e) [ inl m ↦ absurd m | inr m ↦ m ]), tt)
IsOrdered-snoc n edges seen (y ∷ ys) x (h, hs) k = (
  h,
  IsOrdered-snoc n edges (y ∷ seen) ys x hs λ j l e. elim (k j l e) [
    | inl (inl same) ↦ inr (inl same)
    | inl (inr m) ↦ inl m
    | inr m ↦ inr (inr m)
  ],
)

pub start-Invariant :
    (n : ℕ) (edges : Matrix) (degrees : Degrees)
    → Matches n edges degrees
    → Invariant n edges (start n edges degrees)
unfolding get_all_leaves
start-Invariant n edges degrees h = record {
  counted = h;
  remaining = λ i j a b. ((λ e. (e, λ m. m)), (λ p. p.0));
  resolved = λ i m.
      let (_, l, e) = in-indices_from (λ x. is_zero (degrees x)) 0 n i m in
      (omega arith, zero_of (degrees i) e);
  complete = λ i l e.
      indices_from-in (λ x. is_zero (degrees x)) 0 n i (omega arith) (omega arith) (rw e refl);
  distinct = indices_from-Distinct (λ x. is_zero (degrees x)) 0 n;
  ordered = tt;
}
  where
    zero_of : (d : ℤ) → is_zero d ≡ true → d ≡ pos 0
    zero_of d e = ground arith

-- One round of the loop, at a state that has `cur` at the head of the queue.
module _ {n : ℕ} {edges : Matrix} {s : State} (inv : Invariant n edges s) (cur : ℕ) (rest : List ℕ)
    (queue : s.nodes ≡ cur ∷ rest) where
  abbrev popped : State
  popped = record s { nodes = rest; sorted = s.sorted ++ cur ∷ [] }

  abbrev entering : List ℕ
  entering = indices_from (enters cur popped) 0 n

  all_nodes :
      (resolve n cur rest s).sorted ++ (resolve n cur rest s).nodes
      ≡ (s.sorted ++ s.nodes) ++ entering
  unfolding resolve
  all_nodes =
      rw (relax_sorted cur 0 n popped, relax_nodes cur 0 n popped, queue) (simp append_assoc)

  cur_resolved : (cur < n) × (s.degrees cur ≡ pos 0)
  cur_resolved = inv.resolved cur (rw queue (in-append_right cur s.sorted (cur ∷ rest) (inl refl)))

  no_edge : (i j : ℕ) → i < n → j < n → s.degrees i ≡ pos 0 → s.edges i j ≡ false
  no_edge i j a b z = count_below-eq-zero (s.edges i) n j (ground (arith, inv.counted i a)) b

  new_edges :
      (i j : ℕ)
      → i < n
      → (resolve n cur rest s).edges i j ≡ (if j == cur then false else s.edges i j)
  unfolding resolve
  new_edges i j a = relax_edges cur 0 n popped i j (omega arith) (omega arith)

  new_degrees :
      (i : ℕ)
      → i < n
      → (resolve n cur rest s).degrees i
        ≡ (if s.edges i cur then decrement (s.degrees i) else s.degrees i)
  unfolding resolve
  new_degrees i a = relax_degrees cur 0 n popped i (omega arith) (omega arith)

  -- A node with an edge from `cur` has a positive degree.
  degree_of_edge :
      (i : ℕ)
      → i < n
      → s.edges i cur ≡ true
      → (k : ℕ) × (s.degrees i ≡ pos (suc k)) × (count_below ((resolve n cur rest s).edges i) n ≡ k)
  degree_of_edge i a e =
      let row = (resolve n cur rest s).edges i in
      let off : count_below row n + 1 ≡ count_below (s.edges i) n =
        count_below_off (s.edges i) row cur n cur_resolved.0 e
          (ground (arith, new_edges i cur a, ==_iff cur cur))
          (λ b other. ground (arith, new_edges i b a, ==_iff b cur)) in
      (count_below row n, ground (arith, inv.counted i a, off), refl)

  kept_counted : Matches n (resolve n cur rest s).edges (resolve n cur rest s).degrees
  kept_counted i a = elim (Bool-cases (s.edges i cur)) [
    | inl e ↦ let (k, d, c) = degree_of_edge i a e in new_degrees i a ∙ rw (e, d, c) refl
    | inr e ↦
        new_degrees i a
        ∙ rw e (
            inv.counted i a
            ∙ ap pos (
                count_below_congr (s.edges i) ((resolve n cur rest s).edges i) n
                  (λ j l. ground (arith, new_edges i j a, ==_iff j cur))))
  ]

  kept_remaining :
      (i j : ℕ)
      → i < n
      → j < n
      → ((resolve n cur rest s).edges i j ≡ true)
        ↔ ((edges i j ≡ true) × (¬ In j (resolve n cur rest s).sorted))
  unfolding resolve
  kept_remaining i j a b =
      let old = inv.remaining i j a b in
      rw (relax_sorted cur 0 n popped) (
        (λ e. elim (Bool-cases (j == cur)) [
          | inl same ↦ absurd (clash (ground (arith, new_edges i j a)))
          | inr other ↦
              let (edge, absent) = old.0 (ground (arith, new_edges i j a)) in
              (
                edge,
                λ m. elim (in-append j s.sorted (cur ∷ []) m) [
                  | inl m' ↦ absent m'
                  | inr (inl e') ↦ ground (arith, ==_iff j cur)
                  | inr (inr m') ↦ m'
                ],
              )
        ]),
        (λ (edge, absent).
            let other : ¬ (j ≡ cur) =
              λ e'. absent (in-append_right j s.sorted (cur ∷ []) (inl e')) in
            let still : s.edges i j ≡ true =
              old.1 (edge, λ m. absent (in-append_left j s.sorted (cur ∷ []) m)) in
            ground (arith, new_edges i j a, ==_iff j cur, still)),
      )
    where
      clash : false ≡ true → ⊥
      clash e = cc

  kept_resolved :
      (i : ℕ)
      → In i ((resolve n cur rest s).sorted ++ (resolve n cur rest s).nodes)
      → (i < n) × ((resolve n cur rest s).degrees i ≡ pos 0)
  kept_resolved i m = elim (in-append i (s.sorted ++ s.nodes) entering (rw all_nodes at m)) [
    | inl old ↦
        let (a, z) = inv.resolved i old in
        (a, new_degrees i a ∙ rw (no_edge i cur a cur_resolved.0 z) z)
    | inr new ↦
        let (_, a, e) = in-indices_from (enters cur popped) 0 n i new in
        let edge : s.edges i cur ≡ true = ground arith in
        let (k, d, c) = degree_of_edge i (omega arith) edge in
        (omega arith, new_degrees i (omega arith) ∙ ground arith)
  ]

  kept_complete :
      (i : ℕ)
      → i < n
      → (resolve n cur rest s).degrees i ≡ pos 0
      → In i ((resolve n cur rest s).sorted ++ (resolve n cur rest s).nodes)
  kept_complete i a z = rw all_nodes (elim (Bool-cases (s.edges i cur)) [
    | inl e ↦
        let (k, d, c) = degree_of_edge i a e in
        in-append_right i (s.sorted ++ s.nodes) entering (
          indices_from-in (enters cur popped) 0 n i (omega arith) (omega arith)
            (ground (arith, new_degrees i a)))
    | inr e ↦
        in-append_left i (s.sorted ++ s.nodes) entering
          (inv.complete i a (ground (arith, new_degrees i a)))
  ])

  kept-Distinct : Distinct ((resolve n cur rest s).sorted ++ (resolve n cur rest s).nodes)
  kept-Distinct = rw all_nodes (
      Distinct-append (s.sorted ++ s.nodes) entering inv.distinct
        (indices_from-Distinct (enters cur popped) 0 n) apart)
    where
      apart : (x : ℕ) → In x (s.sorted ++ s.nodes) → ¬ In x entering
      apart x old new =
          let (a, z) = inv.resolved x old in
          let (_, _, e) = in-indices_from (enters cur popped) 0 n x new in
          let absent = no_edge x cur a cur_resolved.0 z in ground arith

  kept-IsOrdered : IsOrdered n edges [] (resolve n cur rest s).sorted
  unfolding resolve
  kept-IsOrdered = rw (relax_sorted cur 0 n popped) (
      IsOrdered-snoc n edges [] s.sorted cur inv.ordered λ j l e. elim (dec_in j s.sorted) [
        | inl m ↦ inl m
        | inr absent ↦
            let still = (inv.remaining cur j cur_resolved.0 l).1 (e, absent) in
            let none_left = no_edge cur j cur_resolved.0 l cur_resolved.1 in ground arith
      ])

  pub resolve-Invariant : Invariant n edges (resolve n cur rest s)
  resolve-Invariant = record {
    counted = kept_counted;
    remaining = kept_remaining;
    resolved = kept_resolved;
    complete = kept_complete;
    distinct = kept-Distinct;
    ordered = kept-IsOrdered;
  }
