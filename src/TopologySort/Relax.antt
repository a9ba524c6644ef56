-- ===== src/TopologySort/Relax.antt =====
-- What one pass of the inner loop does to the edges, the degrees and the queue.
use dynatrace_configuration.Base.{
  ℕ, zero, suc, ◌+◌, ◌≤◌, ◌<◌, ◌≡◌, refl, sym, ◌∙◌, Bool, true, false, not, ◌&&◌, List, [], ◌∷◌,
  ◌++◌, ◌==◌, arith, if◌then◌else◌, Bool-cases, In, Distinct, inl, inr, ==_iff, ◌⊎◌, append-nil,
  append_assoc,
}
use dynatrace_configuration.TopologySort.Defs.{
  decrement, is_positive, State, indices_from, visit, relax,
}

pub in-indices_from :
    (p : ℕ → Bool) (i k x : ℕ) → In x (indices_from p i k) → (i ≤ x) × (x < i + k) × (p x ≡ true)
in-indices_from p i zero x h = absurd h
in-indices_from p i (suc k) x h = elim (Bool-cases (p i)) [
  | inl here ↦ first (in-indices_from p (suc i) k x) (rw here at h) here
  | inr skipped ↦
      let (a, b, c) = in-indices_from p (suc i) k x (rw skipped at h) in
      (omega arith, omega arith, c)
]
  where
    first :
        (In x (indices_from p (suc i) k) → (suc i ≤ x) × (x < suc i + k) × (p x ≡ true))
        → (x ≡ i) ⊎ In x (indices_from p (suc i) k)
        → p i ≡ true
        → (i ≤ x) × (x < i + suc k) × (p x ≡ true)
    first rest (inl e) here = (omega arith, omega arith, rw e here)
    first rest (inr m) here = let (a, b, c) = rest m in (omega arith, omega arith, c)

pub indices_from-in :
    (p : ℕ → Bool) (i k x : ℕ) → i ≤ x → x < i + k → p x ≡ true → In x (indices_from p i k)
indices_from-in p i zero x a b c = absurd (omega arith)
indices_from-in p i (suc k) x a b c = elim (Bool-cases (i == x)) [
  | inl same ↦ let e : x ≡ i = sym ((==_iff i x).0 same) in rw (rw e at c) (inl e)
  | inr other ↦ later (indices_from-in p (suc i) k x (ground (arith, ==_iff i x)) (omega arith) c)
]
  where
    later : In x (indices_from p (suc i) k) → In x (indices_from p i (suc k))
    later m = elim (Bool-cases (p i)) [ inl here ↦ rw here (inr m) | inr skipped ↦ rw skipped m ]

pub indices_from-Distinct : (p : ℕ → Bool) (i k : ℕ) → Distinct (indices_from p i k)
indices_from-Distinct p i zero = tt
indices_from-Distinct p i (suc k) = elim (Bool-cases (p i)) [
  | inl here ↦ rw here (
    (λ m. absurd (omega (arith, in-indices_from p (suc i) k i m))),
    indices_from-Distinct p (suc i) k,
  )
  | inr skipped ↦ rw skipped (indices_from-Distinct p (suc i) k)
]

pub indices_from_congr :
    (p q : ℕ → Bool) (i k : ℕ)
    → ((x : ℕ) → i ≤ x → x < i + k → p x ≡ q x)
    → indices_from p i k ≡ indices_from q i k
indices_from_congr p q i zero h = refl
indices_from_congr p q i (suc k) h = rw (
  h i (omega arith) (omega arith),
  indices_from_congr p q (suc i) k (λ x a b. h x (omega arith) (omega arith)),
)

-- The nodes that enter the queue when `cur` is taken from it.
abbrev pub enters : ℕ → State → ℕ → Bool
enters cur s x = s.edges x cur && not (is_positive (decrement (s.degrees x)))

visit_edges :
    (cur i : ℕ) (s : State) (a b : ℕ)
    → (visit cur i s).edges a b ≡ (if (a == i) && (b == cur) then false else s.edges a b)
unfolding visit
visit_edges cur i s a b = ground (arith, ==_iff a i, ==_iff b cur)

visit_degrees :
    (cur i : ℕ) (s : State) (a : ℕ)
    → (visit cur i s).degrees a
      ≡ (if (a == i) && s.edges i cur then decrement (s.degrees a) else s.degrees a)
unfolding visit
visit_degrees cur i s a = ground (arith, ==_iff a i)

visit_nodes :
    (cur i : ℕ) (s : State)
    → (visit cur i s).nodes ≡ (if enters cur s i then s.nodes ++ i ∷ [] else s.nodes)
unfolding visit
visit_nodes cur i s = ground arith

visit_sorted : (cur i : ℕ) (s : State) → (visit cur i s).sorted ≡ s.sorted
unfolding visit
visit_sorted cur i s = ground arith

pub relax_sorted : (cur i k : ℕ) (s : State) → (relax cur i k s).sorted ≡ s.sorted
unfolding relax
relax_sorted cur i zero s = refl
relax_sorted cur i (suc k) s = relax_sorted cur (suc i) k (visit cur i s) ∙ visit_sorted cur i s

relax_edges_before :
    (cur i k : ℕ) (s : State) (a b : ℕ) → a < i → (relax cur i k s).edges a b ≡ s.edges a b
unfolding relax
relax_edges_before cur i zero s a b h = refl
relax_edges_before cur i (suc k) s a b h =
    relax_edges_before cur (suc i) k (visit cur i s) a b (omega arith)
    ∙ ground (arith, visit_edges cur i s a b)

pub relax_edges :
    (cur i k : ℕ) (s : State) (a b : ℕ)
    → i ≤ a
    → a < i + k
    → (relax cur i k s).edges a b ≡ (if b == cur then false else s.edges a b)
unfolding relax
relax_edges cur i zero s a b h l = absurd (omega arith)
relax_edges cur i (suc k) s a b h l = elim (Bool-cases (a == i)) [
  | inl same ↦
      relax_edges_before cur (suc i) k (visit cur i s) a b (ground arith)
      ∙ ground (arith, visit_edges cur i s a b)
  | inr other ↦
      relax_edges cur (suc i) k (visit cur i s) a b (ground arith) (omega arith)
      ∙ ground (arith, visit_edges cur i s a b)
]

relax_degrees_before :
    (cur i k : ℕ) (s : State) (a : ℕ) → a < i → (relax cur i k s).degrees a ≡ s.degrees a
unfolding relax
relax_degrees_before cur i zero s a h = refl
relax_degrees_before cur i (suc k) s a h =
    relax_degrees_before cur (suc i) k (visit cur i s) a (omega arith)
    ∙ ground (arith, visit_degrees cur i s a)

pub relax_degrees :
    (cur i k : ℕ) (s : State) (a : ℕ)
    → i ≤ a
    → a < i + k
    → (relax cur i k s).degrees a ≡ (if s.edges a cur then decrement (s.degrees a) else s.degrees a)
unfolding relax
relax_degrees cur i zero s a h l = absurd (omega arith)
relax_degrees cur i (suc k) s a h l = elim (Bool-cases (a == i)) [
  | inl same ↦
      relax_degrees_before cur (suc i) k (visit cur i s) a (ground arith)
      ∙ ground (arith, visit_degrees cur i s a, ==_iff a i)
  | inr other ↦
      relax_degrees cur (suc i) k (visit cur i s) a (ground arith) (omega arith)
      ∙ ground (arith, visit_degrees cur i s a, visit_edges cur i s a cur)
]

-- The queue grows by the nodes that enter, in the order of their indices.
pub relax_nodes :
    (cur i k : ℕ) (s : State) → (relax cur i k s).nodes ≡ s.nodes ++ indices_from (enters cur s) i k
unfolding relax
relax_nodes cur i zero s = sym (append-nil _)
relax_nodes cur i (suc k) s =
    rw
      (
        relax_nodes cur (suc i) k (visit cur i s),
        visit_nodes cur i s,
        indices_from_congr (enters cur (visit cur i s)) (enters cur s) (suc i) k
            (λ x a b. ground (arith, visit_edges cur i s x cur, visit_degrees cur i s x)),
      )
      (join (enters cur s i) (indices_from (enters cur s) (suc i) k))
  where
    join :
        (b : Bool) (rest : List ℕ)
        → (if b then s.nodes ++ i ∷ [] else s.nodes) ++ rest
          ≡ s.nodes ++ (if b then i ∷ rest else rest)
    join true rest = append_assoc s.nodes (i ∷ []) rest
    join false rest = refl
