-- ===== src/ConfigGraph/Finite.antt =====
-- The interface of a graph builder holds for graphs with finitely many numbered places.
use dynatrace_configuration.Base.{
  ℕ, zero, suc, ◌+◌, ◌<◌, ◌≡◌, refl, sym, ◌∙◌, ap, ◌≢◌, ◌↔◌, ◌⊎◌, inl, inr, Bool, true, false, ◌&&◌,
  ◌||◌, List, [], ◌∷◌, Option, none, some, In, Distinct, ◌==◌, ==_iff, ltb, arith, Bool-cases,
  if◌then◌else◌,
}
use dynatrace_configuration.ConfigGraph.Builder.{ConfigNode, DirectedGraphBuilder}
use dynatrace_configuration.Deploy.Finite.{keep, in-keep, keep-Distinct}
use dynatrace_configuration.Deploy.Graph.{DirectedGraph}

abbrev pub below : ℕ → List ℕ
below zero = []
below (suc n) = n ∷ below n

pub in-below : (i n : ℕ) → In i (below n) ↔ (i < n)
in-below i zero = ((λ m. absurd m), (λ l. omega arith))
in-below i (suc n) = (
  (λ m. elim m [ inl e ↦ omega arith | inr m' ↦ omega (arith, (in-below i n).0 m') ]),
  (λ l. elim (Bool-cases (i == n)) [
    | inl e ↦ inl (ground arith)
    | inr e ↦ inr ((in-below i n).1 (ground arith))
  ]),
)

pub below-Distinct : (n : ℕ) → Distinct (below n)
below-Distinct zero = tt
below-Distinct (suc n) = ((λ m. omega (arith, (in-below n n).0 m)), below-Distinct n)

-- The places below `size`; a place counts when it holds a node with the place's number.
pub record Places : Type 0 where
  pub size : ℕ
  pub place : ℕ → Option ConfigNode
  pub edge : ℕ → ℕ → Bool

abbrev pub node_in : Places → ℕ → Option ConfigNode
node_in g i =
    if ltb i g.size
    then elim (g.place i) [ none ↦ none | some n ↦ if n.node_id == i then some n else none ]
    else none

abbrev pub is_some : Option ConfigNode → Bool
is_some none = false
is_some (some n) = true

abbrev pub present : Places → ℕ → Bool
present g i = is_some (node_in g i)

abbrev pub nodes_in : Places → List ℕ
nodes_in g = keep (present g) (below g.size)

abbrev pub linked : Places → ℕ → ℕ → Bool
linked g a b = g.edge a b && present g a && present g b

abbrev pub drop : Places → ℕ → Places
drop g i = record g { place = λ x. if x == i then none else g.place x }

abbrev pub add : Places → ConfigNode → Option Places
add g n =
    if present g n.node_id
    then none
    else some (record {
      size = g.size + suc n.node_id;
      place = λ x. if n.node_id == x then some n else node_in g x;
      edge = linked g;
    })

abbrev pub link : Places → ConfigNode → ConfigNode → Option Places
link g m n =
    if m.node_id == n.node_id
    then none
    else some (record g { edge = λ a b. g.edge a b || ((a == m.node_id) && (b == n.node_id)) })

pub in-nodes : (g : Places) (i : ℕ) → In i (nodes_in g) ↔ (present g i ≡ true)
in-nodes g i = (
  (λ m. ((in-keep (present g) i (below g.size)).0 m).1),
  (λ e. (in-keep (present g) i (below g.size)).1 ((in-below i g.size).1 (ground arith), e)),
)

abbrev pub places : DirectedGraph
places = record {
  Graph = Places;
  nodes = nodes_in;
  has_edge_from_to = linked;
  from = λ g a. keep (linked g a) (below g.size);
  to = λ g b. keep (λ a. linked g a b) (below g.size);
  remove_node = drop;
  nodes_distinct = λ g. keep-Distinct (present g) (below g.size) (below-Distinct g.size);
  in-from = λ g a b. (
    (λ m. ((in-keep (linked g a) b (below g.size)).0 m).1),
    (λ e. (in-keep (linked g a) b (below g.size)).1 ((in-below b g.size).1 (ground arith), e)),
  );
  in-to = λ g a b. (
    (λ m. ((in-keep (λ x. linked g x b) a (below g.size)).0 m).1),
    (λ e.
        (in-keep (λ x. linked g x b) a (below g.size)).1 ((in-below a g.size).1 (ground arith), e)),
  );
  edge_nodes = λ g a b e. ((in-nodes g a).1 (ground arith), (in-nodes g b).1 (ground arith));
  nodes-remove_node = λ g i a. (
    (λ m.
        let e = (in-nodes (drop g i) a).0 m in
        ((in-nodes g a).1 (ground (arith, ==_iff a i)), (λ same. ground (arith, ==_iff a i)))),
    (λ (m, ne).
        let e = (in-nodes g a).0 m in (in-nodes (drop g i) a).1 (ground (arith, ==_iff a i))),
  );
  edge-remove_node = λ g i a b. ground (arith, ==_iff a i, ==_iff b i);
}

pub node_same_id : (g : Places) (i : ℕ) (n : ConfigNode) → node_in g i ≡ some n → n.node_id ≡ i
node_same_id g i n e = ground arith

pub place_present :
    (g : Places) (i : ℕ) → In i (nodes_in g) ↔ ((n : ConfigNode) × (node_in g i ≡ some n))
place_present g i = (
  (λ m. by_place (node_in g i) refl ((in-nodes g i).0 m)),
  (λ (n, e). (in-nodes g i).1 (ap is_some e)),
)
  where
    by_place :
        (o : Option ConfigNode)
        → node_in g i ≡ o
        → is_some (node_in g i) ≡ true
        → (n : ConfigNode) × (node_in g i ≡ some n)
    by_place none e t = let bad : false ≡ true = sym (ap is_some e) ∙ t in cc
    by_place (some n) e t = (n, e)

pub add_fresh :
    (g : Places) (n : ConfigNode)
    → ¬ In n.node_id (nodes_in g)
    → (h : Places) × (add g n ≡ some h)
      × ((i : ℕ) → node_in h i ≡ (if n.node_id == i then some n else node_in g i))
      × ((a b : ℕ) → linked h a b ≡ linked g a b)
add_fresh g n fresh = elim (Bool-cases (present g n.node_id)) [
  | inl there ↦ absurd (fresh ((in-nodes g n.node_id).1 there))
  | inr absent ↦
      let h : Places = record {
        size = g.size + suc n.node_id;
        place = λ x. if n.node_id == x then some n else node_in g x;
        edge = linked g;
      } in
      let nodes : (i : ℕ) → node_in h i ≡ (if n.node_id == i then some n else node_in g i) =
        λ i. ground arith in
      let old : (i : ℕ) → present g i ≡ true → present h i ≡ true = λ i. ground (arith, nodes i) in
      (h, ground arith, nodes, (λ a b. ground (arith, old a, old b)))
]

pub set_edge_present :
    (g : Places) (m n : ConfigNode)
    → node_in g m.node_id ≡ some m
    → node_in g n.node_id ≡ some n
    → m.node_id ≢ n.node_id
    → (h : Places) × (link g m n ≡ some h)
      × ((i : ℕ) → node_in h i ≡ node_in g i)
      × ((a b : ℕ)
          → (linked h a b ≡ true) ↔ ((linked g a b ≡ true) ⊎ ((a ≡ m.node_id) × (b ≡ n.node_id))))
set_edge_present g m n at_m at_n differ =
    let there_m : present g m.node_id ≡ true = ap is_some at_m in
    let there_n : present g n.node_id ≡ true = ap is_some at_n in
    let apart : (m.node_id == n.node_id) ≡ false = elim (Bool-cases (m.node_id == n.node_id)) [
      | inl e ↦ absurd (differ ((==_iff _ _).0 e))
      | inr e ↦ e
    ] in
    let h : Places = record g {
      edge = λ a b. g.edge a b || ((a == m.node_id) && (b == n.node_id));
    } in
    let both : (a b : ℕ) → a ≡ m.node_id → b ≡ n.node_id → linked h a b ≡ true = λ a b ea eb.
      let there_a : present g a ≡ true = ap (present g) ea ∙ there_m in
      let there_b : present g b ≡ true = ap (present g) eb ∙ there_n in ground arith in
    (
      h,
      rw apart refl,
      (λ i. refl),
      (λ a b. (
        (λ e. elim (Bool-cases (g.edge a b)) [
          | inl old ↦ inl (ground arith)
          | inr new ↦ inr (ground arith, ground arith)
        ]),
        (λ e. elim e [ inl old ↦ ground arith | inr (ea, eb) ↦ both a b ea eb ]),
      )),
    )

abbrev pub places_builder : DirectedGraphBuilder
places_builder = record {
  directed = places;
  new_directed_graph = record { size = 0; place = λ x. none; edge = λ a b. false };
  node = node_in;
  add_node = add;
  set_edge = link;
  nodes-new = λ i m. m;
  node_present = place_present;
  node_same = node_same_id;
  add_node_fresh = add_fresh;
  set_edge_known = set_edge_present;
}
