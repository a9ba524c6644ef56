-- ===== src/ConfigGraph/Positions.antt =====
-- What a dependency graph is, and the nodes at the positions of the configurations.
use dynatrace_configuration.Base.{
  ℕ, zero, suc, ◌+◌, ◌≡◌, refl, sym, ◌∙◌, ap, ◌≢◌, ◌↔◌, inl, inr, Bool, true, List, [], ◌∷◌, some,
  In, arith, Option-cases,
}
use dynatrace_configuration.Config.Model.{Config, references}
use dynatrace_configuration.ConfigGraph.Builder.{ConfigNode, DirectedGraphBuilder}
use dynatrace_configuration.ConfigGraph.Defs.{NodeOption, excluded, new_node}
use dynatrace_configuration.ConfigGraph.Nodes.{KeepsNode, node_at}
use dynatrace_configuration.ConfigGraph.Last.{IsKept, IsLast}

module _ (B : DirectedGraphBuilder) (ignore_skipped : Bool) (node_options : List NodeOption) where
  open B use {directed, node}

  abbrev pub left_out : Config → Bool
  left_out c = excluded B ignore_skipped node_options c

  -- The second configuration refers to the first, at another coordinate, and each is the last of
  -- its coordinate.
  abbrev pub IsNeeded : List Config → ℕ → ℕ → Type 0
  IsNeeded cs a b =
      (c : Config) × (d : Config) × IsLast left_out cs a c
      × IsLast left_out cs b d
      × In c.coordinate (references d)
      × (c.coordinate ≢ d.coordinate)

  -- The positions of the list are the ids, and an edge goes from what is needed.
  pub record IsDependencyGraph (cs : List Config) (g : directed.Graph) : Type 0 where
    pub nodes_kept : (i : ℕ) → In i (directed.nodes g) ↔ ((c : Config) × IsKept left_out cs i c)
    pub carries : (i : ℕ) (n : ConfigNode) → node g i ≡ some n → IsKept left_out cs i n.config
    pub edges_needed : (a b : ℕ) → (directed.has_edge_from_to g a b ≡ true) ↔ IsNeeded cs a b

module _ (B : DirectedGraphBuilder) (ignore_skipped : Bool) (node_options : List NodeOption)
    (keeps : KeepsNode node_options) where
  open B use {directed, node}

  pub node_at-some :
      (k : ℕ) (cs : List Config) (a : ℕ) (n : ConfigNode)
      → node_at B ignore_skipped node_options k cs a ≡ some n
      → (m : ℕ) × (a ≡ k + m) × IsKept (left_out B ignore_skipped node_options) cs m n.config
  node_at-some k [] a n e = cc
  node_at-some k (c ∷ cs) a n e =
      elim (Option-cases (node_at B ignore_skipped node_options (suc k) cs a)) [
        | inr (n', later) ↦
            let (m, at, kept) = node_at-some (suc k) cs a n (ground arith) in
            (suc m, omega (arith, at), kept)
        | inl none_later ↦
            let found : new_node B ignore_skipped node_options k c ≡ n = ground arith in
            let it : n.config ≡ c = ap (λ z. z.config) (sym found) ∙ (keeps _).1 in
            (
              0,
              ground arith,
              (ap some (sym it), ap (left_out B ignore_skipped node_options) it ∙ ground arith),
            )
      ]

  pub node_at_kept :
      (k : ℕ) (cs : List Config) (m : ℕ) (c : Config)
      → IsKept (left_out B ignore_skipped node_options) cs m c
      → (n : ConfigNode) × (node_at B ignore_skipped node_options k cs (k + m) ≡ some n)
  node_at_kept k [] m c (at, kept) = cc
  node_at_kept k (d ∷ cs) zero c (at, kept) =
      elim (Option-cases (node_at B ignore_skipped node_options (suc k) cs (k + 0))) [
        | inr (n, later) ↦ (n, ground arith)
        | inl none_later ↦
            let it : d ≡ c = ground arith in
            let kept' = ap (left_out B ignore_skipped node_options) it ∙ kept in
            (new_node B ignore_skipped node_options k d, ground arith)
      ]
  node_at_kept k (d ∷ cs) (suc m) c (at, kept) =
      let (n, e) = node_at_kept (suc k) cs m c (at, kept) in
      let same : k + suc m ≡ suc k + m = omega arith in (n, rw same (rw e refl))

  pub node_at_first :
      (cs : List Config) (m : ℕ) (c : Config)
      → IsKept (left_out B ignore_skipped node_options) cs m c
      → (n : ConfigNode) × (node_at B ignore_skipped node_options 0 cs m ≡ some n)
  node_at_first cs m c kept =
      let (n, e) = node_at_kept 0 cs m c kept in
      let same : m ≡ 0 + m = omega arith in
      (n, ap (node_at B ignore_skipped node_options 0 cs) same ∙ e)
