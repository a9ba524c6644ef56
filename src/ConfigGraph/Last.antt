-- ===== src/ConfigGraph/Last.antt =====
-- The last configuration with a coordinate, in a list and by the position.
use dynatrace_configuration.Base.{
  ℕ, zero, suc, ◌+◌, ◌<◌, ◌≡◌, refl, sym, ◌∙◌, ap, ◌≢◌, inl, inr, Bool, true, false, List, [], ◌∷◌,
  none, some, arith, Bool-cases, Option-cases, ltb, get_elem?,
}
use dynatrace_configuration.Config.Coordinate.{Coordinate, same_coordinate, same_coordinate_iff}
use dynatrace_configuration.Config.Model.{Config}
use dynatrace_configuration.ConfigGraph.Nodes.{last_at}

module _ (left_out : Config → Bool) where
  -- The configuration is at this position and is not left out.
  abbrev pub IsKept : List Config → ℕ → Config → Type 0
  IsKept cs i c = (get_elem? cs i ≡ some c) × (left_out c ≡ false)

  -- No later configuration that is kept has its coordinate.
  abbrev pub IsLast : List Config → ℕ → Config → Type 0
  IsLast cs i c =
      IsKept cs i c × ((j : ℕ) (d : Config) → i < j → IsKept cs j d → d.coordinate ≢ c.coordinate)

  last_at-none :
      (k : ℕ) (cs : List Config) (x : Coordinate)
      → last_at left_out k cs x ≡ none
      → (j : ℕ) (d : Config) → IsKept cs j d
      → d.coordinate ≢ x
  last_at-none k [] x e j d (at, kept) same = cc
  last_at-none k (c ∷ cs) x e zero d (at, kept) same =
      let it : c ≡ d = ground arith in
      let t = (same_coordinate_iff c.coordinate x).1 (ap (λ z. z.coordinate) it ∙ same) in
      absurd (ground arith)
  last_at-none k (c ∷ cs) x e (suc j) d (at, kept) same =
      last_at-none (suc k) cs x (ground arith) j d (at, kept) same

  pub last_at-some :
      (k : ℕ) (cs : List Config) (x : Coordinate) (i : ℕ) (c : Config)
      → last_at left_out k cs x ≡ some (i, c)
      → (m : ℕ) × (i ≡ k + m) × IsLast cs m c × (c.coordinate ≡ x)
  last_at-some k [] x i c e = cc
  last_at-some k (d ∷ cs) x i c e = elim (Option-cases (last_at left_out (suc k) cs x)) [
    | inl none_later ↦
        let at : (same_coordinate d.coordinate x ≡ true) × (left_out d ≡ false) × (k ≡ i) =
          (ground arith, ground arith, ground arith) in
        let same : d ≡ c = ground arith in
        let here : d.coordinate ≡ x = (same_coordinate_iff d.coordinate x).0 at.0 in
        (
          0,
          omega (arith, at.2),
          (
            (ap some same, ap left_out (sym same) ∙ at.1),
            (λ j y l (there, kept) e'. by_position j y l there kept e' none_later here same),
          ),
          ap (λ z. z.coordinate) (sym same) ∙ here,
        )
    | inr ((j, y), later) ↦
        let same : (j, y) ≡ (i, c) = ground arith in
        let (m, e_m, ((at, kept), last), here) =
          last_at-some (suc k) cs x i c (later ∙ ap some same) in
        (
          suc m,
          omega (arith, e_m),
          ((at, kept), (λ p z l (there, kept_z). after p z m l there kept_z last)),
          here,
        )
  ]
    where
      by_position :
          (j : ℕ) (y : Config)
          → 0 < j
          → get_elem? (d ∷ cs) j ≡ some y
          → left_out y ≡ false
          → y.coordinate ≡ c.coordinate
          → last_at left_out (suc k) cs x ≡ none
          → d.coordinate ≡ x
          → d ≡ c
          → ⊥
      by_position zero y l there kept e' none_later here same = omega arith
      by_position (suc j) y l there kept e' none_later here same =
          last_at-none (suc k) cs x none_later j y (there, kept)
            (e' ∙ ap (λ z. z.coordinate) (sym same) ∙ here)

      after :
          (p : ℕ) (z : Config) (m : ℕ)
          → suc m < p
          → get_elem? (d ∷ cs) p ≡ some z
          → left_out z ≡ false
          → ((j : ℕ) (y : Config) → m < j → IsKept cs j y → y.coordinate ≢ c.coordinate)
          → z.coordinate ≢ c.coordinate
      after zero z m l there kept last = absurd (omega arith)
      after (suc p) z m l there kept last = last p z (omega arith) (there, kept)

  pub last_at-IsLast :
      (cs : List Config) (i : ℕ) (c : Config)
      → IsLast cs i c
      → last_at left_out 0 cs c.coordinate ≡ some (i, c)
  last_at-IsLast cs i c (kept, last) = elim (Option-cases (last_at left_out 0 cs c.coordinate)) [
    | inl absent ↦ absurd (last_at-none 0 cs c.coordinate absent i c kept refl)
    | inr ((j, d), found) ↦
        let (m, e, (kept_d, last_d), same) = last_at-some 0 cs c.coordinate j d found in
        elim (Bool-cases (ltb i m)) [
          | inl before ↦ absurd (last m d (ground arith) kept_d same)
          | inr not_before ↦ elim (Bool-cases (ltb m i)) [
            | inl after ↦ absurd (last_d i c (ground arith) kept (sym same))
            | inr not_after ↦
                let level : m ≡ i = ground arith in
                let both : some d ≡ some c = sym kept_d.0 ∙ ap (get_elem? cs) level ∙ kept.0 in
                found
                ∙ ap some (let at : j ≡ i = omega (arith, e, level) in let it : d ≡ c = cc in cc)
          ]
        ]
  ]
