-- ===== src/Config/CoordinateMap.antt =====
-- A Go map with coordinates as keys: at most one pair for each coordinate.
use dynatrace_configuration.Base.{
  List, [], ◌∷◌, Option, none, some, ◌≡◌, refl, sym, ◌∙◌, ap, ◌↔◌, inl, inr, In, arith, Bool-cases,
  if◌then◌else◌,
}
use dynatrace_configuration.Config.Coordinate.{Coordinate, same_coordinate, same_coordinate_iff}

module _ {V : Type 0} where
  unfoldable pub find : Coordinate → List (Coordinate × V) → Option V
  find x [] = none
  find x ((key, v) ∷ m) = let rest = find x m in if same_coordinate key x then some v else rest

  unfoldable pub put : Coordinate → V → List (Coordinate × V) → List (Coordinate × V)
  put x v [] = (x, v) ∷ []
  put x v ((key, w) ∷ m) =
      let rest = put x v m in if same_coordinate key x then (x, v) ∷ m else (key, w) ∷ rest

  pub find-put :
      (x y : Coordinate) (v : V) (m : List (Coordinate × V))
      → find y (put x v m) ≡ (if same_coordinate x y then some v else find y m)
  unfolding find put
  find-put x y v [] = refl
  find-put x y v ((key, w) ∷ m) = ground (
    arith,
    find-put x y v m,
    same_coordinate_iff key y,
    same_coordinate_iff key x,
    same_coordinate_iff x y,
  )

  -- No two pairs have the same key.
  unfoldable pub IsKeyed : List (Coordinate × V) → Type 0
  IsKeyed [] = Unit
  IsKeyed ((key, v) ∷ m) = (find key m ≡ none) × IsKeyed m

  pub put-IsKeyed :
      (x : Coordinate) (v : V) (m : List (Coordinate × V)) → IsKeyed m → IsKeyed (put x v m)
  unfolding find put IsKeyed
  put-IsKeyed x v [] k = (refl, tt)
  put-IsKeyed x v ((key, w) ∷ m) (fresh, k) = elim (Bool-cases (same_coordinate key x)) [
    | inl same ↦
        rw same ((ap (λ z. find z m) (sym ((same_coordinate_iff key x).0 same)) ∙ fresh, k))
    | inr other ↦ rw other (
        (
          ground (arith, find-put x key v m, same_coordinate_iff x key, same_coordinate_iff key x),
          put-IsKeyed x v m k,
        ))
  ]

  -- A map holds exactly the pairs that its lookups find.
  pub in-find :
      (m : List (Coordinate × V)) (x : Coordinate) (v : V)
      → IsKeyed m
      → In (x, v) m ↔ (find x m ≡ some v)
  unfolding find IsKeyed
  in-find [] x v k = ((λ m. absurd m), (λ e. cc))
  in-find ((key, w) ∷ m) x v (fresh, k) = (
    (λ h. elim h [
      | inl same ↦ ground (arith, ap (λ p. p.0) same, ap (λ p. p.1) same, same_coordinate_iff key x)
      | inr there ↦ elim (Bool-cases (same_coordinate key x)) [
        | inl same ↦
            let e = (in-find m x v k).0 there in
            let e' = (same_coordinate_iff key x).0 same in ground (arith, ap (λ z. find z m) e')
        | inr other ↦ let e = (in-find m x v k).0 there in ground arith
      ]
    ]),
    (λ e. elim (Bool-cases (same_coordinate key x)) [
      | inl same ↦
          inl (let e' = (same_coordinate_iff key x).0 same in let e'' : w ≡ v = ground arith in cc)
      | inr other ↦ inr ((in-find m x v k).1 (ground arith))
    ]),
  )
