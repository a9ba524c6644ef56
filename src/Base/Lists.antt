-- ===== src/Base/Lists.antt =====
-- Lists measured and indexed by native numbers, and predicates on lists by recursion.
use Prim.Native.Nat.{ℕ, zero, suc, ◌+◌, ◌<◌}
use mathlib.Core.Path.{◌≡◌, refl, sym, ap}
use mathlib.Core.Logic.{◌⊎◌, inl, inr}
use mathlib.Core.List.{List, [], ◌∷◌, ◌++◌, map, reverse, reverse-cons}
use mathlib.Core.Option.{Option, none, some}
use native.Mathlib.Omega.{arith}
use native.Mathlib.Decide.{ℕ_discrete}

module _ {ℓ} {A : Type ℓ} where
  abbrev pub length : List A → ℕ
  length [] = 0
  length (x ∷ xs) = suc (length xs)

  abbrev pub get_elem? : List A → ℕ → Option A
  get_elem? [] i = none
  get_elem? (x ∷ xs) zero = some x
  get_elem? (x ∷ xs) (suc i) = get_elem? xs i

  abbrev pub All {κ} : (A → Type κ) → List A → Type κ
  All P [] = Unit
  All P (x ∷ xs) = P x × All P xs

  pub length-append : (xs ys : List A) → length (xs ++ ys) ≡ length xs + length ys
  length-append [] ys = omega arith
  length-append (x ∷ xs) ys = omega (arith, length-append xs ys)

module _ {A : Type 0} where
  -- Membership as a sum of equations.
  abbrev pub In : A → List A → Type 0
  In x [] = ⊥
  In x (y ∷ ys) = (x ≡ y) ⊎ In x ys

  abbrev pub Distinct : List A → Type 0
  Distinct [] = Unit
  Distinct (x ∷ xs) = (¬ In x xs) × Distinct xs

  pub in-append : (x : A) (xs ys : List A) → In x (xs ++ ys) → In x xs ⊎ In x ys
  in-append x [] ys h = inr h
  in-append x (y ∷ xs) ys (inl e) = inl (inl e)
  in-append x (y ∷ xs) ys (inr h) = elim (in-append x xs ys h) [
    | inl a ↦ inl (inr a)
    | inr b ↦ inr b
  ]

  pub in-append_left : (x : A) (xs ys : List A) → In x xs → In x (xs ++ ys)
  in-append_left x [] ys h = absurd h
  in-append_left x (y ∷ xs) ys (inl e) = inl e
  in-append_left x (y ∷ xs) ys (inr h) = inr (in-append_left x xs ys h)

  pub in-append_right : (x : A) (xs ys : List A) → In x ys → In x (xs ++ ys)
  in-append_right x [] ys h = h
  in-append_right x (y ∷ xs) ys h = inr (in-append_right x xs ys h)

  pub All-append {κ} : (P : A → Type κ) (xs ys : List A) → All P xs → All P ys → All P (xs ++ ys)
  All-append P [] ys _ h = h
  All-append P (x ∷ xs) ys (p, hs) h = (p, All-append P xs ys hs h)

  pub All-in {κ} : (P : A → Type κ) (x : A) (xs : List A) → All P xs → In x xs → P x
  All-in P x [] _ h = absurd h
  All-in P x (y ∷ ys) (p, _) (inl e) = rw e p
  All-in P x (y ∷ ys) (_, hs) (inr h) = All-in P x ys hs h

  pub All-of_in {κ} : (P : A → Type κ) (xs : List A) → ((x : A) → In x xs → P x) → All P xs
  All-of_in P [] h = tt
  All-of_in P (y ∷ ys) h = (h y (inl refl), All-of_in P ys (λ x m. h x (inr m)))

  pub Distinct-append :
      (xs ys : List A)
      → Distinct xs
      → Distinct ys
      → ((x : A) → In x xs → ¬ In x ys)
      → Distinct (xs ++ ys)
  Distinct-append [] ys _ d _ = d
  Distinct-append (x ∷ xs) ys (fresh, ds) d apart = (
    (λ h. elim (in-append x xs ys h) [ inl a ↦ fresh a | inr b ↦ apart x (inl refl) b ]),
    Distinct-append xs ys ds d (λ y m. apart y (inr m)),
  )

pub dec_in : (x : ℕ) (xs : List ℕ) → In x xs ⊎ (¬ In x xs)
dec_in x [] = inr (λ h. h)
dec_in x (y ∷ ys) = elim (ℕ_discrete x y) [
  | yes e ↦ inl (inl e)
  | no ne ↦ elim (dec_in x ys) [
    | inl m ↦ inl (inr m)
    | inr absent ↦ inr (λ h. elim h [ inl e ↦ ne e | inr m ↦ absent m ])
  ]
]

pub in_reverse : {A : Type 0} (x : A) (xs : List A) → In x xs → In x (reverse xs)
in_reverse x [] m = m
in_reverse x (y ∷ ys) (inl e) =
    rw (reverse-cons y ys) (in-append_right x (reverse ys) (y ∷ []) (inl e))
in_reverse x (y ∷ ys) (inr m) =
    rw (reverse-cons y ys) (in-append_left x (reverse ys) (y ∷ []) (in_reverse x ys m))

pub in_reverse_back : {A : Type 0} (x : A) (xs : List A) → In x (reverse xs) → In x xs
in_reverse_back x [] m = m
in_reverse_back x (y ∷ ys) m =
    elim (in-append x (reverse ys) (y ∷ []) (rw (reverse-cons y ys) at m)) [
      | inl old ↦ inr (in_reverse_back x ys old)
      | inr (inl e) ↦ inl e
      | inr (inr bad) ↦ absurd bad
    ]

module _ {A B : Type 0} (f : A → B) where
  pub in-map : (x : A) (xs : List A) → In x xs → In (f x) (map f xs)
  in-map x [] m = absurd m
  in-map x (y ∷ ys) (inl e) = inl (ap f e)
  in-map x (y ∷ ys) (inr m) = inr (in-map x ys m)

  pub in-map_back : (y : B) (xs : List A) → In y (map f xs) → (x : A) × (y ≡ f x) × In x xs
  in-map_back y [] m = absurd m
  in-map_back y (x ∷ xs) (inl e) = (x, e, inl refl)
  in-map_back y (x ∷ xs) (inr m) = let (z, e, r) = in-map_back y xs m in (z, e, inr r)

module _ {A : Type 0} where
  pub in_of_get_elem? : (xs : List A) (i : ℕ) (x : A) → get_elem? xs i ≡ some x → In x xs
  in_of_get_elem? [] i x e = cc
  in_of_get_elem? (y ∷ ys) zero x e = inl (ground arith)
  in_of_get_elem? (y ∷ ys) (suc i) x e = inr (in_of_get_elem? ys i x e)

  pub get_elem?_of_in :
      (xs : List A) (x : A) → In x xs → (i : ℕ) × (i < length xs) × (get_elem? xs i ≡ some x)
  get_elem?_of_in [] x m = absurd m
  get_elem?_of_in (y ∷ ys) x (inl e) = (0, omega arith, ap some (sym e))
  get_elem?_of_in (y ∷ ys) x (inr m) =
      let (i, l, e) = get_elem?_of_in ys x m in (suc i, omega arith, e)

  pub get_elem?_below :
      (xs : List A) (i : ℕ) (below : i < length xs) → (x : A) × (get_elem? xs i ≡ some x)
  get_elem?_below [] i l = absurd (omega arith)
  get_elem?_below (y ∷ ys) zero l = (y, refl)
  get_elem?_below (y ∷ ys) (suc i) l = get_elem?_below ys i (omega arith)
