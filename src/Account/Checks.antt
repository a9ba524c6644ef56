-- ===== src/Account/Checks.antt =====
-- Go's `error`, which is nil or an error, and the loops that return the first error.
use dynatrace_configuration.Base.{List, [], ◌∷◌, Option, none, some, ◌≡◌, refl, ◌↔◌, arith, All}

-- `if err := a; err != nil { return err }`, and then `b`.
infixr 4 ◌>>>◌
abbrev pub ◌>>>◌ {ℓ} : {E : Type ℓ} → Option E → Option E → Option E
none >>> b = b
some e >>> b = some e

unfoldable pub first_error {ℓ κ} : {A : Type ℓ} {E : Type κ} → (A → Option E) → List A → Option E
first_error check [] = none
first_error check (x ∷ xs) = check x >>> first_error check xs

pub then_none {ℓ} : {E : Type ℓ} (a b : Option E) → ((a >>> b) ≡ none) ↔ ((a ≡ none) × (b ≡ none))
then_none none b = ((λ e. (refl, e)), (λ p. p.1))
then_none (some e) b = ((λ h. ground arith), (λ p. ground (arith, p.0)))

pub first_error-none {ℓ} :
    {A : Type ℓ} {E : Type 0} (check : A → Option E) (xs : List A)
    → (first_error check xs ≡ none) ↔ All (λ x. check x ≡ none) xs
unfolding first_error
first_error-none check [] = ((λ e. tt), (λ u. refl))
first_error-none check (x ∷ xs) =
    let both = then_none (check x) (first_error check xs) in
    let rest = first_error-none check xs in
    ((λ e. let (a, b) = both.0 e in (a, rest.0 b)), (λ (a, b). both.1 (a, rest.1 b)))

-- Two checks in a row pass together.
pub then_iff :
    {E P Q : Type 0} (a b : Option E)
    → (a ≡ none) ↔ P
    → (b ≡ none) ↔ Q
    → ((a >>> b) ≡ none) ↔ (P × Q)
then_iff a b p q = (
  (λ e. let (x, y) = (then_none a b).0 e in (p.0 x, q.0 y)),
  (λ (x, y). (then_none a b).1 (p.1 x, q.1 y)),
)

pub same_for_each :
    {A : Type 0} {P Q : A → Type 0} (xs : List A) → ((x : A) → P x ↔ Q x) → All P xs ↔ All Q xs
same_for_each [] h = ((λ u. u), (λ u. u))
same_for_each (x ∷ xs) h =
    let rest = same_for_each xs h in
    ((λ (p, ps). ((h x).0 p, rest.0 ps)), (λ (q, qs). ((h x).1 q, rest.1 qs)))

pub each_iff :
    {A E : Type 0} {P : A → Type 0} (check : A → Option E) (xs : List A)
    → ((x : A) → (check x ≡ none) ↔ P x)
    → (first_error check xs ≡ none) ↔ All P xs
each_iff check xs h =
    let every = first_error-none check xs in
    let same = same_for_each xs h in ((λ e. same.0 (every.0 e)), (λ p. every.1 (same.1 p)))
