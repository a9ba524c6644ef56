-- ===== src/Base/Cut.antt =====
-- `strings.Cut`, `strings.Contains` and `strings.Split` for a separator of one character.
use Prim.Native.Nat.{ℕ, suc, ◌<◌}
use Prim.Native.Char.{Char, code}
use Prim.Native.String.{String, [], ◌∷◌}
use mathlib.Core.Path.{◌≡◌, refl, subst}
use mathlib.Core.Logic.{inl, inr}
use mathlib.Core.Bool.{Bool, true, false}
use mathlib.Core.List.{List}
use text.Mathlib.Text.{◌==◌ as str_eq}
use text.Mathlib.TextEquality.{eq_iff}
use native.Mathlib.Omega.{arith}
use package.dynatrace_configuration.Base.Tests.{if◌then◌else◌, ◌==◌, Bool-cases}

abbrev pub text_length : String → ℕ
text_length [] = 0
text_length (c ∷ s) = suc (text_length s)

-- The text before the first separator, the text behind it, and whether there is one.
unfoldable pub cut : ℕ → String → String × String × Bool
cut sep [] = ([], [], false)
cut sep (c ∷ s) =
    let (a, b, found) = cut sep s in if code c == sep then ([], s, true) else (c ∷ a, b, found)

unfoldable pub contains : ℕ → String → Bool
contains sep [] = false
contains sep (c ∷ s) = let rest = contains sep s in if code c == sep then true else rest

abbrev push_front : Char → List String → List String
push_front c List.[] = List.◌∷◌ (c ∷ []) List.[]
push_front c (List.◌∷◌ p ps) = List.◌∷◌ (c ∷ p) ps

-- The texts between the separators.
unfoldable pub split : ℕ → String → List String
split sep [] = List.◌∷◌ [] List.[]
split sep (c ∷ s) =
    let parts = split sep s in if code c == sep then List.◌∷◌ [] parts else push_front c parts

pub contains_lem : (sep : ℕ) (s : String) → contains sep s ≡ (cut sep s).2
unfolding contains cut
contains_lem sep [] = refl
contains_lem sep (c ∷ s) = ground (arith, contains_lem sep s)

-- Without a separator the first text is the whole and the second is empty.
pub cut_absent :
    (sep : ℕ) (s : String) → (cut sep s).2 ≡ false → ((cut sep s).0 ≡ s) × ((cut sep s).1 ≡ "")
unfolding cut
cut_absent sep [] e = (refl, refl)
cut_absent sep (c ∷ s) e = ground (arith, cut_absent sep s)

pub split_absent : (sep : ℕ) (s : String) → (cut sep s).2 ≡ false → split sep s ≡ List.◌∷◌ s List.[]
unfolding cut split
split_absent sep [] e = refl
split_absent sep (c ∷ s) e = elim (Bool-cases (code c == sep)) [
  | inl same ↦ ground arith
  | inr other ↦ rw (other, split_absent sep s (ground arith))
]

pub split_found :
    (sep : ℕ) (s : String)
    → (cut sep s).2 ≡ true
    → split sep s ≡ List.◌∷◌ ((cut sep s).0) (split sep ((cut sep s).1))
unfolding cut split
split_found sep [] e = cc
split_found sep (c ∷ s) e = elim (Bool-cases (code c == sep)) [
  | inl same ↦ rw same
  | inr other ↦ rw (other, split_found sep s (ground arith))
]

pub split-cons :
    (sep : ℕ) (s : String) → (p : String) × (ps : List String) × (split sep s ≡ List.◌∷◌ p ps)
split-cons sep s = elim (Bool-cases ((cut sep s).2)) [
  | inl found ↦ (_, _, split_found sep s found)
  | inr absent ↦ (_, _, split_absent sep s absent)
]

pub cut_shorter :
    (sep : ℕ) (s : String) → (cut sep s).2 ≡ true → text_length ((cut sep s).1) < text_length s
unfolding cut
cut_shorter sep [] e = cc
cut_shorter sep (c ∷ s) e = ground (arith, cut_shorter sep s)

pub ne-empty_of_found : (sep : ℕ) (s : String) → (cut sep s).2 ≡ true → str_eq s "" ≡ false
unfolding cut
ne-empty_of_found sep s e = elim (Bool-cases (str_eq s "")) [
  | inl same ↦ absurd (clash (subst (λ t. (cut sep t).2 ≡ true) ((eq_iff s "").0 same) e))
  | inr different ↦ different
]
  where
    clash : false ≡ true → ⊥
    clash f = cc
