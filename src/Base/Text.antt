-- ===== src/Base/Text.antt =====
-- Texts: equality as a Boolean test, and dictionaries with text keys as association lists.
use Prim.Native.String.{String}
use mathlib.Core.Path.{◌≡◌, refl}
use mathlib.Core.List.{List, [], ◌∷◌}
use mathlib.Core.Option.{Option, none, some}
use text.Mathlib.Text.{◌==◌ as str_eq}
use text.Mathlib.TextEquality.{eq_iff}
use native.Mathlib.Omega.{arith}
use package.dynatrace_configuration.Base.Tests.{if◌then◌else◌}

-- A Go `map[string]V` as the list of its pairs. Keys are compared as texts, and the first pair of a
-- key counts.
module _ {ℓ} {V : Type ℓ} where
  unfoldable pub lookup : (key : String) → List (String × V) → Option V
  lookup key [] = none
  lookup key ((other, value) ∷ pairs) =
      let later = lookup key pairs in if str_eq other key then some value else later

  unfoldable pub insert : (key : String) (value : V) → List (String × V) → List (String × V)
  insert key value [] = (key, value) ∷ []
  insert key value ((other, before) ∷ pairs) =
      let later = insert key value pairs in
      if str_eq other key then (key, value) ∷ pairs else (other, before) ∷ later

  pub lookup-insert :
      (key asked : String) (value : V) (pairs : List (String × V))
      → lookup asked (insert key value pairs)
        ≡ (if str_eq key asked then some value else lookup asked pairs)
  unfolding lookup insert
  lookup-insert key asked value [] = refl
  lookup-insert key asked value ((other, before) ∷ pairs) = ground (
    arith,
    lookup-insert key asked value pairs,
    eq_iff other asked,
    eq_iff other key,
    eq_iff key asked,
  )
