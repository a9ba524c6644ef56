-- ===== src/Base/Order.antt =====
-- `strings.Compare` and `sort.SliceStable` by the text of a key.
use Prim.Native.String.{String, [], ◌∷◌}
use Prim.Native.Char.{code}
use mathlib.Core.Path.{◌≡◌}
use mathlib.Core.Logic.{◌⊎◌, inl, inr, ◌↔◌}
use mathlib.Core.Bool.{Bool, true, false}
use mathlib.Core.List.{List}
use package.dynatrace_configuration.Base.Tests.{if◌then◌else◌, ltb, ◌==◌, Bool-cases}
use package.dynatrace_configuration.Base.Lists.{In}

-- `strings.Compare(s, t) < 0`. The order of UTF-8 bytes is the order of code points.
unfoldable pub less : String → String → Bool
less [] [] = false
less [] (d ∷ t) = true
less (c ∷ s) [] = false
less (c ∷ s) (d ∷ t) =
    let rest = less s t in
    if ltb (code c) (code d) then true else if code c == code d then rest else false

module _ {A : Type 0} where
  -- Places an entry before the entries with a key that is not less.
  unfoldable pub insert_by_key : String × A → List (String × A) → List (String × A)
  insert_by_key e List.[] = List.◌∷◌ e List.[]
  insert_by_key e (List.◌∷◌ f fs) =
      if less f.0 e.0 then List.◌∷◌ f (insert_by_key e fs) else List.◌∷◌ e (List.◌∷◌ f fs)

  -- A stable sort: an entry goes before those with an equal key that stood behind it.
  unfoldable pub sort_by_key : List (String × A) → List (String × A)
  sort_by_key List.[] = List.[]
  sort_by_key (List.◌∷◌ e es) = insert_by_key e (sort_by_key es)

module _ {A : Type 0} where
  in-insert_by_key :
      (x e : String × A) (es : List (String × A)) → In x (insert_by_key e es) ↔ ((x ≡ e) ⊎ In x es)
  unfolding insert_by_key
  in-insert_by_key x e List.[] = ((λ m. m), (λ m. m))
  in-insert_by_key x e (List.◌∷◌ f fs) = elim (Bool-cases (less f.0 e.0)) [
    | inl behind ↦
        let (to, from) = in-insert_by_key x e fs in
        rw behind (
          (λ m. elim m [
            | inl same ↦ inr (inl same)
            | inr later ↦ elim (to later) [ inl new ↦ inl new | inr old ↦ inr (inr old) ]
          ]),
          (λ m. elim m [
            | inl new ↦ inr (from (inl new))
            | inr (inl same) ↦ inl same
            | inr (inr old) ↦ inr (from (inr old))
          ]),
        )
    | inr before ↦ rw before ((λ m. m), (λ m. m))
  ]

  pub in-sort_by_key : (x : String × A) (es : List (String × A)) → In x (sort_by_key es) ↔ In x es
  unfolding sort_by_key
  in-sort_by_key x List.[] = ((λ m. m), (λ m. m))
  in-sort_by_key x (List.◌∷◌ e es) =
      let (to, from) = in-insert_by_key x e (sort_by_key es) in
      let (to_rest, from_rest) = in-sort_by_key x es in
      (
        (λ m. elim (to m) [ inl new ↦ inl new | inr old ↦ inr (to_rest old) ]),
        (λ m. elim m [ inl new ↦ from (inl new) | inr old ↦ from (inr (from_rest old)) ]),
      )
