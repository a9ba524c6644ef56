-- ===== src/Config/Properties.antt =====
-- `ResolvePropValue` of pkg/config/entities/resolvedentity.go against a walk along a path of keys.
use dynatrace_configuration.Base.{
  ℕ, zero, suc, ◌<◌, String, true, false, List, [], ◌∷◌, Option, none, some, ◌≡◌, refl, sym, ◌∙◌,
  ap, arith, str_eq, eq_iff, cut, contains, split, text_length, contains_lem, cut_absent,
  split_absent, split_found, split-cons, cut_shorter, ne-empty_of_found, Bool-cases, Option-cases,
  inl, inr, if◌then◌else◌,
}
use dynatrace_configuration.Base.Value.{Value, Fields, get}
use dynatrace_configuration.Config.Entities.{
  as_fields, dot, resolve_prop_value_from, resolve_prop_value,
}

abbrev pub walk : List String → Fields → Option Value
walk [] m = none
walk (k ∷ []) m = get k m
walk (k ∷ l ∷ ks) m = elim (get k m) [
  | none ↦ none
  | some p ↦ elim (as_fields p) [ none ↦ none | some n ↦ walk (l ∷ ks) n ]
]

-- One empty key at the end of a longer path is dropped.
abbrev pub trim : List String → List String
trim [] = []
trim (k ∷ []) = k ∷ []
trim (k ∷ l ∷ []) = if str_eq l "" then k ∷ [] else k ∷ l ∷ []
trim (k ∷ l ∷ n ∷ ks) = k ∷ trim (l ∷ n ∷ ks)

trim-cons :
    (k l : String) (ks : List String) → (rest : List String) × (trim (k ∷ l ∷ ks) ≡ k ∷ rest)
trim-cons k l [] = elim (Bool-cases (str_eq l "")) [ inl e ↦ ([], rw e) | inr e ↦ (l ∷ [], rw e) ]
trim-cons k l (n ∷ ks) = (_, refl)

walk_missing :
    (k : String) (rest : List String) (m : Fields) → get k m ≡ none → walk (k ∷ rest) m ≡ none
walk_missing k [] m e = e
walk_missing k (l ∷ ks) m e = ground arith

-- A step into a map, in front of a path that is not empty.
walk_into :
    (k l : String) (ks : List String) (m n : Fields) (p : Value)
    → get k m ≡ some p
    → as_fields p ≡ some n
    → walk (k ∷ l ∷ ks) m ≡ walk (l ∷ ks) n
walk_into k l ks m n p e f = ground arith

walk_blocked :
    (k l : String) (ks : List String) (m : Fields) (p : Value)
    → get k m ≡ some p
    → as_fields p ≡ none
    → walk (k ∷ l ∷ ks) m ≡ none
walk_blocked k l ks m p e f = ground arith

-- The value found behind the first key, and the keys that are left.
abbrev descend : ℕ → String → Value → Option Value
descend fuel rest p = elim (str_eq rest "") [
  | true ↦ some p
  | false ↦ elim (as_fields p) [
    | none ↦ none
    | some m ↦ elim (contains dot rest) [
      | true ↦ resolve_prop_value_from fuel rest m
      | false ↦ get rest m
    ]
  ]
]

descend-walk :
    (fuel : ℕ) (first rest : String) (props : Fields) (p : Value)
    → get first props ≡ some p
    → ((m : Fields) → resolve_prop_value_from fuel rest m ≡ walk (trim (split dot rest)) m)
    → descend fuel rest p ≡ walk (trim (first ∷ split dot rest)) props
descend-walk fuel first rest props p e ih = elim (Bool-cases ((cut dot rest).2)) [
  | inl found ↦
      let (y, ys, tail_parts) = split-cons dot ((cut dot rest).1) in
      let (after, trimmed) = trim-cons ((cut dot rest).0) y ys in
      let parts : split dot rest ≡ (cut dot rest).0 ∷ y ∷ ys =
        split_found dot rest found ∙ ap (λ r. (cut dot rest).0 ∷ r) tail_parts in
      several y ys after parts trimmed found
  | inr absent ↦ one (split_absent dot rest absent) absent
]
  where
    several :
        (y : String) (ys after : List String)
        → split dot rest ≡ (cut dot rest).0 ∷ y ∷ ys
        → trim ((cut dot rest).0 ∷ y ∷ ys) ≡ (cut dot rest).0 ∷ after
        → (cut dot rest).2 ≡ true
        → descend fuel rest p ≡ walk (trim (first ∷ split dot rest)) props
    several y ys after parts trimmed found =
        let nonempty = ne-empty_of_found dot rest found in
        let dotted : contains dot rest ≡ true = contains_lem dot rest ∙ found in
        let keys : trim (first ∷ split dot rest) ≡ first ∷ (cut dot rest).0 ∷ after =
          ap (λ r. trim (first ∷ r)) parts ∙ ap (λ r. first ∷ r) trimmed in
        let inner : trim (split dot rest) ≡ (cut dot rest).0 ∷ after = ap trim parts ∙ trimmed in
        elim (Option-cases (as_fields p)) [
          | inl blocked ↦
              let stops : descend fuel rest p ≡ none = ground arith in
              stops
              ∙ sym (walk_blocked first ((cut dot rest).0) after props p e blocked)
              ∙ sym (ap (λ r. walk r props) keys)
          | inr (m, into) ↦
              let goes_on : descend fuel rest p ≡ resolve_prop_value_from fuel rest m =
                ground arith in
              goes_on
              ∙ ih m
              ∙ ap (λ r. walk r m) inner
              ∙ sym (walk_into first ((cut dot rest).0) after props m p e into)
              ∙ sym (ap (λ r. walk r props) keys)
        ]

    one :
        split dot rest ≡ rest ∷ []
        → (cut dot rest).2 ≡ false
        → descend fuel rest p ≡ walk (trim (first ∷ split dot rest)) props
    one parts absent =
        let plain : contains dot rest ≡ false = contains_lem dot rest ∙ absent in
        rw parts (ground arith)

resolve_prop_value_from_lem :
    (fuel : ℕ) (key : String) (props : Fields)
    → text_length key < fuel
    → resolve_prop_value_from fuel key props ≡ walk (trim (split dot key)) props
unfolding resolve_prop_value_from
resolve_prop_value_from_lem zero key props h = absurd (omega arith)
resolve_prop_value_from_lem (suc fuel) key props h = elim (Bool-cases ((cut dot key).2)) [
  | inl found ↦
      let shorter = cut_shorter dot key found in
      by_first (split_found dot key found)
        (λ m. resolve_prop_value_from_lem fuel ((cut dot key).1) m (omega arith))
  | inr absent ↦
      let (whole, empty) = cut_absent dot key absent in
      rw (split_absent dot key absent) (elim (Option-cases (get key props)) [
        | inl missing ↦ ground (arith, missing, whole)
        | inr (p, there) ↦ ground (arith, there, whole, empty, eq_iff ((cut dot key).1) "")
      ])
]
  where
    by_first :
        split dot key ≡ (cut dot key).0 ∷ split dot ((cut dot key).1)
        → ((m : Fields)
            → resolve_prop_value_from fuel ((cut dot key).1) m
              ≡ walk (trim (split dot ((cut dot key).1))) m)
        → resolve_prop_value_from (suc fuel) key props ≡ walk (trim (split dot key)) props
    by_first parts ih = elim (Option-cases (get ((cut dot key).0) props)) [
      | inl missing ↦
          let (x, xs, more) = split-cons dot ((cut dot key).1) in
          let (after, trimmed) = trim-cons ((cut dot key).0) x xs in
          let keys : trim (split dot key) ≡ (cut dot key).0 ∷ after =
            ap trim (parts ∙ ap (λ r. (cut dot key).0 ∷ r) more) ∙ trimmed in
          rw (keys, walk_missing ((cut dot key).0) after props missing) (ground arith)
      | inr (p, there) ↦
          let falls : resolve_prop_value_from (suc fuel) key props
              ≡ descend fuel ((cut dot key).1) p =
            ground arith in
          falls
          ∙ descend-walk fuel ((cut dot key).0) ((cut dot key).1) props p there ih
          ∙ ap (λ r. walk (trim r) props) (sym parts)
    ]

-- A nested property is looked up by walking along the keys between the dots, where one empty key at
-- the end is dropped: the lookup finds a value exactly when the walk does, and the same one.
pub resolve_prop_value-walk :
    (key : String) (props : Fields)
    → resolve_prop_value key props ≡ walk (trim (split dot key)) props
unfolding resolve_prop_value
resolve_prop_value-walk key props =
    resolve_prop_value_from_lem (suc (text_length key)) key props (omega arith)
