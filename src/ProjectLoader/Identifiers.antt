-- ===== src/ProjectLoader/Identifiers.antt =====
-- What the checks on identifiers mean.
use dynatrace_configuration.Base.{
  String, true, ◌≡◌, refl, sym, ◌↔◌, inl, inr, List, [], ◌∷◌, In, All, Distinct, map, arith, str_eq,
  eq_iff, Bool-cases,
}
use dynatrace_configuration.Config.Model.{Config}
use dynatrace_configuration.Project.{is_listed}
use dynatrace_configuration.ProjectLoader.Defs.{
  to_fully_qualified_config_identifier, find_duplicated_config_identifiers,
}

pub is_listed_iff : (x : String) (ys : List String) → (is_listed x ys ≡ true) ↔ In x ys
is_listed_iff x [] = ((λ e. cc), (λ m. absurd m))
is_listed_iff x (y ∷ ys) =
    let (sound, complete) = is_listed_iff x ys in
    (
      (λ e. elim (Bool-cases (str_eq y x)) [
        | inl t ↦ inl (sym ((eq_iff y x).0 t))
        | inr f ↦ inr (sound (ground arith))
      ]),
      (λ m. elim m [
        | inl e ↦ let t = (eq_iff y x).1 (sym e) in ground arith
        | inr m' ↦ let t = complete m' in ground arith
      ]),
    )

abbrev pub identifiers : List Config → List String
identifiers cs = map to_fully_qualified_config_identifier cs

-- No identifier is among those that were seen.
abbrev IsNew : List String → List String → Type 0
IsNew seen ids = All (λ id. ¬ In id seen) ids

IsNew-after :
    (id : String) (seen ids : List String)
    → IsNew (id ∷ seen) ids ↔ (IsNew seen ids × (¬ In id ids))
IsNew-after id seen [] = ((λ u. (tt, λ m. m)), (λ u. tt))
IsNew-after id seen (x ∷ ids) =
    let (sound, complete) = IsNew-after id seen ids in
    (
      (λ (out, rest).
          let (rest', absent) = sound rest in
          (
            ((λ m. out (inr m)), rest'),
            (λ m. elim m [ inl e ↦ out (inl (sym e)) | inr m' ↦ absent m' ]),
          )),
      (λ ((out, rest), absent). (
        (λ m. elim m [ inl e ↦ absent (inl (sym e)) | inr m' ↦ out m' ]),
        complete (rest, λ m. absent (inr m)),
      )),
    )

find_duplicated_from :
    (seen : List String) (cs : List Config)
    → (find_duplicated_config_identifiers seen cs ≡ [])
      ↔ (IsNew seen (identifiers cs) × Distinct (identifiers cs))
unfolding find_duplicated_config_identifiers
find_duplicated_from seen [] = ((λ e. (tt, tt)), (λ u. refl))
find_duplicated_from seen (c ∷ cs) =
    let id = to_fully_qualified_config_identifier c in
    let (sound, complete) = find_duplicated_from (id ∷ seen) cs in
    let (split, join) = IsNew-after id seen (identifiers cs) in
    let (found, lost) = is_listed_iff id seen in
    elim (Bool-cases (is_listed id seen)) [
      | inl t ↦ ((λ e. absurd (ground arith)), (λ ((out, _), _). absurd (out (found t))))
      | inr f ↦ (
        (λ e.
            let (fresh, distinct) = sound (ground arith) in
            let (fresh', absent) = split fresh in
            let out : ¬ In id seen = λ m. let t = lost m in ground arith in
            ((out, fresh'), (absent, distinct))),
        (λ ((_, fresh), (absent, distinct)).
            let rest = complete (join (fresh, absent), distinct) in ground arith),
      )
    ]

-- `findDuplicatedConfigIdentifiers` reports nothing exactly when the identifiers of the
-- configurations, of group, environment and coordinate, are pairwise different.
pub find_duplicated_config_identifiers_iff :
    (cs : List Config) → (find_duplicated_config_identifiers [] cs ≡ []) ↔ Distinct (identifiers cs)
find_duplicated_config_identifiers_iff cs =
    let (sound, complete) = find_duplicated_from [] cs in
    ((λ e. (sound e).1), (λ d. complete (all_new (identifiers cs), d)))
  where
    all_new : (ids : List String) → IsNew [] ids
    all_new [] = tt
    all_new (id ∷ ids) = ((λ m. m), all_new ids)
