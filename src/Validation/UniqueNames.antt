-- ===== src/Validation/UniqueNames.antt =====
-- What the state of the classic validator keeps, and which lists of configurations it accepts.
use dynatrace_configuration.Base.{
  String, Bool, true, false, ◌&&◌, ◌≡◌, refl, sym, ◌∙◌, ap, subst, ◌↔◌, ◌⊎◌, Option, inl, inr, List,
  [], ◌∷◌, ◌++◌, none, some, arith, insert, lookup-insert, str_eq, eq_iff, Bool-cases, Option-cases,
  if◌then◌else◌,
}
use dynatrace_configuration.Config.Model.{Config}
use dynatrace_configuration.Config.Resolve.{Runtime}
use dynatrace_configuration.Validation.Classic.{
  Comparison, ApiInfo, Verdict, accepted, duplicate_of, panicked, UniqueNames, seen_at, apis_at,
  record_seen, scopes_are_equal, duplicate_names, first_duplicate, unique_api, validate_classic,
}

seen_at-record_seen :
    (env api e a : String) (c : Config) (names : UniqueNames)
    → seen_at e a (record_seen env api c names) ≡ (
        if str_eq env e && str_eq api a then seen_at env api names ++ c ∷ [] else seen_at e a names)
unfolding seen_at record_seen
seen_at-record_seen env api e a c names = ground (
  arith,
  lookup-insert env e (insert api (seen_at env api names ++ c ∷ []) (apis_at env names)) names,
  lookup-insert api a (seen_at env api names ++ c ∷ []) (apis_at env names),
  eq_iff env e,
  eq_iff api a,
)

verdict_cases :
    (v : Verdict) → (v ≡ accepted) ⊎ (((d : Config) × (v ≡ duplicate_of d)) ⊎ (v ≡ panicked))
verdict_cases accepted = inl refl
verdict_cases (duplicate_of d) = inr (inl (d, refl))
verdict_cases panicked = inr (inr refl)

module _ (run : Runtime) (cmp : Comparison) where
  -- Whether the scopes are equal and the names duplicate, if the scopes can be compared.
  abbrev pub clashes : Config → Config → Option Bool
  clashes c d = elim (scopes_are_equal run cmp c d) [
    | none ↦ none
    | some same ↦ some (same && duplicate_names run cmp c d)
  ]

  first_duplicate-append :
      (c d : Config) (ds : List Config)
      → (first_duplicate run cmp c (ds ++ d ∷ []) ≡ accepted)
        ↔ ((first_duplicate run cmp c ds ≡ accepted) × (clashes c d ≡ some false))
  unfolding first_duplicate
  first_duplicate-append c d [] = elim (Option-cases (scopes_are_equal run cmp c d)) [
    | inl out ↦ ((λ e. absurd (ground arith)), (λ (_, e). absurd (ground arith)))
    | inr (same, there) ↦ elim (Bool-cases (same && duplicate_names run cmp c d)) [
      | inl t ↦ ((λ e. absurd (ground arith)), (λ (_, e). absurd (ground arith)))
      | inr f ↦ ((λ e. (refl, ground arith)), (λ h. ground arith))
    ]
  ]
  first_duplicate-append c d (x ∷ ds) =
      let (sound, complete) = first_duplicate-append c d ds in
      elim (Option-cases (scopes_are_equal run cmp c x)) [
        | inl out ↦ ((λ e. absurd (ground arith)), (λ (e, _). absurd (ground arith)))
        | inr (same, there) ↦ elim (Bool-cases (same && duplicate_names run cmp c x)) [
          | inl t ↦ ((λ e. absurd (ground arith)), (λ (e, _). absurd (ground arith)))
          | inr f ↦ (
            (λ e. let (e', f') = sound (ground arith) in (ground arith, f')),
            (λ (e, f'). let e' = complete (ground arith, f') in ground arith),
          )
        ]
      ]

  module _ (apis : String → ApiInfo) where
    -- No configuration that was accepted for its environment and API clashes with it.
    abbrev pub IsFree : UniqueNames → Config → Type 0
    IsFree names c =
        (api : String)
        → unique_api run cmp apis c.type ≡ some api
        → first_duplicate run cmp c (seen_at c.environment api names) ≡ accepted

    -- Two configurations for the same API and environment, if its names have to be unique, do not
    -- clash.
    abbrev pub IsApart : Config → Config → Type 0
    IsApart earlier later =
        (api : String)
        → unique_api run cmp apis earlier.type ≡ some api
        → unique_api run cmp apis later.type ≡ some api
        → earlier.environment ≡ later.environment
        → clashes later earlier ≡ some false

    -- A configuration is accepted exactly when it is free.
    pub validate_classic-IsFree :
        (c : Config) (names : UniqueNames)
        → ((validate_classic run cmp apis c names).1 ≡ accepted) ↔ IsFree names c
    unfolding validate_classic
    validate_classic-IsFree c names = elim (Option-cases (unique_api run cmp apis c.type)) [
      | inl free ↦ ((λ e api same. absurd (ground arith)), (λ h. ground arith))
      | inr (a, subject) ↦
          elim (verdict_cases (first_duplicate run cmp c (seen_at c.environment a names))) [
            | inl no_clash ↦ (
              (λ e api same.
                  let it : a ≡ api = ground arith in
                  ap (λ z. first_duplicate run cmp c (seen_at c.environment z names)) (sym it)
                  ∙ no_clash),
              (λ h. ground arith),
            )
            | inr (inl (d, clash)) ↦ (
              (λ e api same. absurd (ground arith)),
              (λ h. let e = h a subject in absurd (ground arith)),
            )
            | inr (inr panic) ↦ (
              (λ e api same. absurd (ground arith)),
              (λ h. let e = h a subject in absurd (ground arith)),
            )
          ]
    ]

    module _ (c d : Config) (names : UniqueNames) (a : String)
        (subject : unique_api run cmp apis c.type ≡ some a) where
      after : UniqueNames
      after = record_seen c.environment a c names

      seen_elsewhere :
          (api : String)
          → (str_eq c.environment d.environment && str_eq a api) ≡ false
          → first_duplicate run cmp d (seen_at d.environment api after)
            ≡ first_duplicate run cmp d (seen_at d.environment api names)
      unfolding after
      seen_elsewhere api other =
          let e = seen_at-record_seen c.environment a d.environment api c names in
          ap (first_duplicate run cmp d) (e ∙ rw other refl)

      seen_here :
          (api : String)
          → c.environment ≡ d.environment
          → a ≡ api
          → (first_duplicate run cmp d (seen_at d.environment api after) ≡ accepted) ↔ (
              (first_duplicate run cmp d (seen_at d.environment api names) ≡ accepted)
              × (clashes d c ≡ some false))
      unfolding after
      seen_here api env_same api_same =
          let e = seen_at-record_seen c.environment a d.environment api c names in
          let both : (str_eq c.environment d.environment && str_eq a api) ≡ true =
            ground (arith, eq_iff c.environment d.environment, eq_iff a api) in
          let there : seen_at c.environment a names ≡ seen_at d.environment api names =
            ap (λ z. seen_at z a names) env_same
            ∙ ap (λ z. seen_at d.environment z names) api_same in
          let whole : seen_at d.environment api after ≡ seen_at d.environment api names ++ c ∷ [] =
            e ∙ rw both (ap (λ z. z ++ c ∷ []) there) in
          let (sound, complete) = first_duplicate-append d c (seen_at d.environment api names) in
          (
            (λ h. sound (ap (first_duplicate run cmp d) (sym whole) ∙ h)),
            (λ h. ap (first_duplicate run cmp d) whole ∙ complete h),
          )

      IsFree-record_seen : IsFree after d ↔ (IsFree names d × IsApart c d)
      IsFree-record_seen = (
        (λ h. (
          (λ api sub. elim (Bool-cases (str_eq c.environment d.environment && str_eq a api)) [
            | inl t ↦
                let env_same = (eq_iff c.environment d.environment).0 (ground arith) in
                let api_same = (eq_iff a api).0 (ground arith) in
                ((seen_here api env_same api_same).0 (h api sub)).0
            | inr f ↦ sym (seen_elsewhere api f) ∙ h api sub
          ]),
          (λ api sub_c sub_d env_same.
              let api_same : a ≡ api = ground arith in
              ((seen_here api env_same api_same).0 (h api sub_d)).1),
        )),
        (λ (free, apart) api sub.
            elim (Bool-cases (str_eq c.environment d.environment && str_eq a api)) [
              | inl t ↦
                  let env_same = (eq_iff c.environment d.environment).0 (ground arith) in
                  let api_same = (eq_iff a api).0 (ground arith) in
                  (seen_here api env_same api_same).1
                    (free api sub, apart api (subject ∙ ap some api_same) sub env_same)
              | inr f ↦ seen_elsewhere api f ∙ free api sub
            ]),
      )

    -- After a configuration was accepted, those are free that were and do not clash with it.
    pub IsFree-validate_classic :
        (c d : Config) (names : UniqueNames)
        → (validate_classic run cmp apis c names).1 ≡ accepted
        → IsFree (validate_classic run cmp apis c names).0 d ↔ (IsFree names d × IsApart c d)
    unfolding validate_classic after
    IsFree-validate_classic c d names passed =
        elim (Option-cases (unique_api run cmp apis c.type)) [
          | inl free ↦
              let same : (validate_classic run cmp apis c names).0 ≡ names = ground arith in
              subst (λ z. IsFree z d ↔ (IsFree names d × IsApart c d)) (sym same)
                ((λ h. (h, λ api sub. absurd (ground arith))), (λ (h, _). h))
          | inr (a, subject) ↦
              let same : (validate_classic run cmp apis c names).0
                  ≡ record_seen c.environment a c names =
                ground arith in
              subst (λ z. IsFree z d ↔ (IsFree names d × IsApart c d)) (sym same)
                (IsFree-record_seen c d names a subject)
        ]
