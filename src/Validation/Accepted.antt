-- ===== src/Validation/Accepted.antt =====
-- When the whole validation finds nothing to report.
use dynatrace_configuration.Base.{
  Bool, false, if◌then◌else◌, String, ◌≡◌, ◌≢◌, refl, ap, ◌↔◌, inl, inr, List, [], ◌∷◌, ◌++◌,
  Option, none, some, All, arith, lookup, insert, Option-cases, Bool-cases, str_eq,
}
use dynatrace_configuration.Config.Model.{Config}
use dynatrace_configuration.Config.Resolve.{Runtime}
use dynatrace_configuration.Project.{Project}
use dynatrace_configuration.Validation.Classic.{
  Comparison, ApiInfo, Verdict, accepted, duplicate_of, panicked, seen_at, first_duplicate,
  validate_classic,
}
use dynatrace_configuration.Validation.Setting.{InsertAfterSameScopeError, validate_insert_after}
use dynatrace_configuration.Validation.UniqueNames.{
  IsFree, IsApart, validate_classic-IsFree, IsFree-validate_classic,
}
use dynatrace_configuration.Validation.Validate.{
  ValidationError, Errors, append_error, append_classic, append_setting, Validators, every_config,
  validate_config, validate_configs, errors_or_nil, validate, has_panicked, start,
}

insert_nonempty :
    (env : String) (es : List ValidationError) (errs : Errors) → insert env es errs ≢ []
unfolding insert
insert_nonempty env es [] e = cc
insert_nonempty env es ((x, fs) ∷ errs) e = elim (Bool-cases (str_eq x env)) [
  | inl t ↦ ground arith
  | inr f ↦ ground arith
]

append_error_nonempty :
    (env : String) (e : ValidationError) (errs : Errors) → append_error env e errs ≢ []
unfolding append_error
append_error_nonempty env e errs h = elim (Option-cases (lookup env errs)) [
  | inl absent ↦ insert_nonempty env (e ∷ []) errs (ground arith)
  | inr (es, there) ↦ insert_nonempty env (es ++ e ∷ []) errs (ground arith)
]

append_classic_empty :
    (c : Config) (v : Verdict) (errs : Errors) (panics : Bool)
    → ((append_classic c v errs ≡ []) × (has_panicked v panics ≡ false))
      ↔ ((errs ≡ []) × (panics ≡ false) × (v ≡ accepted))
append_classic_empty c accepted errs panics = ((λ (e, p). (e, p, refl)), (λ (e, p, _). (e, p)))
append_classic_empty c (duplicate_of d) errs panics =
    ((λ (e, _). absurd (append_error_nonempty _ _ errs e)), (λ (_, _, e). absurd (ground arith)))
append_classic_empty c panicked errs panics =
    ((λ (_, p). absurd (ground arith)), (λ (_, _, e). absurd (ground arith)))

append_setting_empty :
    (c : Config) (o : Option InsertAfterSameScopeError) (errs : Errors)
    → (append_setting c o errs ≡ []) ↔ ((errs ≡ []) × (o ≡ none))
append_setting_empty c none errs = ((λ e. (e, refl)), (λ h. h.0))
append_setting_empty c (some d) errs =
    ((λ e. absurd (append_error_nonempty _ _ errs e)), (λ (_, e). cc))

-- No error, and no panic.
abbrev IsClean : Validators → Type 0
IsClean s = (s.errs ≡ []) × (s.panics ≡ false)

module _ (run : Runtime) (cmp : Comparison) (apis : String → ApiInfo)
    (projects : List Project) where
  -- Every configuration is apart from those behind it.
  unfoldable pub IsPairwiseApart : List Config → Type 0
  IsPairwiseApart [] = Unit
  IsPairwiseApart (c ∷ cs) = All (IsApart run cmp apis c) cs × IsPairwiseApart cs

  -- The validator of insertion finds nothing.
  abbrev pub IsPlaced : Config → Type 0
  IsPlaced c = validate_insert_after projects c ≡ none

  validate_config_empty :
      (c : Config) (s : Validators)
      → IsClean (validate_config run cmp apis projects c s)
        ↔ (IsClean s × IsFree run cmp apis s.unique_names c × IsPlaced c)
  unfolding validate_config
  validate_config_empty c s =
      let clash = (validate_classic run cmp apis c s.unique_names).1 in
      let (sound, complete) = validate_classic-IsFree run cmp apis c s.unique_names in
      let (after, before) =
        append_setting_empty c (validate_insert_after projects c) (append_classic c clash s.errs) in
      let (after', before') = append_classic_empty c clash s.errs s.panics in
      (
        (λ (e, calm).
            let (e', placed) = after e in
            let (empty, calm', no_clash) = after' (e', calm) in
            ((empty, calm'), sound no_clash, placed)),
        (λ ((empty, calm), free, placed).
            let (e, calm') = before' (empty, calm, complete free) in (before (e, placed), calm')),
      )

  All-IsFree_after :
      (c : Config) (cs : List Config) (s : Validators)
      → IsFree run cmp apis s.unique_names c
      → All (IsFree run cmp apis (validate_config run cmp apis projects c s).unique_names) cs
        ↔ (All (IsFree run cmp apis s.unique_names) cs × All (IsApart run cmp apis c) cs)
  unfolding validate_config
  All-IsFree_after c [] s free = ((λ u. (tt, tt)), (λ u. tt))
  All-IsFree_after c (d ∷ cs) s free =
      let (sound, complete) =
        IsFree-validate_classic run cmp apis c d s.unique_names
          ((validate_classic-IsFree run cmp apis c s.unique_names).1 free) in
      let (sounds, completes) = All-IsFree_after c cs s free in
      (
        (λ (f, fs).
            let (a, b) = sound f in let (frees, aparts) = sounds fs in ((a, frees), (b, aparts))),
        (λ ((a, frees), (b, aparts)). (complete (a, b), completes (frees, aparts))),
      )

  validate_configs_empty :
      (cs : List Config) (s : Validators)
      → IsClean (validate_configs run cmp apis projects cs s) ↔ (
          IsClean s
          × All (IsFree run cmp apis s.unique_names) cs
          × IsPairwiseApart cs
          × All IsPlaced cs)
  unfolding validate_configs IsPairwiseApart
  validate_configs_empty [] s = ((λ e. (e, tt, tt, tt)), (λ h. h.0))
  validate_configs_empty (c ∷ cs) s =
      let t = validate_config run cmp apis projects c s in
      let (sound, complete) = validate_config_empty c s in
      let (sounds, completes) = validate_configs_empty cs t in
      (
        (λ e.
            let (none_t, free_t, pairs, placed) = sounds e in
            let (none_s, free, here) = sound none_t in
            let (free_s, apart) = (All-IsFree_after c cs s free).0 free_t in
            (none_s, (free, free_s), (apart, pairs), (here, placed))),
        (λ (none_s, (free, free_s), (apart, pairs), (here, placed)). completes (
          complete (none_s, free, here),
          (All-IsFree_after c cs s free).1 (free_s, apart),
          pairs,
          placed,
        )),
      )

  All-IsFree_at_first : (cs : List Config) → All (IsFree run cmp apis []) cs
  unfolding seen_at first_duplicate lookup
  All-IsFree_at_first [] = tt
  All-IsFree_at_first (c ∷ cs) = ((λ api e. refl), All-IsFree_at_first cs)

  -- The validation does not panic and returns no error exactly when the configurations of all
  -- projects are pairwise apart, so that for any two for the same environment and the same API with
  -- unique names the scopes can be compared, and these are not equal or the names not duplicate, and
  -- the validator of `insertAfter` accepts each of them.
  pub validate_iff :
      (validate run cmp apis projects ≡ some none)
      ↔ (IsPairwiseApart (every_config projects) × All IsPlaced (every_config projects))
  unfolding validate
  validate_iff =
      let first = start run cmp apis projects in
      let (sound, complete) = validate_configs_empty (every_config projects) first in
      (
        (λ e.
            let (_, _, pairs, placed) = sound (
              no_errors (validate_configs run cmp apis projects (every_config projects) first) e) in
            (pairs, placed)),
        (λ (pairs, placed).
            let (empty, calm) =
              complete ((refl, refl), All-IsFree_at_first (every_config projects), pairs, placed) in
            rw calm (ap (λ z. some (errors_or_nil z)) empty)),
      )
    where
      nil_errors : (errs : Errors) → errors_or_nil errs ≡ none → errs ≡ []
      nil_errors [] e = refl
      nil_errors (x ∷ errs) e = cc

      no_errors :
          (s : Validators)
          → (if s.panics then none else some (errors_or_nil s.errs)) ≡ some none
          → IsClean s
      no_errors s e = elim (Bool-cases (s.panics)) [
        | inl t ↦ absurd (ground arith)
        | inr f ↦ (nil_errors s.errs (ground arith), f)
      ]
