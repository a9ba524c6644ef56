-- ===== src/Config/Resolved.antt =====
-- What a successful resolution of the parameters guarantees.
use dynatrace_configuration.Base.{
  ◌≡◌, refl, ◌≢◌, ◌⊎◌, inl, inr, String, false, List, [], ◌∷◌, ◌++◌, Option, none, some, arith, In,
  All, in-map, str_eq, eq_iff, eq_refl, Bool-cases, Option-cases,
}
use dynatrace_configuration.Base.Value.{Value, Fields, end, get, put, get-put}
use dynatrace_configuration.Config.Coordinate.{same_coordinate, same_coordinate_iff}
use dynatrace_configuration.Config.Parameter.{
  ParameterReference, Parameter, NamedParameter, get_references, Result, ok, err,
}
use dynatrace_configuration.Config.Entities.{ResolvedEntity, EntityMap, get_resolved_entity}
use dynatrace_configuration.Config.Model.{Config}
use dynatrace_configuration.Config.Sort.{Sorted, sorted, circular, named, get_sorted_parameters}
use dynatrace_configuration.Config.SortOrder.{get_sorted_parameters-InOrder}
use dynatrace_configuration.Config.SortTotal.{circular-ne-nil}
use dynatrace_configuration.Config.Resolve.{
  Runtime, resolve_value, ResolveError, validate_reference, validate_parameter_references,
  Resolving, context, stored, resolve_parameter, resolve_values, resolve_sorted,
  resolve_parameter_values,
}

append-eq-nil : {A : Type 0} (xs ys : List A) → xs ++ ys ≡ [] → (xs ≡ []) × (ys ≡ [])
append-eq-nil [] ys e = (refl, e)
append-eq-nil (x ∷ xs) ys e = cc

-- A reference to the configuration's own parameters names another parameter; any other reference
-- is to an entity that is resolved and was not skipped.
abbrev pub IsResolvable : Config → EntityMap → String → ParameterReference → Type 0
IsResolvable c entities name ref =
    ((ref.config ≡ c.coordinate) × (ref.property ≢ name))
    ⊎ ((e : ResolvedEntity) × (get_resolved_entity entities ref.config ≡ some e) × (e.skip ≡ false))

validate_reference-IsResolvable :
    (c : Config) (entities : EntityMap) (name : String) (ref : ParameterReference)
    → validate_reference c entities name ref ≡ []
    → IsResolvable c entities name ref
unfolding validate_reference
validate_reference-IsResolvable c entities name ref h =
    elim (Bool-cases (same_coordinate ref.config c.coordinate)) [
      | inl own ↦ inl (
        (same_coordinate_iff ref.config c.coordinate).0 own,
        (λ same. ground (arith, eq_iff ref.property name)),
      )
      | inr other ↦ elim (Option-cases (get_resolved_entity entities ref.config)) [
        | inl missing ↦ ground arith
        | inr (e, there) ↦ inr (e, there, ground arith)
      ]
    ]

validate_parameter_references-All :
    (c : Config) (entities : EntityMap) (name : String) (refs : List ParameterReference)
    → validate_parameter_references c entities name refs ≡ []
    → All (IsResolvable c entities name) refs
unfolding validate_parameter_references
validate_parameter_references-All c entities name [] h = tt
validate_parameter_references-All c entities name (ref ∷ refs) h =
    let (here, later) = append-eq-nil (validate_reference c entities name ref) _ h in
    (
      validate_reference-IsResolvable c entities name ref here,
      validate_parameter_references-All c entities name refs later,
    )

module _ (run : Runtime) (c : Config) (entities : EntityMap) where
  -- What a round without errors did.
  record Stored (p : NamedParameter) (s : Resolving) : Type 0 where
    clean : s.errors ≡ []
    valid : All (IsResolvable c entities p.name) (get_references p.parameter)
    result : Value
    resolved :
        resolve_value run p.parameter (context run c entities p.name s.properties) ≡ ok result
    properties :
        (resolve_parameter run c entities p s).properties
        ≡ put p.name (stored run c entities p.name result) s.properties

  resolve_parameter-Stored :
      (p : NamedParameter) (s : Resolving)
      → (resolve_parameter run c entities p s).errors ≡ []
      → Stored p s
  unfolding resolve_parameter
  resolve_parameter-Stored p s h =
      by_validation (validate_parameter_references c entities p.name (get_references p.parameter))
        refl (resolve_value run p.parameter (context run c entities p.name s.properties)) refl
    where
      by_validation :
          (es : List ResolveError)
          → validate_parameter_references c entities p.name (get_references p.parameter) ≡ es
          → (r : Result Value)
          → resolve_value run p.parameter (context run c entities p.name s.properties) ≡ r
          → Stored p s
      by_validation [] v (ok result) e = record {
        clean = ground arith;
        valid = validate_parameter_references-All c entities p.name _ v;
        result = result;
        resolved = e;
        properties = ground arith;
      }
      by_validation [] v (err reason) e =
          let (_, bad) = append-eq-nil s.errors _ (rw (v, e) at h) in cc
      by_validation (x ∷ xs) v r e = let (_, bad) = append-eq-nil s.errors _ (rw v at h) in cc

  abbrev HasProperty : Fields → String → Type 0
  HasProperty props name = (v : Value) × (get name props ≡ some v)

  HasProperty-put :
      (k j : String) (v : Value) (m : Fields) → HasProperty m j → HasProperty (put k v m) j
  HasProperty-put k j v m (w, e) = elim (Bool-cases (str_eq k j)) [
    | inl same ↦ (v, ground (arith, get-put k j v m))
    | inr other ↦ (w, ground (arith, get-put k j v m))
  ]

  resolve_values-clean :
      (ps : List NamedParameter) (s : Resolving)
      → (resolve_values run c entities ps s).errors ≡ []
      → s.errors ≡ []
  unfolding resolve_values
  resolve_values-clean [] s h = h
  resolve_values-clean (p ∷ ps) s h =
      (resolve_parameter-Stored p s
        (resolve_values-clean ps (resolve_parameter run c entities p s) h)).clean

  resolve_values-kept :
      (ps : List NamedParameter) (s : Resolving) (name : String)
      → (resolve_values run c entities ps s).errors ≡ []
      → HasProperty s.properties name
      → HasProperty (resolve_values run c entities ps s).properties name
  unfolding resolve_values
  resolve_values-kept [] s name h has = has
  resolve_values-kept (p ∷ ps) s name h has =
      let next = resolve_parameter run c entities p s in
      let st = resolve_parameter-Stored p s (resolve_values-clean ps next h) in
      resolve_values-kept ps next name h (
        rw st.properties
          (HasProperty-put p.name name (stored run c entities p.name st.result) s.properties has))

  resolve_values-All :
      (ps : List NamedParameter) (s : Resolving)
      → (resolve_values run c entities ps s).errors ≡ []
      → (p : NamedParameter) → In p ps
      → HasProperty (resolve_values run c entities ps s).properties p.name
        × All (IsResolvable c entities p.name) (get_references p.parameter)
  unfolding resolve_values
  resolve_values-All [] s h p m = absurd m
  resolve_values-All (q ∷ ps) s h p (inl same) =
      let next = resolve_parameter run c entities q s in
      let st = resolve_parameter-Stored q s (resolve_values-clean ps next h) in
      rw same (
        resolve_values-kept ps next q.name h (
            rw st.properties (
              stored run c entities q.name st.result,
              ground (
                arith,
                get-put q.name q.name (stored run c entities q.name st.result) s.properties,
                eq_refl q.name,
              ),
            )),
        st.valid,
      )
  resolve_values-All (q ∷ ps) s h p (inr later) =
      resolve_values-All ps (resolve_parameter run c entities q s) h p later

-- If the parameters of a configuration are resolved without an error, every parameter has a value
-- among the properties, every reference to the configuration itself names another parameter, and
-- every other reference is to an entity that is resolved and was not skipped.
pub resolve_parameter_values-IsResolvable :
    (run : Runtime) (c : Config) (entities : EntityMap) (props : Fields)
    → resolve_parameter_values run c entities ≡ some (props, [])
    → (name : String) (p : Parameter) → In (name, p) c.parameters
    → ((v : Value) × (get name props ≡ some v))
      × All (IsResolvable c entities name) (get_references p)
unfolding resolve_parameter_values
resolve_parameter_values-IsResolvable run c entities props e name p m =
    by_sort (get_sorted_parameters c) refl
  where
    by_errors :
        (ps : List NamedParameter) (errors : List ResolveError)
        → (resolve_values run c entities ps (record { properties = end; errors = [] })).errors
          ≡ errors
        → resolve_sorted run c entities (sorted ps) ≡ (props, [])
        → (errors ≡ [])
          × ((resolve_values run c entities ps
                (record { properties = end; errors = [] })).properties
              ≡ props)
    by_errors ps [] q r = (refl, ground arith)
    by_errors ps (x ∷ xs) q r = ground arith

    by_sort :
        (o : Option Sorted)
        → get_sorted_parameters c ≡ o
        → ((v : Value) × (get name props ≡ some v))
          × All (IsResolvable c entities name) (get_references p)
    by_sort none q = ground arith
    by_sort (some (circular [])) q = absurd (circular-ne-nil c [] q refl)
    by_sort (some (circular (x ∷ es))) q = ground arith
    by_sort (some (sorted ps)) q =
        let (clean, same) = by_errors ps _ refl (ground arith) in
        let there =
          ((get_sorted_parameters-InOrder c ps q).0 _).1 (in-map named (name, p) c.parameters m) in
        rw (← same) (
          resolve_values-All run c entities ps (record { properties = end; errors = [] }) clean
            (named (name, p)) there)
