-- ===== src/Persistence/Checked.antt =====
-- `Validate` and `GetApiType` of pkg/config/internal/persistence/type_definition.go.
use dynatrace_configuration.Base.{
  String, Bool, true, false, ◌||◌, List, [], ◌∷◌, Option, none, some, ◌≡◌, ◌≢◌, refl, subst, ◌↔◌,
  inl, inr, In, arith, str_eq, eq_iff, Bool-cases, if◌then◌else◌,
}
use dynatrace_configuration.Base.Value.{Value, null, bool, num, str, obj, any_map, arr}
use dynatrace_configuration.Config.Model.{
  ConfigType, settings, classic_api, entity, automation, bucket, document, open_pipeline, segment,
  service_level_objective,
}
use dynatrace_configuration.Persistence.TypeDefinition.{TypeDefinition}

abbrev pub one_of : String → List String → Bool
one_of x [] = false
one_of x (y ∷ ys) = str_eq x y || one_of x ys

abbrev pub known_all_user_permission_kind : List String
known_all_user_permission_kind = "read" ∷ "write" ∷ "none" ∷ []

abbrev pub known_document_kinds : List String
known_document_kinds = "dashboard" ∷ "notebook" ∷ "launchpad" ∷ []

abbrev pub automation_resources : List String
automation_resources = "workflow" ∷ "business-calendar" ∷ "scheduling-rule" ∷ []

abbrev pub check_permission : Option String → Option String
check_permission none = none
check_permission (some kind) =
    if one_of kind known_all_user_permission_kind then none else some "unknown allUsers value"

abbrev pub check_scope : Option Value → Option String → Option String
check_scope none permission = some "missing settings scope"
check_scope (some null) permission = some "missing settings scope"
check_scope (some s) permission = check_permission permission

abbrev pub validate_of_type : List String → ConfigType → Option Value → Option String
validate_of_type apis (classic_api api) scope = if one_of api apis then none else some "unknown API"
validate_of_type apis (settings schema version permission) scope =
    if str_eq schema "" then some "missing settings schemaId" else check_scope scope permission
validate_of_type apis (automation resource) scope =
    if str_eq resource ""
    then some "missing automation resource property"
    else if one_of resource automation_resources
    then none
    else some "unknown automation resource"
validate_of_type apis (document kind private id labels description) scope =
    if str_eq kind ""
    then some "missing document kind property"
    else if one_of kind known_document_kinds
    then none
    else some "unknown document kind"
validate_of_type apis (open_pipeline kind) scope =
    if str_eq kind "" then some "missing openpipeline kind property" else none
validate_of_type apis bucket scope = none
validate_of_type apis (entity type) scope = none
validate_of_type apis segment scope = none
validate_of_type apis service_level_objective scope = none

-- `none` is the accepting nil; `apis` are the keys of the map.
unfoldable pub validate_type_definition : List String → TypeDefinition → Option String
validate_type_definition apis c = validate_of_type apis c.type c.scope

unfoldable pub get_api_type : TypeDefinition → String
get_api_type c = elim (c.type) [
  | classic_api api ↦ api
  | settings schema version permission ↦ schema
  | automation resource ↦ resource
  | bucket ↦ "bucket"
  | document kind private id labels description ↦ "document"
  | open_pipeline kind ↦ "openpipeline"
  | segment ↦ "segment"
  | service_level_objective ↦ "slo-v2"
  | entity type ↦ ""
]

one_of_iff : (x : String) (ys : List String) → (one_of x ys ≡ true) ↔ In x ys
one_of_iff x [] = ((λ e. cc), (λ m. absurd m))
one_of_iff x (y ∷ ys) =
    let (sound, complete) = one_of_iff x ys in
    (
      (λ e. elim (Bool-cases (str_eq x y)) [
        | inl t ↦ inl ((eq_iff x y).0 t)
        | inr f ↦ inr (sound (ground arith))
      ]),
      (λ m. elim m [
        | inl e ↦ let t = (eq_iff x y).1 e in ground arith
        | inr m' ↦ let t = complete m' in ground arith
      ]),
    )

abbrev pub IsKnownPermission : Option String → Type 0
IsKnownPermission none = Unit
IsKnownPermission (some kind) = In kind known_all_user_permission_kind

-- A scope that is not nil.
abbrev pub HasScope : Option Value → Type 0
HasScope scope = (scope ≢ none) × (scope ≢ some null)

-- What a type has to name.
abbrev pub IsKnownType : List String → ConfigType → Option Value → Type 0
IsKnownType apis (classic_api api) scope = In api apis
IsKnownType apis (settings schema version permission) scope =
    (schema ≢ "") × HasScope scope × IsKnownPermission permission
IsKnownType apis (automation resource) scope = In resource automation_resources
IsKnownType apis (document kind private id labels description) scope = In kind known_document_kinds
IsKnownType apis (open_pipeline kind) scope = kind ≢ ""
IsKnownType apis _ scope = Unit

test_iff :
    (x : String) (ys : List String) (e : String)
    → ((if one_of x ys then none else some e) ≡ none) ↔ In x ys
test_iff x ys e =
    let (sound, complete) = one_of_iff x ys in
    ((λ h. sound (ground arith)), (λ m. let t = complete m in ground arith))

-- A name from a list that does not hold the empty text is not empty.
named_test_iff :
    (x : String) (ys : List String) (e e' : String)
    → one_of "" ys ≡ false
    → ((if str_eq x "" then some e else if one_of x ys then none else some e') ≡ none) ↔ In x ys
named_test_iff x ys e e' apart =
    let (sound, complete) = one_of_iff x ys in
    (
      (λ h. sound (ground arith)),
      (λ m. elim (Bool-cases (str_eq x "")) [
        | inl empty ↦
            let t : one_of "" ys ≡ true =
              subst (λ z. one_of z ys ≡ true) ((eq_iff x "").0 empty) (complete m) in
            cc
        | inr named ↦ let t = complete m in ground arith
      ]),
    )

permission_iff : (p : Option String) → (check_permission p ≡ none) ↔ IsKnownPermission p
permission_iff none = ((λ e. tt), (λ u. refl))
permission_iff (some kind) = test_iff kind known_all_user_permission_kind "unknown allUsers value"

given :
    (s : Value) (p : Option String)
    → some s ≢ some null
    → (check_permission p ≡ none) ↔ (HasScope (some s) × IsKnownPermission p)
given s p filled =
    let (sound, complete) = permission_iff p in
    ((λ e. (((λ absent. cc), filled), sound e)), (λ (_, known). complete known))

scope_iff :
    (scope : Option Value) (p : Option String)
    → (check_scope scope p ≡ none) ↔ (HasScope scope × IsKnownPermission p)
scope_iff none p = ((λ e. cc), (λ ((present, _), _). absurd (present refl)))
scope_iff (some null) p = ((λ e. cc), (λ ((_, filled), _). absurd (filled refl)))
scope_iff (some (bool b)) p = given (bool b) p (λ e. cc)
scope_iff (some (num n)) p = given (num n) p (λ e. cc)
scope_iff (some (str s)) p = given (str s) p (λ e. cc)
scope_iff (some (obj m)) p = given (obj m) p (λ e. cc)
scope_iff (some (any_map m)) p = given (any_map m) p (λ e. cc)
scope_iff (some (arr xs)) p = given (arr xs) p (λ e. cc)

nonempty_iff :
    (x : String) (e : String) → ((if str_eq x "" then some e else none) ≡ none) ↔ (x ≢ "")
nonempty_iff x e = (
  (λ h empty. let t = (eq_iff x "").1 empty in ground arith),
  (λ named. elim (Bool-cases (str_eq x "")) [
    | inl t ↦ absurd (named ((eq_iff x "").0 t))
    | inr f ↦ ground arith
  ]),
)

of_type_iff :
    (apis : List String) (t : ConfigType) (scope : Option Value)
    → (validate_of_type apis t scope ≡ none) ↔ IsKnownType apis t scope
of_type_iff apis (classic_api api) scope = test_iff api apis "unknown API"
of_type_iff apis (settings schema version permission) scope =
    let (sound, complete) = scope_iff scope permission in
    (
      (λ e. elim (Bool-cases (str_eq schema "")) [
        | inl t ↦ absurd (ground arith)
        | inr f ↦
            let named : schema ≢ "" = λ empty. let t = (eq_iff schema "").1 empty in ground arith in
            let (present, known) = sound (ground arith) in (named, present, known)
      ]),
      (λ (named, present, known). elim (Bool-cases (str_eq schema "")) [
        | inl t ↦ absurd (named ((eq_iff schema "").0 t))
        | inr f ↦ let fine = complete (present, known) in ground arith
      ]),
    )
of_type_iff apis (automation resource) scope = named_test_iff resource automation_resources _ _ refl
of_type_iff apis (document kind private id labels description) scope =
    named_test_iff kind known_document_kinds _ _ refl
of_type_iff apis (open_pipeline kind) scope = nonempty_iff kind _
of_type_iff apis bucket scope = ((λ e. tt), (λ u. refl))
of_type_iff apis (entity type) scope = ((λ e. tt), (λ u. refl))
of_type_iff apis segment scope = ((λ e. tt), (λ u. refl))
of_type_iff apis service_level_objective scope = ((λ e. tt), (λ u. refl))

-- `Validate` accepts a type definition exactly when it names what its type needs: a classic API one
-- of the given APIs, settings a schema, a scope and no unknown permission, an automation or a
-- document one of the known kinds, and a pipeline any kind.
pub validate_type_definition_iff :
    (apis : List String) (c : TypeDefinition)
    → (validate_type_definition apis c ≡ none) ↔ IsKnownType apis c.type c.scope
unfolding validate_type_definition
validate_type_definition_iff apis c = of_type_iff apis c.type c.scope
