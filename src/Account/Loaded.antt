-- ===== src/Account/Loaded.antt =====
-- What `addResourcesFromFile` of pkg/account/persistence/loader/load.go adds.
use dynatrace_configuration.Base.{
  String, List, [], ◌∷◌, ◌++◌, Option, none, some, ◌≡◌, ◌≢◌, refl, sym, ap, ◌∙◌, subst, ◌↔◌, ◌⊎◌,
  inl, inr, In, All, All-append, All-of_in, All-in, arith, eq_iff, str_eq, lookup, insert,
  lookup-insert, Option-cases, Bool-cases, if◌then◌else◌,
}
use dynatrace_configuration.Account.Types
use dynatrace_configuration.Account.Types.{File}
use dynatrace_configuration.Account.Resources.{Resources, ServiceUser}
use dynatrace_configuration.Account.Checks.{first_error, first_error-none}
use dynatrace_configuration.Account.Transform.{transform_service_user}
use dynatrace_configuration.Account.Load.{
  Step, done, refused, panics, ◌>>=◌, add_if_absent, add_entries, append_service_user,
  add_service_users, add_boundaries, add_policies, add_groups, add_users, add_resources_from_file,
  verify_service_users_are_not_ambiguous,
}

pub bind_done :
    {A B : Type 0} (a : Step A) (f : A → Step B) (b : B)
    → (a >>= f) ≡ done b
    → (x : A) × (a ≡ done x) × (f x ≡ done b)
bind_done (done x) f b e = (x, refl, e)
bind_done (refused r) f b e = ground arith
bind_done panics f b e = ground arith

-- Every value that a step yields comes from values of its parts.
pub bind_ends :
    {A B : Type 0} (P : B → Type 0) (a : Step A) (f : A → Step B)
    → ((x : A) → a ≡ done x → (y : B) → f x ≡ done y → P y)
    → (y : B) → (a >>= f) ≡ done y
    → P y
bind_ends P a f h y e = let (x, first, rest) = bind_done a f y e in h x first y rest

-- The object ids differ or one has none, and the names differ or both have an object id.
abbrev pub Unambiguous : ServiceUser → ServiceUser → Type 0
Unambiguous u v =
    (u.origin_object_id ≢ "" → u.origin_object_id ≢ v.origin_object_id)
    × (u.name ≡ v.name → (u.origin_object_id ≢ "") × (v.origin_object_id ≢ ""))

abbrev pub AllUnambiguous : List ServiceUser → Type 0
AllUnambiguous [] = Unit
AllUnambiguous (u ∷ us) = All (Unambiguous u) us × AllUnambiguous us

verify_service_users_are_not_ambiguous_lem :
    (u v : ServiceUser) → verify_service_users_are_not_ambiguous u v ≡ none → Unambiguous u v
unfolding verify_service_users_are_not_ambiguous
verify_service_users_are_not_ambiguous_lem u v e = ground (
  arith,
  eq_iff u.origin_object_id "",
  eq_iff v.origin_object_id "",
  eq_iff u.origin_object_id v.origin_object_id,
  eq_iff u.name v.name,
)

pub AllUnambiguous-snoc :
    (us : List ServiceUser) (v : ServiceUser)
    → AllUnambiguous us
    → All (λ u. Unambiguous u v) us
    → AllUnambiguous (us ++ v ∷ [])
AllUnambiguous-snoc [] v h k = (tt, tt)
AllUnambiguous-snoc (u ∷ us) v (h, hs) (k, ks) =
    (All-append (Unambiguous u) us (v ∷ []) h (k, tt), AllUnambiguous-snoc us v hs ks)

append_service_user-AllUnambiguous :
    (us : List ServiceUser) (o : Option ServiceUser) (us' : List ServiceUser)
    → AllUnambiguous us
    → append_service_user us o ≡ done us'
    → AllUnambiguous us'
append_service_user-AllUnambiguous us none us' h e = ground arith
append_service_user-AllUnambiguous us (some s) us' h e =
    elim (Option-cases (first_error (λ u. verify_service_users_are_not_ambiguous u s) us)) [
      | inr (x, bad) ↦ ground arith
      | inl clear ↦
          let same : us ++ s ∷ [] ≡ us' = ground arith in
          let all =
            (first_error-none (λ u. verify_service_users_are_not_ambiguous u s) us).0 clear in
          subst AllUnambiguous same (
            AllUnambiguous-snoc us s h (
              All-of_in _ us
                (λ u m. verify_service_users_are_not_ambiguous_lem u s (All-in _ u us all m))))
    ]

add_service_users-AllUnambiguous :
    (ss : List Types.ServiceUser) (us us' : List ServiceUser)
    → AllUnambiguous us
    → add_service_users ss us ≡ done us'
    → AllUnambiguous us'
unfolding add_service_users
add_service_users-AllUnambiguous [] us us' h e =
    let same : us ≡ us' = ground arith in subst AllUnambiguous same h
add_service_users-AllUnambiguous (s ∷ ss) us us' h e =
    let (next, first, rest) = bind_done _ _ us' e in
    add_service_users-AllUnambiguous ss next us'
      (append_service_user-AllUnambiguous us (transform_service_user s) next h first) rest

module _ {P V : Type 0} (kind : String) (key : P → String) (transform : P → Option V) where
  -- An entry that one of the loaded definitions yields under its key.
  abbrev pub Yields : List P → String → V → Type 0
  Yields ps k v = (p : P) × In p ps × (key p ≡ k) × (transform p ≡ some v)

  add_if_absent_done :
      (p : P) (m m' : List (String × V))
      → add_if_absent kind key transform p m (lookup (key p) m) ≡ done m'
      → (v : V) × (lookup (key p) m ≡ none) × (transform p ≡ some v) × (m' ≡ insert (key p) v m)
  add_if_absent_done p m m' e = elim (Option-cases (lookup (key p) m)) [
    | inr (v, there) ↦ ground arith
    | inl absent ↦ elim (Option-cases (transform p)) [
      | inl bad ↦ ground arith
      | inr (v, good) ↦ (v, absent, good, ground arith)
    ]
  ]

  -- When definitions were added to a map without an error, the map has exactly the entries that it
  -- had before and those that the definitions yield under their keys: nothing is lost or replaced.
  pub add_entries_lem :
      (ps : List P) (m m' : List (String × V))
      → add_entries kind key transform ps m ≡ done m'
      → (k : String) (v : V) → (lookup k m' ≡ some v) ↔ ((lookup k m ≡ some v) ⊎ Yields ps k v)
  unfolding add_entries
  add_entries_lem [] m m' e k v =
      let same : m ≡ m' = ground arith in
      (
        (λ found. inl (subst (λ q. lookup k q ≡ some v) (sym same) found)),
        (λ given. elim given [
          | inl before ↦ subst (λ q. lookup k q ≡ some v) same before
          | inr (q, bad, _, _) ↦ absurd bad
        ]),
      )
  add_entries_lem (p ∷ ps) m m' e k v =
      let (next, first, rest) = bind_done _ _ m' e in
      let (w, absent, good, same) = add_if_absent_done p m next first in
      let ih = add_entries_lem ps next m' rest k v in
      let step : lookup k next ≡ (if str_eq (key p) k then some w else lookup k m) =
        ap (lookup k) same ∙ lookup-insert (key p) k w m in
      (
        (λ found. elim (ih.0 found) [
          | inr (q, in_q, at_k, yields) ↦ inr (q, inr in_q, at_k, yields)
          | inl before ↦ elim (Bool-cases (str_eq (key p) k)) [
            | inl own ↦ inr (p, inl refl, (eq_iff (key p) k).0 own, ground arith)
            | inr other ↦ inl (ground arith)
          ]
        ]),
        (λ given. ih.1 (elim given [
          | inl before ↦ elim (Bool-cases (str_eq (key p) k)) [
            | inl own ↦
                let gone = subst (λ j. lookup j m ≡ none) ((eq_iff (key p) k).0 own) absent in
                ground arith
            | inr other ↦ inl (ground arith)
          ]
          | inr (q, inl is_p, at_k, yields) ↦
              let own = (eq_iff (key p) k).1 (sym (ap key is_p) ∙ at_k) in
              let yields_p = sym (ap transform is_p) ∙ yields in inl (ground arith)
          | inr (q, inr in_q, at_k, yields) ↦ inr (q, in_q, at_k, yields)
        ])),
      )

done_users :
    (r0 r : Resources)
    → done r0 ≡ done r
    → AllUnambiguous r0.service_users
    → AllUnambiguous r.service_users
done_users r0 r e h =
    let same : r0 ≡ r = ground arith in subst (λ q. AllUnambiguous q.service_users) same h

-- When the service users among the loaded resources cannot be mistaken for one another, they still
-- cannot after a file was added without an error: two of them with the same name both have an origin
-- object id, and no two have the same one.
pub add_resources_from_file-AllUnambiguous :
    (res res' : Resources) (f : File)
    → AllUnambiguous res.service_users
    → add_resources_from_file res f ≡ done res'
    → AllUnambiguous res'.service_users
unfolding add_resources_from_file
add_resources_from_file-AllUnambiguous res res' f h e =
    let P : Resources → Type 0 = λ r. AllUnambiguous r.service_users in
    bind_ends P (add_boundaries f.boundaries res.boundaries) _
      (λ bs _. bind_ends P (add_policies f.policies res.policies) _ (λ ps _.
        bind_ends P (add_groups f.groups res.groups) _ (λ gs _.
          bind_ends P (add_users f.users res.users) _ (λ us _.
            bind_ends P (add_service_users f.service_users res.service_users) _ (λ ss added r last.
              done_users _ r last
                (add_service_users-AllUnambiguous f.service_users res.service_users ss h added))))))
      res' e
