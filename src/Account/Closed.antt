-- ===== src/Account/Closed.antt =====
-- What `validateReferences` of pkg/account/persistence/loader/validate.go accepts.
use dynatrace_configuration.Base.{
  String, List, Option, none, some, ◌≡◌, ◌≢◌, refl, ◌↔◌, All, arith, lookup,
}
use dynatrace_configuration.Account.Resources.{
  Ref, by_id, by_name, PolicyBinding, Account, Group, User, ServiceUser, Resources,
}
use dynatrace_configuration.Account.Checks.{then_iff, each_iff}
use dynatrace_configuration.Account.References.{
  ReferenceError, exists_or, wrapped, validate_group_ref, validate_user_references,
  validate_service_user_references, validate_boundary_ref, validate_policy_ref,
  validate_binding_reference, validate_policy_binding_references, validate_environment_references,
  validate_account_references, validate_group_references, validate_references, entries, Known,
  BoundariesKnown, BindingKnown, AccountKnown, GroupKnown, IsClosed,
}

exists_or_iff :
    {V : Type 0} (o : Option V) (e : ReferenceError) → (exists_or o e ≡ none) ↔ (o ≢ none)
exists_or_iff none e = ((λ h. ground arith), (λ h. absurd (h refl)))
exists_or_iff (some v) e = ((λ h k. ground arith), (λ h. refl))

wrapped_iff :
    {P : Type 0} (f : ReferenceError → ReferenceError) (o : Option ReferenceError)
    → (o ≡ none) ↔ P
    → (wrapped f o ≡ none) ↔ P
wrapped_iff f none h = ((λ e. h.0 refl), (λ p. refl))
wrapped_iff f (some e) h = ((λ k. ground arith), (λ p. let bad = h.1 p in ground arith))

module _ (res : Resources) where
  group_ref_iff :
      (kind owner : String) (r : Ref)
      → (validate_group_ref res kind owner r ≡ none) ↔ Known res.groups r
  unfolding validate_group_ref
  group_ref_iff kind owner (by_id id) = exists_or_iff (lookup id res.groups) _
  group_ref_iff kind owner (by_name name) = ((λ e. tt), (λ u. refl))

  boundary_ref_iff :
      (policy : String) (r : Ref)
      → (validate_boundary_ref res policy r ≡ none) ↔ Known res.boundaries r
  unfolding validate_boundary_ref
  boundary_ref_iff policy (by_id id) = exists_or_iff (lookup id res.boundaries) _
  boundary_ref_iff policy (by_name name) = ((λ e. tt), (λ u. refl))

  policy_ref_iff :
      (bs : List Ref) (r : Ref)
      → (validate_policy_ref res bs r ≡ none) ↔ (Known res.policies r × BoundariesKnown res bs r)
  policy_ref_iff bs (by_name name) = ((λ e. (tt, tt)), (λ u. refl))
  policy_ref_iff bs (by_id id) =
      then_iff _ _ (exists_or_iff (lookup id res.policies) _)
        (each_iff (validate_boundary_ref res id) bs (boundary_ref_iff id))

  bindings_iff :
      (bs : List PolicyBinding)
      → (validate_policy_binding_references res bs ≡ none) ↔ All (BindingKnown res) bs
  unfolding validate_policy_binding_references
  bindings_iff bs =
      each_iff (validate_binding_reference res) bs (λ b. policy_ref_iff b.boundaries b.policy)

  account_iff :
      (group : String) (a : Option Account)
      → (validate_account_references res group a ≡ none) ↔ AccountKnown res a
  account_iff group none = ((λ e. tt), (λ u. refl))
  account_iff group (some a) = wrapped_iff _ _ (bindings_iff a.policies)

  group_iff : (g : Group) → (validate_group_references res g ≡ none) ↔ GroupKnown res g
  unfolding validate_group_references
  group_iff g =
      then_iff _ _
        (each_iff (validate_environment_references res g.name) g.environment
          (λ e. wrapped_iff _ _ (bindings_iff e.policies)))
        (account_iff g.name g.account)

  user_iff : (u : User) → (validate_user_references res u ≡ none) ↔ All (Known res.groups) u.groups
  unfolding validate_user_references
  user_iff u =
      each_iff (validate_group_ref res "user" u.email) u.groups (group_ref_iff "user" u.email)

  service_user_iff :
      (s : ServiceUser)
      → (validate_service_user_references res s ≡ none) ↔ All (Known res.groups) s.groups
  unfolding validate_service_user_references
  service_user_iff s =
      each_iff (validate_group_ref res "service user" s.name) s.groups
        (group_ref_iff "service user" s.name)

-- The references of the loaded resources are accepted exactly when every group that a user or a
-- service user refers to, every policy that a binding of a group refers to, and every boundary of a
-- binding whose policy is a reference, is among the resources. The boundaries of a binding whose
-- policy is given by its name are not required to be there.
pub validate_references-IsClosed :
    (res : Resources) → (validate_references res ≡ none) ↔ IsClosed res
unfolding validate_references
validate_references-IsClosed res =
    then_iff _ _ (each_iff (validate_user_references res) (entries res.users) (user_iff res)) (
      then_iff _ _
        (each_iff (validate_service_user_references res) res.service_users (service_user_iff res))
        (each_iff (validate_group_references res) (entries res.groups) (group_iff res)))
