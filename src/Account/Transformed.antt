-- ===== src/Account/Transformed.antt =====
-- What `validateFile` accepts is transformed without a panic.
use dynatrace_configuration.Base.{
  String, List, [], ◌∷◌, Option, none, some, ◌≡◌, ◌≢◌, refl, ◌⊎◌, All, arith, eq_iff,
}
use dynatrace_configuration.Account.Types.{
  Reference, PolicyBinding, Policy, Account, Environment, Group, User, ServiceUser, File,
  reference_type, policy_level_account, policy_level_environment,
}
use dynatrace_configuration.Account.Validate.{
  IsValidRef, IsValidBindingTo, IsValidBinding, IsValidPolicy, IsValidEnvironment, IsValidAccount,
  IsValidGroup, IsValidUser, IsValidServiceUser,
}
use dynatrace_configuration.Account.Transform.{
  after, each, transform_level, transform_policy, transform_reference, transform_references,
  own_reference, transform_policy_binding, transform_policy_bindings, transform_account,
  transform_environment, transform_group, transform_user, transform_service_user,
}

-- `UnmarshalYAML` sets the value of an entry that is a text, and the other fields of one that is not.
abbrev pub IsDecoded : (type value : String) → Type 0
IsDecoded type value = (value ≡ "") ⊎ (type ≡ "")

abbrev pub IsDecodedRef : Reference → Type 0
IsDecodedRef r = IsDecoded r.type r.value

abbrev pub IsDecodedPolicy : PolicyBinding → Option Reference → Type 0
IsDecodedPolicy b none = IsDecoded b.type b.value
IsDecodedPolicy b (some r) = IsDecodedRef r

abbrev pub IsDecodedBinding : PolicyBinding → Type 0
IsDecodedBinding b = IsDecodedPolicy b b.policy × All IsDecodedRef b.boundaries

abbrev pub IsDecodedAccount : Option Account → Type 0
IsDecodedAccount none = Unit
IsDecodedAccount (some a) = All IsDecodedBinding a.policies

abbrev pub IsDecodedGroup : Group → Type 0
IsDecodedGroup g =
    IsDecodedAccount g.account × All (λ e. All IsDecodedBinding e.policies) g.environment

abbrev pub IsDecodedFile : File → Type 0
IsDecodedFile f =
    All IsDecodedGroup f.groups
    × All (λ u. All IsDecodedRef u.groups) f.users
    × All (λ s. All IsDecodedRef s.groups) f.service_users

after_total :
    {A B : Type 0} (o : Option A) (f : A → Option B)
    → o ≢ none
    → ((a : A) → f a ≢ none)
    → after o f ≢ none
after_total none f h k = absurd (h refl)
after_total (some a) f h k = k a

pub some-ne-none : {A : Type 0} (a : A) → some a ≢ none
some-ne-none a e = ground arith

each_total :
    {A B : Type 0} {P Q : A → Type 0} (f : A → Option B) (xs : List A)
    → ((x : A) → P x → Q x → f x ≢ none)
    → All P xs
    → All Q xs
    → each f xs ≢ none
unfolding each
each_total f [] h p q = some-ne-none []
each_total f (x ∷ xs) h (p, ps) (q, qs) =
    after_total (f x) _ (h x p q)
      (λ y. after_total (each f xs) _ (each_total f xs h ps qs) (λ ys. some-ne-none (y ∷ ys)))

transform_reference_total :
    (r : Reference) → IsValidRef r → IsDecodedRef r → transform_reference r ≢ none
unfolding transform_reference
transform_reference_total r v d = ground (arith, eq_iff r.type reference_type, eq_iff r.type "")

transform_references_total :
    (rs : List Reference) → All IsValidRef rs → All IsDecodedRef rs → transform_references rs ≢ none
unfolding transform_references
transform_references_total rs = each_total transform_reference rs transform_reference_total

own_reference_total :
    (b : PolicyBinding) (p : Option Reference)
    → IsValidBindingTo b p
    → IsDecodedPolicy b p
    → All IsDecodedRef b.boundaries
    → (transform_reference (own_reference b p) ≢ none) × (transform_references b.boundaries ≢ none)
own_reference_total b none (v, no_boundaries) d ds = (
  transform_reference_total (own_reference b none) v d,
  transform_references_total b.boundaries (rw no_boundaries tt) ds,
)
own_reference_total b (some r) (_, (v, vs)) d ds =
    (transform_reference_total r v d, transform_references_total b.boundaries vs ds)

transform_policy_binding_total :
    (b : PolicyBinding) → IsValidBinding b → IsDecodedBinding b → transform_policy_binding b ≢ none
unfolding transform_policy_binding
transform_policy_binding_total b v (d, ds) =
    let (policy, boundaries) = own_reference_total b b.policy v d ds in
    after_total _ _ policy (λ p. after_total _ _ boundaries (λ bs. some-ne-none _))

transform_policy_bindings_total :
    (bs : List PolicyBinding)
    → All IsValidBinding bs
    → All IsDecodedBinding bs
    → transform_policy_bindings bs ≢ none
unfolding transform_policy_bindings
transform_policy_bindings_total bs =
    each_total transform_policy_binding bs transform_policy_binding_total

transform_environment_total :
    (e : Environment)
    → IsValidEnvironment e
    → All IsDecodedBinding e.policies
    → transform_environment e ≢ none
unfolding transform_environment
transform_environment_total e (_, v) d =
    after_total _ _ (transform_policy_bindings_total e.policies v d) (λ ps. some-ne-none _)

transform_account_total :
    (a : Option Account) → IsValidAccount a → IsDecodedAccount a → transform_account a ≢ none
transform_account_total none v d = some-ne-none none
transform_account_total (some a) v d =
    after_total _ _ (transform_policy_bindings_total a.policies v d) (λ ps. some-ne-none _)

pub transform_group_total :
    (g : Group) → IsValidGroup g → IsDecodedGroup g → transform_group g ≢ none
unfolding transform_group
transform_group_total g (_, (_, (environments, account))) (d, ds) =
    after_total _ _ (transform_account_total g.account account d) (λ a.
      after_total _ _
        (each_total transform_environment g.environment transform_environment_total environments ds)
        (λ es. some-ne-none _))

pub transform_policy_total : (p : Policy) → IsValidPolicy p → transform_policy p ≢ none
unfolding transform_policy transform_level
transform_policy_total p v =
    ground (
      arith,
      eq_iff p.level.type policy_level_account,
      eq_iff p.level.type policy_level_environment,
    )

pub transform_user_total :
    (u : User) → IsValidUser u → All IsDecodedRef u.groups → transform_user u ≢ none
unfolding transform_user
transform_user_total u (_, v) d =
    after_total _ _ (transform_references_total u.groups v d) (λ gs. some-ne-none _)

pub transform_service_user_total :
    (s : ServiceUser)
    → IsValidServiceUser s
    → All IsDecodedRef s.groups
    → transform_service_user s ≢ none
unfolding transform_service_user
transform_service_user_total s (_, v) d =
    after_total _ _ (transform_references_total s.groups v d) (λ gs. some-ne-none _)
