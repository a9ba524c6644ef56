-- ===== src/Account/Merge.antt =====
-- `addProjectResources` of pkg/account/persistence/loader/load.go: merging the resources of projects.
use dynatrace_configuration.Base.{
  String, List, [], ◌∷◌, ◌++◌, none, some, ◌≡◌, subst, ◌↔◌, ◌⊎◌, inl, inr, All-in, All-of_in, arith,
  eq_iff, lookup, Option-cases,
}
use dynatrace_configuration.Account.Resources
use dynatrace_configuration.Account.Resources.{Resources, ServiceUser}
use dynatrace_configuration.Account.Checks.{first_error, first_error-none}
use dynatrace_configuration.Account.References.{entries}
use dynatrace_configuration.Account.Load.{
  Step, done, ◌>>=◌, add_entries, append_if_clear, verify_service_users_are_not_ambiguous,
}
use dynatrace_configuration.Account.Loaded.{
  Unambiguous, AllUnambiguous, AllUnambiguous-snoc, Yields, add_entries_lem, bind_done, bind_ends,
}

abbrev pub merge_boundaries :
    List Resources.Boundary
    → List (String × Resources.Boundary)
    → Step (List (String × Resources.Boundary))
merge_boundaries bs m = add_entries "boundary" (λ b. b.id) some bs m

abbrev pub merge_policies :
    List Resources.Policy
    → List (String × Resources.Policy)
    → Step (List (String × Resources.Policy))
merge_policies ps m = add_entries "policy" (λ p. p.id) some ps m

abbrev pub merge_groups :
    List Resources.Group → List (String × Resources.Group) → Step (List (String × Resources.Group))
merge_groups gs m = add_entries "group" (λ g. g.id) some gs m

abbrev pub merge_users :
    List Resources.User → List (String × Resources.User) → Step (List (String × Resources.User))
merge_users us m = add_entries "user" (λ u. u.email) some us m

abbrev pub merge_service_user : ServiceUser → List ServiceUser → Step (List ServiceUser)
merge_service_user s us =
    append_if_clear s us (first_error (λ u. verify_service_users_are_not_ambiguous s u) us)

unfoldable pub merge_service_users : List ServiceUser → List ServiceUser → Step (List ServiceUser)
merge_service_users [] us = done us
merge_service_users (s ∷ ss) us = merge_service_user s us >>= λ us'. merge_service_users ss us'

unfoldable pub add_project_resources : Resources → Resources → Step Resources
add_project_resources target source =
    merge_boundaries (entries source.boundaries) target.boundaries >>= λ boundaries.
    merge_policies (entries source.policies) target.policies >>= λ policies.
    merge_groups (entries source.groups) target.groups >>= λ groups.
    merge_users (entries source.users) target.users >>= λ users.
    merge_service_users source.service_users target.service_users >>= λ service_users.
    done (record {
      boundaries = boundaries;
      policies = policies;
      groups = groups;
      users = users;
      service_users = service_users;
    })

verified-Unambiguous :
    (u v : ServiceUser) → verify_service_users_are_not_ambiguous v u ≡ none → Unambiguous u v
unfolding verify_service_users_are_not_ambiguous
verified-Unambiguous u v e = ground (
  arith,
  eq_iff u.origin_object_id "",
  eq_iff v.origin_object_id "",
  eq_iff v.origin_object_id u.origin_object_id,
  eq_iff v.name u.name,
)

merge_service_users-AllUnambiguous :
    (ss us us' : List ServiceUser)
    → AllUnambiguous us
    → merge_service_users ss us ≡ done us'
    → AllUnambiguous us'
unfolding merge_service_users
merge_service_users-AllUnambiguous [] us us' h e =
    let same : us ≡ us' = ground arith in subst AllUnambiguous same h
merge_service_users-AllUnambiguous (s ∷ ss) us us' h e =
    let (next, first, rest) = bind_done (merge_service_user s us) (merge_service_users ss) us' e in
    elim (Option-cases (first_error (λ u. verify_service_users_are_not_ambiguous s u) us)) [
      | inr (x, bad) ↦ ground arith
      | inl clear ↦
          let same : us ++ s ∷ [] ≡ next = ground arith in
          let all =
            (first_error-none (λ u. verify_service_users_are_not_ambiguous s u) us).0 clear in
          merge_service_users-AllUnambiguous ss next us'
            (subst AllUnambiguous same (
              AllUnambiguous-snoc us s h
                (All-of_in _ us (λ u m. verified-Unambiguous u s (All-in _ u us all m)))))
            rest
    ]

-- The entries of a merged map are those of the target and those of the source, under their own keys.
abbrev pub Merged :
    {V : Type 0} → (key : V → String) (source target merged : List (String × V)) → Type 0
Merged {V} key source target merged =
    (k : String) (v : V)
    → (lookup k merged ≡ some v)
      ↔ ((lookup k target ≡ some v) ⊎ Yields "" key some (entries source) k v)

abbrev pub IsMerged : Resources → Resources → Resources → Type 0
IsMerged target source res =
    Merged (λ b. b.id) source.boundaries target.boundaries res.boundaries
    × Merged (λ p. p.id) source.policies target.policies res.policies
    × Merged (λ g. g.id) source.groups target.groups res.groups
    × Merged (λ u. u.email) source.users target.users res.users

-- What holds of the merged maps and of the merged service users.
abbrev Outcome : Resources → Resources → Resources → Type 0
Outcome target source res =
    IsMerged target source res
    × (merge_service_users source.service_users target.service_users ≡ done res.service_users)

done_outcome :
    (target source r0 r : Resources)
    → done r0 ≡ done r
    → Outcome target source r0
    → Outcome target source r
done_outcome target source r0 r e h =
    let same : r0 ≡ r = ground arith in subst (Outcome target source) same h

add_project_resources_lem :
    (target source res : Resources)
    → add_project_resources target source ≡ done res
    → Outcome target source res
unfolding add_project_resources
add_project_resources_lem target source res e =
    let P : Resources → Type 0 = Outcome target source in
    bind_ends P (merge_boundaries (entries source.boundaries) target.boundaries) _
      (λ bs b. bind_ends P (merge_policies (entries source.policies) target.policies) _ (λ ps p.
        bind_ends P (merge_groups (entries source.groups) target.groups) _ (λ gs g.
          bind_ends P (merge_users (entries source.users) target.users) _ (λ us u.
            bind_ends P (merge_service_users source.service_users target.service_users) _
              (λ ss s r last. done_outcome target source _ r last (
                (
                  add_entries_lem "boundary" _ _ _ _ bs b,
                  add_entries_lem "policy" _ _ _ _ ps p,
                  add_entries_lem "group" _ _ _ _ gs g,
                  add_entries_lem "user" _ _ _ _ us u,
                ),
                s,
              ))))))
      res e

-- When the resources of a project were merged into those of others without an error, each of the four
-- maps holds exactly the entries of both, so that nothing is lost or replaced.
pub add_project_resources-IsMerged :
    (target source res : Resources)
    → add_project_resources target source ≡ done res
    → IsMerged target source res
add_project_resources-IsMerged target source res e =
    (add_project_resources_lem target source res e).0

-- When the service users of the target cannot be mistaken for one another, they still cannot after the
-- resources of a project were merged into it without an error.
pub add_project_resources-AllUnambiguous :
    (target source res : Resources)
    → AllUnambiguous target.service_users
    → add_project_resources target source ≡ done res
    → AllUnambiguous res.service_users
add_project_resources-AllUnambiguous target source res h e =
    merge_service_users-AllUnambiguous source.service_users target.service_users res.service_users h
      (add_project_resources_lem target source res e).1
