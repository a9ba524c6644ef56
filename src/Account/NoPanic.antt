-- ===== src/Account/NoPanic.antt =====
-- A file that `validateFile` accepts is added by `addResourcesFromFile` without a panic.
use dynatrace_configuration.Base.{
  String, List, [], ◌∷◌, Option, none, some, ◌≡◌, ◌≢◌, refl, inl, inr, All, All-in, All-of_in,
  arith, lookup, Option-cases,
}
use dynatrace_configuration.Account.Types.{ServiceUser, File}
use dynatrace_configuration.Account.Resources
use dynatrace_configuration.Account.Resources.{Resources}
use dynatrace_configuration.Account.Validate.{validate_file}
use dynatrace_configuration.Account.Valid.{validate_file-IsValidFile}
use dynatrace_configuration.Account.Transform.{transform_boundary, transform_service_user}
use dynatrace_configuration.Account.Transformed.{
  IsDecodedFile, some-ne-none, transform_policy_total, transform_group_total, transform_user_total,
  transform_service_user_total,
}
use dynatrace_configuration.Account.Load.{
  Step, LoadError, done, refused, panics, ◌>>=◌, add_if_absent, add_entries, append_if_clear,
  append_service_user, add_service_users, add_resources_from_file,
}

refused-ne-panics : {A : Type 0} (e : LoadError) → ◌≢◌ {A = Step A} (refused e) panics
refused-ne-panics e h = ground arith

bind_total :
    {A B : Type 0} (a : Step A) (f : A → Step B)
    → a ≢ panics
    → ((x : A) → f x ≢ panics)
    → (a >>= f) ≢ panics
bind_total (done x) f h k = k x
bind_total (refused e) f h k = refused-ne-panics e
bind_total panics f h k = λ e. h refl

done-ne-panics : {A : Type 0} (a : A) → done a ≢ panics
done-ne-panics a e = ground arith

module _ {P V : Type 0} (kind : String) (key : P → String) (transform : P → Option V) where
  add_if_absent_total :
      (p : P) (m : List (String × V)) (o : Option V)
      → transform p ≢ none
      → add_if_absent kind key transform p m o ≢ panics
  add_if_absent_total p m (some v) h e = ground arith
  add_if_absent_total p m none h e = elim (Option-cases (transform p)) [
    | inl bad ↦ h bad
    | inr (v, there) ↦ ground arith
  ]

  add_entries_total :
      (ps : List P) (m : List (String × V))
      → All (λ p. transform p ≢ none) ps
      → add_entries kind key transform ps m ≢ panics
  unfolding add_entries
  add_entries_total [] m h = done-ne-panics m
  add_entries_total (p ∷ ps) m (h, hs) =
      bind_total _ _ (add_if_absent_total p m (lookup (key p) m) h)
        (λ m'. add_entries_total ps m' hs)

append_if_clear_total :
    (s : Resources.ServiceUser) (us : List Resources.ServiceUser) (o : Option LoadError)
    → append_if_clear s us o ≢ panics
append_if_clear_total s us none e = ground arith
append_if_clear_total s us (some x) e = ground arith

append_service_user_total :
    (us : List Resources.ServiceUser) (o : Option Resources.ServiceUser)
    → o ≢ none
    → append_service_user us o ≢ panics
append_service_user_total us none h = absurd (h refl)
append_service_user_total us (some s) h = append_if_clear_total s us _

add_service_users_total :
    (ss : List ServiceUser) (us : List Resources.ServiceUser)
    → All (λ s. transform_service_user s ≢ none) ss
    → add_service_users ss us ≢ panics
unfolding add_service_users
add_service_users_total [] us h = done-ne-panics us
add_service_users_total (s ∷ ss) us (h, hs) =
    bind_total _ _ (append_service_user_total us (transform_service_user s) h)
      (λ us'. add_service_users_total ss us' hs)

both_for_each :
    {A : Type 0} {P Q R : A → Type 0} (xs : List A)
    → ((x : A) → P x → Q x → R x)
    → All P xs
    → All Q xs
    → All R xs
both_for_each [] h p q = tt
both_for_each (x ∷ xs) h (p, ps) (q, qs) = (h x p q, both_for_each xs h ps qs)

-- Whatever was loaded before, adding a file that was accepted by `validateFile` does not panic, if
-- its references and bindings are as the YAML decoder makes them: with no value beside a type.
pub add_resources_from_file_no_panic :
    (res : Resources) (f : File)
    → validate_file f ≡ none
    → IsDecodedFile f
    → add_resources_from_file res f ≢ panics
unfolding add_resources_from_file
add_resources_from_file_no_panic res f accepted (groups_d, users_d, service_d) =
    let (_, (policies, (groups, (users, service_users)))) =
      (validate_file-IsValidFile f).0 accepted in
    bind_total _ _
      (add_entries_total _ _ _ f.boundaries res.boundaries
        (All-of_in _ f.boundaries (λ b m. some-ne-none (transform_boundary b))))
      (λ bs.
        bind_total _ _
          (add_entries_total _ _ _ f.policies res.policies (
            All-of_in _ f.policies
              (λ p m. transform_policy_total p (All-in _ p f.policies policies m))))
          (λ ps.
            bind_total _ _
              (add_entries_total _ _ _ f.groups res.groups
                (both_for_each f.groups transform_group_total groups groups_d))
              (λ gs.
                bind_total _ _
                  (add_entries_total _ _ _ f.users res.users
                    (both_for_each f.users transform_user_total users users_d))
                  (λ us.
                    bind_total _ _
                      (add_service_users_total f.service_users res.service_users (
                        both_for_each f.service_users transform_service_user_total service_users
                          service_d))
                      (λ ss. done-ne-panics _)))))
