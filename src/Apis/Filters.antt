-- ===== src/Apis/Filters.antt =====
-- `APIs.Filter` and the filters of pkg/api/apis.go.
use dynatrace_configuration.Base.{
  String, Bool, true, false, not, ◌||◌, List, [], ◌∷◌, ◌≡◌, ◌≢◌, refl, sym, ◌∙◌, ap, ◌↔◌, inl, inr,
  In, All, arith, str_eq, eq_iff, if◌then◌else◌, Bool-cases,
}

-- What the filters read of an API.
pub record ApiEntry : Type 0 where
  pub id : String
  pub non_deletable : Bool
  pub require_all_ff : List String

abbrev pub ApiTable : Type 0
ApiTable = List (String × ApiEntry)

-- A filter tells which entries to remove.
unfoldable pub any_removes : List (ApiEntry → Bool) → ApiEntry → Bool
any_removes [] a = false
any_removes (f ∷ fs) a = f a || any_removes fs a

unfoldable pub filter_apis : List (ApiEntry → Bool) → ApiTable → ApiTable
filter_apis fs [] = []
filter_apis fs ((k, a) ∷ apis) =
    let rest = filter_apis fs apis in if any_removes fs a then rest else (k, a) ∷ rest

abbrev pub any_disabled : (String → Bool) → List String → Bool
any_disabled enabled [] = false
any_disabled enabled (ff ∷ ffs) = not (enabled ff) || any_disabled enabled ffs

unfoldable pub remove_disabled : (String → Bool) → ApiEntry → Bool
remove_disabled enabled a = any_disabled enabled a.require_all_ff

unfoldable pub remove_non_deletable : ApiEntry → Bool
remove_non_deletable a = a.non_deletable

abbrev pub one_of : List String → String → Bool
one_of [] id = false
one_of (name ∷ names) id = str_eq name id || one_of names id

unfoldable pub retain_by_name : List String → ApiEntry → Bool
retain_by_name [] a = false
retain_by_name (name ∷ names) a = not (one_of (name ∷ names) a.id)

any_removes_iff :
    (fs : List (ApiEntry → Bool)) (a : ApiEntry)
    → (any_removes fs a ≡ false) ↔ All (λ f. f a ≡ false) fs
unfolding any_removes
any_removes_iff [] a = ((λ e. tt), (λ u. refl))
any_removes_iff (f ∷ fs) a =
    let rest = any_removes_iff fs a in
    (
      (λ e. (ground arith, rest.0 (ground arith))),
      (λ (h, hs). let others = rest.1 hs in ground arith),
    )

-- The filtered table has exactly the entries that no filter removes.
pub filter_apis_lem :
    (fs : List (ApiEntry → Bool)) (apis : ApiTable) (e : String × ApiEntry)
    → In e (filter_apis fs apis) ↔ (In e apis × All (λ f. f e.1 ≡ false) fs)
unfolding filter_apis
filter_apis_lem fs [] e = ((λ m. absurd m), (λ (m, _). m))
filter_apis_lem fs ((k, a) ∷ apis) e = by_test (any_removes fs a) refl (filter_apis_lem fs apis e)
  where
    by_test :
        (b : Bool)
        → any_removes fs a ≡ b
        → In e (filter_apis fs apis) ↔ (In e apis × All (λ f. f e.1 ≡ false) fs)
        → In e (if b then filter_apis fs apis else (k, a) ∷ filter_apis fs apis)
          ↔ (In e ((k, a) ∷ apis) × All (λ f. f e.1 ≡ false) fs)
    by_test true t h = (
      (λ m. let (x, y) = h.0 m in (inr x, y)),
      (λ (m, keeps). elim m [
        | inl same ↦
            let bad : true ≡ false =
              sym t ∙ sym (ap (λ q. any_removes fs q.1) same) ∙ (any_removes_iff fs e.1).1 keeps in
            cc
        | inr later ↦ h.1 (later, keeps)
      ]),
    )
    by_test false t h = (
      (λ m. elim m [
        | inl same ↦ (inl same, (any_removes_iff fs e.1).0 (ap (λ q. any_removes fs q.1) same ∙ t))
        | inr later ↦ let (x, y) = h.0 later in (inr x, y)
      ]),
      (λ (m, keeps). elim m [ inl same ↦ inl same | inr later ↦ inr (h.1 (later, keeps)) ]),
    )

one_of_iff : (names : List String) (id : String) → (one_of names id ≡ true) ↔ In id names
one_of_iff [] id = ((λ e. ground arith), (λ m. absurd m))
one_of_iff (name ∷ names) id =
    let rest = one_of_iff names id in
    let here = eq_iff name id in
    (
      (λ e. elim (Bool-cases (str_eq name id)) [
        | inl same ↦ inl (sym (here.0 same))
        | inr differs ↦ inr (rest.0 (ground arith))
      ]),
      (λ m. elim m [
        | inl same ↦ let equal = here.1 (sym same) in ground arith
        | inr later ↦ let found = rest.1 later in ground arith
      ]),
    )

-- Filtering by a list of names that is not empty leaves exactly the entries whose id is in the list.
pub retain_by_name_lem :
    (names : List String) (apis : ApiTable) (e : String × ApiEntry)
    → names ≢ []
    → In e (filter_apis (retain_by_name names ∷ []) apis) ↔ (In e apis × In e.1.id names)
unfolding retain_by_name
retain_by_name_lem [] apis e ne = absurd (ne refl)
retain_by_name_lem (name ∷ names) apis e ne =
    let kept = filter_apis_lem (retain_by_name (name ∷ names) ∷ []) apis e in
    let found = one_of_iff (name ∷ names) e.1.id in
    (
      (λ m. let (x, (y, _)) = kept.0 m in (x, found.0 (ground arith))),
      (λ (m, k). let there = found.1 k in kept.1 (m, (ground arith, tt))),
    )
