-- ===== src/Delete/Entries.antt =====
-- Which entries of a delete file pkg/delete/loader.go accepts, and as what.
use dynatrace_configuration.Base.{
  ℕ, String, Char, code, Bool, true, false, none, ◌≡◌, ◌≢◌, refl, ap, ◌∙◌, ◌↔◌, ◌⊎◌, inl, inr,
  arith, eq_iff, cut, contains, contains_lem, ◌==◌, ==_iff, Bool-cases,
}
use Prim.Native.String.{[], ◌∷◌}
use dynatrace_configuration.Delete.Loader.{
  DeleteEntry, DeletePointer, Api, EntryError, pointer, refused, custom_value, key_user_actions_web,
  slash, verify_api_entry, verify_coordinate_entry, convert_legacy, pointer_to,
}

-- Exactly one of the two texts is set.
abbrev pub OneOf : String → String → Type 0
OneOf s t = ((s ≢ "") × (t ≡ "")) ⊎ ((s ≡ "") × (t ≢ ""))

abbrev pub NeedsScope : Bool → String → Type 0
NeedsScope parent scope = (parent ≡ true → scope ≢ "") × (parent ≡ false → scope ≡ "")

-- An entry for an API is accepted exactly when it has no id and no project, either a name or an
-- object id but not both, a scope exactly if the API has a parent, and an action type and a domain if
-- the API is that of the key user actions of web applications.
pub verify_api_entry_accepts :
    (e : DeleteEntry) (a : Api)
    → (verify_api_entry e a ≡ none) ↔ (
        (e.config_id ≡ "")
        × (e.project ≡ "")
        × OneOf e.config_name e.object_id
        × NeedsScope a.has_parent e.scope
        × (a.id ≡ key_user_actions_web
            → (custom_value "actionType" e ≢ "") × (custom_value "domain" e ≢ "")))
unfolding verify_api_entry
verify_api_entry_accepts e a = ground (
  arith,
  eq_iff e.config_id "",
  eq_iff e.project "",
  eq_iff e.config_name "",
  eq_iff e.object_id "",
  eq_iff e.scope "",
  eq_iff a.id key_user_actions_web,
  eq_iff (custom_value "actionType" e) "",
  eq_iff (custom_value "domain" e) "",
)

-- An entry for another type is accepted exactly when it has no name, and either an object id and
-- neither an id nor a project, or no object id and both an id and a project.
pub verify_coordinate_entry_accepts :
    (e : DeleteEntry)
    → (verify_coordinate_entry e ≡ none) ↔ (
        (e.config_name ≡ "")
        × (((e.object_id ≢ "") × (e.config_id ≡ "") × (e.project ≡ ""))
            ⊎ ((e.object_id ≡ "") × (e.config_id ≢ "") × (e.project ≢ ""))))
unfolding verify_coordinate_entry
verify_coordinate_entry_accepts e = ground (
  arith,
  eq_iff e.config_name "",
  eq_iff e.object_id "",
  eq_iff e.config_id "",
  eq_iff e.project "",
)

-- A text, a character and a text, one after the other.
abbrev pub glue : String → Char → String → String
glue [] d t = d ∷ t
glue (c ∷ s) d t = c ∷ glue s d t

-- The parts of a cut, with the separator between them, are the text, and the first has none.
cut_joined :
    (sep : ℕ) (s : String)
    → (cut sep s).2 ≡ true
    → (d : Char) × (code d ≡ sep)
      × (s ≡ glue ((cut sep s).0) d ((cut sep s).1))
      × (contains sep ((cut sep s).0) ≡ false)
unfolding cut contains
cut_joined sep [] e = ground arith
cut_joined sep (c ∷ s) e = elim (Bool-cases (code c == sep)) [
  | inl same ↦ rw same (c, (==_iff (code c) sep).0 same, refl, refl)
  | inr other ↦
      let (d, at_d, joined, first) = cut_joined sep s (ground arith) in
      rw other (d, at_d, ap (λ q. c ∷ q) joined, rw other first)
]

-- A text is accepted as an entry exactly when it has a slash; its type is then the part before the
-- first slash and its identifier all that is behind it.
pub convert_legacy_lem :
    (entry : String)
    → ((contains slash entry ≡ false) × (convert_legacy entry ≡ refused EntryError.no_delimiter))
      ⊎ ((p : DeletePointer) × (d : Char) × (convert_legacy entry ≡ pointer p)
          × (code d ≡ slash)
          × (entry ≡ glue p.type d p.identifier)
          × (contains slash p.type ≡ false))
unfolding convert_legacy
convert_legacy_lem entry = elim (Bool-cases ((cut slash entry).2)) [
  | inl found ↦
      let (d, at_d, joined, first) = cut_joined slash entry found in
      inr (
        pointer_to ((cut slash entry).0) ((cut slash entry).1),
        d,
        ground arith,
        at_d,
        joined,
        first,
      )
  | inr absent ↦ inl (contains_lem slash entry ∙ absent, ground arith)
]
