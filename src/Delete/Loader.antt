-- ===== src/Delete/Loader.antt =====
-- `parseDeleteFileDefinition` of pkg/delete/loader.go, with pkg/delete/persistence/persistence.go and
-- pkg/delete/pointer/delete_pointer.go.
use dynatrace_configuration.Base.{
  ℕ, ◌+◌, String, Bool, not, ◌&&◌, ◌||◌, List, [], ◌∷◌, ◌++◌, Option, none, some, str_eq,
  if◌then◌else◌, cut, lookup, insert,
}
use dynatrace_configuration.Base.Value.{Value, str}
use dynatrace_configuration.Account.Checks.{◌>>>◌}

pub record DeleteEntry : Type 0 where
  pub project : String
  pub type : String
  pub config_id : String
  pub config_name : String
  pub object_id : String
  pub scope : String
  pub custom_values : List (String × String)

pub record DeletePointer : Type 0 where
  pub project : String
  pub type : String
  pub identifier : String
  pub scope : String
  pub action_type : String
  pub domain : String
  pub origin_object_id : String

-- What the loader asks of an API.
pub record Api : Type 0 where
  pub id : String
  pub has_parent : Bool

abbrev pub key_user_actions_web : String
key_user_actions_web = "key-user-actions-web"

-- The reasons, by their messages.
pub data EntryError : Type 0 where
  not_decoded : EntryError
  type_not_supported : EntryError
  not_supported : (field : String) → EntryError
  name_and_object_id : EntryError
  name_or_object_id_required : EntryError
  scope_required : EntryError
  scope_not_allowed : EntryError
  custom_value_required : (field : String) → EntryError
  object_id_or_pair_required : EntryError
  pair_and_object_id : EntryError
  id_required : EntryError
  project_required : EntryError
  no_delimiter : EntryError

abbrev pub is_set : String → Bool
is_set s = not (str_eq s "")

abbrev pub refuse_if : Bool → EntryError → Option EntryError
refuse_if b e = if b then some e else none

-- Go's lookup in a map of texts, which yields the empty text for a missing key.
abbrev pub or_empty : Option String → String
or_empty none = ""
or_empty (some s) = s

abbrev pub custom_value : String → DeleteEntry → String
custom_value k e = or_empty (lookup k e.custom_values)

unfoldable pub verify_api_entry : DeleteEntry → Api → Option EntryError
verify_api_entry e a =
    refuse_if (is_set e.config_id) (not_supported "id")
    >>> refuse_if (is_set e.project) (not_supported "project")
    >>> refuse_if (is_set e.config_name && is_set e.object_id) name_and_object_id
    >>> refuse_if (not (is_set e.config_name) && not (is_set e.object_id))
        name_or_object_id_required
    >>> refuse_if (a.has_parent && not (is_set e.scope)) scope_required
    >>> refuse_if (not a.has_parent && is_set e.scope) scope_not_allowed
    >>> (if str_eq a.id key_user_actions_web
        then refuse_if (not (is_set (custom_value "actionType" e)))
            (custom_value_required "actionType")
          >>> refuse_if (not (is_set (custom_value "domain" e))) (custom_value_required "domain")
        else none)

unfoldable pub verify_coordinate_entry : DeleteEntry → Option EntryError
verify_coordinate_entry e =
    refuse_if (is_set e.config_name) (not_supported "name")
    >>> (if not (is_set e.object_id) && not (is_set e.config_id) && not (is_set e.project)
        then some object_id_or_pair_required
        else if is_set e.object_id
        then refuse_if (is_set e.config_id || is_set e.project) pair_and_object_id
        else refuse_if (not (is_set e.config_id)) id_required
          >>> refuse_if (not (is_set e.project)) project_required)

pub data Converted : Type 0 where
  pointer : DeletePointer → Converted
  refused : EntryError → Converted

abbrev pub slash : ℕ
slash = b'/'

abbrev pub pointer_to : String → String → DeletePointer
pointer_to type identifier = record {
  project = "";
  type = type;
  identifier = identifier;
  scope = "";
  action_type = "";
  domain = "";
  origin_object_id = "";
}

abbrev pub legacy_pointer : String × String × Bool → Converted
legacy_pointer (type, identifier, found) =
    if found then pointer (pointer_to type identifier) else refused no_delimiter

-- `strings.SplitN` with a limit of two parts cuts at the first delimiter.
unfoldable pub convert_legacy : String → Converted
convert_legacy entry = legacy_pointer (cut slash entry)

-- The table of `api.NewAPIs`, and the decoding of an entry by mapstructure, which may fail.
module _ (apis : String → Option Api) (decode : Value → Option DeleteEntry) where
  abbrev pub verify : DeleteEntry → Option Api → Option EntryError
  verify e (some a) = verify_api_entry e a
  verify e none = verify_coordinate_entry e

  abbrev pub identifier_of : DeleteEntry → Option Api → String
  identifier_of e (some a) = e.config_name
  identifier_of e none = e.config_id

  abbrev pub pointer_of : DeleteEntry → DeletePointer
  pointer_of e = record {
    project = e.project;
    type = e.type;
    identifier = identifier_of e (apis e.type);
    scope = e.scope;
    action_type = custom_value "actionType" e;
    domain = custom_value "domain" e;
    origin_object_id = e.object_id;
  }

  abbrev pub converted : DeleteEntry → Option EntryError → Converted
  converted e none = pointer (pointer_of e)
  converted e (some r) = refused r

  abbrev pub convert_decoded : Option DeleteEntry → Converted
  convert_decoded none = refused not_decoded
  convert_decoded (some e) =
      converted e (refuse_if (not (is_set e.type)) type_not_supported >>> verify e (apis e.type))

  unfoldable pub convert : Value → Converted
  convert v = convert_decoded (decode v)

  unfoldable pub convert_to_delete_pointer : Value → Converted
  convert_to_delete_pointer (str s) = convert_legacy s
  convert_to_delete_pointer v = convert v

  -- Index and reason.
  pub record Parsing : Type 0 where
    pub result : List (String × List DeletePointer)
    pub errs : List (ℕ × EntryError)

module _ (apis : String → Option Api) (decode : Value → Option DeleteEntry) where
  abbrev pub entries_of : String → List (String × List DeletePointer) → List DeletePointer
  entries_of type m = elim (lookup type m) [ none ↦ [] | some ps ↦ ps ]

  abbrev pub add_converted : ℕ → Parsing apis decode → Converted → Parsing apis decode
  add_converted i s (refused r) = record s { errs = s.errs ++ (i, r) ∷ [] }
  add_converted i s (pointer p) = record s {
    result = insert p.type (entries_of p.type s.result ++ p ∷ []) s.result;
  }

  unfoldable pub parse_entries : ℕ → List Value → Parsing apis decode → Parsing apis decode
  parse_entries i [] s = s
  parse_entries i (v ∷ vs) s =
      parse_entries (i + 1) vs (add_converted i s (convert_to_delete_pointer apis decode v))

  abbrev pub parsed :
      Parsing apis decode → Option (List (String × List DeletePointer)) × List (ℕ × EntryError)
  parsed s = elim (s.errs) [ [] ↦ (some s.result, []) | e ∷ es ↦ (none, e ∷ es) ]

  -- The entries by type, or the errors.
  unfoldable pub parse_delete_file_definition :
      List Value → Option (List (String × List DeletePointer)) × List (ℕ × EntryError)
  parse_delete_file_definition vs = parsed (parse_entries 0 vs (record { result = []; errs = [] }))
