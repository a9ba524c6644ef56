-- ===== src/Delete/Grouped.antt =====
-- `parseDeleteFileDefinition` of pkg/delete/loader.go against a description without a state.
use dynatrace_configuration.Base.{
  ℕ, ◌+◌, String, Bool, true, false, List, [], ◌∷◌, ◌++◌, Option, none, some, ◌≡◌, ◌≢◌, refl, sym,
  ap, ◌∙◌, inl, inr, arith, eq_iff, str_eq, lookup, insert, lookup-insert, append_assoc, append-nil,
  if◌then◌else◌, Bool-cases,
}
use dynatrace_configuration.Base.Value.{Value}
use dynatrace_configuration.Delete.Loader.{
  DeleteEntry, DeletePointer, Api, EntryError, Converted, pointer, refused,
  convert_to_delete_pointer, Parsing, entries_of, add_converted, parse_entries, parsed,
  parse_delete_file_definition,
}

module _ (apis : String → Option Api) (decode : Value → Option DeleteEntry) where
  abbrev pub with_error : ℕ → Converted → List (ℕ × EntryError) → List (ℕ × EntryError)
  with_error i (pointer p) es = es
  with_error i (refused r) es = (i, r) ∷ es

  -- The refused entries from the index `i` on, in the order of the file.
  abbrev pub errors_from : ℕ → List Value → List (ℕ × EntryError)
  errors_from i [] = []
  errors_from i (v ∷ vs) =
      with_error i (convert_to_delete_pointer apis decode v) (errors_from (i + 1) vs)

  abbrev pub with_pointer : String → Converted → List DeletePointer → List DeletePointer
  with_pointer type (refused r) ps = ps
  with_pointer type (pointer p) ps = if str_eq p.type type then p ∷ ps else ps

  -- The pointers of one type, in the order of the file.
  abbrev pub pointers_of_type : String → List Value → List DeletePointer
  pointers_of_type type [] = []
  pointers_of_type type (v ∷ vs) =
      with_pointer type (convert_to_delete_pointer apis decode v) (pointers_of_type type vs)

  entries_of-insert :
      (type t : String) (ps : List DeletePointer) (m : List (String × List DeletePointer))
      → entries_of apis decode t (insert type ps m)
        ≡ (if str_eq type t then ps else entries_of apis decode t m)
  entries_of-insert type t ps m = elim (Bool-cases (str_eq type t)) [
    | inl same ↦ ground (arith, lookup-insert type t ps m)
    | inr other ↦ ground (arith, lookup-insert type t ps m)
  ]

  add_converted_errs :
      (i : ℕ) (s : Parsing apis decode) (c : Converted) (es : List (ℕ × EntryError))
      → (add_converted apis decode i s c).errs ++ es ≡ s.errs ++ with_error i c es
  add_converted_errs i s (pointer p) es = refl
  add_converted_errs i s (refused r) es = append_assoc s.errs ((i, r) ∷ []) es

  add_converted_result :
      (i : ℕ) (t : String) (s : Parsing apis decode) (c : Converted) (ps : List DeletePointer)
      → entries_of apis decode t (add_converted apis decode i s c).result ++ ps
        ≡ entries_of apis decode t s.result ++ with_pointer t c ps
  add_converted_result i t s (refused r) ps = refl
  add_converted_result i t s (pointer p) ps =
      ap (λ q. q ++ ps)
        (entries_of-insert p.type t (entries_of apis decode p.type s.result ++ p ∷ []) s.result)
      ∙ by_type (str_eq p.type t) refl
    where
      by_type :
          (b : Bool)
          → str_eq p.type t ≡ b
          → (if b
                then entries_of apis decode p.type s.result ++ p ∷ []
                else entries_of apis decode t s.result)
              ++ ps
            ≡ entries_of apis decode t s.result ++ (if b then p ∷ ps else ps)
      by_type true e =
          append_assoc (entries_of apis decode p.type s.result) (p ∷ []) ps
          ∙ ap (λ q. entries_of apis decode q s.result ++ p ∷ ps) ((eq_iff p.type t).0 e)
      by_type false e = refl

  parse_entries_errs :
      (i : ℕ) (vs : List Value) (s : Parsing apis decode)
      → (parse_entries apis decode i vs s).errs ≡ s.errs ++ errors_from i vs
  unfolding parse_entries
  parse_entries_errs i [] s = sym (append-nil s.errs)
  parse_entries_errs i (v ∷ vs) s =
      parse_entries_errs (i + 1) vs _
      ∙ add_converted_errs i s (convert_to_delete_pointer apis decode v) (errors_from (i + 1) vs)

  parse_entries_result :
      (i : ℕ) (t : String) (vs : List Value) (s : Parsing apis decode)
      → entries_of apis decode t (parse_entries apis decode i vs s).result
        ≡ entries_of apis decode t s.result ++ pointers_of_type t vs
  unfolding parse_entries
  parse_entries_result i t [] s = sym (append-nil (entries_of apis decode t s.result))
  parse_entries_result i t (v ∷ vs) s =
      parse_entries_result (i + 1) t vs _
      ∙ add_converted_result i t s (convert_to_delete_pointer apis decode v) (pointers_of_type t vs)

  parsed_cases :
      (s : Parsing apis decode) (es : List (ℕ × EntryError))
      → s.errs ≡ es
      → ((parsed apis decode s).1 ≡ es)
        × (es ≡ [] → (parsed apis decode s).0 ≡ some s.result)
        × (es ≢ [] → (parsed apis decode s).0 ≡ none)
  parsed_cases s [] e = (ground arith, (λ h. ground arith), (λ h. absurd (h refl)))
  parsed_cases s (x ∷ es) e = (ground arith, (λ h. ground arith), (λ h. ground arith))

  -- The errors are those of the refused entries, each with its index, in the order of the file. With
  -- an error there is no result; without one the result holds under each type the pointers of the
  -- entries of that type, in the order of the file.
  pub parse_delete_file_definition_lem :
      (vs : List Value)
      → ((parse_delete_file_definition apis decode vs).1 ≡ errors_from 0 vs)
        × (errors_from 0 vs ≢ [] → (parse_delete_file_definition apis decode vs).0 ≡ none)
        × (errors_from 0 vs ≡ []
            → (m : List (String × List DeletePointer)) × ((parse_delete_file_definition apis decode
                  vs).0
                ≡ some m)
              × ((t : String) → entries_of apis decode t m ≡ pointers_of_type t vs))
  unfolding parse_delete_file_definition lookup
  parse_delete_file_definition_lem vs =
      let s = parse_entries apis decode 0 vs (record { result = []; errs = [] }) in
      let (same, good, bad) = parsed_cases s (errors_from 0 vs) (parse_entries_errs 0 vs _) in
      (
        same,
        bad,
        (λ h. (
          s.result,
          good h,
          (λ t. parse_entries_result 0 t vs (record { result = []; errs = [] })),
        )),
      )
