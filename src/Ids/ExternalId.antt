-- ===== src/Ids/ExternalId.antt =====
-- internal/idutils/external_id.go: the external ids of settings objects. The encoding in base 64
-- is a parameter; its texts have
-- one byte for each character.
use Prim.Native.String.{String, [], ◌∷◌, ◌++◌}
use text.Mathlib.TextLemmas.{nil-append, cons-append}
use dynatrace_configuration.Base.{
  ℕ, zero, suc, ◌+◌, ◌-◌, ◌≤◌, ◌≡◌, refl, ap, ◌∙◌, ◌↔◌, false, ◌||◌, inl, inr, arith, ltb, str_eq,
  text_length, Bool-cases, if◌then◌else◌,
}
use dynatrace_configuration.Config.Coordinate.{Coordinate}
use dynatrace_configuration.Config.Parameter.{Result, ok, err}

-- A slice of a text from an index on.
unfoldable pub text_drop : ℕ → String → String
text_drop zero s = s
text_drop (suc n) [] = []
text_drop (suc n) (c ∷ s) = text_drop n s

abbrev pub formatted_id : Coordinate → String
formatted_id c =
    if str_eq c.project ""
    then c.type ++ "$" ++ c.config_id
    else c.project ++ "$" ++ c.type ++ "$" ++ c.config_id

abbrev pub encoded_id_max_length : ℕ
encoded_id_max_length = 493

module _ (encode_to_string : String → String) where
  unfoldable pub generate_external_id_for_settings_object : Coordinate → Result String
  generate_external_id_for_settings_object c =
      let encoded_id = encode_to_string (formatted_id c) in
      let sliced = text_drop encoded_id_max_length encoded_id in
      if str_eq c.type "" || str_eq c.config_id ""
      then err "schema id and config id needs to be set"
      else if ltb encoded_id_max_length (text_length encoded_id)
      then ok ("monaco:" ++ sliced)
      else ok ("monaco:" ++ encoded_id)

text_length-append : (s t : String) → text_length (s ++ t) ≡ text_length s + text_length t
text_length-append [] t = ap text_length (nil-append t) ∙ omega arith
text_length-append (c ∷ s) t =
    ap text_length (cons-append c s t) ∙ omega (arith, text_length-append s t)

text_length-text_drop : (n : ℕ) (s : String) → text_length (text_drop n s) ≡ text_length s - n
unfolding text_drop
text_length-text_drop zero s = omega arith
text_length-text_drop (suc n) [] = omega arith
text_length-text_drop (suc n) (c ∷ s) = omega (arith, text_length-text_drop n s)

-- For a coordinate with a type and an id the result is an external id, which has at most the 500
-- characters of the limit exactly when the encoded text has at most 986.
pub generate_external_id_length :
    (encode_to_string : String → String) (c : Coordinate)
    → str_eq c.type "" ≡ false
    → str_eq c.config_id "" ≡ false
    → (id : String) × (generate_external_id_for_settings_object encode_to_string c ≡ ok id)
      × ((text_length id ≤ 500) ↔ (text_length (encode_to_string (formatted_id c)) ≤ 986))
unfolding generate_external_id_for_settings_object
generate_external_id_length encode_to_string c has_type has_id =
    let encoded = encode_to_string (formatted_id c) in
    elim (Bool-cases (ltb 493 (text_length encoded))) [
      | inl long ↦ (
        "monaco:" ++ text_drop 493 encoded,
        rw has_type (rw has_id (rw long refl)),
        (
          (λ l. ground (
            arith,
            text_length-append "monaco:" (text_drop 493 encoded),
            text_length-text_drop 493 encoded,
          )),
          (λ l. ground (
            arith,
            text_length-append "monaco:" (text_drop 493 encoded),
            text_length-text_drop 493 encoded,
          )),
        ),
      )
      | inr short ↦ (
        "monaco:" ++ encoded,
        rw has_type (rw has_id (rw short refl)),
        (
          (λ l. ground (arith, text_length-append "monaco:" encoded)),
          (λ l. ground (arith, text_length-append "monaco:" encoded)),
        ),
      )
    ]
