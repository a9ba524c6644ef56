-- ===== src/Ids/Tests.antt =====
-- Identifiers at examples, and the theorems at them.
use dynatrace_configuration.Base.{
  ℕ, ◌%◌, ◌≤◌, ◌≡◌, refl, ◌↔◌, true, String, List, [], ◌∷◌, some, arith, text_length,
}
use dynatrace_configuration.Config.Coordinate.{Coordinate}
use dynatrace_configuration.Config.Parameter.{ok}
use dynatrace_configuration.Ids.BucketName.{
  keep_chars, drop_leading, text_take, sanitize_bucket_name, generate_bucket_name,
}
use dynatrace_configuration.Ids.ExternalId.{
  text_drop, formatted_id, generate_external_id_for_settings_object, generate_external_id_length,
}
use dynatrace_configuration.Ids.NumericId.{
  ℤ, pos, negsuc, signed, word_size, var_int, var_int_loop, zigzag_decode, get_legacy_numeric_id,
  get_numeric_id,
}
use dynatrace_configuration.Ids.Sanitized.{is_bucket_name, all_chars, sanitize_bucket_name_bounded}
use dynatrace_configuration.Ids.VarInt.{leb128, var_int_lem}
use dynatrace_configuration.Ids.Zigzag.{
  to_leb128, zigzag_encode, legacy_uuid, get_legacy_numeric_id_lem,
}

program : Unit {0}
unfolding keep_chars drop_leading text_take sanitize_bucket_name generate_bucket_name text_drop
    generate_external_id_for_settings_object signed var_int var_int_loop zigzag_decode
    get_legacy_numeric_id get_numeric_id is_bucket_name all_chars leb128 to_leb128
program = tt

-- Ten bytes, as of a legacy id; the last shift leaves the word.
abbrev ten_bytes : List ℕ
ten_bytes = 133 ∷ 130 ∷ 255 ∷ 255 ∷ 255 ∷ 255 ∷ 255 ∷ 255 ∷ 255 ∷ 3 ∷ []

overflows : var_int ten_bytes ≡ some 18446744073709535493
unfolding program
overflows = refl

var_int_lem_example : var_int ten_bytes ≡ some (leb128 ten_bytes % word_size)
var_int_lem_example = var_int_lem 133 (130 ∷ 255 ∷ 255 ∷ 255 ∷ 255 ∷ 255 ∷ 255 ∷ 255 ∷ 3 ∷ [])

abbrev negative : ℤ
negative = negsuc 4711

negative_read :
    get_legacy_numeric_id
      (legacy_uuid (to_leb128 9 (zigzag_encode negative)) (1 ∷ 2 ∷ 64 ∷ 4 ∷ 128 ∷ 6 ∷ []))
    ≡ some negative
unfolding program
negative_read = refl

-- The UUID 0aa2a378-24c9-4967-a83c-e3de4703b9e1 holds 5 in its first byte.
get_legacy_numeric_id_lem_example :
    get_legacy_numeric_id (
      legacy_uuid
        (10 ∷ 162 ∷ 163 ∷ 120 ∷ 36 ∷ 201 ∷ 71 ∷ 3 ∷ 185 ∷ 225 ∷ [])
        (73 ∷ 103 ∷ 168 ∷ 60 ∷ 227 ∷ 222 ∷ []))
    ≡ some (pos 5)
unfolding program
get_legacy_numeric_id_lem_example =
    get_legacy_numeric_id_lem (pos 5) (omega arith) 0 (omega arith)
      (162 ∷ 163 ∷ 120 ∷ 36 ∷ 201 ∷ 71 ∷ 3 ∷ 185 ∷ 225 ∷ []) (73 ∷ 103 ∷ 168 ∷ 60 ∷ 227 ∷ 222 ∷ [])
      refl refl

abbrev same_text : String → String
same_text s = s

sanitized : sanitize_bucket_name same_text "9-x_-my bucket!" ≡ "xmybucket"
unfolding program
sanitized = refl

-- Nothing is left of a name without letters.
emptied : sanitize_bucket_name same_text "2024_01" ≡ ""
unfolding program
emptied = refl

sanitize_bucket_name_bounded_example :
    (is_bucket_name (sanitize_bucket_name same_text "9-x_-my bucket!") ≡ true)
    × (text_length (sanitize_bucket_name same_text "9-x_-my bucket!") ≤ 100)
sanitize_bucket_name_bounded_example = sanitize_bucket_name_bounded same_text "9-x_-my bucket!"

abbrev long_id : Coordinate
long_id = record { project = "p"; type = "builtin:tags"; config_id = "auto-tag" }

generate_external_id_length_example :
    (id : String) × (generate_external_id_for_settings_object same_text long_id ≡ ok id)
    × ((text_length id ≤ 500) ↔ (text_length (same_text (formatted_id long_id)) ≤ 986))
generate_external_id_length_example = generate_external_id_length same_text long_id refl refl
