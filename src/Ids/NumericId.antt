-- ===== src/Ids/NumericId.antt =====
-- internal/idutils/numeric_id.go. A Go `int` and `int64` is its word of 64 bits, and a UUID is the
-- list of its 16 bytes.
use Prim.Native.Nat.{bit_or, bit_xor}
use dynatrace_configuration.Base.{
  ℕ, zero, suc, ◌+◌, ◌-◌, ◌*◌, ◌/◌, ◌%◌, ◌^◌, Bool, true, false, ◌&&◌, List, [], ◌∷◌, ◌++◌, Option,
  none, some, String, ltb, ◌==◌, if◌then◌else◌,
}
use dynatrace_configuration.Config.Parameter.{Result, ok, err}

-- The signed integers.
pub data ℤ : Type 0 where
  pos : ℕ → ℤ
  negsuc : ℕ → ℤ

abbrev pub word_size : ℕ
word_size = 2 ^ 64

-- The number that a word stands for.
unfoldable pub signed : ℕ → ℤ
signed w = if ltb w (2 ^ 63) then pos w else negsuc (word_size - 1 - w)

abbrev pub take : ℕ → List ℕ → List ℕ
take zero xs = []
take (suc n) [] = []
take (suc n) (x ∷ xs) = x ∷ take n xs

abbrev pub drop : ℕ → List ℕ → List ℕ
drop zero xs = xs
drop (suc n) [] = []
drop (suc n) (x ∷ xs) = drop n xs

-- The loop. The mask 0x7F is the remainder by 128, and the bit 0x80 is set from 128 on.
unfoldable pub var_int_loop : (result shift : ℕ) → List ℕ → ℕ
var_int_loop result shift [] = result
var_int_loop result shift (next_byte ∷ buf) =
    let shifted = (next_byte % 128) * 2 ^ (shift + 7) % word_size in
    let rest = var_int_loop (bit_or result shifted) (shift + 7) buf in
    if ltb next_byte 128 then bit_or result shifted else rest

-- `none` is the panic on an empty buffer.
unfoldable pub var_int : List ℕ → Option ℕ
var_int [] = none
var_int (next_byte ∷ buf) =
    if ltb next_byte 128 then some next_byte else some (var_int_loop (next_byte % 128) 0 buf)

unfoldable pub zigzag_decode : ℕ → ℕ
zigzag_decode value =
    let shifted = value / 2 in if value % 2 == 0 then shifted else bit_xor shifted (word_size - 1)

abbrev big_endian : ℕ → List ℕ → ℕ
big_endian n [] = n
big_endian n (b ∷ bs) = big_endian (n * 256 + b) bs

unfoldable pub get_numeric_id : List ℕ → ℤ
unfolding signed
get_numeric_id u = signed (big_endian 0 (take 8 u))

abbrev pub zigzag_decoded : Option ℕ → Option ℤ
zigzag_decoded none = none
zigzag_decoded (some value) = some (signed (zigzag_decode value))

unfoldable pub get_legacy_numeric_id : List ℕ → Option ℤ
get_legacy_numeric_id u = zigzag_decoded (var_int (take 6 u ++ take 4 (drop 12 u)))

-- The decoding of an object id, the search for a UUID in it with the group that is found, and the
-- UUID of a text with its variant and version.
pub record Decoding : Type 0 where
  pub decode_string : String → Result String
  pub find_submatch : String → Option String
  pub parse : String → Result (List ℕ)
  pub is_rfc4122 : List ℕ → Bool
  pub version : List ℕ → ℕ

unfoldable pub get_numeric_id_for_object_id : Decoding → String → Option (Result ℤ)
get_numeric_id_for_object_id d object_id = elim (d.decode_string object_id) [
  | err e ↦ some (err "failed to decode objectID")
  | ok decoded ↦ elim (d.find_submatch decoded) [
    | none ↦ some (err "failed to read UUID from decoded objectID")
    | some uuid_string ↦ elim (d.parse uuid_string) [
      | err e ↦ some (err "failed to parse UUID")
      | ok u ↦ elim (d.is_rfc4122 u && (d.version u == 4)) [
        | false ↦ some (ok (get_numeric_id u))
        | true ↦ elim (get_legacy_numeric_id u) [ none ↦ none | some n ↦ some (ok n) ]
      ]
    ]
  ]
]
