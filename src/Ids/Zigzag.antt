-- ===== src/Ids/Zigzag.antt =====
-- Legacy ids: what was written as a signed integer of variable length is read back.
use native.Mathlib.Nat.{mod-eq_of_lt}
use Prim.Native.Nat.{bit_xor}
use dynatrace_configuration.Base.{
  ℕ, zero, suc, ◌+◌, ◌-◌, ◌*◌, ◌/◌, ◌%◌, ◌^◌, ◌<◌, ◌≡◌, ap, ◌∙◌, arith, List, [], ◌∷◌, ◌++◌, some,
  append_assoc, append-nil, sym, refl, length, length-append, ltb, false, ◌==◌,
}
use dynatrace_configuration.Ids.Bits.{bit_xor_ones}
use dynatrace_configuration.Ids.NumericId.{
  ℤ, pos, negsuc, word_size, signed, take, drop, var_int, zigzag_decode, zigzag_decoded,
  get_legacy_numeric_id,
}
use dynatrace_configuration.Ids.VarInt.{leb128, var_int_lem}

-- The range of an int64.
abbrev pub IsInt64 : ℤ → Type 0
IsInt64 (pos n) = n < 2 ^ 63
IsInt64 (negsuc n) = n < 2 ^ 63

-- Even numbers for zero and above, odd ones below.
abbrev pub zigzag_encode : ℤ → ℕ
zigzag_encode (pos n) = n * 2
zigzag_encode (negsuc n) = n * 2 + 1

-- As many groups of seven digits, the lowest first, as `more` and one; all but the last are
-- marked.
unfoldable pub to_leb128 : (more : ℕ) → ℕ → List ℕ
to_leb128 zero n = (n % 128) ∷ []
to_leb128 (suc more) n = (n % 128 + 128) ∷ to_leb128 more (n / 128)

-- A legacy UUID: its first six bytes and its last four hold the integer.
abbrev pub legacy_uuid : List ℕ → List ℕ → List ℕ
legacy_uuid integer middle = take 6 integer ++ middle ++ drop 6 integer

zigzag_decode-zigzag_encode : (z : ℤ) → IsInt64 z → signed (zigzag_decode (zigzag_encode z)) ≡ z
unfolding signed zigzag_decode
zigzag_decode-zigzag_encode (pos n) h = ground arith
zigzag_decode-zigzag_encode (negsuc n) h =
    let odd : ((n * 2 + 1) % 2 == 0) ≡ false = ground arith in
    let half : (n * 2 + 1) / 2 ≡ n = omega arith in
    let flipped : bit_xor n (word_size - 1) ≡ word_size - 1 - n = bit_xor_ones 64 n (omega arith) in
    let decoded : bit_xor ((n * 2 + 1) / 2) (word_size - 1) ≡ word_size - 1 - n =
      ap (λ z. bit_xor z (word_size - 1)) half ∙ flipped in
    rw odd (rw decoded (ground arith))

abbrev pub power_of_128 : ℕ → ℕ
power_of_128 zero = 1
power_of_128 (suc k) = 128 * power_of_128 k

-- What stands behind the last group is not read.
leb128-to_leb128 :
    (more n : ℕ) (rest : List ℕ)
    → n < power_of_128 (suc more)
    → leb128 (to_leb128 more n ++ rest) ≡ n
unfolding leb128 to_leb128
leb128-to_leb128 zero n rest h = ground arith
leb128-to_leb128 (suc more) n rest h =
    let marked : ltb (n % 128 + 128) 128 ≡ false = ground arith in
    rw marked (omega (arith, leb128-to_leb128 more (n / 128) rest (omega arith)))

var_int-to_leb128 :
    (more n : ℕ) (rest : List ℕ)
    → n < power_of_128 (suc more)
    → n < word_size
    → var_int (to_leb128 more n ++ rest) ≡ some n
unfolding to_leb128
var_int-to_leb128 more n rest h in_word =
    not_empty more
    ∙ ap (λ z. some (z % word_size)) (leb128-to_leb128 more n rest h)
    ∙ ap some (mod-eq_of_lt in_word)
  where
    not_empty :
        (more : ℕ)
        → var_int (to_leb128 more n ++ rest) ≡ some (leb128 (to_leb128 more n ++ rest) % word_size)
    not_empty zero = var_int_lem _ _
    not_empty (suc more) = var_int_lem _ _

take-append : (k : ℕ) (xs ys : List ℕ) → length xs ≡ k → take k (xs ++ ys) ≡ xs
take-append zero [] ys h = refl
take-append zero (x ∷ xs) ys h = absurd (omega (arith, h))
take-append (suc k) [] ys h = absurd (omega (arith, h))
take-append (suc k) (x ∷ xs) ys h = ap (λ z. x ∷ z) (take-append k xs ys (omega (arith, h)))

drop-append : (k : ℕ) (xs ys : List ℕ) → length xs ≡ k → drop k (xs ++ ys) ≡ ys
drop-append zero [] ys h = refl
drop-append zero (x ∷ xs) ys h = absurd (omega (arith, h))
drop-append (suc k) [] ys h = absurd (omega (arith, h))
drop-append (suc k) (x ∷ xs) ys h = drop-append k xs ys (omega (arith, h))

take_with_drop :
    (k m : ℕ) (xs : List ℕ)
    → length xs ≡ k + m
    → (length (take k xs) ≡ k) × (length (drop k xs) ≡ m) × (take k xs ++ drop k xs ≡ xs)
take_with_drop zero m xs h = (refl, omega (arith, h), refl)
take_with_drop (suc k) m [] h = absurd (omega (arith, h))
take_with_drop (suc k) m (x ∷ xs) h =
    let (front, back, whole) = take_with_drop k m xs (omega (arith, h)) in
    (omega (arith, front), back, ap (λ z. x ∷ z) whole)

encode_in_word : (z : ℤ) → IsInt64 z → zigzag_encode z < word_size
encode_in_word (pos n) h = omega arith
encode_in_word (negsuc n) h = omega arith

-- The ten bytes that `getLegacyNumericID` reads.
read_bytes :
    (integer middle : List ℕ)
    → length integer ≡ 10
    → length middle ≡ 6
    → take 6 (legacy_uuid integer middle) ++ take 4 (drop 12 (legacy_uuid integer middle)) ≡ integer
read_bytes integer middle ten six =
    let (front, back, whole) = take_with_drop 6 4 integer ten in
    let first = take 6 integer in
    let last = drop 6 integer in
    let behind : drop 12 (first ++ middle ++ last) ≡ last =
      drop-append 12 (first ++ middle) last
        (omega (arith, length-append first middle, front, six)) in
    let rest : take 4 last ≡ last =
      ap (take 4) (sym (append-nil last)) ∙ take-append 4 last [] back in
    ap (λ z. z ++ take 4 (drop 12 (first ++ middle ++ last)))
      (ap (take 6) (append_assoc first middle last) ∙ take-append 6 first (middle ++ last) front)
    ∙ ap (λ z. first ++ take 4 z) behind
    ∙ ap (λ z. first ++ z) rest
    ∙ whole

legacy_value :
    (u : List ℕ) (v : ℕ)
    → var_int (take 6 u ++ take 4 (drop 12 u)) ≡ some v
    → get_legacy_numeric_id u ≡ some (signed (zigzag_decode v))
unfolding get_legacy_numeric_id
legacy_value u v read = ap zigzag_decoded read

-- Let the first six and the last four of the sixteen bytes of a UUID begin with a 64-bit integer in
-- zigzag and LEB128 form, in `more` marked groups of seven digits and a last one, as few or as many
-- as hold it. Then the numeric id is that integer, whatever bytes follow its groups and whatever six
-- bytes stand in the middle.
pub get_legacy_numeric_id_lem :
    (z : ℤ)
    → IsInt64 z
    → (more : ℕ) → zigzag_encode z < power_of_128 (suc more)
    → (rest middle : List ℕ) → length (to_leb128 more (zigzag_encode z) ++ rest) ≡ 10
    → length middle ≡ 6
    → get_legacy_numeric_id (legacy_uuid (to_leb128 more (zigzag_encode z) ++ rest) middle) ≡ some z
get_legacy_numeric_id_lem z h more fits rest middle ten six =
    let v = zigzag_encode z in
    let integer = to_leb128 more v ++ rest in
    legacy_value (legacy_uuid integer middle) v (
      ap var_int (read_bytes integer middle ten six)
      ∙ var_int-to_leb128 more v rest fits (encode_in_word z h))
    ∙ ap some (zigzag_decode-zigzag_encode z h)
