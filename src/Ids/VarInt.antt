-- ===== src/Ids/VarInt.antt =====
-- The variable-length integers of legacy ids against their LEB128 value.
use native.Mathlib.Nat.{
  two-pow-succ, mul-add, mul_comm, mul_assoc, mod-add-mod, add-mul-mod_self_right, mod-eq_of_lt,
  mul-mod_left, div-add-mod, mod-le, mul-le-mul_right,
}
use Prim.Native.Nat.{bit_or}
use dynatrace_configuration.Base.{
  ℕ, zero, suc, ◌+◌, ◌-◌, ◌*◌, ◌/◌, ◌%◌, ◌^◌, ◌≤◌, ◌<◌, ◌≡◌, ap, ◌∙◌, sym, arith, inl, inr, ltb,
  List, [], ◌∷◌, some, Bool-cases, if◌then◌else◌,
}
use dynatrace_configuration.Ids.Bits.{pow_pos, bit_or_add}
use dynatrace_configuration.Ids.NumericId.{word_size, var_int_loop, var_int}

-- The value of a LEB128 text: groups of seven digits, the lowest first, up to a byte below 128.
unfoldable pub leb128 : List ℕ → ℕ
leb128 [] = 0
leb128 (b ∷ bs) = let rest = leb128 bs in if ltb b 128 then b else b % 128 + 128 * rest

pow_add : (a k : ℕ) → 2 ^ (a + k) ≡ 2 ^ a * 2 ^ k
pow_add a zero = let same : a + 0 ≡ a = omega arith in ap (λ z. 2 ^ z) same ∙ omega arith
pow_add a (suc k) =
    let step : a + suc k ≡ suc (a + k) = omega arith in
    ap (λ z. 2 ^ z) step
    ∙ (omega (
      arith,
      two-pow-succ (a + k),
      pow_add a k,
      ap (λ z. 2 ^ a * z) (two-pow-succ k) ∙ mul-add (2 ^ a) (2 ^ k) (2 ^ k),
    ))

-- A multiple of a power, cut at a word.
module _ (p d w r : ℕ) (below : r < w) (some_digits : 0 < d) where
  quotient_parts : p * w ≡ p % d * w + p / d * (d * w)
  quotient_parts = grind (arith, div-add-mod p d, mul-add, mul_comm, mul_assoc)

  in_word : r + p % d * w < d * w
  in_word = grind (arith)

  cut_multiple : p * w % (d * w) ≡ p % d * w
  cut_multiple =
      ap (λ z. z % (d * w)) quotient_parts
      ∙ add-mul-mod_self_right (p % d * w) (p / d) (d * w)
      ∙ mod-eq_of_lt (omega (arith, in_word))

  cut_sum : (r + p * w) % (d * w) ≡ r + p % d * w
  cut_sum =
      let parts : r + p * w ≡ r + p % d * w + p / d * (d * w) = omega (arith, quotient_parts) in
      ap (λ z. z % (d * w)) parts
      ∙ add-mul-mod_self_right (r + p % d * w) (p / d) (d * w)
      ∙ mod-eq_of_lt in_word

Cuts : (payload shift result : ℕ) → Type 0
Cuts payload shift result =
    bit_or result (payload * 2 ^ shift % word_size) ≡ (result + payload * 2 ^ shift) % word_size

or_shifted_low :
    (payload shift d result : ℕ) → d + shift ≡ 64 → result < 2 ^ shift → Cuts payload shift result
unfolding Cuts
or_shifted_low payload shift d result sum below =
    let whole : word_size ≡ 2 ^ d * 2 ^ shift = ap (λ z. 2 ^ z) (sym sum) ∙ pow_add d shift in
    let part = payload % 2 ^ d in
    ap (λ z. bit_or result (payload * 2 ^ shift % z)) whole
    ∙ ap (bit_or result) (cut_multiple payload (2 ^ d) (2 ^ shift) result below (pow_pos d))
    ∙ bit_or_add shift result part below
    ∙ sym (cut_sum payload (2 ^ d) (2 ^ shift) result below (pow_pos d))
    ∙ ap (λ z. (result + payload * 2 ^ shift) % z) (sym whole)

or_shifted_high :
    (payload shift d result : ℕ) → shift ≡ d + 64 → result < word_size → Cuts payload shift result
unfolding Cuts
or_shifted_high payload shift d result sum below =
    let whole : payload * 2 ^ shift ≡ payload * 2 ^ d * word_size =
      ap (λ z. payload * 2 ^ z) sum
      ∙ ap (λ z. payload * z) (pow_add d 64)
      ∙ sym (mul_assoc payload (2 ^ d) word_size) in
    ap (λ z. bit_or result (z % word_size)) whole
    ∙ ap (bit_or result) (mul-mod_left (payload * 2 ^ d) word_size)
    ∙ bit_or_add 64 result 0 below
    ∙ omega arith
    ∙ sym (add-mul-mod_self_right result (payload * 2 ^ d) word_size)
    ∙ ap (λ z. (result + z) % word_size) (sym whole)

or_shifted :
    (payload shift result : ℕ) → result < 2 ^ shift → result < word_size → Cuts payload shift result
or_shifted payload shift result below in_word = elim (Bool-cases (ltb 64 shift)) [
  | inl high ↦ or_shifted_high payload shift (shift - 64) result (ground arith) in_word
  | inr low ↦ or_shifted_low payload shift (64 - shift) result (ground arith) below
]

module _ (b shift result : ℕ) (below : result < 2 ^ (shift + 7)) where
  next_below : (result + b % 128 * 2 ^ (shift + 7)) % word_size < 2 ^ (shift + 7 + 7)
  next_below =
      let grows : 2 ^ (shift + 7 + 7) ≡ 2 ^ (shift + 7) * 128 = pow_add (shift + 7) 7 in
      let small : b % 128 * 2 ^ (shift + 7) ≤ 127 * 2 ^ (shift + 7) =
        mul-le-mul_right (2 ^ (shift + 7)) (omega arith) in
      omega (arith, grows, small, mod-le (result + b % 128 * 2 ^ (shift + 7)) word_size)

  next_group :
      (rest : ℕ)
      → result + b % 128 * 2 ^ (shift + 7) + rest * 2 ^ (shift + 7 + 7)
        ≡ result + (b % 128 + 128 * rest) * 2 ^ (shift + 7)
  next_group rest = grind (arith, pow_add (shift + 7) 7, mul-add, mul_comm, mul_assoc)

var_int_loop_lem :
    (result shift : ℕ) (buf : List ℕ)
    → result < 2 ^ (shift + 7)
    → result < word_size
    → var_int_loop result shift buf ≡ (result + leb128 buf * 2 ^ (shift + 7)) % word_size
unfolding var_int_loop leb128 Cuts
var_int_loop_lem result shift [] below in_word = omega arith
var_int_loop_lem result shift (b ∷ buf) below in_word =
    let next : bit_or result (b % 128 * 2 ^ (shift + 7) % word_size)
        ≡ (result + b % 128 * 2 ^ (shift + 7)) % word_size =
      or_shifted (b % 128) (shift + 7) result below in_word in
    elim (Bool-cases (ltb b 128)) [
      | inl last ↦ rw last (
          let same : b % 128 ≡ b = ground arith in
          next ∙ ap (λ z. (result + z * 2 ^ (shift + 7)) % word_size) same)
      | inr more ↦ rw more (
          ap (λ z. var_int_loop z (shift + 7) buf) next
          ∙ var_int_loop_lem ((result + b % 128 * 2 ^ (shift + 7)) % word_size) (shift + 7) buf
              (next_below b shift result below) (omega arith)
          ∙ mod-add-mod (result + b % 128 * 2 ^ (shift + 7)) word_size
              (leb128 buf * 2 ^ (shift + 7 + 7))
          ∙ ap (λ z. z % word_size) (next_group b shift result below (leb128 buf)))
    ]

-- On every buffer that is not empty, whatever its length, `varInt` is its LEB128 value modulo the
-- 64 bits of a word.
pub var_int_lem : (b : ℕ) (buf : List ℕ) → var_int (b ∷ buf) ≡ some (leb128 (b ∷ buf) % word_size)
unfolding var_int leb128
var_int_lem b buf = elim (Bool-cases (ltb b 128)) [
  | inl last ↦ let fits : b % word_size ≡ b = ground arith in rw last (ap some (sym fits))
  | inr more ↦
      let run = var_int_loop_lem (b % 128) 0 buf (omega arith) (omega arith) in
      let same : b % 128 + leb128 buf * 128 ≡ b % 128 + 128 * leb128 buf = omega arith in
      rw more (ap some (run ∙ ap (λ z. z % word_size) same))
]
