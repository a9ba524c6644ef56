-- ===== src/Ids/Bits.antt =====
-- Binary digits: where two numbers share no digit, and the complement in a word of 64 bits.
use Prim.Native.Nat.{bit_or, bit_xor, bit_or-bitwise, bit_xor-bitwise, digits, differ, max}
use native.Mathlib.Nat.{two-pow-succ, mul-add}
use dynatrace_configuration.Base.{
  ℕ, zero, suc, ◌+◌, ◌-◌, ◌*◌, ◌/◌, ◌%◌, ◌^◌, ◌≤◌, ◌<◌, ◌≡◌, refl, ap, ◌∙◌, arith,
}

module _ (f : ℕ → ℕ → ℕ) where
  -- The count of digits does not matter when it is large enough.
  digits_enough : (n m a b : ℕ) → a ≤ n → a ≤ m → digits (λ d. d) f n a b ≡ digits (λ d. d) f m a b
  digits_enough zero zero a b p q = refl
  digits_enough zero (suc m) a b p q = by_number a p
    where
      by_number : (x : ℕ) → x ≤ 0 → digits (λ d. d) f zero x b ≡ digits (λ d. d) f (suc m) x b
      by_number zero l = refl
      by_number (suc x) l = absurd (omega arith)
  digits_enough (suc n) zero a b p q = by_number a q
    where
      by_number : (x : ℕ) → x ≤ 0 → digits (λ d. d) f (suc n) x b ≡ digits (λ d. d) f zero x b
      by_number zero l = refl
      by_number (suc x) l = absurd (omega arith)
  digits_enough (suc n) (suc m) zero b p q = refl
  digits_enough (suc n) (suc m) (suc a) b p q =
      omega (arith, digits_enough n m (suc a / 2) (b / 2) (omega arith) (omega arith))

  -- The lowest digit and the rest, where the operation keeps a digit beside zero.
  digits_step :
      ((x : ℕ) → f 0 x ≡ x)
      → (a b : ℕ)
      → digits (λ d. d) f a a b ≡ digits (λ d. d) f (a / 2) (a / 2) (b / 2) * 2 + f (a % 2) (b % 2)
  digits_step keeps zero b = omega (arith, keeps (b % 2))
  digits_step keeps (suc a) b =
      omega (arith, digits_enough a (suc a / 2) (suc a / 2) (b / 2) (omega arith) (omega arith))

bit_or_step : (a b : ℕ) → bit_or a b ≡ bit_or (a / 2) (b / 2) * 2 + max (a % 2) (b % 2)
bit_or_step a b = omega (
  arith,
  bit_or-bitwise a b,
  bit_or-bitwise (a / 2) (b / 2),
  digits_step max (λ x. omega arith) a b,
)

bit_xor_step : (a b : ℕ) → bit_xor a b ≡ bit_xor (a / 2) (b / 2) * 2 + differ (a % 2) (b % 2)
bit_xor_step a b = omega (
  arith,
  bit_xor-bitwise a b,
  bit_xor-bitwise (a / 2) (b / 2),
  digits_step differ (λ x. refl) a b,
)

-- A number below a power of two and a multiple of it share no digit.
pub bit_or_add : (k a b : ℕ) → a < 2 ^ k → bit_or a (b * 2 ^ k) ≡ a + b * 2 ^ k
bit_or_add zero a b l = by_zero a l
  where
    by_zero : (x : ℕ) → x < 1 → bit_or x (b * 1) ≡ x + b * 1
    by_zero zero l = omega (arith, bit_or-bitwise 0 (b * 1))
    by_zero (suc x) l = absurd (omega arith)
bit_or_add (suc k) a b l =
    let twice : b * 2 ^ suc k ≡ b * 2 ^ k + b * 2 ^ k =
      ap (λ z. b * z) (two-pow-succ k) ∙ mul-add b (2 ^ k) (2 ^ k) in
    let half : b * 2 ^ suc k / 2 ≡ b * 2 ^ k = omega (arith, twice) in
    omega (
      arith,
      twice,
      two-pow-succ k,
      bit_or_step a (b * 2 ^ suc k),
      ap (bit_or (a / 2)) half,
      bit_or_add k (a / 2) b (omega (arith, two-pow-succ k)),
    )

differ_one : (x : ℕ) → x < 2 → differ x 1 ≡ 1 - x
differ_one zero l = refl
differ_one (suc zero) l = refl
differ_one (suc (suc x)) l = absurd (omega arith)

pub pow_pos : (k : ℕ) → 0 < 2 ^ k
pow_pos zero = omega arith
pow_pos (suc k) = omega (arith, two-pow-succ k, pow_pos k)

pub bit_xor_ones : (k a : ℕ) → a < 2 ^ k → bit_xor a (2 ^ k - 1) ≡ 2 ^ k - 1 - a
bit_xor_ones zero a l = by_zero a l
  where
    by_zero : (x : ℕ) → x < 1 → bit_xor x 0 ≡ 0 - x
    by_zero zero l = refl
    by_zero (suc x) l = absurd (omega arith)
bit_xor_ones (suc k) a l =
    let doubled : 2 ^ suc k ≡ 2 ^ k + 2 ^ k = two-pow-succ k in
    let half : (2 ^ suc k - 1) / 2 ≡ 2 ^ k - 1 = omega (arith, doubled, pow_pos k) in
    let odd : (2 ^ suc k - 1) % 2 ≡ 1 = omega (arith, doubled, pow_pos k) in
    omega (
      arith,
      doubled,
      pow_pos k,
      bit_xor_step a (2 ^ suc k - 1),
      ap (bit_xor (a / 2)) half,
      ap (differ (a % 2)) odd,
      differ_one (a % 2) (omega arith),
      bit_xor_ones k (a / 2) (omega (arith, doubled)),
    )
