-- ===== src/TopologySort/Counts.antt =====
-- Counting the edges of a row and of the matrix, and the indices that a loop collects.
use dynatrace_configuration.Base.{
  ℕ, zero, suc, ◌+◌, ◌≤◌, ◌<◌, ◌≡◌, refl, ◌≢◌, Bool, true, false, ◌==◌, arith, if◌then◌else◌,
  Bool-cases, inl, inr, ==_iff,
}
use dynatrace_configuration.TopologySort.Defs.{Matrix}

abbrev pub count_below : (ℕ → Bool) → ℕ → ℕ
count_below p zero = 0
count_below p (suc k) = (if p k then 1 else 0) + count_below p k

abbrev pub total : Matrix → ℕ → ℕ → ℕ
total m n zero = 0
total m n (suc k) = count_below (m k) n + total m n k

pub count_below_congr :
    (p q : ℕ → Bool) (n : ℕ) → ((j : ℕ) → j < n → p j ≡ q j) → count_below p n ≡ count_below q n
count_below_congr p q zero h = refl
count_below_congr p q (suc n) h =
    ground (arith, h n (omega arith), count_below_congr p q n (λ j l. h j (omega arith)))

pub count_below_off :
    (p q : ℕ → Bool) (j n : ℕ)
    → j < n
    → p j ≡ true
    → q j ≡ false
    → ((b : ℕ) → b ≢ j → q b ≡ p b)
    → count_below q n + 1 ≡ count_below p n
count_below_off p q j zero l e f h = absurd (omega arith)
count_below_off p q j (suc n) l e f h = elim (Bool-cases (n == j)) [
  | inl same ↦
      let at_n : n ≡ j = (==_iff n j).0 same in
      ground (arith, at_n, count_below_congr p q n (λ b lb. rw (h b (omega arith)) refl))
  | inr other ↦ ground (arith, h n, count_below_off p q j n, (==_iff n j))
]

pub count_below-eq-zero : (p : ℕ → Bool) (n j : ℕ) → count_below p n ≡ 0 → j < n → p j ≡ false
count_below-eq-zero p zero j e l = absurd (omega arith)
count_below-eq-zero p (suc n) j e l = elim (Bool-cases (n == j)) [
  | inl same ↦ ground (arith, ==_iff n j)
  | inr other ↦ ground (arith, count_below-eq-zero p n j, ==_iff n j)
]

-- A row with a positive count has an edge.
pub count_below-pos :
    (p : ℕ → Bool) (n : ℕ) → 0 < count_below p n → (j : ℕ) × (j < n) × (p j ≡ true)
count_below-pos p zero h = absurd (omega arith)
count_below-pos p (suc n) h = elim (Bool-cases (p n)) [
  | inl yes_n ↦ (n, omega arith, yes_n)
  | inr no_n ↦ let (j, l, e) = count_below-pos p n (ground arith) in (j, omega arith, e)
]

pub count_below-le : (p : ℕ → Bool) (n : ℕ) → count_below p n ≤ n
count_below-le p zero = omega arith
count_below-le p (suc n) = ground (arith, count_below-le p n)
