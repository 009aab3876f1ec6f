-- ===== src/Bits/Digit.antt =====
-- The native `bit_and` and `bit_or` by their lowest binary digit.
use Prim.Native.Nat.{min, max, digits, bit_and-bitwise, bit_or-bitwise}
use badger_os.Base.{ℕ, zero, suc, ◌+◌, ◌*◌, ◌/◌, ◌%◌, ◌≤◌, ◌≡◌, refl, ap, bit_and, bit_or, arith}

module _ (rest : ℕ → ℕ) (digit : ℕ → ℕ → ℕ) where
  -- Two counts of digits that both suffice for `a` give one result.
  enough_digits :
      (n : ℕ) {m : ℕ} (a b : ℕ) → a ≤ n → a ≤ m → digits rest digit n a b ≡ digits rest digit m a b
  enough_digits zero {m = zero} a b hn hm = refl
  enough_digits zero {m = suc m} zero b hn hm = refl
  enough_digits zero {m = suc m} (suc a) b hn hm = absurd (omega arith)
  enough_digits (suc n) {m = zero} zero b hn hm = refl
  enough_digits (suc n) {m = zero} (suc a) b hn hm = absurd (omega arith)
  enough_digits (suc n) {m = suc m} zero b hn hm = refl
  enough_digits (suc n) {m = suc m} (suc a) b hn hm =
      ap (λ k. k * 2 + digit (suc a % 2) (b % 2))
        (enough_digits n {m = m} (suc a / 2) (b / 2) (omega arith) (omega arith))

  lowest_digit :
      (a b : ℕ)
      → digits rest digit (suc a) (suc a) b
        ≡ digits rest digit (suc a / 2) (suc a / 2) (b / 2) * 2 + digit (suc a % 2) (b % 2)
  lowest_digit a b =
      ap (λ k. k * 2 + digit (suc a % 2) (b % 2))
        (enough_digits a {m = suc a / 2} (suc a / 2) (b / 2) (omega arith) (omega arith))

pub bit_and-digit : (a b : ℕ) → bit_and a b ≡ bit_and (a / 2) (b / 2) * 2 + min (a % 2) (b % 2)
bit_and-digit zero b = omega (arith, bit_and-bitwise 0 b, bit_and-bitwise 0 (b / 2))
bit_and-digit (suc a) b = omega (
  arith,
  bit_and-bitwise (suc a) b,
  bit_and-bitwise (suc a / 2) (b / 2),
  lowest_digit (λ y. 0) min a b,
)

pub bit_or-digit : (a b : ℕ) → bit_or a b ≡ bit_or (a / 2) (b / 2) * 2 + max (a % 2) (b % 2)
bit_or-digit zero b = omega (arith, bit_or-bitwise 0 b, bit_or-bitwise 0 (b / 2))
bit_or-digit (suc a) b = omega (
  arith,
  bit_or-bitwise (suc a) b,
  bit_or-bitwise (suc a / 2) (b / 2),
  lowest_digit (λ y. y) max a b,
)
