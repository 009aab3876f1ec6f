-- ===== src/Bits/Mask.antt =====
-- What the masks and shifts that the kernel uses compute.
use Prim.Native.Nat.{bit_and-bitwise, bit_or-bitwise, min, max}
use mathlib.Core.WellFounded
use native.Mathlib.Nat.{
  pow-suc, pow-succ', one-le-pow, div-add-mod, div-div-eq-div-mul, mul_assoc, mul_comm, mul-one,
  div-one,
}
use badger_os.Base.{ℕ, zero, suc, ◌+◌, ◌*◌, ◌-◌, ◌/◌, ◌%◌, ◌^◌, ◌<◌, ◌≡◌, refl, sym, ap, ◌∙◌, arith}
use badger_os.Base.{bit_and, bit_or}
use badger_os.Order.{lt_wf}
use badger_os.Bits.Digit.{bit_and-digit, bit_or-digit}

pub zero-bit_and : (b : ℕ) → bit_and 0 b ≡ 0
zero-bit_and b = bit_and-bitwise 0 b

pub zero-bit_or : (b : ℕ) → bit_or 0 b ≡ b
zero-bit_or b = bit_or-bitwise 0 b

pub bit_and-zero : (a : ℕ) → bit_and a 0 ≡ 0
bit_and-zero a =
    WellFounded.induction lt_wf {C = λ k. bit_and k 0 ≡ 0} a λ k smaller. above k smaller
  where
    above : (k : ℕ) → ((m : ℕ) → m < k → bit_and m 0 ≡ 0) → bit_and k 0 ≡ 0
    above zero smaller = refl
    above (suc k) smaller =
        omega (arith, bit_and-digit (suc k) 0, smaller (suc k / 2) (omega arith))

pub bit_or-zero : (a : ℕ) → bit_or a 0 ≡ a
bit_or-zero a = WellFounded.induction lt_wf {C = λ k. bit_or k 0 ≡ k} a λ k smaller. above k smaller
  where
    above : (k : ℕ) → ((m : ℕ) → m < k → bit_or m 0 ≡ m) → bit_or k 0 ≡ k
    above zero smaller = refl
    above (suc k) smaller = omega (arith, bit_or-digit (suc k) 0, smaller (suc k / 2) (omega arith))

-- `x & 1`, `x & 2`, `x & 4`: one digit of `x`.
pub bit_and-one : (a : ℕ) → bit_and a 1 ≡ a % 2
bit_and-one a = omega (arith, bit_and-digit a 1, bit_and-zero (a / 2))

pub bit_and-two : (a : ℕ) → bit_and a 2 ≡ a / 2 % 2 * 2
bit_and-two a = omega (arith, bit_and-digit a 2, bit_and-one (a / 2))

pub bit_and-four : (a : ℕ) → bit_and a 4 ≡ a / 4 % 2 * 4
bit_and-four a = omega (arith, bit_and-digit a 4, bit_and-two (a / 2))

-- The lowest digit of a disjunction, and what is above it.
pub bit_or-mod_two : (a b : ℕ) → bit_or a b % 2 ≡ max (a % 2) (b % 2)
bit_or-mod_two a b = omega (arith, bit_or-digit a b)

pub bit_or-half : (a b : ℕ) → bit_or a b / 2 ≡ bit_or (a / 2) (b / 2)
bit_or-half a b = omega (arith, bit_or-digit a b)

pub bit_and-mod_two : (a b : ℕ) → bit_and a b % 2 ≡ min (a % 2) (b % 2)
bit_and-mod_two a b = omega (arith, bit_and-digit a b)

pub bit_and-half : (a b : ℕ) → bit_and a b / 2 ≡ bit_and (a / 2) (b / 2)
bit_and-half a b = omega (arith, bit_and-digit a b)

-- Quotient and remainder by a power of two, from those by the power below it.
pub div-pow-suc : (k a : ℕ) → a / 2 ^ suc k ≡ a / 2 / 2 ^ k
div-pow-suc k a = rw (pow-succ', ← div-div-eq-div-mul)

pub mod-pow-suc : (k a : ℕ) → a % 2 ^ suc k ≡ a / 2 % 2 ^ k * 2 + a % 2
mod-pow-suc k a =
    let p = div-add-mod a (2 ^ suc k) in
    let whole : 2 * (2 ^ k * (a / 2 / 2 ^ k)) + a % 2 ^ suc k ≡ a =
      rw (← div-pow-suc k a, ← mul_assoc, ← pow-succ') p in
    omega (arith, whole, div-add-mod (a / 2) (2 ^ k))

-- A mask whose lowest digit is zero cuts off the lowest digit.
pub bit_and-even : (a b : ℕ) → bit_and a (b * 2) ≡ bit_and (a / 2) b * 2
bit_and-even a b =
    let half : b * 2 / 2 ≡ b = omega arith in
    let step = bit_and-digit a (b * 2) in rw half at step ∙ omega arith

-- A mask of ones above `k` zeros cuts off the lower `k` digits.
pub bit_and-high : (k a b : ℕ) → bit_and a (b * 2 ^ k) ≡ bit_and (a / 2 ^ k) b * 2 ^ k
bit_and-high zero a b = simp (mul-one, div-one)
bit_and-high (suc k) a b =
    rw (pow-suc, ← mul_assoc, bit_and-even a (b * 2 ^ k), bit_and-high k (a / 2) b)
      (rw (← pow-suc, div-pow-suc, mul_assoc, ← pow-suc))

-- A mask of `k` ones is the remainder by `2 ^ k`.
pub bit_and-ones : (k a : ℕ) → bit_and a (2 ^ k - 1) ≡ a % 2 ^ k
bit_and-ones zero a = omega (arith, bit_and-zero a)
bit_and-ones (suc k) a =
    let half : (2 ^ suc k - 1) / 2 ≡ 2 ^ k - 1 = omega (arith, pow-suc 2 k, one-le-pow k 2) in
    let step = bit_and-digit a (2 ^ suc k - 1) in
    omega
      (arith, rw half at step, pow-suc 2 k, one-le-pow k 2, bit_and-ones k (a / 2), mod-pow-suc k a)

-- A word with a zero lowest digit, and a bit put into it.
pub bit_or-even_bit : (a b : ℕ) → b < 2 → bit_or (a * 2) b ≡ a * 2 + b
bit_or-even_bit a b h =
    let half : a * 2 / 2 ≡ a = omega arith in
    let rest : b / 2 ≡ 0 = omega arith in
    let step = bit_or-digit (a * 2) b in omega (arith, rw (half, rest) at step, bit_or-zero a)

mul-assoc-two : (a b : ℕ) → a * b * 2 ≡ a * 2 * b
mul-assoc-two a b = mul_assoc a b 2 ∙ ap (λ x. a * x) (mul_comm b 2) ∙ sym (mul_assoc a 2 b)

pub pow-add : (a b : ℕ) → 2 ^ (a + b) ≡ 2 ^ a * 2 ^ b
pow-add zero b = let e : 0 + b ≡ b = omega arith in rw e (omega arith)
pow-add (suc a) b =
    let e : suc a + b ≡ suc (a + b) = omega arith in
    let p = pow-suc 2 a in
    let q = mul-assoc-two (2 ^ a) (2 ^ b) in
    rw e (pow-suc 2 (a + b) ∙ ap (λ x. x * 2) (pow-add a b) ∙ q ∙ ap (λ x. x * 2 ^ b) (sym p))
