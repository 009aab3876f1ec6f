-- ===== src/IntRoutines/Division.antt =====
-- The shift-and-subtract division computes quotient and remainder.
use native.Mathlib.Nat.{
  pow-suc, pow-succ', div-eq_of_lt, one-le-pow, mod-eq_of_lt, add-mul-mod_self_right,
  add-mul-div_right, mul-le-mul_right, mul-one, one-mul, mul_assoc, mul_comm, div-eq_of_lt-le,
}
use badger_os.Base.{
  ℕ, zero, suc, ◌+◌, ◌-◌, ◌*◌, ◌/◌, ◌%◌, ◌^◌, ◌<◌, ◌≤◌, ◌≡◌, refl, ◌∙◌, sym, ap, ap₂, ◌⊎◌, inl, inr,
  arith, dec_lt,
}
use badger_os.Base.{bit_and, bit_or, ◌==◌, leb, false, Bool-cases}
use badger_os.Bits.Mask.{bit_or-even_bit, bit_or-half, bit_or-mod_two, bit_and-high, bit_and-one}
use badger_os.IntRoutines.{normalize, subtract_shifted, divmod, udivmod4, udiv3, umod3}

-- The lowest bit that a number may have is put into a multiple of a higher power.
bit_or-below : (k m : ℕ) → bit_or (m * 2 ^ suc k) (2 ^ k) ≡ m * 2 ^ suc k + 2 ^ k
bit_or-below zero m = bit_or-even_bit m 1 (omega arith)
bit_or-below (suc k) m =
    let high : m * 2 ^ suc (suc k) ≡ m * 2 ^ suc k * 2 = rw (pow-suc 2 (suc k), ← mul_assoc) refl in
    let low : 2 ^ suc k ≡ 2 ^ k * 2 = pow-suc 2 k in
    let half = bit_or-half (m * 2 ^ suc (suc k)) (2 ^ suc k) in
    let two = bit_or-mod_two (m * 2 ^ suc (suc k)) (2 ^ suc k) in
    let half_high : m * 2 ^ suc (suc k) / 2 ≡ m * 2 ^ suc k = omega arith in
    let half_low : 2 ^ suc k / 2 ≡ 2 ^ k = omega arith in
    omega (arith, rw (half_high, half_low) at half, bit_or-below k m)

top_bit :
    (w x : ℕ)
    → x < 2 ^ suc w
    → ((x < 2 ^ w) × (bit_and x (2 ^ w) ≡ 0)) ⊎ ((2 ^ w ≤ x) × (bit_and x (2 ^ w) ≡ 2 ^ w))
top_bit w x h =
    let cut : bit_and x (2 ^ w) ≡ x / 2 ^ w % 2 * 2 ^ w =
      ap (bit_and x) (sym (one-mul (2 ^ w)))
      ∙ bit_and-high w x 1
      ∙ ap (λ b. b * 2 ^ w) (bit_and-one (x / 2 ^ w)) in
    elim (dec_lt x (2 ^ w)) [
      | yes lt ↦
          let none_above : x / 2 ^ w ≡ 0 = div-eq_of_lt lt in
          inl (lt, cut ∙ rw none_above (omega arith))
      | no ge ↦
          let one_above : x / 2 ^ w ≡ 1 =
            div-eq_of_lt-le (2 ^ w) (omega arith) (omega (arith, pow-suc 2 w)) in
          inr (omega arith, cut ∙ rw one_above (one-mul (2 ^ w)))
    ]

-- The first loop ends with the divisor shifted until its top bit is set.
normalize_lem :
    (fuel w x s : ℕ)
    → 2 ^ w ≤ x * 2 ^ fuel
    → x < 2 ^ suc w
    → let r = normalize fuel w x s in (j : ℕ) × (r.0 ≡ x * 2 ^ j) × (r.1 ≡ s + j) × (2 ^ w ≤ r.0)
unfolding normalize
normalize_lem zero w x s reach small = (0, sym (mul-one x), omega arith, rw (mul-one x) at reach)
normalize_lem (suc fuel) w x s reach small =
    let double : x * 2 ^ suc fuel ≡ x * 2 * 2 ^ fuel =
      ap (λ p. x * p) (pow-succ' 2 fuel) ∙ sym (mul_assoc x 2 (2 ^ fuel)) in
    let p = pow-suc 2 w in
    let q = one-le-pow w 2 in
    elim (top_bit w x small) [
      | inl low ↦
          let fits : x * 2 % 2 ^ suc w ≡ x * 2 = mod-eq_of_lt (omega arith) in
          let (j, divisor, shift, top) =
            normalize_lem fuel w (x * 2) (s + 1) (omega arith) (omega arith) in
          let again : x * 2 * 2 ^ j ≡ x * 2 ^ suc j =
            mul_assoc x 2 (2 ^ j) ∙ ap (λ p. x * p) (sym (pow-succ' 2 j)) in
          rw (low.1, fits) (suc j, divisor ∙ again, omega arith, top)
      | inr high ↦
          let set : (bit_and x (2 ^ w) == 0) ≡ false = ground arith in
          rw set (0, sym (mul-one x), omega arith, high.0)
    ]

subtract_shifted_lem :
    (n d D r m : ℕ)
    → r < d * 2 ^ n
    → D ≡ d * 2 ^ n / 2
    → let res = subtract_shifted n r D (m * 2 ^ n) in
      (res.0 < d) × (res.1 * d + res.0 ≡ m * 2 ^ n * d + r)
unfolding subtract_shifted
subtract_shifted_lem zero d D r m h at = (omega arith, refl)
subtract_shifted_lem (suc k) d D r m h aligned =
    let p : 2 ^ suc k ≡ 2 ^ k * 2 = pow-suc 2 k in
    let twice : d * 2 ^ suc k ≡ d * 2 ^ k * 2 = rw p (sym (mul_assoc d (2 ^ k) 2)) in
    let here : D ≡ d * 2 ^ k = omega arith in
    let half : D / 2 ≡ d * 2 ^ k / 2 = ap (λ x. x / 2) here in
    let shifted : m * 2 ^ suc k ≡ m * 2 * 2 ^ k = rw p (omega arith) in
    elim (Bool-cases (leb D r)) [
      | inl fits ↦
          let rest = subtract_shifted_lem k d (D / 2) (r - D) (m * 2 + 1) (ground arith) half in
          let put : bit_or (m * 2 ^ suc k) (2 ^ k) ≡ (m * 2 + 1) * 2 ^ k =
            bit_or-below k m ∙ rw shifted (omega arith) in
          let enough : D ≤ r = ground arith in
          let regroup : (m * 2 + 1) * 2 ^ k * d + (r - D) ≡ m * 2 ^ suc k * d + r =
            rw shifted (omega (arith, mul_comm d (2 ^ k))) in
          simp (subtract_shifted, fits, put) (rest.0, rest.1 ∙ regroup)
      | inr over ↦
          let rest = subtract_shifted_lem k d (D / 2) r (m * 2) (ground arith) half in
          simp (subtract_shifted, over, shifted) rest
    ]

-- A remainder below the divisor and the sum decide both.
quotient_unique : (a b q r : ℕ) → r < b → q * b + r ≡ a → (r ≡ a % b) × (q ≡ a / b)
quotient_unique a b q r lt sum =
    let pos : 0 < b = omega arith in
    let turned : r + q * b ≡ a = omega arith in
    (
      sym (mod-eq_of_lt lt) ∙ sym (add-mul-mod_self_right r q b) ∙ ap (λ x. x % b) turned,
      sym (add-mul-div_right r q pos ∙ rw (div-eq_of_lt lt) (omega arith)) ∙ ap (λ x. x / b) turned,
    )

divide_aligned :
    (w a b D shift j : ℕ)
    → a < 2 ^ suc w
    → D ≡ b * 2 ^ j
    → shift ≡ 0 + j
    → 2 ^ w ≤ D
    → let res = subtract_shifted (suc shift) a D 0 in (res.0 ≡ a % b) × (res.1 ≡ a / b)
divide_aligned w a b D shift j ha divisor rounds top =
    let same : shift ≡ j = omega arith in
    let twice : b * 2 ^ suc shift ≡ D * 2 =
      rw (same, pow-suc 2 j) (sym (mul_assoc b (2 ^ j) 2) ∙ ap (λ x. x * 2) (sym divisor)) in
    let aligned : D ≡ b * 2 ^ suc shift / 2 = omega arith in
    let start : 0 * 2 ^ suc shift ≡ 0 = omega arith in
    let (small, sum) =
      rw start at (subtract_shifted_lem (suc shift) b D a 0 (omega (arith, pow-suc 2 w)) aligned) in
    let res = subtract_shifted (suc shift) a D 0 in
    quotient_unique a b res.1 res.0 small (sum ∙ omega arith)

pub divmod_lem :
    (w a b : ℕ)
    → a < 2 ^ suc w
    → 0 < b
    → b < 2 ^ suc w
    → ((divmod w a b).0 ≡ a % b) × ((divmod w a b).1 ≡ a / b)
unfolding divmod
divmod_lem w a b ha pos hb =
    let p = pow-suc 2 w in
    let far : 2 ^ w ≤ b * 2 ^ suc w =
      omega (arith, mul-le-mul_right {m = 1} {n = b} (2 ^ suc w) pos) in
    let (j, divisor, shift, top) = normalize_lem (suc w) w b 0 far hb in
    divide_aligned w a b (normalize (suc w) w b 0).0 (normalize (suc w) w b 0).1 j ha divisor shift
      top

-- The unsigned division functions at `suc w` bits compute quotient and remainder of the numbers,
-- for all words, and for the divisor 0 they return all ones, and the dividend as the remainder.
pub udivmod4_lem :
    (w a b : ℕ)
    → a < 2 ^ suc w
    → b < 2 ^ suc w
    → ((b ≡ 0)
        × (udivmod4 w a b ≡ (a, 2 ^ suc w - 1))
        × (udiv3 w a b ≡ 2 ^ suc w - 1)
        × (umod3 w a b ≡ a))
      ⊎ ((0 < b)
          × (udivmod4 w a b ≡ (a % b, a / b))
          × (udiv3 w a b ≡ a / b)
          × (umod3 w a b ≡ a % b))
unfolding udivmod4 udiv3 umod3
udivmod4_lem w a zero ha hb = inl (refl, refl, refl, refl)
udivmod4_lem w a (suc b) ha hb =
    let (r, q) = divmod_lem w a (suc b) ha (omega arith) hb in
    let some_bit : (suc b == 0) ≡ false = ground arith in
    inr (omega arith, simp some_bit (ap₂ (λ x y. (x, y)) r q), simp some_bit q, simp some_bit r)
