-- ===== src/NumToStr/Dabble.antt =====
-- A round of double dabble doubles a packed decimal number and shifts a bit in, at every number of
-- digits.
use Prim.Native.Nat.{min, max}
use badger_os.Base.{ℕ, zero, suc, ◌+◌, ◌*◌, ◌/◌, ◌%◌, ◌^◌, ◌<◌, ◌≤◌, ◌≡◌, arith}
use native.Mathlib.Nat.{pow-suc, mul_right_comm}
use badger_os.Base.{bit_and}
use badger_os.Bits.{bit_and-digit}
use badger_os.Bits.Mask.{
  bit_or-half, bit_and-half, bit_or-mod_two, bit_and-mod_two, bit_and-zero, bit_and-even,
}
use badger_os.NumToStr.{dabble_mask}

-- The last `k` decimal digits of `v`, four bits each.
unfoldable pub packed : ℕ → ℕ → ℕ
packed zero v = 0
packed (suc k) v = packed k (v / 10) * 16 + v % 10

-- 0x11…1, a one for each digit.
unfoldable pub ones : ℕ → ℕ
ones zero = 0
ones (suc k) = ones k * 16 + 1

-- What is shifted out of `k` digits when `v` is doubled and `b` is added.
unfoldable pub carry : ℕ → ℕ → ℕ → ℕ
carry zero v b = b
carry (suc k) v b = carry k (v / 10) ((v % 10 * 2 + b) / 10)

abbrev pub add3 : ℕ → ℕ → ℕ
add3 k buf = buf + bit_and (dabble_mask buf) (ones k) * 3

mask-half : (buf : ℕ) → dabble_mask buf / 2 ≡ dabble_mask (buf / 2)
unfolding dabble_mask
mask-half buf =
    let quarter : buf / 4 / 2 ≡ buf / 2 / 4 = omega arith in
    let eighth : buf / 8 / 2 ≡ buf / 2 / 8 = omega arith in
    rw (bit_or-half, bit_and-half, bit_or-half, quarter, eighth)

mask-mod_two :
    (buf : ℕ)
    → dabble_mask buf % 2 ≡ max (min (max (buf % 2) (buf / 2 % 2)) (buf / 4 % 2)) (buf / 8 % 2)
unfolding dabble_mask
mask-mod_two buf = rw (bit_or-mod_two, bit_and-mod_two, bit_or-mod_two)

-- At a digit below 10 the lowest bit of the mask says whether it is 5 or more.
mask_digit :
    (p d : ℕ)
    → d < 10
    → dabble_mask (p * 16 + d) % 2 * 5 ≤ d × (d ≤ dabble_mask (p * 16 + d) % 2 * 5 + 4)
mask_digit p d h = omega (arith, mask-mod_two (p * 16 + d))

mask_sixteenth : (p d : ℕ) → d < 10 → dabble_mask (p * 16 + d) / 2 / 2 / 2 / 2 ≡ dabble_mask p
mask_sixteenth p d h =
    let digit : (p * 16 + d) / 2 / 2 / 2 / 2 ≡ p = omega arith in
    rw (mask-half, mask-half, mask-half, mask-half, digit)

-- A mask with one bit in each digit is picked digit by digit.
bit_and_ones_digit : (x o : ℕ) → bit_and x (o * 16 + 1) ≡ bit_and (x / 2 / 2 / 2 / 2) o * 16 + x % 2
bit_and_ones_digit x o =
    let half : (o * 16 + 1) / 2 ≡ o * 2 * 2 * 2 = omega arith in
    let step = bit_and-digit x (o * 16 + 1) in
    omega (
      arith,
      rw half at step,
      bit_and-even (x / 2) (o * 2 * 2),
      bit_and-even (x / 2 / 2) (o * 2),
      bit_and-even (x / 2 / 2 / 2) o,
    )

-- The mask, picked at the lowest bit of each digit.
mask-ones :
    (k p d : ℕ)
    → d < 10
    → bit_and (dabble_mask (p * 16 + d)) (ones (suc k))
      ≡ bit_and (dabble_mask p) (ones k) * 16 + dabble_mask (p * 16 + d) % 2
unfolding ones
mask-ones k p d h = rw (bit_and_ones_digit, mask_sixteenth p d h)

pub add3-packed :
    (k v b : ℕ) → b < 2 → add3 k (packed k v) * 2 + b ≡ packed k (v * 2 + b) + 16 ^ k * carry k v b
unfolding packed carry ones
add3-packed zero v b h = omega (arith, bit_and-zero (dabble_mask 0))
add3-packed (suc k) v b h =
    let c : ℕ = (v % 10 * 2 + b) / 10 in
    let tens : (v * 2 + b) / 10 ≡ v / 10 * 2 + c = omega arith in
    let power : 16 ^ suc k * carry k (v / 10) c ≡ 16 ^ k * carry k (v / 10) c * 16 =
      rw (pow-suc, mul_right_comm) in
    rw (tens, power)
      (omega (
        arith,
        add3-packed k (v / 10) c (omega arith),
        mask-ones k (packed k (v / 10)) (v % 10) (omega arith),
        mask_digit (packed k (v / 10)) (v % 10) (omega arith),
      ))
