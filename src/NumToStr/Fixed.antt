-- ===== src/NumToStr/Fixed.antt =====
-- The three conversions of fixed width write the decimal digits of every value of their type.
use badger_os.Base.{ℕ, ◌+◌, ◌*◌, ◌/◌, ◌%◌, ◌^◌, ◌<◌, ◌≡◌, refl, ap, ap₂, sym, arith}
use badger_os.Base.{bit_and, bit_or, []}
use badger_os.Bits.Mask.{bit_or-even_bit}
use badger_os.NumToStr.{dabble_mask, dabble16, dabble32, dabble64}
use badger_os.NumToStr.{num_uint16_to_str, num_uint32_to_str, num_uint64_to_str}
use badger_os.NumToStr.Dabble.{packed, ones, carry, add3-packed}
use badger_os.NumToStr.Decimal.{decimal_onto, round-packed, repeat-enc}
use badger_os.NumToStr.Decimal.{packed-lt, carry-lt, div-carry, packed_digit, put_digits-decimal}
use badger_os.NumToStr.Decimal.{packed-zero, decimal_onto-add}

abbrev enc16 : ℕ → ℕ → ℕ × ℕ
enc16 v val = (packed 5 v, val)

dabble16_round :
    (v val : ℕ)
    → val < 2 ^ 16
    → v * 2 + val * 2 / 2 ^ 16 < 10 ^ 5
    → dabble16 (enc16 v val) ≡ enc16 (v * 2 + val * 2 / 2 ^ 16) (val * 2 % 2 ^ 16)
unfolding dabble16 ones
dabble16_round v val h small =
    let bit : val / 2 ^ 15 ≡ val * 2 / 2 ^ 16 = omega arith in
    rw (bit) (
      ap (λ buf. (buf, val * 2 % 2 ^ 16))
        (round-packed 5 v (val * 2 / 2 ^ 16) (2 ^ 32) (omega arith) small (omega arith)))

pub num_uint16_to_str-decimal :
    (val : ℕ) → val < 2 ^ 16 → num_uint16_to_str val ≡ decimal_onto 5 val []
unfolding num_uint16_to_str
num_uint16_to_str-decimal val h =
    let start : (val / 2 ^ 13, val * 2 ^ 3 % 2 ^ 16) ≡ enc16 (val / 2 ^ 13) (val % 2 ^ 13 * 8) =
      ap₂ (λ buf rest. (buf, rest)) (sym (packed_digit 4 (val / 2 ^ 13) (omega arith)))
        (omega arith) in
    let loop =
      repeat-enc (2 ^ 16) (10 ^ 5) enc16 dabble16 dabble16_round 13 (val / 2 ^ 13) (val % 2 ^ 13) 8
        refl (omega arith) (omega arith) (omega arith) in
    let whole : val / 2 ^ 13 * 2 ^ 13 + val % 2 ^ 13 ≡ val = omega arith in
    rw (start, loop, whole) (put_digits-decimal 5 val [])

abbrev enc32 : ℕ → ℕ → ℕ × ℕ
enc32 v val = (packed 10 v, val)

dabble32_round :
    (v val : ℕ)
    → val < 2 ^ 32
    → v * 2 + val * 2 / 2 ^ 32 < 10 ^ 10
    → dabble32 (enc32 v val) ≡ enc32 (v * 2 + val * 2 / 2 ^ 32) (val * 2 % 2 ^ 32)
unfolding dabble32 ones
dabble32_round v val h small =
    let bit : val / 2 ^ 31 ≡ val * 2 / 2 ^ 32 = omega arith in
    rw bit (
      ap (λ buf. (buf, val * 2 % 2 ^ 32))
        (round-packed 10 v (val * 2 / 2 ^ 32) (2 ^ 64) (omega arith) small (omega arith)))

pub num_uint32_to_str-decimal :
    (val : ℕ) → val < 2 ^ 32 → num_uint32_to_str val ≡ decimal_onto 10 val []
unfolding num_uint32_to_str
num_uint32_to_str-decimal val h =
    let start : (val / 2 ^ 29, val * 2 ^ 3 % 2 ^ 32) ≡ enc32 (val / 2 ^ 29) (val % 2 ^ 29 * 8) =
      ap₂ (λ buf rest. (buf, rest)) (sym (packed_digit 9 (val / 2 ^ 29) (omega arith)))
        (omega arith) in
    let loop =
      repeat-enc (2 ^ 32) (10 ^ 10) enc32 dabble32 dabble32_round 29 (val / 2 ^ 29) (val % 2 ^ 29) 8
        refl (omega arith) (omega arith) (omega arith) in
    let whole : val / 2 ^ 29 * 2 ^ 29 + val % 2 ^ 29 ≡ val = omega arith in
    rw (start, loop, whole) (put_digits-decimal 10 val [])

-- 16 digits in `buf_lo` and the other four in `buf_hi`.
abbrev enc64 : ℕ → ℕ → ℕ × ℕ × ℕ
enc64 v val = (packed 16 v, packed 4 (v / 10 ^ 16), val)

abbrev lo_added : ℕ → ℕ
lo_added v = (packed 16 v + bit_and (dabble_mask (packed 16 v)) (ones 16) * 3) % 2 ^ 64

lo_added_lem :
    (v b : ℕ) → b < 2 → lo_added v * 2 + b ≡ packed 16 (v * 2 + b) + 2 ^ 64 * carry 16 v b
lo_added_lem v b h =
    omega (arith, add3-packed 16 v b h, packed-lt 16 (v * 2 + b), carry-lt 16 v b h)

lo_shifted :
    (v b : ℕ)
    → b < 2
    → bit_or (lo_added v * 2 % 2 ^ 64) b ≡ packed 16 (v * 2 + b)
      × (lo_added v / 2 ^ 63 ≡ carry 16 v b)
lo_shifted v b h =
    let even : lo_added v * 2 % 2 ^ 64 ≡ lo_added v % 2 ^ 63 * 2 = omega arith in
    let sum = lo_added_lem v b h in
    let below = packed-lt 16 (v * 2 + b) in
    let bit = carry-lt 16 v b h in (rw (even, bit_or-even_bit _ b h) (omega arith), omega arith)

hi_shifted :
    (v b : ℕ)
    → b < 2
    → v * 2 + b < 10 ^ 20
    → bit_or
        ((packed 4 (v / 10 ^ 16) + bit_and (dabble_mask (packed 4 (v / 10 ^ 16))) (ones 4) * 3)
          % 2 ^ 16
          * 2
          % 2 ^ 16)
        (carry 16 v b)
      ≡ packed 4 ((v * 2 + b) / 10 ^ 16)
hi_shifted v b h small =
    let split = div-carry 16 v b in
    rw split (
      round-packed 4 (v / 10 ^ 16) (carry 16 v b) (2 ^ 16) (carry-lt 16 v b h) (omega arith)
        (omega arith))

dabble64_round :
    (v val : ℕ)
    → val < 2 ^ 64
    → v * 2 + val * 2 / 2 ^ 64 < 10 ^ 20
    → dabble64 (enc64 v val) ≡ enc64 (v * 2 + val * 2 / 2 ^ 64) (val * 2 % 2 ^ 64)
unfolding dabble64 ones
dabble64_round v val h small =
    let b : ℕ = val * 2 / 2 ^ 64 in
    let bit : val / 2 ^ 63 ≡ b = omega arith in
    let lo = lo_shifted v b (omega arith) in
    let hi = hi_shifted v b (omega arith) small in rw (bit, lo.0, lo.1, hi) refl

pub num_uint64_to_str-decimal :
    (val : ℕ) → val < 2 ^ 64 → num_uint64_to_str val ≡ decimal_onto 20 val []
unfolding num_uint64_to_str
num_uint64_to_str-decimal val h =
    let start : (val / 2 ^ 61, 0, val * 2 ^ 3 % 2 ^ 64) ≡ enc64 (val / 2 ^ 61) (val % 2 ^ 61 * 8) =
      let none : val / 2 ^ 61 / 10 ^ 16 ≡ 0 = omega arith in
      rw (none, packed_digit 15 (val / 2 ^ 61) (omega arith), packed-zero)
        (ap (λ rest. (val / 2 ^ 61, 0, rest)) (omega arith)) in
    let loop =
      repeat-enc (2 ^ 64) (10 ^ 20) enc64 dabble64 dabble64_round 61 (val / 2 ^ 61) (val % 2 ^ 61) 8
        refl (omega arith) (omega arith) (omega arith) in
    let whole : val / 2 ^ 61 * 2 ^ 61 + val % 2 ^ 61 ≡ val = omega arith in
    rw (start, loop, whole, put_digits-decimal, put_digits-decimal) (decimal_onto-add 16 4 val [])
