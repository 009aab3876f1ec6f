-- ===== src/NumToStr/Count.antt =====
-- `num_uint_to_str`: all 20 digits, whichever width is taken, and the count of those that matter.
use native.Mathlib.Nat.{
  pow-suc, add-zero, div-eq_of_lt, div-lt_iff_lt-mul, one-le-pow, pow-le-pow_right, mod-eq_of_lt,
  div-add-mod, mod-lt, le_trans,
}
use badger_os.Base.{ℕ, zero, suc, ◌+◌, ◌-◌, ◌*◌, ◌/◌, ◌%◌, ◌^◌, ◌<◌, ◌≤◌, ◌≡◌, refl, ap, arith}
use badger_os.Base.{bit_and, ◌∙◌, List, [], ◌∷◌, ◌++◌, get_or, replicate, ◌==◌, if◌then◌else◌}
use badger_os.Base.{inl, inr, Bool-cases, sym, dec_lt, ◌≢◌, false}
use badger_os.Bits.Mask.{bit_and-high, bit_and-ones}
use badger_os.NumToStr.{num_uint_to_str, count_digits, counted}
use badger_os.NumToStr.{num_uint32_to_str, num_uint64_to_str}
use badger_os.NumToStr.Decimal.{decimal, decimal_onto, decimal_onto-add, decimal_lem}
use badger_os.NumToStr.Fixed.{num_uint16_to_str-decimal, num_uint32_to_str-decimal}
use badger_os.NumToStr.Fixed.{num_uint64_to_str-decimal}

replicate-snoc :
    (m : ℕ) (out : List ℕ) → replicate (suc m) b'0' ++ out ≡ replicate m b'0' ++ (b'0' ∷ out)
replicate-snoc zero out = refl
replicate-snoc (suc m) out = ap (λ l. b'0' ∷ l) (replicate-snoc m out)

decimal_onto-zero : (m : ℕ) (out : List ℕ) → decimal_onto m 0 out ≡ replicate m b'0' ++ out
unfolding decimal_onto
decimal_onto-zero zero out = refl
decimal_onto-zero (suc m) out = decimal_onto-zero m (b'0' ∷ out) ∙ sym (replicate-snoc m out)

-- A number of fewer digits is written with zeros in front.
decimal_padded :
    (k m v : ℕ) → v < 10 ^ k → decimal_onto (k + m) v [] ≡ replicate m b'0' ++ decimal_onto k v []
decimal_padded k m v h = rw (← decimal_onto-add k m v [], div-eq_of_lt h) (decimal_onto-zero m _)

skip_digits :
    (k v : ℕ) (out : List ℕ) (j : ℕ) → get_or (decimal_onto k v out) (k + j) 0 ≡ get_or out j 0
unfolding decimal_onto
skip_digits zero v out j = ap (λ i. get_or out i 0) (omega arith)
skip_digits (suc k) v out j =
    let e : suc k + j ≡ k + suc j = omega arith in
    rw e (skip_digits k (v / 10) ((b'0' + v % 10) ∷ out) (suc j))

pub digit_at : (m i v : ℕ) → get_or (decimal_onto (i + suc m) v []) m 0 ≡ b'0' + v / 10 ^ i % 10
unfolding decimal_onto
digit_at m i v = rw (← decimal_onto-add i (suc m) v []) (
    ap (λ j. get_or (decimal_onto (suc m) (v / 10 ^ i) (decimal_onto i v [])) j 0)
      (sym (add-zero m))
    ∙ skip_digits m (v / 10 ^ i / 10) ((b'0' + v / 10 ^ i % 10) ∷ decimal_onto i v []) 0)

-- The masks of `num_uint_to_str` test that a value fits 16 or 32 bits.
fits16 : (val : ℕ) → val < 2 ^ 64 → bit_and val 0xffffffffffff0000 ≡ val / 2 ^ 16 * 2 ^ 16
fits16 val h = bit_and-high 16 val (2 ^ 48 - 1) ∙ omega (arith, bit_and-ones 48 (val / 2 ^ 16))

fits32 : (val : ℕ) → val < 2 ^ 64 → bit_and val 0xffffffff00000000 ≡ val / 2 ^ 32 * 2 ^ 32
fits32 val h = bit_and-high 32 val (2 ^ 32 - 1) ∙ omega (arith, bit_and-ones 32 (val / 2 ^ 32))

-- `n` digits are enough for `v`, and no fewer are.
pub record IsDigitCount (v n : ℕ) : Type 0 where
  pub enough : v < 10 ^ n
  pub fewest : (m : ℕ) → m < n → 10 ^ m ≤ v

-- The topmost of `n + 1` digits is 0 exactly where `n` digits are enough.
top_digit : (n v : ℕ) → v < 10 ^ suc n → v / 10 ^ n % 10 ≡ v / 10 ^ n
top_digit n v h =
    mod-eq_of_lt
      ((div-lt_iff_lt-mul (one-le-pow n 10 (omega arith))).1 (omega (arith, pow-suc 10 n)))

lt-of-top_zero : (n v : ℕ) → v < 10 ^ suc n → v / 10 ^ n % 10 ≡ 0 → v < 10 ^ n
lt-of-top_zero n v h e =
    let none : v / 10 ^ n ≡ 0 = sym (top_digit n v h) ∙ e in
    let whole : 10 ^ n * 0 + v % 10 ^ n ≡ v = rw none at (div-add-mod v (10 ^ n)) in
    omega (arith, whole, mod-lt v (one-le-pow n 10 (omega arith)))

le-of-top_nonzero : (n v : ℕ) → v / 10 ^ n % 10 ≢ 0 → 10 ^ n ≤ v
le-of-top_nonzero n v e = elim (dec_lt v (10 ^ n)) [
  | yes below ↦ absurd (e (rw (div-eq_of_lt below) refl))
  | no above ↦ omega arith
]

count_digits-IsDigitCount :
    (n v : ℕ) → n ≤ 20 → v < 10 ^ n → IsDigitCount v (count_digits n (decimal_onto 20 v []))
unfolding count_digits
count_digits-IsDigitCount zero v hn h = record { enough = h; fewest = λ m hm. elim hm [ ] }
count_digits-IsDigitCount (suc n) v hn h =
    let e : n + suc (20 - suc n) ≡ 20 = omega arith in
    let digit = digit_at (20 - suc n) n v in
    let read : get_or (decimal_onto 20 v []) (20 - suc n) 0 ≡ b'0' + v / 10 ^ n % 10 =
      rw e at digit in
    elim (Bool-cases (b'0' + v / 10 ^ n % 10 == b'0')) [
      | inl leading ↦
          rw (read, leading)
            (count_digits-IsDigitCount n v (omega arith) (lt-of-top_zero n v h (ground arith)))
      | inr last ↦
          rw (read, last)
            (record {
              enough = h;
              fewest = λ m hm.
                  le_trans (pow-le-pow_right (omega arith) (omega arith))
                    (le-of-top_nonzero n v (ground arith));
            })
    ]

abbrev Right : ℕ → List ℕ × ℕ → Type 0
Right val out = (out.0 ≡ decimal 20 val) × IsDigitCount val out.1

right :
    (val n : ℕ) {out : List ℕ}
    → n ≤ 20
    → val < 10 ^ n
    → out ≡ decimal_onto 20 val []
    → Right val (counted n out)
unfolding counted
right val n hn h e = rw (e, decimal_lem) (refl, count_digits-IsDigitCount n val hn h)

wider :
    (val : ℕ)
    → val < 2 ^ 64
    → Right val (
        if bit_and val 0xffffffff00000000 == 0
        then counted 10 (replicate 10 b'0' ++ num_uint32_to_str (val % 2 ^ 32))
        else counted 20 (num_uint64_to_str val))
wider val h = elim (dec_lt val (2 ^ 32)) [
  | yes small ↦
      let zero_mask : bit_and val 0xffffffff00000000 ≡ 0 = fits32 val h ∙ omega arith in
      let cut : val % 2 ^ 32 ≡ val = omega arith in
      rw (zero_mask, cut)
        (right val 10 (omega arith) (omega arith) (
          ap (λ l. replicate 10 b'0' ++ l) (num_uint32_to_str-decimal val small)
          ∙ sym (decimal_padded 10 10 val (omega arith))))
  | no large ↦
      let full_mask : (bit_and val 0xffffffff00000000 == 0) ≡ false =
        ground (arith, fits32 val h) in
      rw full_mask (right val 20 (omega arith) (omega arith) (num_uint64_to_str-decimal val h))
]

-- For every 64-bit value the buffer holds its 20 decimal digits, and the count that is returned is
-- the number of digits without leading zeros, which is 0 for 0.
pub num_uint_to_str-decimal :
    (val : ℕ)
    → val < 2 ^ 64
    → ((num_uint_to_str val).0 ≡ decimal 20 val) × IsDigitCount val (num_uint_to_str val).1
unfolding num_uint_to_str
num_uint_to_str-decimal val h = elim (dec_lt val (2 ^ 16)) [
  | yes small ↦
      let zero_mask : bit_and val 0xffffffffffff0000 ≡ 0 = fits16 val h ∙ omega arith in
      let cut : val % 2 ^ 16 ≡ val = omega arith in
      rw (zero_mask, cut)
        (right val 5 (omega arith) (omega arith) (
          ap (λ l. replicate 15 b'0' ++ l) (num_uint16_to_str-decimal val small)
          ∙ sym (decimal_padded 5 15 val (omega arith))))
  | no large ↦
      let full_mask : (bit_and val 0xffffffffffff0000 == 0) ≡ false =
        ground (arith, fits16 val h) in
      rw (full_mask) (wider val h)
]
