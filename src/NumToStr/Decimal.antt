-- ===== src/NumToStr/Decimal.antt =====
-- The loops of the three fixed-width conversions give the decimal digits of their argument.
use native.Mathlib.Nat.{
  pow-suc, mul_assoc, div-div-eq-div-mul, mod-eq_of_lt, div-eq_of_lt, mul-lt-mul_of_pos_right,
  add-mod_left, add-div_left, mul-le-mul_left, one-le-pow, div-one, pow-succ', zero-add, suc-add,
}
use badger_os.Base.{
  ℕ, zero, suc, ◌+◌, ◌-◌, ◌*◌, ◌/◌, ◌%◌, ◌^◌, ◌<◌, ◌≤◌, ◌≡◌, refl, ap₂, sym, arith,
}
use badger_os.Base.{bit_and, bit_or, ◌∙◌, List, [], ◌∷◌, dec_lt}
use badger_os.Bits.Mask.{bit_and-ones, bit_or-even_bit}
use badger_os.NumToStr.{dabble_mask, repeat, put_digits}
use badger_os.NumToStr.Dabble.{packed, ones, carry, add3, add3-packed}

-- The last `k` decimal digits of `v` as text, in front of `out`.
unfoldable pub decimal_onto : ℕ → ℕ → List ℕ → List ℕ
decimal_onto zero v out = out
decimal_onto (suc k) v out = decimal_onto k (v / 10) ((b'0' + v % 10) ∷ out)

unfoldable pub decimal : ℕ → ℕ → List ℕ
unfolding decimal_onto
decimal k v = decimal_onto k v []

-- A single digit is its own packed form.
pub packed_digit : (k q : ℕ) → q < 10 → packed (suc k) q ≡ q
unfolding packed
packed_digit zero q h = omega arith
packed_digit (suc k) q h =
    let none : q / 10 ≡ 0 = omega arith in rw (none, packed_digit k 0 (omega arith)) (omega arith)

pub decimal_lem : (k v : ℕ) → decimal k v ≡ decimal_onto k v []
unfolding decimal
decimal_lem k v = refl

pub packed-zero : (k : ℕ) → packed k 0 ≡ 0
unfolding packed
packed-zero zero = refl
packed-zero (suc k) = omega (arith, packed-zero k)

-- The digits above the lowest `m` are those of the quotient.
pub decimal_onto-add :
    (m k v : ℕ) (out : List ℕ)
    → decimal_onto k (v / 10 ^ m) (decimal_onto m v out) ≡ decimal_onto (m + k) v out
unfolding decimal_onto
decimal_onto-add zero k v out = rw (div-one, zero-add)
decimal_onto-add (suc m) k v out =
    let e : suc m + k ≡ suc (m + k) = suc-add m k in
    rw (pow-succ', ← div-div-eq-div-mul, e) (decimal_onto-add m k (v / 10) _)

pub packed-lt : (k v : ℕ) → packed k v < 16 ^ k
unfolding packed
packed-lt zero v = omega arith
packed-lt (suc k) v = omega (arith, packed-lt k (v / 10), pow-suc 16 k)

pub carry-lt : (k v b : ℕ) → b < 2 → carry k v b < 2
unfolding carry
carry-lt zero v b h = h
carry-lt (suc k) v b h = carry-lt k (v / 10) _ (omega arith)

-- Nothing is shifted out of digits that have room.
pub carry-eq-zero : (k v b : ℕ) → v * 2 + b < 10 ^ k → carry k v b ≡ 0
unfolding carry
carry-eq-zero zero v b h = omega arith
carry-eq-zero (suc k) v b h = carry-eq-zero k (v / 10) _ (omega (arith, pow-suc 10 k))

-- The carry is what the digits above are given.
pub div-carry : (k v b : ℕ) → (v * 2 + b) / 10 ^ k ≡ v / 10 ^ k * 2 + carry k v b
unfolding carry
div-carry zero v b = rw (div-one, div-one)
div-carry (suc k) v b =
    let c : ℕ = (v % 10 * 2 + b) / 10 in
    let tens : (v * 2 + b) / 10 ≡ v / 10 * 2 + c = omega arith in
    rw (pow-succ', ← div-div-eq-div-mul, tens, ← div-div-eq-div-mul) (div-carry k (v / 10) c)

-- `buf >> (4 * i)`, digit by digit.
shift-four : (i x : ℕ) → x / 2 ^ (4 * (i + 1)) ≡ x / 2 ^ (4 * i) / 16
shift-four i x =
    let e : 4 * (i + 1) ≡ suc (suc (suc (suc (4 * i)))) = omega arith in
    rw (e, pow-suc, pow-suc, pow-suc, pow-suc, mul_assoc, mul_assoc, mul_assoc, div-div-eq-div-mul)

pub put_digits-packed :
    (n k i v buf : ℕ) (out : List ℕ)
    → n ≤ k
    → buf / 2 ^ (4 * i) ≡ packed k v
    → put_digits n i buf out ≡ decimal_onto n v out
unfolding put_digits packed decimal_onto
put_digits-packed zero k i v buf out h e = refl
put_digits-packed (suc n) zero i v buf out h e = absurd (omega arith)
put_digits-packed (suc n) (suc k) i v buf out h e =
    let digit : bit_and (buf / 2 ^ (4 * i)) 15 ≡ v % 10 =
      omega (arith, bit_and-ones 4 (buf / 2 ^ (4 * i))) in
    rw digit
      (put_digits-packed n k (i + 1) (v / 10) buf _ (omega arith) (omega (arith, shift-four i buf)))

pub put_digits-decimal :
    (k v : ℕ) (out : List ℕ) → put_digits k 0 (packed k v) out ≡ decimal_onto k v out
put_digits-decimal k v out = put_digits-packed k k 0 v (packed k v) out (omega arith) (div-one _)

-- A round on one word of `k` digits that has room for a further bit.
pub round-packed :
    (k v b width : ℕ)
    → b < 2
    → v * 2 + b < 10 ^ k
    → 16 ^ k ≤ width
    → bit_or ((packed k v + bit_and (dabble_mask (packed k v)) (ones k) * 3) % width * 2 % width) b
      ≡ packed k (v * 2 + b)
round-packed k v b width hb small room =
    let sum = add3-packed k v b hb in
    let none_out : 16 ^ k * carry k v b ≡ 0 = rw (carry-eq-zero k v b small) (omega arith) in
    let below = packed-lt k (v * 2 + b) in
    let fits : add3 k (packed k v) % width ≡ add3 k (packed k v) = mod-eq_of_lt (omega arith) in
    let fits' : add3 k (packed k v) * 2 % width ≡ add3 k (packed k v) * 2 =
      mod-eq_of_lt (omega arith) in
    rw (fits, fits', bit_or-even_bit _ b hb) (omega arith)

-- The top bit of a word whose upper bits are `r`, and what is left of it.
record TopBit (n r unit modulus bit rest : ℕ) : Type 0 where
  fits : r * unit < modulus
  top : r * unit * 2 / modulus ≡ bit
  left : r * unit * 2 % modulus ≡ rest * (unit * 2)

module _ (n unit modulus : ℕ) (hm : unit * 2 ^ suc n ≡ modulus) (pos : 0 < modulus) where
  split_modulus : modulus ≡ 2 ^ n * (unit * 2)
  split_modulus = sym hm ∙ grind (arith, pow-suc 2 n)

  top_clear : (r : ℕ) → r < 2 ^ n → TopBit n r unit modulus 0 r
  top_clear r h =
      let scaled : r * (unit * 2) < 2 ^ n * (unit * 2) =
        mul-lt-mul_of_pos_right h (grind (arith, split_modulus)) in
      let e : r * unit * 2 ≡ r * (unit * 2) = mul_assoc r unit 2 in
      record {
        fits = omega (arith, split_modulus);
        top = rw e (div-eq_of_lt (omega (arith, split_modulus)));
        left = rw e (mod-eq_of_lt (omega (arith, split_modulus)));
      }

  top_set : (r : ℕ) → r < 2 ^ n → TopBit n (2 ^ n + r) unit modulus 1 r
  top_set r h =
      let unit_pos : 0 < unit * 2 = grind (arith, split_modulus) in
      let scaled : r * (unit * 2) < 2 ^ n * (unit * 2) = mul-lt-mul_of_pos_right h unit_pos in
      let e : (2 ^ n + r) * unit * 2 ≡ modulus + r * (unit * 2) = omega (arith, split_modulus) in
      let below : r * (unit * 2) < modulus = omega (arith, split_modulus) in
      record {
        fits = omega arith;
        top = rw (e, add-div_left _ pos, div-eq_of_lt below) refl;
        left = rw (e, add-mod_left, mod-eq_of_lt below);
      }

shifted_sum : (n q b r : ℕ) → (q * 2 + b) * 2 ^ n + r ≡ q * 2 ^ suc n + (b * 2 ^ n + r)
shifted_sum n q b r = rw pow-suc (omega arith)

-- A loop of `n` such rounds shifts in the upper `n` bits of `val`.
module _ {S : Type 0} (modulus limit : ℕ) (enc : ℕ → ℕ → S) (step : S → S)
    (round : (v val : ℕ)
      → val < modulus
      → v * 2 + val * 2 / modulus < limit
      → step (enc v val) ≡ enc (v * 2 + val * 2 / modulus) (val * 2 % modulus)) where
  next_unit : (n unit : ℕ) → unit * 2 ^ suc n ≡ modulus → unit * 2 * 2 ^ n ≡ modulus
  next_unit n unit hm = grind (arith, pow-suc 2 n)

  below_sum : (x n r : ℕ) → x * 2 ^ n + r < limit → x < limit
  below_sum x n r h = omega (arith, mul-le-mul_left x (one-le-pow n 2 (omega arith)))

  pub repeat-enc :
      (n q r unit : ℕ)
      → unit * 2 ^ n ≡ modulus
      → 0 < modulus
      → r < 2 ^ n
      → q * 2 ^ n + r < limit
      → repeat n step (enc q (r * unit)) ≡ enc (q * 2 ^ n + r) 0
  unfolding repeat
  repeat-enc zero q r unit hm pos hr hl =
      let e : r ≡ 0 = omega arith in rw e (ap₂ enc (omega arith) (omega arith))
  repeat-enc (suc n) q r unit hm pos hr hl = elim (dec_lt r (2 ^ n)) [
    | yes low ↦
        let t = top_clear n unit modulus hm pos r low in
        let sum : (q * 2 + 0) * 2 ^ n + r ≡ q * 2 ^ suc n + r =
          omega (arith, shifted_sum n q 0 r) in
        rw
          (
            round q (r * unit) t.fits (rw t.top (below_sum (q * 2 + 0) n r (rw sum hl))),
            t.top,
            t.left,
          )
          (repeat-enc n (q * 2 + 0) r (unit * 2) (next_unit n unit hm) pos low (rw sum hl)
            ∙ ap₂ enc sum refl)
    | no high ↦
        let rest : ℕ = r - 2 ^ n in
        let whole : 2 ^ n + rest ≡ r = omega arith in
        let small : rest < 2 ^ n = omega (arith, pow-suc 2 n) in
        let t : TopBit n r unit modulus 1 rest =
          rw whole at (top_set n unit modulus hm pos rest small) in
        let sum : (q * 2 + 1) * 2 ^ n + rest ≡ q * 2 ^ suc n + r =
          omega (arith, shifted_sum n q 1 rest) in
        rw
          (
            round q (r * unit) t.fits (rw t.top (below_sum (q * 2 + 1) n rest (rw sum hl))),
            t.top,
            t.left,
          )
          (repeat-enc n (q * 2 + 1) rest (unit * 2) (next_unit n unit hm) pos small (rw sum hl)
            ∙ ap₂ enc sum refl)
  ]
