-- ===== src/IntRoutines/Signed.antt =====
-- The signed division functions truncate towards zero.
use native.Mathlib.Nat.{pow-suc, one-le-pow, mod-eq_of_lt, mod_self, div-le_self, mod-le}
use badger_os.Base.{ℕ, zero, suc, ◌-◌, ◌/◌, ◌%◌, ◌^◌, ◌<◌, ◌≤◌, ◌≡◌, refl, arith, not, ◌∙◌, ap, sym}
use badger_os.Base.{◌==◌, if◌then◌else◌, Bool, true, false}
use badger_os.IntRoutines.{div3, mod3, magnitude, negated, is_negative, signed}
use badger_os.IntRoutines.Division.{divmod_lem}

negated-nonzero : (w x : ℕ) → 0 < x → x < 2 ^ suc w → negated w x ≡ 2 ^ suc w - x
negated-nonzero w x pos h = mod-eq_of_lt (omega arith)

magnitude-le : (w x : ℕ) → x < 2 ^ suc w → magnitude w x ≤ 2 ^ w
magnitude-le w x h =
    let p = pow-suc 2 w in
    let q = one-le-pow w 2 (omega arith) in ground (arith, negated-nonzero w x)

magnitude-pos : (w x : ℕ) → 0 < x → x < 2 ^ suc w → 0 < magnitude w x
magnitude-pos w x pos h = ground (arith, negated-nonzero w x)

div3-mod3-magnitudes :
    (w a b : ℕ)
    → a < 2 ^ suc w
    → 0 < b
    → b < 2 ^ suc w
    → (div3 w a b
        ≡ signed w
            (if is_negative w a then not (is_negative w b) else is_negative w b)
            (magnitude w a / magnitude w b))
      × (mod3 w a b ≡ signed w (is_negative w a) (magnitude w a % magnitude w b))
unfolding div3 mod3
div3-mod3-magnitudes w a b ha pos hb =
    let p = pow-suc 2 w in
    let q = one-le-pow w 2 (omega arith) in
    let small_a = magnitude-le w a ha in
    let small_b = magnitude-le w b hb in
    let (r, d) =
      divmod_lem w (magnitude w a) (magnitude w b) (omega arith) (magnitude-pos w b pos hb)
        (omega arith) in
    let some_bit : (b == 0) ≡ false = ground arith in
    (simp (some_bit, d) refl, simp (some_bit, r) refl)

-- The two's complement of `-x` at `suc w` bits.
abbrev pub minus : (w x : ℕ) → ℕ
minus w x = if x == 0 then 0 else 2 ^ suc w - x

negated-minus : (w x : ℕ) → x ≤ 2 ^ w → negated w x ≡ minus w x
negated-minus w x h =
    let p = pow-suc 2 w in
    let q = one-le-pow w 2 (omega arith) in
    ground (arith, negated-nonzero w x, mod_self (2 ^ suc w))

-- The word of a number that is not negative, and that of one that is.
magnitude-plain :
    (w x : ℕ) → x < 2 ^ w → (is_negative w x ≡ false) × (magnitude w x ≡ x) × (x < 2 ^ suc w)
magnitude-plain w x h = let p = pow-suc 2 w in ground arith

magnitude-minus :
    (w x : ℕ)
    → 0 < x
    → x ≤ 2 ^ w
    → (is_negative w (minus w x) ≡ true)
      × (magnitude w (minus w x) ≡ x)
      × (0 < minus w x)
      × (minus w x < 2 ^ suc w)
magnitude-minus w x pos h = let p = pow-suc 2 w in ground (arith, negated-nonzero w (2 ^ suc w - x))

-- Division with the words of two numbers that are not 0, from their signs.
div3-mod3-signs :
    (w a b x y : ℕ) (s t : Bool)
    → (is_negative w a ≡ s) × (magnitude w a ≡ x) × (a < 2 ^ suc w)
    → (is_negative w b ≡ t) × (magnitude w b ≡ y) × (b < 2 ^ suc w)
    → 0 < b
    → (div3 w a b ≡ signed w (if s then not t else t) (x / y)) × (mod3 w a b ≡ signed w s (x % y))
div3-mod3-signs w a b x y s t (neg_a, mag_a, small_a) (neg_b, mag_b, small_b) pos =
    let (d, r) = div3-mod3-magnitudes w a b small_a pos small_b in
    let u = is_negative w b in
    let m = magnitude w a in
    let n = magnitude w b in
    let sign : (if is_negative w a then not u else u) ≡ (if s then not t else t) =
      ap (λ v. if v then not u else u) neg_a ∙ ap (λ v. if s then not v else v) neg_b in
    let quotient : m / n ≡ x / y = ap (λ v. v / n) mag_a ∙ ap (λ v. x / v) mag_b in
    let remainder : m % n ≡ x % y = ap (λ v. v % n) mag_a ∙ ap (λ v. x % v) mag_b in
    (
      d ∙ ap (λ v. signed w v (m / n)) sign ∙ ap (signed w (if s then not t else t)) quotient,
      r ∙ ap (λ v. signed w v (m % n)) neg_a ∙ ap (signed w s) remainder,
    )

signed_zero : (w : ℕ) (s : Bool) → signed w s 0 ≡ 0
signed_zero w true =
    let whole : 2 ^ suc w - 0 ≡ 2 ^ suc w = omega arith in
    ap (λ m. m % 2 ^ suc w) whole ∙ mod_self (2 ^ suc w)
signed_zero w false = refl

-- A dividend that is the word of `-x`.
div3-mod3-minus :
    (w b x y : ℕ) (t : Bool)
    → x ≤ 2 ^ w
    → (is_negative w b ≡ t) × (magnitude w b ≡ y) × (b < 2 ^ suc w)
    → 0 < b
    → (div3 w (minus w x) b ≡ signed w (not t) (x / y))
      × (mod3 w (minus w x) b ≡ signed w true (x % y))
div3-mod3-minus w b zero y t h divisor pos =
    let q : 0 / y ≡ 0 = omega (arith, div-le_self 0 y) in
    let r : 0 % y ≡ 0 = omega (arith, mod-le 0 y) in
    let some_bit = one-le-pow w 2 (omega arith) in
    let (d, m) =
      div3-mod3-signs w 0 b 0 y false t (magnitude-plain w 0 (omega arith)) divisor pos in
    (
      d
          ∙ ap (signed w t) q
          ∙ signed_zero w t
          ∙ sym (ap (signed w (not t)) q ∙ signed_zero w (not t)),
      m ∙ r ∙ sym (ap (signed w true) r ∙ signed_zero w true),
    )
div3-mod3-minus w b (suc x) y t h divisor pos =
    let (neg, mag, some_word, small) = magnitude-minus w (suc x) (omega arith) h in
    div3-mod3-signs w (minus w (suc x)) b (suc x) y true t (neg, mag, small) divisor pos

-- The signed division of `suc w` bits by a number other than 0 truncates towards zero, and the
-- remainder has the sign of the dividend: for magnitudes `x` and `y`, in each of the four cases of
-- the signs, `x / y` and `x % y` with the right sign, in two's complement. The magnitude of a
-- negative operand may be that of the least number.
pub div3-mod3 :
    (w x y : ℕ)
    → x ≤ 2 ^ w
    → 0 < y
    → y ≤ 2 ^ w
    → (x < 2 ^ w → y < 2 ^ w → (div3 w x y ≡ x / y) × (mod3 w x y ≡ x % y))
      × (y < 2 ^ w
          → (div3 w (minus w x) y ≡ minus w (x / y)) × (mod3 w (minus w x) y ≡ minus w (x % y)))
      × (x < 2 ^ w → (div3 w x (minus w y) ≡ minus w (x / y)) × (mod3 w x (minus w y) ≡ x % y))
      × ((div3 w (minus w x) (minus w y) ≡ x / y)
          × (mod3 w (minus w x) (minus w y) ≡ minus w (x % y)))
div3-mod3 w x y hx pos hy =
    let quotient = div-le_self x y in
    let remainder = mod-le x y in
    let minus_q = negated-minus w (x / y) (omega arith) in
    let minus_r = negated-minus w (x % y) (omega arith) in
    let (neg_y, mag_y, some_y, small_y) = magnitude-minus w y pos hy in
    (
      λ lx ly.
          div3-mod3-signs w x y x y false false (magnitude-plain w x lx) (magnitude-plain w y ly)
            pos,
      λ ly.
          let (d, r) = div3-mod3-minus w y x y false hx (magnitude-plain w y ly) pos in
          (d ∙ minus_q, r ∙ minus_r),
      λ lx.
          let (d, r) =
            div3-mod3-signs w x (minus w y) x y false true (magnitude-plain w x lx)
              (neg_y, mag_y, small_y) some_y in
          (d ∙ minus_q, r),
      let (d, r) = div3-mod3-minus w (minus w y) x y true hx (neg_y, mag_y, small_y) some_y in
          (d, r ∙ minus_r),
    )
