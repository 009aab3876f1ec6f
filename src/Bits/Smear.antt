-- ===== src/Bits/Smear.antt =====
-- What `x |= x >> t` does to the digits of `x`.
use native.Mathlib.Nat.{
  mul_assoc, pow-suc, one-le-pow, div-add-mod, pow-le-pow_right, mul-le-mul_right, mod-lt, mul_comm,
  div-le_self, div-eq_of_lt, le-div_iff_mul-le, div-lt_iff_lt-mul,
}
use badger_os.Base.{
  ℕ, zero, suc, ◌+◌, ◌-◌, ◌*◌, ◌/◌, ◌%◌, ◌^◌, ◌≤◌, ◌<◌, ◌≡◌, sym, ap, ◌∙◌, arith, inl, inr,
}
use badger_os.Base.{bit_or, leb, leb→le, Bool-cases}
use badger_os.Bits.Digit.{bit_or-digit}
use badger_os.Bits.Mask.{bit_or-zero, pow-add}

pub bit_or-lt : (k a b : ℕ) → a < 2 ^ k → b < 2 ^ k → bit_or a b < 2 ^ k
bit_or-lt zero a b ha hb =
    let ea : a ≡ 0 = omega arith in let eb : b ≡ 0 = omega arith in rw (ea, eb) (omega arith)
bit_or-lt (suc k) a b ha hb =
    let pow = pow-suc 2 k in
    omega (arith, bit_or-digit a b, bit_or-lt k (a / 2) (b / 2) (omega arith) (omega arith))

-- A disjunction with a number below `2 ^ r` keeps the digits above, and has that number's below.
bit_or-low : (r q u v : ℕ) → u < 2 ^ r → v < 2 ^ r → q * 2 ^ r + v ≤ bit_or (q * 2 ^ r + u) v
bit_or-low zero q u v hu hv =
    let ev : v ≡ 0 = omega arith in
    let eu : u ≡ 0 = omega arith in rw (ev, eu) (omega (arith, bit_or-zero (q * 1 + 0)))
bit_or-low (suc r) q u v hu hv =
    let pow = pow-suc 2 r in
    let e : q * 2 ^ suc r ≡ q * 2 ^ r * 2 = ap (λ x. q * x) pow ∙ sym (mul_assoc q (2 ^ r) 2) in
    let half : (q * 2 ^ suc r + u) / 2 ≡ q * 2 ^ r + u / 2 = omega arith in
    let f : bit_or ((q * 2 ^ suc r + u) / 2) (v / 2) ≡ bit_or (q * 2 ^ r + u / 2) (v / 2) =
      ap (λ x. bit_or x (v / 2)) half in
    let low = bit_or-low r q (u / 2) (v / 2) (omega arith) (omega arith) in
    omega (arith, bit_or-digit (q * 2 ^ suc r + u) v)

-- The highest `t` of `k` digits are set, or all of them.
pub record IsFull (k t x : ℕ) : Type 0 where
  pub bound : x < 2 ^ k
  pub full : 2 ^ k ≤ x + 2 ^ (k - t)

-- The part `v` of `x` shifted by `t`, the digits of `x` in two parts.
shifted :
    (p r r' x : ℕ)
    → 0 < p
    → 0 < r
    → x < p * r
    → p * r ≤ x + r
    → r ≤ p * r'
    → (x / p < r) × (r ≤ x / p + r') × (p ≤ x / r + 1)
shifted p r r' x pos pos' hi lo le =
    let e = mul_comm p r in
    let e' = mul_comm p r' in
    let first = (div-lt_iff_lt-mul {k = p} {x = x} {y = r} pos).1 (omega arith) in
    let top : (p - 1) * r ≤ x =
      let q : p * r ≡ (p - 1 + 1) * r = ap (λ z. z * r) (omega arith) in omega arith in
    let third = (le-div_iff_mul-le {k = r} {x = p - 1} {y = x} pos').1 top in
    let low : r ≤ x / p + r' = elim (Bool-cases (leb r r')) [
      | inl small ↦ let b = leb→le r r' small in omega arith
      | inr large ↦
          let q : r * p ≡ (r - r' + r') * p = ap (λ z. z * p) (ground arith) in
          let second = (le-div_iff_mul-le {k = p} {x = r - r'} {y = x} pos).1 (omega arith) in
          omega arith
    ] in
    (first, low, omega arith)

pub smear-IsFull : (k t x : ℕ) → 0 < t → IsFull k t x → IsFull k (t + t) (bit_or x (x / 2 ^ t))
smear-IsFull k t x pos h =
    let le = div-le_self x (2 ^ t) in
    let pt = one-le-pow t 2 (omega arith) in
    record {
      bound = bit_or-lt k x (x / 2 ^ t) h.bound (omega (arith, h.bound));
      full = elim (Bool-cases (leb k t)) [
        | inl all ↦
            let m = leb→le k t all in
            let e : k - t ≡ 0 = omega arith in
            let e' : k - (t + t) ≡ 0 = omega arith in
            let q : 2 ^ (k - t) ≡ 1 = ap (λ n. 2 ^ n) e in
            let q' : 2 ^ (k - (t + t)) ≡ 1 = ap (λ n. 2 ^ n) e' in
            let up = pow-le-pow_right {n = 2} (omega arith) m in
            let v : x / 2 ^ t ≡ 0 = div-eq_of_lt (omega (arith, h.bound)) in
            let f = h.full in rw (v, bit_or-zero) (omega arith)
        | inr part ↦
            let r = k - t in
            let r' = k - (t + t) in
            let lt : t < k = ground arith in
            let pk : 2 ^ k ≡ 2 ^ t * 2 ^ r = ap (λ n. 2 ^ n) (omega arith) ∙ pow-add t r in
            let pr = pow-le-pow_right {n = 2} (omega arith) {i = r} {j = t + r'} (omega arith) in
            let pr' = pow-add t r' in
            let f = h.full in
            let b = h.bound in
            let (v1, v2, v3) =
              shifted (2 ^ t) (2 ^ r) (2 ^ r') x pt (one-le-pow r 2 (omega arith)) (omega arith)
                (omega arith) (omega arith) in
            let d = div-add-mod x (2 ^ r) in
            let c = mul_comm (2 ^ r) (x / 2 ^ r) in
            let low =
              bit_or-low r (x / 2 ^ r) (x % 2 ^ r) (x / 2 ^ t)
                (mod-lt x (one-le-pow r 2 (omega arith))) v1 in
            let same : bit_or (x / 2 ^ r * 2 ^ r + x % 2 ^ r) (x / 2 ^ t) ≡ bit_or x (x / 2 ^ t) =
              ap (λ z. bit_or z (x / 2 ^ t)) (omega arith) in
            let m = mul-le-mul_right (2 ^ r) v3 in
            let m' : (x / 2 ^ r + 1) * 2 ^ r ≡ x / 2 ^ r * 2 ^ r + 2 ^ r = omega arith in
            omega arith
      ];
    }
