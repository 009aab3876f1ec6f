-- ===== src/IntRoutines/Multiplication.antt =====
-- The shift-and-add multiplication computes the product.
use native.Mathlib.Nat.{
  mod-add-mod, mod-lt, mod-eq_of_lt, div-add-mod, add-mul-mod_self_left, add-mul-mod_self_right,
  pow-suc, mul-one, mul_assoc, mod-one,
}
use badger_os.Base.{
  ℕ, zero, suc, ◌+◌, ◌-◌, ◌*◌, ◌/◌, ◌%◌, ◌^◌, ◌<◌, ◌≤◌, ◌≡◌, ◌∙◌, sym, ap, inl, inr, arith,
}
use badger_os.Base.{bit_and, ◌==◌, Bool-cases}
use badger_os.Bits.Mask.{bit_and-one, mod-pow-suc}
use badger_os.IntRoutines.{mul_loop, mulsi3}

pow-add : (m n : ℕ) → 2 ^ (m + n) ≡ 2 ^ m * 2 ^ n
pow-add m zero = ap (λ k. 2 ^ k) (omega arith) ∙ sym (mul-one (2 ^ m))
pow-add m (suc n) =
    ap (λ k. 2 ^ k) (omega arith)
    ∙ pow-suc 2 (m + n)
    ∙ ap (λ p. p * 2) (pow-add m n)
    ∙ mul_assoc (2 ^ m) (2 ^ n) 2
    ∙ ap (λ p. 2 ^ m * p) (sym (pow-suc 2 n))

-- The bits that the loop has still to read are not changed by the sign bit that the shift keeps.
shift-mod : (n b : ℕ) → n ≤ 31 → (b / 2 + b / 2 ^ 31 * 2 ^ 31) % 2 ^ n ≡ b / 2 % 2 ^ n
shift-mod n b h =
    let split : 2 ^ (31 - n) * 2 ^ n ≡ 2 ^ 31 =
      sym (pow-add (31 - n) n) ∙ ap (λ k. 2 ^ k) {y = 31} (omega arith) in
    let kept : b / 2 ^ 31 * 2 ^ 31 ≡ b / 2 ^ 31 * 2 ^ (31 - n) * 2 ^ n =
      ap (λ p. b / 2 ^ 31 * p) (sym split) ∙ sym (mul_assoc (b / 2 ^ 31) (2 ^ (31 - n)) (2 ^ n)) in
    ap (λ x. (b / 2 + x) % 2 ^ n) kept
    ∙ add-mul-mod_self_right (b / 2) (b / 2 ^ 31 * 2 ^ (31 - n)) (2 ^ n)

-- Adding and doubling may wrap at any time.
accumulate_mod :
    (res a x : ℕ) → (res % 2 ^ 32 + a * 2 % 2 ^ 32 * x) % 2 ^ 32 ≡ (res + a * 2 * x) % 2 ^ 32
accumulate_mod res a x =
    let y = a * 2 in
    let e = div-add-mod y (2 ^ 32) in
    let times : y * x ≡ y % 2 ^ 32 * x + 2 ^ 32 * (y / 2 ^ 32 * x) =
      sym (ap (λ t. t * x) e) ∙ omega arith in
    mod-add-mod res (2 ^ 32) (y % 2 ^ 32 * x)
    ∙ sym (add-mul-mod_self_left (res + y % 2 ^ 32 * x) (2 ^ 32) (y / 2 ^ 32 * x))
    ∙ ap (λ t. t % 2 ^ 32) (omega arith)

mul_loop_lem :
    (n a b res : ℕ) → n ≤ 32 → res < 2 ^ 32 → mul_loop n a b res ≡ (res + a * (b % 2 ^ n)) % 2 ^ 32
unfolding mul_loop
mul_loop_lem zero a b res h small =
    let none_left : b % 2 ^ 0 ≡ 0 = mod-one b in
    sym (mod-eq_of_lt small) ∙ ap (λ t. t % 2 ^ 32) (rw none_left (omega arith))
mul_loop_lem (suc n) a b res h small =
    let digits = mod-pow-suc n b in
    let later = shift-mod n b (omega arith) in
    let low = bit_and-one b in
    let b' = b / 2 + b / 2 ^ 31 * 2 ^ 31 in
    elim (Bool-cases (bit_and b 1 == 1)) [
      | inl odd ↦
          let one : b % 2 ≡ 1 = ground arith in
          let rest =
            mul_loop_lem n (a * 2 % 2 ^ 32) b' ((res + a) % 2 ^ 32) (omega arith)
              (mod-lt (res + a) {m = 2 ^ 32} (omega arith)) in
          simp odd (
            rest
            ∙ ap (λ t. ((res + a) % 2 ^ 32 + a * 2 % 2 ^ 32 * t) % 2 ^ 32) later
            ∙ accumulate_mod (res + a) a (b / 2 % 2 ^ n)
            ∙ ap (λ t. t % 2 ^ 32) (rw (digits, one) (omega arith)))
      | inr even ↦
          let nil : b % 2 ≡ 0 = ground arith in
          let rest = mul_loop_lem n (a * 2 % 2 ^ 32) b' res (omega arith) small in
          let same : res ≡ res % 2 ^ 32 = sym (mod-eq_of_lt small) in
          simp even (
            rest
            ∙ ap (λ t. (res + a * 2 % 2 ^ 32 * t) % 2 ^ 32) later
            ∙ ap (λ t. (t + a * 2 % 2 ^ 32 * (b / 2 % 2 ^ n)) % 2 ^ 32) same
            ∙ accumulate_mod res a (b / 2 % 2 ^ n)
            ∙ ap (λ t. t % 2 ^ 32) (rw (digits, nil) (omega arith)))
    ]

-- `__mulsi3` returns the product modulo 2^32 of any two words, the negative ones included.
pub mulsi3_lem : (a b : ℕ) → b < 2 ^ 32 → mulsi3 a b ≡ a * b % 2 ^ 32
unfolding mulsi3
mulsi3_lem a b h =
    mul_loop_lem 32 a b 0 (omega arith) (omega arith)
    ∙ ap (λ x. (0 + a * x) % 2 ^ 32) (mod-eq_of_lt h)
    ∙ ap (λ t. t % 2 ^ 32) (omega arith)
