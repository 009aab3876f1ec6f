-- ===== src/Buddy/Order.antt =====
-- `next_power_of_two` and `get_order` against powers of two.
use native.Mathlib.Nat.{pow-suc, one-le-pow, pow-le-pow_right, mod-eq_of_lt}
use badger_os.Base.{
  ℕ, zero, suc, ◌+◌, ◌-◌, ◌*◌, ◌%◌, ◌^◌, ◌≤◌, ◌<◌, ◌≡◌, refl, ap, ◌∙◌, arith, inl, inr,
}
use badger_os.Base.{leb, leb→le, ltb, lt→ltb, true, Bool-cases}
use badger_os.Bits.Mask.{pow-add}
use badger_os.Bits.Smear.{IsFull, smear-IsFull}
use badger_os.Bitops.{count_leading_unset_bits64, clz64}
use badger_os.Bitops.Leading.{clz64_lem}
use badger_os.Buddy.Pools.{next_power_of_two, get_order, smear}

digits : (n x : ℕ) → 0 < x → x < 2 ^ n → (k : ℕ) × (k ≤ n) × (2 ^ k ≤ x * 2) × (x < 2 ^ k)
digits zero x pos h = absurd (omega arith)
digits (suc n) x pos h = elim (Bool-cases (leb (2 ^ n) x)) [
  | inl large ↦
      let le = leb→le (2 ^ n) x large in (suc n, omega arith, omega (arith, pow-suc 2 n), h)
  | inr small ↦ let (k, le, a, b) = digits n x pos (ground arith) in (k, omega arith, a, b)
]

-- The smeared digits of `x`.
smeared : ℕ → ℕ
smeared x = smear 32 (smear 16 (smear 8 (smear 4 (smear 2 (smear 1 x)))))

smeared_lem : (k x : ℕ) → 0 < k → k ≤ 64 → x < 2 ^ k → 2 ^ k ≤ x * 2 → smeared x + 1 ≡ 2 ^ k
unfolding smeared
smeared_lem k x pos small hi lo =
    let e : 2 ^ k ≡ 2 ^ (k - 1) * 2 = ap (λ n. 2 ^ n) (omega arith) ∙ pow-suc 2 (k - 1) in
    let s0 : IsFull k 1 x = record { bound = hi; full = omega arith } in
    let s1 = smear-IsFull k 1 _ (omega arith) s0 in
    let s2 = smear-IsFull k 2 _ (omega arith) s1 in
    let s3 = smear-IsFull k 4 _ (omega arith) s2 in
    let s4 = smear-IsFull k 8 _ (omega arith) s3 in
    let s5 = smear-IsFull k 16 _ (omega arith) s4 in
    let s6 = smear-IsFull k 32 _ (omega arith) s5 in
    let q : 2 ^ (k - 64) ≡ 1 = ap (λ n. 2 ^ n) {y = 0} (omega arith) in
    let a = s6.bound in let b = s6.full in omega arith

clz64-pow : (k : ℕ) → k < 64 → 63 - clz64 (2 ^ k) ≡ k
clz64-pow k h =
    let up = pow-le-pow_right {n = 2} (omega arith) {i = k} {j = 63} (omega arith) in
    let (lo, hi) = clz64_lem (2 ^ k) (one-le-pow k 2 (omega arith)) (omega arith) in
    let c = clz64 (2 ^ k) in
    let e = pow-add k c in
    elim (Bool-cases (leb 64 (k + c))) [
      | inl over ↦
          let m = pow-le-pow_right {n = 2} (omega arith) (leb→le 64 (k + c) over) in
          absurd (omega arith)
      | inr fits ↦ elim (Bool-cases (leb 63 (k + c))) [
        | inl exact ↦ ground arith
        | inr under ↦
            let m = pow-le-pow_right {n = 2} (omega arith) {i = k + c} {j = 62} (ground arith) in
            absurd (omega arith)
      ]
    ]

get_order-pow : (size k : ℕ) → next_power_of_two size ≡ 2 ^ k → k < 64 → get_order size ≡ k
unfolding get_order count_leading_unset_bits64
get_order-pow size k power small =
    let pos : ltb 0 (2 ^ k) ≡ true = lt→ltb 0 (2 ^ k) (one-le-pow k 2 (omega arith)) in
    rw (power, pos) (clz64-pow k small)

-- The order of a number of pages from 1 to `2 ^ 63` is the smallest one whose blocks have as many
-- pages: the number is at most the size of a block of that order, and more than half of it.
pub get_order_lem :
    (pages : ℕ)
    → 0 < pages
    → pages ≤ 2 ^ 63
    → (pages ≤ 2 ^ get_order pages) × (2 ^ get_order pages < pages * 2) × (get_order pages < 64)
unfolding next_power_of_two smeared
get_order_lem pages pos small = elim (Bool-cases (leb pages 1)) [
  | inl one ↦
      let is : pages ≡ 1 = ground arith in
      let order = get_order-pow pages 0 (rw is refl) (omega arith) in
      rw (order, is) (omega arith, omega arith, omega arith)
  | inr more ↦
      let gt : 1 < pages = ground arith in
      let x = pages - 1 in
      let (k, le, lo, hi) = digits 63 x (omega arith) (omega arith) in
      let some : 0 < k = elim (Bool-cases (leb k 0)) [
        | inl empty ↦
            let z : 2 ^ k ≡ 1 = ap (λ n. 2 ^ n) {y = 0} (ground arith) in absurd (omega arith)
        | inr some ↦ ground arith
      ] in
      let s = smeared_lem k x some (omega arith) hi lo in
      let up = pow-le-pow_right {n = 2} (omega arith) le in
      let power : next_power_of_two pages ≡ 2 ^ k =
        rw more (ap (λ z. z % 2 ^ 64) s ∙ mod-eq_of_lt (omega arith)) in
      let order : get_order pages ≡ k = get_order-pow pages k power (omega arith) in
      rw order (omega arith, omega arith, omega arith)
]
