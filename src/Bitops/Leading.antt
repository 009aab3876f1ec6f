-- ===== src/Bitops/Leading.antt =====
-- The count of leading zeros.
use native.Mathlib.Nat.{mul_assoc, mod-eq_of_lt, mul-lt-mul_of_pos_right, mul-le-mul_right}
use mathlib.Core.Path.{subst}
use badger_os.Bits.Mask.{pow-add}
use badger_os.Base.{ℕ, ◌+◌, ◌-◌, ◌*◌, ◌%◌, ◌^◌, ◌≤◌, ◌<◌, ◌≡◌, refl, sym, ap, ◌∙◌, arith, inl, inr}
use badger_os.Base.{false, leb, ◌==◌, Bool-cases}
use badger_os.Bitops.{shift_small, count_small, clz32, clz64}

-- The pair `(n, x)` of a count: `x` is the word, moved by `n`, and at least `low`.
abbrev IsMoved : (w low word : ℕ) → ℕ × ℕ → Type 0
IsMoved w low word (n, x) = (x ≡ word * 2 ^ n) × (low ≤ x) × (x < 2 ^ w)

shift_small-IsMoved :
    (w s low word : ℕ) (c : ℕ × ℕ)
    → 2 ^ (w - s) * 2 ^ s ≡ 2 ^ w
    → low * 2 ^ s ≡ 2 ^ (w - s)
    → 1 ≤ 2 ^ s
    → IsMoved w low word c
    → IsMoved w (2 ^ (w - s)) word (shift_small w s c)
shift_small-IsMoved w s low word (n, x) e f pos (m, l, h) =
    elim (Bool-cases (leb x (2 ^ (w - s) - 1))) [
      | inr large ↦ rw large (m, ground arith, h)
      | inl small ↦
          let lt : x * 2 ^ s < 2 ^ w =
            subst (λ t. x * 2 ^ s < t) e (mul-lt-mul_of_pos_right (ground arith) pos) in
          let r : x * 2 ^ s % 2 ^ w ≡ x * 2 ^ s = mod-eq_of_lt lt in
          rw (small, r)
            (
              ap (λ k. k * 2 ^ s) m
                  ∙ mul_assoc word (2 ^ n) (2 ^ s)
                  ∙ ap (λ k. word * k) (sym (pow-add n s)),
              subst (λ t. t ≤ x * 2 ^ s) f (mul-le-mul_right (2 ^ s) l),
              lt,
            )
    ]

count_small-IsMoved :
    (w word : ℕ) (c : ℕ × ℕ)
    → 2 ^ (w - 1) * 2 ≡ 2 ^ w
    → IsMoved w (2 ^ (w - 2)) word c
    → 2 ^ (w - 2) * 2 ≡ 2 ^ (w - 1)
    → (2 ^ (w - 1) ≤ word * 2 ^ count_small w c) × (word * 2 ^ count_small w c < 2 ^ w)
count_small-IsMoved w word (n, x) e (m, l, h) f = elim (Bool-cases (leb x (2 ^ (w - 1) - 1))) [
  | inr large ↦ rw large (ground arith, omega arith)
  | inl small ↦
      let twice : word * 2 ^ (n + 1) ≡ x * 2 =
        ap (λ k. word * k) (pow-add n 1)
        ∙ sym (mul_assoc word (2 ^ n) 2)
        ∙ ap (λ k. k * 2) (sym m) in
      rw small (omega arith, ground arith)
]

-- The count of leading zeros of a word of 32 digits other than 0: moved up by it, the highest digit
-- of the word is the highest digit of all.
pub clz32_lem :
    (x : ℕ) → 0 < x → x < 2 ^ 32 → (2 ^ 31 ≤ x * 2 ^ clz32 x) × (x * 2 ^ clz32 x < 2 ^ 32)
unfolding clz32
clz32_lem x pos h =
    let nonzero : (x == 0) ≡ false = ground arith in
    let c0 : ℕ × ℕ = (0, x) in
    let m0 : IsMoved 32 (2 ^ 0) x c0 = (omega arith, pos, h) in
    let c1 = shift_small 32 16 c0 in
    let m1 = shift_small-IsMoved 32 16 (2 ^ 0) x c0 refl refl (omega arith) m0 in
    let c2 = shift_small 32 8 c1 in
    let m2 = shift_small-IsMoved 32 8 (2 ^ 16) x c1 refl refl (omega arith) m1 in
    let c3 = shift_small 32 4 c2 in
    let m3 = shift_small-IsMoved 32 4 (2 ^ 24) x c2 refl refl (omega arith) m2 in
    let c4 = shift_small 32 2 c3 in
    let m4 = shift_small-IsMoved 32 2 (2 ^ 28) x c3 refl refl (omega arith) m3 in
    rw nonzero (count_small-IsMoved 32 x c4 refl m4 refl)

-- The count of leading zeros of a word of 64 digits other than 0: moved up by it, the highest digit
-- of the word is the highest digit of all.
pub clz64_lem :
    (x : ℕ) → 0 < x → x < 2 ^ 64 → (2 ^ 63 ≤ x * 2 ^ clz64 x) × (x * 2 ^ clz64 x < 2 ^ 64)
unfolding clz64
clz64_lem x pos h =
    let nonzero : (x == 0) ≡ false = ground arith in
    let c0 : ℕ × ℕ = (0, x) in
    let m0 : IsMoved 64 (2 ^ 0) x c0 = (omega arith, pos, h) in
    let c1 = shift_small 64 32 c0 in
    let m1 = shift_small-IsMoved 64 32 (2 ^ 0) x c0 refl refl (omega arith) m0 in
    let c2 = shift_small 64 16 c1 in
    let m2 = shift_small-IsMoved 64 16 (2 ^ 32) x c1 refl refl (omega arith) m1 in
    let c3 = shift_small 64 8 c2 in
    let m3 = shift_small-IsMoved 64 8 (2 ^ 48) x c2 refl refl (omega arith) m2 in
    let c4 = shift_small 64 4 c3 in
    let m4 = shift_small-IsMoved 64 4 (2 ^ 56) x c3 refl refl (omega arith) m3 in
    let c5 = shift_small 64 2 c4 in
    let m5 = shift_small-IsMoved 64 2 (2 ^ 60) x c4 refl refl (omega arith) m4 in
    rw nonzero (count_small-IsMoved 64 x c5 refl m5 refl)
