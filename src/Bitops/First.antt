-- ===== src/Bitops/First.antt =====
-- The first digit that is set.
use badger_os.Bits.Mask.{div-pow-suc, mod-pow-suc}
use badger_os.Base.{ℕ, zero, suc, ◌+◌, ◌-◌, ◌/◌, ◌%◌, ◌^◌, ◌<◌, ◌≡◌, ap, ◌∙◌, arith, inl, inr}
use badger_os.Base.{false, ◌==◌, Bool-cases}
use native.Mathlib.Nat.{pow-suc}
use badger_os.Bitops.{ffs_loop, ffs32, find_first_trailing_set_bit32}

-- The digit `k` of `x` is set, and none below it.
abbrev pub IsLowest : (x k : ℕ) → Type 0
IsLowest x k = (x % 2 ^ k ≡ 0) × (x / 2 ^ k % 2 ≡ 1)

ffs_loop_lem :
    (fuel x position : ℕ)
    → 0 < x
    → x < 2 ^ fuel
    → (k : ℕ) × (ffs_loop fuel x position ≡ position + k) × (k < fuel) × IsLowest x k
unfolding ffs_loop
ffs_loop_lem zero x position pos h = absurd (omega arith)
ffs_loop_lem (suc fuel) x position pos h =
    let some : (x == 0) ≡ false = ground arith in
    elim (Bool-cases (x % 2 == 1)) [
      | inl odd ↦
          (0, rw (ffs_loop, some, odd) (omega arith), omega arith, (omega arith, ground arith))
      | inr even ↦
          let pow = pow-suc 2 fuel in
          let half : x % 2 ≡ 0 = ground arith in
          let (k, e, lt, (low, digit)) =
            ffs_loop_lem fuel (x / 2) (position + 1) (omega arith) (omega arith) in
          (
            suc k,
            rw (ffs_loop, some, even) (omega arith),
            omega arith,
            (omega (arith, mod-pow-suc k x), ap (λ n. n % 2) (div-pow-suc k x) ∙ digit),
          )
    ]

-- The digit found in a word of 32 digits other than 0 is the lowest one that is set, and the
-- subtraction of 1 does not wrap.
pub find_first_trailing_set_bit32_lem :
    (x : ℕ)
    → 0 < x
    → x < 2 ^ 32
    → let k = find_first_trailing_set_bit32 x in (k < 32) × IsLowest x k
unfolding find_first_trailing_set_bit32 ffs32
find_first_trailing_set_bit32_lem x pos h =
    let nonzero : (x == 0) ≡ false = ground arith in
    let (k, e, lt, low) = ffs_loop_lem 32 x 1 pos h in
    let is : (ffs_loop 32 x 1 + 2 ^ 32 - 1) % 2 ^ 32 ≡ k = omega arith in rw (nonzero, is) (lt, low)
