-- ===== src/Mmu/Flags.antt =====
-- The flags that an entry keeps, and the part of a page number that a level reads.
use native.Mathlib.Nat.{pow-suc, mul_assoc}
use badger_os.Base.{
  ℕ, zero, suc, ◌+◌, ◌*◌, ◌/◌, ◌%◌, ◌^◌, ◌≤◌, ◌<◌, ◌≡◌, refl, ◌∙◌, ap, arith, bit_and, bit_or, Bool,
  not,
}
use badger_os.Base.{bit}
use badger_os.Bits.Mask.{
  bit_or-half, bit_or-mod_two, zero-bit_or, bit_and-ones, bit_and-high, bit_and-one,
}
use badger_os.Mmu.{Pte, mmu_pte_new_leaf, mmu_pte_get_flags, mmu_vpn_part}

pub mmu_vpn_part_lem : (v l : ℕ) → mmu_vpn_part v l ≡ v / 2 ^ (9 * l) % 512
unfolding mmu_vpn_part
mmu_vpn_part_lem v l = bit_and-ones 9 (v / 2 ^ (9 * l))

-- A word below `2 ^ k` and one of higher bits.
bit_or-apart : (k a b : ℕ) → b < 2 ^ k → bit_or b (a * 2 ^ k) ≡ a * 2 ^ k + b
bit_or-apart zero a b h =
    let e : b ≡ 0 = omega arith in rw e (zero-bit_or (a * 2 ^ 0) ∙ omega arith)
bit_or-apart (suc k) a b h =
    let p = pow-suc 2 k in
    let high : a * 2 ^ suc k ≡ a * 2 ^ k * 2 = rw (p, ← mul_assoc) refl in
    let half_b : b / 2 < 2 ^ k = omega arith in
    let half = bit_or-half b (a * 2 ^ suc k) in
    let low = bit_or-mod_two b (a * 2 ^ suc k) in
    let half_a : a * 2 ^ suc k / 2 ≡ a * 2 ^ k = omega arith in
    omega (arith, rw half_a at half, bit_or-apart k a (b / 2) half_b)

-- The flags of an entry as a sum.
pub get_flags_sum :
    (pte : Pte)
    → pte.rwx < 8
    → mmu_pte_get_flags pte ≡ pte.rwx + bit pte.g * 16 + bit (not pte.u) * 32
unfolding mmu_pte_get_flags
get_flags_sum pte h =
    let small : bit pte.g ≤ 1 = ground arith in
    let inner : bit_or pte.rwx (bit pte.g * 16) ≡ bit pte.g * 16 + pte.rwx =
      bit_or-apart 4 (bit pte.g) pte.rwx (omega arith) in
    rw inner
      (bit_or-apart 5 (bit (not pte.u)) (bit pte.g * 16 + pte.rwx) (omega arith) ∙ omega arith)

pub bit_and-16 : (flags : ℕ) → bit_and flags 16 ≡ flags / 16 % 2 * 16
bit_and-16 flags = bit_and-high 4 flags 1 ∙ ap (λ b. b * 16) (bit_and-one (flags / 16))

bit_and-32 : (flags : ℕ) → bit_and flags 32 ≡ flags / 32 % 2 * 32
bit_and-32 flags = bit_and-high 5 flags 1 ∙ ap (λ b. b * 32) (bit_and-one (flags / 32))

-- An entry made with flags has of them those for reading, writing and executing, the global and the
-- kernel flag, and reports just these.
pub mmu_pte_new_leaf-get_flags :
    (svpbmt : Bool) (ppn flags : ℕ)
    → mmu_pte_get_flags (mmu_pte_new_leaf svpbmt ppn flags)
      ≡ flags % 8 + flags / 16 % 2 * 16 + flags / 32 % 2 * 32
unfolding mmu_pte_new_leaf
mmu_pte_new_leaf-get_flags svpbmt ppn flags =
    let low : bit_and flags 7 ≡ flags % 8 = bit_and-ones 3 flags in
    let pte = mmu_pte_new_leaf svpbmt ppn flags in
    let global : bit pte.g ≡ flags / 16 % 2 = ground (arith, bit_and-16 flags) in
    let kernel : bit (not pte.u) ≡ flags / 32 % 2 = ground (arith, bit_and-32 flags) in
    get_flags_sum pte (omega arith) ∙ omega arith

-- Flags that an entry reports make an entry that reports them again, and one with the same rights.
pub get_flags-again :
    (svpbmt : Bool) (ppn : ℕ) (pte : Pte)
    → pte.rwx < 8
    → (mmu_pte_get_flags (mmu_pte_new_leaf svpbmt ppn (mmu_pte_get_flags pte))
        ≡ mmu_pte_get_flags pte)
      × ((mmu_pte_new_leaf svpbmt ppn (mmu_pte_get_flags pte)).rwx ≡ pte.rwx)
unfolding mmu_pte_new_leaf
get_flags-again svpbmt ppn pte h =
    let sum = get_flags_sum pte h in
    let flags = mmu_pte_get_flags pte in
    let small : bit pte.g ≤ 1 = ground arith in
    let small' : bit (not pte.u) ≤ 1 = ground arith in
    (mmu_pte_new_leaf-get_flags svpbmt ppn flags ∙ omega arith, bit_and-ones 3 flags ∙ omega arith)
